-- ===== src/LivePareto/Decision.antt =====
-- `decide_live_pareto`: the frontier of the candidates, the entries with their reasons, and the
-- validation of a decision.
use tokenzero.Base.{
  ℕ, Bool, true, false, not, ◌&&◌, ◌||◌, Option, none, some, List, [], ◌∷◌, ◌++◌, Text, codes,
  text_eq, text_ltb, leb, ltb, ◌==◌, if◌then◌else◌, length, map, filter, Result, ok, ◌>>=◌, ◌>>◌,
  guard,
}
use tokenzero.Base.Sorting.{sort}
use tokenzero.Representation.{RepresentationResources}
use tokenzero.LivePareto.{
  live_pareto_contract_version, live_pareto_max_candidates, live_pareto_max_canonical_bytes,
  ProtectedOutcome, VerifierIdentity, EvidenceFreshness, fresh, stale, unknown, missing,
  LiveCandidate, LiveError, duplicate_candidate_id, digest_mismatch, binding_mismatch,
  ineligible_in_frontier, no_candidates, too_many_candidates, version_mismatch, canonical_too_long,
  bad_entries, unbound_json, unsorted_frontier, unsorted_entries, frontier_disagrees, body_too_long,
  is_fresh, is_empty, contains, ascends, validate_candidate, live_dominates,
}

pub record LiveEntry : Type 0 where
  pub candidate_id : Text
  pub candidate_binding_digest : Text
  pub freshness : EvidenceFreshness
  pub verifier : VerifierIdentity
  pub protected_vector : List ProtectedOutcome
  pub resources : RepresentationResources
  pub exact : Bool
  pub semantic_root : Text
  pub adapter_root : Text
  pub in_frontier : Bool
  pub reasons : List Text

pub record LiveParetoDecision : Type 0 where
  pub contract_version : ℕ
  pub decision_digest : Text
  pub frontier_ids : List Text
  pub entries : List LiveEntry
  pub canonical_json : Text

-- The canonical JSON of a candidate's binding and of a decision's body, and the digest in hex.
pub record Canon : Type 0 where
  pub binding_digest_hex : LiveCandidate → Text
  pub canonical_body : ℕ → List Text → List LiveEntry → Text
  pub sha256_hex : Text → Text

abbrev pub live_domain : Text
live_domain = codes "tokenzero.live_pareto.v1" ++ (0 ∷ [])

-- The checks of the candidates, with the ids that were seen.
unfoldable pub validate_candidates : List Text → List LiveCandidate → Result LiveError (Unit {0})
unfolding validate_candidate
validate_candidates seen [] = ok tt
validate_candidates seen (c ∷ cs) =
    validate_candidate c
    >> (guard (not (contains c.candidate_id seen)) (duplicate_candidate_id c.candidate_id)
        >> validate_candidates (c.candidate_id ∷ seen) cs)

-- The id of the first candidate that dominates, at which the search breaks off. Candidate ids are
-- distinct, so that no candidate dominates itself.
unfoldable pub first_dominator : LiveCandidate → List LiveCandidate → Option Text
unfolding live_dominates
first_dominator c [] = none
first_dominator c (other ∷ others) =
    let later = first_dominator c others in
    if live_dominates other c then some other.candidate_id else later

-- `dominated_by.get(&cand.candidate_id)`: candidate ids are distinct, so that the entry of a
-- candidate is the one that its own round writes.
abbrev pub dominated_by : List LiveCandidate → LiveCandidate → Option Text
dominated_by sorted c = if is_fresh c.freshness then first_dominator c sorted else none

abbrev pub freshness_reasons : EvidenceFreshness → List Text
freshness_reasons stale = codes "stale_evidence" ∷ []
freshness_reasons unknown = codes "unknown_evidence" ∷ []
freshness_reasons missing = codes "missing_evidence" ∷ []
freshness_reasons fresh = []

abbrev pub dominated_reasons : Option Text → List Text
dominated_reasons none = []
dominated_reasons (some id) = (codes "dominated_by:" ++ id) ∷ []

abbrev pub is_none : {A : Type 0} → Option A → Bool
is_none none = true
is_none (some a) = false

unfoldable pub joins_frontier : List LiveCandidate → LiveCandidate → Bool
unfolding first_dominator
joins_frontier sorted c =
    (is_fresh c.freshness && is_none (dominated_by sorted c)) && not (is_empty c.protected_vector)

unfoldable pub by_id : List LiveCandidate → List LiveCandidate
unfolding sort text_ltb
by_id candidates = sort (λ a b. text_ltb a.candidate_id b.candidate_id) candidates

module _ (canon : Canon) where
  open canon use {binding_digest_hex, canonical_body, sha256_hex}

  unfoldable pub entry_of : List LiveCandidate → LiveCandidate → LiveEntry
  unfolding joins_frontier
  entry_of sorted c = record {
    candidate_id = c.candidate_id;
    candidate_binding_digest = binding_digest_hex c;
    freshness = c.freshness;
    verifier = c.verifier;
    protected_vector = c.protected_vector;
    resources = c.resources;
    exact = c.exact;
    semantic_root = c.semantic_root;
    adapter_root = c.adapter_root;
    in_frontier = joins_frontier sorted c;
    reasons =
        freshness_reasons c.freshness
        ++ ((if is_empty c.protected_vector && is_fresh c.freshness
              then codes "missing_evidence" ∷ []
              else [])
            ++ dominated_reasons (dominated_by sorted c));
  }

  abbrev pub expected_digest : Text → Text
  expected_digest body = sha256_hex (live_domain ++ body)

  abbrev pub candidate_of : LiveEntry → LiveCandidate
  candidate_of e = record {
    candidate_id = e.candidate_id;
    semantic_root = e.semantic_root;
    adapter_root = e.adapter_root;
    verifier = e.verifier;
    freshness = e.freshness;
    protected_vector = e.protected_vector;
    resources = e.resources;
    exact = e.exact;
  }

  abbrev pub strictly_sorted : List Text → Bool
  strictly_sorted [] = true
  strictly_sorted (a ∷ []) = true
  strictly_sorted (a ∷ (b ∷ rest)) = text_ltb a b && strictly_sorted (b ∷ rest)

  -- The loop over the entries, which gives the flagged ids.
  unfoldable pub validate_entries : Option Text → List LiveEntry → Result LiveError (List Text)
  unfolding validate_candidate
  validate_entries before [] = ok []
  validate_entries before (e ∷ es) =
      guard (ascends before e.candidate_id) unsorted_entries
      >> (validate_candidate (candidate_of e)
          >> (guard (text_eq (binding_digest_hex (candidate_of e)) e.candidate_binding_digest)
                (binding_mismatch e.candidate_id)
              >> (guard
                    (not (
                      e.in_frontier && (not (is_fresh e.freshness) || is_empty e.protected_vector)))
                    (ineligible_in_frontier e.candidate_id)
                  >> (validate_entries (some e.candidate_id) es >>= λ flagged.
                      ok (if e.in_frontier then e.candidate_id ∷ flagged else flagged)))))

  abbrev pub same_ids : List Text → List Text → Bool
  same_ids [] [] = true
  same_ids (a ∷ xs) (b ∷ ys) = text_eq a b && same_ids xs ys
  same_ids xs ys = false

  unfoldable pub validate_decision : LiveParetoDecision → Result LiveError (Unit {0})
  unfolding validate_entries
  validate_decision d =
      let canonical = canonical_body d.contract_version d.frontier_ids d.entries in
      guard (d.contract_version == live_pareto_contract_version) version_mismatch
      >> (guard (leb (length d.canonical_json) live_pareto_max_canonical_bytes) canonical_too_long
          >> (guard (not (is_empty d.entries || ltb live_pareto_max_candidates (length d.entries)))
                bad_entries
              >> (guard (text_eq canonical d.canonical_json) unbound_json
                  >> (guard (text_eq (expected_digest canonical) d.decision_digest)
                        (digest_mismatch d.decision_digest)
                      >> (guard (strictly_sorted d.frontier_ids) unsorted_frontier
                          >> (validate_entries none d.entries >>= λ flagged.
                              guard (same_ids flagged d.frontier_ids) frontier_disagrees))))))

  -- What `decide_live_pareto` builds of valid candidates.
  unfoldable pub decision_of : List LiveCandidate → LiveParetoDecision
  unfolding entry_of by_id joins_frontier sort text_ltb
  decision_of candidates =
      let sorted = by_id candidates in
      let ids = sort text_ltb (map (λ c. c.candidate_id) (filter (joins_frontier sorted) sorted)) in
      let entries = map (entry_of sorted) sorted in
      let body = canonical_body live_pareto_contract_version ids entries in
      record {
        contract_version = live_pareto_contract_version;
        decision_digest = sha256_hex (live_domain ++ body);
        frontier_ids = ids;
        entries = entries;
        canonical_json = body;
      }

  unfoldable pub decide_live_pareto : List LiveCandidate → Result LiveError LiveParetoDecision
  unfolding validate_candidates decision_of validate_decision
  decide_live_pareto candidates =
      let decision = decision_of candidates in
      guard (not (is_empty candidates)) no_candidates
      >> (guard (leb (length candidates) live_pareto_max_candidates) too_many_candidates
          >> (validate_candidates [] candidates
              >> (guard (leb (length decision.canonical_json) live_pareto_max_canonical_bytes)
                    body_too_long
                  >> (validate_decision decision >> ok decision))))
