-- ===== src/LivePareto/Tests.antt =====
-- Three candidates: one on the frontier, one that it dominates, and a cheaper one that is stale.
use mathlib.Core.List.{Perm}
use tokenzero.Base.{
  ℕ, ◌≡◌, refl, true, List, [], ◌∷◌, Text, codes, text_eq, text_ltb, map, filter, ok,
}
use tokenzero.Base.Sorting.{sort, insert_sorted}
use tokenzero.Representation.{
  RepresentationResources, dominates_or_equal, resources_eq, strictly_better_than,
}
use tokenzero.LivePareto.{
  pos, negsuc, int_leb, at_least, fresh, stale, EvidenceFreshness, ProtectedOutcome, LiveCandidate,
  has_control, no_worse_than, candidate_no_worse_than_baseline, outcome_strictly_better_than,
  validate_outcome, validate_verifier, validate_vector, validate_candidate, outcomes_comparable,
  live_dominates,
}
use tokenzero.LivePareto.Decision.{
  LiveParetoDecision, Canon, validate_candidates, first_dominator, joins_frontier, by_id, entry_of,
  validate_entries, validate_decision, decision_of, decide_live_pareto,
}
use tokenzero.LivePareto.Frontier.{
  is_undominated, fresh_ones, decide_live_pareto-frontier, decide_live_pareto-fresh_ones,
}

abbrev plain : Canon
plain = record {
  binding_digest_hex = λ c. c.candidate_id;
  canonical_body = λ version ids entries. version ∷ [];
  sha256_hex = λ bytes. bytes;
}

abbrev using : ℕ → RepresentationResources
using n = record {
  stored_bytes = n;
  wire_bytes = n;
  source_tokens = n;
  visible_tokens = n;
  expansion_work = n;
  verification_work = n;
  latency_micros = n;
  metadata_bytes = n;
}

abbrev outcome : ProtectedOutcome
outcome = record {
  metric_id = codes "accuracy";
  order = at_least;
  baseline_value = negsuc 4;
  candidate_value = pos 9;
}

abbrev candidate : Text → EvidenceFreshness → ℕ → LiveCandidate
candidate id freshness n = record {
  candidate_id = id;
  semantic_root = codes "s";
  adapter_root = codes "a";
  verifier = record { verifier_id = codes "v"; verifier_version = codes "1" };
  freshness = freshness;
  protected_vector = outcome ∷ [];
  resources = using n;
  exact = true;
}

abbrev three : List LiveCandidate
three =
    candidate (codes "c") stale 1
    ∷ (candidate (codes "b") fresh 3 ∷ (candidate (codes "a") fresh 2 ∷ []))

abbrev decided : LiveParetoDecision
decided = decision_of plain three

abbrev decided_fresh : LiveParetoDecision
decided_fresh = decision_of plain (fresh_ones three)

on_frontier : decided.frontier_ids ≡ codes "a" ∷ []
unfolding decision_of by_id sort insert_sorted text_ltb joins_frontier first_dominator
    live_dominates outcomes_comparable no_worse_than outcome_strictly_better_than dominates_or_equal
    strictly_better_than resources_eq text_eq int_leb entry_of
on_frontier = refl

is_decided : decide_live_pareto plain three ≡ ok decided
unfolding decide_live_pareto decision_of by_id sort insert_sorted text_ltb joins_frontier
    first_dominator live_dominates outcomes_comparable no_worse_than outcome_strictly_better_than
    dominates_or_equal strictly_better_than resources_eq text_eq int_leb entry_of
    validate_candidates validate_candidate validate_verifier validate_vector validate_outcome
    candidate_no_worse_than_baseline has_control validate_decision validate_entries
is_decided = refl

fresh_decided : decide_live_pareto plain (fresh_ones three) ≡ ok decided_fresh
unfolding decide_live_pareto decision_of by_id sort insert_sorted text_ltb joins_frontier
    first_dominator live_dominates outcomes_comparable no_worse_than outcome_strictly_better_than
    dominates_or_equal strictly_better_than resources_eq text_eq int_leb entry_of
    validate_candidates validate_candidate validate_verifier validate_vector validate_outcome
    candidate_no_worse_than_baseline has_control validate_decision validate_entries
fresh_decided = refl

decide_live_pareto-frontier_example :
    Perm decided.frontier_ids (map (λ c. c.candidate_id) (filter (is_undominated three) three))
decide_live_pareto-frontier_example = decide_live_pareto-frontier plain three decided is_decided

decide_live_pareto-fresh_ones_example : Perm decided.frontier_ids decided_fresh.frontier_ids
decide_live_pareto-fresh_ones_example =
    decide_live_pareto-fresh_ones plain three decided decided_fresh is_decided fresh_decided
