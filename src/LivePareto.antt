-- ===== src/LivePareto.antt =====
-- crates/tokenzero-core/src/live_pareto.rs: candidates with evidence, and when one dominates another.
pub mod Decision
pub mod Frontier
mod Tests
use tokenzero.Base.{
  ℕ, ◌*◌, Bool, true, false, not, ◌&&◌, ◌||◌, Option, none, some, List, [], ◌∷◌, Text, codes,
  text_eq, text_ltb, leb, ltb, ◌==◌, length, Result, ok, err, ◌>>◌, guard,
}
use tokenzero.Representation.{RepresentationResources, dominates_or_equal, strictly_better_than}

abbrev pub live_pareto_contract_version : ℕ
live_pareto_contract_version = 1

abbrev pub live_pareto_max_candidates : ℕ
live_pareto_max_candidates = 1024

abbrev pub live_pareto_max_metrics : ℕ
live_pareto_max_metrics = 128

abbrev pub live_pareto_max_id_bytes : ℕ
live_pareto_max_id_bytes = 128

abbrev pub live_pareto_max_canonical_bytes : ℕ
live_pareto_max_canonical_bytes = 1048576

-- An i64.
pub data ℤ : Type 0 where
  pos negsuc : ℕ → ℤ

unfoldable pub int_leb : ℤ → ℤ → Bool
int_leb (pos a) (pos b) = leb a b
int_leb (pos a) (negsuc b) = false
int_leb (negsuc a) (pos b) = true
int_leb (negsuc a) (negsuc b) = leb b a

abbrev pub int_eq : ℤ → ℤ → Bool
int_eq a b = int_leb a b && int_leb b a

pub data MetricOrder : Type 0 where
  at_least at_most exactly : MetricOrder

abbrev pub metric_order_eq : MetricOrder → MetricOrder → Bool
metric_order_eq at_least at_least = true
metric_order_eq at_most at_most = true
metric_order_eq exactly exactly = true
metric_order_eq a b = false

pub record ProtectedOutcome : Type 0 where
  pub metric_id : Text
  pub order : MetricOrder
  pub baseline_value : ℤ
  pub candidate_value : ℤ

pub record VerifierIdentity : Type 0 where
  pub verifier_id : Text
  pub verifier_version : Text

pub data EvidenceFreshness : Type 0 where
  fresh stale unknown missing : EvidenceFreshness

pub record LiveCandidate : Type 0 where
  pub candidate_id : Text
  pub semantic_root : Text
  pub adapter_root : Text
  pub verifier : VerifierIdentity
  pub freshness : EvidenceFreshness
  pub protected_vector : List ProtectedOutcome
  pub resources : RepresentationResources
  pub exact : Bool

pub data LiveError : Type 0 where
  invalid_metric_id regresses invalid_verifier_id invalid_verifier_version invalid_candidate_id
        duplicate_metric_id duplicate_candidate_id digest_mismatch binding_mismatch
        ineligible_in_frontier :
      Text → LiveError
  control_characters empty_roots too_many_metrics unsorted_vector no_candidates too_many_candidates
        version_mismatch canonical_too_long bad_entries unbound_json unsorted_frontier
        unsorted_entries frontier_disagrees body_too_long :
      LiveError

abbrev pub is_fresh : EvidenceFreshness → Bool
is_fresh fresh = true
is_fresh f = false

abbrev pub is_empty : {A : Type 0} → List A → Bool
is_empty [] = true
is_empty (x ∷ xs) = false

-- `chars().any(|c| c.is_control())`, on UTF-8 bytes: U+0000 to U+001F, and U+007F to U+009F.
unfoldable pub has_control : Text → Bool
has_control [] = false
has_control (b ∷ rest) =
    ltb b 32 || ((b == 127) || (((b == 194) && starts_c1 rest) || has_control rest))
  where
    starts_c1 : Text → Bool
    starts_c1 [] = false
    starts_c1 (c ∷ cs) = leb 128 c && leb c 159

abbrev pub id_ok : Text → Bool
id_ok id = not (is_empty id || (ltb live_pareto_max_id_bytes (length id) || has_control id))

unfoldable pub no_worse_than : ProtectedOutcome → ProtectedOutcome → Bool
no_worse_than a b =
    text_eq a.metric_id b.metric_id
    && (metric_order_eq a.order b.order && (elim a.order [
      | at_least ↦ int_leb b.candidate_value a.candidate_value
      | at_most ↦ int_leb a.candidate_value b.candidate_value
      | exactly ↦ int_eq a.candidate_value b.candidate_value
    ]))

unfoldable pub candidate_no_worse_than_baseline : ProtectedOutcome → Bool
candidate_no_worse_than_baseline a = elim a.order [
  | at_least ↦ int_leb a.baseline_value a.candidate_value
  | at_most ↦ int_leb a.candidate_value a.baseline_value
  | exactly ↦ int_eq a.candidate_value a.baseline_value
]

unfoldable pub outcome_strictly_better_than : ProtectedOutcome → ProtectedOutcome → Bool
outcome_strictly_better_than a b =
    text_eq a.metric_id b.metric_id
    && (metric_order_eq a.order b.order && (elim a.order [
      | at_least ↦ not (int_leb a.candidate_value b.candidate_value)
      | at_most ↦ not (int_leb b.candidate_value a.candidate_value)
      | exactly ↦ false
    ]))

unfoldable pub validate_outcome : ProtectedOutcome → Result LiveError (Unit {0})
unfolding candidate_no_worse_than_baseline
validate_outcome a =
    guard (id_ok a.metric_id) (invalid_metric_id a.metric_id)
    >> guard (candidate_no_worse_than_baseline a) (regresses a.metric_id)

unfoldable pub validate_verifier : VerifierIdentity → Result LiveError (Unit {0})
validate_verifier v =
    guard (id_ok v.verifier_id) (invalid_verifier_id v.verifier_id)
    >> guard (id_ok v.verifier_version) (invalid_verifier_version v.verifier_version)

abbrev pub contains : Text → List Text → Bool
contains id [] = false
contains id (x ∷ xs) = text_eq id x || contains id xs

-- A text after the one before it, if there is one.
abbrev pub ascends : Option Text → Text → Bool
ascends none id = true
ascends (some before) id = text_ltb before id

unfoldable pub validate_vector :
    List Text → Option Text → List ProtectedOutcome → Result LiveError (Unit {0})
unfolding validate_outcome
validate_vector seen before [] = ok tt
validate_vector seen before (m ∷ ms) =
    validate_outcome m
    >> (guard (not (contains m.metric_id seen)) (duplicate_metric_id m.metric_id)
        >> (guard (ascends before m.metric_id) unsorted_vector
            >> validate_vector (m.metric_id ∷ seen) (some m.metric_id) ms))

unfoldable pub validate_candidate : LiveCandidate → Result LiveError (Unit {0})
unfolding validate_verifier validate_vector
validate_candidate c =
    guard (not (is_empty c.candidate_id || ltb live_pareto_max_id_bytes (length c.candidate_id)))
      (invalid_candidate_id c.candidate_id)
    >> (guard (not (has_control c.candidate_id)) control_characters
        >> (guard (not (is_empty c.semantic_root || is_empty c.adapter_root)) empty_roots
            >> (validate_verifier c.verifier
                >> (guard (leb (length c.protected_vector) live_pareto_max_metrics) too_many_metrics
                    >> validate_vector [] none c.protected_vector))))

unfoldable pub outcomes_comparable : List ProtectedOutcome → List ProtectedOutcome → Bool
outcomes_comparable [] [] = true
outcomes_comparable (a ∷ xs) (b ∷ ys) =
    text_eq a.metric_id b.metric_id
    && (metric_order_eq a.order b.order
        && (int_eq a.baseline_value b.baseline_value && outcomes_comparable xs ys))
outcomes_comparable xs ys = false

-- `zip(...).all(...)` and `zip(...).any(...)`
abbrev pub all2 : {A : Type 0} → (A → A → Bool) → List A → List A → Bool
all2 p (a ∷ xs) (b ∷ ys) = p a b && all2 p xs ys
all2 p xs ys = true

abbrev pub any2 : {A : Type 0} → (A → A → Bool) → List A → List A → Bool
any2 p (a ∷ xs) (b ∷ ys) = p a b || any2 p xs ys
any2 p xs ys = false

abbrev pub verifier_eq : VerifierIdentity → VerifierIdentity → Bool
verifier_eq v w =
    text_eq v.verifier_id w.verifier_id && text_eq v.verifier_version w.verifier_version

unfoldable pub live_dominates : LiveCandidate → LiveCandidate → Bool
unfolding outcomes_comparable no_worse_than outcome_strictly_better_than dominates_or_equal
    strictly_better_than
live_dominates a b =
    (is_fresh a.freshness && not (is_empty a.protected_vector))
    && (not (text_eq a.candidate_id b.candidate_id)
        && (text_eq a.semantic_root b.semantic_root
            && text_eq a.adapter_root b.adapter_root
            && (verifier_eq a.verifier b.verifier
                && (outcomes_comparable a.protected_vector b.protected_vector
                    && (not (b.exact && not a.exact)
                        && (all2 no_worse_than a.protected_vector b.protected_vector
                            && (dominates_or_equal a.resources b.resources
                                && ((a.exact && not b.exact)
                                    || (strictly_better_than a.resources b.resources
                                        || any2 outcome_strictly_better_than a.protected_vector
                                            b.protected_vector)))))))))
