-- ===== src/Representation.antt =====
-- crates/tokenzero-core/src/representation_economics.rs: resource vectors, the Pareto frontier,
-- overfetch accounting and the value of a cached asset.
pub mod Frontier
pub mod Segmentation
pub mod MultiTokenizer
mod Tests
use tokenzero.Base.Sorting.{sort}
use tokenzero.Base.{
  ℕ, ◌+◌, ◌-◌, ◌*◌, Bool, true, false, not, ◌&&◌, ◌||◌, Option, none, some, List, [], ◌∷◌, Text,
  text_eq, text_ltb, ltb, leb, ◌==◌, if◌then◌else◌, any, filter, Result, ok, err, add_128, mul_128,
}

pub data RepresentationKind : Type 0 where
  raw_bytes chunk_manifest compressed_bytes syntax_tree semantic_ir claim_bundle proof_bundle delta
        model_rendering :
      RepresentationKind

pub record RepresentationResources : Type 0 where
  pub stored_bytes : ℕ
  pub wire_bytes : ℕ
  pub source_tokens : ℕ
  pub visible_tokens : ℕ
  pub expansion_work : ℕ
  pub verification_work : ℕ
  pub latency_micros : ℕ
  pub metadata_bytes : ℕ

unfoldable pub dominates_or_equal : RepresentationResources → RepresentationResources → Bool
dominates_or_equal a b =
    leb a.stored_bytes b.stored_bytes
    && (leb a.wire_bytes b.wire_bytes
        && (leb a.source_tokens b.source_tokens
            && (leb a.visible_tokens b.visible_tokens
                && (leb a.expansion_work b.expansion_work
                    && (leb a.verification_work b.verification_work
                        && (leb a.latency_micros b.latency_micros
                            && leb a.metadata_bytes b.metadata_bytes))))))

-- The derived equality.
unfoldable pub resources_eq : RepresentationResources → RepresentationResources → Bool
resources_eq a b =
    a.stored_bytes == b.stored_bytes
    && (a.wire_bytes == b.wire_bytes
        && (a.source_tokens == b.source_tokens
            && (a.visible_tokens == b.visible_tokens
                && (a.expansion_work == b.expansion_work
                    && (a.verification_work == b.verification_work
                        && (a.latency_micros == b.latency_micros
                            && a.metadata_bytes == b.metadata_bytes))))))

unfoldable pub strictly_better_than : RepresentationResources → RepresentationResources → Bool
unfolding dominates_or_equal resources_eq
strictly_better_than a b = dominates_or_equal a b && not (resources_eq a b)

pub record RepresentationRecord : Type 0 where
  pub representation_root : Text
  pub semantic_root : Text
  pub adapter_root : Text
  pub kind : RepresentationKind
  pub exact : Bool
  pub resources : RepresentationResources

-- The first record rules the second one out.
unfoldable pub beats : RepresentationRecord → RepresentationRecord → Bool
unfolding strictly_better_than
beats other candidate =
    not (text_eq other.representation_root candidate.representation_root)
    && (text_eq other.semantic_root candidate.semantic_root
        && (text_eq other.adapter_root candidate.adapter_root
            && ((not candidate.exact || other.exact)
                && strictly_better_than other.resources candidate.resources)))

unfoldable pub pareto_frontier : List RepresentationRecord → List RepresentationRecord
unfolding beats
pareto_frontier records =
    sort (λ a b. text_ltb a.representation_root b.representation_root)
      (filter (λ candidate. not (any (λ other. beats other candidate) records)) records)

pub record OverfetchAccounting : Type 0 where
  pub evidence_bytes : ℕ
  pub returned_bytes : ℕ
  pub sufficient_bytes : Option ℕ

unfoldable pub overfetch_bytes : OverfetchAccounting → Option ℕ
overfetch_bytes a = elim a.sufficient_bytes [
  | none ↦ none
  | some sufficient ↦ some (a.returned_bytes - sufficient)
]

pub data OverfetchError : Type 0 where
  returned_exceeds_available sufficient_exceeds_returned : OverfetchError

abbrev exceeds : Option ℕ → ℕ → Bool
exceeds none n = false
exceeds (some m) n = ltb n m

unfoldable pub validate : OverfetchAccounting → Result OverfetchError (Unit {0})
validate a =
    if ltb a.evidence_bytes a.returned_bytes
    then err returned_exceeds_available
    else if exceeds a.sufficient_bytes a.returned_bytes
    then err sufficient_exceeds_returned
    else ok tt

-- The products of u64 factors fit u128; their sum is at most (2^64 - 1) * 2^64.
unfoldable pub cache_asset_has_positive_value : ℕ → ℕ → ℕ → ℕ → ℕ → Bool
cache_asset_has_positive_value demand_rate saved_work storage_cost_rate invalidation_hazard
      maintenance_cost =
    ltb (add_128 storage_cost_rate (mul_128 invalidation_hazard maintenance_cost))
      (mul_128 demand_rate saved_work)
