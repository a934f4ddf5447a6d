-- ===== src/Representation/MultiTokenizer.antt =====
-- `optimal_multi_tokenizer_segmentation`: the effective cost of a candidate under several weighted
-- tokenizers. A `BTreeMap` is the list of its pairs in the order of its keys.
pub mod Bills
pub mod Costs
mod Tests
use tokenzero.Base.{
  ℕ, ◌+◌, ◌-◌, ◌*◌, ◌/◌, ◌^◌, min, Bool, true, false, not, ◌&&◌, ◌||◌, Option, none, some, List, [],
  ◌∷◌, Text, text_eq, text_ltb, map, leb, ◌==◌, if◌then◌else◌, length, checked_add, max_u64, Result,
  ok, err, ◌>>=◌, ◌>>◌, guard, ok_or,
}
use tokenzero.Representation.Segmentation.{
  SegmentCandidate, SegmentationError, no_tokenizer, bad_weights, bad_costs, disappeared,
  multi_overflow, not_u64, segment,
}

pub record TokenizerCost : Type 0 where
  pub tokenizer_root : Text
  pub tokens : ℕ

pub record TokenizerWeight : Type 0 where
  pub tokenizer_root : Text
  pub weight_ppm : ℕ

pub record MultiTokenizerSegmentCandidate : Type 0 where
  pub segment : SegmentCandidate
  pub tokenizer_costs : List TokenizerCost

pub record MultiTokenizerSegmentationPlan : Type 0 where
  pub total_cost : ℕ
  pub segments : List MultiTokenizerSegmentCandidate

abbrev pub Roots : Type 0
Roots = List (Text × ℕ)

unfoldable pub get : Text → Roots → Option ℕ
get root [] = none
get root ((r, n) ∷ rest) = if text_eq root r then some n else get root rest

-- `BTreeMap::insert`
unfoldable pub insert : Text → ℕ → Roots → Roots
insert root n [] = (root, n) ∷ []
insert root n ((r, m) ∷ rest) =
    let later = insert root n rest in
    if text_eq root r
    then (root, n) ∷ rest
    else if text_ltb root r
    then (root, n) ∷ ((r, m) ∷ rest)
    else (r, m) ∷ later

abbrev pub is_some : Option ℕ → Bool
is_some none = false
is_some (some n) = true

abbrev pub is_empty : {A : Type 0} → List A → Bool
is_empty [] = true
is_empty (x ∷ xs) = false

unfoldable pub weight_by_root : List TokenizerWeight → Roots → Result SegmentationError Roots
weight_by_root [] roots = ok roots
weight_by_root (w ∷ ws) roots =
    guard
      (not (
        is_empty w.tokenizer_root || ((w.weight_ppm == 0) || is_some (get w.tokenizer_root roots))))
      bad_weights
    >> weight_by_root ws (insert w.tokenizer_root w.weight_ppm roots)

unfoldable pub costs_of : List TokenizerCost → Roots → Roots
costs_of [] roots = roots
costs_of (c ∷ cs) roots = costs_of cs (insert c.tokenizer_root c.tokens roots)

unfoldable pub same_keys : Roots → Roots → Bool
same_keys [] [] = true
same_keys ((r, n) ∷ rs) ((q, m) ∷ qs) = text_eq r q && same_keys rs qs
same_keys rs qs = false

abbrev pub max_u128 : ℕ
max_u128 = 2 ^ 128 - 1

-- `saturating_mul` on u128, and `div_ceil(1_000_000)`.
abbrev pub share : ℕ → ℕ → ℕ
share tokens weight = (min (tokens * weight) max_u128 + 999999) / 1000000

-- The sum over the weights, in the order of their roots.
unfoldable pub weighted : Roots → ℕ → Roots → Result SegmentationError ℕ
weighted costs total [] = ok total
weighted costs total ((root, weight) ∷ rest) = ok_or (get root costs) disappeared >>= λ tokens.
    let next = total + share tokens weight in
    guard (leb next max_u128) multi_overflow >> weighted costs next rest

unfoldable pub effective_cost : Roots → MultiTokenizerSegmentCandidate → Result SegmentationError ℕ
unfolding weighted
effective_cost roots candidate =
    let costs = costs_of candidate.tokenizer_costs [] in
    guard ((length costs == length candidate.tokenizer_costs) && same_keys costs roots) bad_costs
    >> (weighted costs 0 roots >>= λ total.
        guard (leb total max_u64) not_u64
        >> ok_or (checked_add candidate.segment.additive_cost total) multi_overflow)

unfoldable pub effective_costs :
    Roots
    → List MultiTokenizerSegmentCandidate
    → Result SegmentationError (List (MultiTokenizerSegmentCandidate × ℕ))
unfolding effective_cost
effective_costs roots [] = ok []
effective_costs roots (c ∷ cs) =
    effective_cost roots c >>= λ cost. effective_costs roots cs >>= λ costs. ok ((c, cost) ∷ costs)

unfoldable pub optimal_multi_tokenizer_segmentation :
    ℕ
    → List MultiTokenizerSegmentCandidate
    → List TokenizerWeight
    → Result SegmentationError MultiTokenizerSegmentationPlan
unfolding segment weight_by_root effective_costs
optimal_multi_tokenizer_segmentation n candidates weights =
    guard (not (is_empty weights)) no_tokenizer
    >> (weight_by_root weights [] >>= λ roots. effective_costs roots candidates >>= λ items.
        segment (λ c. c.segment) n items >>= λ plan.
        ok (record { total_cost = plan.0; segments = plan.1 }))
