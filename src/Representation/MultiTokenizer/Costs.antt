-- ===== src/Representation/MultiTokenizer/Costs.antt =====
-- `optimal_multi_tokenizer_segmentation`: the prices of the candidates, and the search at them.
use tokenzero.Base.{
  ℕ, ◌+◌, ◌≡◌, refl, sym, ap, false, ◌&&◌, ◌==◌, some, List, [], ◌∷◌, map, leb, length, All, arith,
  checked_add, max_u64, Result, ok, err, ◌>>=◌, guard, >>=-ok,
}
use tokenzero.Representation.Segmentation.{
  SegmentationError, bad_costs, multi_overflow, not_u64, segment,
}
use tokenzero.Representation.Segmentation.Optimal.{IsSolved, segment-IsSolved}
use tokenzero.Representation.MultiTokenizer.{
  TokenizerWeight, MultiTokenizerSegmentCandidate, MultiTokenizerSegmentationPlan, Roots, is_empty,
  weight_by_root, costs_of, same_keys, weighted, effective_cost, effective_costs,
  optimal_multi_tokenizer_segmentation,
}
use tokenzero.Representation.MultiTokenizer.Bills.{
  Bill, pairs, ok_or-eq-ok, weighted-Bill, weight_by_root-Bill,
}

-- A candidate with its own cost and its bill for the weights.
pub Priced : List TokenizerWeight → MultiTokenizerSegmentCandidate × ℕ → Type 0
Priced weights (c, cost) =
    (bill : ℕ) × Bill c.tokenizer_costs (pairs weights) bill
    × (cost ≡ c.segment.additive_cost + bill)

checked_add-eq-some : (a b c : ℕ) → checked_add a b ≡ some c → c ≡ a + b
checked_add-eq-some a b c h = ground (arith, h)

effective_cost-Priced :
    (weights : List TokenizerWeight) (roots : Roots) (c : MultiTokenizerSegmentCandidate) (cost : ℕ)
    → weight_by_root weights [] ≡ ok roots
    → effective_cost roots c ≡ ok cost
    → Priced weights (c, cost)
unfolding effective_cost Priced
effective_cost-Priced weights roots c cost accepted h =
    let costs = costs_of c.tokenizer_costs [] in
    let (_, same, after) =
      >>=-ok (guard ((length costs == length c.tokenizer_costs) && same_keys costs roots) bad_costs)
        _ h in
    let (total, summed, more) = >>=-ok (weighted costs 0 roots) _ after in
    let (_, fits, added) = >>=-ok (guard (leb total max_u64) not_u64) _ more in
    let added_up =
      checked_add-eq-some c.segment.additive_cost total cost
        (ok_or-eq-ok (checked_add c.segment.additive_cost total) multi_overflow added) in
    let (all, sum, billed) = weighted-Bill c.tokenizer_costs roots 0 total summed in
    let (bill, none_before, split, nothing, sum') =
      weight_by_root-Bill c.tokenizer_costs weights [] roots all accepted billed in
    (bill, split, omega (arith, added_up, sum, sum', nothing))

effective_costs-Priced :
    (weights : List TokenizerWeight) (roots : Roots) (cs : List MultiTokenizerSegmentCandidate)
    (items : List (MultiTokenizerSegmentCandidate × ℕ))
    → weight_by_root weights [] ≡ ok roots
    → effective_costs roots cs ≡ ok items
    → (map (λ item. item.0) items ≡ cs) × All (Priced weights) items
unfolding effective_costs
effective_costs-Priced weights roots [] items accepted h =
    let same : [] ≡ items = cc in rw (sym same) (refl, tt)
effective_costs-Priced weights roots (c ∷ cs) items accepted h =
    let (cost, one, after) = >>=-ok (effective_cost roots c) _ h in
    let (costs, others, end) = >>=-ok (effective_costs roots cs) _ after in
    let same : (c, cost) ∷ costs ≡ items = cc in
    let (firsts, priced) = effective_costs-Priced weights roots cs costs accepted others in
    rw (sym same)
      (ap (◌∷◌ c) firsts, (effective_cost-Priced weights roots c cost accepted one, priced))

abbrev pub cost_and_segments :
    Result SegmentationError MultiTokenizerSegmentationPlan
    → Result SegmentationError (ℕ × List MultiTokenizerSegmentCandidate)
cost_and_segments (ok plan) = ok (plan.total_cost, plan.segments)
cost_and_segments (err e) = err e

-- When the weights and the candidates' costs are accepted, `optimal_multi_tokenizer_segmentation`
-- prices every candidate at its own cost plus, for each of the given weights, the least number of
-- whole tokens that covers the tokens which the candidate lists for that tokenizer times the weight
-- in millionths (a product counted up to 2^128 - 1). At these prices it ends as the search over one
-- tokenizer does: with segments that cover the source at the reported cost, such that no cover costs
-- less, with the report that no candidates cover it, with an overflow of u64 by some segments from
-- the start on, or with the refusal of an empty source.
pub optimal_multi_tokenizer_segmentation-IsSolved :
    (n : ℕ) (candidates : List MultiTokenizerSegmentCandidate) (weights : List TokenizerWeight)
    (roots : Roots) (items : List (MultiTokenizerSegmentCandidate × ℕ))
    → is_empty weights ≡ false
    → weight_by_root weights [] ≡ ok roots
    → effective_costs roots candidates ≡ ok items
    → (map (λ item. item.0) items ≡ candidates)
      × All (Priced weights) items
      × IsSolved
          (λ c. c.segment)
          n
          items
          (cost_and_segments (optimal_multi_tokenizer_segmentation n candidates weights))
unfolding optimal_multi_tokenizer_segmentation
optimal_multi_tokenizer_segmentation-IsSolved n candidates weights roots items some_weights accepted
      costed =
    let (firsts, priced) = effective_costs-Priced weights roots candidates items accepted costed in
    (
      firsts,
      priced,
      rw (some_weights, accepted, costed)
          (reported (segment (λ c. c.segment) n items) (segment-IsSolved (λ c. c.segment) n items)),
    )
  where
    reported :
        (run : Result SegmentationError (ℕ × List MultiTokenizerSegmentCandidate))
        → IsSolved (λ c. c.segment) n items run
        → IsSolved
            (λ c. c.segment)
            n
            items
            (cost_and_segments
              (run >>= λ plan. ok (record { total_cost = plan.0; segments = plan.1 })))
    reported (ok plan) s = s
    reported (err e) s = s
