-- ===== src/Representation/Segmentation.antt =====
-- `optimal_segmentation`: the table of best costs, its rounds, and the walk back. The two functions
-- of the source run the same loops, over candidates of two types with their costs.
pub mod Table
pub mod Covers
pub mod Optimal
mod Tests
use mathlib.Core.List.{reverse}
use tokenzero.Base.{
  ℕ, zero, suc, ◌+◌, Bool, true, false, not, ◌&&◌, ◌||◌, Option, none, some, List, [], ◌∷◌, ◌++◌,
  Text, map, ltb, leb, ◌==◌, if◌then◌else◌, length, get_elem?, set, replicate, checked_add, Result,
  ok, err, ◌>>=◌, ok_or,
}

pub record SegmentCandidate : Type 0 where
  pub start : ℕ
  pub end : ℕ
  pub additive_cost : ℕ
  pub boundary_kind : Text

pub data SegmentationError : Type 0 where
  not_positive cost_overflow not_covered predecessor_missing candidate_missing out_of_bounds :
      SegmentationError
  no_tokenizer bad_weights bad_costs disappeared multi_overflow not_u64 : SegmentationError

-- An entry of `best`: the cost, the position before, and the index of the last candidate.
pub record Best : Type 0 where
  pub cost : ℕ
  pub previous : Option ℕ
  pub candidate : Option ℕ

abbrev pub Table : Type 0
Table = List (Option Best)

-- `best[i]`, of a position in range.
abbrev pub entry : Table → ℕ → Option Best
entry table i = elim (get_elem? table i) [ none ↦ none | some e ↦ e ]

-- `is_none_or(|(current, _, _)| total < current)`
abbrev pub improves : Option Best → ℕ → Bool
improves none total = true
improves (some b) total = ltb total b.cost

abbrev pub start_table : ℕ → Table
start_table n = some (record { cost = 0; previous = none; candidate = none }) ∷ replicate n none

-- What a checked sum does to the table.
abbrev pub relax : Table → ℕ → ℕ → ℕ → Option ℕ → Result SegmentationError Table
relax table position index next none = err cost_overflow
relax table position index next (some total) =
    if improves (entry table next) total
    then ok (
        set table next
          (some (record { cost = total; previous = some position; candidate = some index })))
    else ok table

module _ {A : Type 0} (segment_of : A → SegmentCandidate) where
  -- A candidate that the round at a position passes over.
  abbrev pub skips : ℕ → ℕ → A → Bool
  skips n position a =
      let s = segment_of a in not (s.start == position) || (leb s.end s.start || ltb n s.end)

  -- The inner loop: the candidates from an index on, with their costs.
  unfoldable pub scan : ℕ → ℕ → ℕ → ℕ → List (A × ℕ) → Table → Result SegmentationError Table
  scan n position cost index [] table = ok table
  scan n position cost index ((a, w) ∷ items) table =
      let later = scan n position cost (suc index) items in
      let relaxed =
        relax table position index ((segment_of a).end) (checked_add cost w) >>= later in
      if skips n position a then later table else relaxed

  abbrev pub round : ℕ → ℕ → List (A × ℕ) → Table → Option Best → Result SegmentationError Table
  round n position items table none = ok table
  round n position items table (some b) = scan n position b.cost 0 items table

  -- The outer loop, over the positions that are left.
  unfoldable pub rounds : ℕ → ℕ → ℕ → List (A × ℕ) → Table → Result SegmentationError Table
  unfolding scan
  rounds n zero position items table = ok table
  rounds n (suc left) position items table =
      round n position items table (entry table position) >>= rounds n left (suc position) items

  -- The walk back from a position, with what it pushes.
  unfoldable pub walk : ℕ → ℕ → List (A × ℕ) → Table → Result SegmentationError (List A)
  walk zero position items table = if position == 0 then ok [] else err out_of_bounds
  walk (suc fuel) position items table =
      let more = ok_or (entry table position) predecessor_missing >>= λ b.
      ok_or b.previous predecessor_missing >>= λ previous.
      ok_or b.candidate candidate_missing >>= λ index.
      ok_or (get_elem? items index) out_of_bounds >>= λ item.
      walk fuel previous items table >>= λ pushed. ok (item.0 ∷ pushed) in
      if position == 0 then ok [] else more

  abbrev pub plan_of :
      ℕ → List (A × ℕ) → Table → Option Best → Result SegmentationError (ℕ × List A)
  plan_of n items table none = err not_covered
  plan_of n items table (some b) = walk n n items table >>= λ pushed. ok (b.cost, reverse pushed)

  unfoldable pub segment : ℕ → List (A × ℕ) → Result SegmentationError (ℕ × List A)
  unfolding rounds walk
  segment n items =
      if n == 0
      then err not_positive
      else (rounds n n 0 items (start_table n) >>= λ table. plan_of n items table (entry table n))

pub record SegmentationPlan : Type 0 where
  pub total_cost : ℕ
  pub segments : List SegmentCandidate

abbrev pub priced : List SegmentCandidate → List (SegmentCandidate × ℕ)
priced = map (λ c. (c, c.additive_cost))

unfoldable pub optimal_segmentation :
    ℕ → List SegmentCandidate → Result SegmentationError SegmentationPlan
unfolding segment
optimal_segmentation n candidates = segment (λ c. c) n (priced candidates) >>= λ plan.
    ok (record { total_cost = plan.0; segments = plan.1 })
