-- ===== src/Representation/Segmentation/Optimal.antt =====
-- What the filled table says of the covers of the source, and that the search finds a cheapest one.
use mathlib.Core.List.{reverse}
use native.Mathlib.Decide.{ℕ_discrete}
use tokenzero.Base.{
  ℕ, zero, suc, ◌+◌, ◌≤◌, ◌<◌, ◌≡◌, refl, ap, ◌∙◌, subst, ◌==◌, Option, none, some, List, [], ◌∷◌,
  ◌++◌, length, get_elem?, replicate, Result, ok, err, ◌>>=◌, Ends, Ends->>=, Ends-map, arith, inl,
  inr, Bool-cases, max_u64,
}
use tokenzero.Representation.Segmentation.{
  SegmentCandidate, SegmentationError, cost_overflow, not_covered, not_positive, Best, Table, entry,
  round, rounds, scan, segment, plan_of, start_table, SegmentationPlan, priced,
  optimal_segmentation,
}
use tokenzero.Representation.Segmentation.Table.{
  AtMost, AtMost-some, IsReached, Sound, StartsAt, Overflows, IsScanned, scan-IsScanned,
}
use tokenzero.Representation.Segmentation.Covers.{IsCover, IsCover-snoc, walk-IsCover}

module _ {A : Type 0} (segment_of : A → SegmentCandidate) (n : ℕ) (items : List (A × ℕ)) where
  -- The table once the positions before `v` have had their round.
  record Swept (v : ℕ) (t : Table) : Type 0 where
    size : length t ≡ suc n
    sound : Sound segment_of n items v t
    origin : AtMost (entry t 0) 0
    relaxed :
        (p : ℕ)
        → p < v
        → (i : ℕ) (x : A × ℕ) → get_elem? items i ≡ some x
        → StartsAt segment_of n items p x
        → (k : ℕ) → AtMost (entry t p) k
        → AtMost (entry t ((segment_of (x.0)).end)) (k + x.1)

  IsReached-mono :
      (v : ℕ) (t : Table) (j : ℕ) (o : Option Best)
      → IsReached segment_of n items v t j o
      → IsReached segment_of n items (suc v) t j o
  unfolding IsReached
  IsReached-mono v t j none r = tt
  IsReached-mono v t j (some b) (inl r) = inl r
  IsReached-mono v t j (some b) (inr (l, e)) = inr (
    record {
      from = l.from;
      before = l.before;
      index = l.index;
      item = l.item;
      is_previous = l.is_previous;
      is_candidate = l.is_candidate;
      is_item = l.is_item;
      starts = l.starts;
      ends = l.ends;
      ahead = l.ahead;
      bounded = omega (arith, l.bounded);
      costs = l.costs;
    },
    e,
  )

  IsScanned-Swept :
      (v : ℕ) (t u : Table) → Swept v t → IsScanned segment_of n items items v t u → Swept (suc v) u
  unfolding StartsAt
  IsScanned-Swept v t u p q = record {
    size = q.size ∙ p.size;
    sound = q.sound;
    origin = q.no_worse 0 0 p.origin;
    relaxed = λ j h i x is_item s k low. elim (ℕ_discrete j v) [
      | yes e ↦
          q.beats i x is_item (subst (λ z. StartsAt segment_of n items z x) e s) k
            (subst (λ o. AtMost o k) (ap (entry u) e ∙ q.kept v (omega arith)) low)
      | no e ↦ q.no_worse _ _ (
          p.relaxed j (omega arith) i x is_item s k
            (subst (λ o. AtMost o k) (q.kept j (omega arith)) low))
    ];
  }

  -- Some segments from the start on cost more than a u64 holds.
  pub CostOverflows : SegmentationError → Type 0
  CostOverflows e =
      (e ≡ cost_overflow)
      × (p : ℕ) × (segments : List A) × (c : ℕ) × IsCover segment_of n items 0 p segments c
      × (max_u64 < c)

  Overflows-CostOverflows :
      (v : ℕ) (t : Table) (b : Best) (e : SegmentationError)
      → v ≤ n
      → Swept v t
      → entry t v ≡ some b
      → Overflows segment_of n items v b e
      → CostOverflows e
  unfolding CostOverflows
  Overflows-CostOverflows v t b e within s at o =
      let (pushed, walked, cover) =
        walk-IsCover segment_of n items v t s.sound v v b (omega arith) within
          (subst (IsReached segment_of n items v t v) at (s.sound v)) at in
      (
        o.is_overflow,
        (segment_of (o.item.0)).end,
        reverse pushed ++ (o.item.0 ∷ []),
        b.cost + o.item.1,
        IsCover-snoc segment_of n items 0 v (reverse pushed) b.cost o.item o.index cover o.is_item
            o.taken,
        o.too_large,
      )

  unreached : (o : Option Best) (k : ℕ) → o ≡ none → ¬ AtMost o k
  unfolding AtMost
  unreached none k e low = low
  unreached (some c) k e low = cc

  round-Swept :
      (v : ℕ) (t : Table) (o : Option Best)
      → v < n
      → Swept v t
      → entry t v ≡ o
      → Ends CostOverflows (Swept (suc v)) (round segment_of n v items t o)
  round-Swept v t none h s at = record {
    size = s.size;
    sound = λ j. IsReached-mono v t j (entry t j) (s.sound j);
    origin = s.origin;
    relaxed = λ j h i x is_item c k low. elim (ℕ_discrete j v) [
      | yes e ↦ absurd (unreached (entry t j) k (ap (entry t) e ∙ at) low)
      | no e ↦ s.relaxed j (omega arith) i x is_item c k low
    ];
  }
  round-Swept v t (some b) h s at =
      Ends-map (Overflows segment_of n items v b) CostOverflows
        (IsScanned segment_of n items items v t) (Swept (suc v))
        (scan segment_of n v b.cost 0 items t)
        (scan-IsScanned segment_of n items v 0 items t b
          (λ i x e. subst (λ k. get_elem? items k ≡ some x) (omega arith) e) at s.size
          (λ j. IsReached-mono v t j (entry t j) (s.sound j)))
        (λ e. Overflows-CostOverflows v t b e (omega arith) s at) (λ u. IsScanned-Swept v t u s)

  rounds-Swept :
      (left v : ℕ) (t : Table)
      → v + left ≡ n
      → Swept v t
      → Ends CostOverflows (Swept n) (rounds segment_of n left v items t)
  unfolding rounds
  rounds-Swept zero v t h s = subst (λ k. Swept k t) (omega arith) s
  rounds-Swept (suc left) v t h s =
      Ends->>= CostOverflows (Swept (suc v)) (Swept n) (round segment_of n v items t (entry t v))
        (rounds segment_of n left (suc v) items) (round-Swept v t (entry t v) (omega arith) s refl)
        (λ u q. rounds-Swept left (suc v) u (omega arith) q)

  -- No cover is cheaper than the entry of the position it leads to.
  IsCover-AtMost :
      (t : Table)
      → Swept n t
      → (p q : ℕ) (segments : List A) (c k : ℕ) → IsCover segment_of n items p q segments c
      → AtMost (entry t p) k
      → AtMost (entry t q) (k + c)
  unfolding IsCover StartsAt
  IsCover-AtMost t s p q [] c k (e, free) low =
      subst (λ o. AtMost o (k + c)) (ap (entry t) e)
        (subst (AtMost (entry t p)) (omega (arith, free)) low)
  IsCover-AtMost t s p q (a ∷ segments) c k (w, i, rest, is_item, starts, e, more) low =
      subst (AtMost (entry t q)) (omega (arith, e)) (
        IsCover-AtMost t s ((segment_of a).end) q segments rest (k + w) more
          (s.relaxed p (omega (arith, starts)) i (a, w) is_item starts k low))

  length-replicate : {B : Type 0} (m : ℕ) (x : B) → length (replicate m x) ≡ m
  length-replicate zero x = refl
  length-replicate (suc m) x = ap suc (length-replicate m x)

  entry-replicate : (m j : ℕ) → entry (replicate m none) j ≡ none
  entry-replicate zero j = refl
  entry-replicate (suc m) zero = refl
  entry-replicate (suc m) (suc j) = entry-replicate m j

  start_table-Swept : Swept 0 (start_table n)
  unfolding IsReached AtMost
  start_table-Swept = record {
    size = ap suc (length-replicate n none);
    sound = elim [ zero ↦ inl (refl, refl) | suc j ↦ rw (entry-replicate n j) tt ];
    origin = omega arith;
    relaxed = λ p h. absurd (omega arith);
  }

  -- What a search from the first position to the last promises. Every other error is impossible.
  pub IsSolved : Result SegmentationError (ℕ × List A) → Type 0
  IsSolved (ok (cost, segments)) =
      IsCover segment_of n items 0 n segments cost
      × ((others : List A) (c : ℕ) → IsCover segment_of n items 0 n others c → cost ≤ c)
  IsSolved (err not_positive) = n ≡ 0
  IsSolved (err not_covered) = (others : List A) (c : ℕ) → ¬ IsCover segment_of n items 0 n others c
  IsSolved (err e) = CostOverflows e

  plan_of-IsSolved :
      (t : Table) (o : Option Best)
      → Swept n t
      → entry t n ≡ o
      → IsSolved (plan_of segment_of n items t o)
  unfolding IsSolved
  plan_of-IsSolved t none s e = λ others c cover.
      unreached (entry t n) (0 + c) e (IsCover-AtMost t s 0 n others c 0 cover s.origin)
  plan_of-IsSolved t (some b) s e =
      let (pushed, walked, cover) =
        walk-IsCover segment_of n items n t s.sound n n b (omega arith) (omega arith)
          (subst (IsReached segment_of n items n t n) e (s.sound n)) e in
      rw walked (
        cover,
        λ others c other. omega (
          arith,
          AtMost-some (entry t n) b (0 + c) e (IsCover-AtMost t s 0 n others c 0 other s.origin),
        ),
      )

  CostOverflows-IsSolved : (e : SegmentationError) → CostOverflows e → IsSolved (err e)
  unfolding IsSolved CostOverflows
  CostOverflows-IsSolved cost_overflow h = h
  CostOverflows-IsSolved e h = absurd (ground (arith, h.0))

  Swept-IsSolved :
      (run : Result SegmentationError Table)
      → Ends CostOverflows (Swept n) run
      → IsSolved (run >>= λ table. plan_of segment_of n items table (entry table n))
  Swept-IsSolved (ok t) s = plan_of-IsSolved t (entry t n) s refl
  Swept-IsSolved (err e) o = CostOverflows-IsSolved e o

  -- A search from the first position to the last ends: with segments that cover the source without a
  -- gap at the reported cost, and no cover costs less; or with the report that no candidates cover
  -- the source, and none do; or with an overflow, where some segments from the start on cost more
  -- than a u64 holds; or with the refusal of an empty source.
  pub segment-IsSolved : IsSolved (segment segment_of n items)
  unfolding segment IsSolved
  segment-IsSolved = elim (Bool-cases (n == 0)) [
    | inl h ↦ rw h (ground (arith, h))
    | inr h ↦ rw h (
        Swept-IsSolved (rounds segment_of n n 0 items (start_table n))
          (rounds-Swept n 0 (start_table n) (omega arith) start_table-Swept))
  ]

abbrev pub cost_and_segments :
    Result SegmentationError SegmentationPlan → Result SegmentationError (ℕ × List SegmentCandidate)
cost_and_segments (ok plan) = ok (plan.total_cost, plan.segments)
cost_and_segments (err e) = err e

-- `optimal_segmentation` ends: with segments that cover the source without a gap at the reported
-- total cost, such that no cover by the candidates costs less; or with the report that the
-- candidates do not cover the source, and no choice of them does; or with a cost overflow, where
-- some gapless segments from the start on cost more than a u64 holds; or with the refusal of a
-- source of length 0. Its other errors never happen.
pub optimal_segmentation-IsSolved :
    (n : ℕ) (candidates : List SegmentCandidate)
    → IsSolved
        (λ c. c)
        n
        (priced candidates)
        (cost_and_segments (optimal_segmentation n candidates))
unfolding optimal_segmentation
optimal_segmentation-IsSolved n candidates =
    reported (segment (λ c. c) n (priced candidates))
      (segment-IsSolved (λ c. c) n (priced candidates))
  where
    reported :
        (run : Result SegmentationError (ℕ × List SegmentCandidate))
        → IsSolved (λ c. c) n (priced candidates) run
        → IsSolved
            (λ c. c)
            n
            (priced candidates)
            (cost_and_segments
              (run >>= λ plan. ok (record { total_cost = plan.0; segments = plan.1 })))
    reported (ok plan) s = s
    reported (err e) s = s
