-- ===== src/Representation/Segmentation/Covers.antt =====
-- Covers of the source by candidates, and the walk back from an entry of the table to one.
use mathlib.Core.List.{reverse, reverse-cons}
use tokenzero.Base.{
  ℕ, zero, suc, ◌+◌, ◌≤◌, ◌<◌, ◌≡◌, refl, sym, subst, true, false, ◌==◌, some, List, [], ◌∷◌, ◌++◌,
  get_elem?, ok, arith, inl, inr,
}
use tokenzero.Representation.Segmentation.{SegmentCandidate, Best, Table, entry, walk}
use tokenzero.Representation.Segmentation.Table.{IsReached, Sound, StartsAt, Link}

==_refl : (j : ℕ) → j ≡ 0 → (j == 0) ≡ true
==_refl j h = ground arith

==_ne : (j : ℕ) → 0 < j → (j == 0) ≡ false
==_ne j h = ground arith

module _ {A : Type 0} (segment_of : A → SegmentCandidate) (n : ℕ) (items : List (A × ℕ)) where
  -- The segments, each a candidate with its cost, lead from a position to another without a gap.
  unfoldable pub IsCover : ℕ → ℕ → List A → ℕ → Type 0
  IsCover p q [] c = (p ≡ q) × (c ≡ 0)
  IsCover p q (a ∷ segments) c =
      (w : ℕ) × (i : ℕ) × (rest : ℕ) × (get_elem? items i ≡ some (a, w))
      × StartsAt segment_of n items p (a, w)
      × (c ≡ w + rest)
      × IsCover ((segment_of a).end) q segments rest

  pub IsCover-snoc :
      (p q : ℕ) (segments : List A) (c : ℕ) (x : A × ℕ) (i : ℕ)
      → IsCover p q segments c
      → get_elem? items i ≡ some x
      → StartsAt segment_of n items q x
      → IsCover p ((segment_of (x.0)).end) (segments ++ (x.0 ∷ [])) (c + x.1)
  unfolding IsCover
  IsCover-snoc p q [] c (a, w) i (e, z) is_item s = (
    w,
    i,
    0,
    is_item,
    subst (λ v. StartsAt segment_of n items v (a, w)) (sym e) s,
    omega (arith, z),
    (refl, refl),
  )
  IsCover-snoc p q (b ∷ segments) c x i (v, j, rest, is_b, starts, e, more) is_item s = (
    v,
    j,
    rest + x.1,
    is_b,
    starts,
    omega (arith, e),
    IsCover-snoc ((segment_of b).end) q segments rest x i more is_item s,
  )

  origin_free :
      (bound : ℕ) (t : Table) (j : ℕ) (b : Best)
      → j ≡ 0
      → IsReached segment_of n items bound t j (some b)
      → b.cost ≡ 0
  unfolding IsReached
  origin_free bound t j b z (inl (at_zero, free)) = free
  origin_free bound t j b z (inr (l, e)) = absurd (omega (arith, l.ahead))

  Link-IsCover :
      (bound j : ℕ) (b : Best) (l : Link segment_of n items bound j b) (segments : List A)
      → j ≤ n
      → IsCover 0 l.from segments l.before.cost
      → IsCover 0 j (segments ++ (l.item.0 ∷ [])) b.cost
  unfolding StartsAt
  Link-IsCover bound j b l segments within cover =
      let last =
        IsCover-snoc 0 l.from segments l.before.cost l.item l.index cover l.is_item
          (l.starts, omega (arith, l.ends, l.ahead), omega (arith, l.ends)) in
      subst (IsCover 0 j (segments ++ (l.item.0 ∷ []))) (sym l.costs) (
        subst (λ k. IsCover 0 k (segments ++ (l.item.0 ∷ [])) (l.before.cost + l.item.1)) l.ends
          last)

  -- The walk from a position ends, with a cover up to there at the cost of its entry.
  pub walk-IsCover :
      (bound : ℕ) (t : Table)
      → Sound segment_of n items bound t
      → (fuel j : ℕ) (b : Best) → j ≤ fuel
      → j ≤ n
      → IsReached segment_of n items bound t j (some b)
      → entry t j ≡ some b
      → (pushed : List A) × (walk segment_of fuel j items t ≡ ok pushed)
        × IsCover 0 j (reverse pushed) b.cost
  unfolding walk IsReached IsCover
  walk-IsCover bound t sound zero j b fits within r e = (
    [],
    rw (==_refl j (omega arith)) refl,
    (omega arith, origin_free bound t j b (omega arith) r),
  )
  walk-IsCover bound t sound (suc fuel) j b fits within (inl (zero_j, free)) e =
      ([], rw (==_refl j zero_j) refl, (sym zero_j, free))
  walk-IsCover bound t sound (suc fuel) j b fits within (inr (l, from)) e =
      let (pushed, walked, cover) =
        walk-IsCover bound t sound fuel l.from l.before (omega (arith, l.ahead))
          (omega (arith, l.ahead))
          (subst (IsReached segment_of n items bound t l.from) from (sound l.from)) from in
      (
        l.item.0 ∷ pushed,
        rw (==_ne j (omega (arith, l.ahead)), e, l.is_previous, l.is_candidate, l.is_item, walked)
            refl,
        subst (λ segments. IsCover 0 j segments b.cost) (sym (reverse-cons (l.item.0) pushed))
            (Link-IsCover bound j b l (reverse pushed) within cover),
      )
