-- ===== src/Recovery/Transparency/Heights.antt =====
-- The heights of the peaks: the powers of two that sum up to the size, and the ranges they cover.
use native.Mathlib.Nat.{one-le-pow, two-pow-succ}
use tokenzero.Base.{
  ℕ, zero, suc, ◌+◌, ◌-◌, ◌/◌, ◌^◌, ◌≤◌, ◌<◌, ltb, leb, ltb→lt, ◌≡◌, refl, ap, arith, ◌&&◌,
  Bool-cases, inl, inr, Option, some, List, [], ◌∷◌, get_elem?,
}
use tokenzero.Recovery.Transparency.{
  top_bit, heights_loop, peak_heights, ranges_from, peak_ranges, find_range,
}

pub pow-positive : (h : ℕ) → 0 < 2 ^ h
pow-positive h = one-le-pow h 2 (omega arith)

unfoldable pub total : List ℕ → ℕ
total [] = 0
total (h ∷ heights) = 2 ^ h + total heights

pub top_bit-le : (fuel n : ℕ) → 0 < n → 2 ^ top_bit fuel n ≤ n
unfolding top_bit
top_bit-le zero n h = omega (arith, h)
top_bit-le (suc fuel) n h = elim (Bool-cases (ltb n 2)) [
  | inl small ↦ rw small (omega (arith, h))
  | inr large ↦
      let at_least : 2 ≤ n = ground (arith, large) in
      let r = top_bit fuel (n / 2) in
      rw large
        (omega (arith, at_least, two-pow-succ r, top_bit-le fuel (n / 2) (omega (arith, at_least))))
]

total-heights_loop : (fuel n : ℕ) → n ≤ fuel → total (heights_loop fuel n) ≡ n
unfolding heights_loop total
total-heights_loop zero n h = omega (arith, h)
total-heights_loop (suc fuel) n h = elim (Bool-cases (ltb 0 n)) [
  | inl positive ↦
      let h' = top_bit n n in
      let top = top_bit-le n n (ltb→lt 0 n positive) in
      let rest = total-heights_loop fuel (n - 2 ^ h') (omega (arith, h, pow-positive h')) in
      rw (positive, rest) (omega (arith, top))
  | inr nothing ↦ rw nothing (ground (arith, nothing))
]

pub total-peak_heights : (n : ℕ) → total (peak_heights n) ≡ n
unfolding peak_heights
total-peak_heights n = total-heights_loop n n (omega arith)

-- The range that `find` stops at, and where it stands among the ranges.
pub record Found (ranges : List (ℕ × ℕ)) (at limit leaf_index : ℕ) (found : Option (ℕ × (ℕ × ℕ)))
    : Type 0 where
  pub place : ℕ
  pub start : ℕ
  pub size : ℕ
  pub is_found : found ≡ some (at + place, (start, size))
  pub stands : get_elem? ranges place ≡ some (start, size)
  pub from_start : start ≤ leaf_index
  pub within : leaf_index < start + size
  pub inside : start + size ≤ limit
  pub positive : 0 < size

find_range-Found :
    (heights : List ℕ) (start at leaf_index limit : ℕ)
    → start ≤ leaf_index
    → leaf_index < start + total heights
    → start + total heights ≤ limit
    → Found
        (ranges_from start heights)
        at
        limit
        leaf_index
        (find_range leaf_index at (ranges_from start heights))
unfolding ranges_from find_range total
find_range-Found [] start at leaf_index limit low high bound = absurd (omega (arith, low, high))
find_range-Found (h ∷ heights) start at leaf_index limit low high bound =
    elim (Bool-cases (leb start leaf_index && ltb leaf_index (start + 2 ^ h))) [
      | inl here ↦
          let within : leaf_index < start + 2 ^ h = ground (arith, here) in
          record {
            place = 0;
            start = start;
            size = 2 ^ h;
            is_found = rw here (ap (λ n. some (n, (start, 2 ^ h))) (omega arith));
            stands = refl;
            from_start = low;
            within = within;
            inside = omega (arith, bound);
            positive = pow-positive h;
          }
      | inr beyond ↦
          let past : start + 2 ^ h ≤ leaf_index = ground (arith, beyond, low) in
          let rest =
            find_range-Found heights (start + 2 ^ h) (suc at) leaf_index limit past
              (omega (arith, high)) (omega (arith, bound)) in
          record {
            place = suc rest.place;
            start = rest.start;
            size = rest.size;
            is_found =
                rw (beyond, rest.is_found)
                  (ap (λ n. some (n, (rest.start, rest.size))) (omega arith));
            stands = rest.stands;
            from_start = rest.from_start;
            within = rest.within;
            inside = rest.inside;
            positive = rest.positive;
          }
    ]

pub peak_ranges-Found :
    (n leaf_index : ℕ)
    → leaf_index < n
    → Found (peak_ranges n) 0 n leaf_index (find_range leaf_index 0 (peak_ranges n))
unfolding peak_ranges
peak_ranges-Found n leaf_index h =
    find_range-Found (peak_heights n) 0 0 leaf_index n (omega arith)
      (omega (arith, h, total-peak_heights n)) (omega (arith, total-peak_heights n))
