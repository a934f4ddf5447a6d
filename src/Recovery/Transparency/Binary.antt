-- ===== src/Recovery/Transparency/Binary.antt =====
-- The heights of the peaks are the binary digits of the size: they decrease, and nothing else that
-- decreases sums up to the size.
use native.Mathlib.Nat.{two-pow-succ, pow-le-pow_right}
use tokenzero.Base.{
  ℕ, zero, suc, ◌+◌, ◌-◌, ◌/◌, ◌^◌, ◌≤◌, ◌<◌, ltb, lt→ltb, ltb→lt, ◌≡◌, refl, ap, arith, true,
  Bool-cases, inl, inr, List, [], ◌∷◌,
}
use tokenzero.Recovery.Transparency.{top_bit, heights_loop, peak_heights}
use tokenzero.Recovery.Transparency.Heights.{pow-positive, total, top_bit-le}

top_bit-lt : (fuel n : ℕ) → n ≤ fuel → n < 2 ^ suc (top_bit fuel n)
unfolding top_bit
top_bit-lt zero n h = omega (arith, h, pow-positive 1)
top_bit-lt (suc fuel) n h = elim (Bool-cases (ltb n 2)) [
  | inl small ↦ rw small (ltb→lt n 2 small)
  | inr large ↦
      let at_least : 2 ≤ n = ground (arith, large) in
      let r = top_bit fuel (n / 2) in
      rw large (
        omega (
          arith,
          at_least,
          two-pow-succ (suc r),
          top_bit-lt fuel (n / 2) (omega (arith, h, at_least)),
        ))
]

-- A power of two with the larger value has the larger exponent.
exponent-lt : (g h : ℕ) → 2 ^ g < 2 ^ h → g < h
exponent-lt g h lt = elim (Bool-cases (ltb g h)) [
  | inl less ↦ ltb→lt g h less
  | inr other ↦ absurd (
      omega
        (arith, lt, pow-le-pow_right {n = 2} (omega arith) {i = h} {j = g} (ground (arith, other))))
]

top_bit_unique : (fuel n h : ℕ) → n ≤ fuel → 2 ^ h ≤ n → n < 2 ^ suc h → top_bit fuel n ≡ h
top_bit_unique fuel n h enough low high =
    let t = top_bit fuel n in
    let below : 2 ^ t ≤ n = top_bit-le fuel n (omega (arith, low, pow-positive h)) in
    let above : n < 2 ^ suc t = top_bit-lt fuel n enough in
    omega (
      arith,
      exponent-lt t (suc h) (omega (arith, below, high)),
      exponent-lt h (suc t) (omega (arith, low, above)),
    )

abbrev pub Below : ℕ → List ℕ → Type 0
Below h [] = Unit {0}
Below h (g ∷ heights) = g < h

abbrev pub Decreasing : List ℕ → Type 0
Decreasing [] = Unit {0}
Decreasing (h ∷ heights) = Below h heights × Decreasing heights

total-Decreasing :
    (h : ℕ) (heights : List ℕ) → Below h heights → Decreasing heights → total heights < 2 ^ h
unfolding total
total-Decreasing h [] below decreasing = pow-positive h
total-Decreasing h (g ∷ heights) below decreasing = omega (
  arith,
  total-Decreasing g heights (decreasing.0) (decreasing.1),
  two-pow-succ g,
  pow-le-pow_right {n = 2} (omega arith) {i = suc g} {j = h} below,
)

-- Decreasing heights are those of their sum.
heights_loop_unique :
    (fuel : ℕ) (heights : List ℕ)
    → total heights ≤ fuel
    → Decreasing heights
    → heights_loop fuel (total heights) ≡ heights
unfolding heights_loop total
heights_loop_unique zero [] enough decreasing = refl
heights_loop_unique (suc fuel) [] enough decreasing = refl
heights_loop_unique zero (h ∷ heights) enough decreasing =
    absurd (omega (arith, enough, pow-positive h))
heights_loop_unique (suc fuel) (h ∷ heights) enough decreasing =
    let n = 2 ^ h + total heights in
    let small = total-Decreasing h heights (decreasing.0) (decreasing.1) in
    let top : top_bit n n ≡ h =
      top_bit_unique n n h (omega arith) (omega arith) (omega (arith, small, two-pow-succ h)) in
    let positive : ltb 0 n ≡ true = lt→ltb 0 n (omega (arith, pow-positive h)) in
    let left : n - 2 ^ h ≡ total heights = omega arith in
    rw (positive, top, left)
      (ap (◌∷◌ h)
        (heights_loop_unique fuel heights (omega (arith, enough, pow-positive h)) (decreasing.1)))

pub peak_heights_unique :
    (heights : List ℕ) → Decreasing heights → peak_heights (total heights) ≡ heights
unfolding peak_heights
peak_heights_unique heights = heights_loop_unique (total heights) heights (omega arith)

heights_loop-Below : (fuel n h : ℕ) → n < 2 ^ h → Below h (heights_loop fuel n)
unfolding heights_loop
heights_loop-Below zero n h less = tt
heights_loop-Below (suc fuel) n h less = elim (Bool-cases (ltb 0 n)) [
  | inl positive ↦
      rw positive
        (exponent-lt (top_bit n n) h (omega (arith, less, top_bit-le n n (ltb→lt 0 n positive))))
  | inr nothing ↦ rw nothing tt
]

heights_loop-Decreasing : (fuel n : ℕ) → Decreasing (heights_loop fuel n)
unfolding heights_loop
heights_loop-Decreasing zero n = tt
heights_loop-Decreasing (suc fuel) n = elim (Bool-cases (ltb 0 n)) [
  | inl positive ↦
      let h = top_bit n n in
      rw positive (
        heights_loop-Below fuel (n - 2 ^ h) h (
            omega (
              arith,
              top_bit-lt n n (omega arith),
              two-pow-succ h,
              top_bit-le n n (ltb→lt 0 n positive),
            )),
        heights_loop-Decreasing fuel (n - 2 ^ h),
      )
  | inr nothing ↦ rw nothing tt
]

pub peak_heights-Decreasing : (n : ℕ) → Decreasing (peak_heights n)
unfolding peak_heights
peak_heights-Decreasing n = heights_loop-Decreasing n n
