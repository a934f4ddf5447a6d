-- ===== src/WorkingSet/Delta/RoundTrip.antt =====
-- Integrating a delta: the round trip, and what an accepted hunk means.
use mathlib.Core.List.{reverse, flatten}
use tokenzero.Base.{
  ℕ, zero, suc, ◌+◌, ◌-◌, ◌≤◌, ◌≡◌, refl, sym, ap, ◌∙◌, List, [], ◌∷◌, ◌++◌, some, arith, Text,
  length, take, drop, length-take, length-drop, take-append-drop, max_u64,
}
use tokenzero.WorkingSet.Delta.{
  WorkingSetDelta, split_exact_lines, common, slice, hunk, delta_between, splice, integrate_delta,
}
use tokenzero.WorkingSet.Delta.Common.{
  flatten-split_exact_lines, common-le, take-common, lines_eq_refl, length-reverse,
  reverse-take-reverse,
}

module _ {ℓ} {A : Type ℓ} where
  drop-nil : (n : ℕ) → ◌≡◌ {A = List A} (drop n []) []
  drop-nil zero = refl
  drop-nil (suc n) = refl

  drop-drop : (m n : ℕ) (xs : List A) → drop n (drop m xs) ≡ drop (m + n) xs
  drop-drop zero n xs = let e : n ≡ 0 + n = omega arith in ap (λ k. drop k xs) e
  drop-drop (suc m) n [] = drop-nil n ∙ sym (drop-nil (suc m + n))
  drop-drop (suc m) n (x ∷ xs) =
      let e : suc m + n ≡ suc (m + n) = omega arith in rw e (drop-drop m n xs)

-- The tails of two lists behind their common suffix agree.
suffix-agrees :
    (xs ys : List Text)
    → let s = common (reverse xs) (reverse ys) in drop (length xs - s) xs ≡ drop (length ys - s) ys
suffix-agrees xs ys =
    let s = common (reverse xs) (reverse ys) in
    let fits = common-le (reverse xs) (reverse ys) in
    sym (reverse-take-reverse s xs (omega (arith, length-reverse xs)))
    ∙ ap reverse (take-common (reverse xs) (reverse ys))
    ∙ reverse-take-reverse s ys (omega (arith, length-reverse ys))

-- The hunk's parts, put together with the shared prefix and suffix, spell both line lists.
hunk_spells :
    (old new : List Text)
    → let d = hunk old new in
      let p = common old new in
      (slice p (p + length d.removed) old ≡ d.removed)
      × (take p old ++ (d.inserted ++ drop (p + length d.removed) old) ≡ new)
      × (p + length d.removed ≤ length old)
unfolding hunk
hunk_spells old new =
    let p = common old new in
    let old' = drop p old in
    let new' = drop p new in
    let s = common (reverse old') (reverse new') in
    let k = length (slice p (length old - s) old) in
    let shared = common-le old new in
    let tails = common-le (reverse old') (reverse new') in
    let old_len : length old' ≡ length old - p = length-drop p old in
    let new_len : length new' ≡ length new - p = length-drop p new in
    let e : p + k ≡ length old - s =
      omega (arith, length-take (length old - s - p) old', length-reverse old') in
    let kept : drop (p + k) old ≡ drop (length new' - s) new' =
      ap (λ t. drop t old) (omega (arith, e, length-reverse old', old_len))
      ∙ sym (drop-drop p (length old' - s) old)
      ∙ suffix-agrees old' new' in
    let cut : length new - s - p ≡ length new' - s = omega (arith, new_len) in
    (
      ap (λ t. slice p t old) e,
      ap (λ t. take p old ++ (take (length new - s - p) new' ++ t)) kept
          ∙ ap (λ t. take p old ++ (take t new' ++ drop (length new' - s) new')) cut
          ∙ ap (λ t. take p old ++ t) (take-append-drop (length new' - s) new')
          ∙ ap (λ t. t ++ new') (take-common old new)
          ∙ take-append-drop p new,
      omega (arith, e),
    )

-- What `integrate_delta` does once both checked additions succeed and the hunk fits.
splice_fits :
    (lines : List Text) (start end : ℕ) (d : WorkingSetDelta)
    → end ≤ length lines
    → slice start end lines ≡ d.removed
    → splice lines start end d ≡ some (flatten (take start lines ++ (d.inserted ++ drop end lines)))
unfolding splice
splice_fits lines start end d fits same = rw same (ground (arith, lines_eq_refl d.removed))

integrate_fits :
    (base : Text) (d : WorkingSetDelta) (start : ℕ)
    → let lines = split_exact_lines base in
      let end = start + length d.removed in
      d.start_line ≡ start + 1
      → end ≤ max_u64
      → end ≤ length lines
      → slice start end lines ≡ d.removed
      → integrate_delta base d ≡ some (flatten (take start lines ++ (d.inserted ++ drop end lines)))
unfolding integrate_delta
integrate_fits base d start at bounded fits same =
    let lines = split_exact_lines base in
    let e : d.start_line - 1 ≡ start = omega arith in
    ground (arith, e, splice_fits lines start (start + length d.removed) d fits same)

hunk_start : (old new : List Text) → (hunk old new).start_line ≡ common old new + 1
unfolding hunk
hunk_start old new = refl

-- Integrating the delta between two texts into the old one gives the new one, byte for byte, also
-- where the last line has no newline, for every old text of at most 2^64 - 1 lines.
pub integrate_delta-delta_between :
    (old new : Text)
    → length (split_exact_lines old) ≤ max_u64
    → integrate_delta old (delta_between old new) ≡ some new
unfolding delta_between
integrate_delta-delta_between old new bounded =
    let old_lines = split_exact_lines old in
    let new_lines = split_exact_lines new in
    let (same, spells, fits) = hunk_spells old_lines new_lines in
    integrate_fits old (hunk old_lines new_lines) (common old_lines new_lines)
      (hunk_start old_lines new_lines) (omega arith) fits same
    ∙ ap (λ t. some (flatten t)) spells
    ∙ ap some (flatten-split_exact_lines new)
