-- ===== src/WorkingSet/Delta/Common.antt =====
-- Laws of splitting lines and of common prefixes.
use mathlib.Core.List.{reverse, flatten, reverse-append, reverse-reverse}
use tokenzero.Base.{
  ℕ, zero, suc, ◌-◌, ◌≤◌, ◌≡◌, refl, sym, ap, ◌∙◌, true, List, [], ◌∷◌, ◌++◌, arith, Text,
  text_eq→≡, text_eq_refl, Bool-cases, inl, inr, ◌==◌, length, take, drop, length-append,
  length-drop, take-append-drop,
}
use tokenzero.WorkingSet.Delta.{split_exact_lines, prepend, common, lines_eq, newline}

flatten-prepend : (c : ℕ) (ls : List Text) → flatten (prepend c ls) ≡ c ∷ flatten ls
unfolding flatten
flatten-prepend c [] = refl
flatten-prepend c (l ∷ ls) = refl

-- No byte is lost by cutting a text into lines.
pub flatten-split_exact_lines : (s : Text) → flatten (split_exact_lines s) ≡ s
unfolding split_exact_lines flatten
flatten-split_exact_lines [] = refl
flatten-split_exact_lines (c ∷ s) = elim (Bool-cases (c == newline)) [
  | inl e ↦ rw (e, split_exact_lines) (ap (◌∷◌ c) (flatten-split_exact_lines s))
  | inr e ↦
      rw (e, split_exact_lines)
        (flatten-prepend c (split_exact_lines s) ∙ ap (◌∷◌ c) (flatten-split_exact_lines s))
]

pub common-le : (xs ys : List Text) → (common xs ys ≤ length xs) × (common xs ys ≤ length ys)
unfolding common
common-le [] ys = omega arith
common-le (x ∷ xs) [] = omega arith
common-le (x ∷ xs) (y ∷ ys) = ground (arith, common-le xs ys)

pub take-common : (xs ys : List Text) → take (common xs ys) xs ≡ take (common xs ys) ys
unfolding common
take-common [] [] = refl
take-common [] (y ∷ ys) = refl
take-common (x ∷ xs) [] = refl
take-common (x ∷ xs) (y ∷ ys) = ground (arith, take-common xs ys, text_eq→≡ x y)

pub lines_eq_refl : (xs : List Text) → lines_eq xs xs ≡ true
unfolding lines_eq
lines_eq_refl [] = refl
lines_eq_refl (x ∷ xs) = ground (arith, text_eq_refl x, lines_eq_refl xs)

module _ {ℓ} {A : Type ℓ} where
  pub length-reverse : (xs : List A) → length (reverse xs) ≡ length xs
  length-reverse [] = refl
  length-reverse (x ∷ xs) =
      rw (reverse-append (x ∷ []) xs)
        (omega (arith, length-append (reverse xs) (x ∷ []), length-reverse xs))

  pub take_all : (n : ℕ) (a b : List A) → length a ≡ n → take n (a ++ b) ≡ a
  take_all n [] b h = rw (← h) refl
  take_all zero (x ∷ a) b h = absurd (omega arith)
  take_all (suc n) (x ∷ a) b h = ap (◌∷◌ x) (take_all n a b (omega arith))

  -- The first `s` elements from the end.
  pub reverse-take-reverse :
      (s : ℕ) (xs : List A)
      → s ≤ length xs
      → reverse (take s (reverse xs)) ≡ drop (length xs - s) xs
  reverse-take-reverse s xs h =
      let n = length xs - s in
      let a = take n xs in
      let b = drop n xs in
      ap (λ t. reverse (take s (reverse t))) (sym (take-append-drop n xs))
      ∙ ap (λ t. reverse (take s t)) (reverse-append a b)
      ∙ ap reverse
          (take_all s (reverse b) (reverse a) (omega (arith, length-reverse b, length-drop n xs)))
      ∙ reverse-reverse b
