-- ===== src/Recovery/Transparency/Layout.antt =====
-- The peaks of a log with their heights, laid out over its leaves, and as a mountain.
use mathlib.Core.List.{append_assoc, append-nil, reverse_aux}
use tokenzero.Base.{
  ℕ, zero, suc, ◌+◌, ◌^◌, ◌≡◌, refl, sym, ap, subst, ◌∙◌, arith, List, [], ◌∷◌, ◌++◌, map, length,
  take, drop, length-append, length-take, length-drop, take-append-drop, Text,
}
use tokenzero.Recovery.Transparency.{subtree_root, slice, peaks, ranges_from, zip_heights}
use tokenzero.Recovery.Transparency.Heights.{total}
use tokenzero.Recovery.Transparency.Binary.{Below, Decreasing}
use tokenzero.Recovery.Transparency.Mountain.{
  Under, Rising, Roots, Mountain, all_leaves, take-append, drop-append,
}

drop-nil : (n : ℕ) → drop {A = Text} n [] ≡ []
drop-nil zero = refl
drop-nil (suc n) = refl

drop-drop : (m n : ℕ) (xs : List Text) → drop n (drop m xs) ≡ drop (m + n) xs
drop-drop zero n xs = ap (λ k. drop k xs) (omega arith)
drop-drop (suc m) n [] = drop-nil n ∙ sym (drop-nil (suc m + n))
drop-drop (suc m) n (x ∷ xs) =
    let counted : suc (m + n) ≡ suc m + n = omega arith in
    drop-drop m n xs ∙ ap (λ k. drop k (x ∷ xs)) counted

-- The first height is under the peaks.
abbrev pub HeadUnder : List ℕ → List (ℕ × Text) → Type 0
HeadUnder [] peaks = Unit {0}
HeadUnder (h ∷ heights) peaks = Under h peaks

abbrev pub heights_of : List (ℕ × Text) → List ℕ
heights_of peaks = map (λ peak. peak.0) peaks

pub reverse_aux-Decreasing :
    (st : List (ℕ × Text)) (heights : List ℕ)
    → Rising st
    → Decreasing heights
    → HeadUnder heights st
    → Decreasing (reverse_aux (heights_of st) heights)
reverse_aux-Decreasing [] heights rising decreasing under = decreasing
reverse_aux-Decreasing ((h, x) ∷ st) [] rising decreasing under =
    reverse_aux-Decreasing st (h ∷ []) (rising.1) (tt, tt) (rising.0)
reverse_aux-Decreasing ((h, x) ∷ st) (g ∷ heights) rising decreasing under =
    reverse_aux-Decreasing st (h ∷ (g ∷ heights)) (rising.1) (under, decreasing) (rising.0)

module _ (sha256 : Text → Text) where
  -- The peaks over a list of leaves, by their heights.
  unfoldable pub build : List ℕ → List Text → List (ℕ × Text)
  build [] leaves = []
  build (h ∷ heights) leaves =
      (h, subtree_root sha256 (take (2 ^ h) leaves)) ∷ build heights (drop (2 ^ h) leaves)

  abbrev pub peak_of : List Text → ℕ × ℕ → Text
  peak_of leaves range = subtree_root sha256 (slice leaves range)

  pub zip_heights-build :
      (heights : List ℕ) (start : ℕ) (leaves : List Text)
      → zip_heights heights (map (peak_of leaves) (ranges_from start heights))
        ≡ build heights (drop start leaves)
  unfolding zip_heights ranges_from build
  zip_heights-build [] start leaves = refl
  zip_heights-build (h ∷ heights) start leaves = ap (◌∷◌ (h, peak_of leaves (start, 2 ^ h))) (
      zip_heights-build heights (start + 2 ^ h) leaves
      ∙ ap (build heights) (sym (drop-drop start (2 ^ h) leaves)))

  pub map-build :
      (heights : List ℕ) (start : ℕ) (leaves : List Text)
      → map (λ peak. peak.1) (build heights (drop start leaves))
        ≡ map (peak_of leaves) (ranges_from start heights)
  unfolding ranges_from build
  map-build [] start leaves = refl
  map-build (h ∷ heights) start leaves = ap (◌∷◌ (peak_of leaves (start, 2 ^ h))) (
      ap (λ rest. map (λ peak. peak.1) (build heights rest)) (drop-drop start (2 ^ h) leaves)
      ∙ map-build heights (start + 2 ^ h) leaves)

  -- The peaks over the leaves are a mountain, from the last to the first.
  pub build-Mountain :
      (heights : List ℕ) (leaves : List Text) (st : List (ℕ × Text)) (before : List Text)
      → Decreasing heights
      → HeadUnder heights st
      → total heights ≡ length leaves
      → Mountain sha256 st before
      → Mountain sha256 (reverse_aux (build heights leaves) st) (before ++ leaves)
  unfolding build total all_leaves
  build-Mountain [] [] st before decreasing under size m =
      subst (Mountain sha256 st) (sym (append-nil before)) m
  build-Mountain [] (leaf ∷ leaves) st before decreasing under size m = absurd (omega (arith, size))
  build-Mountain (h ∷ heights) leaves st before decreasing under size m =
      let part = take (2 ^ h) leaves in
      let rest = drop (2 ^ h) leaves in
      let next : Mountain sha256 ((h, subtree_root sha256 part) ∷ st) (before ++ part) = record {
        parts = part ∷ m.parts;
        roots = (refl, omega (arith, size, length-take (2 ^ h) leaves), m.roots);
        rising = (under, m.rising);
        joined = ap (λ front. front ++ part) m.joined;
      } in
      subst
        (Mountain sha256 (reverse_aux (build heights rest) ((h, subtree_root sha256 part) ∷ st)))
        (append_assoc before part rest ∙ ap (◌++◌ before) (take-append-drop (2 ^ h) leaves))
        (build-Mountain heights rest ((h, subtree_root sha256 part) ∷ st) (before ++ part)
          (decreasing.1) (head_under heights (decreasing.0))
          (omega (arith, size, length-drop (2 ^ h) leaves)) next)
    where
      head_under :
          (gs : List ℕ)
          → Below h gs
          → HeadUnder gs ((h, subtree_root sha256 (take (2 ^ h) leaves)) ∷ st)
      head_under [] below = tt
      head_under (g ∷ gs) below = below

  -- A mountain, read from the first peak, is built from its heights.
  pub reverse-build :
      (st : List (ℕ × Text)) (parts : List (List Text)) (heights : List ℕ) (rest : List Text)
      → Roots sha256 st parts
      → reverse_aux st (build heights rest)
        ≡ build (reverse_aux (heights_of st) heights) (all_leaves parts ++ rest)
  unfolding build all_leaves
  reverse-build [] [] heights rest roots = refl
  reverse-build [] (part ∷ parts) heights rest roots = absurd roots
  reverse-build (peak ∷ st) [] heights rest roots = absurd roots
  reverse-build ((h, x) ∷ st) (part ∷ parts) heights rest roots =
      ap (reverse_aux st) (
        cc (
          roots.0,
          take-append (2 ^ h) part rest (roots.1),
          drop-append (2 ^ h) part rest (roots.1),
        ))
      ∙ reverse-build st parts (h ∷ heights) (part ++ rest) (roots.2)
      ∙ ap (build (reverse_aux (heights_of st) (h ∷ heights)))
          (sym (append_assoc (all_leaves parts) part rest))

  pub total-reverse_aux :
      (st : List (ℕ × Text)) (parts : List (List Text)) (heights : List ℕ)
      → Roots sha256 st parts
      → total (reverse_aux (heights_of st) heights) ≡ length (all_leaves parts) + total heights
  unfolding total all_leaves
  total-reverse_aux [] [] heights roots = omega arith
  total-reverse_aux [] (part ∷ parts) heights roots = absurd roots
  total-reverse_aux (peak ∷ st) [] heights roots = absurd roots
  total-reverse_aux ((h, x) ∷ st) (part ∷ parts) heights roots = omega (
    arith,
    total-reverse_aux st parts (h ∷ heights) (roots.2),
    length-append (all_leaves parts) part,
    roots.1,
  )
