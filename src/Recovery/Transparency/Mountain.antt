-- ===== src/Recovery/Transparency/Mountain.antt =====
-- The peaks of a log, from the last to the first, and what appending a leaf does to them: equal
-- heights merge, as in a binary counter.
use mathlib.Core.List.{append_assoc, append-nil}
use native.Mathlib.Nat.{two-pow-succ}
use tokenzero.Base.{
  ℕ, zero, suc, ◌+◌, ◌/◌, ◌^◌, ◌≤◌, ◌<◌, ◌==◌, ◌≡◌, refl, sym, ap, subst, ◌∙◌, arith, Bool-cases,
  inl, inr, List, [], ◌∷◌, ◌++◌, length, take, drop, length-append, Text,
}
use tokenzero.Recovery.Transparency.{hash_node, subtree_loop, subtree_root, carry, append_leaves}
use tokenzero.Recovery.Transparency.Heights.{pow-positive}
use tokenzero.Recovery.Transparency.Inclusion.{subtree_loop-enough}

pub take-append : (n : ℕ) (xs ys : List Text) → length xs ≡ n → take n (xs ++ ys) ≡ xs
take-append zero [] ys h = refl
take-append (suc n) [] ys h = absurd (omega (arith, h))
take-append zero (x ∷ xs) ys h = absurd (omega (arith, h))
take-append (suc n) (x ∷ xs) ys h = ap (◌∷◌ x) (take-append n xs ys (omega (arith, h)))

pub drop-append : (n : ℕ) (xs ys : List Text) → length xs ≡ n → drop n (xs ++ ys) ≡ ys
drop-append zero [] ys h = refl
drop-append (suc n) [] ys h = absurd (omega (arith, h))
drop-append zero (x ∷ xs) ys h = absurd (omega (arith, h))
drop-append (suc n) (x ∷ xs) ys h = drop-append n xs ys (omega (arith, h))

double : (height : ℕ) → 2 ^ (height + 1) ≡ 2 ^ height + 2 ^ height
double height = ap (λ k. 2 ^ k) (omega arith) ∙ two-pow-succ height

-- The leaves under the peaks, from the last peak to the first.
unfoldable pub all_leaves : List (List Text) → List Text
all_leaves [] = []
all_leaves (part ∷ parts) = all_leaves parts ++ part

-- The height is below those of the peaks, or at most theirs.
abbrev pub Under : ℕ → List (ℕ × Text) → Type 0
Under h [] = Unit {0}
Under h (peak ∷ peaks) = h < peak.0

abbrev AtMost : ℕ → List (ℕ × Text) → Type 0
AtMost h [] = Unit {0}
AtMost h (peak ∷ peaks) = h ≤ peak.0

abbrev pub Rising : List (ℕ × Text) → Type 0
Rising [] = Unit {0}
Rising (peak ∷ peaks) = Under (peak.0) peaks × Rising peaks

module _ (sha256 : Text → Text) where
  -- The root of two halves is the node over their roots.
  subtree_root-append :
      (n : ℕ) (xs ys : List Text)
      → 0 < n
      → length xs ≡ n
      → length ys ≡ n
      → subtree_root sha256 (xs ++ ys)
        ≡ hash_node sha256 (subtree_root sha256 xs) (subtree_root sha256 ys)
  unfolding subtree_root
  subtree_root-append n xs ys positive len_xs len_ys = halves (xs ++ ys) refl
    where
      doubled : (all : List Text) → all ≡ xs ++ ys → length all ≡ n + n
      doubled all e = ap length e ∙ length-append xs ys ∙ omega (arith, len_xs, len_ys)

      halves :
          (all : List Text)
          → all ≡ xs ++ ys
          → subtree_loop sha256 (length all) all
            ≡ hash_node sha256
                (subtree_loop sha256 (length xs) xs)
                (subtree_loop sha256 (length ys) ys)
      halves [] e = absurd (omega (arith, positive, doubled [] e))
      halves (a ∷ []) e = absurd (omega (arith, positive, doubled (a ∷ []) e))
      halves (a ∷ (b ∷ leaves)) e =
          let all = a ∷ (b ∷ leaves) in
          let size = doubled all e in
          let mid = length all / 2 in
          let first : take mid all ≡ xs =
            ap (take mid) e ∙ take-append mid xs ys (omega (arith, size, len_xs)) in
          let second : drop mid all ≡ ys =
            ap (drop mid) e ∙ drop-append mid xs ys (omega (arith, size, len_xs)) in
          let fuel = suc (length leaves) in
          rw (first, second)
            (cc (
              subtree_loop-enough sha256 fuel (length xs) xs (omega (arith, size, len_xs, positive))
                  (omega arith),
              subtree_loop-enough sha256 fuel (length ys) ys (omega (arith, size, len_ys, positive))
                  (omega arith),
            ))

  -- The peaks are the roots of the parts, and a part has as many leaves as its height says.
  abbrev pub Roots : List (ℕ × Text) → List (List Text) → Type 0
  Roots [] [] = Unit {0}
  Roots (peak ∷ peaks) (part ∷ parts) =
      (peak.1 ≡ subtree_root sha256 part) × (length part ≡ 2 ^ (peak.0)) × Roots peaks parts
  Roots _ _ = ⊥

  pub record Mountain (peaks : List (ℕ × Text)) (leaves : List Text) : Type 0 where
    pub parts : List (List Text)
    pub roots : Roots peaks parts
    pub rising : Rising peaks
    pub joined : all_leaves parts ≡ leaves

  regroup :
      {peaks : List (ℕ × Text)} (before last part : List Text)
      → Mountain peaks (before ++ (last ++ part))
      → Mountain peaks ((before ++ last) ++ part)
  regroup {peaks} before last part = subst (Mountain peaks) (sym (append_assoc before last part))

  higher :
      (height h : ℕ) (peaks : List (ℕ × Text))
      → h ≡ height
      → Under h peaks
      → AtMost (height + 1) peaks
  higher height h [] equal under = tt
  higher height h (peak ∷ peaks) equal under = omega (arith, equal, under)

  carry-Mountain :
      (height : ℕ) (node : Text) (peaks : List (ℕ × Text)) (parts : List (List Text))
      (part : List Text)
      → node ≡ subtree_root sha256 part
      → length part ≡ 2 ^ height
      → Roots peaks parts
      → Rising peaks
      → AtMost height peaks
      → Mountain (carry sha256 height node peaks) (all_leaves parts ++ part)
  unfolding carry all_leaves
  carry-Mountain height node [] [] part root size roots rising low = record {
    parts = part ∷ [];
    roots = (root, size, tt);
    rising = (tt, tt);
    joined = refl;
  }
  carry-Mountain height node ((h, left) ∷ peaks) (last ∷ parts) part root size roots rising low =
      elim (Bool-cases (h == height)) [
        | inl same ↦
            let equal : h ≡ height = ground (arith, same) in
            let halves : length last ≡ 2 ^ height = roots.1 ∙ ap (λ k. 2 ^ k) equal in
            rw same (
              regroup (all_leaves parts) last part (
                carry-Mountain (height + 1) (hash_node sha256 left node) peaks parts (last ++ part)
                  (rw (roots.0, root)
                    (sym (
                      subtree_root-append (2 ^ height) last part (pow-positive height) halves
                        size)))
                  (length-append last part ∙ omega (arith, halves, size, double height)) (roots.2)
                  (rising.1) (higher height h peaks equal (rising.0))))
        | inr differs ↦ rw differs (record {
          parts = part ∷ (last ∷ parts);
          roots = (root, size, roots);
          rising = (ground (arith, differs, low), rising);
          joined = refl;
        })
      ]
  carry-Mountain height node [] (last ∷ parts) part root size roots rising low = absurd roots
  carry-Mountain height node ((h, left) ∷ peaks) [] part root size roots rising low = absurd roots

  AtMost-zero : (peaks : List (ℕ × Text)) → AtMost 0 peaks
  AtMost-zero [] = tt
  AtMost-zero (peak ∷ peaks) = omega arith

  carry-leaf :
      (leaf : Text) (peaks : List (ℕ × Text)) (before : List Text)
      → Mountain peaks before
      → Mountain (carry sha256 0 leaf peaks) (before ++ leaf ∷ [])
  unfolding subtree_root subtree_loop
  carry-leaf leaf peaks before m =
      subst (λ front. Mountain (carry sha256 0 leaf peaks) (front ++ leaf ∷ [])) m.joined
        (carry-Mountain 0 leaf peaks m.parts (leaf ∷ []) refl (omega arith) m.roots m.rising
          (AtMost-zero peaks))

  pub append_leaves-Mountain :
      (leaves : List Text) (peaks : List (ℕ × Text)) (before : List Text)
      → Mountain peaks before
      → Mountain (append_leaves sha256 leaves peaks) (before ++ leaves)
  unfolding append_leaves
  append_leaves-Mountain [] peaks before m = subst (Mountain peaks) (sym (append-nil before)) m
  append_leaves-Mountain (leaf ∷ leaves) peaks before m =
      subst (Mountain (append_leaves sha256 leaves (carry sha256 0 leaf peaks)))
        (append_assoc before (leaf ∷ []) leaves)
        (append_leaves-Mountain leaves (carry sha256 0 leaf peaks) (before ++ leaf ∷ [])
          (carry-leaf leaf peaks before m))
