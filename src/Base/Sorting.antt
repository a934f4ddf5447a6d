-- ===== src/Base/Sorting.antt =====
-- A stable sort by a Boolean strict order (`sort`, `sort_by`): the same items, in order.
use mathlib.Core.List.{Perm}
use mathlib.Core.List.Perm
use tokenzero.Base.Tests.{if◌then◌else◌, Bool-cases}
use Prim.Native.Nat.{suc}
use tokenzero.Base.Lists.{All, any, length}
use mathlib.Core.Path.{◌≡◌, refl, ap, ◌∙◌}
use mathlib.Core.Logic.{inl, inr}
use mathlib.Core.Bool.{Bool, true, false, ◌||◌}
use mathlib.Core.List.{List, [], ◌∷◌}

module _ {ℓ} {A : Type ℓ} (lt : A → A → Bool) where
  -- Puts `x` in front of the first item that is not below it.
  unfoldable pub insert_sorted : A → List A → List A
  insert_sorted x [] = x ∷ []
  insert_sorted x (y ∷ ys) =
      let later = y ∷ insert_sorted x ys in if lt y x then later else x ∷ y ∷ ys

  unfoldable pub sort : List A → List A
  unfolding insert_sorted
  sort [] = []
  sort (x ∷ xs) = insert_sorted x (sort xs)

  insert_sorted-perm : (x : A) (ys : List A) → Perm (insert_sorted x ys) (x ∷ ys)
  unfolding insert_sorted
  insert_sorted-perm x [] = Perm.refl (x ∷ [])
  insert_sorted-perm x (y ∷ ys) = elim (Bool-cases (lt y x)) [
    | inl e ↦ rw e (Perm.trans (Perm.cons y (insert_sorted-perm x ys)) (Perm.swap x y ys))
    | inr e ↦ rw e (Perm.refl (x ∷ y ∷ ys))
  ]

  pub sort-perm : (xs : List A) → Perm (sort xs) xs
  unfolding sort
  sort-perm [] = Perm.refl []
  sort-perm (x ∷ xs) = Perm.trans (insert_sorted-perm x (sort xs)) (Perm.cons x (sort-perm xs))

  any-insert_sorted :
      (p : A → Bool) (x : A) (ys : List A) → any p (insert_sorted x ys) ≡ (p x || any p ys)
  unfolding insert_sorted
  any-insert_sorted p x [] = refl
  any-insert_sorted p x (y ∷ ys) = elim (Bool-cases (lt y x)) [
    | inl e ↦ rw (e, any-insert_sorted p x ys) (or_swap (p x) (p y) (any p ys))
    | inr e ↦ rw e refl
  ]
    where
      or_swap : (a b c : Bool) → (b || (a || c)) ≡ (a || (b || c))
      or_swap true true c = refl
      or_swap true false c = refl
      or_swap false true c = refl
      or_swap false false c = refl

  pub any-sort : (p : A → Bool) (xs : List A) → any p (sort xs) ≡ any p xs
  unfolding sort
  any-sort p [] = refl
  any-sort p (x ∷ xs) = any-insert_sorted p x (sort xs) ∙ ap (◌||◌ (p x)) (any-sort p xs)

  length-insert_sorted : (x : A) (ys : List A) → length (insert_sorted x ys) ≡ suc (length ys)
  unfolding insert_sorted
  length-insert_sorted x [] = refl
  length-insert_sorted x (y ∷ ys) = elim (Bool-cases (lt y x)) [
    | inl e ↦ rw e (ap suc (length-insert_sorted x ys))
    | inr e ↦ rw e refl
  ]

  pub length-sort : (xs : List A) → length (sort xs) ≡ length xs
  unfolding sort
  length-sort [] = refl
  length-sort (x ∷ xs) = length-insert_sorted x (sort xs) ∙ ap suc (length-sort xs)

  -- Each item stands in front of items that are not below it.
  abbrev pub IsSorted : List A → Type 0
  IsSorted [] = Unit
  IsSorted (x ∷ xs) = All (λ y. lt y x ≡ false) xs × IsSorted xs

  module _ (asymmetric : (x y : A) → lt x y ≡ true → lt y x ≡ false)
      (negatively_transitive : (x y z : A) → lt y x ≡ false → lt z y ≡ false → lt z x ≡ false) where
    All-not_below :
        (x y : A) (ys : List A)
        → lt y x ≡ false
        → All (λ z. lt z y ≡ false) ys
        → All (λ z. lt z x ≡ false) ys
    All-not_below x y [] h a = tt
    All-not_below x y (z ∷ ys) h (p, a) =
        (negatively_transitive x y z h p, All-not_below x y ys h a)

    All-insert_sorted :
        (x y : A) (ys : List A)
        → lt x y ≡ false
        → All (λ z. lt z y ≡ false) ys
        → All (λ z. lt z y ≡ false) (insert_sorted x ys)
    unfolding insert_sorted
    All-insert_sorted x y [] h a = (h, tt)
    All-insert_sorted x y (z ∷ ys) h (p, a) = elim (Bool-cases (lt z x)) [
      | inl e ↦ rw e (p, All-insert_sorted x y ys h a)
      | inr e ↦ rw e (h, (p, a))
    ]

    insert_sorted-IsSorted : (x : A) (ys : List A) → IsSorted ys → IsSorted (insert_sorted x ys)
    unfolding insert_sorted
    insert_sorted-IsSorted x [] s = (tt, tt)
    insert_sorted-IsSorted x (y ∷ ys) (a, s) = elim (Bool-cases (lt y x)) [
      | inl e ↦ rw e (All-insert_sorted x y ys (asymmetric y x e) a, insert_sorted-IsSorted x ys s)
      | inr e ↦ rw e ((e, All-not_below x y ys e a), (a, s))
    ]

    pub sort-IsSorted : (xs : List A) → IsSorted (sort xs)
    unfolding sort
    sort-IsSorted [] = tt
    sort-IsSorted (x ∷ xs) = insert_sorted-IsSorted x (sort xs) (sort-IsSorted xs)
