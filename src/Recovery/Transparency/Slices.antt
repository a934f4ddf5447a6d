-- ===== src/Recovery/Transparency/Slices.antt =====
-- Looking up, taking, dropping and replacing elements of a list.
use tokenzero.Base.{
  ℕ, zero, suc, ◌+◌, ◌<◌, ◌≡◌, refl, ap, arith, some, List, [], ◌∷◌, map, length, take, drop,
  get_elem?, set,
}

module _ {ℓ} {A : Type ℓ} where
  pub get_elem?-lt : (xs : List A) (i : ℕ) (x : A) → get_elem? xs i ≡ some x → i < length xs
  get_elem?-lt [] i x h = absurd (cc)
  get_elem?-lt (y ∷ xs) zero x h = omega arith
  get_elem?-lt (y ∷ xs) (suc i) x h = omega (arith, get_elem?-lt xs i x h)

  pub get_elem?-take :
      (n : ℕ) (xs : List A) (i : ℕ) → i < n → get_elem? (take n xs) i ≡ get_elem? xs i
  get_elem?-take zero xs i h = absurd (omega (arith, h))
  get_elem?-take (suc n) [] i h = refl
  get_elem?-take (suc n) (x ∷ xs) zero h = refl
  get_elem?-take (suc n) (x ∷ xs) (suc i) h = get_elem?-take n xs i (omega (arith, h))

  pub get_elem?-drop :
      (n : ℕ) (xs : List A) (i j : ℕ) → n + j ≡ i → get_elem? (drop n xs) j ≡ get_elem? xs i
  get_elem?-drop zero xs i j h = ap (get_elem? xs) (omega (arith, h))
  get_elem?-drop (suc n) [] i j h = refl
  get_elem?-drop (suc n) (x ∷ xs) zero j h = absurd (omega (arith, h))
  get_elem?-drop (suc n) (x ∷ xs) (suc i) j h = get_elem?-drop n xs i j (omega (arith, h))

  pub set-same : (xs : List A) (i : ℕ) (x : A) → get_elem? xs i ≡ some x → set xs i x ≡ xs
  set-same [] i x h = refl
  set-same (y ∷ xs) zero x h = let same : y ≡ x = ground arith in rw same refl
  set-same (y ∷ xs) (suc i) x h = ap (◌∷◌ y) (set-same xs i x h)

pub get_elem?-map {ℓ κ} :
    {A : Type ℓ} {B : Type κ} (f : A → B) (xs : List A) (i : ℕ) (x : A)
    → get_elem? xs i ≡ some x
    → get_elem? (map f xs) i ≡ some (f x)
get_elem?-map f [] i x h = absurd (cc)
get_elem?-map f (y ∷ xs) zero x h = let same : y ≡ x = ground arith in rw same refl
get_elem?-map f (y ∷ xs) (suc i) x h = get_elem?-map f xs i x h
