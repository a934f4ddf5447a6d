-- ===== src/Base/Maps.antt =====
-- Rust's `BTreeMap<String, V>`: an association list in ascending order of its keys. `IsMap` says
-- that the keys ascend strictly.
use mathlib.Core.Path.{◌≡◌, refl, sym, subst}
use mathlib.Core.Logic.{inl, inr}
use mathlib.Core.Bool.{Bool, true, false}
use mathlib.Core.List.{List, [], ◌∷◌}
use mathlib.Core.Option.{Option, none, some}
use native.Mathlib.Omega.{arith}
use tokenzero.Base.Tests.{if◌then◌else◌, Bool-cases}
use tokenzero.Base.Lists.{All}
use tokenzero.Base.Texts.{
  Text, text_eq, text_ltb, text_eq_refl, text_eq→≡, text_ltb_asymmetric,
  text_ltb_negatively_transitive,
}

text_trichotomy : (s t : Text) → text_eq s t ≡ false → text_ltb s t ≡ false → text_ltb t s ≡ true
unfolding text_eq text_ltb
text_trichotomy [] [] h k = cc
text_trichotomy [] (b ∷ t) h k = cc
text_trichotomy (a ∷ s) [] h k = refl
text_trichotomy (a ∷ s) (b ∷ t) h k = ground (arith, text_trichotomy s t)

-- A strict order is transitive.
text_ltb_trans : (s t u : Text) → text_ltb s t ≡ true → text_ltb t u ≡ true → text_ltb s u ≡ true
text_ltb_trans s t u h k = elim (Bool-cases (text_ltb s u)) [
  | inl less ↦ less
  | inr other ↦ cc (text_ltb_negatively_transitive t u s (text_ltb_asymmetric t u k) other, h)
]

pub text_ltb-apart : (s t : Text) → text_ltb s t ≡ true → text_eq s t ≡ false
unfolding text_eq text_ltb
text_ltb-apart [] [] h = cc
text_ltb-apart [] (b ∷ t) h = refl
text_ltb-apart (a ∷ s) [] h = refl
text_ltb-apart (a ∷ s) (b ∷ t) h = ground (arith, text_ltb-apart s t)

pub text_eq-sym : (s t : Text) → text_eq s t ≡ text_eq t s
unfolding text_eq
text_eq-sym [] [] = refl
text_eq-sym [] (b ∷ t) = refl
text_eq-sym (a ∷ s) [] = refl
text_eq-sym (a ∷ s) (b ∷ t) = ground (arith, text_eq-sym s t)

module _ {ℓ} {V : Type ℓ} where
  -- `m.get(key)`
  unfoldable pub get_key : Text → List (Text × V) → Option V
  get_key key [] = none
  get_key key ((k, v) ∷ m) = let rest = get_key key m in if text_eq key k then some v else rest

  -- `m.insert(key, value)`
  unfoldable pub insert_key : Text → V → List (Text × V) → List (Text × V)
  insert_key key value [] = (key, value) ∷ []
  insert_key key value ((k, v) ∷ m) =
      let rest = insert_key key value m in
      if text_eq key k
      then (key, value) ∷ m
      else if text_ltb key k
      then (key, value) ∷ (k, v) ∷ m
      else (k, v) ∷ rest

  -- `m.remove(key)`
  unfoldable pub remove_key : Text → List (Text × V) → List (Text × V)
  remove_key key [] = []
  remove_key key ((k, v) ∷ m) =
      let rest = remove_key key m in if text_eq key k then rest else (k, v) ∷ rest

  unfoldable pub holds_entry : Option V → Bool
  holds_entry none = false
  holds_entry (some v) = true

  -- `m.contains_key(key)`
  abbrev pub contains_key : Text → List (Text × V) → Bool
  contains_key key m = holds_entry (get_key key m)

  pub get_key-insert_key :
      (j k : Text) (v : V) (m : List (Text × V))
      → get_key j (insert_key k v m) ≡ (if text_eq j k then some v else get_key j m)
  unfolding get_key insert_key
  get_key-insert_key j k v [] = refl
  get_key-insert_key j k v ((l, w) ∷ m) = ground (
    arith,
    get_key-insert_key j k v m,
    text_eq→≡ k l,
    text_eq→≡ j k,
    text_eq→≡ j l,
    text_eq_refl k,
    text_eq_refl j,
  )

  pub get_key-remove_key :
      (j k : Text) (m : List (Text × V))
      → get_key j (remove_key k m) ≡ (if text_eq j k then none else get_key j m)
  unfolding get_key remove_key
  get_key-remove_key j k [] = ground arith
  get_key-remove_key j k ((l, w) ∷ m) =
      ground (arith, get_key-remove_key j k m, text_eq→≡ k l, text_eq→≡ j k, text_eq→≡ j l)

  unfoldable pub IsMap : List (Text × V) → Type 0
  IsMap [] = Unit {0}
  IsMap ((k, v) ∷ m) = All (λ e. text_ltb k e.0 ≡ true) m × IsMap m

  pub get_key-below :
      (k : Text) (m : List (Text × V)) → All (λ e. text_ltb k e.0 ≡ true) m → get_key k m ≡ none
  unfolding get_key
  get_key-below k [] below = refl
  get_key-below k ((l, w) ∷ m) below =
      ground (arith, get_key-below k m below.1, text_ltb-apart k l below.0)

  pub insert_key-All {κ} :
      (P : Text × V → Type κ) (k : Text) (v : V) (m : List (Text × V))
      → P (k, v)
      → All P m
      → All P (insert_key k v m)
  unfolding insert_key
  insert_key-All P k v [] p ps = (p, ps)
  insert_key-All P k v ((l, w) ∷ m) p ps =
      let rest = insert_key-All P k v m p ps.1 in
      elim (Bool-cases (text_eq k l)) [
        | inl same ↦ rw same (p, ps.1)
        | inr differs ↦ elim (Bool-cases (text_ltb k l)) [
          | inl less ↦ rw (differs, less) (p, ps)
          | inr other ↦ rw (differs, other) (ps.0, rest)
        ]
      ]

  pub below_trans :
      (k l : Text) (m : List (Text × V))
      → text_ltb k l ≡ true
      → All (λ e. text_ltb l e.0 ≡ true) m
      → All (λ e. text_ltb k e.0 ≡ true) m
  below_trans k l [] h below = below
  below_trans k l (e ∷ m) h below =
      (text_ltb_trans k l (e.0) h below.0, below_trans k l m h below.1)

  pub insert_key-IsMap :
      (k : Text) (v : V) (m : List (Text × V)) → IsMap m → IsMap (insert_key k v m)
  unfolding insert_key IsMap
  insert_key-IsMap k v [] is_map = (is_map, is_map)
  insert_key-IsMap k v ((l, w) ∷ m) is_map =
      let rest = insert_key-IsMap k v m is_map.1 in
      elim (Bool-cases (text_eq k l)) [
        | inl same ↦ rw same (
          subst (λ key. All (λ e. text_ltb key e.0 ≡ true) m) (sym (text_eq→≡ k l same)) is_map.0,
          is_map.1,
        )
        | inr differs ↦ elim (Bool-cases (text_ltb k l)) [
          | inl less ↦ rw (differs, less) ((less, below_trans k l m less is_map.0), is_map)
          | inr other ↦
              rw (differs, other)
                (
                  insert_key-All (λ e. text_ltb l e.0 ≡ true) k v m
                      (text_trichotomy k l differs other) is_map.0,
                  rest,
                )
        ]
      ]

  pub remove_key-All {κ} :
      (P : Text × V → Type κ) (k : Text) (m : List (Text × V)) → All P m → All P (remove_key k m)
  unfolding remove_key
  remove_key-All P k [] ps = ps
  remove_key-All P k ((l, w) ∷ m) ps =
      let rest = remove_key-All P k m ps.1 in
      elim (Bool-cases (text_eq k l)) [
        | inl same ↦ rw same rest
        | inr differs ↦ rw differs (ps.0, rest)
      ]

  pub remove_key-IsMap : (k : Text) (m : List (Text × V)) → IsMap m → IsMap (remove_key k m)
  unfolding remove_key IsMap
  remove_key-IsMap k [] is_map = is_map
  remove_key-IsMap k ((l, w) ∷ m) is_map =
      let rest = remove_key-IsMap k m is_map.1 in
      elim (Bool-cases (text_eq k l)) [
        | inl same ↦ rw same rest
        | inr differs ↦ rw differs (remove_key-All (λ e. text_ltb l e.0 ≡ true) k m is_map.0, rest)
      ]

  pub All-get_key {κ} :
      (P : Text × V → Type κ) (k : Text) (v : V) (m : List (Text × V))
      → All P m
      → get_key k m ≡ some v
      → P (k, v)
  unfolding get_key
  All-get_key P k v [] ps h = cc
  All-get_key P k v ((l, w) ∷ m) ps h = elim (Bool-cases (text_eq k l)) [
    | inl same ↦
        subst (λ key. P (key, v)) (sym (text_eq→≡ k l same))
          (subst (λ value. P (l, value)) (found same) (ps.0))
    | inr differs ↦ All-get_key P k v m ps.1 (ground (arith, differs, h))
  ]
    where
      found : text_eq k l ≡ true → w ≡ v
      found same = unfold get_key in ground (arith, same, h)

  skip-All :
      (l : Text) (w : V) (m rest : List (Text × V))
      → All (λ e. text_ltb l e.0 ≡ true) rest
      → All (λ e. get_key (e.0) m ≡ some (e.1)) rest
      → All (λ e. get_key (e.0) ((l, w) ∷ m) ≡ some (e.1)) rest
  unfolding get_key
  skip-All l w m [] below found = found
  skip-All l w m (e ∷ rest) below found = (
    ground (arith, text_ltb-apart l (e.0) below.0, text_eq-sym (e.0) l, found.0),
    skip-All l w m rest below.1 found.1,
  )

  -- Each entry of a map is what its key looks up.
  pub get_key-All : (m : List (Text × V)) → IsMap m → All (λ e. get_key (e.0) m ≡ some (e.1)) m
  unfolding get_key IsMap
  get_key-All [] is_map = tt
  get_key-All ((l, w) ∷ m) is_map =
      (ground (arith, text_eq_refl l), skip-All l w m m is_map.0 (get_key-All m is_map.1))
