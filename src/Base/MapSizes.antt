-- ===== src/Base/MapSizes.antt =====
-- How many entries a map has after `insert`, `remove` and `retain`, and what holds of all of them.
use mathlib.Core.Path.{◌≡◌, refl, sym, subst}
use mathlib.Core.Logic.{inl, inr}
use mathlib.Core.Bool.{true}
use mathlib.Core.List.{List, [], ◌∷◌}
use mathlib.Core.Option.{some}
use Prim.Native.Nat.{suc, ◌≤◌}
use native.Mathlib.Omega.{arith}
use tokenzero.Base.Tests.{Bool-cases}
use tokenzero.Base.Lists.{All, All-map, length}
use tokenzero.Base.Texts.{Text, text_eq, text_ltb, text_eq→≡}
use tokenzero.Base.Maps.{
  get_key, insert_key, remove_key, IsMap, get_key-below, get_key-All, below_trans, text_ltb-apart,
}

module _ {ℓ} {V : Type ℓ} where
  -- A map satisfies a predicate that all its lookups satisfy.
  pub All-lookups {κ} :
      (P : Text × V → Type κ) (m : List (Text × V))
      → IsMap m
      → ((key : Text) (v : V) → get_key key m ≡ some v → P (key, v))
      → All P m
  All-lookups P m is_map found =
      All-map (λ e. get_key (e.0) m ≡ some (e.1)) P m (λ e h. found (e.0) (e.1) h)
        (get_key-All m is_map)

  pub length-insert_key :
      (k : Text) (v : V) (m : List (Text × V)) → length (insert_key k v m) ≤ suc (length m)
  unfolding insert_key
  length-insert_key k v [] = omega arith
  length-insert_key k v ((l, w) ∷ m) = ground (arith, length-insert_key k v m)

  pub length-insert_key-same :
      (k : Text) (v w : V) (m : List (Text × V))
      → IsMap m
      → get_key k m ≡ some w
      → length (insert_key k v m) ≡ length m
  unfolding insert_key get_key IsMap
  length-insert_key-same k v w [] is_map found = cc
  length-insert_key-same k v w ((l, x) ∷ m) is_map found = elim (Bool-cases (text_eq k l)) [
    | inl same ↦ rw same refl
    | inr differs ↦ elim (Bool-cases (text_ltb k l)) [
      | inl less ↦ cc (get_key-below k m (below_trans k l m less is_map.0), differs, found)
      | inr other ↦ ground (arith, differs, other, found, length-insert_key-same k v w m is_map.1)
    ]
  ]

  remove_key-below :
      (k : Text) (m : List (Text × V)) → All (λ e. text_ltb k e.0 ≡ true) m → remove_key k m ≡ m
  unfolding remove_key
  remove_key-below k [] below = refl
  remove_key-below k ((l, w) ∷ m) below =
      rw (text_ltb-apart k l below.0, remove_key-below k m below.1) refl

  pub length-remove_key :
      (k : Text) (v : V) (m : List (Text × V))
      → IsMap m
      → get_key k m ≡ some v
      → suc (length (remove_key k m)) ≡ length m
  unfolding remove_key get_key IsMap
  length-remove_key k v [] is_map found = cc
  length-remove_key k v ((l, w) ∷ m) is_map found = elim (Bool-cases (text_eq k l)) [
    | inl same ↦
        rw
          (
            same,
            remove_key-below k m (
                subst (λ key. All (λ e. text_ltb key e.0 ≡ true) m) (sym (text_eq→≡ k l same))
                  is_map.0),
          )
          refl
    | inr differs ↦ ground (arith, differs, found, length-remove_key k v m is_map.1)
  ]
