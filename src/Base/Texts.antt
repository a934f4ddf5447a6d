-- ===== src/Base/Texts.antt =====
-- A Rust `String` as its bytes (or, where a module says so, its characters): equality, the
-- lexicographic order, and literals.
use Prim.Native.Char.{code}
use Prim.Native.Nat.{ℕ}
use Prim.Native.String.{String}
use mathlib.Core.Path.{◌≡◌, refl}
use mathlib.Core.Logic.{◌↔◌}
use mathlib.Core.Bool.{Bool, true, false, ◌&&◌, ◌||◌}
use mathlib.Core.List.{List, [], ◌∷◌}
use mathlib.Core.Option.{Option, none, some}
use native.Mathlib.Omega.{arith}
use tokenzero.Base.Tests.{ltb, ◌==◌, if◌then◌else◌}

abbrev pub Text : Type 0
Text = List ℕ

-- The code points of a literal: its bytes, if it is ASCII.
abbrev pub codes : String → Text
codes String.[] = []
codes (String.◌∷◌ c s) = code c ∷ codes s

unfoldable pub text_eq : Text → Text → Bool
text_eq [] [] = true
text_eq (a ∷ s) (b ∷ t) = a == b && text_eq s t
text_eq _ _ = false

-- `Ord for str`: lexicographic.
unfoldable pub text_ltb : Text → Text → Bool
text_ltb [] [] = false
text_ltb [] (b ∷ t) = true
text_ltb (a ∷ s) [] = false
text_ltb (a ∷ s) (b ∷ t) = ltb a b || (a == b && text_ltb s t)

pub text_eq_refl : (s : Text) → text_eq s s ≡ true
unfolding text_eq
text_eq_refl [] = refl
text_eq_refl (a ∷ s) = ground (arith, text_eq_refl s)

pub text_eq→≡ : (s t : Text) → text_eq s t ≡ true → s ≡ t
unfolding text_eq
text_eq→≡ [] [] h = refl
text_eq→≡ [] (b ∷ t) h = cc
text_eq→≡ (a ∷ s) [] h = cc
text_eq→≡ (a ∷ s) (b ∷ t) h = ground (arith, text_eq→≡ s t)

pub text_eq_iff : (s t : Text) → (text_eq s t ≡ true) ↔ (s ≡ t)
text_eq_iff s t = (text_eq→≡ s t, λ e. subst_eq s t e)
  where
    subst_eq : (s t : Text) → s ≡ t → text_eq s t ≡ true
    subst_eq s t e = unfold text_eq in cc (text_eq_refl s)

pub text_ltb_asymmetric : (s t : Text) → text_ltb s t ≡ true → text_ltb t s ≡ false
unfolding text_ltb
text_ltb_asymmetric [] [] h = cc
text_ltb_asymmetric [] (b ∷ t) h = refl
text_ltb_asymmetric (a ∷ s) [] h = cc
text_ltb_asymmetric (a ∷ s) (b ∷ t) h = ground (arith, text_ltb_asymmetric s t)

pub text_ltb_negatively_transitive :
    (s t u : Text) → text_ltb t s ≡ false → text_ltb u t ≡ false → text_ltb u s ≡ false
unfolding text_ltb
text_ltb_negatively_transitive [] [] [] h k = refl
text_ltb_negatively_transitive [] [] (c ∷ u) h k = refl
text_ltb_negatively_transitive [] (b ∷ t) [] h k = cc
text_ltb_negatively_transitive [] (b ∷ t) (c ∷ u) h k = refl
text_ltb_negatively_transitive (a ∷ s) [] u h k = cc
text_ltb_negatively_transitive (a ∷ s) (b ∷ t) [] h k = cc
text_ltb_negatively_transitive (a ∷ s) (b ∷ t) (c ∷ u) h k =
    ground (arith, text_ltb_negatively_transitive s t u)

-- `s.split_once(ch)`
unfoldable pub split_once : ℕ → Text → Option (Text × Text)
split_once ch [] = none
split_once ch (c ∷ s) =
    let rest = split_once ch s in
    if c == ch then some ([], s) else elim rest [ none ↦ none | some (a, b) ↦ some (c ∷ a, b) ]
