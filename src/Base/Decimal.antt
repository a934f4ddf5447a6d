-- ===== src/Base/Decimal.antt =====
-- Decimal printing of an unsigned integer (`usize::to_string`).
use Prim.Native.Nat.{ℕ, zero, suc, ◌+◌, ◌/◌, ◌%◌}
use mathlib.Core.List.{[], ◌∷◌, ◌++◌}
use mathlib.Core.Path.{◌≡◌, refl}
use tokenzero.Base.Tests.{ltb, if◌then◌else◌}
use tokenzero.Base.Texts.{Text, codes}

-- The fuel is one more than the number, and each round divides it by ten.
digits : ℕ → ℕ → Text
digits zero n = []
digits (suc fuel) n =
    let more = digits fuel (n / 10) ++ (b'0' + n % 10) ∷ [] in
    if ltb n 10 then (b'0' + n) ∷ [] else more

unfoldable pub show : ℕ → Text
unfolding digits
show n = digits (suc n) n

show_4070 : show 4070 ≡ codes "4070"
unfolding show
show_4070 = refl
