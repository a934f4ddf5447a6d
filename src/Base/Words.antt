-- ===== src/Base/Words.antt =====
-- Rust's unsigned 64 and 128 bit integers: saturating, checked and widening operations.
use Prim.Native.Nat.{ℕ, ◌+◌, ◌-◌, ◌*◌, ◌%◌, ◌^◌, min}
use mathlib.Core.Option.{Option, none, some}
use tokenzero.Base.Tests.{leb, if◌then◌else◌}

abbrev pub max_u64 : ℕ
max_u64 = 2 ^ 64 - 1

-- `saturating_add` and `saturating_mul` on u64; `saturating_sub` is the truncated `-`.
abbrev pub sat_add : ℕ → ℕ → ℕ
sat_add a b = min (a + b) max_u64

abbrev pub sat_mul : ℕ → ℕ → ℕ
sat_mul a b = min (a * b) max_u64

-- `checked_add` on u64.
abbrev pub checked_add : ℕ → ℕ → Option ℕ
checked_add a b = if leb (a + b) max_u64 then some (a + b) else none

-- u128 sums and products, which wrap around in a build without overflow checks.
abbrev pub u128_mod : ℕ
u128_mod = 2 ^ 128

abbrev pub add_128 : ℕ → ℕ → ℕ
add_128 a b = (a + b) % u128_mod

abbrev pub mul_128 : ℕ → ℕ → ℕ
mul_128 a b = a * b % u128_mod
