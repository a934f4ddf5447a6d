-- ===== src/Base/Tests.antt =====
-- Boolean tests on the native numbers, the conditional, and splits on computed values.
use Prim.Native.Nat.{ℕ, ◌≤◌, ◌<◌, compare, Ordering}
use mathlib.Core.Path.{◌≡◌, refl}
use mathlib.Core.Logic.{◌↔◌, ◌⊎◌, inl, inr}
use mathlib.Core.Bool.{Bool, true, false, ◌&&◌}
use mathlib.Core.Option.{Option, none, some}
use native.Mathlib.Omega.{arith}

abbrev pub ltb : ℕ → ℕ → Bool
ltb a b = elim (compare a b) [ Ordering.lt ↦ true | _ ↦ false ]

abbrev pub leb : ℕ → ℕ → Bool
leb a b = elim (compare a b) [ Ordering.gt ↦ false | _ ↦ true ]

infix 50 ◌==◌
abbrev pub ◌==◌ : ℕ → ℕ → Bool
a == b = elim (compare a b) [ Ordering.eq ↦ true | _ ↦ false ]

infix 1 if◌then◌else◌
abbrev pub if◌then◌else◌ {ℓ} : {A : Type ℓ} → Bool → A → A → A
if true then x else y = x
if false then x else y = y

pub ltb→lt : (a b : ℕ) → ltb a b ≡ true → a < b
ltb→lt a b h = ground arith

pub lt→ltb : (a b : ℕ) → a < b → ltb a b ≡ true
lt→ltb a b h = ground arith

pub leb→le : (a b : ℕ) → leb a b ≡ true → a ≤ b
leb→le a b h = ground arith

pub ==_iff : (a b : ℕ) → ((a == b) ≡ true) ↔ (a ≡ b)
==_iff a b = ground arith

pub Bool-cases : (b : Bool) → (b ≡ true) ⊎ (b ≡ false)
Bool-cases true = inl refl
Bool-cases false = inr refl

pub Option-cases {ℓ} : {A : Type ℓ} (o : Option A) → (o ≡ none) ⊎ ((a : A) × (o ≡ some a))
Option-cases none = inl refl
Option-cases (some a) = inr (a, refl)

pub &&-true : (a b : Bool) → (a && b) ≡ true → (a ≡ true) × (b ≡ true)
&&-true true b h = (refl, h)
&&-true false b h = cc

-- A fallible operation's outcome.
pub data Result {ℓ κ} (E : Type ℓ) (A : Type κ) : Type (ℓ ⊔ κ) where
  ok : A → Result E A
  err : E → Result E A

infixl 5 ◌>>=◌ ◌>>◌
abbrev pub ◌>>=◌ {ℓ κ μ} :
    {E : Type ℓ} {A : Type κ} {B : Type μ} → Result E A → (A → Result E B) → Result E B
ok a >>= f = f a
err e >>= f = err e

abbrev pub ◌>>◌ {ℓ μ} : {E : Type ℓ} {B : Type μ} → Result E (Unit {0}) → Result E B → Result E B
m >> k = m >>= λ _. k

-- `if bad { return Err(e) }`
abbrev pub guard {ℓ} : {E : Type ℓ} → Bool → E → Result E (Unit {0})
guard true e = ok tt
guard false e = err e

abbrev pub ok_or {ℓ κ} : {E : Type ℓ} {A : Type κ} → Option A → E → Result E A
ok_or none e = err e
ok_or (some a) e = ok a

-- What a chain that succeeds passed through.
pub >>=-ok {ℓ κ μ} :
    {E : Type ℓ} {A : Type κ} {B : Type μ} {last : B} (run : Result E A) (next : A → Result E B)
    (h : (run >>= next) ≡ ok last)
    → (first : A) × (run ≡ ok first) × (next first ≡ ok last)
>>=-ok (err e) next h = cc
>>=-ok (ok first) next h = (first, refl, h)

pub guard-eq-ok {ℓ} : {E : Type ℓ} (b : Bool) (e : E) {u : Unit {0}} → guard b e ≡ ok u → b ≡ true
guard-eq-ok true e h = refl
guard-eq-ok false e h = cc

-- Where a run ends: its error satisfies one predicate, its value another.
abbrev pub Ends {ℓ κ μ} :
    {E : Type ℓ} {A : Type κ} → (E → Type μ) → (A → Type μ) → Result E A → Type μ
Ends F P (ok a) = P a
Ends F P (err e) = F e

pub Ends->>= {ℓ κ ν μ} :
    {E : Type ℓ} {A : Type κ} {B : Type ν} (F : E → Type μ) (P : A → Type μ) (Q : B → Type μ)
    (m : Result E A) (f : A → Result E B)
    → Ends F P m
    → ((a : A) → P a → Ends F Q (f a))
    → Ends F Q (m >>= f)
Ends->>= F P Q (ok a) f p q = q a p
Ends->>= F P Q (err e) f p q = p

pub Ends-map {ℓ κ μ} :
    {E : Type ℓ} {A : Type κ} (F G : E → Type μ) (P Q : A → Type μ) (m : Result E A)
    → Ends F P m
    → ((e : E) → F e → G e)
    → ((a : A) → P a → Q a)
    → Ends G Q m
Ends-map F G P Q (ok a) p f q = q a p
Ends-map F G P Q (err e) p f q = f e p

-- What a check that is passed leaves.
pub >>-ok {ℓ κ} :
    {E : Type ℓ} {B : Type κ} {last : B} (check : Result E (Unit {0})) {rest : Result E B}
    → (check >> rest) ≡ ok last
    → (check ≡ ok tt) × (rest ≡ ok last)
>>-ok (ok tt) h = (refl, h)
>>-ok (err e) h = cc

pub guard->>-ok {ℓ κ} :
    {E : Type ℓ} {B : Type κ} {last : B} (b : Bool) (e : E) {rest : Result E B}
    → (guard b e >> rest) ≡ ok last
    → (b ≡ true) × (rest ≡ ok last)
guard->>-ok true e h = (refl, h)
guard->>-ok false e h = cc
