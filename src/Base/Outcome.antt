-- ===== src/Base/Outcome.antt =====
-- Rust's `Result`, and the state monad of methods on `&mut self` that return one.
use mathlib.Core.Path.{◌≡◌, refl}
use mathlib.Core.Logic.{◌⊎◌, inl, inr}
use mathlib.Core.Bool.{Bool, true, false}
use native.Mathlib.Omega.{arith}
use mathlib.Core.Option.{Option, none, some}

pub data Result {ℓ κ} (E : Type ℓ) (A : Type κ) : Type (ℓ ⊔ κ) where
  ok : A → Result E A
  err : E → Result E A

-- `?`: an error goes back at once, a value goes on.
infixl 5 ◌>>=◌
abbrev pub ◌>>=◌ {ℓ κ μ} :
    {E : Type ℓ} {A : Type κ} {B : Type μ} → Result E A → (A → Result E B) → Result E B
result >>= next = elim result [ ok a ↦ next a | err e ↦ err e ]

-- `ok_or`.
abbrev pub ok_or {ℓ κ} : {E : Type ℓ} {A : Type κ} → Option A → E → Result E A
ok_or none e = err e
ok_or (some a) e = ok a

-- `if !cond { return Err(e) }`.
abbrev pub guard {ℓ} : {E : Type ℓ} → Bool → E → Result E (Unit {0})
guard cond e = elim cond [ true ↦ ok tt | false ↦ err e ]

-- A check, and what follows it.
infixl 5 ◌>>◌
abbrev pub ◌>>◌ {ℓ κ} : {E : Type ℓ} {B : Type κ} → Result E (Unit {0}) → Result E B → Result E B
check >> rest = elim check [ ok _ ↦ rest | err e ↦ err e ]

-- `map_err`.
abbrev pub map_err {ℓ κ μ} :
    {E : Type ℓ} {F : Type κ} {A : Type μ} → (E → F) → Result E A → Result F A
map_err f (ok a) = ok a
map_err f (err e) = err (f e)

-- `?` after a call on `&mut self`: what is left of the state goes on, or back with the error.
abbrev pub and_then {ℓ κ μ ν} :
    {S : Type ℓ} {E : Type κ} {A : Type μ} {B : Type ν}
    → S × Result E A
    → (S → A → S × Result E B)
    → S × Result E B
and_then (s, ok a) k = k s a
and_then (s, err e) k = (s, err e)

pub Result-cases {ℓ κ} :
    {E : Type ℓ} {A : Type κ} (r : Result E A) → ((a : A) × (r ≡ ok a)) ⊎ ((e : E) × (r ≡ err e))
Result-cases (ok a) = inl (a, refl)
Result-cases (err e) = inr (e, refl)

-- A `?` chain that succeeds has succeeded at its first step and in the rest.
pub >>=-eq-ok {ℓ κ μ} :
    {E : Type ℓ} {A : Type κ} {B : Type μ} (result : Result E A) (next : A → Result E B) {value : B}
    → (result >>= next) ≡ ok value
    → (a : A) × (result ≡ ok a) × (next a ≡ ok value)
>>=-eq-ok (err e) next failed = absurd (ground arith)
>>=-eq-ok (ok a) next done = (a, refl, done)

pub ok-injective {ℓ κ} :
    {E : Type ℓ} {A : Type κ} {a b : A} → ◌≡◌ {A = Result E A} (ok a) (ok b) → a ≡ b
ok-injective h = cc

pub and_then-eq-ok {ℓ κ μ ν} :
    {S : Type ℓ} {E : Type κ} {A : Type μ} {B : Type ν} (m : S × Result E A)
    (k : S → A → S × Result E B) {s' : S} {b : B}
    → and_then m k ≡ (s', ok b)
    → (s : S) × (a : A) × (m ≡ (s, ok a)) × (k s a ≡ (s', ok b))
and_then-eq-ok (s, ok a) k h = (s, a, refl, h)
and_then-eq-ok (s, err e) k h = absurd (ground arith)
