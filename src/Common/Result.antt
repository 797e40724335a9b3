-- ===== src/Common/Result.antt =====
-- Values or errors, and their `do` blocks.
use mathlib.Core.Path.{◌≡◌, refl, ap}
use mathlib.Core.Logic.{◌⊎◌, inl, inr}
use mathlib.Core.Bool.{Bool, true, false}
use mathlib.Core.Option.{Option, none, some}

pub data Result {ℓ} (E : Type 0) (A : Type ℓ) : Type ℓ where
  ok : A → Result E A
  err : E → Result E A

infixl 5 ◌>>=◌ ◌>>◌
abbrev pub ◌>>=◌ {ℓ κ} :
    {E : Type 0} {A : Type ℓ} {B : Type κ} → Result E A → (A → Result E B) → Result E B
ok a >>= f = f a
err e >>= f = err e

abbrev pub ◌>>◌ {ℓ} : {E : Type 0} {B : Type ℓ} → Result E (Unit {0}) → Result E B → Result E B
m >> k = m >>= λ _. k

-- `if (b) throw e`
abbrev pub throw_if : {E : Type 0} → Bool → E → Result E (Unit {0})
throw_if true e = err e
throw_if false e = ok tt

-- The value of an optional argument that must be there.
abbrev pub or_throw {ℓ} : {E : Type 0} {A : Type ℓ} → Option A → E → Result E A
or_throw none e = err e
or_throw (some a) e = ok a

abbrev pub is_ok {ℓ} : {E : Type 0} {A : Type ℓ} → Result E A → Bool
is_ok (ok _) = true
is_ok (err _) = false

pub Result-cases {ℓ} :
    {E : Type 0} {A : Type ℓ} (r : Result E A) → ((a : A) × (r ≡ ok a)) ⊎ ((e : E) × (r ≡ err e))
Result-cases (ok a) = inl (a, refl)
Result-cases (err e) = inr (e, refl)

pub ok-inj {ℓ} : {E : Type 0} {A : Type ℓ} {a b : A} → ◌≡◌ {A = Result E A} (ok a) (ok b) → a ≡ b
ok-inj {E} {A} {a} e = ap value e
  where
    value : Result E A → A
    value (ok x) = x
    value (err _) = a
