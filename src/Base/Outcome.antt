-- ===== src/Base/Outcome.antt =====
-- What a fallible Go function can do: return a value, return an error, or panic.
use mathlib.Core.Path.{◌≡◌, refl}
use mathlib.Core.Bool.{Bool, true, false}
use mathlib.Core.Option.{Option, none, some}

pub data Outcome {ℓ} (E : Type ℓ) (A : Type ℓ) : Type ℓ where
  ok : A → Outcome E A
  fail : E → Outcome E A
  panic : Outcome E A

infixl 5 ◌>>=◌
abbrev pub ◌>>=◌ {ℓ} : {E A B : Type ℓ} → Outcome E A → (A → Outcome E B) → Outcome E B
ok a >>= f = f a
fail e >>= f = fail e
panic >>= f = panic

infixl 5 ◌>>◌
abbrev pub ◌>>◌ {ℓ} : {E A B : Type ℓ} → Outcome E A → Outcome E B → Outcome E B
m >> k = m >>= λ _. k

-- `x.(T)` with no second result, and a lookup whose absence is an error.
abbrev pub or_panic {ℓ} : {E A : Type ℓ} → Option A → Outcome E A
or_panic (some a) = ok a
or_panic none = panic

abbrev pub or_fail {ℓ} : {E A : Type ℓ} → E → Option A → Outcome E A
or_fail e (some a) = ok a
or_fail e none = fail e

abbrev pub guard {ℓ} : {E : Type ℓ} → Bool → E → Outcome E (Unit {ℓ})
guard true e = ok tt
guard false e = fail e

-- Inversion of a chain that returned a value.
pub >>=-eq-ok {ℓ} :
    {E A B : Type ℓ} (first : Outcome E A) (next : A → Outcome E B) {result : B}
    → (first >>= next) ≡ ok result
    → (value : A) × (first ≡ ok value) × (next value ≡ ok result)
>>=-eq-ok (ok value) next returned = (value, refl, returned)
>>=-eq-ok (fail e) next returned = cc
>>=-eq-ok panic next returned = cc

pub ok-injective {ℓ} : {E A : Type ℓ} {a b : A} → ◌≡◌ {A = Outcome E A} (ok a) (ok b) → a ≡ b
ok-injective returned = cc

pub or_fail-eq-ok {ℓ} :
    {E A : Type ℓ} (e : E) (o : Option A) {a : A} → or_fail e o ≡ ok a → o ≡ some a
or_fail-eq-ok e none returned = cc
or_fail-eq-ok e (some value) returned = cc

pub or_panic-eq-ok {ℓ} :
    {E A : Type ℓ} (o : Option A) {a : A} → ◌≡◌ {A = Outcome E A} (or_panic o) (ok a) → o ≡ some a
or_panic-eq-ok none returned = cc
or_panic-eq-ok (some value) returned = cc
