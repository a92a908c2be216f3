-- ===== src/Common/Exceptions.antt =====
-- Exceptions as values: an operation that may throw returns an `Outcome`. The statements of its body
-- are the lines of a do block.
use mathlib.Core.Path.{◌≡◌, refl}
use mathlib.Core.Option.{Option, none, some}
use mathlib.Core.Bool.{Bool, true, false}

pub data Outcome {ℓ κ} (E : Type ℓ) (A : Type κ) : Type (ℓ ⊔ κ) where
  ok : A → Outcome E A
  throw : E → Outcome E A

infixl 5 ◌>>=◌ ◌>>◌
abbrev pub ◌>>=◌ {ℓ κ μ} :
    {E : Type ℓ} {A : Type κ} {B : Type μ} → Outcome E A → (A → Outcome E B) → Outcome E B
ok a >>= f = f a
throw e >>= f = throw e

abbrev pub ◌>>◌ {ℓ κ} : {E : Type ℓ} {B : Type κ} → Outcome E (Unit {0}) → Outcome E B → Outcome E B
m >> k = m >>= λ _. k

-- `if (condition) { throw e; }`
abbrev pub throw_if {ℓ} : {E : Type ℓ} → Bool → E → Outcome E (Unit {0})
throw_if true e = throw e
throw_if false e = ok tt

-- The value of an optional that a failed read leaves empty, or the exception.
abbrev pub demand {ℓ κ} : {E : Type ℓ} {A : Type κ} → E → Option A → Outcome E A
demand e none = throw e
demand e (some a) = ok a

-- A `catch` that answers `std::nullopt`.
abbrev pub to_option {ℓ κ} : {E : Type ℓ} {A : Type κ} → Outcome E A → Option A
to_option (ok a) = some a
to_option (throw e) = none

-- Inversion of a successful chain.
pub >>=-eq-ok {ℓ κ μ} :
    {E : Type ℓ} {X : Type κ} {Y : Type μ} {y : Y} (next : X → Outcome E Y) (first : Outcome E X)
    → (first >>= next) ≡ ok y
    → (x : X) × (next x ≡ ok y) × (first ≡ ok x)
>>=-eq-ok next (throw thrown) h = cc
>>=-eq-ok next (ok x) h = (x, h, refl)

pub >>-eq-ok {ℓ κ} :
    {E : Type ℓ} {B : Type κ} (b : Bool) (e : E) (m : Outcome E B) {r : B}
    → (throw_if b e >> m) ≡ ok r
    → (b ≡ false) × (m ≡ ok r)
>>-eq-ok true e m h = cc
>>-eq-ok false e m h = (refl, h)
