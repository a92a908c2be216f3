-- ===== src/Common/Optional.antt =====
-- A chain of reads, each of which may fail: `if (!reader.read(...)) { return std::nullopt; }`.
use mathlib.Core.Option.{Option, none, some}
use mathlib.Core.Bool.{Bool, true, false}

infixl 5 ◌>>=◌ ◌>>◌
abbrev pub ◌>>=◌ {ℓ κ} : {A : Type ℓ} {B : Type κ} → Option A → (A → Option B) → Option B
none >>= f = none
some a >>= f = f a

abbrev pub ◌>>◌ {ℓ} : {B : Type ℓ} → Option (Unit {0}) → Option B → Option B
m >> k = m >>= λ _. k

-- `if (condition) { return std::nullopt; }`
abbrev pub none_if : Bool → Option (Unit {0})
none_if true = none
none_if false = some tt
