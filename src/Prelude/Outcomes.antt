-- ===== src/Prelude/Outcomes.antt =====
-- What a C++ call ends with: a value, an exception, or undefined behaviour. Signed indexes.
use Prim.Native.Nat.{ℕ}
use mathlib.Core.Path.{◌≡◌, refl}
use native.Mathlib.Omega.{arith}

-- The exception classes of inflection/exception that the modelled code throws.
pub data Exception : Type 0 where
  index_out_of_bounds illegal_argument illegal_state null_pointer class_cast : Exception
  excess_complexity invalid_configuration icu_failure : Exception
  -- std::out_of_range
  out_of_range : Exception

pub data Outcome {ℓ} (A : Type ℓ) : Type ℓ where
  ok : A → Outcome A
  throws : Exception → Outcome A
  undefined : Outcome A

infixl 5 ◌>>=◌ ◌>>◌
abbrev pub ◌>>=◌ {ℓ κ} : {A : Type ℓ} {B : Type κ} → Outcome A → (A → Outcome B) → Outcome B
ok a >>= f = f a
throws e >>= f = throws e
undefined >>= f = undefined

abbrev pub ◌>>◌ {ℓ} : {B : Type ℓ} → Outcome (Unit {0}) → Outcome B → Outcome B
m >> k = m >>= λ _. k

-- `negsuc n` is -(n + 1).
pub data ℤ : Type 0 where
  pos : ℕ → ℤ
  negsuc : ℕ → ℤ

-- A chain that ends with a value has a value at its first step.
pub bind-ok {ℓ κ} :
    {A : Type ℓ} {B : Type κ} (m : Outcome A) (f : A → Outcome B) (b : B)
    → m >>= f ≡ ok b
    → (a : A) × (m ≡ ok a) × (f a ≡ ok b)
bind-ok (ok a) f b e = (a, refl, e)
bind-ok (throws x) f b e = absurd (ground (arith, e))
bind-ok undefined f b e = absurd (ground (arith, e))

pub bind-cong {ℓ κ} :
    {A : Type ℓ} {B : Type κ} (m : Outcome A) (f g : A → Outcome B)
    → ((a : A) → f a ≡ g a)
    → m >>= f ≡ m >>= g
bind-cong (ok a) f g h = h a
bind-cong (throws x) f g h = refl
bind-cong undefined f g h = refl
