-- ===== src/Prelude/Results.antt =====
-- Exceptions as values, and the chain of steps that may raise.
use Prim.Native.Nat.{ℕ}
use mathlib.Core.Path.{◌≡◌, refl}
use mathlib.Core.Logic.{◌⊎◌, inl, inr}

-- The exceptions that the modelled code raises, or lets through from what it calls.
pub data Error : Type 0 where
  value_error : Error
  invalid_transition : Error
  invalid_label : Error
  integrity_error : Error
  runtime_error : Error
  type_error : Error
  not_implemented : Error
  query_error : Error
  already_exists : Error
  http_error : (status : ℕ) → Error

pub data Result {ℓ} (A : Type ℓ) : Type ℓ where
  ok : A → Result A
  raise : Error → Result A

module _ {ℓ κ} {A : Type ℓ} {B : Type κ} where
  infixl 5 ◌>>=◌
  abbrev pub ◌>>=◌ : Result A → (A → Result B) → Result B
  raise error >>= next = raise error
  ok value >>= next = next value

module _ {κ} {B : Type κ} where
  infixl 5 ◌>>◌
  abbrev pub ◌>>◌ : Result (Unit {0}) → Result B → Result B
  first >> second = first >>= λ _. second

-- Where two steps return, the first returned a value, and the second returned on it.
module _ {ℓ κ} {A : Type ℓ} {B : Type κ} where
  pub >>=-eq-ok :
      (first : Result A) (second : A → Result B) {y : B}
      → (first >>= second) ≡ ok y
      → (x : A) × (first ≡ ok x) × (second x ≡ ok y)
  >>=-eq-ok (raise error) second returned = cc
  >>=-eq-ok (ok x) second returned = (x, refl, returned)

pub Result-cases {ℓ} :
    {A : Type ℓ} (m : Result A) → ((a : A) × (m ≡ ok a)) ⊎ ((e : Error) × (m ≡ raise e))
Result-cases (ok a) = inl (a, refl)
Result-cases (raise e) = inr (e, refl)
