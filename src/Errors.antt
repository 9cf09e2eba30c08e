-- ===== src/Errors.antt =====
-- The exceptions that the modelled code raises, results, and actions on a state.
-- A raise keeps what was written before it: an action returns its state in both cases.
use human_review_console.Prelude.{ℕ, String, ◌≡◌, refl, Option, none, some}
use human_review_console.Kernel.{ReviewState}

pub data Error : Type 0 where
  review_not_found : String → Error
  already_resolved : String → ReviewState → Error
  case_not_found : String → Error
  unknown_workflow : String → Error
  illegal_transition : String → String → Error
  value_error : Error
  overflow_error : Error
  integrity_error : Error
  runtime_error : Error
  configured_empty : String → Error
  not_implemented : Error
  json_error : Error
  key_error : Error
  attribute_error : Error
  identity_error : Error
  audience_unconfigured : Error
  auth_unavailable : (http_status : ℕ) → Error
  http_error : (http_status : ℕ) → Error

-- What a call returns, or the exception that it raises.
pub data Result {ℓ} (Value : Type ℓ) : Type ℓ where
  err : (raised : Error) → Result Value
  ok : (returned : Value) → Result Value

abbrev pub or_raise {ℓ} : {A : Type ℓ} → Option A → Error → Result A
or_raise found missing = elim found [ some a ↦ ok a | none ↦ err missing ]

module _ {ℓ κ} {A : Type ℓ} {B : Type κ} where
  infixl 5 ◌>>=◌
  abbrev pub ◌>>=◌ : Result A → (A → Result B) → Result B
  err raised >>= continue = err raised
  ok returned >>= continue = continue returned

  -- A bind that succeeds had a first part that succeeded.
  pub bind_ok :
      (first : Result A) (continue : A → Result B) {b : B}
      → (first >>= continue) ≡ ok b
      → (a : A) × (first ≡ ok a) × (continue a ≡ ok b)
  bind_ok (err raised) continue h = cc
  bind_ok (ok a) continue h = (a, refl, h)
