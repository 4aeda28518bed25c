-- ===== src/Errors.antt =====
-- Exceptions as values, and the functions of Python's library that the model leaves open.
use pyconduit.Base.{ℕ, String, ◌≡◌, refl, ◌⊎◌, inl, inr}
use pyconduit.Json.{Json}

pub data Error : Type 0 where
  -- protocol.ProtocolError and auth.AuthError, with their text
  protocol_error auth_error : String → Error
  -- what a client call raised, by its text
  client_error : String → Error
  -- what a tab's `send` raised
  send_error : Error
  -- Python's own TypeError and AttributeError
  type_error attribute_error : Error

pub data Result {ℓ} (A : Type ℓ) : Type ℓ where
  ok : A → Result A
  raise : Error → Result A

pub Result-cases {ℓ} :
    {A : Type ℓ} (r : Result A) → ((a : A) × (r ≡ ok a)) ⊎ ((e : Error) × (r ≡ raise e))
Result-cases (ok a) = inl (a, refl)
Result-cases (raise e) = inr (e, refl)

infixl 5 ◌>>=◌ ◌>>◌
abbrev pub ◌>>=◌ {ℓ κ} : {A : Type ℓ} {B : Type κ} → Result A → (A → Result B) → Result B
ok a >>= k = k a
raise e >>= k = raise e

abbrev pub ◌>>◌ {ℓ} : {B : Type ℓ} → Result (Unit {0}) → Result B → Result B
m >> k = m >>= λ _. k

-- `str.lower`, `repr` of a text, the decimal digits of an integer and `str` of a value that is no
-- text. The theorems hold for any.
pub record Python : Type 0 where
  pub lower : String → String
  pub repr : String → String
  pub digits : ℕ → String
  pub show : Json → String
