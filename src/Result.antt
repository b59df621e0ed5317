-- ===== src/Result.antt =====
-- Python code that may raise returns a `Result`; the exceptions are those that the modelled code
-- raises, catches, or lets through.
use mathlib.Core.Path.{◌≡◌, refl}
use mathlib.Core.Logic.{◌⊎◌, inl, inr}

pub data Exception : Type 0 where
  value_error type_error key_error index_error timeout_error invalid_token assertion_error
        keycloak_authentication_error keycloak_get_error response_error data_error attribute_error
        database_error other_error :
      Exception

pub data Result {ℓ} (A : Type ℓ) : Type ℓ where
  err : Exception → Result A
  ok : A → Result A

-- The rest of a computation, for the `do` blocks: it runs only after a value.
abbrev pub and_then {ℓ κ} : {A : Type ℓ} {B : Type κ} → (A → Result B) → Result A → Result B
and_then rest (err raised) = err raised
and_then rest (ok value) = rest value

infixl 10 ◌>>=◌ ◌>>◌
abbrev pub ◌>>=◌ {ℓ κ} : {A : Type ℓ} {B : Type κ} → Result A → (A → Result B) → Result B
computed >>= rest = and_then rest computed

abbrev pub ◌>>◌ {ℓ κ} : {A : Type ℓ} {B : Type κ} → Result A → Result B → Result B
computed >> rest = and_then (λ _. rest) computed

-- A bind that returns: what was computed first, and what the rest made of it.
pub bind_inv {ℓ κ} :
    {A : Type ℓ} {B : Type κ} {rest : A → Result B} {end : B} (first : Result A)
    → and_then rest first ≡ ok end
    → (value : A) × (first ≡ ok value) × (rest value ≡ ok end)
bind_inv (err raised) h = cc
bind_inv (ok value) h = (value, refl, h)

pub ok-injective {ℓ} : {A : Type ℓ} {a b : A} → ok a ≡ ok b → a ≡ b
ok-injective h = cc

pub Result-cases {ℓ} :
    {A : Type ℓ} (r : Result A) → ((a : A) × (r ≡ ok a)) ⊎ ((e : Exception) × (r ≡ err e))
Result-cases (ok a) = inl (a, refl)
Result-cases (err e) = inr (e, refl)
