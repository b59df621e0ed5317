-- ===== src/Auth/Setup.antt =====
-- webtool/auth/service.py: the keys of a `JWTService`, from `__init__` to `_create_token` and
-- `_decode_token`. PyJWT is an interface.
pub mod Signed
mod Tests
use webtool.Prelude.{ℕ, String, ◌≡◌, Bool, true, false, Option, none, some}
use webtool.Result.{Result, ok, err, ◌>>=◌}
use webtool.Utils.Key.{Cryptography, Key, Loaded, asymmetric, symmetric, without_password, load_key}
use webtool.Auth.Models.{Payload}
use webtool.Auth.Manager.{checked}
use webtool.Auth.Service.{verify_key_algorithm}

module _ (c : Cryptography) where
  open c use {PrivateKey, PublicKey, public_key}

  -- What is given to PyJWT as a key.
  pub data Secret : Type 0 where
    private : PrivateKey → Secret
    public : PublicKey → Secret
    shared : Key → Secret

  -- The key that checks what another key signs.
  abbrev pub verifier : Secret → Secret
  verifier (private k) = public (public_key k)
  verifier (public k) = public k
  verifier (shared s) = shared s

  -- `encode` and `decode` of PyJWT. `accepts` is its check of the claims that have to do with time
  -- and with its options, at a time of the wall clock.
  pub record PyJwt : Type 0 where
    pub encode : Payload → Secret → String → Result String
    pub decode : ℕ → String → Secret → String → Result Payload
    pub accepts : ℕ → Payload → Bool
    pub decode-encode :
        (p : Payload) (key : Secret) (algorithm token : String) (wall : ℕ)
        → encode p key algorithm ≡ ok token
        → accepts wall p ≡ true
        → decode wall token (verifier key) algorithm ≡ ok p

  pub record Service : Type 0 where
    pub secret_key : Key
    pub algorithm : String
    pub private_key : Option PrivateKey
    pub public_key : Option PublicKey

  -- `__init__`, after `load_key(secret_key)`.
  abbrev pub from_key_object : Key → Option String → Loaded c → Result Service
  from_key_object secret algorithm (asymmetric (k, (p, key_algorithm))) =
      verify_key_algorithm algorithm key_algorithm >>= λ a.
      ok (record { secret_key = secret; algorithm = a; private_key = some k; public_key = some p })
  from_key_object secret algorithm (symmetric k key_algorithm) =
      verify_key_algorithm algorithm key_algorithm >>= λ a.
      ok (record { secret_key = secret; algorithm = a; private_key = none; public_key = none })

  unfoldable pub init_service : Key → Option String → Result Service
  init_service secret algorithm = load_key c secret without_password >>= λ key_object.
      from_key_object secret algorithm key_object

  module _ (jwt : PyJwt) (s : Service) where
    unfoldable pub sign_token : Payload → Result String
    sign_token data' = elim s.private_key [
      | some k ↦ jwt.encode data' (private k) s.algorithm
      | none ↦ jwt.encode data' (shared s.secret_key) s.algorithm
    ]

    -- `JWTManager.decode`, which is not told to raise.
    unfoldable pub check_token : ℕ → String → Option String → Result (Option Payload)
    check_token wall token at_hash = elim s.public_key [
      | some k ↦ checked at_hash false (jwt.decode wall token (public k) s.algorithm)
      | none ↦ checked at_hash false (jwt.decode wall token (shared s.secret_key) s.algorithm)
    ]
