-- ===== src/Auth/Backend.antt =====
-- webtool/auth/backend.py. `decode` is `bytes.decode`; the token service and Keycloak are
-- parameters, which map a token to claims or raise.
pub mod Cookies
pub mod Identities
pub mod Raises
mod Tests
use Prim.Native.String
use webtool.Prelude.{
  ℕ, String, Bool, true, false, not, ◌&&◌, ◌||◌, Option, none, some, List, [], ◌∷◌, ◌++◌, str_eq,
  if◌then◌else◌,
}
use webtool.Prelude.Bytes.{Bytes, codes, same_bytes, split, partition, lower, last_value}
use webtool.Prelude.Dict.{lookup, insert, remove}
use webtool.Result.{
  Exception, Result, ok, err, value_error, keycloak_authentication_error, keycloak_get_error, ◌>>=◌,
}
use webtool.Auth.Models.{Value, null, text, Payload, AuthData}
use webtool.Utils.Key.{encode}

-- The part of an ASGI scope that the backends read.
abbrev pub HeaderList : Type 0
HeaderList = List (Bytes × Bytes)

pub record Scope : Type 0 where
  pub headers : Option HeaderList
  pub client : Option (String × ℕ)

-- `_get_header_value`
unfoldable pub get_header_value : HeaderList → Bytes → Option Bytes
get_header_value header name = last_value name header

-- `dict(c.split(b"=") for c in ...)`: each part has to split in two.
abbrev pub pair_of : List Bytes → Result (Bytes × Bytes)
pair_of (name ∷ value ∷ []) = ok (name, value)
pair_of _ = err value_error

unfoldable pub cookie_pairs : List Bytes → Result HeaderList
cookie_pairs [] = ok []
cookie_pairs (c ∷ cs) = do
  pair ← pair_of (split (codes "=") c)
  pairs ← cookie_pairs cs
  ok (pair ∷ pairs)

-- `_get_authorization_scheme_param`
unfoldable pub get_authorization_scheme_param : Option Bytes → Bytes × Bytes
get_authorization_scheme_param none = ([], [])
get_authorization_scheme_param (some value) = partition 32 value

abbrev pub is_nil : Bytes → Bool
is_nil [] = true
is_nil (_ ∷ _) = false

abbrev pub bearer_token : Option Bytes → Result (Bytes × Bytes)
bearer_token none = err value_error
bearer_token (some value) =
    let (scheme, param) = get_authorization_scheme_param (some value) in
    if not (same_bytes (lower scheme) (codes "bearer")) || is_nil param
    then err value_error
    else ok (scheme, param)

-- `_get_access_token`
unfoldable pub get_access_token : Scope → Result (Bytes × Bytes)
unfolding get_authorization_scheme_param
get_access_token scope = elim scope.headers [
  | none ↦ err value_error
  | some headers ↦ bearer_token (get_header_value headers (codes "authorization"))
]

-- `IPBackend.authenticate`
unfoldable pub ip_authenticate : Scope → Result AuthData
ip_authenticate scope = elim scope.client [
  | none ↦ err value_error
  | some client ↦ ok (record { identifier = text client.0; data' = none })
]

-- `JWTBackend.validate_token`, once the service has answered.
abbrev pub claims_of : Option Payload → Result (Value × Payload)
claims_of none = err value_error
claims_of (some claims) = elim (lookup "sub" claims) [
  | none ↦ err value_error
  | some null ↦ err value_error
  | some sub ↦ ok (sub, claims)
]

abbrev pub session_data : Option String → Result AuthData
session_data none = err value_error
session_data (some session) =
    if str_eq session ""
    then err value_error
    else ok (record { identifier = text session; data' = none })

-- `AnnoSessionBackend.__init__`: `security_flags`, with `str` of a number.
unfoldable pub security_flags : (ℕ → String) → ℕ → Bool → Option String → String
security_flags number max_age secure same_site = String.◌++◌ "httponly; samesite=" (
    String.◌++◌ (elim same_site [ none ↦ "None" | some s ↦ s ])
      (String.◌++◌ "; Max-Age="
        (String.◌++◌ (number max_age) (if secure then "; secure;" else ";"))))

-- The header that gives a client its session.
abbrev pub set_cookie : String → String → String → HeaderList → HeaderList
set_cookie session_name flags session headers =
    headers
    ++ (
      codes "set-cookie",
      encode (
          codes (
            String.◌++◌ session_name
              (String.◌++◌ "=" (String.◌++◌ session (String.◌++◌ "; path=/; " flags))))),
    )
      ∷ []

abbrev pub keep_or_set : HeaderList → HeaderList → Option String → HeaderList
keep_or_set headers more none = more
keep_or_set headers more (some _) = headers

-- The two exceptions of the package that `KeycloakBackend.authenticate` turns into `ValueError`. What
-- else the package raises passes through.
abbrev pub is_caught : Exception → Bool
is_caught keycloak_authentication_error = true
is_caught keycloak_get_error = true
is_caught _ = false

abbrev pub introspected : Result Payload → Result Payload
introspected (err e) = if is_caught e then err value_error else err e
introspected (ok claims) = ok claims

abbrev pub set_default : Payload → String → Payload
set_default claims param = elim (lookup "access_token" claims) [
  | none ↦ insert "access_token" (text param) claims
  | some _ ↦ claims
]

abbrev pub value_or_null : Option Value → Value
value_or_null none = null
value_or_null (some v) = v

module _ (decode : Bytes → Result String) where
  abbrev pub decoded : Option Bytes → Result (Option String)
  decoded none = ok none
  decoded (some value) = decode value >>= λ s. ok (some s)

  -- `_get_cookie_value`
  unfoldable pub get_cookie_value : Bytes → Bytes → Result (Option String)
  unfolding cookie_pairs
  get_cookie_value cookie name =
      cookie_pairs (split (codes "; ") cookie) >>= λ pairs. decoded (last_value name pairs)

  -- `SessionBackend.get_session`
  unfoldable pub get_session : String → Scope → Result (Option String)
  unfolding get_cookie_value get_header_value
  get_session session_name scope = elim scope.headers [
    | none ↦ ok none
    | some headers ↦ elim (get_header_value headers (codes "cookie")) [
      | none ↦ ok none
      | some cookie ↦ get_cookie_value cookie (encode (codes session_name))
    ]
  ]

  -- `SessionBackend.authenticate`
  unfoldable pub session_authenticate : String → Scope → Result AuthData
  session_authenticate session_name scope = get_session session_name scope >>= session_data

  -- The wrapper of `send` in `verify_identity`, on the headers of a response's start.
  unfoldable pub identity_headers : String → String → String → HeaderList → Result HeaderList
  unfolding get_cookie_value get_header_value
  identity_headers session_name flags session headers =
      elim (get_header_value headers (codes "cookie")) [
        | none ↦ ok (set_cookie session_name flags session headers)
        | some cookie ↦ do
          found ← get_cookie_value cookie (encode (codes session_name))
          ok (keep_or_set headers (set_cookie session_name flags session headers) found)
      ]

  -- `JWTBackend.authenticate`
  unfoldable pub jwt_authenticate : (String → Result (Option Payload)) → Scope → Result AuthData
  jwt_authenticate validate_access_token scope = do
    token ← get_access_token scope
    param ← decode token.1
    validated ← validate_access_token param
    claims ← claims_of validated
    ok (record { identifier = claims.0; data' = some (remove "sub" claims.1) })

  -- `KeycloakBackend.authenticate`
  unfoldable pub keycloak_authenticate : (String → Result Payload) → Scope → Result AuthData
  keycloak_authenticate introspect scope = do
    token ← get_access_token scope
    param ← decode token.1
    claims ← introspected (introspect param)
    ok (record {
      identifier = value_or_null (lookup "sub" claims);
      data' = some (set_default claims param);
    })
