-- ===== src/Auth/Backend/Tests.antt =====
-- The backends on concrete scopes, with a decoder and a token service that know one text.
use webtool.Prelude.{
  ℕ, String, ◌≡◌, refl, Bool, true, false, Option, none, some, [], ◌∷◌, ◌<◌, All, arith,
  if◌then◌else◌, str_eq,
}
use webtool.Prelude.Bytes.{Bytes, codes, same_bytes, last_value}
use webtool.Prelude.Dict.{lookup, remove}
use webtool.Result.{Result, ok, err, value_error, other_error}
use webtool.Auth.Models.{text, Payload, AuthData}
use webtool.Utils.Key.{encode}
use webtool.Auth.Backend.{
  Scope, decoded, get_cookie_value, ip_authenticate, session_authenticate, jwt_authenticate,
  keycloak_authenticate,
}
use webtool.Auth.Backend.Cookies.{
  print_cookies, IsPlain, IsPlainCookie, get_cookie_value-print_cookies,
}
use webtool.Auth.Backend.Identities.{IsBearer, jwt_authenticate-IsBearer}
use webtool.Auth.Backend.Raises.{IsUncaught, Raises, OnlyValueError, authenticate-Raises}

abbrev decode : Bytes → Result String
decode b = if same_bytes b (codes "t") then ok "t" else err value_error

abbrev claims : Payload
claims = ("sub", text "u") ∷ ("scope", text "a") ∷ []

abbrev validate : String → Result (Option Payload)
validate t = if str_eq t "t" then ok (some claims) else ok none

abbrev introspect : String → Result Payload
introspect t = if str_eq t "t" then ok claims else err other_error

-- "a=b; s=t"
abbrev first : Bytes × Bytes
first = (97 ∷ [], 98 ∷ [])

abbrev second : Bytes × Bytes
second = (115 ∷ [], 116 ∷ [])

byte-IsPlain : (b : ℕ) → 96 < b → IsPlain (b ∷ [])
byte-IsPlain b h = (((λ e. omega arith), λ e. omega arith), tt)

plain : All IsPlainCookie (first ∷ second ∷ [])
plain = (
  (byte-IsPlain 97 (omega arith), byte-IsPlain 98 (omega arith)),
  ((byte-IsPlain 115 (omega arith), byte-IsPlain 116 (omega arith)), tt),
)

get_cookie_value-print_cookies_example :
    get_cookie_value decode (print_cookies first (second ∷ [])) (codes "s")
    ≡ decoded decode (last_value (codes "s") (first ∷ second ∷ []))
get_cookie_value-print_cookies_example =
    get_cookie_value-print_cookies decode first (second ∷ []) (codes "s") plain

abbrev with_cookie : Scope
with_cookie = record {
  headers = some ((codes "cookie", print_cookies first (second ∷ [])) ∷ []);
  client = none;
}

named : last_value (encode (codes "s")) (first ∷ second ∷ []) ≡ some (codes "t")
unfolding encode
named = refl

abbrev with_token : Scope
with_token = record {
  headers = some ((codes "authorization", codes "Bearer t") ∷ []);
  client = none;
}

abbrev user : AuthData
user = record { identifier = text "u"; data' = some (remove "sub" claims) }

is_user : jwt_authenticate decode validate with_token ≡ ok user
unfolding jwt_authenticate webtool.Auth.Backend.get_access_token
    webtool.Auth.Backend.get_header_value webtool.Auth.Backend.get_authorization_scheme_param lookup
is_user = refl

jwt_authenticate-IsBearer_example : IsBearer decode validate with_token user
jwt_authenticate-IsBearer_example =
    jwt_authenticate-IsBearer decode validate with_token user is_user

decode_raises : (b : Bytes) → OnlyValueError (decode b)
decode_raises b = tested (same_bytes b (codes "t"))
  where
    tested : (b : Bool) → OnlyValueError {A = String} (if b then ok "t" else err value_error)
    tested true e h = ground arith
    tested false e h = ground arith

validate_raises : (t : String) → OnlyValueError (validate t)
validate_raises t = tested (str_eq t "t")
  where
    tested :
        (b : Bool) → OnlyValueError {A = Option Payload} (if b then ok (some claims) else ok none)
    tested true e h = ground arith
    tested false e h = ground arith

authenticate-Raises_example :
    OnlyValueError (ip_authenticate with_token)
    × OnlyValueError (session_authenticate decode "s" with_token)
    × OnlyValueError (jwt_authenticate decode validate with_token)
    × Raises (IsUncaught introspect) (keycloak_authenticate decode introspect with_token)
authenticate-Raises_example =
    authenticate-Raises decode validate introspect "s" with_token decode_raises validate_raises
