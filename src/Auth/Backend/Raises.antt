-- ===== src/Auth/Backend/Raises.antt =====
-- What `authenticate` of the backends raises.
use mathlib.Core.Bool.{true≢false}
use webtool.Prelude.{
  ap, sym, ◌∙◌, ◌≢◌, Bool-cases, ℕ, String, ◌≡◌, refl, Bool, true, false, not, ◌||◌, ◌⊎◌, inl, inr,
  List, [], ◌∷◌, Option, none, some, str_eq, arith, if◌then◌else◌,
}
use webtool.Prelude.Bytes.{Bytes, codes, same_bytes, lower, last_value, partition, split}
use webtool.Prelude.Dict.{lookup}
use webtool.Result.{
  Exception, Result, ok, err, value_error, keycloak_authentication_error, keycloak_get_error, ◌>>=◌,
}
use webtool.Auth.Models.{Value, null, text, number, texts, Payload, AuthData}
use webtool.Utils.Key.{encode}
use webtool.Auth.Backend.{
  HeaderList, Scope, get_header_value, get_session, session_data, session_authenticate,
  ip_authenticate, bearer_token, get_access_token, get_authorization_scheme_param, claims_of,
  is_caught, introspected, jwt_authenticate, keycloak_authenticate, is_nil, cookie_pairs, pair_of,
  get_cookie_value, decoded,
}

-- No exception but `ValueError`, which the middleware catches.
abbrev pub OnlyValueError : {A : Type 0} → Result A → Type 0
OnlyValueError r = (e : Exception) → r ≡ err e → e ≡ value_error

only_ok : {A : Type 0} (a : A) → OnlyValueError (ok a)
only_ok a e h = ground arith

only_value_error : {A : Type 0} {r : Result A} → r ≡ err value_error → OnlyValueError r
only_value_error s e h = ground arith

only_bind :
    {A B : Type 0} (first : Result A) (rest : A → Result B)
    → OnlyValueError first
    → ((value : A) → OnlyValueError (rest value))
    → OnlyValueError (first >>= rest)
only_bind (ok value) rest h k = λ e same. k value e same
only_bind (err raised) rest h k = λ e same. h e (ground arith)

only_pair_of : (parts : List Bytes) → OnlyValueError (pair_of parts)
only_pair_of [] = only_value_error refl
only_pair_of (p ∷ []) = only_value_error refl
only_pair_of (p ∷ q ∷ []) = only_ok (p, q)
only_pair_of (p ∷ q ∷ r ∷ ps) = only_value_error refl

only_cookie_pairs : (cs : List Bytes) → OnlyValueError (cookie_pairs cs)
unfolding cookie_pairs
only_cookie_pairs [] = only_ok []
only_cookie_pairs (c ∷ cs) =
    only_bind (pair_of (split (codes "=") c)) _ (only_pair_of (split (codes "=") c)) (λ pair.
      only_bind (cookie_pairs cs) _ (only_cookie_pairs cs) (λ pairs. only_ok (pair ∷ pairs)))

only_session_data : (o : Option String) → OnlyValueError (session_data o)
only_session_data none = only_value_error refl
only_session_data (some s) = tested (str_eq s "")
  where
    tested :
        (b : Bool)
        → OnlyValueError {A = AuthData}
            (if b then err value_error else ok (record { identifier = text s; data' = none }))
    tested true = only_value_error refl
    tested false = only_ok (record { identifier = text s; data' = none })

only_bearer_token : (o : Option Bytes) → OnlyValueError (bearer_token o)
unfolding get_authorization_scheme_param
only_bearer_token none = only_value_error refl
only_bearer_token (some value) =
    let t = partition 32 value in
    tested (not (same_bytes (lower t.0) (codes "bearer")) || is_nil t.1) t
  where
    tested : (b : Bool) (t : Bytes × Bytes) → OnlyValueError (if b then err value_error else ok t)
    tested true t = only_value_error refl
    tested false t = only_ok t

only_access_token :
    (o : Option HeaderList) (client : Option (String × ℕ))
    → OnlyValueError (get_access_token (record { headers = o; client = client }))
unfolding get_access_token
only_access_token none client = only_value_error refl
only_access_token (some headers) client =
    only_bearer_token (get_header_value headers (codes "authorization"))

only_claims_of : (o : Option Payload) → OnlyValueError (claims_of o)
only_claims_of none = only_value_error refl
only_claims_of (some claims) = looked_up (lookup "sub" claims)
  where
    looked_up :
        (o : Option Value)
        → OnlyValueError (elim o as (λ _. Result (Value × Payload)) [
          | none ↦ err value_error
          | some null ↦ err value_error
          | some sub ↦ ok (sub, claims)
        ])
    looked_up none = only_value_error refl
    looked_up (some null) = only_value_error refl
    looked_up (some (text s)) = only_ok (text s, claims)
    looked_up (some (number n)) = only_ok (number n, claims)
    looked_up (some (texts l)) = only_ok (texts l, claims)

-- `ValueError`, or an exception of the token's introspection that is not one of the two caught.
abbrev pub IsUncaught : (String → Result Payload) → Exception → Type 0
IsUncaught introspect e =
    (e ≡ value_error)
    ⊎ ((t : String) × (introspect t ≡ err e)
        × (e ≢ keycloak_authentication_error)
        × (e ≢ keycloak_get_error))

abbrev pub Raises : {A : Type 0} → (Exception → Type 0) → Result A → Type 0
Raises P r = (e : Exception) → r ≡ err e → P e

Raises-bind :
    {A B : Type 0} (P : Exception → Type 0) (first : Result A) (rest : A → Result B)
    → Raises P first
    → ((value : A) → Raises P (rest value))
    → Raises P (first >>= rest)
Raises-bind P (ok value) rest h k = k value
Raises-bind P (err raised) rest h k = λ e same. h e (ground arith)

Raises-only :
    {A : Type 0} (introspect : String → Result Payload) {r : Result A}
    → OnlyValueError r
    → Raises (IsUncaught introspect) r
Raises-only introspect h e same = inl (h e same)

not_caught : (e e' : Exception) → is_caught e ≡ false → is_caught e' ≡ true → e ≢ e'
not_caught e e' no' yes' same = true≢false (sym yes' ∙ (sym (ap is_caught same) ∙ no'))

introspected-Raises :
    (introspect : String → Result Payload) (t : String) (r : Result Payload)
    → introspect t ≡ r
    → Raises (IsUncaught introspect) (introspected r)
introspected-Raises introspect t (ok claims) s = λ e h. absurd (ground arith)
introspected-Raises introspect t (err raised) s = elim (Bool-cases (is_caught raised)) [
  | inl caught ↦ rw caught (Raises-only introspect (only_value_error refl))
  | inr left ↦ rw left (λ e h.
      let same : raised ≡ e = ground arith in
      inr (
        t,
        s ∙ h,
        not_caught e keycloak_authentication_error (rw⁻¹ same left) refl,
        not_caught e keycloak_get_error (rw⁻¹ same left) refl,
      ))
]

module _ (decode : Bytes → Result String)
    (decode_raises : (b : Bytes) → OnlyValueError (decode b)) where
  only_decoded : (o : Option Bytes) → OnlyValueError (decoded decode o)
  only_decoded none = only_ok none
  only_decoded (some value) =
      only_bind (decode value) _ (decode_raises value) (λ s. only_ok (some s))

  only_cookie_value : (cookie name : Bytes) → OnlyValueError (get_cookie_value decode cookie name)
  unfolding get_cookie_value
  only_cookie_value cookie name =
      only_bind (cookie_pairs (split (codes "; ") cookie)) _
        (only_cookie_pairs (split (codes "; ") cookie))
        (λ pairs. only_decoded (last_value name pairs))

  only_session :
      (name : String) (headers : Option HeaderList) (client : Option (String × ℕ))
      → OnlyValueError (get_session decode name (record { headers = headers; client = client }))
  unfolding get_session
  only_session name none client = only_ok none
  only_session name (some headers) client = from_cookie (get_header_value headers (codes "cookie"))
    where
      from_cookie :
          (o : Option Bytes)
          → OnlyValueError (elim o as (λ _. Result (Option String)) [
            | none ↦ ok none
            | some cookie ↦ get_cookie_value decode cookie (encode (codes name))
          ])
      from_cookie none = only_ok none
      from_cookie (some cookie) = only_cookie_value cookie (encode (codes name))

-- Where decoding raises nothing but `ValueError`, nor does the token service, three of the backends
-- raise nothing but `ValueError`. `KeycloakBackend` raises that, or what the introspection of a token
-- raised, unless it was `KeycloakAuthenticationError` or `KeycloakGetError`.
pub authenticate-Raises :
    (decode : Bytes → Result String) (validate : String → Result (Option Payload))
    (introspect : String → Result Payload) (session_name : String) (scope : Scope)
    → ((b : Bytes) → OnlyValueError (decode b))
    → ((t : String) → OnlyValueError (validate t))
    → OnlyValueError (ip_authenticate scope)
      × OnlyValueError (session_authenticate decode session_name scope)
      × OnlyValueError (jwt_authenticate decode validate scope)
      × Raises (IsUncaught introspect) (keycloak_authenticate decode introspect scope)
unfolding ip_authenticate session_authenticate jwt_authenticate keycloak_authenticate
authenticate-Raises decode validate introspect session_name scope decode_raises validate_raises =
    let P = IsUncaught introspect in
    let token = get_access_token scope in
    let token_raises : OnlyValueError token = only_access_token scope.headers scope.client in
    (
      by_client scope.client,
      only_bind (get_session decode session_name scope) _
          (only_session decode decode_raises session_name scope.headers scope.client)
          only_session_data,
      only_bind token _ token_raises (λ t. only_bind (decode t.1) _ (decode_raises t.1) (λ param.
          only_bind (validate param) _ (validate_raises param) (λ validated.
            only_bind (claims_of validated) _ (only_claims_of validated) (λ claims. only_ok _)))),
      Raises-bind P token _ (Raises-only introspect token_raises) (λ t.
          Raises-bind P (decode t.1) _ (Raises-only introspect (decode_raises t.1)) (λ param.
            Raises-bind P (introspected (introspect param)) _
              (introspected-Raises introspect param (introspect param) refl)
              (λ claims. Raises-only introspect (only_ok _)))),
    )
  where
    by_client :
        (o : Option (String × ℕ))
        → OnlyValueError (elim o as (λ _. Result AuthData) [
          | none ↦ err value_error
          | some client ↦ ok (record { identifier = text client.0; data' = none })
        ])
    by_client none = only_value_error refl
    by_client (some client) = only_ok _
