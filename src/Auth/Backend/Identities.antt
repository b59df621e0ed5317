-- ===== src/Auth/Backend/Identities.antt =====
-- Whom the backends identify.
use mathlib.Core.Bool.{true≢false}
use webtool.Prelude.{
  ℕ, String, ◌≡◌, ◌≢◌, refl, sym, ap, ◌∙◌, Bool, true, false, not, ◌||◌, [], ◌∷◌, All, Option, none,
  some, eq_iff, arith, if◌then◌else◌,
}
use webtool.Prelude.Bytes.{Bytes, codes, same_bytes, lower, last_value, partition}
use webtool.Prelude.Dict.{lookup, remove}
use webtool.Result.{Result, ok, err, value_error, ok-injective, bind_inv, ◌>>=◌}
use webtool.Auth.Models.{Value, null, text, number, texts, Payload, AuthData}
use webtool.Utils.Key.{encode}
use webtool.Auth.Backend.{
  HeaderList, Scope, get_header_value, get_session, session_data, session_authenticate,
  bearer_token, get_access_token, get_authorization_scheme_param, claims_of, jwt_authenticate,
  is_nil, get_cookie_value, decoded,
}
use webtool.Auth.Backend.Cookies.{print_cookies, IsPlainCookie, get_cookie_value-print_cookies}

session_text :
    (s : String)
    → s ≢ ""
    → session_data (some s) ≡ ok (record { identifier = text s; data' = none })
session_text s ne = ground (arith, eq_iff s "")

module _ (decode : Bytes → Result String) where
  get_session_lem :
      (session_name : String) (headers : HeaderList) (client : Option (String × ℕ)) (cookie : Bytes)
      → last_value (codes "cookie") headers ≡ some cookie
      → get_session decode session_name (record { headers = some headers; client = client })
        ≡ get_cookie_value decode cookie (encode (codes session_name))
  unfolding get_session get_header_value
  get_session_lem session_name headers client cookie sent = rw (get_session, sent) refl

  -- A client that sends the cookie header of its cookies, which are plain, is identified by the
  -- value of the last one with the session's name, decoded, unless that is empty.
  pub session_authenticate-print_cookies :
      (session_name : String) (headers : HeaderList) (client : Option (String × ℕ))
      (c : Bytes × Bytes) (cs : HeaderList) (value : Bytes) (session : String)
      → All IsPlainCookie (c ∷ cs)
      → last_value (codes "cookie") headers ≡ some (print_cookies c cs)
      → last_value (encode (codes session_name)) (c ∷ cs) ≡ some value
      → decode value ≡ ok session
      → session ≢ ""
      → session_authenticate decode session_name
          (record { headers = some headers; client = client })
        ≡ ok (record { identifier = text session; data' = none })
  unfolding session_authenticate
  session_authenticate-print_cookies session_name headers client c cs value session h sent listed
        read ne =
      let name = encode (codes session_name) in
      let found : get_session decode session_name
            (record { headers = some headers; client = client })
          ≡ ok (some session) =
        get_session_lem session_name headers client (print_cookies c cs) sent
        ∙ (get_cookie_value-print_cookies decode c cs name h
            ∙ (ap (decoded decode) listed ∙ ap (λ r. r >>= λ s. ok (some s)) read)) in
      ap (λ r. r >>= session_data) found ∙ session_text session ne

  -- What `JWTBackend` identifies a client by.
  pub record IsBearer (validate : String → Result (Option Payload)) (scope : Scope)
      (auth : AuthData) : Type 0 where
    pub headers : HeaderList
    pub value : Bytes
    pub token : String
    pub claims : Payload
    pub sub : Value
    pub has_headers : scope.headers ≡ some headers
    pub sent : last_value (codes "authorization") headers ≡ some value
    pub bearer : lower (partition 32 value).0 ≡ codes "bearer"
    pub not_empty : (partition 32 value).1 ≢ []
    pub read : decode (partition 32 value).1 ≡ ok token
    pub valid : validate token ≡ ok (some claims)
    pub has_sub : lookup "sub" claims ≡ some sub
    pub not_null : sub ≢ null
    pub identity : auth ≡ record { identifier = sub; data' = some (remove "sub" claims) }

scheme_inv :
    (b b' : Bool) (t u : Bytes × Bytes)
    → (if not b || b' then err value_error else ok t) ≡ ok u
    → (b ≡ true) × (b' ≡ false) × (t ≡ u)
scheme_inv true true t u h = ground arith
scheme_inv true false t u h = (refl, refl, ok-injective h)
scheme_inv false b' t u h = ground arith

same_bytes-eq : (xs ys : Bytes) → same_bytes xs ys ≡ true → xs ≡ ys
same_bytes-eq [] [] h = refl
same_bytes-eq [] (y ∷ ys) h = ground arith
same_bytes-eq (x ∷ xs) [] h = ground arith
same_bytes-eq (x ∷ xs) (y ∷ ys) h = ground (arith, same_bytes-eq xs ys)

bearer_token_inv :
    (o : Option Bytes) (t : Bytes × Bytes)
    → bearer_token o ≡ ok t
    → (value : Bytes) × (o ≡ some value)
      × (lower (partition 32 value).0 ≡ codes "bearer")
      × ((partition 32 value).1 ≢ [])
      × (partition 32 value ≡ t)
bearer_token_inv none t h = ground arith
bearer_token_inv (some value) t h =
    let p = partition 32 value in
    let (bearer, full, same) =
      scheme_inv (same_bytes (lower p.0) (codes "bearer")) (is_nil p.1) p t
        (unfold get_authorization_scheme_param in h) in
    let none_empty : p.1 ≢ [] = λ e. true≢false (sym (ap is_nil e) ∙ full) in
    (value, refl, same_bytes-eq (lower p.0) (codes "bearer") bearer, none_empty, same)

header_of : Option HeaderList → Result (Bytes × Bytes)
header_of o = elim o [
  | none ↦ err value_error
  | some headers ↦ bearer_token (get_header_value headers (codes "authorization"))
]

header_of_inv :
    (o : Option HeaderList) (t : Bytes × Bytes)
    → header_of o ≡ ok t
    → (headers : HeaderList) × (o ≡ some headers)
      × (bearer_token (last_value (codes "authorization") headers) ≡ ok t)
unfolding header_of get_header_value
header_of_inv none t h = ground arith
header_of_inv (some headers) t h = (headers, refl, h)

sub_of : Option Value → Payload → Result (Value × Payload)
sub_of o claims = elim o [
  | none ↦ err value_error
  | some null ↦ err value_error
  | some sub ↦ ok (sub, claims)
]

sub_of_inv :
    (o : Option Value) (claims : Payload) (c : Value × Payload)
    → sub_of o claims ≡ ok c
    → (sub : Value) × (o ≡ some sub) × (sub ≢ null) × ((sub, claims) ≡ c)
unfolding sub_of
sub_of_inv none claims c h = ground arith
sub_of_inv (some null) claims c h = ground arith
sub_of_inv (some (text s)) claims c h = (text s, refl, (λ e. cc), ok-injective h)
sub_of_inv (some (number n)) claims c h = (number n, refl, (λ e. cc), ok-injective h)
sub_of_inv (some (texts l)) claims c h = (texts l, refl, (λ e. cc), ok-injective h)

claims_of_inv :
    (o : Option Payload) (c : Value × Payload)
    → claims_of o ≡ ok c
    → (claims : Payload) × (sub : Value) × (o ≡ some claims)
      × (lookup "sub" claims ≡ some sub)
      × (sub ≢ null)
      × ((sub, claims) ≡ c)
claims_of_inv none c h = ground arith
claims_of_inv (some claims) c h =
    let (sub, has, not_null, same) =
      sub_of_inv (lookup "sub" claims) claims c (unfold sub_of in h) in
    (claims, sub, refl, has, not_null, same)

abbrev identity_of : Value × Payload → AuthData
identity_of c = record { identifier = c.0; data' = some (remove "sub" c.1) }

-- A client that `JWTBackend` identifies has sent an authorization header with the scheme "bearer",
-- in any case, and a token that the service validates, with a subject; the identifier is that
-- subject, and the data are the other claims.
pub jwt_authenticate-IsBearer :
    (decode : Bytes → Result String) (validate : String → Result (Option Payload)) (scope : Scope)
    (auth : AuthData)
    → jwt_authenticate decode validate scope ≡ ok auth
    → IsBearer decode validate scope auth
unfolding jwt_authenticate get_access_token
jwt_authenticate-IsBearer decode validate scope auth h =
    let (t, got, h₁) = bind_inv (get_access_token scope) h in
    let (param, read, h₂) = bind_inv (decode t.1) h₁ in
    let (validated, answered, h₃) = bind_inv (validate param) h₂ in
    let (c, told, h₄) = bind_inv (claims_of validated) h₃ in
    let (headers, has_headers, token_ok) =
      header_of_inv scope.headers t (unfold header_of in got) in
    let (value, sent, bearer, full, same) =
      bearer_token_inv (last_value (codes "authorization") headers) t token_ok in
    let (claims, sub, valid, has_sub, not_null, same_claims) = claims_of_inv validated c told in
    record {
      headers = headers;
      value = value;
      token = param;
      claims = claims;
      sub = sub;
      has_headers = has_headers;
      sent = sent;
      bearer = bearer;
      not_empty = full;
      read = ap (λ (q : Bytes × Bytes). decode q.1) same ∙ read;
      valid = answered ∙ ap ok valid;
      has_sub = has_sub;
      not_null = not_null;
      identity = sym (ap identity_of same_claims ∙ ok-injective h₄);
    }
