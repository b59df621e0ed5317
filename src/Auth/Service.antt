-- ===== src/Auth/Service.antt =====
-- webtool/auth/service.py, `JWTService`, with `JWTManager.decode` of webtool/auth/manager.py. The
-- cache and the token library are interfaces; the keys and the algorithm are fixed. An operation
-- takes one reading of the cache's clock, and readings of the wall clock in seconds.
pub mod Tokens
pub mod Reordered
pub mod Life
pub mod Revoked
pub mod Expired
pub mod Rotated
pub mod Algorithm
pub mod InMemory
mod Tests
use Prim.Native.String
use webtool.Prelude.{
  ℕ, zero, ◌+◌, ◌≤◌, String, ◌≡◌, Bool, true, false, not, ◌&&◌, ◌||◌, Option, none, some, List, [],
  ◌∷◌, all, length, ltb, ◌==◌, str_eq, if◌then◌else◌,
}
use webtool.Prelude.Dict.{Dict, lookup, insert, remove}
use webtool.Result.{
  Exception, Result, ok, err, value_error, key_error, timeout_error, invalid_token, ◌>>=◌,
}
use webtool.Auth.TokenCache.{TokenCache, TokenText}
use webtool.Auth.Manager.{same_payload, checked}
use webtool.Auth.Models.{
  Value, null, text, number, texts, Payload, truthy, get_jti, validate_sub, create_metadata,
}

-- `_verify_key_algorithm`: the algorithm that the service has afterwards.
unfoldable pub verify_key_algorithm : Option String → String → Result String
verify_key_algorithm none key_algorithm = ok key_algorithm
verify_key_algorithm (some a) key_algorithm =
    if str_eq a ""
    then ok key_algorithm
    else if str_eq key_algorithm a
    then ok a
    else err value_error

-- `if not data`
abbrev pub full : Option Payload → Option Payload
full none = none
full (some []) = none
full (some (e ∷ es)) = some (e ∷ es)

-- The comparison of `validate_refresh_token`, which pops "access_jti" from what was cached.
abbrev pub popped : Option Value → Payload → Payload → Result (Option Payload)
popped none cached refresh = err key_error
popped (some _) cached refresh =
    if same_payload (remove "access_jti" cached) refresh then ok (some refresh) else ok none

abbrev pub compare_cached : Option Payload → Payload → Result (Option Payload)
compare_cached none refresh = ok none
compare_cached (some cached) refresh = popped (lookup "access_jti" cached) cached refresh

abbrev pub value_of : Option Value → Value
value_of none = null
value_of (some v) = v

module _ {Text : Type 0} (cache : TokenCache Text) (tokens : TokenText Text)
    (access_expire refresh_expire : ℕ) where
  open cache use {Store, acquire, release, set, get, delete}
  open tokens use {encode, decode, dumps, loads, format}

  -- `_get_key`
  abbrev pub get_key : Payload → String
  get_key data' = String.◌++◌ "jwt_" (format (lookup "jti" data'))

  unfoldable pub decode_token : ℕ → String → Result (Option Payload)
  decode_token wall token = checked none false (decode wall token)

  -- `_save_refresh_token`
  abbrev pub saving : String → Text → ℕ → Store × Bool → Store × Result (Unit {0})
  saving key val now (s, got) =
      if got then release key now (set key val refresh_expire now s) else (s, err timeout_error)

  unfoldable pub save_refresh_token : Payload → Payload → ℕ → Store → Store × Result (Unit {0})
  save_refresh_token access_data refresh_data now s =
      let key = get_key refresh_data in
      let val = dumps (insert "access_jti" (value_of (get_jti access_data)) refresh_data) in
      saving key val now (acquire key now s)

  -- `_read_refresh_token`
  abbrev pub load : Option Text → Option Payload
  load none = none
  load (some val) = if tokens.is_empty val then none else some (loads val)

  abbrev pub left : Option Text → Store × Result (Unit {0}) → Store × Result (Option Payload)
  left val (s, r) = (s, r >>= λ _. ok (load val))

  abbrev pub reading : String → ℕ → Store × Bool → Store × Result (Option Payload)
  reading key now (s, got) =
      if got
      then left (get key now s).1 (release key now (get key now s).0)
      else (s, err timeout_error)

  unfoldable pub read_refresh_token : Payload → ℕ → Store → Store × Result (Option Payload)
  read_refresh_token refresh_data now s =
      let key = get_key refresh_data in reading key now (acquire key now s)

  -- `_invalidate_refresh_token`
  unfoldable pub invalidate_refresh_token : Payload → ℕ → Store → Store × Result (Unit {0})
  invalidate_refresh_token data' now s = delete (get_key data') now s

  -- `create_token`, with the clock readings and the identifiers of `_create_metadata`.
  pub record Issue : Type 0 where
    pub access_time : ℕ
    pub access_jti : String
    pub refresh_time : ℕ
    pub refresh_jti : String
    pub now : ℕ

  abbrev pub access_of : Payload → Issue → Payload
  access_of data' i = create_metadata data' access_expire i.access_time i.access_jti

  abbrev pub refresh_of : Payload → Issue → Payload
  refresh_of data' i = create_metadata data' refresh_expire i.refresh_time i.refresh_jti

  abbrev pub saved : String × String → Store × Result (Unit {0}) → Store × Result (String × String)
  saved pair (s, r) = (s, r >>= λ _. ok pair)

  abbrev pub issue :
      Payload → Issue → Result (String × String) → Store → Store × Result (String × String)
  issue data' i (err e) s = (s, err e)
  issue data' i (ok pair) s =
      saved pair (save_refresh_token (access_of data' i) (refresh_of data' i) i.now s)

  abbrev pub encoded : Payload → Issue → Result (String × String)
  encoded data' i = do
    valid ← validate_sub data'
    access_token ← encode (access_of data' i)
    refresh_token ← encode (refresh_of data' i)
    ok (access_token, refresh_token)

  unfoldable pub create_token : Payload → Issue → Store → Store × Result (String × String)
  create_token data' i s = issue data' i (encoded data' i) s

  unfoldable pub validate_access_token : ℕ → String → Result (Option Payload)
  unfolding decode_token
  validate_access_token wall token = decode_token wall token >>= λ o. ok (full o)

  abbrev pub compared : Payload → Store × Result (Option Payload) → Store × Result (Option Payload)
  compared refresh (s, r) = (s, r >>= λ cached. compare_cached (full cached) refresh)

  abbrev pub validate_data : Result (Option Payload) → ℕ → Store → Store × Result (Option Payload)
  validate_data (err e) now s = (s, err e)
  validate_data (ok none) now s = (s, ok none)
  validate_data (ok (some [])) now s = (s, ok none)
  validate_data (ok (some (e ∷ es))) now s = compared (e ∷ es) (read_refresh_token (e ∷ es) now s)

  unfoldable pub validate_refresh_token : ℕ → ℕ → String → Store → Store × Result (Option Payload)
  validate_refresh_token wall now token s = validate_data (decode_token wall token) now s

  abbrev pub deleted : Store × Result (Unit {0}) → Store × Result Bool
  deleted (s, r) = (s, r >>= λ _. ok true)

  abbrev pub invalidate_data : ℕ → Store × Result (Option Payload) → Store × Result Bool
  invalidate_data now (s, err e) = (s, err e)
  invalidate_data now (s, ok none) = (s, ok false)
  invalidate_data now (s, ok (some data')) = deleted (invalidate_refresh_token data' now s)

  unfoldable pub invalidate_token : ℕ → ℕ → String → Store → Store × Result Bool
  invalidate_token wall now token s = invalidate_data now (validate_refresh_token wall now token s)

  abbrev pub reissued : Store × Result (String × String) → Store × Result (Option (String × String))
  reissued (s, r) = (s, r >>= λ pair. ok (some pair))

  abbrev pub reissue :
      Payload → Issue → Store × Result Bool → Store × Result (Option (String × String))
  reissue data' i (s, err e) = (s, err e)
  reissue data' i (s, ok false) = (s, ok none)
  reissue data' i (s, ok true) = reissued (create_token data' i s)

  unfoldable pub update_token :
      Payload → Issue → ℕ → ℕ → String → Store → Store × Result (Option (String × String))
  update_token data' i wall now token s = reissue data' i (invalidate_token wall now token s)
