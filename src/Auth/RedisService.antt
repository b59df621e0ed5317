-- ===== src/Auth/RedisService.antt =====
-- webtool/auth/service.py, `RedisJWTService`: its three scripts and the methods that run them. A
-- script is one step of the server; what it did before an error stays done. `wall` is the time that
-- a method sends along, in seconds, and `now` that of the server. Lua decodes the texts of Python's
-- JSON to the same members; what it encodes is `cjson_encode`.
pub mod Revokes
pub mod Searches
pub mod Saves
mod Tests
use Prim.Native.String
use webtool.Prelude.{
  ℕ, String, Bool, true, false, Option, none, some, List, [], ◌∷◌, str_eq, if◌then◌else◌,
}
use webtool.Prelude.Int.{sub_ℕ}
use webtool.Prelude.Dict.{lookup, insert}
use webtool.Result.{Result, ok, err, timeout_error, type_error, response_error, data_error, ◌>>=◌}
use webtool.Auth.Models.{Value, null, text, number, texts, Payload, get_jti}
use webtool.Auth.TokenCache.{TokenCache, TokenText}
use webtool.Auth.TokenServer.{LuaJson, TokenServer}
use webtool.Auth.Service.{decode_token, validate_refresh_token}

-- A text in a concatenation of Lua, which raises an error for anything but texts and numbers.
abbrev pub lua_text : (ℕ → String) → Option Value → Result String
lua_text lua_number (some (text s)) = ok s
lua_text lua_number (some (number n)) = ok (lua_number n)
lua_text lua_number _ = err response_error

-- A number in an arithmetic operation of Lua.
abbrev pub lua_arithmetic : Option Value → Result ℕ
lua_arithmetic (some (number n)) = ok n
lua_arithmetic _ = err response_error

-- An argument of a script: redis-py takes texts and numbers.
abbrev pub argument : (Option Value → String) → Option Value → Result String
argument format (some (text s)) = ok s
argument format (some (number n)) = ok (format (some (number n)))
argument format _ = err data_error

-- The key of a lock, which `sha256` hashes.
abbrev pub lock_key : Option Value → Result String
lock_key (some (text s)) = ok s
lock_key _ = err type_error

abbrev pub jti_or_empty : Option String → String
jti_or_empty none = ""
jti_or_empty (some j) = j

abbrev pub token_key : String → String
token_key jti = String.◌++◌ "jwt_" jti

abbrev pub sub_key : String → String
sub_key sub = String.◌++◌ "jwt_sub_" sub

module _ {Text : Type 0} (cache : TokenCache Text) (tokens : TokenText Text)
    (server : TokenServer cache) (lua : LuaJson tokens) (access_expire refresh_expire : ℕ) where
  open cache use {Store, stored, acquire, release}
  open tokens use {decode, dumps, loads, format}
  open lua use {lua_number, cjson_encode}
  open server use {scores, set_exat, del, zadd, zrem, expire, zremrangebyscore, zrange}

  -- `_LUA_SAVE_TOKEN_SCRIPT`, from the end.
  abbrev pub save_for_search : Result String → String → ℕ → ℕ → Store → Store × Result (Unit {0})
  save_for_search (err e) jti wall now s = (s, err e)
  save_for_search (ok sub) jti wall now s =
      (expire (sub_key sub) refresh_expire now (zadd (sub_key sub) wall jti now s), ok tt)

  abbrev pub save_for_validation :
      Result String → Result ℕ → Payload → String → ℕ → ℕ → Store → Store × Result (Unit {0})
  save_for_validation (err e) exp refresh access_jti wall now s = (s, err e)
  save_for_validation (ok jti) (err e) refresh access_jti wall now s = (s, err e)
  save_for_validation (ok jti) (ok exp) refresh access_jti wall now s =
      save_for_search (lua_text lua_number (lookup "sub" refresh)) jti wall now (
        set_exat (token_key jti) (cjson_encode (insert "access_jti" (text access_jti) refresh)) exp
          now s)

  unfoldable pub save_script : Text → ℕ → String → ℕ → Store → Store × Result (Unit {0})
  save_script refresh_json wall access_jti now s =
      let refresh = loads refresh_json in
      save_for_validation (lua_text lua_number (lookup "jti" refresh))
        (lua_arithmetic (lookup "exp" refresh)) refresh access_jti wall now s

  -- `_LUA_INVALIDATE_TOKEN_SCRIPT`, from the end: the two deletions.
  abbrev pub delete_for_search : Result String → String → ℕ → Store → Store × Result Bool
  delete_for_search (err e) jti now s = (s, err e)
  delete_for_search (ok sub) jti now s = (zrem (sub_key sub) jti now s, ok true)

  abbrev pub delete_both : Result String → Result String → ℕ → Store → Store × Result Bool
  delete_both (err e) sub now s = (s, err e)
  delete_both (ok jti) sub now s = delete_for_search sub jti now (del (token_key jti) now s)

  -- With a JTI to invalidate: the data of the other token are looked for under the key of the token
  -- itself, and when they are missing, the JTI is removed from the set at the key `refresh_sub`.
  abbrev pub found_data : Option Text → String → String → ℕ → Store → Store × Result Bool
  found_data none sub other now s = (zrem sub other now s, ok false)
  found_data (some data') sub other now s = delete_both (ok other) (ok sub) now s

  abbrev pub found_score :
      Option ℕ → Result String → String → String → ℕ → Store → Store × Result Bool
  found_score none jti sub other now s = (s, ok false)
  found_score (some score) (err e) sub other now s = (s, err e)
  found_score (some score) (ok jti) sub other now s =
      found_data (stored s now (token_key jti)) sub other now s

  abbrev pub invalidate_other :
      Result String → Result String → String → ℕ → Store → Store × Result Bool
  invalidate_other (err e) jti other now s = (s, err e)
  invalidate_other (ok sub) jti other now s =
      found_score (lookup other (scores s now (sub_key sub))) jti sub other now s

  abbrev pub invalidate_own :
      Result ℕ → Result String → Result String → ℕ → Store → Store × Result Bool
  invalidate_own (err e) jti sub now s = (s, err e)
  invalidate_own (ok exp) jti sub now s = delete_both jti sub now s

  unfoldable pub invalidate_script : Text → String → ℕ → Store → Store × Result Bool
  invalidate_script refresh_json other now s =
      let refresh = loads refresh_json in
      let jti = lua_text lua_number (lookup "jti" refresh) in
      let sub = lua_text lua_number (lookup "sub" refresh) in
      if str_eq other ""
      then invalidate_own (lua_arithmetic (lookup "exp" refresh)) jti sub now s
      else invalidate_other sub jti other now s

  -- `_LUA_SEARCH_TOKEN_SCRIPT`
  abbrev pub search_sub : Result String → ℕ → ℕ → Store → Store × Result (List String)
  search_sub (err e) wall now s = (s, err e)
  search_sub (ok sub) wall now s =
      let s' = zremrangebyscore (sub_key sub) 0 (sub_ℕ wall refresh_expire) now s in
      (s', ok (zrange (sub_key sub) now s'))

  unfoldable pub search_script : Text → ℕ → ℕ → Store → Store × Result (List String)
  search_script refresh_json wall now s =
      search_sub (lua_text lua_number (lookup "sub" (loads refresh_json))) wall now s

  -- `_save_refresh_data`: the lock is released also when the script raises.
  abbrev pub left_lock : Result (Unit {0}) → Store × Result (Unit {0}) → Store × Result (Unit {0})
  left_lock r (s, err e) = (s, err e)
  left_lock r (s, ok u) = (s, r)

  abbrev pub under_lock :
      String → (Store → Store × Result (Unit {0})) → ℕ → Store × Bool → Store × Result (Unit {0})
  under_lock key script now (s, got) =
      if got then left_lock (script s).1 (release key now (script s).0) else (s, err timeout_error)

  abbrev pub sent : Result String → Result String → Text → ℕ → ℕ → Store → Store × Result (Unit {0})
  sent (err e) access_jti refresh_json wall now s = (s, err e)
  sent (ok key) (err e) refresh_json wall now s =
      under_lock key (λ s'. (s', err e)) now (acquire key now s)
  sent (ok key) (ok access_jti) refresh_json wall now s =
      under_lock key (λ s'. save_script refresh_json wall access_jti now s') now (acquire key now s)

  unfoldable pub save_refresh_data : Payload → Payload → ℕ → ℕ → Store → Store × Result (Unit {0})
  save_refresh_data access_data refresh_data wall now s =
      sent (lock_key (get_jti refresh_data)) (argument format (get_jti access_data))
        (dumps refresh_data) wall now s

  -- `_invalidate_token_data`
  unfoldable pub invalidate_token_data : Payload → Option String → ℕ → Store → Store × Result Bool
  invalidate_token_data validated_refresh_data other now s =
      invalidate_script (dumps validated_refresh_data) (jti_or_empty other) now s

  abbrev pub invalidated : Option String → ℕ → Store × Result (Option Payload) → Store × Result Bool
  invalidated other now (s, err e) = (s, err e)
  invalidated other now (s, ok none) = (s, ok false)
  invalidated other now (s, ok (some [])) = (s, ok false)
  invalidated other now (s, ok (some (e ∷ es))) = invalidate_token_data (e ∷ es) other now s

  -- `invalidate_token`
  unfoldable pub redis_invalidate_token :
      ℕ → ℕ → String → Option String → Store → Store × Result Bool
  redis_invalidate_token wall now refresh_token other s =
      invalidated other now
        (validate_refresh_token cache tokens access_expire refresh_expire wall now refresh_token s)

  -- `search_token`: for a token that is not accepted, "null" is sent to the script, which fails.
  abbrev pub searched : Result (Option Payload) → ℕ → ℕ → Store → Store × Result (List String)
  searched (err e) wall now s = (s, err e)
  searched (ok none) wall now s = (s, err response_error)
  searched (ok (some p)) wall now s = search_script (dumps p) wall now s

  unfoldable pub search_token : ℕ → ℕ → String → Store → Store × Result (List String)
  search_token wall now refresh_token s =
      searched (decode_token cache tokens access_expire refresh_expire wall refresh_token) wall now
        s
