-- ===== src/Auth/TokenServer.antt =====
-- The commands of Redis that the scripts of `RedisJWTService` (webtool/auth/service.py) call beside
-- those of the cache, with their documented effect. A key holds the kind of data that is asked of
-- it, or nothing. Scores are seconds of the wall clock.
pub mod Reference
use webtool.Prelude.{
  false, [], ◌∷◌, ltb, length, All, ℕ, ◌+◌, ◌*◌, ◌≤◌, ◌<◌, String, ◌≡◌, ◌≢◌, ◌↔◌, Bool, not, Option,
  none, some, List, str_eq, is_some, In, if◌then◌else◌, true,
}
use webtool.Prelude.Int.{ℤ}
use webtool.Auth.Models.{Value, null, text, number, texts, Payload}
use webtool.Prelude.Dict.{HasDistinctKeys, Dict, lookup, insert, remove, select}
use webtool.Result.{Result}
use webtool.Redis.SortedSets.{in_range}
use webtool.Auth.TokenCache.{TokenCache, TokenText}

-- The members of one `dict` in some order of another.
pub record IsReordered (a p : Payload) : Type 0 where
  pub distinct : HasDistinctKeys a
  pub same_length : length a ≡ length p
  pub found : (k : String) → lookup k a ≡ lookup k p

-- A value that Lua's `cjson` decodes and encodes again as it was: an empty array becomes an empty
-- object, and numbers are written with 14 digits.
abbrev pub survives : Value → Bool
survives (texts []) = false
survives (number n) = ltb n 100000000000000
survives _ = true

-- Lua's text of a number, and `cjson.encode` of the table that `cjson.decode` made of the text of a
-- payload, in which the members come in any order.
pub record LuaJson {Text : Type 0} (tokens : TokenText Text) : Type 0 where
  pub lua_number : ℕ → String
  pub cjson_encode : Payload → Text
  pub cjson_full : (p : Payload) → tokens.is_empty (cjson_encode p) ≡ false
  pub loads-cjson_encode :
      (p : Payload)
      → HasDistinctKeys p
      → All (λ e. survives e.1 ≡ true) p
      → IsReordered (tokens.loads (cjson_encode p)) p

module _ {Text : Type 0} (cache : TokenCache Text) where
  open cache use {Store, stored, acquire, release, set, get, delete, per_second}

  -- `scores` is what a client sees of a sorted set at a time.
  pub record TokenServer : Type 0 where
    pub scores : Store → ℕ → String → Dict ℕ
    pub set_exat : String → Text → ℕ → ℕ → Store → Store
    pub del : String → ℕ → Store → Store
    pub zadd : String → ℕ → String → ℕ → Store → Store
    pub zrem : String → String → ℕ → Store → Store
    pub expire : String → ℕ → ℕ → Store → Store
    pub zremrangebyscore : String → ℕ → ℤ → ℕ → Store → Store
    pub zrange : String → ℕ → Store → List String
    pub stored-set_exat :
        (k : String) (v : Text) (exat now t : ℕ) (s : Store)
        → now ≤ t
        → t < per_second * exat
        → stored (set_exat k v exat now s) t k ≡ some v
    pub stored-del :
        (k j : String) (now t : ℕ) (s : Store)
        → now ≤ t
        → stored (del k now s) t j ≡ (if str_eq k j then none else stored s t j)
    pub stored-zadd :
        (k j m : String) (x now t : ℕ) (s : Store)
        → now ≤ t
        → stored (zadd k x m now s) t j ≡ stored s t j
    pub stored-zrem :
        (k j m : String) (now t : ℕ) (s : Store)
        → now ≤ t
        → stored (zrem k m now s) t j ≡ stored s t j
    pub stored-expire :
        (k j : String) (n now t : ℕ) (s : Store)
        → k ≢ j
        → now ≤ t
        → stored (expire k n now s) t j ≡ stored s t j
    pub scores-acquire :
        (k j : String) (now t : ℕ) (s : Store)
        → now ≤ t
        → scores (acquire k now s).0 t j ≡ scores s t j
    pub scores-release :
        (k j : String) (now t : ℕ) (s : Store)
        → now ≤ t
        → scores (release k now s).0 t j ≡ scores s t j
    pub scores-get :
        (k j : String) (now t : ℕ) (s : Store) → now ≤ t → scores (get k now s).0 t j ≡ scores s t j
    pub scores-set :
        (k j : String) (v : Text) (ex now t : ℕ) (s : Store)
        → k ≢ j
        → now ≤ t
        → scores (set k v ex now s) t j ≡ scores s t j
    pub scores-set_exat :
        (k j : String) (v : Text) (exat now t : ℕ) (s : Store)
        → k ≢ j
        → now ≤ t
        → scores (set_exat k v exat now s) t j ≡ scores s t j
    pub scores-del :
        (k j : String) (now t : ℕ) (s : Store)
        → k ≢ j
        → now ≤ t
        → scores (del k now s) t j ≡ scores s t j
    pub scores-zadd :
        (k m : String) (x now t : ℕ) (s : Store)
        → now ≤ t
        → lookup m (scores (zadd k x m now s) t k) ≡ some x
    pub scores-zrem :
        (k m : String) (now t : ℕ) (s : Store)
        → now ≤ t
        → lookup m (scores (zrem k m now s) t k) ≡ none
    -- A set stays for the time that it is given.
    pub scores-expire :
        (k : String) (n now t : ℕ) (s : Store)
        → now ≤ t
        → t < now + per_second * n
        → scores (expire k n now s) t k ≡ scores s t k
    pub scores-zremrangebyscore :
        (k : String) (lo : ℕ) (hi : ℤ) (now t : ℕ) (s : Store)
        → now ≤ t
        → (m : String)
        → lookup m (scores (zremrangebyscore k lo hi now s) t k)
          ≡ lookup m (select (λ x. not (in_range lo hi x)) (scores s t k))
    -- All members, in some order of their scores.
    pub zrange_iff :
        (k m : String) (now : ℕ) (s : Store)
        → In m (zrange k now s) ↔ (is_some (lookup m (scores s now k)) ≡ true)
