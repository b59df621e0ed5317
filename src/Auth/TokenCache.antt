-- ===== src/Auth/TokenCache.antt =====
-- What the token service of webtool/auth/service.py uses: a cache with locks, and the token library
-- with JSON texts.
pub mod InMemory
use Prim.Native.String
use webtool.Prelude.{
  ℕ, ◌+◌, ◌*◌, ◌≤◌, ◌<◌, String, ◌≡◌, ◌≢◌, Bool, false, Option, none, some, str_eq, if◌then◌else◌,
}
use webtool.Result.{Result}
use webtool.Auth.Models.{Value, text, Payload}

-- The key under which a token is kept.
abbrev pub IsTokenKey : String → Type 0
IsTokenKey j = (x : String) × (j ≡ String.◌++◌ "jwt_" x)

-- A cache as the service uses it. `stored` is what a client sees of a key at a time. Entering and
-- leaving a lock does not change what is seen of the keys of tokens, which are never the hashed
-- keys of locks. `per_second` is the unit of the cache's clock.
pub record TokenCache (Text : Type 0) : Type 1 where
  pub Store : Type 0
  pub stored : Store → ℕ → String → Option Text
  pub acquire : String → ℕ → Store → Store × Bool
  pub release : String → ℕ → Store → Store × Result (Unit {0})
  pub set : String → Text → ℕ → ℕ → Store → Store
  pub get : String → ℕ → Store → Store × Option Text
  pub delete : String → ℕ → Store → Store × Result (Unit {0})
  pub per_second : ℕ
  pub stored-acquire :
      (k j : String) (now t : ℕ) (s : Store)
      → IsTokenKey j
      → now ≤ t
      → stored (acquire k now s).0 t j ≡ stored s t j
  pub stored-release :
      (k j : String) (now t : ℕ) (s : Store)
      → IsTokenKey j
      → now ≤ t
      → stored (release k now s).0 t j ≡ stored s t j
  -- A value can be seen until it expires, and no longer.
  pub stored-set :
      (k : String) (v : Text) (ex now t : ℕ) (s : Store)
      → now ≤ t
      → t < now + per_second * ex
      → stored (set k v ex now s) t k ≡ some v
  pub stored-set_expired :
      (k : String) (v : Text) (ex now t : ℕ) (s : Store)
      → 0 < ex
      → now + per_second * ex ≤ t
      → stored (set k v ex now s) t k ≡ none
  pub stored-set_other :
      (k j : String) (v : Text) (ex now t : ℕ) (s : Store)
      → k ≢ j
      → now ≤ t
      → stored (set k v ex now s) t j ≡ stored s t j
  pub stored-get :
      (k j : String) (now t : ℕ) (s : Store) → now ≤ t → stored (get k now s).0 t j ≡ stored s t j
  pub get_lem : (k : String) (now : ℕ) (s : Store) → (get k now s).1 ≡ stored s now k
  pub stored-delete :
      (k j : String) (now t : ℕ) (s : Store)
      → now ≤ t
      → stored (delete k now s).0 t j ≡ (if str_eq k j then none else stored s t j)

-- PyJWT with a key and an algorithm, JSON texts, and Python's text of a claim in an f-string.
pub record TokenText (Text : Type 0) : Type 0 where
  pub encode : Payload → Result String
  pub decode : ℕ → String → Result Payload
  pub dumps : Payload → Text
  pub loads : Text → Payload
  pub is_empty : Text → Bool
  pub format : Option Value → String
  pub format_text : (s : String) → format (some (text s)) ≡ s
  pub loads-dumps : (p : Payload) → loads (dumps p) ≡ p
  pub dumps_full : (p : Payload) → is_empty (dumps p) ≡ false
