-- ===== src/Auth/Service/InMemory.antt =====
-- `JWTService` with an `InMemoryCache`: the locks of the cache that the service uses are free again
-- after it.
use native.Mathlib.Nat.{le_refl}
use webtool.Prelude.{
  ℕ, ◌+◌, ◌*◌, ◌≤◌, ◌<◌, String, ◌≡◌, ◌≢◌, refl, ap, ◌∙◌, Bool, true, false, Option, none, some,
  eq_refl, arith,
}
use webtool.Prelude.Dict.{IsFresh, HasDistinctKeys}
use webtool.Result.{ok}
use webtool.Cache.InMemory.{Entry, seconds}
use webtool.Cache.InMemory.Laws.{view, set_lem, get_lem, delete_lem}
use webtool.Cache.Lock.{attempt, release, default_lock}
use webtool.Auth.Models.{Payload}
use webtool.Auth.TokenCache.{IsTokenKey, TokenText}
use webtool.Auth.TokenCache.InMemory.{
  Valid, in_memory, enter, leave, write, read, entry, live-entry,
}
use webtool.Auth.Service.{
  Issue, saving, save_refresh_token, create_token, encoded, validate_refresh_token,
}
use webtool.Auth.Service.Tokens.{key_of}
use webtool.Auth.Service.Life.{
  IsQuiet, issued, cached_as, issue_inv, create_token-validate_refresh_token,
}

-- What is seen of a lock's own key.
module _ {Text : Type 0} (sha256 : String → String) (key : String) where
  enter_free :
      (t : ℕ) (s : Valid Text)
      → view s.0 t (sha256 key) ≡ none
      → ((enter sha256 key t s).1 ≡ true)
        × (view (enter sha256 key t s).0.0 t (sha256 key) ≡ some (entry none 100 t))
  unfolding enter attempt default_lock
  enter_free t s free =
      let taken = set_lem (sha256 key) none (some (seconds 100)) none true t t s.0 s.1 in
      (
        rw (taken.0, free) refl,
        rw
            (
              taken.1 (sha256 key) t (le_refl t),
              free,
              eq_refl (sha256 key),
              live-entry {A = Option Text} none 100 t t (omega arith),
            )
            refl,
      )

  leave_held :
      (t : ℕ) (s : Valid Text) (e : Entry (Option Text))
      → view s.0 t (sha256 key) ≡ some e
      → (leave sha256 key t s).1 ≡ ok tt
  unfolding leave release default_lock
  leave_held t s e held = rw ((delete_lem (sha256 key) t s.0 s.1).0 e held) refl

  leave_free :
      (now t : ℕ) (s : Valid Text)
      → now ≤ t
      → view (leave sha256 key now s).0.0 t (sha256 key) ≡ none
  unfolding leave release default_lock
  leave_free now t s le =
      rw ((delete_lem (sha256 key) now s.0 s.1).2 (sha256 key) t le, eq_refl (sha256 key)) refl

  read_kept :
      (k : String) (t : ℕ) (s : Valid Text)
      → view (read sha256 k t s).0.0 t (sha256 key) ≡ view s.0 t (sha256 key)
  unfolding read
  read_kept k t s = (get_lem k t s.0 s.1).1 (sha256 key) t (le_refl t)

module _ {Text : Type 0} (sha256 : String → String)
    (hash_apart : (k j : String) → IsTokenKey j → sha256 k ≢ j) (tokens : TokenText Text)
    (access_expire refresh_expire : ℕ) where
  -- The lock of a key that is not held can be entered and left again.
  free-IsQuiet :
      (key : String) (t : ℕ) (s : Valid Text)
      → view s.0 t (sha256 key) ≡ none
      → IsQuiet (in_memory sha256 hash_apart) tokens access_expire refresh_expire key t s
  free-IsQuiet key t s free =
      let (enters, held) = enter_free sha256 key t s free in
      record {
        free = enters;
        leaves =
            leave_held sha256 key t (read sha256 key t (enter sha256 key t s).0).0
              (entry none 100 t) (read_kept sha256 key key t (enter sha256 key t s).0 ∙ held);
      }

  saving_free :
      (key : String) (val : Text) (now t : ℕ) (s : Valid Text) (got : Bool)
      → (saving
          (in_memory sha256 hash_apart)
          tokens
          access_expire
          refresh_expire
          key
          val
          now
          (s, got)).1
        ≡ ok tt
      → now ≤ t
      → view
          (saving
            (in_memory sha256 hash_apart)
            tokens
            access_expire
            refresh_expire
            key
            val
            now
            (s, got)).0.0
          t
          (sha256 key)
        ≡ none
  saving_free key val now t s true h le =
      leave_free sha256 key now t (write sha256 key val refresh_expire now s) le
  saving_free key val now t s false h le = ground arith

  create_token_free :
      (data' : Payload)
      (i : Issue (in_memory sha256 hash_apart) tokens access_expire refresh_expire) (s : Valid Text)
      (pair : String × String) (t : ℕ)
      → (create_token (in_memory sha256 hash_apart) tokens access_expire refresh_expire data' i s).1
        ≡ ok pair
      → i.now ≤ t
      → view
          (create_token
            (in_memory sha256 hash_apart)
            tokens
            access_expire
            refresh_expire
            data'
            i
            s).0.0
          t
          (sha256 (
            key_of
              (in_memory sha256 hash_apart)
              tokens
              access_expire
              refresh_expire
              (issued (in_memory sha256 hash_apart) tokens access_expire refresh_expire data' i)))
        ≡ none
  unfolding create_token save_refresh_token
  create_token_free data' i s pair t h le =
      let c = in_memory sha256 hash_apart in
      let key =
        key_of c tokens access_expire refresh_expire
          (issued c tokens access_expire refresh_expire data' i) in
      let (saved, same) =
        issue_inv c tokens access_expire refresh_expire data' i
          (encoded c tokens access_expire refresh_expire data' i) s pair h in
      ap (λ s'. view s'.0 t (sha256 key)) same
      ∙ saving_free key (tokens.dumps (cached_as c tokens access_expire refresh_expire data' i))
          i.now t (enter sha256 key i.now s).0 (enter sha256 key i.now s).1 saved le

  -- With an `InMemoryCache`: after `create_token` has returned, and until the refresh token expires
  -- in the cache, `validate_refresh_token` returns its claims, when PyJWT accepts the token. The
  -- data have no claim "access_jti", as distinct keys as any `dict`, no key of a token is the hash
  -- of a lock's key, and the cache is as `create_token` left it. No lock has to be free.
  pub create_token-validate_in_memory :
      (data' : Payload)
      (i : Issue (in_memory sha256 hash_apart) tokens access_expire refresh_expire) (s : Valid Text)
      (access_token refresh_token : String) (wall t : ℕ)
      → IsFresh "access_jti" data'
      → HasDistinctKeys data'
      → (create_token (in_memory sha256 hash_apart) tokens access_expire refresh_expire data' i s).1
        ≡ ok (access_token, refresh_token)
      → i.now ≤ t
      → t < i.now + 1000 * refresh_expire
      → tokens.decode wall refresh_token
        ≡ ok (issued (in_memory sha256 hash_apart) tokens access_expire refresh_expire data' i)
      → (validate_refresh_token
          (in_memory sha256 hash_apart)
          tokens
          access_expire
          refresh_expire
          wall
          t
          refresh_token
          (create_token
            (in_memory sha256 hash_apart)
            tokens
            access_expire
            refresh_expire
            data'
            i
            s).0).1
        ≡ ok (
            some (issued (in_memory sha256 hash_apart) tokens access_expire refresh_expire data' i))
  create_token-validate_in_memory data' i s access_token refresh_token wall t fresh distinct h le lt
        accepted =
      create_token-validate_refresh_token (in_memory sha256 hash_apart) tokens access_expire
        refresh_expire data' i s access_token refresh_token wall t fresh distinct h le lt accepted
        (free-IsQuiet _ t _ (create_token_free data' i s (access_token, refresh_token) t h le))
