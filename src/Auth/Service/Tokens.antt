-- ===== src/Auth/Service/Tokens.antt =====
-- What the cache holds of a refresh token, and how it compares with the token.
use webtool.Prelude.{
  ℕ, ◌≤◌, String, ◌≡◌, ◌≢◌, refl, sym, ap, ◌∙◌, Bool, true, false, Option, some, List, [], ◌∷◌, all,
  str_eq, eq_iff, eq_refl, arith,
}
use webtool.Prelude.Dict.{
  lookup, insert, remove, IsFresh, HasDistinctKeys, lookup-insert, insert-ne-nil,
}
use webtool.Result.{Result, ok, err, ok-injective}
use webtool.Auth.Models.{Value, null, text, number, texts, Payload}
use webtool.Auth.TokenCache.{IsTokenKey, TokenCache, TokenText}
use webtool.Auth.Manager.{same_texts, same_value, has_value, same_payload}
use webtool.Auth.Service.{full, compare_cached, get_key, saving, load, left, reading}

remove-insert : (k : String) (v : Value) (m : Payload) → IsFresh k m → remove k (insert k v m) ≡ m
unfolding remove insert
remove-insert k v [] h = rw (eq_refl k) refl
remove-insert k v ((j, w) ∷ m) (ne, h) = rw (ne, remove-insert k v m h, ne) refl

pub IsFresh-insert :
    (k j : String) (v : Value) (m : Payload)
    → str_eq j k ≡ false
    → IsFresh k m
    → IsFresh k (insert j v m)
unfolding insert
IsFresh-insert k j v [] ne h = (ne, tt)
IsFresh-insert k j v ((i, w) ∷ m) ne (ne', h) = ground (arith, IsFresh-insert k j v m ne h)

same_texts_refl : (l : List String) → same_texts l l ≡ true
same_texts_refl [] = refl
same_texts_refl (s ∷ l) = rw (eq_refl s, same_texts_refl l) refl

pub same_value_refl : (v : Value) → same_value v v ≡ true
same_value_refl null = refl
same_value_refl (text s) = eq_refl s
same_value_refl (number n) = ground arith
same_value_refl (texts l) = same_texts_refl l

abbrev pub found_in : Payload → String × Value → Bool
found_in b e = has_value e.1 (lookup e.0 b)

all_fresh :
    (k : String) (v : Value) (a b : Payload)
    → IsFresh k a
    → all (found_in ((k, v) ∷ b)) a ≡ all (found_in b) a
unfolding lookup
all_fresh k v [] b h = refl
all_fresh k v ((j, w) ∷ a) b (ne, h) =
    let ne' : str_eq k j ≡ false = ground (arith, eq_iff k j, eq_iff j k) in
    rw (ne', all_fresh k v a b h) refl

all_found : (a : Payload) → HasDistinctKeys a → all (found_in a) a ≡ true
unfolding lookup
all_found [] h = refl
all_found ((k, v) ∷ a) (fresh, h) =
    rw (eq_refl k, same_value_refl v, all_fresh k v a a fresh, all_found a h) refl

same_payload_refl : (a : Payload) → HasDistinctKeys a → same_payload a a ≡ true
unfolding same_payload
same_payload_refl a h = rw (all_found a h) (ground arith)

pub full_of : (p : Payload) → p ≢ [] → full (some p) ≡ some p
full_of [] ne = absurd (ne refl)
full_of (e ∷ es) ne = refl

-- What was cached for a refresh token is what is compared with it.
pub compare_saved :
    (v : Value) (p : Payload)
    → IsFresh "access_jti" p
    → HasDistinctKeys p
    → compare_cached (full (some (insert "access_jti" v p))) p ≡ ok (some p)
compare_saved v p fresh distinct =
    rw
      (
        full_of (insert "access_jti" v p) (insert-ne-nil "access_jti" v p),
        lookup-insert "access_jti" "access_jti" v p,
        remove-insert "access_jti" v p fresh,
        same_payload_refl p distinct,
      )
      refl

module _ {Text : Type 0} (cache : TokenCache Text) (tokens : TokenText Text)
    (access_expire refresh_expire : ℕ) where
  open cache use {Store, stored, acquire, release, set, get, delete}
  open tokens use {decode, dumps, loads}

  abbrev pub key_of : Payload → String
  key_of p = get_key cache tokens access_expire refresh_expire p

  abbrev pub key_of-IsTokenKey : (p : Payload) → IsTokenKey (key_of p)
  key_of-IsTokenKey p = (tokens.format (lookup "jti" p), refl)

  -- What is seen of the keys of tokens after a write under a lock.
  pub saving_stored :
      (key : String) (val : Text) (now t : ℕ) (s : Store) (got : Bool)
      → (saving cache tokens access_expire refresh_expire key val now (s, got)).1 ≡ ok tt
      → (j : String) → IsTokenKey j
      → now ≤ t
      → stored (saving cache tokens access_expire refresh_expire key val now (s, got)).0 t j
        ≡ stored (set key val refresh_expire now s) t j
  saving_stored key val now t s true h j token le =
      cache.stored-release key j now t (set key val refresh_expire now s) token le
  saving_stored key val now t s false h j token le = ground arith

  left_inv :
      (val : Option Text) (s : Store) (r : Result (Unit {0})) (cached : Option Payload)
      → (left cache tokens access_expire refresh_expire val (s, r)).1 ≡ ok cached
      → cached ≡ load cache tokens access_expire refresh_expire val
  left_inv val s (ok u) cached h = sym (ok-injective h)
  left_inv val s (err e) cached h = ground arith

  pub reading_inv :
      (key : String) (now : ℕ) (s : Store) (got : Bool) (cached : Option Payload)
      → (reading cache tokens access_expire refresh_expire key now (s, got)).1 ≡ ok cached
      → cached ≡ load cache tokens access_expire refresh_expire (stored s now key)
  reading_inv key now s true cached h =
      left_inv (get key now s).1 (release key now (get key now s).0).0
        (release key now (get key now s).0).1 cached h
      ∙ ap (load cache tokens access_expire refresh_expire) (cache.get_lem key now s)
  reading_inv key now s false cached h = ground arith
