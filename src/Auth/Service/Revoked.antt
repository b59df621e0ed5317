-- ===== src/Auth/Service/Revoked.antt =====
-- A refresh token that was invalidated is never valid again.
use native.Mathlib.Nat.{le_refl}
use webtool.Prelude.{
  ℕ, ◌≤◌, String, ◌≡◌, ◌≢◌, refl, sym, ap, ◌∙◌, Bool, true, false, Option, none, some, [], ◌∷◌,
  eq_refl, arith, some-injective, if◌then◌else◌,
}
use webtool.Prelude.Dict.{lookup, remove}
use webtool.Result.{Result, ok, err, ok-injective, bind_inv}
use webtool.Auth.Models.{Value, Payload}
use webtool.Auth.TokenCache.{TokenCache, TokenText}
use webtool.Auth.Manager.{same_payload}
use webtool.Auth.Service.{
  full, popped, compare_cached, load, read_refresh_token, validate_data, validate_refresh_token,
  invalidate_data, invalidate_token, invalidate_refresh_token,
}
use webtool.Auth.Service.Tokens.{key_of, key_of-IsTokenKey, reading_inv}
use webtool.Auth.Service.Life.{decode_ok}

same_inv : (b : Bool) (p d : Payload) → (if b then ok (some p) else ok none) ≡ ok (some d) → p ≡ d
same_inv true p d h = some-injective (ok-injective h)
same_inv false p d h = ground arith

popped_inv : (o : Option Value) (cached p d : Payload) → popped o cached p ≡ ok (some d) → p ≡ d
popped_inv none cached p d h = ground arith
popped_inv (some v) cached p d h = same_inv (same_payload (remove "access_jti" cached) p) p d h

compare_inv : (o : Option Payload) (p d : Payload) → compare_cached o p ≡ ok (some d) → p ≡ d
compare_inv none p d h = ground arith
compare_inv (some cached) p d h = popped_inv (lookup "access_jti" cached) cached p d h

module _ {Text : Type 0} (cache : TokenCache Text) (tokens : TokenText Text)
    (access_expire refresh_expire : ℕ) where
  open cache use {Store, stored, acquire, delete}
  open tokens use {decode}

  -- A token that validates gives its own claims.
  pub validate_inv :
      (p d : Payload) (t : ℕ) (s : Store)
      → (validate_data cache tokens access_expire refresh_expire (ok (some p)) t s).1 ≡ ok (some d)
      → p ≡ d
  validate_inv [] d t s h = ground arith
  validate_inv (e ∷ es) d t s h =
      let (cached, _, h') =
        bind_inv (read_refresh_token cache tokens access_expire refresh_expire (e ∷ es) t s).1 h in
      compare_inv (full cached) (e ∷ es) d h'

  -- A token of which the cache holds nothing does not validate.
  not_stored :
      (p d : Payload) (t : ℕ) (s : Store)
      → stored s t (key_of cache tokens access_expire refresh_expire p) ≡ none
      → (validate_data cache tokens access_expire refresh_expire (ok (some p)) t s).1 ≢ ok (some d)
  unfolding read_refresh_token
  not_stored [] d t s gone h = ground arith
  not_stored (e ∷ es) d t s gone h =
      let key = key_of cache tokens access_expire refresh_expire (e ∷ es) in
      let (cached, read, h') =
        bind_inv (read_refresh_token cache tokens access_expire refresh_expire (e ∷ es) t s).1 h in
      let nothing : cached ≡ none =
        reading_inv cache tokens access_expire refresh_expire key t (acquire key t s).0
          (acquire key t s).1 cached read
        ∙ ap (load cache tokens access_expire refresh_expire) (
            cache.stored-acquire key key t t s
              (key_of-IsTokenKey cache tokens access_expire refresh_expire (e ∷ es)) (le_refl t)
            ∙ gone) in
      let no : compare_cached (full none) (e ∷ es) ≡ ok (some d) =
        ap (λ c. compare_cached (full c) (e ∷ es)) (sym nothing) ∙ h' in
      ground arith

  invalidate_inv :
      (now : ℕ) (s : Store) (r : Result (Option Payload))
      → (invalidate_data cache tokens access_expire refresh_expire now (s, r)).1 ≡ ok true
      → (d : Payload) × (r ≡ ok (some d))
        × ((invalidate_data cache tokens access_expire refresh_expire now (s, r)).0
            ≡ (invalidate_refresh_token cache tokens access_expire refresh_expire d now s).0)
  invalidate_inv now s (err e) h = ground arith
  invalidate_inv now s (ok none) h = ground arith
  invalidate_inv now s (ok (some d)) h = (d, refl, refl)

  -- After `invalidate_token` has returned true, the cache holds nothing of the token.
  pub invalidate_token-stored :
      (wall now t : ℕ) (token : String) (p : Payload) (s : Store)
      → decode wall token ≡ ok p
      → now ≤ t
      → (invalidate_token cache tokens access_expire refresh_expire wall now token s).1 ≡ ok true
      → stored
          (invalidate_token cache tokens access_expire refresh_expire wall now token s).0
          t
          (key_of cache tokens access_expire refresh_expire p)
        ≡ none
  unfolding invalidate_token validate_refresh_token invalidate_refresh_token
  invalidate_token-stored wall now t token p s e le h =
      let key = key_of cache tokens access_expire refresh_expire in
      let first =
        validate_refresh_token cache tokens access_expire refresh_expire wall now token s in
      let (d₀, was, left) = invalidate_inv now first.0 first.1 h in
      let was_p : p ≡ d₀ = validate_inv p d₀ now s (
        ap (λ r. (validate_data cache tokens access_expire refresh_expire r now s).1)
          (sym (decode_ok cache tokens access_expire refresh_expire wall token p e))
        ∙ was) in
      ap (λ s''. stored s'' t (key p)) left
      ∙ (cache.stored-delete (key d₀) (key p) now t first.0 le ∙ rw (← was_p, eq_refl (key p)) refl)

  -- Where the cache holds nothing of a token that PyJWT accepts, it does not validate.
  pub not_validated :
      (wall t : ℕ) (token : String) (p d : Payload) (s : Store)
      → decode wall token ≡ ok p
      → stored s t (key_of cache tokens access_expire refresh_expire p) ≡ none
      → (validate_refresh_token cache tokens access_expire refresh_expire wall t token s).1
        ≢ ok (some d)
  unfolding validate_refresh_token
  not_validated wall t token p d s e gone valid = not_stored p d t s gone (
      ap (λ r. (validate_data cache tokens access_expire refresh_expire r t s).1)
        (sym (decode_ok cache tokens access_expire refresh_expire wall token p e))
      ∙ valid)

  -- Once `invalidate_token` has returned true for a token, no token with the same JTI that PyJWT
  -- accepts, at whatever time, is validated by `validate_refresh_token` on the cache that it left.
  pub invalidate_token-validate_refresh_token :
      (wall wall' now t : ℕ) (token token' : String) (p p' d : Payload) (s : Store)
      → decode wall token ≡ ok p
      → decode wall' token' ≡ ok p'
      → key_of cache tokens access_expire refresh_expire p
        ≡ key_of cache tokens access_expire refresh_expire p'
      → now ≤ t
      → (invalidate_token cache tokens access_expire refresh_expire wall now token s).1 ≡ ok true
      → (validate_refresh_token cache tokens access_expire refresh_expire wall' t token'
          (invalidate_token cache tokens access_expire refresh_expire wall now token s).0).1
        ≢ ok (some d)
  invalidate_token-validate_refresh_token wall wall' now t token token' p p' d s e e' same le h =
      let s' = (invalidate_token cache tokens access_expire refresh_expire wall now token s).0 in
      not_validated wall' t token' p' d s' e'
        (rw (← same) (invalidate_token-stored wall now t token p s e le h))
