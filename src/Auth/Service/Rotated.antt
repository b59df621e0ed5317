-- ===== src/Auth/Service/Rotated.antt =====
-- `update_token`: the old refresh token is revoked, and the new one is another.
use webtool.Prelude.{ℕ, ◌≤◌, String, ◌≡◌, ◌≢◌, refl, ap, ◌∙◌, Bool, true, false, some, arith}
use webtool.Result.{Result, ok, err, bind_inv}
use webtool.Auth.Models.{Payload}
use webtool.Auth.TokenCache.{IsTokenKey, TokenCache, TokenText}
use webtool.Auth.Service.{
  Issue, encoded, save_refresh_token, create_token, invalidate_token, reissue, update_token,
  validate_refresh_token,
}
use webtool.Auth.Service.Tokens.{key_of, key_of-IsTokenKey, saving_stored}
use webtool.Auth.Service.Life.{issued, issue_inv, cached_as}
use webtool.Auth.Service.Revoked.{invalidate_token-stored, not_validated}

module _ {Text : Type 0} (cache : TokenCache Text) (tokens : TokenText Text)
    (access_expire refresh_expire : ℕ) where
  open cache use {Store, stored, acquire}
  open tokens use {decode, dumps}

  -- `create_token` changes what the cache holds at the key of its refresh token only.
  create_token-stored_other :
      (data' : Payload) (i : Issue cache tokens access_expire refresh_expire) (s : Store)
      (pair : String × String) (j : String) (t : ℕ)
      → (create_token cache tokens access_expire refresh_expire data' i s).1 ≡ ok pair
      → i.now ≤ t
      → IsTokenKey j
      → key_of cache tokens access_expire refresh_expire
          (issued cache tokens access_expire refresh_expire data' i)
        ≢ j
      → stored (create_token cache tokens access_expire refresh_expire data' i s).0 t j
        ≡ stored s t j
  unfolding create_token save_refresh_token
  create_token-stored_other data' i s pair j t h le token other =
      let key =
        key_of cache tokens access_expire refresh_expire
          (issued cache tokens access_expire refresh_expire data' i) in
      let (saved, same) =
        issue_inv cache tokens access_expire refresh_expire data' i
          (encoded cache tokens access_expire refresh_expire data' i) s pair h in
      ap (λ s'. stored s' t j) same
      ∙ (saving_stored cache tokens access_expire refresh_expire key
            (dumps (cached_as cache tokens access_expire refresh_expire data' i)) i.now t
            (acquire key i.now s).0 (acquire key i.now s).1 saved j token le
          ∙ (cache.stored-set_other key j
                (dumps (cached_as cache tokens access_expire refresh_expire data' i)) refresh_expire
                i.now t (acquire key i.now s).0 other le
              ∙ cache.stored-acquire key j i.now t s token le))

  reissue_inv :
      (data' : Payload) (i : Issue cache tokens access_expire refresh_expire) (s : Store)
      (r : Result Bool) (pair : String × String)
      → (reissue cache tokens access_expire refresh_expire data' i (s, r)).1 ≡ ok (some pair)
      → (r ≡ ok true)
        × (pair' : String × String) × ((create_token cache tokens access_expire refresh_expire data'
              i s).1
            ≡ ok pair')
        × ((reissue cache tokens access_expire refresh_expire data' i (s, r)).0
            ≡ (create_token cache tokens access_expire refresh_expire data' i s).0)
  reissue_inv data' i s (err e) pair h = ground arith
  reissue_inv data' i s (ok false) pair h = ground arith
  reissue_inv data' i s (ok true) pair h =
      let (pair', e, _) =
        bind_inv (create_token cache tokens access_expire refresh_expire data' i s).1 h in
      (refl, pair', e, refl)

  -- Once `update_token` has given new tokens for an old refresh token, `validate_refresh_token`
  -- never again validates the old one on the cache that it left, whenever PyJWT accepts it, if the
  -- new refresh token has another JTI.
  pub update_token-validate_refresh_token :
      (data' : Payload) (i : Issue cache tokens access_expire refresh_expire) (wall wall' now t : ℕ)
      (token : String) (p d : Payload) (pair : String × String) (s : Store)
      → decode wall token ≡ ok p
      → decode wall' token ≡ ok p
      → key_of cache tokens access_expire refresh_expire
          (issued cache tokens access_expire refresh_expire data' i)
        ≢ key_of cache tokens access_expire refresh_expire p
      → now ≤ t
      → i.now ≤ t
      → (update_token cache tokens access_expire refresh_expire data' i wall now token s).1
        ≡ ok (some pair)
      → (validate_refresh_token cache tokens access_expire refresh_expire wall' t token
          (update_token cache tokens access_expire refresh_expire data' i wall now token s).0).1
        ≢ ok (some d)
  unfolding update_token
  update_token-validate_refresh_token data' i wall wall' now t token p d pair s e e' differ le le'
        h =
      let old = key_of cache tokens access_expire refresh_expire p in
      let new =
        key_of cache tokens access_expire refresh_expire
          (issued cache tokens access_expire refresh_expire data' i) in
      let first = invalidate_token cache tokens access_expire refresh_expire wall now token s in
      let (was, pair', made, left) = reissue_inv data' i first.0 first.1 pair h in
      not_validated cache tokens access_expire refresh_expire wall' t token p d
        (update_token cache tokens access_expire refresh_expire data' i wall now token s).0 e'
        (unfold update_token in
          ap (λ s'. stored s' t old) left
          ∙ (create_token-stored_other data' i first.0 pair' old t made le'
                (key_of-IsTokenKey cache tokens access_expire refresh_expire p) differ
              ∙ invalidate_token-stored cache tokens access_expire refresh_expire wall now t token p
                  s e le was))
