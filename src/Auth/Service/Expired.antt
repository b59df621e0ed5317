-- ===== src/Auth/Service/Expired.antt =====
-- A refresh token after it has expired in the cache.
use Prim.Native.String
use webtool.Prelude.{some, ℕ, ◌+◌, ◌*◌, ◌≤◌, ◌<◌, String, ◌≡◌, ◌≢◌, ap, ◌∙◌, arith}
use webtool.Result.{ok}
use webtool.Auth.Models.{Payload, get_jti}
use webtool.Auth.TokenCache.{TokenCache, TokenText}
use webtool.Auth.Service.{Issue, create_token, encoded, save_refresh_token, validate_refresh_token}
use webtool.Auth.Service.Tokens.{key_of, key_of-IsTokenKey, saving_stored}
use webtool.Auth.Service.Life.{issued, cached_as, issue_inv}
use webtool.Auth.Service.Revoked.{not_validated}

module _ {Text : Type 0} (cache : TokenCache Text) (tokens : TokenText Text)
    (access_expire refresh_expire : ℕ) where
  open cache use {stored, acquire}
  open tokens use {decode, dumps}

  -- When the time for which the cache keeps a new refresh token is over, which is not zero,
  -- `validate_refresh_token` does not accept the token on the cache that `create_token` left, nor
  -- any other token with its JTI, also where PyJWT still accepts it.
  pub create_token-expires :
      (data' : Payload) (i : Issue cache tokens access_expire refresh_expire)
      (s : TokenCache.Store cache) (pair : String × String) (wall t : ℕ) (token : String)
      (p d : Payload)
      → (create_token cache tokens access_expire refresh_expire data' i s).1 ≡ ok pair
      → 0 < refresh_expire
      → i.now + cache.per_second * refresh_expire ≤ t
      → decode wall token ≡ ok p
      → get_jti p ≡ get_jti (issued cache tokens access_expire refresh_expire data' i)
      → (validate_refresh_token cache tokens access_expire refresh_expire wall t token
          (create_token cache tokens access_expire refresh_expire data' i s).0).1
        ≢ ok (some d)
  unfolding create_token save_refresh_token get_jti
  create_token-expires data' i s pair wall t token p d h kept late accepted same_jti =
      let claims = issued cache tokens access_expire refresh_expire data' i in
      let key = key_of cache tokens access_expire refresh_expire claims in
      let val = dumps (cached_as cache tokens access_expire refresh_expire data' i) in
      let (saved, same) =
        issue_inv cache tokens access_expire refresh_expire data' i
          (encoded cache tokens access_expire refresh_expire data' i) s pair h in
      let s' = (create_token cache tokens access_expire refresh_expire data' i s).0 in
      let s₀ = (acquire key i.now s).0 in
      not_validated cache tokens access_expire refresh_expire wall t token p d _ accepted (
        ap (λ o. stored s' t (String.◌++◌ "jwt_" (tokens.format o))) same_jti
        ∙ (ap (λ u. stored u t key) same
            ∙ (saving_stored cache tokens access_expire refresh_expire key val i.now t s₀
                  (acquire key i.now s).1 saved key
                  (key_of-IsTokenKey cache tokens access_expire refresh_expire claims)
                  (omega (arith, late))
                ∙ cache.stored-set_expired key val refresh_expire i.now t s₀ kept late)))
