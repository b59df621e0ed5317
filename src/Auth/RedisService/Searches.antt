-- ===== src/Auth/RedisService/Searches.antt =====
-- What `RedisJWTService.search_token` finds.
use mathlib.Core.Bool.{true≢false}
use native.Mathlib.Nat.{le_refl}
use webtool.Prelude.{
  ℕ, ◌≤◌, String, ◌≡◌, ◌≢◌, refl, sym, ap, ◌∙◌, Bool, true, false, inl, some, is_some, List, [],
  ◌∷◌, In, not,
}
use webtool.Prelude.Int.{sub_ℕ}
use webtool.Prelude.Dict.{lookup, select}
use webtool.Result.{Result, ok, err}
use webtool.Redis.SortedSets.{in_range}
use webtool.Auth.Models.{text, Payload}
use webtool.Auth.TokenCache.{TokenCache, TokenText}
use webtool.Auth.TokenServer.{LuaJson, TokenServer}
use webtool.Auth.Service.{Issue, saving, issue, encoded, save_refresh_token, create_token}
use webtool.Auth.Service.Tokens.{key_of}
use webtool.Auth.Service.Life.{decode_ok, issued, cached_as}
use webtool.Auth.RedisService.{sub_key, search_script, search_token}

nothing_in : (xs : List String) → ((m : String) → ¬ In m xs) → xs ≡ []
nothing_in [] h = refl
nothing_in (x ∷ xs) h = absurd (h x (inl refl))

module _ {Text : Type 0} (cache : TokenCache Text) (tokens : TokenText Text)
    (server : TokenServer cache) (lua : LuaJson tokens) (access_expire refresh_expire : ℕ) where
  open cache use {Store, stored, acquire, set, release}
  open tokens use {decode, dumps}
  open server use {scores, zrange, zremrangebyscore}

  saving-scores :
      (key j : String) (val : Text) (now t : ℕ) (s : Store) (got : Bool)
      → key ≢ j
      → now ≤ t
      → scores (saving cache tokens access_expire refresh_expire key val now (s, got)).0 t j
        ≡ scores s t j
  saving-scores key j val now t s true apart le =
      server.scores-release key j now t (set key val refresh_expire now s) le
      ∙ server.scores-set key j val refresh_expire now t s apart le
  saving-scores key j val now t s false apart le = refl

  issue-scores :
      (data' : Payload) (i : Issue cache tokens access_expire refresh_expire)
      (r : Result (String × String)) (j : String) (t : ℕ) (s : Store)
      → key_of cache tokens access_expire refresh_expire
          (issued cache tokens access_expire refresh_expire data' i)
        ≢ j
      → i.now ≤ t
      → scores (issue cache tokens access_expire refresh_expire data' i r s).0 t j ≡ scores s t j
  unfolding save_refresh_token
  issue-scores data' i (err e) j t s apart le = refl
  issue-scores data' i (ok pair) j t s apart le =
      let key =
        key_of cache tokens access_expire refresh_expire
          (issued cache tokens access_expire refresh_expire data' i) in
      saving-scores key j (dumps (cached_as cache tokens access_expire refresh_expire data' i))
        i.now t (acquire key i.now s).0 (acquire key i.now s).1 apart le
      ∙ server.scores-acquire key j i.now t s le

  empty_search :
      (sub : String) (wall now : ℕ) (s : Store)
      → scores s now (sub_key sub) ≡ []
      → zrange
          (sub_key sub)
          now
          (zremrangebyscore (sub_key sub) 0 (sub_ℕ wall refresh_expire) now s)
        ≡ []
  unfolding lookup select
  empty_search sub wall now s empty =
      let k = sub_key sub in
      let hi = sub_ℕ wall refresh_expire in
      let s' = zremrangebyscore k 0 hi now s in
      nothing_in (zrange k now s') (λ m i.
        let here = (server.zrange_iff k m now s').0 i in
        let same = server.scores-zremrangebyscore k 0 hi now now s (le_refl now) m in
        true≢false (
          sym here
          ∙ ap is_some (same ∙ ap (λ z. lookup m (select (λ x. not (in_range 0 hi x)) z)) empty)))

  -- `create_token` does not fill the set that `search_token` reads: where the server has no set for
  -- a "sub", `search_token` still returns an empty list after `create_token`, for every accepted
  -- token of that "sub". The key of the new token is not the key of the set.
  pub create_token-search_token :
      (data' : Payload) (i : Issue cache tokens access_expire refresh_expire) (s : Store)
      (wall t : ℕ) (token sub : String) (p : Payload)
      → key_of cache tokens access_expire refresh_expire
          (issued cache tokens access_expire refresh_expire data' i)
        ≢ sub_key sub
      → scores s t (sub_key sub) ≡ []
      → i.now ≤ t
      → decode wall token ≡ ok p
      → lookup "sub" p ≡ some (text sub)
      → (search_token cache tokens server lua access_expire refresh_expire wall t token
          (create_token cache tokens access_expire refresh_expire data' i s).0).1
        ≡ ok []
  unfolding search_token search_script create_token
  create_token-search_token data' i s wall t token sub p apart empty le e e' =
      let r = encoded cache tokens access_expire refresh_expire data' i in
      let s' = (issue cache tokens access_expire refresh_expire data' i r s).0 in
      let still = issue-scores data' i r (sub_key sub) t s apart le ∙ empty in
      rw
        (
          decode_ok cache tokens access_expire refresh_expire wall token p e,
          tokens.loads-dumps p,
          e',
        )
        (ap ok (empty_search sub wall t s' still))
