-- ===== src/Auth/RedisService/Revokes.antt =====
-- What `RedisJWTService.invalidate_token` deletes when it returns true.
use Prim.Native.String
use webtool.Prelude.{
  ℕ, ◌≤◌, String, ◌≡◌, ◌≢◌, refl, sym, ap, ◌∙◌, true, inl, inr, Bool-cases, Option, none, some, [],
  ◌∷◌, str_eq, eq_refl, arith, if◌then◌else◌,
}
use webtool.Prelude.Dict.{lookup}
use webtool.Result.{Result, ok, err}
use webtool.Auth.Models.{text, Payload}
use webtool.Auth.TokenCache.{TokenCache, TokenText}
use webtool.Auth.TokenServer.{LuaJson, TokenServer}
use webtool.Auth.Service.{validate_data, validate_refresh_token}
use webtool.Auth.Service.Life.{decode_ok}
use webtool.Auth.Service.Revoked.{validate_inv, not_validated}
use webtool.Auth.RedisService.{
  lua_text, lua_arithmetic, jti_or_empty, token_key, sub_key, delete_both, found_data, found_score,
  invalidate_other, invalidate_own, invalidate_script, invalidate_token_data, invalidated,
  redis_invalidate_token,
}

module _ {Text : Type 0} (cache : TokenCache Text) (tokens : TokenText Text)
    (server : TokenServer cache) (lua : LuaJson tokens) (access_expire refresh_expire : ℕ) where
  open cache use {Store, stored}
  open tokens use {decode, dumps, loads, format}

  delete_both-stored :
      (j : String) (sub : Result String) (now t : ℕ) (s : Store)
      → now ≤ t
      → (delete_both cache tokens server lua access_expire refresh_expire (ok j) sub now s).1
        ≡ ok true
      → stored
          (delete_both cache tokens server lua access_expire refresh_expire (ok j) sub now s).0
          t
          (token_key j)
        ≡ none
  delete_both-stored j (err e) now t s le h = ground arith
  delete_both-stored j (ok sub) now t s le h =
      server.stored-zrem (sub_key sub) (token_key j) j now t (server.del (token_key j) now s) le
      ∙ (server.stored-del (token_key j) (token_key j) now t s le ∙ rw (eq_refl (token_key j)) refl)

  invalidate_own-stored :
      (exp : Result ℕ) (j : String) (sub : Result String) (now t : ℕ) (s : Store)
      → now ≤ t
      → (invalidate_own cache tokens server lua access_expire refresh_expire exp (ok j) sub now s).1
        ≡ ok true
      → stored
          (invalidate_own cache tokens server lua access_expire refresh_expire exp
            (ok j)
            sub
            now
            s).0
          t
          (token_key j)
        ≡ none
  invalidate_own-stored (err e) j sub now t s le h = ground arith
  invalidate_own-stored (ok exp) j sub now t s le h = delete_both-stored j sub now t s le h

  found_data-stored :
      (data' : Option Text) (sub other : String) (now t : ℕ) (s : Store)
      → now ≤ t
      → (found_data cache tokens server lua access_expire refresh_expire data' sub other now s).1
        ≡ ok true
      → stored
          (found_data cache tokens server lua access_expire refresh_expire data' sub other now s).0
          t
          (token_key other)
        ≡ none
  found_data-stored none sub other now t s le h = ground arith
  found_data-stored (some d) sub other now t s le h = delete_both-stored other (ok sub) now t s le h

  found_score-stored :
      (score : Option ℕ) (jti : Result String) (sub other : String) (now t : ℕ) (s : Store)
      → now ≤ t
      → (found_score cache tokens server lua access_expire refresh_expire score jti sub other now
          s).1
        ≡ ok true
      → stored
          (found_score cache tokens server lua access_expire refresh_expire score jti sub other now
            s).0
          t
          (token_key other)
        ≡ none
  found_score-stored none jti sub other now t s le h = ground arith
  found_score-stored (some x) (err e) sub other now t s le h = ground arith
  found_score-stored (some x) (ok jti) sub other now t s le h =
      found_data-stored (stored s now (token_key jti)) sub other now t s le h

  invalidate_other-stored :
      (sub jti : Result String) (other : String) (now t : ℕ) (s : Store)
      → now ≤ t
      → (invalidate_other cache tokens server lua access_expire refresh_expire sub jti other now
          s).1
        ≡ ok true
      → stored
          (invalidate_other cache tokens server lua access_expire refresh_expire sub jti other now
            s).0
          t
          (token_key other)
        ≡ none
  invalidate_other-stored (err e) jti other now t s le h = ground arith
  invalidate_other-stored (ok sub) jti other now t s le h =
      found_score-stored (lookup other (server.scores s now (sub_key sub))) jti sub other now t s le
        h

  -- The JTI that is invalidated: the given one, or else that of the token.
  abbrev pub target : String → String → String
  target own other = if str_eq other "" then own else other

  invalidate_script-stored :
      (p : Payload) (own other : String) (now t : ℕ) (s : Store)
      → lookup "jti" p ≡ some (text own)
      → now ≤ t
      → (invalidate_script cache tokens server lua access_expire refresh_expire
          (dumps p)
          other
          now
          s).1
        ≡ ok true
      → stored
          (invalidate_script cache tokens server lua access_expire refresh_expire
            (dumps p)
            other
            now
            s).0
          t
          (token_key (target own other))
        ≡ none
  unfolding invalidate_script
  invalidate_script-stored p own other now t s jti le h = elim (Bool-cases (str_eq other "")) [
    | inl empty ↦
        rw (tokens.loads-dumps p, jti, empty)
          (invalidate_own-stored (lua_arithmetic (lookup "exp" p)) own
            (lua_text lua.lua_number (lookup "sub" p)) now t s le
            (rw (tokens.loads-dumps p, jti, empty) at h))
    | inr given ↦
        rw (tokens.loads-dumps p, jti, given)
          (invalidate_other-stored (lua_text lua.lua_number (lookup "sub" p)) (ok own) other now t s
            le (rw (tokens.loads-dumps p, jti, given) at h))
  ]

  invalidated_inv :
      (other : Option String) (now : ℕ) (s : Store) (r : Result (Option Payload))
      → (invalidated cache tokens server lua access_expire refresh_expire other now (s, r)).1
        ≡ ok true
      → (d : Payload) × (r ≡ ok (some d))
        × (invalidated cache tokens server lua access_expire refresh_expire other now (s, r)
            ≡ invalidate_token_data cache tokens server lua access_expire refresh_expire d other now
                s)
  invalidated_inv other now s (err e) h = ground arith
  invalidated_inv other now s (ok none) h = ground arith
  invalidated_inv other now s (ok (some [])) h = ground arith
  invalidated_inv other now s (ok (some (e ∷ es))) h = (e ∷ es, refl, refl)

  -- When `invalidate_token` returns true for a token that PyJWT accepts, the server has no text any
  -- more at the key of the JTI that was given, or, if none or an empty one was given, of that of the
  -- token; and no token with that JTI that PyJWT accepts is validated on the data that it left.
  pub redis_invalidate_token-validate_refresh_token :
      (wall wall' now t : ℕ) (token token' : String) (other : Option String) (own : String)
      (p p' d : Payload) (s : Store)
      → decode wall token ≡ ok p
      → lookup "jti" p ≡ some (text own)
      → decode wall' token' ≡ ok p'
      → lookup "jti" p' ≡ some (text (target own (jti_or_empty other)))
      → now ≤ t
      → (redis_invalidate_token cache tokens server lua access_expire refresh_expire wall now token
          other s).1
        ≡ ok true
      → (stored
            (redis_invalidate_token cache tokens server lua access_expire refresh_expire wall now
              token other s).0
            t
            (token_key (target own (jti_or_empty other)))
          ≡ none)
        × ((validate_refresh_token cache tokens access_expire refresh_expire wall' t token'
              (redis_invalidate_token cache tokens server lua access_expire refresh_expire wall now
                token other s).0).1
            ≢ ok (some d))
  unfolding redis_invalidate_token validate_refresh_token invalidate_token_data
  redis_invalidate_token-validate_refresh_token wall wall' now t token token' other own p p' d s e
        jti e' jti' le h =
      let first =
        validate_refresh_token cache tokens access_expire refresh_expire wall now token s in
      let (d₀, was, left) = invalidated_inv other now first.0 first.1 h in
      let was_p : p ≡ d₀ = validate_inv cache tokens access_expire refresh_expire p d₀ now s (
        ap (λ r. (validate_data cache tokens access_expire refresh_expire r now s).1)
          (sym (decode_ok cache tokens access_expire refresh_expire wall token p e))
        ∙ was) in
      let same =
        left
        ∙ ap
            (λ q.
              invalidate_token_data cache tokens server lua access_expire refresh_expire q other now
                first.0)
            (sym was_p) in
      let gone =
        invalidate_script-stored p own (jti_or_empty other) now t first.0 jti le
          (sym (ap (λ r. r.1) same) ∙ h) in
      let s' =
        (redis_invalidate_token cache tokens server lua access_expire refresh_expire wall now token
          other s).0 in
      let none_left =
        ap (λ r. stored r.0 t (token_key (target own (jti_or_empty other)))) same ∙ gone in
      (
        none_left,
        not_validated cache tokens access_expire refresh_expire wall' t token' p' d s' e' (
            ap (λ k. stored s' t (String.◌++◌ "jwt_" k))
              (ap format jti' ∙ tokens.format_text (target own (jti_or_empty other)))
            ∙ none_left),
      )
