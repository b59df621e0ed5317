-- ===== src/Auth/RedisService/Saves.antt =====
-- What `RedisJWTService._save_refresh_data` keeps on the server.
use Prim.Native.String
use webtool.Prelude.{
  All, Bool-cases, inl, inr, str_eq, [], ◌∷◌, ℕ, ◌+◌, ◌*◌, ◌≤◌, ◌<◌, String, ◌≡◌, ◌≢◌, refl, ap,
  ◌∙◌, Bool, true, false, some, arith,
}
use webtool.Prelude.Dict.{lookup, insert, IsFresh, HasDistinctKeys, HasDistinctKeys-insert}
use webtool.Result.{Result, ok, err}
use webtool.Auth.Models.{Value, text, number, Payload, get_jti}
use webtool.Auth.TokenCache.{TokenCache, TokenText}
use webtool.Auth.TokenServer.{survives, LuaJson, TokenServer}
use webtool.Auth.Service.{validate_refresh_token}
use webtool.Auth.Service.Tokens.{key_of}
use webtool.Auth.Service.Life.{IsQuiet, text-validate_refresh_token}
use webtool.Auth.Service.Reordered.{compare_reordered}
use webtool.Auth.RedisService.{
  token_key, sub_key, save_script, left_lock, under_lock, save_refresh_data,
}

module _ {Text : Type 0} (cache : TokenCache Text) (tokens : TokenText Text)
    (server : TokenServer cache) (lua : LuaJson tokens) (access_expire refresh_expire : ℕ) where
  open cache use {Store, stored, acquire, set, release}
  open tokens use {decode, dumps, format}
  open server use {scores, set_exat, zadd, expire}

  -- The script, on data with texts for "jti" and "sub" and a number for "exp".
  scripted :
      (p : Payload) (j sub access_jti : String) (exp wall now : ℕ) (s : Store)
      → lookup "jti" p ≡ some (text j)
      → lookup "sub" p ≡ some (text sub)
      → lookup "exp" p ≡ some (number exp)
      → save_script cache tokens server lua access_expire refresh_expire
          (dumps p)
          wall
          access_jti
          now
          s
        ≡ (
          expire (sub_key sub) refresh_expire now (
              zadd (sub_key sub) wall j now (
                set_exat
                  (token_key j)
                  (lua.cjson_encode (insert "access_jti" (text access_jti) p))
                  exp
                  now
                  s)),
          ok tt,
        )
  unfolding save_script
  scripted p j sub access_jti exp wall now s jti sub' exp' =
      rw (tokens.loads-dumps p, jti, exp', sub') refl

  -- What is under the two keys afterwards.
  pub record IsSaved (p : Payload) (j sub access_jti : String) (wall t : ℕ) (s : Store)
      : Type 0 where
    pub for_validation :
        stored s t (token_key j) ≡ some (lua.cjson_encode (insert "access_jti" (text access_jti) p))
    pub for_search : lookup j (scores s t (sub_key sub)) ≡ some wall

  scripted-IsSaved :
      (p : Payload) (j sub access_jti : String) (exp wall now t : ℕ) (s : Store)
      → sub_key sub ≢ token_key j
      → now ≤ t
      → t < cache.per_second * exp
      → t < now + cache.per_second * refresh_expire
      → IsSaved p j sub access_jti wall t (
          expire (sub_key sub) refresh_expire now (
            zadd (sub_key sub) wall j now (
              set_exat
                (token_key j)
                (lua.cjson_encode (insert "access_jti" (text access_jti) p))
                exp
                now
                s)))
  scripted-IsSaved p j sub access_jti exp wall now t s apart le lt lt' =
      let v = lua.cjson_encode (insert "access_jti" (text access_jti) p) in
      let s₁ = set_exat (token_key j) v exp now s in
      let s₂ = zadd (sub_key sub) wall j now s₁ in
      record {
        for_validation =
            server.stored-expire (sub_key sub) (token_key j) refresh_expire now t s₂ apart le
            ∙ (server.stored-zadd (sub_key sub) (token_key j) j wall now t s₁ le
                ∙ server.stored-set_exat (token_key j) v exp now t s le lt);
        for_search =
            ap (lookup j) (server.scores-expire (sub_key sub) refresh_expire now t s₂ le lt')
            ∙ server.scores-zadd (sub_key sub) j wall now t s₁ le;
      }

  released-IsSaved :
      (p : Payload) (j sub access_jti key : String) (wall now t : ℕ) (s : Store)
      → now ≤ t
      → IsSaved p j sub access_jti wall t s
      → IsSaved p j sub access_jti wall t (release key now s).0
  released-IsSaved p j sub access_jti key wall now t s le h = record {
    for_validation = cache.stored-release key (token_key j) now t s (j, refl) le ∙ h.for_validation;
    for_search = ap (lookup j) (server.scores-release key (sub_key sub) now t s le) ∙ h.for_search;
  }

  left_lock_state :
      (r : Result (Unit {0})) (u : Store × Result (Unit {0}))
      → (left_lock cache tokens server lua access_expire refresh_expire r u).0 ≡ u.0
  left_lock_state r (s, err e) = refl
  left_lock_state r (s, ok u) = refl

  under_lock_inv :
      (key : String) (script : Store → Store × Result (Unit {0})) (now : ℕ) (s : Store) (got : Bool)
      → (under_lock cache tokens server lua access_expire refresh_expire key script now (s, got)).1
        ≡ ok tt
      → (under_lock cache tokens server lua access_expire refresh_expire key script now (s, got)).0
        ≡ (release key now (script s).0).0
  under_lock_inv key script now s true h =
      left_lock_state (script s).1 (release key now (script s).0)
  under_lock_inv key script now s false h = ground arith

  transport-IsSaved :
      (p : Payload) (j sub access_jti : String) (wall t : ℕ) {s u : Store}
      → u ≡ s
      → IsSaved p j sub access_jti wall t s
      → IsSaved p j sub access_jti wall t u
  transport-IsSaved p j sub access_jti wall t e h = rw e h

  survives-insert :
      (k : String) (v : Value) (p : Payload)
      → survives v ≡ true
      → All (λ e. survives e.1 ≡ true) p
      → All (λ e. survives e.1 ≡ true) (insert k v p)
  unfolding insert
  survives-insert k v [] h a = (h, tt)
  survives-insert k v ((j, w) ∷ p) h (here, a) = elim (Bool-cases (str_eq j k)) [
    | inl same ↦ rw same (h, a)
    | inr other ↦ rw other (here, survives-insert k v p h a)
  ]

  not_nil : (p : Payload) {v : Value} → lookup "jti" p ≡ some v → p ≢ []
  unfolding lookup
  not_nil [] h e = ground arith
  not_nil (x ∷ p) h e = ground arith

  save_refresh_data-IsSaved :
      (access p : Payload) (j sub access_jti : String) (exp wall now t : ℕ) (s : Store)
      → lookup "jti" access ≡ some (text access_jti)
      → lookup "jti" p ≡ some (text j)
      → lookup "sub" p ≡ some (text sub)
      → lookup "exp" p ≡ some (number exp)
      → sub_key sub ≢ token_key j
      → now ≤ t
      → t < cache.per_second * exp
      → t < now + cache.per_second * refresh_expire
      → (save_refresh_data cache tokens server lua access_expire refresh_expire access p wall now
          s).1
        ≡ ok tt
      → IsSaved p j sub access_jti wall t
          (save_refresh_data cache tokens server lua access_expire refresh_expire access p wall now
            s).0
  unfolding save_refresh_data get_jti
  save_refresh_data-IsSaved access p j sub access_jti exp wall now t s access_jti' jti sub' exp'
        apart le lt lt' h =
      let first = acquire j now s in
      let run = scripted p j sub access_jti exp wall now first.0 jti sub' exp' in
      let saved = scripted-IsSaved p j sub access_jti exp wall now t first.0 apart le lt lt' in
      rw (jti, access_jti')
        (transport-IsSaved p j sub access_jti wall t
          (under_lock_inv j
              (λ s'.
                save_script cache tokens server lua access_expire refresh_expire (dumps p) wall
                  access_jti now s')
              now first.0 first.1 (rw (jti, access_jti') at h)
            ∙ ap (λ (u : Store × Result (Unit {0})). (release j now u.0).0) run)
          (released-IsSaved p j sub access_jti j wall now t _ le saved))

  -- After `_save_refresh_data` has returned, and until the refresh token expires: its JTI is in the
  -- set of its "sub" with the time of the call, and `validate_refresh_token` returns its claims,
  -- when PyJWT accepts the token and the lock of its key is free. The claims have texts for "jti"
  -- and "sub", a number for "exp", none for "access_jti", distinct keys, and otherwise no empty list
  -- and no number of more than 14 digits, which Lua does not write as they were; the two keys of
  -- the server differ.
  pub save_refresh_data-validate_refresh_token :
      (access p : Payload) (j sub access_jti token : String) (exp wall wall' now t : ℕ) (s : Store)
      → lookup "jti" access ≡ some (text access_jti)
      → lookup "jti" p ≡ some (text j)
      → lookup "sub" p ≡ some (text sub)
      → lookup "exp" p ≡ some (number exp)
      → IsFresh "access_jti" p
      → HasDistinctKeys p
      → All (λ e. survives e.1 ≡ true) p
      → sub_key sub ≢ token_key j
      → now ≤ t
      → t < cache.per_second * exp
      → t < now + cache.per_second * refresh_expire
      → (save_refresh_data cache tokens server lua access_expire refresh_expire access p wall now
          s).1
        ≡ ok tt
      → decode wall' token ≡ ok p
      → IsQuiet cache tokens access_expire refresh_expire
          (token_key j)
          t
          (save_refresh_data cache tokens server lua access_expire refresh_expire access p wall now
            s).0
      → (lookup j (
            scores
              (save_refresh_data cache tokens server lua access_expire refresh_expire access p wall
                now s).0
              t
              (sub_key sub))
          ≡ some wall)
        × ((validate_refresh_token cache tokens access_expire refresh_expire wall' t token
              (save_refresh_data cache tokens server lua access_expire refresh_expire access p wall
                now s).0).1
            ≡ ok (some p))
  save_refresh_data-validate_refresh_token access p j sub access_jti token exp wall wall' now t s
        access_jti' jti sub' exp' fresh distinct kept apart le lt lt' h accepted quiet =
      let s' =
        (save_refresh_data cache tokens server lua access_expire refresh_expire access p wall now
          s).0 in
      let saved =
        save_refresh_data-IsSaved access p j sub access_jti exp wall now t s access_jti' jti sub'
          exp' apart le lt lt' h in
      let cached = insert "access_jti" (text access_jti) p in
      let key : key_of cache tokens access_expire refresh_expire p ≡ token_key j =
        ap (String.◌++◌ "jwt_") (ap format jti ∙ tokens.format_text j) in
      (
        saved.for_search,
        text-validate_refresh_token cache tokens access_expire refresh_expire
            (lua.cjson_encode cached) (tokens.loads (lua.cjson_encode cached)) p wall' t token s'
            (not_nil p jti) accepted (rw key quiet) (rw key saved.for_validation)
            (lua.cjson_full cached) refl
            (compare_reordered (text access_jti) (tokens.loads (lua.cjson_encode cached)) p fresh (
              lua.loads-cjson_encode cached (HasDistinctKeys-insert "access_jti" _ p distinct)
                (survives-insert "access_jti" (text access_jti) p refl kept))),
      )
