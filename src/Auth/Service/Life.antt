-- ===== src/Auth/Service/Life.antt =====
-- The life of a refresh token: it is valid from when it is created until it is invalidated.
use native.Mathlib.Nat.{le_refl}
use webtool.Prelude.{
  ℕ, ◌+◌, ◌*◌, ◌≤◌, ◌<◌, String, ◌≡◌, ◌≢◌, refl, ap, ◌∙◌, true, false, Option, some, [], ◌∷◌,
  str_eq, arith,
}
use webtool.Prelude.Dict.{
  lookup, insert, IsFresh, HasDistinctKeys, HasDistinctKeys-insert, insert-ne-nil,
}
use webtool.Result.{Result, ok, err, ok-injective, bind_inv, ◌>>=◌}
use webtool.Auth.Models.{Value, Payload, get_jti, create_metadata, truthy, validate_sub}
use webtool.Auth.TokenCache.{TokenCache, TokenText}
use webtool.Auth.Service.{
  full, compare_cached, value_of, decode_token, save_refresh_token, read_refresh_token, Issue,
  access_of, refresh_of, create_token, issue, encoded, compared, validate_data,
  validate_refresh_token,
}
use webtool.Auth.Service.Tokens.{
  compare_saved, key_of, key_of-IsTokenKey, saving_stored, IsFresh-insert,
}

module _ (data' : Payload) (ttl now : ℕ) (jti : String) where
  metadata-IsFresh :
      (k : String)
      → str_eq "exp" k ≡ false
      → str_eq "iat" k ≡ false
      → str_eq "jti" k ≡ false
      → IsFresh k data'
      → IsFresh k (create_metadata data' ttl now jti)
  unfolding create_metadata
  metadata-IsFresh k e i j h =
      IsFresh-insert k "jti" _ _ j (IsFresh-insert k "iat" _ _ i (IsFresh-insert k "exp" _ _ e h))

  metadata-HasDistinctKeys :
      HasDistinctKeys data' → HasDistinctKeys (create_metadata data' ttl now jti)
  unfolding create_metadata
  metadata-HasDistinctKeys h =
      HasDistinctKeys-insert "jti" _ _
        (HasDistinctKeys-insert "iat" _ _ (HasDistinctKeys-insert "exp" _ _ h))

  pub metadata_ne_nil : create_metadata data' ttl now jti ≢ []
  unfolding create_metadata
  metadata_ne_nil = insert-ne-nil "jti" _ _

module _ {Text : Type 0} (cache : TokenCache Text) (tokens : TokenText Text)
    (access_expire refresh_expire : ℕ) where
  open cache use {Store, stored, acquire, release, set, get, delete}
  open tokens use {decode, dumps, loads}

  -- The lock of a key can be entered and left again, with a read in between.
  pub record IsQuiet (key : String) (t : ℕ) (s : Store) : Type 0 where
    pub free : (acquire key t s).1 ≡ true
    pub leaves : (release key t (get key t (acquire key t s).0).0).1 ≡ ok tt

  read_saved :
      (p cached : Payload) (val : Text) (t : ℕ) (s : Store)
      → IsQuiet (key_of cache tokens access_expire refresh_expire p) t s
      → stored s t (key_of cache tokens access_expire refresh_expire p) ≡ some val
      → tokens.is_empty val ≡ false
      → loads val ≡ cached
      → (read_refresh_token cache tokens access_expire refresh_expire p t s).1 ≡ ok (some cached)
  unfolding read_refresh_token
  read_saved p cached val t s q e full' loaded =
      let key = key_of cache tokens access_expire refresh_expire p in
      rw
        (
          q.free,
          q.leaves,
          cache.get_lem key t (acquire key t s).0,
          cache.stored-acquire key key t t s
              (key_of-IsTokenKey cache tokens access_expire refresh_expire p) (le_refl t),
          e,
          full',
          loaded,
        )
        refl

  validate_full :
      (p : Payload) (t : ℕ) (s : Store)
      → p ≢ []
      → validate_data cache tokens access_expire refresh_expire (ok (some p)) t s
        ≡ compared cache tokens access_expire refresh_expire p
            (read_refresh_token cache tokens access_expire refresh_expire p t s)
  validate_full [] t s ne = absurd (ne refl)
  validate_full (e ∷ es) t s ne = refl

  saved_inv :
      (pair pair' : String × String) (r : Store × Result (Unit {0}))
      → (r.1 >>= λ _. ok pair) ≡ ok pair'
      → (pair ≡ pair') × (r.1 ≡ ok tt)
  saved_inv pair pair' r h = let (u, e, h') = bind_inv r.1 h in (ok-injective h', e)

  abbrev pub issued : Payload → Issue cache tokens access_expire refresh_expire → Payload
  issued data' i = refresh_of cache tokens access_expire refresh_expire data' i

  abbrev pub cached_as : Payload → Issue cache tokens access_expire refresh_expire → Payload
  cached_as data' i =
      insert "access_jti"
        (value_of (get_jti (access_of cache tokens access_expire refresh_expire data' i)))
        (issued data' i)

  pub issue_inv :
      (data' : Payload) (i : Issue cache tokens access_expire refresh_expire)
      (r : Result (String × String)) (s : Store) (pair : String × String)
      → (issue cache tokens access_expire refresh_expire data' i r s).1 ≡ ok pair
      → ((save_refresh_token cache tokens access_expire refresh_expire
            (access_of cache tokens access_expire refresh_expire data' i)
            (issued data' i)
            i.now
            s).1
          ≡ ok tt)
        × ((issue cache tokens access_expire refresh_expire data' i r s).0
            ≡ (save_refresh_token cache tokens access_expire refresh_expire
                (access_of cache tokens access_expire refresh_expire data' i)
                (issued data' i)
                i.now
                s).0)
  issue_inv data' i (err e) s pair h = ground arith
  issue_inv data' i (ok made) s pair h =
      let r : Store × Result (Unit {0}) =
        save_refresh_token cache tokens access_expire refresh_expire
          (access_of cache tokens access_expire refresh_expire data' i) (issued data' i) i.now s in
      let (same, saved) = saved_inv made pair r h in (saved, refl)

  -- `create_token` returns the two tokens, if the data have a claim "sub" that is not empty, PyJWT
  -- encodes both payloads, and the lock of the refresh token's key can be entered and, after the
  -- write, left.
  pub create_token-ok :
      (data' : Payload) (i : Issue cache tokens access_expire refresh_expire) (s : Store)
      (access_token refresh_token : String)
      → truthy (lookup "sub" data') ≡ true
      → tokens.encode (access_of cache tokens access_expire refresh_expire data' i)
        ≡ ok access_token
      → tokens.encode (issued data' i) ≡ ok refresh_token
      → (acquire (key_of cache tokens access_expire refresh_expire (issued data' i)) i.now s).1
        ≡ true
      → (release (key_of cache tokens access_expire refresh_expire (issued data' i)) i.now (
          set
            (key_of cache tokens access_expire refresh_expire (issued data' i))
            (dumps (cached_as data' i))
            refresh_expire
            i.now
            (acquire
              (key_of cache tokens access_expire refresh_expire (issued data' i))
              i.now
              s).0)).1
        ≡ ok tt
      → (create_token cache tokens access_expire refresh_expire data' i s).1
        ≡ ok (access_token, refresh_token)
  unfolding create_token save_refresh_token validate_sub
  create_token-ok data' i s access_token refresh_token sub a r enters leaves =
      rw (sub, a, r, enters, leaves) refl

  -- What the cache holds of the new refresh token, until it expires there.
  pub create_token-stored :
      (data' : Payload) (i : Issue cache tokens access_expire refresh_expire) (s : Store)
      (pair : String × String) (t : ℕ)
      → (create_token cache tokens access_expire refresh_expire data' i s).1 ≡ ok pair
      → i.now ≤ t
      → t < i.now + cache.per_second * refresh_expire
      → stored
          (create_token cache tokens access_expire refresh_expire data' i s).0
          t
          (key_of cache tokens access_expire refresh_expire (issued data' i))
        ≡ some (dumps (cached_as data' i))
  unfolding create_token save_refresh_token
  create_token-stored data' i s pair t h le lt =
      let key = key_of cache tokens access_expire refresh_expire (issued data' i) in
      let (saved, same) =
        issue_inv data' i (encoded cache tokens access_expire refresh_expire data' i) s pair h in
      ap (λ s'. stored s' t key) same
      ∙ (saving_stored cache tokens access_expire refresh_expire key (dumps (cached_as data' i))
            i.now t (acquire key i.now s).0 (acquire key i.now s).1 saved key
            (key_of-IsTokenKey cache tokens access_expire refresh_expire (issued data' i)) le
          ∙ cache.stored-set key (dumps (cached_as data' i)) refresh_expire i.now t
              (acquire key i.now s).0 le lt)

  pub decode_ok :
      (wall : ℕ) (token : String) (p : Payload)
      → decode wall token ≡ ok p
      → decode_token cache tokens access_expire refresh_expire wall token ≡ ok (some p)
  unfolding decode_token
  decode_ok wall token p e = rw e refl

  -- A token validates, where the text that is stored under its key is loaded and compares with the
  -- claims.
  pub text-validate_refresh_token :
      (val : Text) (cached p : Payload) (wall t : ℕ) (token : String) (s : Store)
      → p ≢ []
      → decode wall token ≡ ok p
      → IsQuiet (key_of cache tokens access_expire refresh_expire p) t s
      → stored s t (key_of cache tokens access_expire refresh_expire p) ≡ some val
      → tokens.is_empty val ≡ false
      → loads val ≡ cached
      → compare_cached (full (some cached)) p ≡ ok (some p)
      → (validate_refresh_token cache tokens access_expire refresh_expire wall t token s).1
        ≡ ok (some p)
  unfolding validate_refresh_token
  text-validate_refresh_token val cached p wall t token s full' accepted quiet held nonempty loaded
        compares =
      ap (λ d. (validate_data cache tokens access_expire refresh_expire d t s).1)
        (decode_ok wall token p accepted)
      ∙ (ap (λ (r : Store × Result (Option Payload)). r.1) (validate_full p t s full')
          ∙ (ap (λ r. r >>= λ cached'. compare_cached (full cached') p)
                (read_saved p cached val t s quiet held nonempty loaded)
              ∙ compares))

  -- A token validates whose claims are cached beside an access token's JTI.
  pub stored-validate_refresh_token :
      (v : Value) (p : Payload) (wall t : ℕ) (token : String) (s : Store)
      → IsFresh "access_jti" p
      → HasDistinctKeys p
      → p ≢ []
      → decode wall token ≡ ok p
      → IsQuiet (key_of cache tokens access_expire refresh_expire p) t s
      → stored s t (key_of cache tokens access_expire refresh_expire p)
        ≡ some (dumps (insert "access_jti" v p))
      → (validate_refresh_token cache tokens access_expire refresh_expire wall t token s).1
        ≡ ok (some p)
  stored-validate_refresh_token v p wall t token s fresh distinct full' accepted quiet held =
      let cached = insert "access_jti" v p in
      text-validate_refresh_token (dumps cached) cached p wall t token s full' accepted quiet held
        (tokens.dumps_full cached) (tokens.loads-dumps cached) (compare_saved v p fresh distinct)

  -- After `create_token` has returned, and until the refresh token expires in the cache,
  -- `validate_refresh_token` returns its claims, when PyJWT accepts the token and the lock of its
  -- key is free. The data have no claim "access_jti", as distinct keys as any `dict`, and the cache
  -- is as `create_token` left it.
  pub create_token-validate_refresh_token :
      (data' : Payload) (i : Issue cache tokens access_expire refresh_expire) (s : Store)
      (access_token refresh_token : String) (wall t : ℕ)
      → IsFresh "access_jti" data'
      → HasDistinctKeys data'
      → (create_token cache tokens access_expire refresh_expire data' i s).1
        ≡ ok (access_token, refresh_token)
      → i.now ≤ t
      → t < i.now + cache.per_second * refresh_expire
      → decode wall refresh_token ≡ ok (issued data' i)
      → IsQuiet
          (key_of cache tokens access_expire refresh_expire (issued data' i))
          t
          (create_token cache tokens access_expire refresh_expire data' i s).0
      → (validate_refresh_token cache tokens access_expire refresh_expire wall t refresh_token
          (create_token cache tokens access_expire refresh_expire data' i s).0).1
        ≡ ok (some (issued data' i))
  create_token-validate_refresh_token data' i s access_token refresh_token wall t fresh distinct h
        le lt accepted quiet =
      let ttl = refresh_expire in
      stored-validate_refresh_token
        (value_of (get_jti (access_of cache tokens access_expire refresh_expire data' i)))
        (issued data' i) wall t refresh_token
        (create_token cache tokens access_expire refresh_expire data' i s).0
        (metadata-IsFresh data' ttl i.refresh_time i.refresh_jti "access_jti" refl refl refl fresh)
        (metadata-HasDistinctKeys data' ttl i.refresh_time i.refresh_jti distinct)
        (metadata_ne_nil data' ttl i.refresh_time i.refresh_jti) accepted quiet
        (create_token-stored data' i s (access_token, refresh_token) t h le lt)
