-- ===== src/Auth/Setup/Signed.antt =====
-- A service accepts what it signed, and has the algorithm of its key.
use webtool.Prelude.{
  ℕ, String, true, str_eq, eq_iff, ◌≢◌, ◌≡◌, ◌⊎◌, inl, inr, refl, sym, ◌∙◌, false, Option, none,
  some, arith,
}
use webtool.Prelude.Bytes.{Bytes}
use webtool.Result.{Result, ok, err, value_error, ok-injective, bind_inv, ◌>>=◌}
use webtool.Utils.Key.{
  load_symmetric, KeyCart, loaded_pem, kind_algorithm, load_asymmetric_key, str, Cryptography, Key,
  bytes, Loaded, asymmetric, symmetric, without_password, load_key, make_ec_key,
}
use webtool.Utils.Key.Loads.{make_ec_key-load_key}
use webtool.Auth.Models.{Payload}
use webtool.Auth.Service.{verify_key_algorithm}
use webtool.Auth.Setup.{
  private, shared, PyJwt, Service, from_key_object, init_service, sign_token, check_token,
}

module _ (c : Cryptography) where
  open c use {PrivateKey, PublicKey, public_key}

  -- A loaded key pair is one of a private key and its public key.
  abbrev IsPairOf : Loaded c → Type 0
  IsPairOf (asymmetric (k, (p, a))) = p ≡ public_key k
  IsPairOf (symmetric k a) = Unit

  cart_of-paired :
      (k : PrivateKey) (r : Result String) (o : Option (KeyCart c))
      → (r >>= λ a. ok (some (k, (public_key k, a)))) ≡ ok o
      → (a : String) × (o ≡ some (k, (public_key k, a)))
  cart_of-paired k (err e) o h = ground arith
  cart_of-paired k (ok a) o h = (a, sym (ok-injective h))

  loaded_pem-paired :
      (r : Result PrivateKey) (o : Option (KeyCart c))
      → loaded_pem c r ≡ ok o
      → (o ≡ none) ⊎ ((k : PrivateKey) × (a : String) × (o ≡ some (k, (public_key k, a))))
  loaded_pem-paired (err value_error) o h = inl (sym (ok-injective h))
  loaded_pem-paired (err e) o h = ground arith
  loaded_pem-paired (ok k) o h =
      let (a, e) = cart_of-paired k (kind_algorithm (c.kind k)) o h in inr (k, a, e)

  cart-IsPairOf :
      (b : Bytes) (cart : Option (KeyCart c)) (l : Loaded c)
      → (cart ≡ none) ⊎ ((k : PrivateKey) × (a : String) × (cart ≡ some (k, (public_key k, a))))
      → ok (elim cart [ none ↦ load_symmetric c (bytes b) | some k ↦ asymmetric k ]) ≡ ok l
      → IsPairOf l
  cart-IsPairOf b cart l (inl e) h = rw⁻¹ (ok-injective h) (rw e tt)
  cart-IsPairOf b cart l (inr (k, a, e)) h = rw⁻¹ (ok-injective h) (rw e refl)

  cart_ok :
      (b : Bytes) (cart : Option (KeyCart c))
      → ok (elim cart [ none ↦ load_symmetric c (bytes b) | some k ↦ asymmetric k ])
        ≡ (elim cart [ none ↦ ok (load_symmetric c (bytes b)) | some k ↦ ok (asymmetric k) ])
  cart_ok b none = refl
  cart_ok b (some k) = refl

  load_key-IsPairOf :
      (key : Key) (l : Loaded c) → load_key c key without_password ≡ ok l → IsPairOf l
  unfolding load_key load_asymmetric_key
  load_key-IsPairOf (str s) l h = rw⁻¹ (ok-injective h) tt
  load_key-IsPairOf (bytes b) l h =
      let (cart, e, end) = bind_inv (loaded_pem c (c.load_pem_private_key b none)) h in
      cart-IsPairOf b cart l (loaded_pem-paired (c.load_pem_private_key b none) cart e)
        (cart_ok b cart ∙ end)

  -- What `__init__` leaves: no keys beside the secret, or a key pair.
  abbrev IsPaired : Service c → Type 0
  IsPaired s =
      ((s.private_key ≡ none) × (s.public_key ≡ none))
      ⊎ ((k : PrivateKey) × (s.private_key ≡ some k) × (s.public_key ≡ some (public_key k)))

  from_key_object-IsPaired :
      (secret : Key) (algorithm : Option String) (l : Loaded c) (s : Service c)
      → IsPairOf l
      → from_key_object c secret algorithm l ≡ ok s
      → IsPaired s
  from_key_object-IsPaired secret algorithm (asymmetric (k, (p, a))) s paired h =
      let (a', e, same) = bind_inv (verify_key_algorithm algorithm a) h in
      inr (k, rw (← ok-injective same) refl, rw (← ok-injective same, paired) refl)
  from_key_object-IsPaired secret algorithm (symmetric k a) s paired h =
      let (a', e, same) = bind_inv (verify_key_algorithm algorithm a) h in
      inl (rw (← ok-injective same) refl, rw (← ok-injective same) refl)

  init_service-IsPaired :
      (secret : Key) (algorithm : Option String) (s : Service c)
      → init_service c secret algorithm ≡ ok s
      → IsPaired s
  unfolding init_service
  init_service-IsPaired secret algorithm s h =
      let (l, e, end) = bind_inv (load_key c secret without_password) h in
      from_key_object-IsPaired secret algorithm l s (load_key-IsPairOf secret l e) end

  -- What a service with any key signs, it accepts as long as PyJWT accepts the claims: the token
  -- decodes to the claims that were signed.
  pub sign_token-check_token :
      (jwt : PyJwt c) (secret : Key) (algorithm : Option String) (s : Service c) (p : Payload)
      (token : String) (wall : ℕ)
      → init_service c secret algorithm ≡ ok s
      → sign_token c jwt s p ≡ ok token
      → jwt.accepts wall p ≡ true
      → check_token c jwt s wall token none ≡ ok (some p)
  unfolding sign_token check_token
  sign_token-check_token jwt secret algorithm s p token wall made signed accepted =
      elim (init_service-IsPaired secret algorithm s made) [
        | inl (no_private, no_public) ↦
            rw
              (
                no_public,
                jwt.decode-encode p (shared s.secret_key) s.algorithm token wall
                    (rw no_private at signed) accepted,
              )
              refl
        | inr (k, has_private, has_public) ↦
            rw
              (
                has_public,
                jwt.decode-encode p (private k) s.algorithm token wall (rw has_private at signed)
                    accepted,
              )
              refl
      ]

  -- A service that is given a key that `make_ec_key` made without a password has the key pair, and
  -- the algorithm that the key was made for, in upper case; it cannot be made for another one.
  pub make_ec_key-init_service :
      (upper : String → String) (seed : ℕ) (algorithm : String) (pem : Bytes)
      → make_ec_key c upper seed algorithm without_password ≡ ok pem
      → (k : PrivateKey) × (init_service c (bytes pem) none
          ≡ ok (record {
            secret_key = bytes pem;
            algorithm = upper algorithm;
            private_key = some k;
            public_key = some (public_key k);
          }))
        × ((other : String)
            → other ≢ ""
            → other ≢ upper algorithm
            → init_service c (bytes pem) (some other) ≡ err value_error)
  unfolding init_service verify_key_algorithm
  make_ec_key-init_service upper seed algorithm pem made =
      let (k, loaded) = make_ec_key-load_key c upper seed algorithm without_password pem made in
      (
        k,
        rw loaded refl,
        λ other full different.
            let not_empty : str_eq other "" ≡ false = ground (arith, eq_iff other "", full) in
            let unlike : str_eq (upper algorithm) other ≡ false =
              ground (arith, eq_iff (upper algorithm) other, different) in
            rw (loaded, not_empty, unlike) refl,
      )
