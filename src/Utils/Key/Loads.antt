-- ===== src/Utils/Key/Loads.antt =====
-- Keys that are made and then loaded, and the algorithms that they get.
use webtool.Prelude.{
  ℕ, ◌≤◌, ◌<◌, ◌≡◌, In, [], ◌∷◌, String, refl, ◌↔◌, Bool, true, false, Option, none, some,
  some-injective, List, ltb, ltb→lt, lt→ltb, ap, str_eq, eq_iff, arith, if◌then◌else◌,
}
use webtool.Prelude.Bytes.{Bytes}
use webtool.Result.{Result, ok, err, value_error}
use webtool.Utils.Key.{
  Kind, rsa, elliptic, Cryptography, Password, password_bytes, curve_of, curve_algorithm,
  rsa_algorithm, kind_algorithm, bytes, asymmetric, make_rsa_key, make_ec_key, load_asymmetric_key,
  load_key,
}

-- One test of `curve_of`: the curve that it gives has the algorithm tested for.
curve_test :
    (a lit c curve : String) (b : Bool) (rest : Option String)
    → (b ≡ true → a ≡ lit)
    → curve_algorithm c ≡ ok lit
    → (rest ≡ some curve → curve_algorithm curve ≡ ok a)
    → (if b then some c else rest) ≡ some curve
    → curve_algorithm curve ≡ ok a
curve_test a lit c curve true rest same known later h = rw (← some-injective h, same refl) known
curve_test a lit c curve false rest same known later h = later h

curve_algorithm-curve_of :
    (a curve : String) → curve_of a ≡ some curve → curve_algorithm curve ≡ ok a
curve_algorithm-curve_of a curve =
    curve_test a "ES256" "secp256r1" curve (str_eq a "ES256") _ (eq_iff a "ES256").0 refl (
      curve_test a "ES256K" "secp256k1" curve (str_eq a "ES256K") _ (eq_iff a "ES256K").0 refl (
        curve_test a "ES384" "secp384r1" curve (str_eq a "ES384") _ (eq_iff a "ES384").0 refl (
          curve_test a "ES512" "secp521r1" curve (str_eq a "ES512") _ (eq_iff a "ES512").0 refl
            (λ h. ground arith))))

-- The HMAC algorithms of RFC 7518, and the least length of their keys in bytes, that of the hash.
abbrev pub hash_bytes : List (String × ℕ)
hash_bytes = ("HS256", 32) ∷ ("HS384", 48) ∷ ("HS512", 64) ∷ []

-- An algorithm with the longest hash that a key of `size` bytes is enough for.
pub record IsStrongest (size : ℕ) (a : String) : Type 0 where
  pub bytes_of : ℕ
  pub listed : In (a, bytes_of) hash_bytes
  pub enough : bytes_of ≤ size
  pub strongest : (a' : String) (n : ℕ) → In (a', n) hash_bytes → n ≤ size → n ≤ bytes_of

abbrev rsa_choice : Bool → Bool → String
rsa_choice b b' = if b then "RS256" else if b' then "RS384" else "RS512"

rsa_tests : (b b' : Bool) → (rsa_choice b b' ≡ "RS256") ↔ (b ≡ true)
rsa_tests true b' = (λ _. refl, λ _. refl)
rsa_tests false true = (λ e. ap (λ (s : String). str_eq s "RS256") e, λ e. ground arith)
rsa_tests false false = (λ e. ap (λ (s : String). str_eq s "RS256") e, λ e. ground arith)

rsa_algorithm_256 : (size : ℕ) → (rsa_algorithm size ≡ "RS256") ↔ (size < 3072)
rsa_algorithm_256 size =
    let (to, from) = rsa_tests (ltb size 3072) (ltb size 4096) in
    (λ e. ltb→lt size 3072 (to e), λ lt. from (lt→ltb size 3072 lt))

module _ (c : Cryptography) where
  open c use {PrivateKey, public_key, generate, private_bytes, load_pem_private_key}

  load_made :
      (seed : ℕ) (k : Kind) (secret : Password) (pem : Bytes) (a : String)
      → private_bytes (generate seed k) (password_bytes secret) ≡ ok pem
      → kind_algorithm k ≡ ok a
      → load_key c (bytes pem) secret
        ≡ ok (asymmetric (generate seed k, (public_key (generate seed k), a)))
  unfolding load_key load_asymmetric_key
  load_made seed k secret pem a made known =
      rw
        (
          c.load-private_bytes (generate seed k) (password_bytes secret) pem made,
          c.kind-generate seed k,
          known,
        )
        refl

  abbrev ec_made : ℕ → Password → Option String → Result Bytes
  ec_made seed secret o = elim o [
    | none ↦ err value_error
    | some curve ↦ private_bytes (generate seed (elliptic curve)) (password_bytes secret)
  ]

  ec_made-load_key :
      (seed : ℕ) (secret : Password) (pem : Bytes) (a : String) (o : Option String)
      → curve_of a ≡ o
      → ec_made seed secret o ≡ ok pem
      → (k : PrivateKey) × (load_key c (bytes pem) secret ≡ ok (asymmetric (k, (public_key k, a))))
  ec_made-load_key seed secret pem a none e h = ground arith
  ec_made-load_key seed secret pem a (some curve) e h = (
    generate seed (elliptic curve),
    load_made seed (elliptic curve) secret pem a h (curve_algorithm-curve_of a curve e),
  )

  -- A key that `make_ec_key` makes for an algorithm is loaded with the same password, and with
  -- that algorithm.
  pub make_ec_key-load_key :
      (upper : String → String) (seed : ℕ) (algorithm : String) (secret : Password) (pem : Bytes)
      → make_ec_key c upper seed algorithm secret ≡ ok pem
      → (k : PrivateKey) × (load_key c (bytes pem) secret
          ≡ ok (asymmetric (k, (public_key k, upper algorithm))))
  unfolding make_ec_key
  make_ec_key-load_key upper seed algorithm secret pem h =
      ec_made-load_key seed secret pem (upper algorithm) (curve_of (upper algorithm)) refl h

  rsa_made :
      (seed size : ℕ) (secret : Password) (pem : Bytes) (b : Bool)
      → (if b
          then err value_error
          else private_bytes (generate seed (rsa size)) (password_bytes secret))
        ≡ ok pem
      → (b ≡ false) × (private_bytes (generate seed (rsa size)) (password_bytes secret) ≡ ok pem)
  rsa_made seed size secret pem true h = ground arith
  rsa_made seed size secret pem false h = (refl, h)

  -- A key that `make_rsa_key` makes has at least 2048 bits, and it is loaded with the same
  -- password: a key of 3072 bits or more never for SHA-256, and one of less for nothing else.
  pub make_rsa_key-load_key :
      (seed size : ℕ) (secret : Password) (pem : Bytes)
      → make_rsa_key c seed size secret ≡ ok pem
      → (2048 ≤ size)
        × (k : PrivateKey) × (a : String) × (load_key c (bytes pem) secret
            ≡ ok (asymmetric (k, (public_key k, a))))
        × ((a ≡ "RS256") ↔ (size < 3072))
  unfolding make_rsa_key
  make_rsa_key-load_key seed size secret pem h =
      let (big, made) = rsa_made seed size secret pem (ltb size 2048) h in
      (
        ground arith,
        generate seed (rsa size),
        rsa_algorithm size,
        load_made seed (rsa size) secret pem (rsa_algorithm size) made refl,
        rsa_algorithm_256 size,
      )
