-- ===== src/Utils/Key.antt =====
-- webtool/utils/key.py. A `bytes` object is the list of its bytes and a `str` the list of its code
-- points. The `cryptography` package is an interface, and so are the texts' upper case and the file
-- system's names.
pub mod Loads
pub mod Saves
pub mod Tests
use Prim.Native.Nat.{◌/◌, ◌%◌}
use webtool.Prelude.{
  ℕ, zero, suc, ◌+◌, ◌≡◌, String, Bool, true, false, Option, none, some, List, [], ◌∷◌, ◌++◌, elem,
  length, ltb, str_eq, if◌then◌else◌,
}
use webtool.Prelude.Bytes.{Bytes}
use webtool.Result.{Exception, Result, ok, err, value_error, ◌>>=◌}

-- What a private key is, as far as `isinstance`, `key_size` and `curve.name` tell.
pub data Kind : Type 0 where
  rsa : ℕ → Kind
  elliptic : String → Kind
  ed25519 ed448 : Kind
  unsupported : Kind

-- `cryptography`: a seed stands for the randomness that a key is generated from.
pub record Cryptography : Type 1 where
  pub PrivateKey : Type 0
  pub PublicKey : Type 0
  pub kind : PrivateKey → Kind
  pub public_key : PrivateKey → PublicKey
  pub generate : ℕ → Kind → PrivateKey
  pub private_bytes : PrivateKey → Option Bytes → Result Bytes
  pub load_pem_private_key : Bytes → Option Bytes → Result PrivateKey
  pub kind-generate : (seed : ℕ) (k : Kind) → kind (generate seed k) ≡ k
  -- A PEM text loads with the password that it was written with.
  pub load-private_bytes :
      (key : PrivateKey) (password : Option Bytes) (pem : Bytes)
      → private_bytes key password ≡ ok pem
      → load_pem_private_key pem password ≡ ok key

pub data Password : Type 0 where
  without_password : Password
  bytes_password : Bytes → Password
  str_password : List ℕ → Password

-- `str.encode("utf-8")`
abbrev pub utf8_char : ℕ → Bytes
utf8_char c =
    if ltb c 128
    then c ∷ []
    else if ltb c 2048
    then (192 + c / 64) ∷ (128 + c % 64) ∷ []
    else if ltb c 65536
    then (224 + c / 4096) ∷ (128 + c / 64 % 64) ∷ (128 + c % 64) ∷ []
    else (240 + c / 262144) ∷ (128 + c / 4096 % 64) ∷ (128 + c / 64 % 64) ∷ (128 + c % 64) ∷ []

unfoldable pub encode : List ℕ → Bytes
encode [] = []
encode (c ∷ cs) = utf8_char c ++ encode cs

-- The password as `cryptography` takes it, in `_serialize_key` and in `load_asymmetric_key`.
abbrev pub password_bytes : Password → Option Bytes
password_bytes without_password = none
password_bytes (bytes_password b) = some b
password_bytes (str_password s) = some (encode s)

-- The loop of `_save_key`: the names of the files that exist, and the name for each counter.
-- `none` stands for a loop that has not ended.
unfoldable pub save_loop : (ℕ → String) → ℕ → ℕ → List String → Option String
save_loop name zero counter files = none
save_loop name (suc fuel) counter files =
    let next = save_loop name fuel (suc counter) files in
    if elem (name counter) files then next else some (name counter)

-- `_save_key`: the new file's name.
unfoldable pub save_key : (ℕ → String) → ℕ → List String → Option String
unfolding save_loop
save_key name fuel files = save_loop name fuel 1 files

-- The curve of an algorithm, for `make_ec_key`.
abbrev pub curve_of : String → Option String
curve_of a =
    if str_eq a "ES256"
    then some "secp256r1"
    else if str_eq a "ES256K"
    then some "secp256k1"
    else if str_eq a "ES384"
    then some "secp384r1"
    else if str_eq a "ES512"
    then some "secp521r1"
    else none

-- The kind of an algorithm, for `make_ed_key`.
abbrev pub ed_kind_of : String → Option Kind
ed_kind_of a =
    if str_eq a "ED25519" then some ed25519 else if str_eq a "ED448" then some ed448 else none

-- The algorithm of a kind of key, as `load_asymmetric_key` tells it.
abbrev pub rsa_algorithm : ℕ → String
rsa_algorithm key_size =
    if ltb key_size 3072 then "RS256" else if ltb key_size 4096 then "RS384" else "RS512"

abbrev pub curve_algorithm : String → Result String
curve_algorithm curve =
    if str_eq curve "secp256r1"
    then ok "ES256"
    else if str_eq curve "secp256k1"
    then ok "ES256K"
    else if str_eq curve "secp384r1"
    then ok "ES384"
    else if str_eq curve "secp521r1"
    then ok "ES512"
    else err value_error

abbrev pub kind_algorithm : Kind → Result String
kind_algorithm (rsa key_size) = ok (rsa_algorithm key_size)
kind_algorithm (elliptic curve) = curve_algorithm curve
kind_algorithm ed25519 = ok "EdDSA"
kind_algorithm ed448 = ok "EdDSA"
kind_algorithm unsupported = err value_error

-- The key of `load_key`, and the algorithm of a key of a given length.
pub data Key : Type 0 where
  bytes : Bytes → Key
  str : List ℕ → Key

abbrev pub key_text : Key → List ℕ
key_text (bytes b) = b
key_text (str s) = s

abbrev pub symmetric_algorithm : ℕ → String
symmetric_algorithm key_size =
    if ltb key_size 48 then "HS256" else if ltb key_size 64 then "HS384" else "HS512"

module _ (c : Cryptography) where
  open c use {PrivateKey, PublicKey, public_key, generate, private_bytes, load_pem_private_key}

  abbrev pub KeyCart : Type 0
  KeyCart = PrivateKey × (PublicKey × String)

  pub data Loaded : Type 0 where
    asymmetric : KeyCart → Loaded
    symmetric : Key → String → Loaded

  -- `make_rsa_key`, `make_ec_key` and `make_ed_key`, with `save=False`.
  unfoldable pub make_rsa_key : ℕ → ℕ → Password → Result Bytes
  make_rsa_key seed key_size password =
      if ltb key_size 2048
      then err value_error
      else private_bytes (generate seed (rsa key_size)) (password_bytes password)

  unfoldable pub make_ec_key : (String → String) → ℕ → String → Password → Result Bytes
  make_ec_key upper seed algorithm password = elim (curve_of (upper algorithm)) [
    | none ↦ err value_error
    | some curve ↦ private_bytes (generate seed (elliptic curve)) (password_bytes password)
  ]

  unfoldable pub make_ed_key : (String → String) → ℕ → String → Password → Result Bytes
  make_ed_key upper seed algorithm password = elim (ed_kind_of (upper algorithm)) [
    | none ↦ err value_error
    | some kind ↦ private_bytes (generate seed kind) (password_bytes password)
  ]

  abbrev pub cart_of : PrivateKey → Result (Option KeyCart)
  cart_of k = kind_algorithm (c.kind k) >>= λ a. ok (some (k, (public_key k, a)))

  -- What follows `load_pem_private_key`: `ValueError` is caught there, and nothing else.
  abbrev pub loaded_pem : Result PrivateKey → Result (Option KeyCart)
  loaded_pem (err value_error) = ok none
  loaded_pem (err e) = err e
  loaded_pem (ok k) = cart_of k

  unfoldable pub load_asymmetric_key : Bytes → Password → Result (Option KeyCart)
  load_asymmetric_key private_key password =
      loaded_pem (load_pem_private_key private_key (password_bytes password))

  abbrev pub load_symmetric : Key → Loaded
  load_symmetric key = symmetric key (symmetric_algorithm (length (key_text key)))

  unfoldable pub load_key : Key → Password → Result Loaded
  unfolding load_asymmetric_key
  load_key (str s) _ = ok (load_symmetric (str s))
  load_key (bytes b) password = load_asymmetric_key b password >>= λ cart. elim cart [
    | none ↦ ok (load_symmetric (bytes b))
    | some k ↦ ok (asymmetric k)
  ]
