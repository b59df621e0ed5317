-- ===== src/Utils/Key/Tests.antt =====
-- A toy `Cryptography`, whose PEM texts spell out the kind of the key, and runs over it.
use webtool.Prelude.{
  ℕ, zero, suc, ◌≡◌, String, refl, some, Bool, true, false, List, [], ◌∷◌, elem, arith, ap, sym,
  ◌∙◌, str_eq, eq_iff, if◌then◌else◌,
}
use webtool.Prelude.Bytes.{Bytes}
use webtool.Result.{Result, ok, err, value_error, ok-injective}
use webtool.Utils.Key.{
  Kind, rsa, elliptic, ed25519, ed448, unsupported, Cryptography, without_password, make_rsa_key,
  make_ec_key, save_key,
}
use webtool.Utils.Key.Saves.{save_key_ends}

-- A key is its kind, and a PEM text a number or two; of the curves, only one is written.
pub toy_private_bytes : Kind → Result Bytes
toy_private_bytes (rsa n) = ok (0 ∷ n ∷ [])
toy_private_bytes (elliptic curve) =
    if str_eq curve "secp256r1" then ok (1 ∷ []) else err value_error
toy_private_bytes _ = err value_error

unfoldable pub toy_load : Bytes → Result Kind
toy_load (zero ∷ n ∷ []) = ok (rsa n)
toy_load (suc zero ∷ []) = ok (elliptic "secp256r1")
toy_load _ = err value_error

pub toy_load-private_bytes :
    (k : Kind) (pem : Bytes) → toy_private_bytes k ≡ ok pem → toy_load pem ≡ ok k
unfolding toy_private_bytes toy_load
toy_load-private_bytes (rsa n) pem h = rw (← ok-injective h) refl
toy_load-private_bytes (elliptic curve) pem h =
    written (str_eq curve "secp256r1") (eq_iff curve "secp256r1").0 h
  where
    written :
        (b : Bool)
        → (b ≡ true → curve ≡ "secp256r1")
        → (if b then ok (1 ∷ []) else err value_error) ≡ ok pem
        → toy_load pem ≡ ok (elliptic curve)
    written true same h = rw (← ok-injective h, same refl) refl
    written false same h = ground arith
toy_load-private_bytes ed25519 pem h = ground arith
toy_load-private_bytes ed448 pem h = ground arith
toy_load-private_bytes unsupported pem h = ground arith

abbrev pub toy : Cryptography
toy = record {
  PrivateKey = Kind;
  PublicKey = Kind;
  kind = λ k. k;
  public_key = λ k. k;
  generate = λ _ k. k;
  private_bytes = λ k _. toy_private_bytes k;
  load_pem_private_key = λ pem _. toy_load pem;
  kind-generate = λ _ k. refl;
  load-private_bytes = λ k _ pem h. toy_load-private_bytes k pem h;
}

abbrev pub same_text : String → String
same_text s = s

pub ec_made : make_ec_key toy same_text 5 "ES256" without_password ≡ ok (1 ∷ [])
unfolding make_ec_key toy_private_bytes
ec_made = refl

rsa_made : make_rsa_key toy 5 3072 without_password ≡ ok (0 ∷ 3072 ∷ [])
unfolding make_rsa_key toy_private_bytes
rsa_made = refl

-- A key of fifty characters.
abbrev repeat : ℕ → List ℕ
repeat zero = []
repeat (suc n) = 65 ∷ repeat n

-- Names of files as numbers of strokes.
abbrev strokes : ℕ → String
strokes zero = ""
strokes (suc n) = String.◌∷◌ "|" (strokes n)

count : String → ℕ
count String.[] = 0
count (String.◌∷◌ c s) = suc (count s)

count-strokes : (n : ℕ) → count (strokes n) ≡ n
unfolding count
count-strokes zero = refl
count-strokes (suc n) = ap suc (count-strokes n)

strokes-injective : (i j : ℕ) → strokes i ≡ strokes j → i ≡ j
strokes-injective i j e = sym (count-strokes i) ∙ (ap count e ∙ count-strokes j)

save_key_ends_example :
    (n : ℕ) × (save_key strokes 3 ("|" ∷ "a" ∷ []) ≡ some (strokes n))
    × (elem (strokes n) ("|" ∷ "a" ∷ []) ≡ false)
save_key_ends_example = save_key_ends strokes 3 ("|" ∷ "a" ∷ []) strokes-injective (omega arith)
