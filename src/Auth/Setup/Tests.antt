-- ===== src/Auth/Setup/Tests.antt =====
-- A service with a toy key and a toy PyJWT, which signs every payload with one token.
use webtool.Prelude.{String, ◌≡◌, ◌≢◌, refl, sym, Bool, true, false, none, some, [], ◌∷◌}
use mathlib.Core.Bool.{true≢false}
use webtool.Result.{ok, err, value_error}
use webtool.Utils.Key.{Kind, elliptic, bytes, load_key, load_asymmetric_key}
use webtool.Utils.Key.Tests.{toy, toy_load, same_text, ec_made}
use webtool.Auth.Models.{Payload}
use webtool.Auth.Service.{verify_key_algorithm}
use webtool.Auth.Setup.{PyJwt, Service, init_service, sign_token, check_token}
use webtool.Auth.Setup.Signed.{sign_token-check_token, make_ec_key-init_service}

abbrev no_claims : Payload → Bool
no_claims [] = true
no_claims (e ∷ es) = false

abbrev one_token : PyJwt toy
one_token = record {
  encode = λ p key algorithm. ok "t";
  decode = λ wall token key algorithm. ok [];
  accepts = λ wall p. no_claims p;
  decode-encode = λ p key algorithm token wall e a.
      elim p as (λ q. no_claims q ≡ true → ok [] ≡ ok q) [
        | [] ↦ λ _. refl
        | e ∷ es ↦ λ bad. absurd (true≢false (sym bad))
      ]
        a;
}

abbrev made : Service toy
made = record {
  secret_key = bytes (1 ∷ []);
  algorithm = "ES256";
  private_key = some (elliptic "secp256r1");
  public_key = some (elliptic "secp256r1");
}

ready : init_service toy (bytes (1 ∷ [])) none ≡ ok made
unfolding init_service load_key load_asymmetric_key toy_load verify_key_algorithm
ready = refl

sign_token-check_token_example : check_token toy one_token made 5 "t" none ≡ ok (some [])
unfolding sign_token
sign_token-check_token_example =
    sign_token-check_token toy one_token (bytes (1 ∷ [])) none made [] "t" 5 ready refl refl

make_ec_key-init_service_example :
    (k : Kind) × (init_service toy (bytes (1 ∷ [])) none
      ≡ ok (record {
        secret_key = bytes (1 ∷ []);
        algorithm = "ES256";
        private_key = some k;
        public_key = some k;
      }))
    × ((other : String)
        → other ≢ ""
        → other ≢ "ES256"
        → init_service toy (bytes (1 ∷ [])) (some other) ≡ err value_error)
make_ec_key-init_service_example = make_ec_key-init_service toy same_text 5 "ES256" (1 ∷ []) ec_made
