-- ===== src/Auth/Service/Tests.antt =====
-- An in-memory cache, tokens of a user, and runs over them.
use mathlib.Core.Bool.{true≢false}
use webtool.Prelude.{
  sym, ◌∙◌, String, ◌≡◌, ◌≢◌, refl, true, false, some, [], ◌∷◌, ap, str_eq, arith,
}
use webtool.Prelude.Dict.{select, lookup, insert, remove}
use webtool.Result.{ok}
use webtool.Auth.Models.{text, Payload, create_metadata, validate_sub, get_jti}
use webtool.Auth.TokenCache.{IsTokenKey, TokenCache, TokenText}
use webtool.Auth.TokenCache.InMemory.{in_memory, enter, leave, write, read, drop, seen}
use webtool.Cache.InMemory.{expire, set, get, delete, live, expiry_of, truthy, exp_of_ex}
use webtool.Cache.InMemory.Laws.{view}
use webtool.Cache.Lock.{attempt, release, default_lock}
use package.text.Mathlib.Text.{starts_with}
use package.text.Mathlib.TextPositions.{starts_with-append}
use webtool.Auth.Service.InMemory.{create_token-validate_in_memory}
use webtool.Auth.Manager.{same_payload}
use webtool.Auth.Service.{
  Issue, create_token, validate_refresh_token, invalidate_token, update_token, save_refresh_token,
  decode_token, read_refresh_token, invalidate_refresh_token,
}
use webtool.Auth.Service.Tokens.{key_of}
use webtool.Auth.Service.Life.{IsQuiet, issued, create_token-validate_refresh_token}
use webtool.Auth.Service.Expired.{create_token-expires}
use webtool.Auth.Service.Rotated.{update_token-validate_refresh_token}
use webtool.Auth.Service.Revoked.{invalidate_token-validate_refresh_token}

-- One text, which is the key of no token, stands for every hash.
abbrev one_hash : String → String
one_hash k = "#"

one_hash-apart : (k j : String) → IsTokenKey j → one_hash k ≢ j
one_hash-apart k j (x, token) e =
    true≢false (sym (ap (λ s. starts_with s "jwt_") (e ∙ token) ∙ starts_with-append "jwt_" x))

abbrev timed : TokenCache Payload
timed = in_memory one_hash one_hash-apart

abbrev user : Payload
user = ("sub", text "u") ∷ []

abbrev refresh_claims : Payload
refresh_claims = create_metadata user 100 7 "r"

-- Every token stands for the claims of the refresh token.
abbrev one_token : TokenText Payload
one_token = record {
  encode = λ _. ok "t";
  decode = λ _ _. ok refresh_claims;
  dumps = λ p. p;
  loads = λ p. p;
  is_empty = λ _. false;
  format = λ o. elim o [ some (text s) ↦ s | _ ↦ "None" ];
  format_text = λ s. refl;
  loads-dumps = λ p. refl;
  dumps_full = λ p. refl;
}

abbrev at_start : Issue timed one_token 10 100
at_start = record {
  access_time = 7;
  access_jti = "a";
  refresh_time = 7;
  refresh_jti = "r";
  now = 3;
}

abbrev nothing : TokenCache.Store timed
nothing = (record { cache = [] }, tt)

abbrev after : TokenCache.Store timed
after = (create_token timed one_token 10 100 user at_start nothing).0

created : (create_token timed one_token 10 100 user at_start nothing).1 ≡ ok ("t", "t")
unfolding create_token validate_sub save_refresh_token create_metadata get_jti enter leave write
    read drop seen attempt release default_lock set get delete expire select live expiry_of truthy
    exp_of_ex view insert remove lookup
created = refl

quiet : IsQuiet timed one_token 10 100 (key_of timed one_token 10 100 refresh_claims) 5 after
unfolding create_token validate_sub save_refresh_token create_metadata get_jti enter leave write
    read drop seen attempt release default_lock set get delete expire select live expiry_of truthy
    exp_of_ex view insert remove lookup
quiet = record { free = refl; leaves = refl }

create_token-validate_refresh_token_example :
    (validate_refresh_token timed one_token 10 100 8 5 "t" after).1 ≡ ok (some refresh_claims)
create_token-validate_refresh_token_example =
    create_token-validate_refresh_token timed one_token 10 100 user at_start nothing "t" "t" 8 5
      (refl, tt) (tt, tt) created (omega arith) (omega arith) refl quiet

-- After a hundred seconds.
create_token-expires_example :
    (validate_refresh_token timed one_token 10 100 8 100003 "t" after).1 ≢ ok (some refresh_claims)
unfolding create_metadata get_jti insert lookup
create_token-expires_example =
    create_token-expires timed one_token 10 100 user at_start nothing ("t", "t") 8 100003 "t"
      refresh_claims refresh_claims created (omega arith) (omega arith) refl refl

create_token-validate_in_memory_example :
    (validate_refresh_token timed one_token 10 100 8 5 "t" after).1 ≡ ok (some refresh_claims)
create_token-validate_in_memory_example =
    create_token-validate_in_memory one_hash one_hash-apart one_token 10 100 user at_start nothing
      "t" "t" 8 5 (refl, tt) (tt, tt) created (omega arith) (omega arith) refl

invalidated : (invalidate_token timed one_token 10 100 8 5 "t" after).1 ≡ ok true
unfolding invalidate_token validate_refresh_token decode_token create_token create_metadata
    same_payload read_refresh_token save_refresh_token invalidate_refresh_token validate_sub get_jti
    enter leave write read drop seen attempt release default_lock set get delete expire select live
    expiry_of truthy exp_of_ex view insert remove lookup
invalidated = refl

invalidate_token-validate_refresh_token_example :
    (validate_refresh_token timed one_token 10 100 8 6 "t"
      (invalidate_token timed one_token 10 100 8 5 "t" after).0).1
    ≢ ok (some refresh_claims)
invalidate_token-validate_refresh_token_example =
    invalidate_token-validate_refresh_token timed one_token 10 100 8 8 5 6 "t" "t" refresh_claims
      refresh_claims refresh_claims after refl refl refl (omega arith) invalidated

abbrev renewed : Issue timed one_token 10 100
renewed = record { access_time = 8; access_jti = "b"; refresh_time = 8; refresh_jti = "n"; now = 5 }

updated : (update_token timed one_token 10 100 user renewed 8 5 "t" after).1 ≡ ok (some ("t", "t"))
unfolding update_token invalidate_token validate_refresh_token decode_token create_token
    create_metadata same_payload read_refresh_token save_refresh_token invalidate_refresh_token
    validate_sub get_jti enter leave write read drop seen attempt release default_lock set get
    delete expire select live expiry_of truthy exp_of_ex view insert remove lookup
updated = refl

other_key :
    key_of timed one_token 10 100 (issued timed one_token 10 100 user renewed)
    ≢ key_of timed one_token 10 100 refresh_claims
unfolding create_metadata insert lookup
other_key e = true≢false (ap (λ k. str_eq k "jwt_n") e)

update_token-validate_refresh_token_example :
    (validate_refresh_token timed one_token 10 100 8 6 "t"
      (update_token timed one_token 10 100 user renewed 8 5 "t" after).0).1
    ≢ ok (some refresh_claims)
update_token-validate_refresh_token_example =
    update_token-validate_refresh_token timed one_token 10 100 user renewed 8 8 5 6 "t"
      refresh_claims refresh_claims ("t", "t") after refl refl other_key (omega arith) (omega arith)
      updated
