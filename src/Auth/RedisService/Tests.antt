-- ===== src/Auth/RedisService/Tests.antt =====
-- Runs of `RedisJWTService` over the reference server, with two tokens of a user.
use mathlib.Core.Bool.{true≢false}
use webtool.Prelude.{String, ◌≡◌, ◌≢◌, refl, ap, true, false, none, some, [], ◌∷◌, str_eq, arith}
use webtool.Prelude.Dict.{lookup, insert, remove}
use webtool.Result.{ok}
use webtool.Auth.Models.{text, Payload, create_metadata, get_jti}
use webtool.Auth.TokenCache.{TokenText}
use webtool.Auth.TokenServer.{LuaJson}
use webtool.Auth.TokenServer.Reference.{Data, reference_cache, reference_server}
use webtool.Auth.Manager.{same_payload}
use webtool.Auth.Service.{
  Issue, create_token, validate_refresh_token, read_refresh_token, decode_token,
}
use webtool.Auth.RedisService.{
  save_script, save_refresh_data, invalidate_script, invalidate_token_data, redis_invalidate_token,
  search_token,
}
use webtool.Auth.RedisService.Revokes.{redis_invalidate_token-validate_refresh_token}
use webtool.Auth.RedisService.Searches.{create_token-search_token}
use webtool.Auth.RedisService.Saves.{save_refresh_data-validate_refresh_token}

abbrev user : Payload
user = ("sub", text "u") ∷ []

abbrev claims_of : String → Payload
claims_of jti = create_metadata user 100 7 jti

-- A token is its JTI.
abbrev named_tokens : TokenText Payload
named_tokens = record {
  encode = λ _. ok "r";
  decode = λ _ token. ok (claims_of token);
  dumps = λ p. p;
  loads = λ p. p;
  is_empty = λ _. false;
  format = λ o. elim o [ some (text s) ↦ s | _ ↦ "None" ];
  format_text = λ s. refl;
  loads-dumps = λ p. refl;
  dumps_full = λ p. refl;
}

-- A payload is its own text, for Lua too.
abbrev lua : LuaJson named_tokens
lua = record {
  lua_number = λ n. "1";
  cjson_encode = λ p. p;
  cjson_full = λ p. refl;
  loads-cjson_encode = λ p d kept. record { distinct = d; same_length = refl; found = λ k. refl };
}

abbrev nothing : Data
nothing = record { texts = λ t k. none; sets = λ k. [] }

abbrev after_save : Data
after_save =
    (save_refresh_data reference_cache named_tokens reference_server lua 10 100 (claims_of "a")
      (claims_of "r") 7 3 nothing).0

was_saved :
    (save_refresh_data reference_cache named_tokens reference_server lua 10 100
      (claims_of "a")
      (claims_of "r")
      7
      3
      nothing).1
    ≡ ok tt
unfolding save_refresh_data save_script create_metadata get_jti lookup insert
was_saved = refl

save_refresh_data-validate_refresh_token_example :
    (lookup "r" (after_save.sets "jwt_sub_u") ≡ some 7)
    × ((validate_refresh_token reference_cache named_tokens 10 100 8 5 "r" after_save).1
        ≡ ok (some (claims_of "r")))
unfolding create_metadata lookup insert
save_refresh_data-validate_refresh_token_example =
    save_refresh_data-validate_refresh_token reference_cache named_tokens reference_server lua 10
      100 (claims_of "a") (claims_of "r") "r" "u" "a" "r" 107 7 8 3 5 nothing refl refl refl refl
      (refl, (refl, (refl, (refl, tt))))
      ((refl, (refl, (refl, tt))), ((refl, (refl, tt)), ((refl, tt), (tt, tt))))
      (refl, (refl, (refl, (refl, tt)))) (λ e. true≢false (ap (λ k. str_eq k "jwt_sub_u") e))
      (omega arith) (omega arith) (omega arith) was_saved refl
      (record { free = refl; leaves = refl })

abbrev both : Data
both =
    (save_refresh_data reference_cache named_tokens reference_server lua 10 100 (claims_of "b")
      (claims_of "n") 7 4 after_save).0

-- The second token invalidates the first one.
was_revoked :
    (redis_invalidate_token reference_cache named_tokens reference_server lua 10 100 8 5 "n"
      (some "r")
      both).1
    ≡ ok true
unfolding redis_invalidate_token invalidate_token_data invalidate_script validate_refresh_token
    decode_token read_refresh_token save_refresh_data save_script create_metadata get_jti lookup
    insert remove same_payload
was_revoked = refl

redis_invalidate_token-validate_refresh_token_example :
    ((redis_invalidate_token reference_cache named_tokens reference_server lua 10 100 8 5 "n"
          (some "r")
          both).0.texts
        6 "jwt_r"
      ≡ none)
    × ((validate_refresh_token reference_cache named_tokens 10 100 8 6 "r"
          (redis_invalidate_token reference_cache named_tokens reference_server lua 10 100 8 5 "n"
            (some "r")
            both).0).1
        ≢ ok (some (claims_of "r")))
unfolding create_metadata lookup insert
redis_invalidate_token-validate_refresh_token_example =
    redis_invalidate_token-validate_refresh_token reference_cache named_tokens reference_server lua
      10 100 8 8 5 6 "n" "r" (some "r") "n" (claims_of "n") (claims_of "r") (claims_of "r") both
      refl refl refl refl (omega arith) was_revoked

abbrev at_start : Issue reference_cache named_tokens 10 100
at_start = record {
  access_time = 7;
  access_jti = "a";
  refresh_time = 7;
  refresh_jti = "r";
  now = 3;
}

create_token-search_token_example :
    (search_token reference_cache named_tokens reference_server lua 10 100 8 5 "r"
      (create_token reference_cache named_tokens 10 100 user at_start nothing).0).1
    ≡ ok []
unfolding create_metadata lookup insert
create_token-search_token_example =
    create_token-search_token reference_cache named_tokens reference_server lua 10 100 user at_start
      nothing 8 5 "r" "u" (claims_of "r") (λ e. true≢false (ap (λ k. str_eq k "jwt_r") e)) refl
      (omega arith) refl refl
