-- ===== src/Throttle/Rule/Tests.antt =====
-- Rules at concrete requests.
use webtool.Prelude.{
  ℕ, String, ◌≡◌, ◌↔◌, refl, true, false, Option, none, some, List, [], ◌∷◌, In, inl, inr, eq_iff,
  arith,
}
use webtool.Result.{ok, err, type_error}
use webtool.Auth.Models.{text, texts, number, AuthData}
use webtool.Throttle.Rule.{LimitRule, limit_rule, is_enabled, should_limit}
use webtool.Throttle.Rule.Parts.{NamesSide}
use webtool.Throttle.Rule.Laws.{OfMethod, OfScope, is_enabled_iff, is_enabled_no_scope}

-- `@limiter(4, 10, method=["GET"], scopes=["user", "write"])`
abbrev methods : List String
methods = "GET" ∷ []

abbrev scopes : List String
scopes = "user" ∷ "write" ∷ []

abbrev rule : LimitRule
rule = limit_rule 4 10 "k" methods scopes

abbrev writer : AuthData
writer = record { identifier = text "u"; data' = some (("scope", texts ("write" ∷ [])) ∷ []) }

abbrev unscoped : AuthData
unscoped = record { identifier = text "u"; data' = some (("exp", number 9) ∷ []) }

writer_limited : should_limit (rule ∷ []) (some "GET") true writer ≡ ok (rule ∷ [])
unfolding should_limit limit_rule is_enabled webtool.Throttle.Rule.granted
    webtool.Throttle.Rule.set_of webtool.Throttle.Rule.meets webtool.Prelude.Dict.lookup
writer_limited = refl

is_enabled_iff_example : (is_enabled rule (some "GET") true writer ≡ ok true) ↔ (
    OfMethod 4 10 "k" methods scopes (some "GET")
    × OfScope 4 10 "k" methods scopes writer
    × NamesSide true scopes)
is_enabled_iff_example = is_enabled_iff 4 10 "k" methods scopes (some "GET") true writer

is_enabled_no_scope_example : is_enabled rule (some "GET") true unscoped ≡ err type_error
is_enabled_no_scope_example =
    is_enabled_no_scope 4 10 "k" methods scopes (some "GET") true unscoped ("exp", number 9) []
      "write" (inr ("GET", refl, inl refl)) (inr (inl refl)) (ground (arith, eq_iff "write" "user"))
      (ground (arith, eq_iff "write" "anno")) refl (unfold webtool.Prelude.Dict.lookup in refl)
