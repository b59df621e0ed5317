-- ===== src/Throttle/Middleware/Tests.antt =====
-- The middleware over the reference model of Redis, an application of two routes, and a function
-- whose closure holds the one with the rules.
use webtool.Prelude.{
  ℕ, zero, suc, ◌≤◌, ◌<◌, ◌⊎◌, ◌≡◌, refl, inl, inr, Bool, true, false, Option, none, some, List, [],
  ◌∷◌, ◌++◌, All, length, keep, arith, eq_iff,
}
use Prim.Native.String.{String}
use webtool.Prelude.Int.{pos, negsuc}
use webtool.Prelude.Dict.{Dict, lookup, IsFresh}
use webtool.Result.{Result, ok, err, value_error, ok-injective}
use webtool.Redis.Reference.{Sets, empty, reference}
use webtool.Auth.Models
use webtool.Auth.Models.{AuthData}
use webtool.Throttle.Rule.{LimitRule, limit_rule, should_limit, is_enabled}
use webtool.Throttle.Closure.{callable, Function, Functions, find_closure_rules_function}
use webtool.Throttle.Limiter.{
  Ruleset, get_ruleset, ruleset_from, is_deny, run_script, visit, admit, deny_list,
}
use webtool.Throttle.Limiter.Tally.{tally}
use webtool.Throttle.Limiter.Quota.{within}
use webtool.Throttle.Middleware.{
  text, Headers, too_many, Scope, full, no_match, Route, find_route_handler, call, number, apply,
  sort_denies, insert_deny, last?, default_callback, limit_headers,
}
use webtool.Throttle.Middleware.Apply.{IsApplied, apply-IsApplied}
use webtool.Throttle.Middleware.Serve.{Request, serve, Fits, ruleset_of, serve_quota}
use webtool.Throttle.Middleware.Call.{IsLimited, call_too_many}

abbrev scope : Scope
scope = record {
  type = "http";
  path = "/a";
  method = some "GET";
  headers = some [];
  client = some "h";
  auth = none;
}

abbrev user : AuthData
user = record { identifier = Models.text "u"; data' = none }

abbrev never : LimitRule
never = limit_rule 0 10 "k" [] []

abbrev plain : Function
plain = record { module' = "app"; name = "f"; rules = none; closure = [] }

abbrev functions : Functions
functions zero = record plain { closure = callable 1 ∷ [] }
functions _ = record plain { rules = some 7 }

abbrev managers : ℕ → List LimitRule
managers _ = never ∷ []

abbrev routes : List Route
routes =
    record { matches = λ _. no_match; endpoint = some 5 }
    ∷ record { matches = λ _. full; endpoint = some 0 }
    ∷ []

abbrev stranger : Scope → Result AuthData
stranger _ = err value_error

abbrev known_user : Scope → Result AuthData
known_user _ = ok user

abbrev session : Scope → Headers
session _ = ("set-cookie", text "s") ∷ []

routed : find_route_handler routes scope ≡ some 0
unfolding find_route_handler
routed = refl

abbrev told_scope : Scope
told_scope = record scope { auth = some none }

abbrev stored : Sets
stored = (apply reference tally 3 4 told_scope (Models.text "u") (never ∷ []) empty).0

abbrev refused : Headers
refused =
    ("location", text "/a")
    ∷ ("Retry-After", number (pos 9))
    ∷ ("x-ratelimit-limit", number (pos 1))
    ∷ ("x-ratelimit-remaining", number (negsuc 0))
    ∷ (
      "access-control-expose-headers",
      text "location, x-ratelimit-limit, x-ratelimit-remaining, retry-after",
    )
    ∷ []

is_refused :
    call reference tally functions managers 5 routes known_user stranger session 3 4 scope empty
    ≡ some (told_scope, (stored, ok (too_many refused)))
unfolding call apply find_route_handler find_closure_rules_function
    webtool.Throttle.Closure.callables should_limit is_enabled limit_rule is_deny get_ruleset
    ruleset_from run_script visit admit webtool.Prelude.Dict.insert webtool.Prelude.Dict.select
    deny_list sort_denies insert_deny last? default_callback limit_headers lookup
    webtool.Redis.Reference.best webtool.Redis.Reference.reference_expire
    webtool.Throttle.Limiter.Tally.count_strokes webtool.Throttle.Limiter.Tally.strokes
is_refused = refl

call_too_many_example :
    IsLimited reference tally functions managers 5 routes known_user stranger session 3 4 scope
      told_scope empty stored refused
call_too_many_example =
    call_too_many reference tally functions managers 5 routes known_user stranger session 3 4 scope
      told_scope empty stored refused is_refused

never_interval : 0 < never.interval
unfolding limit_rule
never_interval = omega arith

apply-IsApplied_example : IsApplied reference tally 3 4 scope "u" (never ∷ []) empty
apply-IsApplied_example =
    apply-IsApplied reference tally 3 4 scope "u" never [] empty (never_interval, tt)

-- At most two requests of a user in ten units, and three requests of the user and of another.
abbrev twice : LimitRule
twice = limit_rule 2 10 "k" [] []

abbrev at_time : String → ℕ → Request
at_time who t = record {
  scope = scope;
  identifier = who;
  rule = twice;
  rules = [];
  now = t;
  now' = t;
}

abbrev requests : List Request
requests = at_time "u" 3 ∷ at_time "v" 4 ∷ at_time "u" 5 ∷ at_time "u" 6 ∷ []

twice_interval : 0 < twice.interval
unfolding limit_rule
twice_interval = omega arith

user_key :
    (t : ℕ) (l : Ruleset)
    → ruleset_of (at_time "u" t) ≡ ok l
    → (lookup "uk" l ≡ some (2, 10)) ⊎ IsFresh "uk" l
unfolding get_ruleset ruleset_from limit_rule lookup webtool.Prelude.Dict.insert
user_key t l e = inl (rw (← ok-injective e) refl)

other_key :
    (t : ℕ) (l : Ruleset)
    → ruleset_of (at_time "v" t) ≡ ok l
    → (lookup "uk" l ≡ some (2, 10)) ⊎ IsFresh "uk" l
unfolding get_ruleset ruleset_from limit_rule lookup webtool.Prelude.Dict.insert
other_key t l e = inr (rw (← ok-injective e) (refl, tt))

requests-Fits : Fits reference tally "uk" 2 10 0 requests
requests-Fits = (
  omega arith,
  (twice_interval, tt),
  user_key 3,
  (
    omega arith,
    (twice_interval, tt),
    other_key 4,
    (
      omega arith,
      (twice_interval, tt),
      user_key 5,
      (omega arith, (twice_interval, tt), user_key 6, tt),
    ),
  ),
)

serve_quota_example : length (keep (within 4 10) (serve reference tally "uk" requests empty [])) ≤ 2
serve_quota_example = serve_quota reference tally "uk" 2 10 requests empty 0 refl requests-Fits 4
