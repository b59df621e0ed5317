-- ===== src/Throttle/Limiter/Tests.antt =====
-- The limiter over the reference model of Redis.
use mathlib.Core.Bool.{true≢false}
use webtool.Prelude.{
  ap, str_eq, ℕ, ◌≤◌, ◌<◌, ◌≡◌, refl, true, false, some, List, [], ◌∷◌, any, length, keep, inl,
  arith,
}
use webtool.Prelude.Dict.{lookup, HasDistinctKeys}
use webtool.Result.{err, index_error}
use webtool.Redis.Reference.{Sets, empty, reference}
use webtool.Auth.Models.{text}
use webtool.Throttle.Rule.{LimitRule, limit_rule}
use webtool.Throttle.Limiter.{Ruleset, Row, Deny, run_script, get_ruleset, is_deny}
use webtool.Throttle.Limiter.Tally.{tally}
use webtool.Throttle.Limiter.Rows.{over}
use webtool.Throttle.Limiter.Quota.{within}
use webtool.Throttle.Limiter.History.{History, start, request, allowed-le-limit, few_not_over}
use webtool.Throttle.Limiter.Answers.{IsLastOfKey, is_deny_zero_interval}

-- At most two requests in ten units.
abbrev limits : Ruleset
limits = ("k", (2, 10)) ∷ []

abbrev after : ℕ → Sets → Sets
after now db = (run_script reference tally now limits db).0

lookup_limits : lookup "k" limits ≡ some (2, 10)
unfolding lookup
lookup_limits = refl

first_fine : any over (run_script reference tally 3 limits empty).1 ≡ false
unfolding run_script webtool.Throttle.Limiter.visit webtool.Throttle.Limiter.admit
    webtool.Prelude.Dict.select
first_fine = refl

one_request : History reference tally "k" 2 10 (after 3 empty) 3 (3 ∷ []) (3 ∷ [])
one_request =
    request 3 limits (start {db = empty} 0 refl) (omega arith) (tt, tt) (omega arith) lookup_limits
      refl (rw first_fine)

allowed-le-limit_example : length (keep (within 5 10) (3 ∷ [])) ≤ 2
allowed-le-limit_example = allowed-le-limit reference tally "k" 2 10 one_request 5

few_not_over_example :
    (row : Row) × (lookup "k" (run_script reference tally 4 limits (after 3 empty)).1 ≡ some row)
    × (over ("k", row) ≡ false)
few_not_over_example =
    few_not_over reference tally "k" 2 10 4 limits one_request (omega arith) (tt, tt) (omega arith)
      lookup_limits (omega arith)

abbrev rule : LimitRule
rule = limit_rule 2 10 "k" [] []

abbrev never_rule : LimitRule
never_rule = limit_rule 2 0 "k" [] []

rule_interval : 0 < rule.interval
unfolding limit_rule
rule_interval = omega arith

abbrev other_rule : LimitRule
other_rule = limit_rule 2 10 "j" [] []

other_apart : IsLastOfKey "u" never_rule (other_rule ∷ [])
unfolding limit_rule
other_apart = (λ e. true≢false (ap (λ k. str_eq k "uj") e), tt)

is_deny_zero_interval_example :
    (is_deny reference tally 3 4 (text "u") (rule ∷ never_rule ∷ other_rule ∷ []) empty).1
    ≡ err index_error
unfolding limit_rule
is_deny_zero_interval_example =
    is_deny_zero_interval reference tally 3 4 "u" (rule ∷ []) (other_rule ∷ []) never_rule empty
      refl other_apart
