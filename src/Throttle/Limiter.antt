-- ===== src/Throttle/Limiter.antt =====
-- webtool/throttle/limiter.py, with the Lua script that it runs in Redis. Times and intervals are
-- natural numbers of one unit. Redis runs a script as one step.
pub mod Script
pub mod Rows
pub mod History
pub mod Quota
pub mod Answers
pub mod Tally
mod Tests
use Prim.Native.String
use webtool.Prelude.{
  ℕ, ◌+◌, String, ◌≡◌, Bool, Option, none, some, List, [], ◌∷◌, leb, if◌then◌else◌,
}
use webtool.Prelude.Int.{ℤ, sub_ℕ}
use webtool.Prelude.Dict.{Dict, lookup, insert}
use webtool.Result.{Result, ok, err, type_error, key_error, index_error, ◌>>=◌}
use webtool.Redis.SortedSets.{SortedSets}
use webtool.Auth.Models.{Value, text}
use webtool.Throttle.Rule.{LimitRule}

-- Lua's `tostring` of a number (14 significant digits) and Python's `float` of its result: the
-- times that the limiter sees are those on which this is a round trip.
pub record NumberText : Type 0 where
  pub tostring : ℕ → String
  pub float : String → ℕ
  pub float-tostring : (n : ℕ) → float (tostring n) ≡ n

-- `{key: (max_requests, interval)}`
abbrev pub Ruleset : Type 0
Ruleset = Dict (ℕ × ℕ)

-- `_get_ruleset`: a rule whose key came before replaces that rule.
unfoldable pub ruleset_from : String → List LimitRule → Ruleset → Ruleset
ruleset_from identifier [] limits = limits
ruleset_from identifier (rule ∷ rules) limits =
    ruleset_from identifier rules
      (insert (String.◌++◌ identifier rule.throttle_key) (rule.max_requests, rule.interval) limits)

-- `identifier + rule.throttle_key` raises unless the identifier is a text.
unfoldable pub get_ruleset : Value → List LimitRule → Result Ruleset
get_ruleset identifier [] = ok []
get_ruleset (text s) (rule ∷ rules) = ok (ruleset_from s (rule ∷ rules) [])
get_ruleset _ (rule ∷ rules) = err type_error

-- What the script leaves in `ruleset[key]`.
pub record Row : Type 0 where
  pub limit : ℕ
  pub amount : ℕ
  pub first : Option String

-- A tuple of `is_deny`: the limit, the current amount, and the time until the reset.
pub record Deny : Type 0 where
  pub limit : ℕ
  pub amount : ℕ
  pub reset : ℤ

module _ (numbers : NumberText) where
  open numbers use {float}

  -- `float(val[2]) + ruleset[key][1] - now`; a row with no third field raises.
  abbrev pub deny_of : ℕ → Row → Option (ℕ × ℕ) → Result Deny
  deny_of now row none = err key_error
  deny_of now row (some (limit, interval)) = elim row.first [
    | none ↦ err index_error
    | some member ↦ ok (record {
      limit = row.limit;
      amount = row.amount;
      reset = sub_ℕ (float member + interval) now;
    })
  ]

  unfoldable pub deny_list : ℕ → Ruleset → Dict Row → Result (List Deny)
  deny_list now limits [] = ok []
  deny_list now limits ((key, row) ∷ rows) = do
    deny ← deny_of now row (lookup key limits)
    rest ← deny_list now limits rows
    ok (deny ∷ rest)

module _ (redis : SortedSets) (numbers : NumberText) where
  open redis use {Db, zremrangebyscore, zcard, zadd, expire, zrevrange_first}
  open numbers use {tostring}

  -- Steps 1 to 3 of the loop's body.
  unfoldable pub admit : ℕ → String → ℕ → ℕ → Db → Db × ℕ
  admit now key limit window db =
      let db' = zremrangebyscore key 0 (sub_ℕ now window) db in
      let amount = zcard key db' in
      if leb amount limit then (zadd key now (tostring now) db', amount + 1) else (db', amount)

  -- The body of the loop over `KEYS`.
  unfoldable pub visit : ℕ → String → ℕ → ℕ → Db → Db × Row
  visit now key limit window db =
      let (db', amount) = admit now key limit window db in
      let db'' = expire key window db' in
      (db'', record { limit = limit; amount = amount; first = zrevrange_first key db'' })

  -- The script, over the keys of the ruleset.
  unfoldable pub run_script : ℕ → Ruleset → Db → Db × Dict Row
  run_script now [] db = (db, [])
  run_script now ((key, (limit, window)) ∷ limits) db =
      let (db', row) = visit now key limit window db in
      let (db'', rows) = run_script now limits db' in (db'', (key, row) ∷ rows)

  abbrev pub answer : ℕ → ℕ → Db → Result Ruleset → Db × Result (List Deny)
  answer now now' db (err e) = (db, err e)
  answer now now' db (ok limits) =
      let (db', rows) = run_script now limits db in (db', deny_list numbers now' limits rows)

  -- `is_deny`, with the clock readings of `_get_limits` and its own.
  unfoldable pub is_deny : ℕ → ℕ → Value → List LimitRule → Db → Db × Result (List Deny)
  is_deny now now' identifier rules db = answer now now' db (get_ruleset identifier rules)
