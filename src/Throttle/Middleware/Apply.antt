-- ===== src/Throttle/Middleware/Apply.antt =====
-- `apply`: when a request is answered with 429, and what its headers say.
use webtool.Prelude.{
  ℕ, String, ◌≡◌, ◌≢◌, refl, sym, ap, ◌∙◌, Option, none, some, List, [], ◌∷◌, any, All, In, length,
  arith, if◌then◌else◌,
}
use webtool.Prelude.Int.{◌≤ℤ◌}
use webtool.Prelude.Dict.{insert, insert-ne-nil, HasDistinctKeys}
use webtool.Result.{Result, ok, err, index_error, ok-injective}
use Prim.Native.String
use webtool.Redis.SortedSets.{SortedSets}
use webtool.Auth.Models
use webtool.Throttle.Rule.{LimitRule}
use webtool.Throttle.Limiter.{
  NumberText, Ruleset, Deny, run_script, get_ruleset, ruleset_from, is_deny,
}
use webtool.Throttle.Limiter.Rows.{over, IsPositive}
use webtool.Throttle.Limiter.Answers.{HasIntervals, over_deny, is_deny_total}
use webtool.Throttle.Middleware.{
  Response, Scope, sort_denies, last?, default_callback, send_wrapper, decide, apply,
}
use webtool.Throttle.Middleware.Sorting.{any-sort_denies, last-sort_denies}

nil_of_length : {A : Type 0} (xs : List A) → length xs ≡ 0 → xs ≡ []
nil_of_length [] h = refl
nil_of_length (x ∷ xs) h = absurd (omega arith)

ne_nil_of_length :
    {A B : Type 0} (xs : List A) (ys : List B) → length xs ≡ length ys → ys ≢ [] → xs ≢ []
ne_nil_of_length xs ys h ne e = ne (nil_of_length ys (sym h ∙ ap (λ (l : List _). length l) e))

ruleset_from-ne-nil :
    (s : String) (rules : List LimitRule) (m : Ruleset) → m ≢ [] → ruleset_from s rules m ≢ []
unfolding ruleset_from
ruleset_from-ne-nil s [] m h = h
ruleset_from-ne-nil s (r ∷ rules) m h =
    ruleset_from-ne-nil s rules
      (insert (String.◌++◌ s r.throttle_key) (r.max_requests, r.interval) m)
      (insert-ne-nil (String.◌++◌ s r.throttle_key) (r.max_requests, r.interval) m)

get_ruleset-ne-nil :
    (s : String) (r : LimitRule) (rules : List LimitRule) (limits : Ruleset)
    → get_ruleset (Models.text s) (r ∷ rules) ≡ ok limits
    → limits ≢ []
unfolding get_ruleset ruleset_from
get_ruleset-ne-nil s r rules limits e =
    let same : ruleset_from s rules
          (insert (String.◌++◌ s r.throttle_key) (r.max_requests, r.interval) [])
        ≡ limits =
      ok-injective e in
    rw (← same) (
      ruleset_from-ne-nil s rules _
        (insert-ne-nil (String.◌++◌ s r.throttle_key) (r.max_requests, r.interval) []))

abbrev respond_last : Scope → List Deny → Option Deny → Result Response
respond_last scope denies last = elim last [
  | none ↦ err index_error
  | some d ↦ ok (if any over_deny denies then default_callback scope d else send_wrapper d)
]

decide_last :
    (scope : Scope) (denies : List Deny) (last : Option Deny) (d : Deny)
    → last ≡ some d
    → respond_last scope denies last
      ≡ ok (if any over_deny denies then default_callback scope d else send_wrapper d)
decide_last scope denies last d e = rw e

decide_lem :
    (scope : Scope) (denies : List Deny) (d : Deny)
    → last? (sort_denies denies) ≡ some d
    → decide scope (ok denies)
      ≡ ok (if any over_deny denies then default_callback scope d else send_wrapper d)
decide_lem scope denies d e =
    decide_last scope (sort_denies denies) (last? (sort_denies denies)) d e
    ∙ rw (any-sort_denies over_deny denies)

-- What `apply` does with rules: it runs the script over the ruleset; it answers with 429 exactly
-- if a row is over its limit, and passes the request on otherwise; the tuple behind the headers is
-- one with the longest time until its reset.
pub record IsApplied (redis : SortedSets) (numbers : NumberText) (now now' : ℕ) (scope : Scope)
    (s : String) (rules : List LimitRule) (db : SortedSets.Db redis) : Type 0 where
  pub limits : Ruleset
  pub denies : List Deny
  pub last : Deny
  pub made : get_ruleset (Models.text s) rules ≡ ok limits
  pub distinct : HasDistinctKeys limits
  pub positive : IsPositive limits
  pub stored :
      (apply redis numbers now now' scope (Models.text s) rules db).0
      ≡ (run_script redis numbers now limits db).0
  pub answers : (is_deny redis numbers now now' (Models.text s) rules db).1 ≡ ok denies
  pub over_same : any over_deny denies ≡ any over (run_script redis numbers now limits db).1
  pub listed : In last denies
  pub longest : All (λ e. e.reset ≤ℤ last.reset) denies
  pub response :
      (apply redis numbers now now' scope (Models.text s) rules db).1
      ≡ ok (
          if any over (run_script redis numbers now limits db).1
          then default_callback scope last
          else send_wrapper last)

module _ (redis : SortedSets) (numbers : NumberText) where
  open redis use {Db}

  -- For a text identifier and one or more rules, all with a positive interval, `apply` raises
  -- nothing: it runs the script over the ruleset of the rules, answers with 429 exactly if a row is
  -- over its limit, passes the request on with the headers otherwise, and takes the headers from a
  -- tuple with the longest time until its reset.
  pub apply-IsApplied :
      (now now' : ℕ) (scope : Scope) (s : String) (r : LimitRule) (rules : List LimitRule) (db : Db)
      → HasIntervals (r ∷ rules)
      → IsApplied redis numbers now now' scope s (r ∷ rules) db
  apply-IsApplied now now' scope s r rules db h =
      let (limits, denies, made, d, p, e, n, same) =
        is_deny_total redis numbers now now' s (r ∷ rules) db h in
      let (last, is_last, i, most) =
        last-sort_denies denies
          (ne_nil_of_length denies limits n (get_ruleset-ne-nil s r rules limits made)) in
      record {
        limits = limits;
        denies = denies;
        last = last;
        made = made;
        distinct = d;
        positive = p;
        stored = unfold apply in rw e;
        answers = rw e;
        over_same = same;
        listed = i;
        longest = most;
        response = unfold apply in rw e (decide_lem scope denies last is_last ∙ rw same);
      }
