-- ===== src/Throttle/Middleware/Serve.antt =====
-- The middleware over a sequence of requests of any clients to any routes: what it lets pass under
-- one client's rule.
use native.Mathlib.Nat.{le_trans, le_refl}
use webtool.Prelude.{
  is_some, ℕ, ◌≤◌, ◌<◌, String, ◌≡◌, ◌⊎◌, refl, ap, ◌∙◌, inl, inr, Bool, true, false, ◌&&◌, not,
  some, List, [], ◌∷◌, any, length, keep, arith, if◌then◌else◌,
}
use webtool.Prelude.Dict.{lookup, IsFresh, lookup_of_IsFresh}
use webtool.Result.{Result, ok, err}
use webtool.Redis.SortedSets.{SortedSets}
use webtool.Auth.Models
use webtool.Throttle.Rule.{LimitRule}
use webtool.Throttle.Limiter.{NumberText, Ruleset, Deny, run_script, get_ruleset}
use webtool.Throttle.Limiter.Rows.{over, zset-run_script_fresh}
use webtool.Throttle.Limiter.Answers.{HasIntervals}
use webtool.Throttle.Limiter.Quota.{within}
use webtool.Throttle.Limiter.History.{History, start, request, other, allowed-le-limit}
use webtool.Throttle.Middleware.{
  Response, passed_on, too_many, Scope, apply, default_callback, send_wrapper,
}
use webtool.Throttle.Middleware.Apply.{IsApplied, apply-IsApplied}

-- A request as it comes to `apply`: the client, the rules that apply, and the clock readings.
pub record Request : Type 0 where
  pub scope : Scope
  pub identifier : String
  pub rule : LimitRule
  pub rules : List LimitRule
  pub now : ℕ
  pub now' : ℕ

abbrev pub passes : Result Response → Bool
passes (ok (passed_on _)) = true
passes (ok (too_many _)) = false
passes (err _) = false

-- The ruleset of a request, with the key of each rule that applies.
abbrev pub ruleset_of : Request → Result Ruleset
ruleset_of q = get_ruleset (Models.text q.identifier) (q.rule ∷ q.rules)

abbrev pub under : String → Result Ruleset → Bool
under key (err e) = false
under key (ok limits) = is_some (lookup key limits)

passes_response :
    (o : Bool) (scope : Scope) (d : Deny)
    → passes (ok (if o then default_callback scope d else send_wrapper d)) ≡ not o
unfolding default_callback send_wrapper
passes_response true scope d = refl
passes_response false scope d = refl

log_same :
    (o : Bool) (now : ℕ) (allowed : List ℕ)
    → (if not o then now ∷ allowed else allowed) ≡ (if o then allowed else now ∷ allowed)
log_same true now allowed = refl
log_same false now allowed = refl

module _ (redis : SortedSets) (numbers : NumberText) where
  open redis use {Db, zset}

  abbrev pub response_to : Request → Db → Db × Result Response
  response_to q db =
      apply redis numbers q.now q.now' q.scope (Models.text q.identifier) (q.rule ∷ q.rules) db

  -- The times of the requests under a key that were passed on, the last one first.
  unfoldable pub serve : String → List Request → Db → List ℕ → List ℕ
  serve key [] db allowed = allowed
  serve key (q ∷ qs) db allowed =
      let (db', response) = response_to q db in
      serve key qs db'
        (if under key (ruleset_of q) && passes response then q.now ∷ allowed else allowed)

  passes_iff :
      (q : Request) (db : Db)
      → (a : IsApplied redis numbers q.now q.now' q.scope q.identifier (q.rule ∷ q.rules) db)
      → passes (response_to q db).1 ≡ not (any over (run_script redis numbers q.now a.limits db).1)
  passes_iff q db a =
      ap passes a.response
      ∙ passes_response (any over (run_script redis numbers q.now a.limits db).1) q.scope a.last

  module _ (key : String) (limit window : ℕ) where
    -- Every request has positive intervals, comes later than the one before it, and has the key in
    -- its ruleset either with this limit and window or not at all.
    abbrev pub Fits : ℕ → List Request → Type 0
    Fits t [] = Unit
    Fits t (q ∷ qs) =
        (t < q.now)
        × HasIntervals (q.rule ∷ q.rules)
        × ((limits : Ruleset)
            → ruleset_of q ≡ ok limits
            → (lookup key limits ≡ some (limit, window)) ⊎ IsFresh key limits)
        × Fits q.now qs

    serve_quota_from :
        (qs : List Request) (db : Db) (t t' : ℕ) (requests allowed : List ℕ)
        → t ≤ t'
        → Fits t' qs
        → History redis numbers key limit window db t requests allowed
        → (u : ℕ) → length (keep (within u window) (serve key qs db allowed)) ≤ limit
    unfolding serve
    serve_quota_from [] db t t' requests allowed le f h u =
        allowed-le-limit redis numbers key limit window h u
    serve_quota_from (q ∷ qs) db t t' requests allowed le (lt, i, has, f) h u =
        let a =
          apply-IsApplied redis numbers q.now q.now' q.scope q.identifier q.rule q.rules db i in
        elim (has a.limits a.made) [
          | inl listed ↦
              serve_quota_from qs (response_to q db).0 q.now q.now (q.now ∷ requests) _
                (le_refl q.now) f
                (request q.now a.limits h (le_trans (omega arith) lt) a.distinct a.positive listed
                  (ap (λ d. zset d key) a.stored)
                  (rw (a.made, listed, passes_iff q db a)
                    (log_same (any over (run_script redis numbers q.now a.limits db).1) q.now
                      allowed)))
                u
          | inr fresh ↦
              rw (a.made, lookup_of_IsFresh key a.limits fresh)
                (serve_quota_from qs (response_to q db).0 t q.now requests allowed
                  (le_trans le (omega arith)) f
                  (other h (
                    ap (λ d. zset d key) a.stored
                    ∙ zset-run_script_fresh redis numbers q.now a.limits db key fresh a.positive))
                  u)
        ]

    -- Requests at later and later times, with positive intervals, each with the key in its ruleset
    -- at this limit and window or not at all, from an empty set at the key: in every window the
    -- middleware passes on at most the limit of requests under the key.
    pub serve_quota :
        (qs : List Request) (db : Db) (t : ℕ)
        → zset db key ≡ []
        → Fits t qs
        → (u : ℕ) → length (keep (within u window) (serve key qs db [])) ≤ limit
    serve_quota qs db t e f u = serve_quota_from qs db t t [] [] (le_refl t) f (start t e) u
