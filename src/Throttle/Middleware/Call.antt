-- ===== src/Throttle/Middleware/Call.antt =====
-- `__call__`: which clients are never limited, and when a request is answered with 429.
use webtool.Prelude.{
  some-injective, ℕ, ◌≡◌, refl, ap, Bool, true, false, Option, none, some, List, [], str_eq, eq_iff,
  arith, if◌then◌else◌,
}
use webtool.Result.{Result, ok, err}
use webtool.Redis.SortedSets.{SortedSets}
use webtool.Auth.Models.{AuthData}
use webtool.Throttle.Rule.{LimitRule, should_limit}
use webtool.Throttle.Closure.{
  Functions, Search, found, missing, raised, running, find_closure_rules_function,
}
use webtool.Throttle.Limiter.{NumberText}
use webtool.Throttle.Middleware.{
  Headers, Response, passed_on, too_many, Scope, Route, find_route_handler, apply, Identity,
  identified, unknown, failed, identify, limited, apply_rules, known, call,
}

module _ (redis : SortedSets) (numbers : NumberText) (functions : Functions)
    (managers : ℕ → List LimitRule) (fuel : ℕ) (routes : List Route)
    (auth_backend anno_backend : Scope → Result AuthData) (verify_identity : Scope → Headers) where
  open redis use {Db}

  -- The scope that the rules are read with.
  abbrev pub told : Scope → AuthData → Bool → Scope
  told scope auth is_user = if is_user then record scope { auth = some auth.data' } else scope

  -- What a 429 answer rests on: a handler of the request, a client that one of the backends knows,
  -- and rules of the handler, found through its closure, that apply to the client and to which
  -- `apply` answers so.
  pub record IsLimited (now now' : ℕ) (scope scope' : Scope) (db db' : Db) (headers : Headers)
      : Type 0 where
    pub handler : ℕ
    pub func : ℕ
    pub manager : ℕ
    pub auth : AuthData
    pub is_user : Bool
    pub rules : List LimitRule
    pub http : scope.type ≡ "http"
    pub routed : find_route_handler routes scope ≡ some handler
    pub client : identify (auth_backend scope) (anno_backend scope) ≡ identified auth is_user
    pub searched : find_closure_rules_function functions fuel handler ≡ found func
    pub managed : (functions func).rules ≡ some manager
    pub same : told scope auth is_user ≡ scope'
    pub asked :
        should_limit (managers manager) (told scope auth is_user).method is_user auth ≡ ok rules
    pub answered :
        apply redis numbers now now' (told scope auth is_user) auth.identifier rules db
        ≡ (db', ok (too_many headers))

  abbrev call' : ℕ → ℕ → Scope → Db → Option (Scope × (Db × Result Response))
  call' =
      call redis numbers functions managers fuel routes auth_backend anno_backend verify_identity

  abbrev Outcome : Type 0
  Outcome = Scope × (Db × Result Response)

  abbrev limited' : ℕ → ℕ → Scope → AuthData → Result (List LimitRule) → Db → Outcome
  limited' =
      limited redis numbers functions managers fuel routes auth_backend anno_backend verify_identity

  abbrev managed' : ℕ → ℕ → Scope → AuthData → Bool → Option ℕ → Db → Option Outcome
  managed' now now' scope auth is_user o db = elim o [
    | none ↦ some (scope, (db, ok (passed_on [])))
    | some m ↦
        some (limited' now now' scope auth (should_limit (managers m) scope.method is_user auth) db)
  ]

  abbrev apply_rules' : ℕ → ℕ → Scope → AuthData → Bool → Search → Db → Option Outcome
  apply_rules' =
      apply_rules redis numbers functions managers fuel routes auth_backend anno_backend
        verify_identity

  abbrev known' : ℕ → ℕ → Scope → ℕ → Identity → Db → Option Outcome
  known' =
      known redis numbers functions managers fuel routes auth_backend anno_backend verify_identity

  module _ (now now' : ℕ) (scope scope' : Scope) (db db' : Db) (headers : Headers) where
    abbrev target : Option Outcome
    target = some (scope', (db', ok (too_many headers)))

    limited_inv :
        (auth : AuthData) (r : Result (List LimitRule))
        → some (limited' now now' scope auth r db) ≡ target
        → (rules : List LimitRule) × (r ≡ ok rules)
          × (scope ≡ scope')
          × (apply redis numbers now now' scope auth.identifier rules db
              ≡ (db', ok (too_many headers)))
    limited_inv auth (err e) h = ground arith
    limited_inv auth (ok rules) h =
        let p : (scope, apply redis numbers now now' scope auth.identifier rules db)
            ≡ (scope', (db', ok (too_many headers))) =
          some-injective h in
        (rules, refl, ap (λ (t : Outcome). t.0) p, ap (λ (t : Outcome). t.1) p)

    managed_inv :
        (auth : AuthData) (is_user : Bool) (o : Option ℕ)
        → managed' now now' scope auth is_user o db ≡ target
        → (m : ℕ) × (o ≡ some m)
          × (rules : List LimitRule) × (should_limit (managers m) scope.method is_user auth
              ≡ ok rules)
          × (scope ≡ scope')
          × (apply redis numbers now now' scope auth.identifier rules db
              ≡ (db', ok (too_many headers)))
    managed_inv auth is_user none h = ground arith
    managed_inv auth is_user (some m) h =
        let (rules, e, same, a) =
          limited_inv auth (should_limit (managers m) scope.method is_user auth) h in
        (m, refl, rules, e, same, a)

    apply_rules_inv :
        (auth : AuthData) (is_user : Bool) (q : Search)
        → apply_rules' now now' scope auth is_user q db ≡ target
        → (f : ℕ) × (q ≡ found f)
          × (managed' now now' scope auth is_user (functions f).rules db ≡ target)
    apply_rules_inv auth is_user running h = ground arith
    apply_rules_inv auth is_user (raised e) h = ground arith
    apply_rules_inv auth is_user missing h = ground arith
    apply_rules_inv auth is_user (found f) h = (f, refl, h)

  known_inv :
      (now now' : ℕ) (scope scope' : Scope) (db db' : Db) (headers : Headers) (handler : ℕ)
      (i : Identity)
      → known' now now' scope handler i db ≡ some (scope', (db', ok (too_many headers)))
      → (auth : AuthData) × (is_user : Bool) × (i ≡ identified auth is_user)
        × (apply_rules' now now'
              (told scope auth is_user)
              auth
              is_user
              (find_closure_rules_function functions fuel handler)
              db
            ≡ some (scope', (db', ok (too_many headers))))
  known_inv now now' scope scope' db db' headers handler (failed e) h = ground arith
  known_inv now now' scope scope' db db' headers handler unknown h = ground arith
  known_inv now now' scope scope' db db' headers handler (identified auth is_user) h =
      (auth, is_user, refl, h)

  abbrev routed' : ℕ → ℕ → Scope → Option ℕ → Db → Option Outcome
  routed' now now' scope o db = elim o [
    | none ↦ some (scope, (db, ok (passed_on [])))
    | some handler ↦
        known' now now' scope handler (identify (auth_backend scope) (anno_backend scope)) db
  ]

  module _ (now now' : ℕ) (scope scope' : Scope) (db db' : Db) (headers : Headers) where
    routed_inv :
        (o : Option ℕ)
        → routed' now now' scope o db ≡ some (scope', (db', ok (too_many headers)))
        → (handler : ℕ) × (o ≡ some handler)
          × (known' now now' scope handler (identify (auth_backend scope) (anno_backend scope)) db
              ≡ some (scope', (db', ok (too_many headers))))
    routed_inv none h = ground arith
    routed_inv (some handler) h = (handler, refl, h)

    http_inv :
        (b : Bool) (o : Option Outcome)
        → (if b then o else some (scope, (db, ok (passed_on []))))
          ≡ some (scope', (db', ok (too_many headers)))
        → (b ≡ true) × (o ≡ some (scope', (db', ok (too_many headers))))
    http_inv true o h = (refl, h)
    http_inv false o h = ground arith

  -- A request that is answered with 429 is an HTTP request with a handler, of a client that one of
  -- the backends knows, and `apply` gave that answer to the rules that apply to the client, out of
  -- those of a function that the search from the handler finds.
  pub call_too_many :
      (now now' : ℕ) (scope scope' : Scope) (db db' : Db) (headers : Headers)
      → call' now now' scope db ≡ some (scope', (db', ok (too_many headers)))
      → IsLimited now now' scope scope' db db' headers
  unfolding call
  call_too_many now now' scope scope' db db' headers h =
      let (http, h₀) =
        http_inv now now' scope scope' db db' headers (str_eq scope.type "http")
          (routed' now now' scope (find_route_handler routes scope) db) h in
      let (handler, routed, h₁) =
        routed_inv now now' scope scope' db db' headers (find_route_handler routes scope) h₀ in
      let (auth, is_user, client, h₂) =
        known_inv now now' scope scope' db db' headers handler
          (identify (auth_backend scope) (anno_backend scope)) h₁ in
      let (func, searched, h₃) =
        apply_rules_inv now now' (told scope auth is_user) scope' db db' headers auth is_user
          (find_closure_rules_function functions fuel handler) h₂ in
      let (manager, managed, rules, asked, same, answered) =
        managed_inv now now' (told scope auth is_user) scope' db db' headers auth is_user
          (functions func).rules h₃ in
      record {
        handler = handler;
        func = func;
        manager = manager;
        auth = auth;
        is_user = is_user;
        rules = rules;
        http = (eq_iff scope.type "http").0 http;
        routed = routed;
        client = client;
        searched = searched;
        managed = managed;
        same = same;
        asked = asked;
        answered = answered;
      }
