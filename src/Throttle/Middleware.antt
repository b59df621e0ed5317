-- ===== src/Throttle/Middleware.antt =====
-- webtool/throttle/middleware.py. The application and the backends are parameters; a response is
-- what the middleware decides: to pass the request on, with headers that it appends to the start of
-- the response, or to answer by itself.
pub mod Sorting
pub mod Apply
pub mod Serve
pub mod Routes
pub mod Call
mod Tests
use webtool.Prelude.{
  ℕ, String, Bool, true, false, Option, none, some, List, [], ◌∷◌, ◌++◌, any, ltb, str_eq,
  if◌then◌else◌,
}
use webtool.Prelude.Int.{ℤ, sub_ℕ, ltb_ℤ}
use webtool.Result.{Exception, Result, ok, err, value_error, index_error}
use webtool.Redis.SortedSets.{SortedSets}
use webtool.Auth.Models.{Value, Payload, AuthData}
use webtool.Throttle.Rule.{LimitRule, should_limit}
use webtool.Throttle.Closure.{
  Functions, Search, found, missing, raised, running, find_closure_rules_function,
}
use webtool.Throttle.Limiter.{NumberText, Deny, is_deny}

-- A header's value: a text, or a number before `str`.
pub data HeaderValue : Type 0 where
  text : String → HeaderValue
  number : ℤ → HeaderValue

abbrev pub Headers : Type 0
Headers = List (String × HeaderValue)

pub data Response : Type 0 where
  -- `await self.app(scope, receive, send)`, where `send` appends these headers.
  passed_on : Headers → Response
  -- Status 429 with these headers, and an empty body.
  too_many : Headers → Response

-- The part of an ASGI scope that the middleware reads; `auth` is what it writes.
pub record Scope : Type 0 where
  pub type : String
  pub path : String
  pub method : Option String
  pub headers : Option (List (String × String))
  pub client : Option String
  pub auth : Option (Option Payload)

pub data Match : Type 0 where
  full partial no_match : Match

-- A route: how it matches, and its endpoint, a function object, if it has one.
pub record Route : Type 0 where
  pub matches : Scope → Match
  pub endpoint : Option ℕ

abbrev pub full_endpoint : Match → Option ℕ → Option ℕ
full_endpoint full endpoint = endpoint
full_endpoint _ endpoint = none

-- `_find_route_handler`
unfoldable pub find_route_handler : List Route → Scope → Option ℕ
find_route_handler [] scope = none
find_route_handler (route ∷ routes) scope =
    elim (full_endpoint (route.matches scope) route.endpoint) [
      | some handler ↦ some handler
      | none ↦ find_route_handler routes scope
    ]

-- `deny.sort(key=lambda limit: limit[2])`, a stable sort.
unfoldable pub insert_deny : Deny → List Deny → List Deny
insert_deny d [] = d ∷ []
insert_deny d (e ∷ es) = if ltb_ℤ e.reset d.reset then e ∷ insert_deny d es else d ∷ e ∷ es

unfoldable pub sort_denies : List Deny → List Deny
unfolding insert_deny
sort_denies [] = []
sort_denies (d ∷ ds) = insert_deny d (sort_denies ds)

-- `deny[-1]`
unfoldable pub last? : List Deny → Option Deny
last? [] = none
last? (d ∷ []) = some d
last? (d ∷ e ∷ es) = last? (e ∷ es)

-- The headers that both kinds of response have. What is sent as the limit is the current amount.
unfoldable pub limit_headers : Deny → String → Headers
limit_headers d exposed =
    ("Retry-After", number d.reset)
    ∷ ("x-ratelimit-limit", number (sub_ℕ d.amount 0))
    ∷ ("x-ratelimit-remaining", number (sub_ℕ d.limit d.amount))
    ∷ ("access-control-expose-headers", text exposed)
    ∷ []

-- `_default_callback`
unfoldable pub default_callback : Scope → Deny → Response
unfolding limit_headers
default_callback scope d = too_many (
    ("location", text scope.path)
    ∷ limit_headers d "location, x-ratelimit-limit, x-ratelimit-remaining, retry-after")

-- The wrapper of `send` in `apply`.
unfoldable pub send_wrapper : Deny → Response
unfolding limit_headers
send_wrapper d = passed_on (limit_headers d "x-ratelimit-limit, x-ratelimit-remaining, retry-after")

-- `any(s[0] < s[1] for s in deny)`, and the response.
abbrev pub respond : Scope → List Deny → Result Response
respond scope denies = elim (last? denies) [
  | none ↦ err index_error
  | some d ↦
      ok (
        if any (λ s. ltb s.limit s.amount) denies then default_callback scope d else send_wrapper d)
]

abbrev pub decide : Scope → Result (List Deny) → Result Response
decide scope (err e) = err e
decide scope (ok denies) = respond scope (sort_denies denies)

-- What `authenticate` of the two backends came to.
pub data Identity : Type 0 where
  identified : AuthData → Bool → Identity
  unknown : Identity
  failed : Exception → Identity

abbrev pub identify : Result AuthData → Result AuthData → Identity
identify (ok auth) anno = identified auth true
identify (err value_error) (ok auth) = identified auth false
identify (err value_error) (err value_error) = unknown
identify (err value_error) (err e) = failed e
identify (err e) anno = failed e

module _ (redis : SortedSets) (numbers : NumberText) where
  open redis use {Db}

  -- `apply`, with the two clock readings of `is_deny`.
  unfoldable pub apply : ℕ → ℕ → Scope → Value → List LimitRule → Db → Db × Result Response
  apply now now' scope identifier [] db = (db, ok (passed_on []))
  apply now now' scope identifier (rule ∷ rules) db =
      let (db', denies) = is_deny redis numbers now now' identifier (rule ∷ rules) db in
      (db', decide scope denies)

  -- `__call__`: the heap of functions and rule managers, the routes of the application, the two
  -- backends, and `verify_identity`, which adds a header. `none` is a search that has not ended.
  module _ (functions : Functions) (managers : ℕ → List LimitRule) (fuel : ℕ) (routes : List Route)
      (auth_backend anno_backend : Scope → Result AuthData)
      (verify_identity : Scope → Headers) where
    abbrev pub Answer : Type 0
    Answer = Scope × (Db × Result Response)

    abbrev limited : ℕ → ℕ → Scope → AuthData → Result (List LimitRule) → Db → Answer
    limited now now' scope auth (err e) db = (scope, (db, err e))
    limited now now' scope auth (ok rules) db =
        (scope, apply now now' scope auth.identifier rules db)

    -- "find limit rule manager" and "Apply limit rules"
    abbrev apply_rules : ℕ → ℕ → Scope → AuthData → Bool → Search → Db → Option Answer
    apply_rules now now' scope auth is_user running db = none
    apply_rules now now' scope auth is_user (raised e) db = some (scope, (db, err e))
    apply_rules now now' scope auth is_user missing db = some (scope, (db, ok (passed_on [])))
    apply_rules now now' scope auth is_user (found f) db = elim (functions f).rules [
      | none ↦ some (scope, (db, ok (passed_on [])))
      | some m ↦
          some
            (limited now now' scope auth (should_limit (managers m) scope.method is_user auth) db)
    ]

    abbrev known : ℕ → ℕ → Scope → ℕ → Identity → Db → Option Answer
    known now now' scope handler (failed e) db = some (scope, (db, err e))
    known now now' scope handler unknown db =
        some (scope, (db, ok (passed_on (verify_identity scope))))
    known now now' scope handler (identified auth is_user) db =
        apply_rules now now' (if is_user then record scope { auth = some auth.data' } else scope)
          auth is_user (find_closure_rules_function functions fuel handler) db

    unfoldable pub call : ℕ → ℕ → Scope → Db → Option Answer
    call now now' scope db =
        if str_eq scope.type "http"
        then elim (find_route_handler routes scope) [
          | none ↦ some (scope, (db, ok (passed_on [])))
          | some handler ↦
              known now now' scope handler (identify (auth_backend scope) (anno_backend scope)) db
        ]
        else some (scope, (db, ok (passed_on [])))
