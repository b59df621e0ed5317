-- ===== src/Throttle/Middleware/Routes.antt =====
-- `_find_route_handler` of webtool/throttle/middleware.py.
use webtool.Prelude.{
  ℕ, ◌≡◌, refl, ap, ◌∙◌, inl, inr, Option, Option-cases, none, some, List, [], ◌∷◌, ◌++◌, All,
  arith,
}
use webtool.Throttle.Middleware.{Scope, Route, full_endpoint, find_route_handler}

-- The endpoint of a route that matches in full.
abbrev pub endpoint_for : Scope → Route → Option ℕ
endpoint_for scope r = full_endpoint (r.matches scope) r.endpoint

find_later :
    (q : Route) (routes : List Route) (scope : Scope) (handler : ℕ)
    → endpoint_for scope q ≡ none
    → find_route_handler (q ∷ routes) scope ≡ some handler
    → find_route_handler routes scope ≡ some handler
unfolding find_route_handler
find_later q routes scope handler e h = ground arith

find_first :
    (q : Route) (routes : List Route) (scope : Scope) (e : ℕ)
    → endpoint_for scope q ≡ some e
    → some e ≡ find_route_handler (q ∷ routes) scope
unfolding find_route_handler
find_first q routes scope e h = ground arith

-- The handler is the endpoint of the first route that matches in full and has one.
pub find_route_handler_lem :
    (routes : List Route) (scope : Scope) (handler : ℕ)
    → find_route_handler routes scope ≡ some handler
    → (before : List Route) × (r : Route) × (after : List Route) × (routes ≡ before ++ r ∷ after)
      × All (λ q. endpoint_for scope q ≡ none) before
      × (endpoint_for scope r ≡ some handler)
unfolding find_route_handler
find_route_handler_lem [] scope handler h = cc
find_route_handler_lem (q ∷ routes) scope handler h = elim (Option-cases (endpoint_for scope q)) [
  | inl not_this ↦
      let (before, r, after, split, skipped, fits) =
        find_route_handler_lem routes scope handler
          (find_later q routes scope handler not_this h) in
      (q ∷ before, r, after, ap (λ l. q ∷ l) split, (not_this, skipped), fits)
  | inr (e, this) ↦ ([], q, routes, refl, tt, this ∙ (find_first q routes scope e this ∙ h))
]
