-- ===== src/Throttle/Decorator/Tests.antt =====
-- A decorated function that a plain decorator wraps, and a second rule on the wrapper.
use mathlib.Core.List.Perm
use webtool.Prelude.{ℕ, zero, String, ◌≡◌, refl, Option, none, some, List, [], ◌∷◌}
use webtool.Result.{ok}
use webtool.Throttle.Rule.{RuleSet}
use webtool.Throttle.Closure.{
  callable, Function, Functions, found, missing, find_closure_rules_function,
}
use webtool.Throttle.Decorator.{Heap, Arguments, new_rule, decorator}
use webtool.Throttle.Decorator.Laws.{IsAttached, decorator_shares}

abbrev digest : Function → ℕ → Option (List String) → Option (List String) → String
digest f n m s = f.name

abbrev upper : String → String
upper s = s

abbrev arguments : Arguments
arguments = record {
  max_requests = 4;
  interval = 10;
  throttle_key = none;
  method = none;
  scopes = some ("user" ∷ []);
}

-- 1 wraps 0, which has the manager 5.
abbrev functions : Functions
functions zero = record { module' = "app"; name = "api"; rules = some 5; closure = [] }
functions _ = record { module' = "app"; name = "wrapper"; rules = none; closure = callable 0 ∷ [] }

abbrev bare : Functions
bare _ = record { module' = "app"; name = "api"; rules = none; closure = [] }

-- Python's set, with the last rule added visited first.
abbrev stacked : RuleSet
stacked = record {
  add = λ rule rules. rule ∷ rules;
  add-Perm = λ rule rules. Perm.refl (rule ∷ rules);
}

abbrev heap : Functions → Heap
heap fs = record { functions = fs; managers = λ m. []; next = 6 }

finds_wrapped : find_closure_rules_function functions 3 1 ≡ found 0
unfolding find_closure_rules_function webtool.Throttle.Closure.callables
finds_wrapped = refl

finds_nothing : find_closure_rules_function bare 3 1 ≡ missing
unfolding find_closure_rules_function webtool.Throttle.Closure.callables
finds_nothing = refl

decorator_shares_example :
    (h' : Heap) × (m : ℕ) × (decorator digest upper arguments stacked 3 1 (heap functions)
      ≡ some (ok h'))
    × (some 5 ≡ some m)
    × IsAttached (heap functions) h' 1 m [] (new_rule digest upper arguments (functions 0))
decorator_shares_example =
    decorator_shares digest upper arguments stacked 3 1 0 (heap functions) finds_wrapped
