-- ===== src/Throttle/Closure/Tests.antt =====
-- A search through the closures of five functions, two of which hold one another.
use webtool.Prelude.{zero, suc, ◌≡◌, ◌≢◌, refl, true, false, none, some, [], ◌∷◌, arith}
use webtool.Throttle.Closure.{
  callable, opaque, Function, Functions, found, missing, running, has_rules,
  find_closure_rules_function,
}
use webtool.Throttle.Closure.Finds.{Reachable, find_sound, find_complete}
use webtool.Throttle.Closure.Ends.{IsBelow, find_ends}

abbrev plain : Function
plain = record { module' = "app"; name = "f"; rules = none; closure = [] }

-- 0 holds 1 and 2; 1 holds 0; 2 holds 3, which has rules. Functions from 4 on hold 9, which is not
-- among the first four.
abbrev functions : Functions
functions zero = record plain { closure = opaque ∷ callable 1 ∷ callable 2 ∷ [] }
functions (suc zero) = record plain { closure = callable 0 ∷ [] }
functions (suc (suc zero)) = record plain { closure = callable 3 ∷ [] }
functions (suc (suc (suc zero))) = record plain { rules = some 7 }
functions _ = record plain { closure = callable 9 ∷ [] }

finds_third : find_closure_rules_function functions 9 0 ≡ found 3
unfolding find_closure_rules_function webtool.Throttle.Closure.callables
finds_third = refl

finds_none : find_closure_rules_function functions 9 4 ≡ missing
unfolding find_closure_rules_function webtool.Throttle.Closure.callables
finds_none = refl

functions-IsBelow : IsBelow functions 4
functions-IsBelow zero g lt i = ground arith
functions-IsBelow (suc zero) g lt i = ground arith
functions-IsBelow (suc (suc zero)) g lt i = ground arith
functions-IsBelow (suc (suc (suc zero))) g lt i = absurd i
functions-IsBelow (suc (suc (suc (suc f)))) g lt i = absurd (omega arith)

find_sound_example : Reachable functions 0 3 × (has_rules functions 3 ≡ true)
find_sound_example = find_sound functions 9 0 3 finds_third

find_complete_example : has_rules functions 4 ≡ false
find_complete_example = find_complete functions 9 4 finds_none 4 Reachable.here

find_ends_example : find_closure_rules_function functions 10 0 ≢ running
find_ends_example = find_ends functions 4 functions-IsBelow 10 0 (omega arith) (omega arith)
