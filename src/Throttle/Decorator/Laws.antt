-- ===== src/Throttle/Decorator/Laws.antt =====
-- What `limiter` does to the rules of a function.
use mathlib.Core.List.{Perm}
use mathlib.Core.Path.{fun_ext}
use webtool.Prelude.{
  ℕ, zero, suc, String, ◌≡◌, ◌≢◌, refl, inl, inr, true, Bool-cases, Option, Option-cases, some,
  List, [], ◌∷◌, arith, if◌then◌else◌,
}
use webtool.Result.{ok}
use webtool.Throttle.Rule.{LimitRule, RuleSet, add_rules}
use webtool.Throttle.Closure.{
  Function, Functions, found, missing, has_rules, find_closure_rules_function,
}
use webtool.Throttle.Closure.Finds.{loop_found, find_sound}
use webtool.Throttle.Decorator.{Heap, Arguments, set_rules, update, new_rule, decorator}

-- The heap after a function was given a rule: its manager is `m`, which had the rules `old`, and has
-- the new one beside them, in whatever order the set is visited.
pub record IsAttached (h h' : Heap) (func m : ℕ) (old : List LimitRule) (rule : LimitRule)
    : Type 0 where
  pub manager : (h'.functions func).rules ≡ some m
  pub rules : Perm (h'.managers m) (rule ∷ old)
  pub kept : (k : ℕ) → k ≢ m → h'.managers k ≡ h.managers k
  pub others : (g : ℕ) → g ≢ func → h'.functions g ≡ h.functions g
  pub finds : (fuel : ℕ) → find_closure_rules_function h'.functions (suc fuel) func ≡ found func

has_rules-some : (fs : Functions) (f m : ℕ) → (fs f).rules ≡ some m → has_rules fs f ≡ true
has_rules-some fs f m e = ground arith

rules_of_has_rules :
    (fs : Functions) (f : ℕ) → has_rules fs f ≡ true → (m : ℕ) × ((fs f).rules ≡ some m)
rules_of_has_rules fs f h = elim (Option-cases (fs f).rules) [ inl e ↦ ground arith | inr w ↦ w ]

-- A function with rules is what the search from it finds.
find_self :
    (fs : Functions) (fuel f : ℕ)
    → has_rules fs f ≡ true
    → find_closure_rules_function fs (suc fuel) f ≡ found f
unfolding find_closure_rules_function
find_self fs fuel f h = loop_found fs fuel f [] [] refl h

find_zero : (fs : Functions) (f g : ℕ) → find_closure_rules_function fs zero f ≢ found g
unfolding find_closure_rules_function
find_zero fs f g h = cc

-- A function with rules finds itself, and no other function.
find_own :
    (fs : Functions) (fuel f g : ℕ)
    → has_rules fs f ≡ true
    → find_closure_rules_function fs fuel f ≡ found g
    → g ≡ f
find_own fs zero f g r h = absurd (find_zero fs f g h)
find_own fs (suc fuel) f g r h = cc (find_self fs fuel f r)

set_rules_self : (f : ℕ) (m : Option ℕ) (fs : Functions) → (set_rules f m fs f).rules ≡ m
set_rules_self f m fs = ground arith

set_rules_ne : (f : ℕ) (m : Option ℕ) (fs : Functions) (g : ℕ) → g ≢ f → set_rules f m fs g ≡ fs g
set_rules_ne f m fs g h = ground arith

shared_manager :
    (fs : Functions) (fuel func exist m : ℕ)
    → find_closure_rules_function fs fuel func ≡ found exist
    → (fs exist).rules ≡ some m
    → (if has_rules fs func then (fs func).rules else (fs exist).rules) ≡ some m
shared_manager fs fuel func exist m e has = elim (Bool-cases (has_rules fs func)) [
  | inl ruled ↦
      let own : exist ≡ func = find_own fs fuel func exist ruled e in rw (ruled, ← own) has
  | inr bare ↦ rw bare has
]

-- The heap after `func` was given the manager `m`, with the rules `rules`.
abbrev attached : Heap → ℕ → ℕ → List LimitRule → ℕ → Heap
attached h func m rules n = record {
  functions = set_rules func (some m) h.functions;
  managers = update m rules h.managers;
  next = n;
}

update_same :
    (m : ℕ) (rules : List LimitRule) (ms : ℕ → List LimitRule) → update m rules ms m ≡ rules
update_same m rules ms = ground arith

update_other :
    (m k : ℕ) (rules : List LimitRule) (ms : ℕ → List LimitRule)
    → k ≢ m
    → update m rules ms k ≡ ms k
update_other m k rules ms apart = ground arith

attached-IsAttached :
    (sets : RuleSet) (h : Heap) (func m : ℕ) (old : List LimitRule) (rule : LimitRule) (n : ℕ)
    → IsAttached h (attached h func m (sets.add rule old) n) func m old rule
attached-IsAttached sets h func m old rule n = record {
  manager = set_rules_self func (some m) h.functions;
  rules = rw (update_same m (sets.add rule old) h.managers) (sets.add-Perm rule old);
  kept = λ k. update_other m k (sets.add rule old) h.managers;
  others = set_rules_ne func (some m) h.functions;
  finds = λ fuel. find_self (set_rules func (some m) h.functions) fuel func (
      has_rules-some (set_rules func (some m) h.functions) func m
        (set_rules_self func (some m) h.functions));
}

update-update :
    (m : ℕ) (change : List LimitRule → List LimitRule) (old : List LimitRule)
    (ms : ℕ → List LimitRule)
    → update m (change (update m old ms m)) (update m old ms) ≡ update m (change old) ms
update-update m change old ms = fun_ext λ k. rw (update_same m old ms) (ground arith)

module _ (digest : Function → ℕ → Option (List String) → Option (List String) → String)
    (upper : String → String) (a : Arguments) (sets : RuleSet) where
  -- Where a function of the closure holds rules, the decorated function shares its manager, whose
  -- rules are afterwards those that were there and the new one, in some order. The other managers
  -- and functions are as before, and the search from the decorated function finds it.
  pub decorator_shares :
      (fuel func exist : ℕ) (h : Heap)
      → find_closure_rules_function h.functions fuel func ≡ found exist
      → (h' : Heap) × (m : ℕ) × (decorator digest upper a sets fuel func h ≡ some (ok h'))
        × ((h.functions exist).rules ≡ some m)
        × IsAttached h h' func m (h.managers m) (new_rule digest upper a (h.functions exist))
  unfolding decorator add_rules
  decorator_shares fuel func exist h e =
      let (m, has) =
        rules_of_has_rules h.functions exist (find_sound h.functions fuel func exist e).1 in
      let rule = new_rule digest upper a (h.functions exist) in
      (
        attached h func m (sets.add rule (h.managers m)) h.next,
        m,
        rw (e, shared_manager h.functions fuel func exist m e has),
        has,
        attached-IsAttached sets h func m (h.managers m) rule h.next,
      )

  -- Where no function of the closure holds rules, the decorated function gets a new manager with
  -- the new rule alone.
  pub decorator_starts :
      (fuel func : ℕ) (h : Heap)
      → find_closure_rules_function h.functions fuel func ≡ missing
      → (h' : Heap) × (decorator digest upper a sets fuel func h ≡ some (ok h'))
        × (h'.next ≡ suc h.next)
        × IsAttached h h' func h.next [] (new_rule digest upper a (h.functions func))
  unfolding decorator add_rules
  decorator_starts fuel func h e =
      let rule = new_rule digest upper a (h.functions func) in
      (
        attached h func h.next (sets.add rule []) (suc h.next),
        rw (e, update-update h.next (sets.add rule) [] h.managers),
        refl,
        attached-IsAttached sets h func h.next [] rule (suc h.next),
      )
