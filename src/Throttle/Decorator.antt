-- ===== src/Throttle/Decorator.antt =====
-- webtool/throttle/decorator.py, `limiter`: it gives a function a rule, and shares the rule manager
-- of a function that its closure holds. Function objects and rule managers are named by numbers.
pub mod Laws
mod Tests
use webtool.Prelude.{
  ℕ, suc, String, Bool, true, false, Option, none, some, List, [], ◌∷◌, map, ◌==◌, str_eq,
  if◌then◌else◌,
}
use webtool.Result.{Result, ok, err}
use webtool.Throttle.Rule.{LimitRule, limit_rule, RuleSet, add_rules}
use webtool.Throttle.Closure.{
  Function, Functions, Search, found, missing, raised, running, has_rules,
  find_closure_rules_function,
}

-- The heap: the function objects, the rules of each manager, and the number of the next manager.
pub record Heap : Type 0 where
  pub functions : Functions
  pub managers : ℕ → List LimitRule
  pub next : ℕ

-- The arguments of `limiter`.
pub record Arguments : Type 0 where
  pub max_requests : ℕ
  pub interval : ℕ
  pub throttle_key : Option String
  pub method : Option (List String)
  pub scopes : Option (List String)

-- `setattr(func, THROTTLE_RULE_ATTR_NAME, ...)`
abbrev pub set_rules : ℕ → Option ℕ → Functions → Functions
set_rules f m fs g = if g == f then record (fs f) { rules = m } else fs g

abbrev pub update : ℕ → List LimitRule → (ℕ → List LimitRule) → ℕ → List LimitRule
update m rules ms k = if k == m then rules else ms k

-- `throttle_key or ...`; the empty text is false.
abbrev pub key_or : Option String → String → String
key_or none k = k
key_or (some t) k = if str_eq t "" then k else t

-- `scopes or []`
abbrev pub list_or : Option (List String) → List String
list_or none = []
list_or (some l) = l

-- `digest` stands for the hexadecimal SHA-256 of the function's module and name, the interval, and
-- the two lists; `upper` is `str.upper`.
module _ (digest : Function → ℕ → Option (List String) → Option (List String) → String)
    (upper : String → String) (a : Arguments) where
  -- `new_rule`, named after the function that holds the rules.
  unfoldable pub new_rule : Function → LimitRule
  new_rule named =
      limit_rule a.max_requests a.interval
        (key_or a.throttle_key (digest named a.interval a.method a.scopes))
        (map upper (list_or a.method)) (list_or a.scopes)

  module _ (sets : RuleSet) where
    -- `getattr(func, THROTTLE_RULE_ATTR_NAME).add_rules(new_rule)`
    abbrev add_to : Option ℕ → LimitRule → Heap → Heap
    add_to none rule h = h
    add_to (some m) rule h = record h {
      managers = update m (add_rules sets (h.managers m) rule) h.managers;
    }

    -- The two branches on `exist_func`. A function with the attribute keeps its own manager.
    unfoldable pub attach : ℕ → Search → Heap → Option (Result Heap)
    attach func (found exist) h =
        let shared =
          if has_rules h.functions func
          then (h.functions func).rules
          else (h.functions exist).rules in
        some (
          ok (
            add_to shared (new_rule (h.functions exist))
              (record h { functions = set_rules func shared h.functions })))
    attach func missing h = some (
        ok (
          add_to (some h.next) (new_rule (h.functions func)) (record {
            functions = set_rules func (some h.next) h.functions;
            managers = update h.next [] h.managers;
            next = suc h.next;
          })))
    attach func (raised e) h = some (err e)
    attach func running h = none

    -- `decorator`; `none` stands for a search that has not ended.
    unfoldable pub decorator : ℕ → ℕ → Heap → Option (Result Heap)
    unfolding attach
    decorator fuel func h = attach func (find_closure_rules_function h.functions fuel func) h
