-- ===== src/Throttle/Rule.antt =====
-- webtool/throttle/decorator.py, `LimitRule` and `LimitRuleManager`. A set of texts is a list of
-- its members, and the rules of a manager are listed in the order in which they are visited.
pub mod Parts
pub mod Laws
pub mod Manager
mod Tests
use mathlib.Core.List.{Perm}
use Prim.Native.String
use webtool.Prelude.{
  ℕ, String, Bool, true, false, not, ◌&&◌, ◌||◌, Option, none, some, List, [], ◌∷◌, ◌++◌, elem, any,
  str_eq, if◌then◌else◌,
}
use webtool.Prelude.Dict.{lookup}
use webtool.Result.{Result, ok, err, type_error, ◌>>=◌}
use webtool.Auth.Models.{Value, null, text, number, texts, Payload, AuthData}

pub record LimitRule : Type 0 where
  pub max_requests : ℕ
  pub interval : ℕ
  pub throttle_key : String
  pub method : List String
  pub scopes : List String
  pub for_user : Bool
  pub for_anno : Bool

-- `==` on two truth values.
abbrev pub same : Bool → Bool → Bool
same true b = b
same false b = not b

-- `set.discard`
unfoldable pub discard : String → List String → List String
discard k [] = []
discard k (x ∷ xs) = let rest = discard k xs in if str_eq x k then rest else x ∷ rest

-- `LimitRule.__init__`
unfoldable pub limit_rule : ℕ → ℕ → String → List String → List String → LimitRule
unfolding discard
limit_rule max_requests interval throttle_key method scopes = record {
  max_requests = max_requests;
  interval = interval;
  throttle_key = throttle_key;
  method = method;
  scopes = discard "anno" (discard "user" scopes);
  for_user = elem "user" scopes || same (elem "user" scopes) (elem "anno" scopes);
  for_anno = elem "anno" scopes || same (elem "user" scopes) (elem "anno" scopes);
}

-- `auth_data.data.get("scope") if auth_data.data else []`
unfoldable pub granted : AuthData → Option Value
granted auth = elim auth.data' [
  | none ↦ some (texts [])
  | some [] ↦ some (texts [])
  | some (e ∷ es) ↦ lookup "scope" (e ∷ es)
]

-- The characters of a text, over which `set(text)` runs.
abbrev pub characters : String → List String
characters String.[] = []
characters (String.◌∷◌ c s) = String.◌∷◌ c String.[] ∷ characters s

-- `set(scopes)`, which raises for what cannot be iterated.
unfoldable pub set_of : Option Value → Result (List String)
set_of (some (texts l)) = ok l
set_of (some (text s)) = ok (characters s)
set_of _ = err type_error

-- `self.scopes.intersection(...)`, as a truth value.
unfoldable pub meets : List String → List String → Bool
meets xs ys = any (λ x. elem x ys) xs

abbrev pub is_empty {ℓ} : {A : Type ℓ} → List A → Bool
is_empty [] = true
is_empty (_ ∷ _) = false

-- `scope.get("method") not in self.method`
abbrev pub not_in : Option String → List String → Bool
not_in none xs = true
not_in (some m) xs = not (elem m xs)

-- The side that a rule is for, reached when the other tests have passed.
abbrev pub side : LimitRule → Bool → Bool
side r is_user = if is_user then r.for_user else r.for_anno

unfoldable pub is_enabled : LimitRule → Option String → Bool → AuthData → Result Bool
is_enabled r method is_user auth =
    if not (is_empty r.method) && not_in method r.method
    then ok false
    else if is_empty r.scopes
    then ok (side r is_user)
    else do
      scopes ← set_of (granted auth)
      if not (meets r.scopes scopes) then ok false else ok (side r is_user)

-- `LimitRuleManager.should_limit`
unfoldable pub should_limit :
    List LimitRule → Option String → Bool → AuthData → Result (List LimitRule)
should_limit [] method is_user auth = ok []
should_limit (r ∷ rs) method is_user auth = do
  enabled ← is_enabled r method is_user auth
  rules ← should_limit rs method is_user auth
  ok (if enabled then r ∷ rules else rules)

-- `set.add` of Python for rules, on the order in which a set is visited. They are hashed and compared
-- by identity: a new one is always added, and the members may come in any order afterwards.
pub record RuleSet : Type 0 where
  pub add : LimitRule → List LimitRule → List LimitRule
  pub add-Perm : (rule : LimitRule) (rules : List LimitRule) → Perm (add rule rules) (rule ∷ rules)

-- `LimitRuleManager.add_rules`
unfoldable pub add_rules : RuleSet → List LimitRule → LimitRule → List LimitRule
add_rules sets rules rule = sets.add rule rules
