-- ===== src/Throttle/Rule/Manager.antt =====
-- Which rules of a manager apply.
use webtool.Prelude.{
  String, ◌≡◌, ◌↔◌, inl, inr, refl, ap, ◌∙◌, Bool, true, false, Bool-cases, Option, List, [], ◌∷◌,
  In, if◌then◌else◌,
}
use webtool.Result.{Result, ok, err, ok-injective, ◌>>=◌}
use webtool.Auth.Models.{AuthData}
use webtool.Throttle.Rule.{LimitRule, is_enabled, should_limit}

ok_false-true :
    (q r : LimitRule) (method : Option String) (is_user : Bool) (auth : AuthData)
    → r ≡ q
    → is_enabled q method is_user auth ≡ ok false
    → is_enabled r method is_user auth ≡ ok true
    → ⊥
ok_false-true q r method is_user auth e off on = cc

should_limit_inv :
    (m : Result Bool) (n : Result (List LimitRule)) (q : LimitRule) {found : List LimitRule}
    → (do enabled ← m; rules ← n; ok (if enabled then q ∷ rules else rules)) ≡ ok found
    → (enabled : Bool) × (rest : List LimitRule) × (m ≡ ok enabled)
      × (n ≡ ok rest)
      × ((if enabled then q ∷ rest else rest) ≡ found)
should_limit_inv (ok enabled) (ok rest) q h = (enabled, rest, refl, refl, ok-injective h)
should_limit_inv (ok enabled) (err e) q h = cc
should_limit_inv (err e) n q h = cc

-- Where no rule raises, the rules that apply are exactly those of the manager that are enabled.
pub In-should_limit :
    (rules found : List LimitRule) (method : Option String) (is_user : Bool) (auth : AuthData)
    → should_limit rules method is_user auth ≡ ok found
    → (r : LimitRule) → In r found ↔ (In r rules × (is_enabled r method is_user auth ≡ ok true))
unfolding should_limit
In-should_limit [] found method is_user auth h r =
    let same_list : [] ≡ found = ok-injective h in
    rw (← same_list) (λ i. absurd i, λ h'. absurd h'.0)
In-should_limit (q ∷ rules) found method is_user auth h r =
    let (enabled, rest, now, later, same_list) =
      should_limit_inv (is_enabled q method is_user auth) (should_limit rules method is_user auth) q
        h in
    let (to, from) = In-should_limit rules rest method is_user auth later r in
    rw (← same_list) (elim (Bool-cases enabled) [
      | inl on ↦ rw on (
        λ i. elim i [
          | inl e ↦ (inl e, rw e (now ∙ ap ok on))
          | inr i' ↦ (inr (to i').0, (to i').1)
        ],
        λ h'. elim h'.0 [ inl e ↦ inl e | inr i ↦ inr (from (i, h'.1)) ],
      )
      | inr off ↦ rw off (
        λ i. (inr (to i).0, (to i).1),
        λ h'. elim h'.0 [
          | inl e ↦ absurd (ok_false-true q r method is_user auth e (now ∙ ap ok off) h'.1)
          | inr i ↦ from (i, h'.1)
        ],
      )
    ])
