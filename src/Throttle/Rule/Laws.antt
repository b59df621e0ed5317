-- ===== src/Throttle/Rule/Laws.antt =====
-- When a rule applies to a request, in terms of the arguments that the rule was made from.
use webtool.Prelude.{
  ℕ, String, ◌≡◌, ◌≢◌, ◌↔◌, ◌⊎◌, inl, inr, refl, Bool, true, false, not, ◌&&◌, Bool-cases, Option,
  none, some, List, [], ◌∷◌, elem, In, elem→In, In→elem, arith,
}
use webtool.Prelude.Dict.{lookup}
use webtool.Result.{ok, err, type_error}
use webtool.Auth.Models.{Value, Payload, AuthData}
use webtool.Throttle.Rule.{
  LimitRule, limit_rule, granted, set_of, is_empty, not_in, side, is_enabled,
}
use webtool.Throttle.Rule.Parts.{
  meets→In, In→meets, needed, In-needed, NamesSide, elem-false, not-In→elem, passes→of_method,
  of_method→passes, is_empty_of, not-In_of_is_empty, Fits, decide_sound, decide_complete,
  decide_raises, not_empty_of,
}

module _ (max_requests interval : ℕ) (key : String) (methods scopes : List String) where
  abbrev made : LimitRule
  made = limit_rule max_requests interval key methods scopes

  side_iff : (is_user : Bool) → (side made is_user ≡ true) ↔ NamesSide is_user scopes
  unfolding limit_rule
  side_iff true = (
    λ h. elim (Bool-cases (elem "user" scopes)) [
      | inl named ↦ inl (elem→In "user" scopes named)
      | inr other ↦ inr (elem-false "anno" scopes (ground arith))
    ],
    λ h. elim h [
      | inl named ↦ ground (arith, In→elem "user" scopes named)
      | inr neither ↦ ground (arith, not-In→elem "anno" scopes neither)
    ],
  )
  side_iff false = (
    λ h. elim (Bool-cases (elem "anno" scopes)) [
      | inl named ↦ inl (elem→In "anno" scopes named)
      | inr other ↦ inr (elem-false "user" scopes (ground arith))
    ],
    λ h. elim h [
      | inl named ↦ ground (arith, In→elem "anno" scopes named)
      | inr neither ↦ ground (arith, not-In→elem "user" scopes neither)
    ],
  )

  -- The request's method is one of those that the rule is made for, or the rule is for all.
  abbrev pub OfMethod : Option String → Type 0
  OfMethod method = (methods ≡ []) ⊎ ((m : String) × (method ≡ some m) × In m methods)

  -- No scope but "user" and "anno" is asked for, or the payload grants one of those that are.
  abbrev pub OfScope : AuthData → Type 0
  OfScope auth =
      ((s : String) → ¬ (In s scopes × (s ≢ "user") × (s ≢ "anno")))
      ⊎ ((s : String) × (g : List String) × In s scopes
          × (s ≢ "user")
          × (s ≢ "anno")
          × (set_of (granted auth) ≡ ok g)
          × In s g)

  method_iff :
      (method : Option String)
      → ((not (is_empty methods) && not_in method methods) ≡ false) ↔ OfMethod method
  method_iff method = (passes→of_method methods method, of_method→passes methods method)

  OfScope-of :
      (auth : AuthData)
      → Fits (is_empty (needed scopes)) (set_of (granted auth)) (needed scopes)
      → OfScope auth
  OfScope-of auth (inl none_needed) =
      inl (λ s h. not-In_of_is_empty s (needed scopes) none_needed ((In-needed s scopes).1 h))
  OfScope-of auth (inr (g, e, m)) =
      let (s, asked, given) = meets→In (needed scopes) g m in
      let (listed, nu, na) = (In-needed s scopes).0 asked in inr (s, g, listed, nu, na, e, given)

  OfScope-Fits :
      (auth : AuthData)
      → OfScope auth
      → Fits (is_empty (needed scopes)) (set_of (granted auth)) (needed scopes)
  OfScope-Fits auth (inl nothing) =
      inl (is_empty_of (needed scopes) (λ s i. nothing s ((In-needed s scopes).0 i)))
  OfScope-Fits auth (inr (s, g, asked, nu, na, e, i)) =
      inr (g, e, In→meets s (needed scopes) g ((In-needed s scopes).1 (asked, nu, na)) i)

  -- The rule applies exactly if its method, its scopes and its side all fit the request.
  pub is_enabled_iff :
      (method : Option String) (is_user : Bool) (auth : AuthData)
      → (is_enabled made method is_user auth ≡ ok true)
        ↔ (OfMethod method × OfScope auth × NamesSide is_user scopes)
  unfolding is_enabled limit_rule
  is_enabled_iff method is_user auth =
      let (method_to, method_from) = method_iff method in
      let (side_to, side_from) = side_iff is_user in
      (
        λ h.
            let (open', fits, side_ok) = decide_sound _ _ _ (needed scopes) _ h in
            (method_to open', OfScope-of auth fits, side_to side_ok),
        λ h.
            decide_complete _ _ _ (needed scopes) _ (method_from h.0) (OfScope-Fits auth h.1)
              (side_from h.2),
      )

  -- A payload that is not empty and has no "scope" makes a rule whose methods fit the request and
  -- that asks for a scope other than "user" and "anno" raise `TypeError`, for users and others.
  pub is_enabled_no_scope :
      (method : Option String) (is_user : Bool) (auth : AuthData) (e : String × Value)
      (es : Payload) (s : String)
      → OfMethod method
      → In s scopes
      → s ≢ "user"
      → s ≢ "anno"
      → auth.data' ≡ some (e ∷ es)
      → lookup "scope" (e ∷ es) ≡ none
      → is_enabled made method is_user auth ≡ err type_error
  unfolding is_enabled limit_rule
  is_enabled_no_scope method is_user auth e es s m asked nu na d missing =
      let unmet : set_of (granted auth) ≡ err type_error =
        unfold granted set_of in rw (d, missing) refl in
      decide_raises _ _ _ (needed scopes) _ ((method_iff method).1 m)
        (not_empty_of s (needed scopes) ((In-needed s scopes).1 (asked, nu, na))) unmet
