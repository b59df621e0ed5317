-- ===== src/Throttle/Rule/Parts.antt =====
-- The tests that `is_enabled` makes, each by itself.
use webtool.Prelude.{
  String, ◌≡◌, ◌≢◌, ◌↔◌, ◌⊎◌, inl, inr, refl, sym, ◌∙◌, Bool, true, false, not, ◌&&◌, Bool-cases,
  Option, none, some, List, [], ◌∷◌, elem, In, elem→In, In→elem, str_eq, eq_iff, arith,
  if◌then◌else◌,
}
use webtool.Result.{Result, ok, err, type_error, ◌>>=◌}
use webtool.Throttle.Rule.{discard, meets, is_empty, not_in}

-- `discard` takes out its own element and nothing else.
pub In-discard : (k s : String) (xs : List String) → In s (discard k xs) ↔ (In s xs × (s ≢ k))
unfolding discard
In-discard k s [] = (λ h. absurd h, λ h. h.0)
In-discard k s (x ∷ xs) =
    let (to, from) = In-discard k s xs in
    elim (Bool-cases (str_eq x k)) [
      | inl same_text ↦ rw same_text (
        λ h. (inr (to h).0, (to h).1),
        λ h. elim h.0 [
          | inl here ↦ absurd (h.1 (here ∙ (eq_iff x k).0 same_text))
          | inr there ↦ from (there, h.1)
        ],
      )
      | inr other ↦ rw other (
        λ h. elim h [
          | inl here ↦ (inl here, λ e. cc ((eq_iff x k).1 (sym here ∙ e)))
          | inr there ↦ (inr (to there).0, (to there).1)
        ],
        λ h. elim h.0 [ inl here ↦ inl here | inr there ↦ inr (from (there, h.1)) ],
      )
    ]

pub meets→In : (xs ys : List String) → meets xs ys ≡ true → (s : String) × In s xs × In s ys
unfolding meets
meets→In [] ys h = cc
meets→In (x ∷ xs) ys h = elim (Bool-cases (elem x ys)) [
  | inl found ↦ (x, inl refl, elem→In x ys found)
  | inr other ↦ let (s, there, h') = meets→In xs ys (rw other at h) in (s, inr there, h')
]

pub In→meets : (s : String) (xs ys : List String) → In s xs → In s ys → meets xs ys ≡ true
unfolding meets
In→meets s [] ys h k = absurd h
In→meets s (x ∷ xs) ys h k = ground (arith, In→elem s ys k, In→meets s xs ys)

-- The scopes that a rule is made from, without the two words for its sides.
abbrev pub needed : List String → List String
needed scopes = discard "anno" (discard "user" scopes)

pub In-needed :
    (s : String) (scopes : List String)
    → In s (needed scopes) ↔ (In s scopes × (s ≢ "user") × (s ≢ "anno"))
In-needed s scopes =
    let (to, from) = In-discard "anno" s (discard "user" scopes) in
    let (to', from') = In-discard "user" s scopes in
    (λ h. ((to' (to h).0).0, (to' (to h).0).1, (to h).1), λ h. from (from' (h.0, h.1), h.2))

-- Which side of users a list of scopes names: a side that it names, and both sides if it names
-- neither.
abbrev pub NamesSide : Bool → List String → Type 0
NamesSide true scopes = In "user" scopes ⊎ (¬ In "anno" scopes)
NamesSide false scopes = In "anno" scopes ⊎ (¬ In "user" scopes)

pub elem-false : (k : String) (xs : List String) → elem k xs ≡ false → ¬ In k xs
elem-false k xs h i = cc (In→elem k xs i)

pub not-In→elem : (k : String) (xs : List String) → (¬ In k xs) → elem k xs ≡ false
not-In→elem k xs h = elim (Bool-cases (elem k xs)) [
  | inl found ↦ absurd (h (elem→In k xs found))
  | inr missing ↦ missing
]

pub passes→of_method :
    (methods : List String) (method : Option String)
    → (not (is_empty methods) && not_in method methods) ≡ false
    → (methods ≡ []) ⊎ ((m : String) × (method ≡ some m) × In m methods)
passes→of_method [] method h = inl refl
passes→of_method (x ∷ xs) none h = cc
passes→of_method (x ∷ xs) (some m) h = inr (m, refl, elem→In m (x ∷ xs) (ground arith))

pub of_method→passes :
    (methods : List String) (method : Option String)
    → (methods ≡ []) ⊎ ((m : String) × (method ≡ some m) × In m methods)
    → (not (is_empty methods) && not_in method methods) ≡ false
of_method→passes methods method (inl e) = rw e
of_method→passes methods method (inr (m, e, i)) = rw e (ground (arith, In→elem m methods i))

-- Nothing is asked for exactly if the list is empty.
pub is_empty_of : (xs : List String) → ((s : String) → ¬ In s xs) → is_empty xs ≡ true
is_empty_of [] h = refl
is_empty_of (x ∷ xs) h = absurd (h x (inl refl))

pub not-In_of_is_empty : (s : String) (xs : List String) → is_empty xs ≡ true → ¬ In s xs
not-In_of_is_empty s [] h i = i
not-In_of_is_empty s (x ∷ xs) h i = cc

-- The body of `is_enabled` over the outcomes of its tests.
abbrev pub decide : Bool → Bool → Result (List String) → List String → Bool → Result Bool
decide blocked none_needed g asked on_side =
    if blocked
    then ok false
    else if none_needed
    then ok on_side
    else do scopes ← g; if not (meets asked scopes) then ok false else ok on_side

abbrev pub Fits : Bool → Result (List String) → List String → Type 0
Fits none_needed g asked =
    (none_needed ≡ true) ⊎ ((l : List String) × (g ≡ ok l) × (meets asked l ≡ true))

pub decide_sound :
    (blocked none_needed : Bool) (g : Result (List String)) (asked : List String) (on_side : Bool)
    → decide blocked none_needed g asked on_side ≡ ok true
    → (blocked ≡ false) × Fits none_needed g asked × (on_side ≡ true)
decide_sound true n g asked on_side h = cc
decide_sound false true g asked on_side h = (refl, inl refl, ground arith)
decide_sound false false (ok l) asked on_side h = (refl, inr (l, refl, ground arith), ground arith)
decide_sound false false (err e) asked on_side h = cc

pub decide_complete :
    (blocked none_needed : Bool) (g : Result (List String)) (asked : List String) (on_side : Bool)
    → blocked ≡ false
    → Fits none_needed g asked
    → on_side ≡ true
    → decide blocked none_needed g asked on_side ≡ ok true
decide_complete blocked n g asked on_side b (inl e) h = ground arith
decide_complete blocked n g asked on_side b (inr (l, e, m)) h = ground arith

pub decide_raises :
    (blocked none_needed : Bool) (g : Result (List String)) (asked : List String) (on_side : Bool)
    → blocked ≡ false
    → none_needed ≡ false
    → g ≡ err type_error
    → decide blocked none_needed g asked on_side ≡ err type_error
decide_raises blocked n g asked on_side b e h = rw (b, e, h)

pub not_empty_of : (s : String) (xs : List String) → In s xs → is_empty xs ≡ false
not_empty_of s [] h = absurd h
not_empty_of s (x ∷ xs) h = refl
