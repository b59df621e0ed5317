-- ===== src/Prelude/Lists.antt =====
-- Lists measured by native numbers, and Boolean and universal quantifiers over lists.
use Prim.Native.Nat.{ℕ, suc, ◌+◌, ◌≤◌}
use Prim.Native.String.{String}
use mathlib.Core.Path.{◌≡◌, refl}
use mathlib.Core.Bool.{Bool, true, false, ◌&&◌, ◌||◌}
use mathlib.Core.List.{List, [], ◌∷◌, ◌++◌}
use native.Mathlib.Omega.{arith}
use mathlib.Core.Logic.{◌⊎◌, ◌↔◌, inl, inr}
use text.Mathlib.Text.{◌==◌ as str_eq}
use text.Mathlib.TextEquality.{eq_iff}
use webtool.Prelude.Tests.{if◌then◌else◌}

module _ {ℓ} {A : Type ℓ} where
  abbrev pub length : List A → ℕ
  length [] = 0
  length (x ∷ xs) = suc (length xs)

  abbrev pub all : (A → Bool) → List A → Bool
  all p [] = true
  all p (x ∷ xs) = p x && all p xs

  abbrev pub any : (A → Bool) → List A → Bool
  any p [] = false
  any p (x ∷ xs) = p x || any p xs

  -- The elements that pass a Boolean test, in order.
  abbrev pub keep : (A → Bool) → List A → List A
  keep p [] = []
  keep p (x ∷ xs) = let rest = keep p xs in if p x then x ∷ rest else rest

  pub length-append : (xs ys : List A) → length (xs ++ ys) ≡ length xs + length ys
  length-append [] ys = omega arith
  length-append (x ∷ xs) ys = omega (arith, length-append xs ys)

  pub length-keep : (p : A → Bool) (xs : List A) → length (keep p xs) ≤ length xs
  length-keep p [] = omega arith
  length-keep p (x ∷ xs) = ground (arith, length-keep p xs)

module _ {ℓ κ} {A : Type ℓ} (P : A → Type κ) where
  abbrev pub All : List A → Type κ
  All [] = Unit
  All (x ∷ xs) = P x × All xs

  pub All-append : (xs ys : List A) → All xs → All ys → All (xs ++ ys)
  All-append [] ys _ k = k
  All-append (x ∷ xs) ys (p, h) k = (p, All-append xs ys h k)

-- Membership of a text in a list of texts.
abbrev pub elem : String → List String → Bool
elem k [] = false
elem k (x ∷ xs) = str_eq k x || elem k xs

-- Membership, by recursion, so that the tactics read it.
abbrev pub In : {A : Type 0} → A → List A → Type 0
In a [] = ⊥
In a (x ∷ xs) = (a ≡ x) ⊎ In a xs

pub elem→In : (k : String) (xs : List String) → elem k xs ≡ true → In k xs
elem→In k [] h = cc
elem→In k (x ∷ xs) h = ground (arith, eq_iff k x, elem→In k xs)

pub In→elem : (k : String) (xs : List String) → In k xs → elem k xs ≡ true
In→elem k [] h = absurd h
In→elem k (x ∷ xs) h = ground (arith, eq_iff k x, In→elem k xs)

pub In-append : {A : Type 0} (a : A) (xs ys : List A) → In a (xs ++ ys) ↔ (In a xs ⊎ In a ys)
In-append a [] ys = (λ i. inr i, λ i. elim i [ inl n ↦ absurd n | inr j ↦ j ])
In-append a (x ∷ xs) ys =
    let (to, from) = In-append a xs ys in
    (
      λ i. elim i [
        | inl e ↦ inl (inl e)
        | inr j ↦ elim (to j) [ inl k ↦ inl (inr k) | inr k ↦ inr k ]
      ],
      λ i. elim i [
        | inl (inl e) ↦ inl e
        | inl (inr j) ↦ inr (from (inl j))
        | inr j ↦ inr (from (inr j))
      ],
    )

pub length-keep_mono {ℓ} :
    {A : Type ℓ} (p q : A → Bool) (xs : List A)
    → ((a : A) → p a ≡ true → q a ≡ true)
    → length (keep p xs) ≤ length (keep q xs)
length-keep_mono p q [] h = omega arith
length-keep_mono p q (x ∷ xs) h = ground (arith, length-keep_mono p q xs h, h x)

module _ {A : Type 0} (P : A → Type 0) where
  pub All-In : (xs : List A) (a : A) → All P xs → In a xs → P a
  All-In [] a h i = absurd i
  All-In (x ∷ xs) a (p, h) (inl e) = rw e p
  All-In (x ∷ xs) a (p, h) (inr i) = All-In xs a h i

  pub All-of_In : (xs : List A) → ((a : A) → In a xs → P a) → All P xs
  All-of_In [] h = tt
  All-of_In (x ∷ xs) h = (h x (inl refl), All-of_In xs (λ a i. h a (inr i)))

pub All_mono :
    {A : Type 0} {P Q : A → Type 0} (xs : List A) → ((a : A) → P a → Q a) → All P xs → All Q xs
All_mono [] h a = tt
All_mono (x ∷ xs) h (p, a) = (h x p, All_mono xs h a)
