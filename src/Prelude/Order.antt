-- ===== src/Prelude/Order.antt =====
-- The order of texts, by the numbers of their characters, and the sort of a list of texts.
use Prim.Native.Nat.{suc, Ordering, compare as compare_ℕ}
use Prim.Native.Char.{code}
use Prim.Native.String.{String}
use mathlib.Core.Path.{◌≡◌, refl, ap, ◌∙◌}
use mathlib.Core.Logic.{◌⊎◌, ◌↔◌, inl, inr}
use mathlib.Core.Bool.{Bool, true, false}
use mathlib.Core.List.{List, [], ◌∷◌}
use native.Mathlib.Omega.{arith}
use webtool.Prelude.Tests.{if◌then◌else◌, Bool-cases}
use webtool.Prelude.Lists.{length, In, All, All-In, All-of_In}

-- `s <= t`
unfoldable pub str_leb : String → String → Bool
str_leb String.[] t = true
str_leb (String.◌∷◌ c s) String.[] = false
str_leb (String.◌∷◌ c s) (String.◌∷◌ d t) =
    let rest = str_leb s t in
    elim (compare_ℕ (code c) (code d)) [
      | Ordering.lt ↦ true
      | Ordering.eq ↦ rest
      | Ordering.gt ↦ false
    ]

pub str_leb_total : (s t : String) → (str_leb s t ≡ true) ⊎ (str_leb t s ≡ true)
unfolding str_leb
str_leb_total String.[] t = inl refl
str_leb_total (String.◌∷◌ c s) String.[] = inr refl
str_leb_total (String.◌∷◌ c s) (String.◌∷◌ d t) = ground (arith, str_leb_total s t)

pub str_leb_trans : (s t u : String) → str_leb s t ≡ true → str_leb t u ≡ true → str_leb s u ≡ true
unfolding str_leb
str_leb_trans String.[] t u h k = refl
str_leb_trans (String.◌∷◌ c s) String.[] u h k = ground arith
str_leb_trans (String.◌∷◌ c s) (String.◌∷◌ d t) String.[] h k = ground arith
str_leb_trans (String.◌∷◌ c s) (String.◌∷◌ d t) (String.◌∷◌ e u) h k =
    ground (arith, str_leb_trans s t u)

abbrev pub insert_text : String → List String → List String
insert_text k [] = k ∷ []
insert_text k (x ∷ xs) = let rest = insert_text k xs in if str_leb k x then k ∷ x ∷ xs else x ∷ rest

-- `result.sort()`
unfoldable pub sort : List String → List String
sort [] = []
sort (x ∷ xs) = insert_text x (sort xs)

abbrev pub IsSorted : List String → Type 0
IsSorted [] = Unit
IsSorted (x ∷ xs) = All (λ y. str_leb x y ≡ true) xs × IsSorted xs

pub In-insert_text :
    (j k : String) (xs : List String) → In j (insert_text k xs) ↔ ((j ≡ k) ⊎ In j xs)
In-insert_text j k [] = (λ i. i, λ i. i)
In-insert_text j k (x ∷ xs) =
    let same = In-insert_text j k xs in
    elim (Bool-cases (str_leb k x)) [
      | inl le ↦ rw le (λ i. i, λ i. i)
      | inr gt ↦ rw gt (
        λ i. elim i [
          | inl e ↦ inr (inl e)
          | inr later ↦ elim (same.0 later) [ inl e ↦ inl e | inr i' ↦ inr (inr i') ]
        ],
        λ i. elim i [
          | inl e ↦ inr (same.1 (inl e))
          | inr (inl e) ↦ inl e
          | inr (inr i') ↦ inr (same.1 (inr i'))
        ],
      )
    ]

pub In-sort : (j : String) (xs : List String) → In j (sort xs) ↔ In j xs
unfolding sort
In-sort j [] = (λ i. i, λ i. i)
In-sort j (x ∷ xs) =
    let same = In-insert_text j x (sort xs) in
    let below = In-sort j xs in
    (
      λ i. elim (same.0 i) [ inl e ↦ inl e | inr i' ↦ inr (below.0 i') ],
      λ i. elim i [ inl e ↦ same.1 (inl e) | inr i' ↦ same.1 (inr (below.1 i')) ],
    )

length-insert_text : (k : String) (xs : List String) → length (insert_text k xs) ≡ suc (length xs)
length-insert_text k [] = refl
length-insert_text k (x ∷ xs) = ground (arith, length-insert_text k xs)

pub length-sort : (xs : List String) → length (sort xs) ≡ length xs
unfolding sort
length-sort [] = refl
length-sort (x ∷ xs) = length-insert_text x (sort xs) ∙ ap suc (length-sort xs)

insert_text-IsSorted : (k : String) (xs : List String) → IsSorted xs → IsSorted (insert_text k xs)
insert_text-IsSorted k [] h = (tt, tt)
insert_text-IsSorted k (x ∷ xs) (least, h) = elim (Bool-cases (str_leb k x)) [
  | inl le ↦
      rw le
        ((le, All-of_In _ xs (λ a i. str_leb_trans k x a le (All-In _ xs a least i))), (least, h))
  | inr gt ↦ rw gt (
    All-of_In _ (insert_text k xs) (λ a i. elim ((In-insert_text a k xs).0 i) [
      | inl e ↦ elim (str_leb_total x k) [ inl le ↦ rw e le | inr le ↦ ground arith ]
      | inr i' ↦ All-In _ xs a least i'
    ]),
    insert_text-IsSorted k xs h,
  )
]

pub sort-IsSorted : (xs : List String) → IsSorted (sort xs)
unfolding sort
sort-IsSorted [] = tt
sort-IsSorted (x ∷ xs) = insert_text-IsSorted x (sort xs) (sort-IsSorted xs)
