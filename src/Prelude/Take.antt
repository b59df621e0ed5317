-- ===== src/Prelude/Take.antt =====
-- The first texts of a list and the rest of it, and lists without repetition.
use Prim.Native.Nat.{ℕ, zero, suc, ◌≤◌}
use Prim.Native.String.{String}
use mathlib.Core.Path.{◌≡◌, refl, sym, ap, ◌∙◌}
use mathlib.Core.Logic.{◌⊎◌, ◌↔◌, inl, inr}
use mathlib.Core.Bool.{Bool, true}
use mathlib.Core.List.{List, [], ◌∷◌}
use native.Mathlib.Omega.{arith}
use webtool.Prelude.Tests.{Bool-cases}
use webtool.Prelude.Lists.{length, In, All-In, keep}
use webtool.Prelude.Order.{str_leb, insert_text, sort, IsSorted, In-insert_text, In-sort}

abbrev pub take {ℓ} : {A : Type ℓ} → ℕ → List A → List A
take zero xs = []
take (suc n) [] = []
take (suc n) (x ∷ xs) = x ∷ take n xs

abbrev pub drop {ℓ} : {A : Type ℓ} → ℕ → List A → List A
drop zero xs = xs
drop (suc n) [] = []
drop (suc n) (x ∷ xs) = drop n xs

pub In-take : (n : ℕ) (j : String) (xs : List String) → In j (take n xs) → In j xs
In-take zero j xs i = absurd i
In-take (suc n) j [] i = i
In-take (suc n) j (x ∷ xs) (inl e) = inl e
In-take (suc n) j (x ∷ xs) (inr i) = inr (In-take n j xs i)

pub In-take_or_drop :
    (n : ℕ) (j : String) (xs : List String) → In j xs → In j (take n xs) ⊎ In j (drop n xs)
In-take_or_drop zero j xs i = inr i
In-take_or_drop (suc n) j [] i = absurd i
In-take_or_drop (suc n) j (x ∷ xs) (inl e) = inl (inl e)
In-take_or_drop (suc n) j (x ∷ xs) (inr i) = elim (In-take_or_drop n j xs i) [
  | inl a ↦ inl (inr a)
  | inr b ↦ inr b
]

pub length-take : (n : ℕ) (xs : List String) → n ≤ length xs → length (take n xs) ≡ n
length-take zero xs h = refl
length-take (suc n) [] h = ground arith
length-take (suc n) (x ∷ xs) h = ap suc (length-take n xs (omega arith))

In-drop : (n : ℕ) (j : String) (xs : List String) → In j (drop n xs) → In j xs
In-drop zero j xs i = i
In-drop (suc n) j [] i = i
In-drop (suc n) j (x ∷ xs) i = inr (In-drop n j xs i)

-- In a sorted list what is taken comes before what is left.
pub take_before_drop :
    (n : ℕ) (xs : List String) (a b : String)
    → IsSorted xs
    → In a (take n xs)
    → In b (drop n xs)
    → str_leb a b ≡ true
take_before_drop zero xs a b s i j = absurd i
take_before_drop (suc n) [] a b s i j = absurd i
take_before_drop (suc n) (x ∷ xs) a b (least, s) (inl e) j =
    rw e (All-In _ xs b least (In-drop n b xs j))
take_before_drop (suc n) (x ∷ xs) a b (least, s) (inr i) j = take_before_drop n xs a b s i j

pub In-keep :
    (p : String → Bool) (j : String) (xs : List String)
    → In j (keep p xs) ↔ (In j xs × (p j ≡ true))
In-keep p j [] = (λ i. absurd i, λ i. absurd i.0)
In-keep p j (x ∷ xs) =
    let same = In-keep p j xs in
    elim (Bool-cases (p x)) [
      | inl kept ↦ rw kept (
        λ i. elim i [
          | inl e ↦ (inl e, ap p e ∙ kept)
          | inr i' ↦ (inr (same.0 i').0, (same.0 i').1)
        ],
        λ i. elim i.0 [ inl e ↦ inl e | inr i' ↦ inr (same.1 (i', i.1)) ],
      )
      | inr left ↦ rw left (
        λ i. (inr (same.0 i).0, (same.0 i).1),
        λ i. elim i.0 [ inl e ↦ ground (arith, ap p e) | inr i' ↦ same.1 (i', i.1) ],
      )
    ]

abbrev pub IsDistinct : List String → Type 0
IsDistinct [] = Unit
IsDistinct (x ∷ xs) = (¬ In x xs) × IsDistinct xs

pub IsDistinct-keep :
    (p : String → Bool) (xs : List String) → IsDistinct xs → IsDistinct (keep p xs)
IsDistinct-keep p [] d = tt
IsDistinct-keep p (x ∷ xs) (fresh, d) = elim (Bool-cases (p x)) [
  | inl kept ↦ rw kept (λ i. fresh ((In-keep p x xs).0 i).0, IsDistinct-keep p xs d)
  | inr left ↦ rw left (IsDistinct-keep p xs d)
]

pub IsDistinct-take : (n : ℕ) (xs : List String) → IsDistinct xs → IsDistinct (take n xs)
IsDistinct-take zero xs d = tt
IsDistinct-take (suc n) [] d = tt
IsDistinct-take (suc n) (x ∷ xs) (fresh, d) =
    (λ i. fresh (In-take n x xs i), IsDistinct-take n xs d)

IsDistinct-insert_text :
    (k : String) (xs : List String) → ¬ In k xs → IsDistinct xs → IsDistinct (insert_text k xs)
IsDistinct-insert_text k [] fresh d = (λ i. i, tt)
IsDistinct-insert_text k (x ∷ xs) fresh (fresh', d) = elim (Bool-cases (str_leb k x)) [
  | inl le ↦ rw le (fresh, (fresh', d))
  | inr gt ↦ rw gt (
    λ i. elim ((In-insert_text x k xs).0 i) [ inl e ↦ fresh (inl (sym e)) | inr i' ↦ fresh' i' ],
    IsDistinct-insert_text k xs (λ i. fresh (inr i)) d,
  )
]

pub IsDistinct-sort : (xs : List String) → IsDistinct xs → IsDistinct (sort xs)
unfolding sort
IsDistinct-sort [] d = tt
IsDistinct-sort (x ∷ xs) (fresh, d) =
    IsDistinct-insert_text x (sort xs) (λ i. fresh ((In-sort x xs).0 i)) (IsDistinct-sort xs d)
