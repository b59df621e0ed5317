-- ===== src/Throttle/Middleware/Sorting.antt =====
-- The sort of the deny list: the last tuple has the longest time until the reset.
use webtool.Prelude.{
  ◌≡◌, ◌≢◌, inl, inr, refl, Bool, true, false, Bool-cases, ◌||◌, some, List, [], ◌∷◌, any, All, In,
  All-In, All-of_In, arith,
}
use webtool.Prelude.Int.{ℤ, ltb_ℤ, ◌≤ℤ◌}
use webtool.Throttle.Limiter.{Deny}
use webtool.Throttle.Middleware.{insert_deny, sort_denies, last?}

abbrev IsSorted : List Deny → Type 0
IsSorted [] = Unit
IsSorted (d ∷ ds) = All (λ e. d.reset ≤ℤ e.reset) ds × IsSorted ds

ℤ_refl : (a : ℤ) → a ≤ℤ a
ℤ_refl a = omega arith

All-weaken :
    (d e : Deny) (es : List Deny)
    → d.reset ≤ℤ e.reset
    → All (λ x. e.reset ≤ℤ x.reset) es
    → All (λ x. d.reset ≤ℤ x.reset) es
All-weaken d e [] h a = tt
All-weaken d e (x ∷ es) h (p, a) = (omega arith, All-weaken d e es h a)

-- A property of all survives an insertion, both ways.
All-insert_deny :
    (P : Deny → Type 0) (d : Deny) (ds : List Deny) → P d → All P ds → All P (insert_deny d ds)
unfolding insert_deny
All-insert_deny P d [] p h = (p, tt)
All-insert_deny P d (e ∷ es) p (q, h) = elim (Bool-cases (ltb_ℤ e.reset d.reset)) [
  | inl less ↦ rw less (q, All-insert_deny P d es p h)
  | inr other ↦ rw other (p, (q, h))
]

insert_less :
    (d e : Deny) (es : List Deny)
    → ltb_ℤ e.reset d.reset ≡ true
    → insert_deny d (e ∷ es) ≡ e ∷ insert_deny d es
unfolding insert_deny
insert_less d e es h = rw h

insert_other :
    (d e : Deny) (es : List Deny)
    → ltb_ℤ e.reset d.reset ≡ false
    → insert_deny d (e ∷ es) ≡ d ∷ e ∷ es
unfolding insert_deny
insert_other d e es h = rw h

All-of_insert_deny :
    (P : Deny → Type 0) (d : Deny) (ds : List Deny) → All P (insert_deny d ds) → P d × All P ds
All-of_insert_deny P d [] h = unfold insert_deny in h
All-of_insert_deny P d (e ∷ es) h = elim (Bool-cases (ltb_ℤ e.reset d.reset)) [
  | inl less ↦
      let h' : P e × All P (insert_deny d es) = rw (insert_less d e es less) at h in
      let (p, k) = All-of_insert_deny P d es h'.1 in (p, (h'.0, k))
  | inr other ↦ rw (insert_other d e es other) at h
]

insert_deny-IsSorted : (d : Deny) (ds : List Deny) → IsSorted ds → IsSorted (insert_deny d ds)
insert_deny-IsSorted d [] s = unfold insert_deny in (tt, tt)
insert_deny-IsSorted d (e ∷ es) (first, s) = elim (Bool-cases (ltb_ℤ e.reset d.reset)) [
  | inl less ↦ rw (insert_less d e es less) (
    All-insert_deny (λ x. e.reset ≤ℤ x.reset) d es (ground arith) first,
    insert_deny-IsSorted d es s,
  )
  | inr other ↦
      let d≤e : d.reset ≤ℤ e.reset = ground arith in
      rw (insert_other d e es other) ((d≤e, All-weaken d e es d≤e first), (first, s))
]

sort_denies-IsSorted : (ds : List Deny) → IsSorted (sort_denies ds)
unfolding sort_denies
sort_denies-IsSorted [] = tt
sort_denies-IsSorted (d ∷ ds) = insert_deny-IsSorted d (sort_denies ds) (sort_denies-IsSorted ds)

All-sort_denies : (P : Deny → Type 0) (ds : List Deny) → All P ds → All P (sort_denies ds)
unfolding sort_denies
All-sort_denies P [] h = tt
All-sort_denies P (d ∷ ds) (p, h) = All-insert_deny P d (sort_denies ds) p (All-sort_denies P ds h)

All-of_sort_denies : (P : Deny → Type 0) (ds : List Deny) → All P (sort_denies ds) → All P ds
unfolding sort_denies
All-of_sort_denies P [] h = tt
All-of_sort_denies P (d ∷ ds) h =
    let (p, k) = All-of_insert_deny P d (sort_denies ds) h in (p, All-of_sort_denies P ds k)

-- A test holds of some tuple of the sorted list exactly if it does of the list.
any-insert_deny :
    (p : Deny → Bool) (d : Deny) (ds : List Deny) → any p (insert_deny d ds) ≡ (p d || any p ds)
any-insert_deny p d [] = unfold insert_deny in refl
any-insert_deny p d (e ∷ es) = elim (Bool-cases (ltb_ℤ e.reset d.reset)) [
  | inl less ↦ rw (insert_less d e es less, any-insert_deny p d es) (ground arith)
  | inr other ↦ rw (insert_other d e es other)
]

pub any-sort_denies : (p : Deny → Bool) (ds : List Deny) → any p (sort_denies ds) ≡ any p ds
unfolding sort_denies
any-sort_denies p [] = refl
any-sort_denies p (d ∷ ds) = rw (any-insert_deny p d (sort_denies ds), any-sort_denies p ds)

last_lem :
    (ds : List Deny)
    → IsSorted ds
    → (d : Deny) → last? ds ≡ some d
    → In d ds × All (λ e. e.reset ≤ℤ d.reset) ds
unfolding last?
last_lem [] s d h = cc
last_lem (x ∷ []) s d h = let same : x ≡ d = cc in rw same (inl refl, (ℤ_refl d.reset, tt))
last_lem (x ∷ y ∷ ds) ((le, _), s) d h =
    let (i, (le', rest)) = last_lem (y ∷ ds) s d h in (inr i, (omega arith, (le', rest)))

insert_deny-ne-nil : (d : Deny) (ds : List Deny) → insert_deny d ds ≢ []
insert_deny-ne-nil d [] = unfold insert_deny in ground arith
insert_deny-ne-nil d (e ∷ es) = unfold insert_deny in ground arith

last_some : (ds : List Deny) → ds ≢ [] → (d : Deny) × (last? ds ≡ some d)
unfolding last?
last_some [] h = absurd (h refl)
last_some (x ∷ []) h = (x, refl)
last_some (x ∷ y ∷ ds) h = last_some (y ∷ ds) (λ e. cc)

-- The last of the sorted list is one of the tuples, and no other has a longer time until its reset.
pub last-sort_denies :
    (ds : List Deny)
    → ds ≢ []
    → (d : Deny) × (last? (sort_denies ds) ≡ some d) × In d ds × All (λ e. e.reset ≤ℤ d.reset) ds
last-sort_denies [] h = absurd (h refl)
last-sort_denies (x ∷ xs) h =
    let (d, e) =
      last_some (sort_denies (x ∷ xs))
        (unfold sort_denies in insert_deny-ne-nil x (sort_denies xs)) in
    let (i, le) = last_lem (sort_denies (x ∷ xs)) (sort_denies-IsSorted (x ∷ xs)) d e in
    (
      d,
      e,
      All-In (λ y. In y (x ∷ xs)) (sort_denies (x ∷ xs)) d
          (All-sort_denies (λ y. In y (x ∷ xs)) (x ∷ xs)
            (All-of_In (λ y. In y (x ∷ xs)) (x ∷ xs) (λ y j. j)))
          i,
      All-of_sort_denies (λ y. y.reset ≤ℤ d.reset) (x ∷ xs) le,
    )
