-- ===== src/Logging/Handler/Deletes.antt =====
-- The files that a rollover deletes: the first ones in the order of names.
use webtool.Prelude.{
  ℕ, suc, ◌+◌, ◌-◌, String, ◌≡◌, ◌≢◌, ◌↔◌, refl, ap, ◌∙◌, Bool, true, inl, inr, Bool-cases, List,
  [], ◌∷◌, keep, length, In, ltb, str_eq, eq_iff, arith, if◌then◌else◌,
}
use webtool.Prelude.Dict.{remove, HasDistinctKeys, IsFresh, HasDistinctKeys-remove}
use webtool.Prelude.Order.{str_leb, sort, In-sort, length-sort, sort-IsSorted}
use webtool.Prelude.Take.{
  take, In-take, In-take_or_drop, length-take, take_before_drop, In-keep, IsDistinct,
  IsDistinct-keep, IsDistinct-take, IsDistinct-sort,
}
use webtool.Logging.Files.{Directory, listdir, remove_all}
use webtool.Logging.Handler.{Handler, listed, oldest, get_files_to_delete}

-- The listing of a directory, whose names are distinct.
IsFresh-listdir : (k : String) (d : Directory) → IsFresh k d → ¬ In k (listdir d)
unfolding listdir
IsFresh-listdir k [] h i = i
IsFresh-listdir k ((j, f) ∷ d) h (inl e) = ground (arith, eq_iff j k, e, h.0)
IsFresh-listdir k ((j, f) ∷ d) h (inr i) = IsFresh-listdir k d h.1 i

listdir-IsDistinct : (d : Directory) → HasDistinctKeys d → IsDistinct (listdir d)
unfolding listdir
listdir-IsDistinct [] h = tt
listdir-IsDistinct ((j, f) ∷ d) h = (IsFresh-listdir j d h.0, listdir-IsDistinct d h.1)

In-listdir-remove :
    (k j : String) (d : Directory) → In j (listdir (remove k d)) ↔ (In j (listdir d) × (j ≢ k))
unfolding listdir remove
In-listdir-remove k j [] = (λ i. absurd i, λ i. absurd i.0)
In-listdir-remove k j ((n, f) ∷ d) =
    let same = In-listdir-remove k j d in
    elim (Bool-cases (str_eq n k)) [
      | inl gone ↦ rw gone (
        λ i. (inr (same.0 i).0, (same.0 i).1),
        λ i. elim i.0 [
          | inl e ↦ absurd (i.1 (e ∙ (eq_iff n k).0 gone))
          | inr i' ↦ same.1 (i', i.1)
        ],
      )
      | inr left ↦ rw left (
        λ i. elim i [
          | inl e ↦ (inl e, λ q. ground (arith, eq_iff n k, e, q, left))
          | inr i' ↦ (inr (same.0 i').0, (same.0 i').1)
        ],
        λ i. elim i.0 [ inl e ↦ inl e | inr i' ↦ inr (same.1 (i', i.1)) ],
      )
    ]

remove_fresh : (k : String) (d : Directory) → IsFresh k d → listdir (remove k d) ≡ listdir d
unfolding listdir remove
remove_fresh k [] h = refl
remove_fresh k ((n, f) ∷ d) h = rw (h.0, remove_fresh k d h.1) refl

-- One file fewer passes a test after the removal of one that passes it.
length-remove :
    (p : String → Bool) (k : String) (d : Directory)
    → HasDistinctKeys d
    → p k ≡ true
    → In k (listdir d)
    → length (keep p (listdir d)) ≡ suc (length (keep p (listdir (remove k d))))
unfolding listdir remove
length-remove p k [] h pk i = absurd i
length-remove p k ((n, f) ∷ d) h pk i = elim (Bool-cases (str_eq n k)) [
  | inl same ↦
      let e = (eq_iff n k).0 same in
      let pn : p n ≡ true = ap p e ∙ pk in
      let fresh : IsFresh k d = rw⁻¹ e h.0 in rw (pn, same, remove_fresh k d fresh) refl
  | inr other ↦ rw other (elim i [
    | inl e ↦ ground (arith, eq_iff n k, e)
    | inr i' ↦ ground (arith, length-remove p k d h.1 pk i')
  ])
]

length-remove_all :
    (p : String → Bool) (ks : List String) (d : Directory)
    → HasDistinctKeys d
    → IsDistinct ks
    → ((k : String) → In k ks → In k (listdir d) × (p k ≡ true))
    → length (keep p (listdir d)) ≡ length ks + length (keep p (listdir (remove_all ks d)))
unfolding remove_all
length-remove_all p [] d h distinct all = omega arith
length-remove_all p (k ∷ ks) d h (fresh, distinct) all =
    let (there, pk) = all k (inl refl) in
    let rest = length-remove_all p ks (remove k d) (HasDistinctKeys-remove k d h) distinct (λ j i. (
      (In-listdir-remove k j d).1 ((all j (inr i)).0, λ e. fresh (rw⁻¹ e i)),
      (all j (inr i)).1,
    )) in
    omega (arith, length-remove p k d h pk there, rest)

In-listdir-remove_all :
    (ks : List String) (j : String) (d : Directory)
    → In j (listdir (remove_all ks d))
    → In j (listdir d) × (¬ In j ks)
unfolding remove_all
In-listdir-remove_all [] j d i = (i, λ n. n)
In-listdir-remove_all (k ∷ ks) j d i =
    let (there, apart) = In-listdir-remove_all ks j (remove k d) i in
    let (there', other) = (In-listdir-remove k j d).0 there in
    (there', λ n. elim n [ inl e ↦ other e | inr n' ↦ apart n' ])

oldest-take :
    (n : ℕ) (result : List String) → oldest n result ≡ take (length result - n) (sort result)
oldest-take n result = elim (Bool-cases (ltb (length result) n)) [
  | inl few ↦ let none_left : length result - n ≡ 0 = ground arith in rw (few, none_left) refl
  | inr many ↦ rw many refl
]

-- The files that `getFilesToDelete` lists are dated files of the log in the directory. When they
-- are deleted, as many dated files are left as the backup count says, or all if there were fewer,
-- and each deleted one comes before each that is left in the order of names.
pub get_files_to_delete_lem :
    (h : Handler) (d : Directory)
    → HasDistinctKeys d
    → ((j : String) → In j (get_files_to_delete (h, d)) → In j (listdir d) × (listed h j ≡ true))
      × (length (keep (listed h) (listdir (remove_all (get_files_to_delete (h, d)) d))) ≡ (
          if ltb (length (keep (listed h) (listdir d))) h.backup_count
          then length (keep (listed h) (listdir d))
          else h.backup_count))
      × ((j k : String)
          → In j (get_files_to_delete (h, d))
          → In k (listdir (remove_all (get_files_to_delete (h, d)) d))
          → listed h k ≡ true
          → str_leb j k ≡ true)
unfolding get_files_to_delete
get_files_to_delete_lem h d distinct =
    let p = listed h in
    let names = keep p (listdir d) in
    let n = length names - h.backup_count in
    let ks = take n (sort names) in
    let dated : (j : String) → In j ks → In j (listdir d) × (p j ≡ true) =
      λ j i. (In-keep p j (listdir d)).0 ((In-sort j names).0 (In-take n j (sort names) i)) in
    let count =
      length-remove_all p ks d distinct
        (IsDistinct-take n (sort names)
          (IsDistinct-sort names (IsDistinct-keep p (listdir d) (listdir-IsDistinct d distinct))))
        dated in
    let taken = length-take n (sort names) (rw (length-sort names) (omega arith)) in
    rw (oldest-take h.backup_count names) (
      dated,
      ground (arith, count, taken),
      λ j k i i' q.
          let (there, kept) = In-listdir-remove_all ks k d i' in
          let sorted_in = (In-sort k names).1 ((In-keep p k (listdir d)).1 (there, q)) in
          elim (In-take_or_drop n k (sort names) sorted_in) [
            | inl gone ↦ absurd (kept gone)
            | inr rest ↦ take_before_drop n (sort names) j k (sort-IsSorted names) i rest
          ],
    )
