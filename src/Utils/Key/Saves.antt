-- ===== src/Utils/Key/Saves.antt =====
-- `_save_key`: it ends, and it takes a name that no file has.
use webtool.Prelude.{
  ℕ, zero, suc, ◌<◌, ◌≡◌, ◌≢◌, String, refl, sym, ◌∙◌, inl, inr, true, false, Bool-cases, not, some,
  List, [], ◌∷◌, elem, length, keep, length-keep, str_eq, eq_iff, arith,
}
use webtool.Utils.Key.{save_loop, save_key}

abbrev without : String → List String → List String
without k files = keep (λ f. not (str_eq k f)) files

length-without :
    (k : String) (files : List String)
    → elem k files ≡ true
    → length (without k files) < length files
length-without k [] h = ground arith
length-without k (f ∷ files) h =
    ground (arith, length-without k files, length-keep (λ f. not (str_eq k f)) files)

elem-without :
    (k j : String) (files : List String) → k ≢ j → elem j (without k files) ≡ elem j files
elem-without k j [] ne = refl
elem-without k j (f ∷ files) ne = ground (arith, elem-without k j files ne, eq_iff k f, eq_iff j f)

module _ (name : ℕ → String) (name-injective : (i j : ℕ) → name i ≡ name j → i ≡ j) where
  save_loop-without :
      (fuel counter k : ℕ) (files : List String)
      → k < counter
      → save_loop name fuel counter (without (name k) files) ≡ save_loop name fuel counter files
  unfolding save_loop
  save_loop-without zero counter k files lt = refl
  save_loop-without (suc fuel) counter k files lt =
      rw
        (
          save_loop,
          elem-without (name k) (name counter) files
              (λ e. let same = name-injective k counter e in omega arith),
          save_loop-without fuel (suc counter) k files (omega arith),
        )
        refl

  save_loop_ends :
      (fuel counter : ℕ) (files : List String)
      → length files < fuel
      → (n : ℕ) × (save_loop name fuel counter files ≡ some (name n))
  unfolding save_loop
  save_loop_ends zero counter files lt = ground arith
  save_loop_ends (suc fuel) counter files lt = elim (Bool-cases (elem (name counter) files)) [
    | inl taken ↦
        let (n, e) =
          save_loop_ends fuel (suc counter) (without (name counter) files)
            (omega (arith, length-without (name counter) files taken)) in
        (
          n,
          rw (save_loop, taken)
              (sym (save_loop-without fuel (suc counter) counter files (omega arith)) ∙ e),
        )
    | inr free ↦ (counter, rw (save_loop, free) refl)
  ]

save_loop_fresh :
    (name : ℕ → String) (fuel counter : ℕ) (files : List String) (n : String)
    → save_loop name fuel counter files ≡ some n
    → elem n files ≡ false
unfolding save_loop
save_loop_fresh name zero counter files n h = cc
save_loop_fresh name (suc fuel) counter files n h =
    ground (arith, save_loop_fresh name fuel (suc counter) files n)

-- With names that differ for different counters, `_save_key` ends within one round more than there
-- are files, and the file that it writes did not exist.
pub save_key_ends :
    (name : ℕ → String) (fuel : ℕ) (files : List String)
    → ((i j : ℕ) → name i ≡ name j → i ≡ j)
    → length files < fuel
    → (n : ℕ) × (save_key name fuel files ≡ some (name n)) × (elem (name n) files ≡ false)
unfolding save_key
save_key_ends name fuel files injective lt =
    let (n, e) = save_loop_ends name injective fuel 1 files lt in
    (n, e, save_loop_fresh name fuel 1 files (name n) e)
