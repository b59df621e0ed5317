-- ===== src/Prelude/Dict.antt =====
-- Python's `dict` with text keys: an association list in insertion order. An assignment to a key
-- that is present replaces its value in place; a new key goes to the end.
use mathlib.Core.Path.{◌≡◌, refl}
use mathlib.Core.Bool.{Bool, true, false}
use mathlib.Core.Option.{Option, none, some}
use mathlib.Core.List.{List, [], ◌∷◌}
use Prim.Native.String.{String}
use native.Mathlib.Omega.{arith}
use text.Mathlib.Text.{◌==◌}
use text.Mathlib.TextEquality.{eq_iff}
use Prim.Native.Nat.{◌+◌, ◌≤◌}
use mathlib.Core.Logic.{◌≢◌}
use webtool.Prelude.Tests.{if◌then◌else◌}
use webtool.Prelude.Lists.{length}

abbrev pub Dict {ℓ} : Type ℓ → Type ℓ
Dict V = List (String × V)

module _ {ℓ} {V : Type ℓ} where
  unfoldable pub lookup : String → Dict V → Option V
  lookup k [] = none
  lookup k ((j, v) ∷ m) = if j == k then some v else lookup k m

  unfoldable pub insert : String → V → Dict V → Dict V
  insert k v [] = (k, v) ∷ []
  insert k v ((j, w) ∷ m) = if j == k then (j, v) ∷ m else (j, w) ∷ insert k v m

  -- `d.pop(k)`, without its result.
  unfoldable pub remove : String → Dict V → Dict V
  remove k [] = []
  remove k ((j, v) ∷ m) = let rest = remove k m in if j == k then rest else (j, v) ∷ rest

  -- `{k: v for k, v in d.items() if p(v)}`
  unfoldable pub select : (V → Bool) → Dict V → Dict V
  select p [] = []
  select p ((j, v) ∷ m) = let rest = select p m in if p v then (j, v) ∷ rest else rest

  pub lookup-insert :
      (new asked : String) (value : V) (pairs : Dict V)
      → lookup asked (insert new value pairs)
        ≡ (if new == asked then some value else lookup asked pairs)
  unfolding lookup insert
  lookup-insert new asked value [] = refl
  lookup-insert new asked value ((first, old) ∷ pairs) =
      let later = lookup-insert new asked value pairs in
      ground (arith, later, eq_iff first asked, eq_iff first new, eq_iff new asked)

  pub lookup-remove :
      (k j : String) (m : Dict V) → lookup j (remove k m) ≡ (if k == j then none else lookup j m)
  unfolding lookup remove
  lookup-remove k j [] = ground arith
  lookup-remove k j ((i, v) ∷ m) =
      ground (arith, lookup-remove k j m, eq_iff i k, eq_iff i j, eq_iff k j)

  -- The keys of a `dict` are distinct.
  abbrev pub IsFresh : String → Dict V → Type 0
  IsFresh k [] = Unit
  IsFresh k ((j, v) ∷ m) = ((j == k) ≡ false) × IsFresh k m

  abbrev pub HasDistinctKeys : Dict V → Type 0
  HasDistinctKeys [] = Unit
  HasDistinctKeys ((j, v) ∷ m) = IsFresh j m × HasDistinctKeys m

  abbrev pub filter_value : (V → Bool) → Option V → Option V
  filter_value p none = none
  filter_value p (some v) = if p v then some v else none

  pub lookup_of_IsFresh : (k : String) (m : Dict V) → IsFresh k m → lookup k m ≡ none
  unfolding lookup
  lookup_of_IsFresh k [] h = refl
  lookup_of_IsFresh k ((j, v) ∷ m) h = ground (arith, lookup_of_IsFresh k m h.1)

  IsFresh-select : (p : V → Bool) (k : String) (m : Dict V) → IsFresh k m → IsFresh k (select p m)
  unfolding select
  IsFresh-select p k [] h = tt
  IsFresh-select p k ((j, v) ∷ m) h = ground (arith, IsFresh-select p k m h.1)

  IsFresh-remove : (k j : String) (m : Dict V) → IsFresh k m → IsFresh k (remove j m)
  unfolding remove
  IsFresh-remove k j [] h = tt
  IsFresh-remove k j ((i, v) ∷ m) h = ground (arith, IsFresh-remove k j m h.1)

  IsFresh-insert :
      (k j : String) (v : V) (m : Dict V)
      → (j == k) ≡ false
      → IsFresh k m
      → IsFresh k (insert j v m)
  unfolding insert
  IsFresh-insert k j v [] e h = (e, tt)
  IsFresh-insert k j v ((i, w) ∷ m) e h = ground (arith, IsFresh-insert k j v m e h.1)

  pub HasDistinctKeys-select :
      (p : V → Bool) (m : Dict V) → HasDistinctKeys m → HasDistinctKeys (select p m)
  unfolding select
  HasDistinctKeys-select p [] h = tt
  HasDistinctKeys-select p ((j, v) ∷ m) h =
      ground (arith, HasDistinctKeys-select p m h.1, IsFresh-select p j m h.0)

  pub HasDistinctKeys-remove :
      (k : String) (m : Dict V) → HasDistinctKeys m → HasDistinctKeys (remove k m)
  unfolding remove
  HasDistinctKeys-remove k [] h = tt
  HasDistinctKeys-remove k ((j, v) ∷ m) h =
      ground (arith, HasDistinctKeys-remove k m h.1, IsFresh-remove j k m h.0)

  pub HasDistinctKeys-insert :
      (k : String) (v : V) (m : Dict V) → HasDistinctKeys m → HasDistinctKeys (insert k v m)
  unfolding insert
  HasDistinctKeys-insert k v [] h = (tt, tt)
  HasDistinctKeys-insert k v ((j, w) ∷ m) h =
      ground
        (arith, HasDistinctKeys-insert k v m h.1, IsFresh-insert j k v m, eq_iff j k, eq_iff k j)

  pub lookup-select :
      (p : V → Bool) (k : String) (m : Dict V)
      → HasDistinctKeys m
      → lookup k (select p m) ≡ filter_value p (lookup k m)
  unfolding lookup select
  lookup-select p k [] h = refl
  lookup-select p k ((j, v) ∷ m) h =
      ground (arith, lookup-select p k m h.1, lookup_of_IsFresh j m h.0, eq_iff j k)

  -- A new key goes to the end; an old one keeps its place.
  pub length-select-insert :
      (p : V → Bool) (k : String) (v : V) (m : Dict V)
      → lookup k m ≡ none
      → length (select p (insert k v m)) ≡ length (select p m) + (if p v then 1 else 0)
  unfolding lookup insert select
  length-select-insert p k v [] h = ground arith
  length-select-insert p k v ((j, w) ∷ m) h = ground (arith, length-select-insert p k v m)

  pub select-select :
      (p q : V → Bool) (m : Dict V)
      → ((v : V) → p v ≡ true → q v ≡ true)
      → select p (select q m) ≡ select p m
  unfolding select
  select-select p q [] h = refl
  select-select p q ((j, w) ∷ m) h = ground (arith, select-select p q m h, h w)

  pub length-select_mono :
      (p q : V → Bool) (m : Dict V)
      → ((v : V) → p v ≡ true → q v ≡ true)
      → length (select p m) ≤ length (select q m)
  unfolding select
  length-select_mono p q [] h = omega arith
  length-select_mono p q ((j, w) ∷ m) h = ground (arith, length-select_mono p q m h, h w)

  pub insert-ne-nil : (k : String) (v : V) (m : Dict V) → insert k v m ≢ []
  unfolding insert
  insert-ne-nil k v [] = ground arith
  insert-ne-nil k v ((j, w) ∷ m) = ground arith

  pub lookup-cons :
      (k j : String) (v : V) (m : Dict V)
      → lookup j ((k, v) ∷ m) ≡ (if k == j then some v else lookup j m)
  unfolding lookup
  lookup-cons k j v m = refl
