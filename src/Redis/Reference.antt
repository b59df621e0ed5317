-- ===== src/Redis/Reference.antt =====
-- Sorted sets kept as association lists: a model of the laws of `SortedSets`, for concrete runs.
use webtool.Prelude.{
  ℕ, zero, suc, ◌≤◌, ◌<◌, String, ◌≡◌, ◌≢◌, refl, ◌∙◌, inl, inr, Bool-cases, not, Option, none,
  some, [], ◌∷◌, length, ltb, str_eq, eq_iff, eq_refl, arith, if◌then◌else◌,
}
use webtool.Prelude.Int.{ℤ}
use webtool.Prelude.Dict.{
  Dict, lookup, insert, select, HasDistinctKeys, HasDistinctKeys-select, HasDistinctKeys-insert,
  lookup_of_IsFresh, lookup-cons,
}
use webtool.Redis.SortedSets.{SortedSets, in_range}

pub record Sets : Type 0 where
  pub at : String → Dict ℕ
  pub distinct : (k : String) → HasDistinctKeys (at k)

abbrev pub empty : Sets
empty = record { at = λ k. []; distinct = λ k. tt }

-- The set at one key is replaced.
abbrev pub at_key : String → Dict ℕ → (String → Dict ℕ) → String → Dict ℕ
at_key k z f j = if str_eq k j then z else f j

pub at_key-distinct :
    (k : String) (z : Dict ℕ) (s : Sets)
    → HasDistinctKeys z
    → (j : String) → HasDistinctKeys (at_key k z s.at j)
at_key-distinct k z s d j = elim (Bool-cases (str_eq k j)) [
  | inl same ↦ rw same d
  | inr other ↦ rw other (s.distinct j)
]

abbrev pub put : String → (z : Dict ℕ) → HasDistinctKeys z → Sets → Sets
put k z d s = record { at = at_key k z s.at; distinct = at_key-distinct k z s d }

-- A member with the highest score.
unfoldable pub best : Dict ℕ → Option (String × ℕ)
best [] = none
best ((m, s) ∷ z) = elim (best z) [
  | none ↦ some (m, s)
  | some (m', s') ↦ if ltb s s' then some (m', s') else some (m, s)
]

record IsBest (z : Dict ℕ) (m : String) (s : ℕ) : Type 0 where
  listed : lookup m z ≡ some s
  highest : (j : String) (t : ℕ) → lookup j z ≡ some t → t ≤ s

best_cons :
    (m : String) (s : ℕ) (z : Dict ℕ) (m' : String) (s' : ℕ)
    → best z ≡ some (m', s')
    → best ((m, s) ∷ z) ≡ (if ltb s s' then some (m', s') else some (m, s))
unfolding best
best_cons m s z m' s' e = rw (e, best)

best_lem :
    (m₀ : String) (s₀ : ℕ) (z : Dict ℕ)
    → HasDistinctKeys ((m₀, s₀) ∷ z)
    → (m : String) × (s : ℕ) × (best ((m₀, s₀) ∷ z) ≡ some (m, s)) × IsBest ((m₀, s₀) ∷ z) m s
best_lem m₀ s₀ [] d = (
  m₀,
  s₀,
  unfold best in refl,
  record {
    listed = unfold lookup in rw (eq_refl m₀);
    highest = λ j t e. unfold lookup in ground arith;
  },
)
best_lem m₀ s₀ ((m₁, s₁) ∷ z) (f, d) =
    let (m, s, e, b) = best_lem m₁ s₁ z d in
    let fresh = lookup_of_IsFresh m₀ ((m₁, s₁) ∷ z) f in
    elim (Bool-cases (ltb s₀ s)) [
      | inl less ↦ (
        m,
        s,
        best_cons m₀ s₀ ((m₁, s₁) ∷ z) m s e ∙ rw less,
        record {
          listed = ground (arith, lookup-cons m₀ m s₀ ((m₁, s₁) ∷ z), eq_iff m₀ m, fresh, b.listed);
          highest = λ j t h. ground (arith, lookup-cons m₀ j s₀ ((m₁, s₁) ∷ z), b.highest j t);
        },
      )
      | inr most ↦ (
        m₀,
        s₀,
        best_cons m₀ s₀ ((m₁, s₁) ∷ z) m s e ∙ rw most,
        record {
          listed = ground (arith, lookup-cons m₀ m₀ s₀ ((m₁, s₁) ∷ z), eq_refl m₀);
          highest = λ j t h. ground (arith, lookup-cons m₀ j s₀ ((m₁, s₁) ∷ z), b.highest j t);
        },
      )
    ]

abbrev pub first_of : Option (String × ℕ) → Option String
first_of none = none
first_of (some (m, s)) = some m

pub best_of_members :
    (z : Dict ℕ)
    → HasDistinctKeys z
    → z ≢ []
    → (m : String) × (s : ℕ) × (first_of (best z) ≡ some m)
      × (lookup m z ≡ some s)
      × ((j : String) (t : ℕ) → lookup j z ≡ some t → t ≤ s)
best_of_members [] d h = absurd (h refl)
best_of_members ((m₀, s₀) ∷ z) d h =
    let (m, s, e, b) = best_lem m₀ s₀ z d in (m, s, rw e, b.listed, b.highest)

abbrev pub live_members : ℕ → ℤ → Dict ℕ → Dict ℕ
live_members lo hi z = select (λ s. not (in_range lo hi s)) z

pub reference_zrem :
    (k : String) (lo : ℕ) (hi : ℤ) (db : Sets) (j : String)
    → at_key k (live_members lo hi (db.at k)) db.at j
      ≡ (if str_eq k j then live_members lo hi (db.at j) else db.at j)
reference_zrem k lo hi db j = elim (Bool-cases (str_eq k j)) [
  | inl same ↦ rw (same, (eq_iff k j).0 same)
  | inr other ↦ rw other
]

pub reference_zadd :
    (k : String) (s : ℕ) (m : String) (db : Sets) (j : String)
    → at_key k (insert m s (db.at k)) db.at j
      ≡ (if str_eq k j then insert m s (db.at j) else db.at j)
reference_zadd k s m db j = elim (Bool-cases (str_eq k j)) [
  | inl same ↦ rw (same, (eq_iff k j).0 same)
  | inr other ↦ rw other
]

-- `EXPIRE`: a key lives on, or is deleted at once if it is given no time.
unfoldable pub reference_expire : String → ℕ → Sets → Sets
reference_expire k zero db = put k [] tt db
reference_expire k (suc n) db = db

pub reference_expire_positive :
    (k : String) (n : ℕ) (db : Sets) (j : String) → 0 < n → (reference_expire k n db).at j ≡ db.at j
unfolding reference_expire
reference_expire_positive k zero db j h = elim h [ ]
reference_expire_positive k (suc n) db j h = refl

pub reference_expire_zero :
    (k : String) (db : Sets) (j : String)
    → (reference_expire k 0 db).at j ≡ (if str_eq k j then [] else db.at j)
unfolding reference_expire
reference_expire_zero k db j = refl

pub reference_first_of_empty : (z : Dict ℕ) → z ≡ [] → first_of (best z) ≡ none
unfolding best
reference_first_of_empty z e = rw e

abbrev pub reference : SortedSets
reference = record {
  Db = Sets;
  zset = λ db k. db.at k;
  zremrangebyscore = λ k lo hi db.
      put k (live_members lo hi (db.at k)) (HasDistinctKeys-select _ (db.at k) (db.distinct k)) db;
  zcard = λ k db. length (db.at k);
  zadd = λ k s m db.
      put k (insert m s (db.at k)) (HasDistinctKeys-insert m s (db.at k) (db.distinct k)) db;
  expire = reference_expire;
  zrevrange_first = λ k db. first_of (best (db.at k));
  zset_distinct = λ db k. db.distinct k;
  zset-zremrangebyscore = reference_zrem;
  zcard_lem = λ k db. refl;
  zset-zadd = reference_zadd;
  zset-expire = reference_expire_positive;
  zset-expire_zero = reference_expire_zero;
  first_of_empty = λ k db e. reference_first_of_empty (db.at k) e;
  first_of_members = λ k db h. best_of_members (db.at k) (db.distinct k) h;
}
