-- ===== src/Cache/InMemory/Spec.antt =====
-- The contract of `InMemoryCache`: a map from keys to entries in which nothing is ever purged.
-- Each reply of the cache, to any sequence of calls along the clock, is that of the map.
use webtool.Prelude.{
  is_some, ℕ, ◌≤◌, String, ◌≡◌, refl, ap, ◌∙◌, Bool, ◌&&◌, inl, inr, Bool-cases, Option-cases,
  Option, none, some, List, [], ◌∷◌, arith, eq_iff, if◌then◌else◌,
}
use text.Mathlib.Text.{◌==◌}
use mathlib.Core.Path.{ap₂}
use native.Mathlib.Nat.{le_trans}
use webtool.Prelude.Dict.{filter_value, lookup}
use webtool.Result.{Result, ok, err, key_error}
use webtool.Cache.InMemory.{
  Ex, Exat, Entry, InMemoryCache, live, expiry_of, init, set, value?, get, delete, aclose,
}
use webtool.Cache.InMemory.Laws.{
  IsValid, view, view_later, get_lem, set_lem, delete_lem, get-IsValid, set-IsValid, delete-IsValid,
}

-- A call with the readings of the clock that it makes.
pub data Call (V : Type 0) : Type 0 where
  get_call : String → ℕ → Call V
  set_call : String → V → Option Ex → Option Exat → Bool → ℕ → ℕ → Call V
  delete_call : String → ℕ → Call V
  aclose_call : Call V

pub data Reply (V : Type 0) : Type 0 where
  got : Option V → Reply V
  stored : Option (Entry V) → Reply V
  deleted : Result (Entry V) → Reply V
  closed : Reply V

-- The readings of a sequence of calls do not go back, from `t` on.
abbrev pub InOrder : {V : Type 0} → ℕ → List (Call V) → Type 0
InOrder t [] = Unit
InOrder t (get_call k now ∷ cs) = (t ≤ now) × InOrder now cs
InOrder t (set_call k v ex exat nx now now' ∷ cs) = (t ≤ now) × (now ≤ now') × InOrder now' cs
InOrder t (delete_call k now ∷ cs) = (t ≤ now) × InOrder now cs
InOrder t (aclose_call ∷ cs) = InOrder t cs

-- The map: the entry last written to each key, purged or not.
abbrev pub Spec : Type 0 → Type 0
Spec V = String → Option (Entry V)

module _ {V : Type 0} where
  unfoldable pub call : Call V → InMemoryCache V → InMemoryCache V × Reply V
  call (get_call k now) c = let (c', r) = get k now c in (c', got r)
  call (set_call k v ex exat nx now now') c =
      let (c', r) = set k v ex exat nx now now' c in (c', stored r)
  call (delete_call k now) c = let (c', r) = delete k now c in (c', deleted r)
  call aclose_call c = (aclose c, closed)

  unfoldable pub serve : InMemoryCache V → List (Call V) → List (Reply V)
  unfolding call
  serve c [] = []
  serve c (q ∷ qs) = (call q c).1 ∷ serve (call q c).0 qs

  abbrev update : Spec V → String → Option (Entry V) → Spec V
  update m k o j = if k == j then o else m j

  abbrev drop_live : Spec V → String → Option (Entry V) → Spec V × Result (Entry V)
  drop_live m k none = (m, err key_error)
  drop_live m k (some e) = (update m k none, ok e)

  unfoldable pub spec_call : Call V → Spec V → Spec V × Reply V
  spec_call (get_call k now) m = (m, got (value? (filter_value (live now) (m k))))
  spec_call (set_call k v ex exat nx now now') m =
      let e : Entry V = record { value = v; exp = expiry_of now' ex exat } in
      if nx && is_some (filter_value (live now) (m k))
      then (m, stored none)
      else (update m k (some e), stored (some e))
  spec_call (delete_call k now) m =
      let (m', r) = drop_live m k (filter_value (live now) (m k)) in (m', deleted r)
  spec_call aclose_call m = (λ k. none, closed)

  unfoldable pub spec_serve : Spec V → List (Call V) → List (Reply V)
  unfolding spec_call
  spec_serve m [] = []
  spec_serve m (q ∷ qs) = (spec_call q m).1 ∷ spec_serve (spec_call q m).0 qs

  -- From a time on, the cache shows what the map holds.
  record Shows (t : ℕ) (c : InMemoryCache V) (m : Spec V) : Type 0 where
    valid : IsValid c
    shows : (t' : ℕ) (k : String) → t ≤ t' → view c t' k ≡ filter_value (live t') (m k)

  get-Shows :
      (k : String) (t now : ℕ) (c : InMemoryCache V) (m : Spec V)
      → t ≤ now
      → Shows t c m
      → ((get k now c).1 ≡ value? (filter_value (live now) (m k))) × Shows now (get k now c).0 m
  get-Shows k t now c m h s =
      let (reply, later) = get_lem k now c s.valid in
      (
        rw (reply, s.shows now k h),
        record {
          valid = get-IsValid k now c s.valid;
          shows = λ t' j h'. rw (later j t' h') (s.shows t' j (le_trans h h'));
        },
      )

  set-Shows :
      (k : String) (v : V) (ex : Option Ex) (exat : Option Exat) (nx : Bool) (t now now' : ℕ)
      (c : InMemoryCache V) (m : Spec V)
      → t ≤ now
      → now ≤ now'
      → Shows t c m
      → ((call (set_call k v ex exat nx now now') c).1
          ≡ (spec_call (set_call k v ex exat nx now now') m).1)
        × Shows now'
            (set k v ex exat nx now now' c).0
            (spec_call (set_call k v ex exat nx now now') m).0
  unfolding call spec_call
  set-Shows k v ex exat nx t now now' c m h h' s =
      let (reply, later) = set_lem k v ex exat nx now now' c s.valid in
      let seen = s.shows now k h in
      elim (Bool-cases (nx && is_some (filter_value (live now) (m k)))) [
        | inl kept ↦ (
          rw (reply, seen, kept),
          record {
            valid = set-IsValid k v ex exat nx now now' c s.valid;
            shows = λ t' j g.
                rw (later j t' (le_trans h' g), seen, kept)
                  (s.shows t' j (le_trans h (le_trans h' g)));
          },
        )
        | inr new ↦ (
          rw (reply, seen, new),
          record {
            valid = set-IsValid k v ex exat nx now now' c s.valid;
            shows = λ t' j g.
                rw (later j t' (le_trans h' g), seen, new)
                  (ground (arith, s.shows t' j (le_trans h (le_trans h' g))));
          },
        )
      ]

  delete-Shows :
      (k : String) (t now : ℕ) (c : InMemoryCache V) (m : Spec V)
      → t ≤ now
      → Shows t c m
      → ((call (delete_call k now) c).1 ≡ (spec_call (delete_call k now) m).1)
        × Shows now (delete k now c).0 (spec_call (delete_call k now) m).0
  unfolding call spec_call
  delete-Shows k t now c m h s =
      let (found, missing, later) = delete_lem k now c s.valid in
      let seen = s.shows now k h in
      elim (Option-cases (filter_value (live now) (m k))) [
        | inl gone ↦ (
          rw (missing (seen ∙ gone), gone),
          record {
            valid = delete-IsValid k now c s.valid;
            shows = λ t' j g.
                rw (later j t' g, gone)
                  (ground (
                    arith,
                    eq_iff k j,
                    s.shows t' j (le_trans h g),
                    view_later now t' c k g (seen ∙ gone),
                  ));
          },
        )
        | inr (e, there) ↦ (
          rw (found e (seen ∙ there), there),
          record {
            valid = delete-IsValid k now c s.valid;
            shows =
                λ t' j g. rw (later j t' g, there) (ground (arith, s.shows t' j (le_trans h g)));
          },
        )
      ]

  aclose-Shows : (t : ℕ) (c : InMemoryCache V) → Shows t (aclose c) (λ k. none)
  unfolding aclose
  aclose-Shows t c = record { valid = tt; shows = λ t' k h. unfold view lookup in refl }

  serve-Shows :
      (t : ℕ) (c : InMemoryCache V) (m : Spec V) (qs : List (Call V))
      → InOrder t qs
      → Shows t c m
      → serve c qs ≡ spec_serve m qs
  unfolding serve spec_serve
  serve-Shows t c m [] o s = refl
  serve-Shows t c m (get_call k now ∷ qs) (h, o) s =
      let (reply, s') = get-Shows k t now c m h s in
      rw (reply, serve-Shows now (get k now c).0 m qs o s')
  serve-Shows t c m (set_call k v ex exat nx now now' ∷ qs) (h, h', o) s =
      let (reply, s') = set-Shows k v ex exat nx t now now' c m h h' s in
      ap₂ ◌∷◌ reply (serve-Shows now' _ _ qs o s')
  serve-Shows t c m (delete_call k now ∷ qs) (h, o) s =
      let (reply, s') = delete-Shows k t now c m h s in ap₂ ◌∷◌ reply (serve-Shows now _ _ qs o s')
  serve-Shows t c m (aclose_call ∷ qs) o s =
      ap (λ r. closed ∷ r) (serve-Shows t _ _ qs o (aclose-Shows t c))

  -- From the empty cache, every reply to a sequence of calls along the clock (reads, writes with
  -- and without `nx` and expiry, deletions with their `KeyError`, `aclose`) is that of the map.
  pub serve-eq-spec_serve :
      (t : ℕ) (qs : List (Call V)) → InOrder t qs → serve init qs ≡ spec_serve (λ k. none) qs
  serve-eq-spec_serve t qs o =
      serve-Shows t init (λ k. none) qs o
        (record { valid = unfold init in tt; shows = λ t' k h. unfold init view lookup in refl })
