-- ===== src/Throttle/Limiter/Quota.antt =====
-- The promise of the limiter: over any sequence of requests, the number that one rule allows in any
-- window is at most its limit, and it refuses none before the limit is reached.
use native.Mathlib.Nat.{le_trans, le_refl}
use webtool.Prelude.{
  ℕ, ◌+◌, ◌≤◌, ◌<◌, String, ◌≡◌, refl, sym, ap, ◌∙◌, inl, inr, Bool, true, false, Bool-cases, ◌&&◌,
  Option-cases, none, some, List, [], ◌∷◌, leb, ltb, leb→le, length, keep, length-keep_mono, All,
  arith, eq_iff, if◌then◌else◌,
}
use webtool.Prelude.Dict.{
  Dict, lookup, select, HasDistinctKeys, HasDistinctKeys-select, HasDistinctKeys-insert,
  filter_value, lookup-select, lookup-insert, length-select-insert, select-select,
  length-select_mono,
}
use webtool.Throttle.Limiter.{NumberText}
use webtool.Throttle.Limiter.Script.{counts, current, recorded, amount_of}

length-keep_cons {ℓ} :
    {A : Type ℓ} (p : A → Bool) (x : A) (xs : List A)
    → length (keep p (x ∷ xs)) ≤ length (keep p xs) + 1
length-keep_cons p x xs = ground arith

-- A time within the window that ends at `u`.
abbrev pub within : ℕ → ℕ → ℕ → Bool
within u window a = leb a u && ltb u (a + window)

module _ (numbers : NumberText) (limit window : ℕ) where
  open numbers use {tostring, float, float-tostring}

  -- The set of a key after requests up to `t`, of which `allowed` were allowed.
  pub record Inv (z : Dict ℕ) (t : ℕ) (requests allowed : List ℕ) : Type 0 where
    pub distinct : HasDistinctKeys z
    pub past : All (λ a. a ≤ t) allowed
    pub stamped : (k : String) (s : ℕ) → lookup k z ≡ some s → (k ≡ tostring s) × (s ≤ t)
    pub enough :
        (u : ℕ) → t ≤ u → length (keep (counts u window) allowed) ≤ length (current u window z)
    pub known :
        (u : ℕ) → t ≤ u → length (current u window z) ≤ length (keep (counts u window) requests)
    pub quota : (u : ℕ) → length (keep (within u window) allowed) ≤ limit

  tostring-injective : (a b : ℕ) → tostring a ≡ tostring b → a ≡ b
  tostring-injective a b e = sym (float-tostring a) ∙ ap float e ∙ float-tostring b

  -- A later time is not yet in the set.
  is_new :
      {z : Dict ℕ} {t : ℕ} {requests allowed : List ℕ} (now : ℕ)
      → Inv z t requests allowed
      → t < now
      → lookup (tostring now) z ≡ none
  is_new {z} now inv h = elim (Option-cases (lookup (tostring now) z)) [
    | inl e ↦ e
    | inr (s, e) ↦
        let (same, old) = inv.stamped (tostring now) s e in
        absurd (omega (arith, tostring-injective now s same))
  ]

  later : (now u : ℕ) → now ≤ u → (s : ℕ) → counts u window s ≡ true → counts now window s ≡ true
  later now u h s c = ground arith

  current-current :
      (now u : ℕ) (z : Dict ℕ)
      → now ≤ u
      → current u window (current now window z) ≡ current u window z
  current-current now u z h = select-select (counts u window) (counts now window) z (later now u h)

  -- What still counts later of the set after a request.
  length-recorded :
      {z : Dict ℕ} {t : ℕ} {requests allowed : List ℕ} (now u : ℕ)
      → Inv z t requests allowed
      → t < now
      → now ≤ u
      → length (current u window (recorded now (tostring now) limit window z))
        ≡ length (current u window z)
          + (if leb (length (current now window z)) limit && counts u window now then 1 else 0)
  unfolding recorded
  length-recorded {z} now u inv h g =
      elim (Bool-cases (leb (length (current now window z)) limit)) [
        | inl room ↦
            let fresh : lookup (tostring now) (current now window z) ≡ none =
              lookup-select (counts now window) (tostring now) z inv.distinct
              ∙ ap (filter_value (counts now window)) (is_new now inv h) in
            rw (
              room,
              length-select-insert (counts u window) (tostring now) now (current now window z)
                  fresh,
              current-current now u z g,
            )
        | inr full ↦ rw (full, current-current now u z g) (omega arith)
      ]

  recorded_stamped :
      {z : Dict ℕ} {t : ℕ} {requests allowed : List ℕ} (now : ℕ)
      → Inv z t requests allowed
      → t < now
      → (k : String) (s : ℕ) → lookup k (recorded now (tostring now) limit window z) ≡ some s
      → (k ≡ tostring s) × (s ≤ now)
  unfolding recorded
  recorded_stamped {z} now inv h k s e = ground (
    arith,
    lookup-insert (tostring now) k now (current now window z),
    lookup-select (counts now window) k z inv.distinct,
    eq_iff (tostring now) k,
    inv.stamped k s,
  )

  recorded-HasDistinctKeys :
      (now : ℕ) (z : Dict ℕ)
      → HasDistinctKeys z
      → HasDistinctKeys (recorded now (tostring now) limit window z)
  unfolding recorded
  recorded-HasDistinctKeys now z d =
      let d' = HasDistinctKeys-select (counts now window) z d in
      elim (Bool-cases (leb (length (current now window z)) limit)) [
        | inl room ↦ rw room (HasDistinctKeys-insert (tostring now) now (current now window z) d')
        | inr full ↦ rw full d'
      ]

  All-later : (t now : ℕ) (l : List ℕ) → t ≤ now → All (λ a. a ≤ t) l → All (λ a. a ≤ now) l
  All-later t now [] h p = tt
  All-later t now (a ∷ l) h (p, ps) = (le_trans p h, All-later t now l h ps)

  -- An allowed request leaves room for itself in its window.
  room_of_allowed :
      (now : ℕ) (z : Dict ℕ)
      → amount_of now limit window z ≤ limit
      → (leb (length (current now window z)) limit ≡ true)
        × (length (current now window z) + 1 ≤ limit)
  unfolding amount_of
  room_of_allowed now z h = ground arith

  within→counts : (u a : ℕ) → within u window a ≡ true → counts u window a ≡ true
  within→counts u a h = ground arith

  quota_of_allowed :
      {z : Dict ℕ} {t : ℕ} {requests allowed : List ℕ} (now : ℕ)
      → Inv z t requests allowed
      → t < now
      → amount_of now limit window z ≤ limit
      → (u : ℕ) → length (keep (within u window) (now ∷ allowed)) ≤ limit
  quota_of_allowed {z} {allowed} now inv h fits u = elim (Bool-cases (leb now u)) [
    | inl later' ↦ omega (
      arith,
      (room_of_allowed now z fits).1,
      length-select_mono (counts u window) (counts now window) z
          (later now u (leb→le now u later')),
      inv.enough u (le_trans (omega arith) (leb→le now u later')),
      length-keep_mono (within u window) (counts u window) allowed (within→counts u),
      length-keep_cons (within u window) now allowed,
    )
    | inr earlier ↦ rw earlier (inv.quota u)
  ]

  pub Inv-recorded :
      {z : Dict ℕ} {t : ℕ} {requests allowed : List ℕ} (now : ℕ) (denied : Bool)
      → Inv z t requests allowed
      → t < now
      → (denied ≡ false → amount_of now limit window z ≤ limit)
      → Inv
          (recorded now (tostring now) limit window z)
          now
          (now ∷ requests)
          (if denied then allowed else now ∷ allowed)
  Inv-recorded {z} {t} {requests} {allowed} now true inv h fits = record {
    distinct = recorded-HasDistinctKeys now z inv.distinct;
    past = All-later t now allowed (omega arith) inv.past;
    stamped = recorded_stamped now inv h;
    enough = λ u g. omega (arith, length-recorded now u inv h g, inv.enough u (omega arith));
    known = λ u g. ground (arith, length-recorded now u inv h g, inv.known u (omega arith));
    quota = inv.quota;
  }
  Inv-recorded {z} {t} {requests} {allowed} now false inv h fits = record {
    distinct = recorded-HasDistinctKeys now z inv.distinct;
    past = (le_refl now, All-later t now allowed (omega arith) inv.past);
    stamped = recorded_stamped now inv h;
    enough = λ u g. ground (
      arith,
      length-recorded now u inv h g,
      inv.enough u (omega arith),
      (room_of_allowed now z (fits refl)).0,
    );
    known = λ u g. ground (arith, length-recorded now u inv h g, inv.known u (omega arith));
    quota = quota_of_allowed now inv h (fits refl);
  }

  keep_of_past :
      (t now u : ℕ) (l : List ℕ)
      → t + window ≤ now
      → now ≤ u
      → All (λ a. a ≤ t) l
      → length (keep (counts u window) l) ≤ 0
  keep_of_past t now u [] h g p = omega arith
  keep_of_past t now u (a ∷ l) h g (p, ps) = ground (arith, keep_of_past t now u l h g ps)

  pub Inv-nil :
      {z : Dict ℕ} {t : ℕ} {requests allowed : List ℕ} (now : ℕ)
      → Inv z t requests allowed
      → t + window ≤ now
      → Inv [] now requests allowed
  Inv-nil {t} {allowed} now inv h = record {
    distinct = tt;
    past = All-later t now allowed (omega arith) inv.past;
    stamped = λ k s e. unfold lookup in cc;
    enough = λ u g. unfold select in keep_of_past t now u allowed h g inv.past;
    known = λ u g. unfold select in omega arith;
    quota = inv.quota;
  }

  pub Inv-start : (t : ℕ) → Inv [] t [] []
  Inv-start t = record {
    distinct = tt;
    past = tt;
    stamped = λ k s e. unfold lookup in cc;
    enough = λ u g. unfold select in omega arith;
    known = λ u g. unfold select in omega arith;
    quota = λ u. omega arith;
  }

  -- Fewer requests than the limit, allowed or not, leave room.
  pub amount_of_few :
      {z : Dict ℕ} {t : ℕ} {requests allowed : List ℕ} (now : ℕ)
      → Inv z t requests allowed
      → t < now
      → length (keep (counts now window) requests) < limit
      → amount_of now limit window z ≤ limit
  unfolding amount_of
  amount_of_few now inv h few = ground (arith, inv.known now (omega arith))
