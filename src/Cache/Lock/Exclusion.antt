-- ===== src/Cache/Lock/Exclusion.antt =====
-- Mutual exclusion by a lock over the in-memory cache, and where it ends.
use native.Mathlib.Nat.{le_trans}
use webtool.Prelude.{
  is_some, ℕ, zero, suc, ◌+◌, ◌≤◌, ◌<◌, String, ◌≡◌, ◌≢◌, ◌⊎◌, refl, Bool, true, false, not, Option,
  none, some, inl, inr, arith, eq_iff, eq_refl,
}
use webtool.Result.{ok, err, key_error}
use webtool.Cache.InMemory.{
  Ex, Exat, seconds, InMemoryCache, Entry, at, live, set, get, delete, expiry_of,
}
use webtool.Cache.InMemory.Laws.{
  IsValid, view, set_lem, get_lem, delete_lem, set-IsValid, get-IsValid, delete-IsValid,
}
use webtool.Cache.Lock.{BaseLock, attempt, release}

-- A positive number of seconds is an expiry so much later.
expiry_of_pos : (now n : ℕ) → 0 < n → expiry_of now (some (seconds n)) none ≡ at (now + n)
unfolding expiry_of
expiry_of_pos now zero h = elim h [ ]
expiry_of_pos now (suc n) h = refl

is_some_witness {ℓ} : {A : Type ℓ} (o : Option A) → is_some o ≡ true → (a : A) × (o ≡ some a)
is_some_witness none h = cc
is_some_witness (some a) h = (a, refl)

module _ {V : Type 0} (one : V) (sha256 : String → String) where
  pub record System : Type 0 where
    pub clock : ℕ
    pub cache : InMemoryCache V

  -- What tasks may do to the cache while another holds the lock of the stored key `k`: try to take
  -- any lock, read any key, write and delete other keys.
  pub data Step (k : String) (s u : System) : Type 0 where
    try_lock :
        (l : BaseLock) (now now' : ℕ)
        → s.clock ≤ now
        → now ≤ now'
        → u ≡ record { clock = now'; cache = (attempt one sha256 l now now' s.cache).0 }
        → Step k s u
    read :
        (j : String) (now : ℕ)
        → s.clock ≤ now
        → u ≡ record { clock = now; cache = (get j now s.cache).0 }
        → Step k s u
    write :
        (j : String) (v : V) (ex : Option Ex) (exat : Option Exat) (nx : Bool) (now now' : ℕ)
        → j ≢ k
        → s.clock ≤ now
        → now ≤ now'
        → u ≡ record { clock = now'; cache = (set j v ex exat nx now now' s.cache).0 }
        → Step k s u
    drop :
        (j : String) (now : ℕ)
        → j ≢ k
        → s.clock ≤ now
        → u ≡ record { clock = now; cache = (delete j now s.cache).0 }
        → Step k s u

  pub data Reach (k : String) (s : System) : System → Type 0 where
    here : Reach k s s
    next : {u w : System} → Reach k s u → Step k u w → Reach k s w

  -- The key is taken until `d`.
  record IsHeld (k : String) (d : ℕ) (s : System) : Type 0 where
    valid : IsValid s.cache
    taken : (t : ℕ) → s.clock ≤ t → t < d → is_some (view s.cache t k) ≡ true

  set_taken :
      (k j : String) (d : ℕ) (v : V) (ex : Option Ex) (exat : Option Exat) (nx : Bool)
      (now now' : ℕ) (s : System)
      → s.clock ≤ now
      → now ≤ now'
      → (j ≢ k) ⊎ (nx ≡ true)
      → IsHeld k d s
      → (t : ℕ) → now' ≤ t
      → t < d
      → is_some (view (set j v ex exat nx now now' s.cache).0 t k) ≡ true
  set_taken k j d v ex exat nx now now' s h h' (inl other) held t g lt =
      rw ((set_lem j v ex exat nx now now' s.cache held.valid).1 k t (le_trans h' g))
        (ground (arith, eq_iff j k, held.taken t (le_trans h (le_trans h' g)) lt))
  set_taken k j d v ex exat nx now now' s h h' (inr polite) held t g lt =
      rw ((set_lem j v ex exat nx now now' s.cache held.valid).1 k t (le_trans h' g)) (
        ground (
          arith,
          eq_iff j k,
          held.taken t (le_trans h (le_trans h' g)) lt,
          held.taken now h (omega arith),
        ))

  Step-IsHeld : (k : String) (d : ℕ) {s u : System} → IsHeld k d s → Step k s u → IsHeld k d u
  Step-IsHeld k d {s} held (try_lock l now now' h h' e) = rw e (record {
    valid = unfold attempt in set-IsValid _ _ _ _ _ now now' s.cache held.valid;
    taken = λ t g lt.
        unfold attempt in
        set_taken k (sha256 l.key) d one (some (seconds l.ttl)) none true now now' s h h' (inr refl)
          held t g lt;
  })
  Step-IsHeld k d {s} held (read j now h e) = rw e (record {
    valid = get-IsValid j now s.cache held.valid;
    taken =
        λ t g lt. rw ((get_lem j now s.cache held.valid).1 k t g) (held.taken t (le_trans h g) lt);
  })
  Step-IsHeld k d {s} held (write j v ex exat nx now now' ne h h' e) = rw e (record {
    valid = set-IsValid j v ex exat nx now now' s.cache held.valid;
    taken = set_taken k j d v ex exat nx now now' s h h' (inl ne) held;
  })
  Step-IsHeld k d {s} held (drop j now ne h e) = rw e (record {
    valid = delete-IsValid j now s.cache held.valid;
    taken = λ t g lt.
        rw ((delete_lem j now s.cache held.valid).2 k t g)
          (ground (arith, eq_iff j k, held.taken t (le_trans h g) lt));
  })

  Reach-IsHeld : (k : String) (d : ℕ) {s u : System} → IsHeld k d s → Reach k s u → IsHeld k d u
  Reach-IsHeld k d held here = held
  Reach-IsHeld k d held (next r st) = Step-IsHeld k d (Reach-IsHeld k d held r) st

  -- An attempt succeeds exactly if the key is not live.
  attempt_lem :
      (l : BaseLock) (now now' : ℕ) (c : InMemoryCache V)
      → IsValid c
      → (attempt one sha256 l now now' c).1 ≡ not (is_some (view c now (sha256 l.key)))
  unfolding attempt
  attempt_lem l now now' c v =
      ground (arith, (set_lem (sha256 l.key) one (some (seconds l.ttl)) none true now now' c v).0)

  -- A fresh lock with a positive TTL holds its key for that long after the clock reading of `set`.
  attempt-IsHeld :
      (l : BaseLock) (now now' : ℕ) (c : InMemoryCache V)
      → 0 < l.ttl
      → now ≤ now'
      → IsValid c
      → (attempt one sha256 l now now' c).1 ≡ true
      → IsHeld
          (sha256 l.key)
          (now' + l.ttl)
          (record { clock = now'; cache = (attempt one sha256 l now now' c).0 })
  attempt-IsHeld l now now' c pos h v won = record {
    valid = unfold attempt in set-IsValid _ _ _ _ _ now now' c v;
    taken = λ t g lt.
        let free = attempt_lem l now now' c v in
        unfold attempt live in
        rw
          ((set_lem (sha256 l.key) one (some (seconds l.ttl)) none true now now' c v).1
            (sha256 l.key) t (le_trans h g))
          (ground (arith, free, won, eq_refl (sha256 l.key), expiry_of_pos now' l.ttl pos));
  }

  -- Mutual exclusion: after a lock with a positive TTL is taken, and whatever reads, attempts on any
  -- locks, and writes and deletions of other keys follow, no attempt on the same key succeeds
  -- before the TTL has passed.
  pub attempt_excluded :
      (l l' : BaseLock) (now now' t t' : ℕ) (c : InMemoryCache V) (s : System)
      → 0 < l.ttl
      → now ≤ now'
      → IsValid c
      → (attempt one sha256 l now now' c).1 ≡ true
      → Reach
          (sha256 l.key)
          (record { clock = now'; cache = (attempt one sha256 l now now' c).0 })
          s
      → sha256 l'.key ≡ sha256 l.key
      → s.clock ≤ t
      → t < now' + l.ttl
      → (attempt one sha256 l' t t' s.cache).1 ≡ false
  attempt_excluded l l' now now' t t' c s pos h v won r same g lt =
      let held =
        Reach-IsHeld (sha256 l.key) (now' + l.ttl) (attempt-IsHeld l now now' c pos h v won) r in
      rw (attempt_lem l' t t' s.cache held.valid, same, held.taken t g lt)

  -- After a lock with a positive TTL is taken and the TTL has passed, with no call in between, the
  -- release raises `KeyError`.
  pub release_late :
      (l : BaseLock) (now now' t : ℕ) (c : InMemoryCache V)
      → 0 < l.ttl
      → now ≤ now'
      → IsValid c
      → (attempt one sha256 l now now' c).1 ≡ true
      → now' + l.ttl ≤ t
      → (release one sha256 l t (attempt one sha256 l now now' c).0).1 ≡ err key_error
  release_late l now now' t c pos h v won late =
      unfold release in
      (delete_lem (sha256 l.key) t (attempt one sha256 l now now' c).0
          (unfold attempt in set-IsValid _ _ _ _ _ now now' c v)).1
        (let free = attempt_lem l now now' c v in
          unfold attempt live in
          rw
            ((set_lem (sha256 l.key) one (some (seconds l.ttl)) none true now now' c v).1
              (sha256 l.key) t (omega arith))
            (ground (arith, free, won, eq_refl (sha256 l.key), expiry_of_pos now' l.ttl pos)))

  -- A release names no owner: while another lock `l'` with a positive TTL holds the key, within its
  -- TTL, the release by `l` of the same key raises nothing and frees it, so that any later attempt
  -- on the key succeeds.
  pub release_frees_other :
      (l l' m : BaseLock) (now now' t t' t'' : ℕ) (c : InMemoryCache V)
      → 0 < l'.ttl
      → now ≤ now'
      → IsValid c
      → (attempt one sha256 l' now now' c).1 ≡ true
      → sha256 l.key ≡ sha256 l'.key
      → sha256 m.key ≡ sha256 l'.key
      → now' ≤ t
      → t < now' + l'.ttl
      → t ≤ t'
      → let freed = release one sha256 l t (attempt one sha256 l' now now' c).0 in
        ((e : Entry V) × (freed.1 ≡ ok e)) × ((attempt one sha256 m t' t'' freed.0).1 ≡ true)
  release_frees_other l l' m now now' t t' t'' c pos h v won same same' g lt later =
      let held = attempt-IsHeld l' now now' c pos h v won in
      let gone = delete_lem (sha256 l.key) t (attempt one sha256 l' now now' c).0 held.valid in
      let (e, seen) = is_some_witness _ (held.taken t g lt) in
      (
        (e, unfold release in gone.0 e (rw same seen)),
        rw
            (attempt_lem m t' t'' (release one sha256 l t (attempt one sha256 l' now now' c).0).0 (
              unfold release in
              delete-IsValid (sha256 l.key) t (attempt one sha256 l' now now' c).0 held.valid))
            (unfold release in
              rw (gone.2 (sha256 m.key) t' later)
                (ground (arith, eq_iff (sha256 l.key) (sha256 m.key)))),
      )
