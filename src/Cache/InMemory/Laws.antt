-- ===== src/Cache/InMemory/Laws.antt =====
-- What a client sees of an `InMemoryCache`: at each time, the entries that are not expired.
use webtool.Prelude.{
  is_some, ℕ, ◌≤◌, String, ◌≡◌, Bool, not, ◌&&◌, ◌||◌, inl, inr, Bool-cases, Option-cases, Option,
  none, some, arith, eq_iff, if◌then◌else◌,
}
use text.Mathlib.Text.{◌==◌}
use webtool.Prelude.Dict.{
  lookup, HasDistinctKeys, HasDistinctKeys-select, HasDistinctKeys-insert, HasDistinctKeys-remove,
  filter_value, lookup-select, lookup-insert, lookup-remove,
}
use webtool.Result.{ok, err, key_error}
use webtool.Cache.InMemory.{
  Ex, Exat, Entry, InMemoryCache, live, expiry_of, expire, set, value?, get, popped, delete,
}

module _ {ℓ} {V : Type ℓ} where
  -- The keys of the dict are distinct, as Python's dicts guarantee.
  abbrev pub IsValid : InMemoryCache V → Type 0
  IsValid c = HasDistinctKeys c.cache

  -- The entry of a key that is live at a time.
  unfoldable pub view : InMemoryCache V → ℕ → String → Option (Entry V)
  view c t k = filter_value (live t) (lookup k c.cache)

  expire-IsValid : (now : ℕ) (c : InMemoryCache V) → IsValid c → IsValid (expire now c)
  unfolding expire
  expire-IsValid now c v = HasDistinctKeys-select (live now) c.cache v

  live_later :
      (now t : ℕ) (o : Option (Entry V))
      → now ≤ t
      → filter_value (live t) (filter_value (live now) o) ≡ filter_value (live t) o
  unfolding live
  live_later now t o h = ground arith

  lookup-expire :
      (now : ℕ) (c : InMemoryCache V) (k : String)
      → IsValid c
      → lookup k (expire now c).cache ≡ view c now k
  unfolding expire view
  lookup-expire now c k v = lookup-select (live now) k c.cache v

  view-expire :
      (now t : ℕ) (c : InMemoryCache V) (k : String)
      → IsValid c
      → now ≤ t
      → view (expire now c) t k ≡ view c t k
  unfolding view
  view-expire now t c k v h =
      rw (lookup-expire now c k v) (unfold view in live_later now t (lookup k c.cache) h)

  -- Reading a key returns the value of its live entry, and leaves what is seen at that time and
  -- later as it was.
  pub get_lem :
      (key : String) (now : ℕ) (c : InMemoryCache V)
      → IsValid c
      → ((get key now c).1 ≡ value? (view c now key))
        × ((k : String) (t : ℕ) → now ≤ t → view (get key now c).0 t k ≡ view c t k)
  unfolding get
  get_lem key now c v =
      (unfold get in rw (lookup-expire now c key v), λ k t h. view-expire now t c k v h)

  -- What `set` returns, and what is seen afterwards: with `nx`, a key that is live stays as it was
  -- and `None` is returned; in every other case the key has the new value until its expiry, and no
  -- other key changes.
  pub set_lem :
      (key : String) (value : V) (ex : Option Ex) (exat : Option Exat) (nx : Bool) (now now' : ℕ)
      (c : InMemoryCache V)
      → IsValid c
      → ((set key value ex exat nx now now' c).1 ≡ (
          if nx && is_some (view c now key)
          then none
          else some (record { value = value; exp = expiry_of now' ex exat })))
        × ((k : String) (t : ℕ)
            → now ≤ t
            → view (set key value ex exat nx now now' c).0 t k ≡ (
                if (nx && is_some (view c now key)) || not (key == k)
                then view c t k
                else filter_value
                    (live t)
                    (some (record { value = value; exp = expiry_of now' ex exat }))))
  unfolding set
  set_lem key value ex exat nx now now' c v =
      let same = lookup-expire now c key v in
      elim (Bool-cases (nx && is_some (view c now key))) [
        | inl kept ↦ (rw (same, kept), λ k t h. rw (same, kept) (view-expire now t c k v h))
        | inr stored ↦ (
          rw (same, stored),
          λ k t h.
              rw (same, stored)
                (unfold view expire in
                  ground (
                    arith,
                    lookup-insert key k (record { value = value; exp = expiry_of now' ex exat })
                        (expire now c).cache,
                    view-expire now t c k v h,
                  )),
        )
      ]

  pub set-IsValid :
      (key : String) (value : V) (ex : Option Ex) (exat : Option Exat) (nx : Bool) (now now' : ℕ)
      (c : InMemoryCache V)
      → IsValid c
      → IsValid (set key value ex exat nx now now' c).0
  unfolding set
  set-IsValid key value ex exat nx now now' c v = ground (
    arith,
    expire-IsValid now c v,
    HasDistinctKeys-insert key
        (let e : Entry V = record { value = value; exp = expiry_of now' ex exat } in e)
        (expire now c).cache,
  )

  -- What is not live at a time is not live later.
  pub view_later :
      (now t : ℕ) (c : InMemoryCache V) (k : String)
      → now ≤ t
      → view c now k ≡ none
      → view c t k ≡ none
  unfolding view live
  view_later now t c k h gone = ground arith

  view-delete :
      (key : String) (now : ℕ) (c : InMemoryCache V)
      → IsValid c
      → (k : String) (t : ℕ) → now ≤ t
      → view (delete key now c).0 t k ≡ (if key == k then none else view c t k)
  unfolding delete
  view-delete key now c v k t h = elim (Option-cases (view c now key)) [
    | inl gone ↦
        rw (lookup-expire now c key v, gone, view-expire now t c k v h)
          (ground (arith, eq_iff key k, view_later now t c key h gone))
    | inr (e, found) ↦
        rw (lookup-expire now c key v, found)
          (unfold view in
            ground (arith, lookup-remove key k (expire now c).cache, view-expire now t c k v h))
  ]

  -- What `delete` returns, and what is seen afterwards: a live key is removed and its entry
  -- returned; for any other key `KeyError` is raised. No other key changes.
  pub delete_lem :
      (key : String) (now : ℕ) (c : InMemoryCache V)
      → IsValid c
      → ((e : Entry V) → view c now key ≡ some e → (delete key now c).1 ≡ ok e)
        × (view c now key ≡ none → (delete key now c).1 ≡ err key_error)
        × ((k : String) (t : ℕ)
            → now ≤ t
            → view (delete key now c).0 t k ≡ (if key == k then none else view c t k))
  unfolding delete
  delete_lem key now c v =
      let same = lookup-expire now c key v in
      (λ e h. rw (same, h), λ h. rw (same, h), λ k t h. view-delete key now c v k t h)

  pub get-IsValid :
      (key : String) (now : ℕ) (c : InMemoryCache V) → IsValid c → IsValid (get key now c).0
  unfolding get
  get-IsValid key now c v = expire-IsValid now c v

  popped-IsValid :
      (key : String) (c : InMemoryCache V) (o : Option (Entry V))
      → IsValid c
      → IsValid (popped key c o).0
  popped-IsValid key c none v = v
  popped-IsValid key c (some e) v = HasDistinctKeys-remove key c.cache v

  pub delete-IsValid :
      (key : String) (now : ℕ) (c : InMemoryCache V) → IsValid c → IsValid (delete key now c).0
  unfolding delete
  delete-IsValid key now c v =
      popped-IsValid key (expire now c) (lookup key (expire now c).cache) (expire-IsValid now c v)
