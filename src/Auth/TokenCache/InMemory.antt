-- ===== src/Auth/TokenCache/InMemory.antt =====
-- `InMemoryCache` with its locks, as a cache of tokens. Its clock has milliseconds. Of `acquire` it
-- is the last attempt: the ones before it change nothing that is seen, and what other tasks do
-- while it waits comes before the step. A lock's value is `none`.
use webtool.Prelude.{
  ℕ, zero, suc, ◌+◌, ◌*◌, ◌≤◌, ◌<◌, String, ◌≡◌, ◌≢◌, refl, ap, ◌∙◌, Bool, true, false, ◌&&◌, ◌||◌,
  not, Option, none, some, arith, eq_iff, eq_refl, str_eq, if◌then◌else◌, is_some,
}
use webtool.Result.{Result, ok, ◌>>=◌}
use webtool.Cache.InMemory.{
  Entry, seconds, InMemoryCache, expiry_of, truthy, exp_of_ex, live, value?, set, get, delete,
}
use webtool.Cache.InMemory.Laws.{
  IsValid, view, get_lem, set_lem, delete_lem, get-IsValid, set-IsValid, delete-IsValid,
}
use webtool.Cache.Lock.{default_lock, attempt, release}
use webtool.Auth.TokenCache.{IsTokenKey, TokenCache}

abbrev flat {ℓ} : {A : Type ℓ} → Option (Entry (Option A)) → Option A
flat none = none
flat (some e) = e.value

abbrev flatten {ℓ} : {A : Type ℓ} → Option (Option A) → Option A
flatten none = none
flatten (some o) = o

flatten_value : {A : Type 0} (o : Option (Entry (Option A))) → flatten (value? o) ≡ flat o
flatten_value none = refl
flatten_value (some e) = refl

flat_if :
    {A : Type 0} (b : Bool) (o : Option (Entry (Option A)))
    → flat (if b then none else o) ≡ (if b then none else flat o)
flat_if true o = refl
flat_if false o = refl

abbrev done {ℓ} : {A : Type ℓ} → Result A → Result (Unit {0})
done r = r >>= λ _. ok tt

not_lock :
    (sha256 : String → String)
    → ((k j : String) → IsTokenKey j → sha256 k ≢ j)
    → (k j : String) → IsTokenKey j
    → str_eq (sha256 k) j ≡ false
not_lock sha256 hash_apart k j token = ground (arith, eq_iff (sha256 k) j, hash_apart k j token)

-- With `key` a lock's, the entry of `j` stays.
kept {ℓ} :
    {A : Type ℓ} (a b : Bool) (x y : A) → b ≡ false → (if (true && a) || not b then x else y) ≡ x
kept true b x y e = refl
kept false b x y e = rw e

abbrev pub entry : {A : Type 0} → A → ℕ → ℕ → Entry A
entry v ex now = record { value = v; exp = expiry_of now (some (seconds ex)) none }

pub live-entry : {A : Type 0} (v : A) (ex now t : ℕ) → t < now + ex → live t (entry v ex now) ≡ true
unfolding live expiry_of truthy exp_of_ex
live-entry v zero now t lt = refl
live-entry v (suc n) now t lt = ground arith

gone-entry :
    {A : Type 0} (v : A) (ex now t : ℕ) → 0 < ex → now + ex ≤ t → live t (entry v ex now) ≡ false
unfolding live expiry_of truthy exp_of_ex
gone-entry v zero now t pos le = ground arith
gone-entry v (suc n) now t pos le = ground arith

abbrev pub Valid : Type 0 → Type 0
Valid Text = (c : InMemoryCache (Option Text)) × IsValid c

module _ {Text : Type 0} (sha256 : String → String) where
  pub attempt-IsValid :
      (k : String) (now : ℕ) (c : InMemoryCache (Option Text))
      → IsValid c
      → IsValid (attempt none sha256 (default_lock k) now now c).0
  unfolding attempt
  attempt-IsValid k now c v = set-IsValid _ _ _ _ _ now now c v

  pub release-IsValid :
      (k : String) (now : ℕ) (c : InMemoryCache (Option Text))
      → IsValid c
      → IsValid (release none sha256 (default_lock k) now c).0
  unfolding release
  release-IsValid k now c v = delete-IsValid _ now c v

  unfoldable pub enter : String → ℕ → Valid Text → Valid Text × Bool
  enter k now s =
      let r = attempt none sha256 (default_lock k) now now s.0 in
      ((r.0, attempt-IsValid k now s.0 s.1), r.1)

  unfoldable pub leave : String → ℕ → Valid Text → Valid Text × Result (Unit {0})
  leave k now s =
      let r = release none sha256 (default_lock k) now s.0 in
      ((r.0, release-IsValid k now s.0 s.1), done r.1)

  unfoldable pub write : String → Text → ℕ → ℕ → Valid Text → Valid Text
  write k v ex now s = (
    (set k (some v) (some (seconds (1000 * ex))) none false now now s.0).0,
    set-IsValid k (some v) _ _ _ now now s.0 s.1,
  )

  unfoldable pub read : String → ℕ → Valid Text → Valid Text × Option Text
  read k now s = let r = get k now s.0 in ((r.0, get-IsValid k now s.0 s.1), flatten r.1)

  unfoldable pub drop : String → ℕ → Valid Text → Valid Text × Result (Unit {0})
  drop k now s = let r = delete k now s.0 in ((r.0, delete-IsValid k now s.0 s.1), done r.1)

  unfoldable pub seen : Valid Text → ℕ → String → Option Text
  seen s t j = flat (view s.0 t j)

  module _ (hash_apart : (k j : String) → IsTokenKey j → sha256 k ≢ j) where
    pub seen-enter :
        (k j : String) (now t : ℕ) (s : Valid Text)
        → IsTokenKey j
        → now ≤ t
        → seen (enter k now s).0 t j ≡ seen s t j
    unfolding seen enter attempt default_lock
    seen-enter k j now t s token le =
        let same =
          (set_lem (sha256 k) none (some (seconds 100)) none true now now s.0 s.1).1 j t le in
        ap flat (
          same
          ∙ kept (is_some (view s.0 now (sha256 k))) (str_eq (sha256 k) j) (view s.0 t j) _
              (not_lock sha256 hash_apart k j token))

    pub seen-leave :
        (k j : String) (now t : ℕ) (s : Valid Text)
        → IsTokenKey j
        → now ≤ t
        → seen (leave k now s).0 t j ≡ seen s t j
    unfolding seen leave release default_lock
    seen-leave k j now t s token le =
        let same = (delete_lem (sha256 k) now s.0 s.1).2 j t le in
        rw (same, not_lock sha256 hash_apart k j token)

  pub seen-write :
      (k : String) (v : Text) (ex now t : ℕ) (s : Valid Text)
      → now ≤ t
      → t < now + 1000 * ex
      → seen (write k v ex now s) t k ≡ some v
  unfolding seen write
  seen-write k v ex now t s le lt =
      let same =
        (set_lem k (some v) (some (seconds (1000 * ex))) none false now now s.0 s.1).1 k t le in
      rw (same, eq_refl k, live-entry (some v) (1000 * ex) now t lt)

  pub seen-write_expired :
      (k : String) (v : Text) (ex now t : ℕ) (s : Valid Text)
      → 0 < ex
      → now + 1000 * ex ≤ t
      → seen (write k v ex now s) t k ≡ none
  unfolding seen write
  seen-write_expired k v ex now t s pos lt =
      let same =
        (set_lem k (some v) (some (seconds (1000 * ex))) none false now now s.0 s.1).1 k t
          (omega arith) in
      rw (same, eq_refl k, gone-entry (some v) (1000 * ex) now t (omega arith) lt)

  pub seen-write_other :
      (k j : String) (v : Text) (ex now t : ℕ) (s : Valid Text)
      → k ≢ j
      → now ≤ t
      → seen (write k v ex now s) t j ≡ seen s t j
  unfolding seen write
  seen-write_other k j v ex now t s other le =
      let same =
        (set_lem k (some v) (some (seconds (1000 * ex))) none false now now s.0 s.1).1 j t le in
      let apart : str_eq k j ≡ false = ground (arith, eq_iff k j, other) in rw (same, apart)

  pub seen-read :
      (k j : String) (now t : ℕ) (s : Valid Text) → now ≤ t → seen (read k now s).0 t j ≡ seen s t j
  unfolding seen read
  seen-read k j now t s le = ap flat ((get_lem k now s.0 s.1).1 j t le)

  pub read_lem : (k : String) (now : ℕ) (s : Valid Text) → (read k now s).1 ≡ seen s now k
  unfolding seen read
  read_lem k now s = ap flatten ((get_lem k now s.0 s.1).0) ∙ flatten_value (view s.0 now k)

  pub seen-drop :
      (k j : String) (now t : ℕ) (s : Valid Text)
      → now ≤ t
      → seen (drop k now s).0 t j ≡ (if str_eq k j then none else seen s t j)
  unfolding seen drop
  seen-drop k j now t s le =
      ap flat ((delete_lem k now s.0 s.1).2 j t le) ∙ flat_if (str_eq k j) (view s.0 t j)

-- `InMemoryCache`, in which no key of a token is the hash of a lock's key.
abbrev pub in_memory :
    {Text : Type 0} (sha256 : String → String)
    → ((k j : String) → IsTokenKey j → sha256 k ≢ j)
    → TokenCache Text
in_memory {Text = Text} sha256 hash_apart = record {
  Store = Valid Text;
  stored = seen sha256;
  acquire = enter sha256;
  release = leave sha256;
  set = write sha256;
  get = read sha256;
  delete = drop sha256;
  per_second = 1000;
  stored-acquire = seen-enter sha256 hash_apart;
  stored-release = seen-leave sha256 hash_apart;
  stored-set = seen-write sha256;
  stored-set_expired = seen-write_expired sha256;
  stored-set_other = seen-write_other sha256;
  stored-get = seen-read sha256;
  get_lem = read_lem sha256;
  stored-delete = seen-drop sha256;
}
