-- ===== src/Cache/InMemory.antt =====
-- webtool/cache/client.py, `InMemoryCache`. Times and durations are natural numbers of
-- milliseconds. A method takes the readings of the event loop's clock that it makes, in order, and
-- returns the cache with its result. No method suspends, so that each is one atomic step.
pub mod Laws
pub mod Spec
mod Tests
use webtool.Prelude.{
  ℕ, zero, ◌+◌, String, Bool, true, false, ◌&&◌, Option, none, some, [], is_some, ltb,
  if◌then◌else◌,
}
use webtool.Prelude.Dict.{Dict, lookup, insert, remove, select}
use webtool.Result.{Result, ok, err, key_error}

-- The second part of a stored pair: a time, or `float("inf")`.
pub data Expiry : Type 0 where
  at : ℕ → Expiry
  never : Expiry

pub record Entry {ℓ} (V : Type ℓ) : Type ℓ where
  pub value : V
  pub exp : Expiry

-- The types of `ex` (a number of seconds, or a `timedelta`) and of `exat`, each in milliseconds.
pub data Ex : Type 0 where
  seconds : ℕ → Ex
  timedelta : ℕ → Ex

pub data Exat : Type 0 where
  stamp : ℕ → Exat
  datetime : ℕ → Exat

pub record InMemoryCache {ℓ} (V : Type ℓ) : Type ℓ where
  pub cache : Dict (Entry V)

-- `v[1] > now`
unfoldable pub live {ℓ} : {V : Type ℓ} → ℕ → Entry V → Bool
live now e = elim e.exp [ at t ↦ ltb now t | never ↦ true ]

-- `if ex:`, for which zero and the empty `timedelta` are false.
unfoldable pub truthy : Option Ex → Bool
truthy none = false
truthy (some (seconds zero)) = false
truthy (some (timedelta zero)) = false
truthy (some _) = true

unfoldable pub exp_of_ex : ℕ → Option Ex → Expiry
exp_of_ex now none = never
exp_of_ex now (some (seconds n)) = at (now + n)
exp_of_ex now (some (timedelta n)) = at (now + n)

unfoldable pub exp_of_exat : Option Exat → Expiry
exp_of_exat none = never
exp_of_exat (some (stamp n)) = at n
exp_of_exat (some (datetime n)) = at n

unfoldable pub expiry_of : ℕ → Option Ex → Option Exat → Expiry
unfolding truthy exp_of_ex exp_of_exat
expiry_of now ex exat = if truthy ex then exp_of_ex now ex else exp_of_exat exat

module _ {ℓ} {V : Type ℓ} where
  unfoldable pub init : InMemoryCache V
  init = record { cache = [] }

  unfoldable pub expire : ℕ → InMemoryCache V → InMemoryCache V
  expire now c = record { cache = select (live now) c.cache }

  -- `now` is the reading of `_expire`, `now'` that of `set`. In `if nx and self.cache.get(key)` a
  -- stored pair is never false.
  unfoldable pub set :
      String
      → V
      → Option Ex
      → Option Exat
      → Bool
      → ℕ
      → ℕ
      → InMemoryCache V
      → InMemoryCache V × Option (Entry V)
  unfolding expire
  set key value ex exat nx now now' c =
      let c' = expire now c in
      let e : Entry V = record { value = value; exp = expiry_of now' ex exat } in
      if nx && is_some (lookup key c'.cache)
      then (c', none)
      else (record { cache = insert key e c'.cache }, some e)

  abbrev pub value? : Option (Entry V) → Option V
  value? none = none
  value? (some e) = some e.value

  unfoldable pub get : String → ℕ → InMemoryCache V → InMemoryCache V × Option V
  unfolding expire
  get key now c = let c' = expire now c in (c', value? (lookup key c'.cache))

  abbrev popped : String → InMemoryCache V → Option (Entry V) → InMemoryCache V × Result (Entry V)
  popped key c none = (c, err key_error)
  popped key c (some e) = (record { cache = remove key c.cache }, ok e)

  -- `self.cache.pop(key)` raises on a missing key.
  unfoldable pub delete : String → ℕ → InMemoryCache V → InMemoryCache V × Result (Entry V)
  unfolding expire
  delete key now c = let c' = expire now c in popped key c' (lookup key c'.cache)

  unfoldable pub aclose : InMemoryCache V → InMemoryCache V
  aclose c = record { cache = [] }
