-- ===== src/Cache/Lock.antt =====
-- webtool/cache/lock.py. A waiting task lets others run while it sleeps, so that `acquire` takes
-- the rounds of its loop as a list: what the others do to the cache before each attempt, and the
-- readings of the clock in it. Times are milliseconds, also `_blocking_timeout` and
-- `_blocking_sleep`; `_ttl` is a number of milliseconds.
pub mod Exclusion
pub mod Waiting
mod Tests
use webtool.Prelude.{
  is_some, ℕ, ◌+◌, ◌-◌, String, Bool, true, false, not, Option, none, some, List, [], ◌∷◌, ltb,
  if◌then◌else◌,
}
use webtool.Result.{Result, ok, err, timeout_error, ◌>>=◌}
use webtool.Cache.InMemory.{Ex, seconds, InMemoryCache, Entry, set, delete}

pub record BaseLock : Type 0 where
  pub key : String
  pub ttl : ℕ
  pub blocking : Bool
  pub blocking_timeout : ℕ
  pub blocking_sleep : ℕ

-- `InMemoryCache.lock` and `RedisCache.lock` with their defaults `DEFAULT_CAP` and `DEFAULT_BASE`.
unfoldable pub default_lock : String → BaseLock
default_lock key = record {
  key = key;
  ttl = 100;
  blocking = true;
  blocking_timeout = 512;
  blocking_sleep = 8;
}

-- One round, up to `failed_time`: the other tasks' effect, the two readings in `set`, and
-- `failed_time`. The sleep at its end is the time until the readings of the next round.
pub record Round (S : Type 0) : Type 0 where
  pub others : S → S
  pub now : ℕ
  pub now' : ℕ
  pub failed_time : ℕ

-- `waiting` stands for a loop that has more rounds to go.
pub data Outcome : Type 0 where
  acquired refused waiting : Outcome

-- The loop, over what one attempt does to the cache.
module _ {S : Type 0} (attempt : ℕ → ℕ → S → S × Bool) (l : BaseLock) (start_time : ℕ) where
  unfoldable pub acquire_loop : List (Round S) → S → S × Outcome
  acquire_loop [] c = (c, waiting)
  acquire_loop (r ∷ rs) c =
      let (c', lock_acquired) = attempt r.now r.now' (r.others c) in
      let rest = acquire_loop rs c' in
      if lock_acquired
      then (c', acquired)
      else if not l.blocking
      then (c', refused)
      else if ltb (start_time + l.blocking_timeout) r.failed_time
      then (c', refused)
      else rest

-- `AsyncInMemoryLock`, over caches that can hold the number 1 among their values.
module _ {V : Type 0} (one : V) (sha256 : String → String) (l : BaseLock) where
  unfoldable pub attempt : ℕ → ℕ → InMemoryCache V → InMemoryCache V × Bool
  attempt now now' c =
      let (c', r) = set (sha256 l.key) one (some (seconds l.ttl)) none true now now' c in
      (c', is_some r)

  unfoldable pub acquire :
      ℕ → List (Round (InMemoryCache V)) → InMemoryCache V → InMemoryCache V × Outcome
  unfolding acquire_loop
  acquire start_time rs c = acquire_loop attempt l start_time rs c

  -- `await self._client.delete(self._key)`: no token tells whose lock it is.
  unfoldable pub release : ℕ → InMemoryCache V → InMemoryCache V × Result (Entry V)
  release now c = delete (sha256 l.key) now c

-- `AsyncRedisLock`: the same loop over `SET key 1 PX ttl NX` and `DEL` of a Redis server.
module _ {S : Type 0} (redis_set : String → ℕ → ℕ → ℕ → S → S × Bool)
    (redis_delete : String → S → S) (sha256 : String → String) (l : BaseLock) where
  unfoldable pub redis_attempt : ℕ → ℕ → S → S × Bool
  redis_attempt now now' c = redis_set (sha256 l.key) l.ttl now now' c

  unfoldable pub redis_acquire : ℕ → List (Round S) → S → S × Outcome
  unfolding acquire_loop
  redis_acquire start_time rs c = acquire_loop redis_attempt l start_time rs c

  unfoldable pub redis_release : S → S
  redis_release c = redis_delete (sha256 l.key) c

-- `__aenter__`, once `acquire` has returned.
unfoldable pub aenter : Outcome → Option (Result (Unit {0}))
aenter acquired = some (ok tt)
aenter refused = some (err timeout_error)
aenter waiting = none
