-- ===== src/Cache/Lock/Waiting.antt =====
-- How long `acquire` waits.
use webtool.Prelude.{Bool, ℕ, ◌+◌, ◌*◌, ◌≤◌, ◌<◌, ◌≢◌, List, [], ◌∷◌, length, arith}
use webtool.Cache.Lock.{BaseLock, Round, waiting, acquire_loop}

-- Between a failed round and the next `failed_time` lies a sleep of at least `d`.
abbrev pub Slept : {S : Type 0} → ℕ → ℕ → List (Round S) → Type 0
Slept d t [] = Unit
Slept d t (r ∷ rs) = (t + d ≤ r.failed_time) × Slept d r.failed_time rs

-- The first round comes without a sleep.
abbrev pub Waits : {S : Type 0} → ℕ → ℕ → List (Round S) → Type 0
Waits d start_time [] = Unit
Waits d start_time (r ∷ rs) = (start_time ≤ r.failed_time) × Slept d r.failed_time rs

module _ {S : Type 0} (attempt : ℕ → ℕ → S → S × Bool) (l : BaseLock) (start_time : ℕ) where
  loop_ends :
      (d t : ℕ) (rs : List (Round S)) (c : S)
      → start_time + l.blocking_timeout < t + length rs * d
      → t ≤ start_time + l.blocking_timeout
      → Slept d t rs
      → (acquire_loop attempt l start_time rs c).1 ≢ waiting
  unfolding acquire_loop
  loop_ends d t [] c h k a = absurd (omega arith)
  loop_ends d t (r ∷ rs) c h k (a, later) =
      ground (arith, later, loop_ends d r.failed_time rs (attempt r.now r.now' (r.others c)).0)

  -- Where the clock does not run backwards and each sleep takes at least the least delay, which is
  -- `_blocking_sleep`, the loop has returned after `n` rounds beyond the first one, as soon as
  -- `n * _blocking_sleep` is more than the blocking timeout.
  pub acquire_loop_ends :
      (r : Round S) (rs : List (Round S)) (c : S)
      → l.blocking_timeout < length rs * l.blocking_sleep
      → Waits l.blocking_sleep start_time (r ∷ rs)
      → (acquire_loop attempt l start_time (r ∷ rs) c).1 ≢ waiting
  unfolding acquire_loop
  acquire_loop_ends r rs c h (first, later) = ground (
    arith,
    first,
    later,
    loop_ends l.blocking_sleep r.failed_time rs (attempt r.now r.now' (r.others c)).0,
  )
