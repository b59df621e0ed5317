-- ===== src/Cache/Lock/Tests.antt =====
-- Concrete runs of the locks.
use webtool.Prelude.{ℕ, String, ◌≡◌, ◌≢◌, refl, Bool, true, false, none, some, List, [], ◌∷◌, arith}
use webtool.Result.{ok, err, key_error}
use webtool.Cache.InMemory.{InMemoryCache, Entry, at, init}
use webtool.Cache.Lock.{BaseLock, Round, waiting, attempt, acquire_loop, release}
use webtool.Cache.Lock.Waiting.{acquire_loop_ends}
use webtool.Cache.Lock.Exclusion.{
  here, next, read, attempt_excluded, release_late, release_frees_other,
}

-- A stand-in for the digest.
abbrev digest : String → String
digest k = k

abbrev job_lock : BaseLock
job_lock = record {
  key = "job";
  ttl = 100;
  blocking = true;
  blocking_timeout = 9;
  blocking_sleep = 4;
}

abbrev taken : InMemoryCache ℕ
taken = (attempt 1 digest job_lock 5 6 init).0

abbrev round : ℕ → Round (InMemoryCache ℕ)
round t = record { others = λ c. c; now = t; now' = t; failed_time = t }

abbrev rounds : List (Round (InMemoryCache ℕ))
rounds = round 10 ∷ round 14 ∷ round 18 ∷ []

won : (attempt 1 digest job_lock 5 6 (init {V = ℕ})).1 ≡ true
unfolding attempt init webtool.Cache.InMemory.set webtool.Cache.InMemory.expiry_of
    webtool.Cache.InMemory.live webtool.Prelude.Dict.lookup webtool.Prelude.Dict.insert
    webtool.Prelude.Dict.select
won = refl

acquire_loop_ends_example :
    (acquire_loop (attempt 1 digest job_lock) job_lock 6 (round 6 ∷ rounds) taken).1 ≢ waiting
acquire_loop_ends_example =
    acquire_loop_ends (attempt 1 digest job_lock) job_lock 6 (round 6) rounds taken (omega arith)
      (omega arith)

attempt_excluded_example :
    (attempt 1 digest job_lock 105 105 (webtool.Cache.InMemory.get "x" 50 taken).0).1 ≡ false
attempt_excluded_example =
    attempt_excluded 1 digest job_lock job_lock 5 6 105 105 init
      (record { clock = 50; cache = (webtool.Cache.InMemory.get "x" 50 taken).0 }) (omega arith)
      (omega arith) (unfold init in tt) won (next here (read "x" 50 (omega arith) refl)) refl
      (omega arith) (omega arith)

release_late_example : (release 1 digest job_lock 106 taken).1 ≡ err key_error
release_late_example =
    release_late 1 digest job_lock 5 6 106 init (omega arith) (omega arith) (unfold init in tt) won
      (omega arith)

release_frees_other_example :
    ((e : Entry ℕ) × ((release 1 digest job_lock 70 taken).1 ≡ ok e))
    × ((attempt 1 digest job_lock 71 71 (release 1 digest job_lock 70 taken).0).1 ≡ true)
release_frees_other_example =
    release_frees_other 1 digest job_lock job_lock job_lock 5 6 70 71 71 init (omega arith)
      (omega arith) (unfold init in tt) won refl refl (omega arith) (omega arith) (omega arith)
