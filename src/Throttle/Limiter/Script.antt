-- ===== src/Throttle/Limiter/Script.antt =====
-- What the limiter's script does to the sorted set of a key.
use webtool.Prelude.{
  ℕ, ◌+◌, ◌<◌, String, ◌≡◌, ◌∙◌, inl, inr, Bool, Bool-cases, not, leb, ltb, length, arith, str_eq,
  eq_iff, eq_refl, if◌then◌else◌,
}
use mathlib.Core.Path.{fun_ext}
use webtool.Prelude.Int.{sub_ℕ}
use webtool.Prelude.Dict.{Dict, insert, select}
use webtool.Redis.SortedSets.{SortedSets, in_range}
use webtool.Throttle.Limiter.{NumberText, admit, visit}

-- A request made at `s` still counts at `now`.
abbrev pub counts : ℕ → ℕ → ℕ → Bool
counts now window s = ltb now (s + window)

-- The requests of a sorted set that count at a time.
abbrev pub current : ℕ → ℕ → Dict ℕ → Dict ℕ
current now window z = select (counts now window) z

-- The sorted set after a request, by its set before: the request is recorded while the requests
-- that count are no more than the limit.
unfoldable pub recorded : ℕ → String → ℕ → ℕ → Dict ℕ → Dict ℕ
recorded now member limit window z =
    if leb (length (current now window z)) limit
    then insert member now (current now window z)
    else current now window z

-- The amount that the script reports.
unfoldable pub amount_of : ℕ → ℕ → ℕ → Dict ℕ → ℕ
amount_of now limit window z =
    if leb (length (current now window z)) limit
    then length (current now window z) + 1
    else length (current now window z)

outdated : (now window : ℕ) → (λ s. not (in_range 0 (sub_ℕ now window) s)) ≡ counts now window
outdated now window = fun_ext λ s. ground arith

module _ (redis : SortedSets) (numbers : NumberText) where
  open redis use {
    Db, zset, zset-zremrangebyscore, zset-zadd, zset-expire, zcard_lem, zremrangebyscore,
  }
  open numbers use {tostring}

  zset-purge :
      (now window : ℕ) (key : String) (db : Db) (j : String)
      → zset (zremrangebyscore key 0 (sub_ℕ now window) db) j
        ≡ (if str_eq key j then current now window (zset db j) else zset db j)
  zset-purge now window key db j =
      rw (zset-zremrangebyscore key 0 (sub_ℕ now window) db j, outdated now window)

  purged :
      (now window : ℕ) (key : String) (db : Db)
      → zset (zremrangebyscore key 0 (sub_ℕ now window) db) key ≡ current now window (zset db key)
  purged now window key db = zset-purge now window key db key ∙ rw (eq_refl key)

  admit_test :
      (now : ℕ) (key : String) (limit window : ℕ) (db : Db)
      → leb (redis.zcard key (zremrangebyscore key 0 (sub_ℕ now window) db)) limit
        ≡ leb (length (current now window (zset db key))) limit
  admit_test now key limit window db =
      rw (zcard_lem key (zremrangebyscore key 0 (sub_ℕ now window) db), purged now window key db)

  zset-admit :
      (now : ℕ) (key : String) (limit window : ℕ) (db : Db) (j : String)
      → zset (admit redis numbers now key limit window db).0 j ≡ (
          if str_eq key j
          then recorded now (tostring now) limit window (zset db key)
          else zset db j)
  unfolding admit recorded
  zset-admit now key limit window db j =
      elim (Bool-cases (leb (length (current now window (zset db key))) limit)) [
        | inl room ↦
            rw
              (
                admit_test now key limit window db,
                room,
                zset-zadd key now (tostring now) (zremrangebyscore key 0 (sub_ℕ now window) db) j,
                zset-purge now window key db j,
              )
              (elim (Bool-cases (str_eq key j)) [
                | inl same ↦ rw (same, (eq_iff key j).0 same)
                | inr other ↦ rw other
              ])
        | inr full ↦
            rw (admit_test now key limit window db, full, zset-purge now window key db j)
              (elim (Bool-cases (str_eq key j)) [
                | inl same ↦ rw (same, (eq_iff key j).0 same)
                | inr other ↦ rw other
              ])
      ]

  -- One visit of the script changes only its key's set, which records the request.
  pub zset-visit :
      (now : ℕ) (key : String) (limit window : ℕ) (db : Db) (j : String)
      → 0 < window
      → zset (visit redis numbers now key limit window db).0 j ≡ (
          if str_eq key j
          then recorded now (tostring now) limit window (zset db key)
          else zset db j)
  unfolding visit
  zset-visit now key limit window db j positive =
      zset-expire key window (admit redis numbers now key limit window db).0 j positive
      ∙ zset-admit now key limit window db j

  pub amount-visit :
      (now : ℕ) (key : String) (limit window : ℕ) (db : Db)
      → (visit redis numbers now key limit window db).1.amount
        ≡ amount_of now limit window (zset db key)
  unfolding visit admit amount_of
  amount-visit now key limit window db =
      rw (zcard_lem key (zremrangebyscore key 0 (sub_ℕ now window) db), purged now window key db)
        (ground arith)
