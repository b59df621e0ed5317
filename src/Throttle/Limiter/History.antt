-- ===== src/Throttle/Limiter/History.antt =====
-- The promise of the limiter over a whole history: what one rule allows in any window is at most
-- its limit, and nothing is refused by a rule while requests are fewer than its limit.
use webtool.Prelude.{
  ℕ, ◌+◌, ◌≤◌, ◌<◌, String, ◌≡◌, false, some, List, [], ◌∷◌, length, keep, any, arith,
  if◌then◌else◌,
}
use webtool.Prelude.Dict.{lookup, HasDistinctKeys}
use webtool.Redis.SortedSets.{SortedSets}
use webtool.Throttle.Limiter.{NumberText, Ruleset, Row, run_script}
use webtool.Throttle.Limiter.Script.{counts}
use webtool.Throttle.Limiter.Rows.{over, IsPositive, zset-run_script, row-run_script, not_over}
use webtool.Throttle.Limiter.Quota.{within, Inv, Inv-recorded, Inv-nil, Inv-start, amount_of_few}

module _ (redis : SortedSets) (numbers : NumberText) (key : String) (limit window : ℕ) where
  open redis use {Db, zset}
  open numbers use {tostring}

  -- What can happen to the data of one key up to a time, with the times of all requests under its
  -- rule and of those that were allowed, the last one first. A request is allowed if no rule that
  -- applies to it is over its limit.
  pub data History : Db → ℕ → List ℕ → List ℕ → Type 0 where
    start : {db : Db} (t : ℕ) → zset db key ≡ [] → History db t [] []
    request :
        {db db' : Db} {t : ℕ} {requests allowed allowed' : List ℕ} (now : ℕ) (limits : Ruleset)
        → History db t requests allowed
        → t < now
        → HasDistinctKeys limits
        → IsPositive limits
        → lookup key limits ≡ some (limit, window)
        → zset db' key ≡ zset (run_script redis numbers now limits db).0 key
        → allowed'
          ≡ (if any over (run_script redis numbers now limits db).1 then allowed else now ∷ allowed)
        → History db' now (now ∷ requests) allowed'
    -- Commands on other keys.
    other :
        {db db' : Db} {t : ℕ} {requests allowed : List ℕ}
        → History db t requests allowed
        → zset db' key ≡ zset db key
        → History db' t requests allowed
    -- The key's time to live, set by the last request, has passed, and Redis deletes it.
    lapse :
        {db db' : Db} {t : ℕ} {requests allowed : List ℕ} (now : ℕ)
        → History db t requests allowed
        → t + window ≤ now
        → zset db' key ≡ []
        → History db' now requests allowed

  History-Inv :
      {db : Db} {t : ℕ} {requests allowed : List ℕ}
      → History db t requests allowed
      → Inv numbers limit window (zset db key) t requests allowed
  History-Inv (start t e) = rw e (Inv-start numbers limit window t)
  History-Inv (other h e) = rw e (History-Inv h)
  History-Inv (lapse now h le e) = rw e (Inv-nil numbers limit window now (History-Inv h) le)
  History-Inv (request {db} now limits h lt d p has e e') =
      let (row, listed, same_limit, same_amount) =
        row-run_script redis numbers now limits db key limit window d p has in
      rw (e, e', zset-run_script redis numbers now limits db key limit window d p has)
        (Inv-recorded numbers limit window now (any over (run_script redis numbers now limits db).1)
          (History-Inv h) lt
          (λ fine. omega (
            arith,
            not_over (run_script redis numbers now limits db).1 key row fine listed,
            same_limit,
            same_amount,
          )))

  -- In a history of requests at later and later times, which starts with an empty set at the rule's
  -- key and may have other requests in between, a rule allows at most its limit of requests in
  -- every window, whenever the window ends.
  pub allowed-le-limit :
      {db : Db} {t : ℕ} {requests allowed : List ℕ}
      → History db t requests allowed
      → (u : ℕ) → length (keep (within u window) allowed) ≤ limit
  allowed-le-limit h u = (History-Inv h).quota u

  -- After such a history, at a later time: where the requests in the window are fewer than the
  -- rule's limit, the script's row for its key is not over the limit. The ruleset has distinct keys
  -- and positive windows, and the rule is in it.
  pub few_not_over :
      {db : Db} {t : ℕ} {requests allowed : List ℕ} (now : ℕ) (limits : Ruleset)
      → History db t requests allowed
      → t < now
      → HasDistinctKeys limits
      → IsPositive limits
      → lookup key limits ≡ some (limit, window)
      → length (keep (counts now window) requests) < limit
      → (row : Row) × (lookup key (run_script redis numbers now limits db).1 ≡ some row)
        × (over (key, row) ≡ false)
  few_not_over {db} now limits h lt d p has few =
      let (row, listed, same_limit, same_amount) =
        row-run_script redis numbers now limits db key limit window d p has in
      let fits = amount_of_few numbers limit window now (History-Inv h) lt few in
      (row, listed, ground arith)
