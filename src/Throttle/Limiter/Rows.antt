-- ===== src/Throttle/Limiter/Rows.antt =====
-- What the limiter's script does to the set of one key and what its row says, whatever other keys
-- the ruleset has.
use webtool.Prelude.{
  ℕ, ◌≤◌, ◌<◌, String, ◌≡◌, refl, ap, ◌∙◌, inl, inr, Bool, true, false, Bool-cases, some, [], ◌∷◌,
  ltb, any, All, arith, str_eq, eq_iff,
}
use webtool.Prelude.Dict.{Dict, lookup, HasDistinctKeys, IsFresh}
use webtool.Redis.SortedSets.{SortedSets}
use webtool.Throttle.Limiter.{NumberText, Ruleset, Row, visit, run_script}
use webtool.Throttle.Limiter.Script.{recorded, amount_of, zset-visit, amount-visit}

-- A row with more requests than its limit: the test `s[0] < s[1]`.
abbrev pub over : String × Row → Bool
over (key, row) = ltb row.limit row.amount

-- The windows of a ruleset are positive.
abbrev pub IsPositive : Ruleset → Type 0
IsPositive limits = All (λ e. 0 < e.1.1) limits

head_of :
    (key j : String) (l w limit window : ℕ) (limits : Ruleset)
    → str_eq key j ≡ true
    → lookup j ((key, (l, w)) ∷ limits) ≡ some (limit, window)
    → (l ≡ limit) × (w ≡ window)
unfolding lookup
head_of key j l w limit window limits same e = ground arith

-- If no row is over its limit, then the row of a key is not.
pub not_over :
    (rows : Dict Row) (j : String) (row : Row)
    → any over rows ≡ false
    → lookup j rows ≡ some row
    → row.amount ≤ row.limit
unfolding lookup
not_over [] j row h e = cc
not_over ((key, r) ∷ rows) j row h e = ground (arith, not_over rows j row)

module _ (redis : SortedSets) (numbers : NumberText) where
  open redis use {Db, zset}
  open numbers use {tostring}

  limit-visit :
      (now : ℕ) (key : String) (limit window : ℕ) (db : Db)
      → (visit redis numbers now key limit window db).1.limit ≡ limit
  unfolding visit
  limit-visit now key limit window db = refl

  -- A key that is not in the ruleset keeps its set.
  pub zset-run_script_fresh :
      (now : ℕ) (limits : Ruleset) (db : Db) (j : String)
      → IsFresh j limits
      → IsPositive limits
      → zset (run_script redis numbers now limits db).0 j ≡ zset db j
  unfolding run_script
  zset-run_script_fresh now [] db j fresh positive = refl
  zset-run_script_fresh now ((key, (limit, window)) ∷ limits) db j (other, fresh) (p, ps) =
      zset-run_script_fresh now limits (visit redis numbers now key limit window db).0 j fresh ps
      ∙ zset-visit redis numbers now key limit window db j p
      ∙ rw other

  -- The set of a key in the ruleset records the request by the key's own rule.
  pub zset-run_script :
      (now : ℕ) (limits : Ruleset) (db : Db) (j : String) (limit window : ℕ)
      → HasDistinctKeys limits
      → IsPositive limits
      → lookup j limits ≡ some (limit, window)
      → zset (run_script redis numbers now limits db).0 j
        ≡ recorded now (tostring now) limit window (zset db j)
  unfolding run_script lookup
  zset-run_script now [] db j limit window d p e = cc
  zset-run_script now ((key, (l, w)) ∷ limits) db j limit window (fresh, d) (p, ps) e =
      elim (Bool-cases (str_eq key j)) [
        | inl same ↦
            let k : key ≡ j = (eq_iff key j).0 same in
            let (el, ew) = head_of key j l w limit window limits same e in
            zset-run_script_fresh now limits (visit redis numbers now key l w db).0 j
              (rw (← k) fresh) ps
            ∙ zset-visit redis numbers now key l w db j p
            ∙ rw (same, k, el, ew)
        | inr other ↦
            zset-run_script now limits (visit redis numbers now key l w db).0 j limit window d ps
              (rw (other, lookup) at e)
            ∙ ap (recorded now (tostring now) limit window)
                (zset-visit redis numbers now key l w db j p ∙ rw other)
      ]

  -- The row of a key in the ruleset has the limit and the amount of the key's own rule.
  pub row-run_script :
      (now : ℕ) (limits : Ruleset) (db : Db) (j : String) (limit window : ℕ)
      → HasDistinctKeys limits
      → IsPositive limits
      → lookup j limits ≡ some (limit, window)
      → (row : Row) × (lookup j (run_script redis numbers now limits db).1 ≡ some row)
        × (row.limit ≡ limit)
        × (row.amount ≡ amount_of now limit window (zset db j))
  unfolding run_script lookup
  row-run_script now [] db j limit window d p e = cc
  row-run_script now ((key, (l, w)) ∷ limits) db j limit window (fresh, d) (p, ps) e =
      elim (Bool-cases (str_eq key j)) [
        | inl same ↦
            let k : key ≡ j = (eq_iff key j).0 same in
            let (el, ew) = head_of key j l w limit window limits same e in
            (
              (visit redis numbers now key l w db).1,
              rw same,
              limit-visit now key l w db ∙ el,
              amount-visit redis numbers now key l w db ∙ rw (k, el, ew),
            )
        | inr other ↦
            let (row, listed, same_limit, same_amount) =
              row-run_script now limits (visit redis numbers now key l w db).0 j limit window d ps
                (rw (other, lookup) at e) in
            (
              row,
              rw other listed,
              same_limit,
              same_amount
                  ∙ ap (amount_of now limit window)
                      (zset-visit redis numbers now key l w db j p ∙ rw other),
            )
      ]
