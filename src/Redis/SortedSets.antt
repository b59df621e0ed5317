-- ===== src/Redis/SortedSets.antt =====
-- The commands on sorted sets that the limiter's script calls, with their documented effect. Every
-- key in use holds a sorted set or nothing. `zset` is a view of the data: the members of the set at
-- a key with their scores, each once; the order in which it lists them shows in no command.
use Prim.Native.Nat.{ℕ, ◌≤◌, ◌<◌}
use webtool.Prelude.{
  String, ◌≡◌, ◌≢◌, Bool, not, ◌&&◌, Option, none, some, [], length, leb, str_eq, if◌then◌else◌,
}
use webtool.Prelude.Int.{ℤ, pos, leb_ℤ}
use webtool.Prelude.Dict.{Dict, lookup, insert, select, HasDistinctKeys}

-- A score within the bounds of `ZREMRANGEBYSCORE`.
abbrev pub in_range : ℕ → ℤ → ℕ → Bool
in_range lo hi s = leb lo s && leb_ℤ (pos s) hi

pub record SortedSets : Type 1 where
  pub Db : Type 0
  pub zset : Db → String → Dict ℕ
  pub zremrangebyscore : String → ℕ → ℤ → Db → Db
  pub zcard : String → Db → ℕ
  pub zadd : String → ℕ → String → Db → Db
  pub expire : String → ℕ → Db → Db
  -- The first member of `ZREVRANGE key 0 0`.
  pub zrevrange_first : String → Db → Option String
  pub zset_distinct : (db : Db) (k : String) → HasDistinctKeys (zset db k)
  pub zset-zremrangebyscore :
      (k : String) (lo : ℕ) (hi : ℤ) (db : Db) (j : String)
      → zset (zremrangebyscore k lo hi db) j
        ≡ (if str_eq k j then select (λ s. not (in_range lo hi s)) (zset db j) else zset db j)
  pub zcard_lem : (k : String) (db : Db) → zcard k db ≡ length (zset db k)
  -- A member that is present gets the new score.
  pub zset-zadd :
      (k : String) (s : ℕ) (m : String) (db : Db) (j : String)
      → zset (zadd k s m db) j ≡ (if str_eq k j then insert m s (zset db j) else zset db j)
  -- A positive time to live changes nothing yet; none at all deletes the key.
  pub zset-expire :
      (k : String) (n : ℕ) (db : Db) (j : String) → 0 < n → zset (expire k n db) j ≡ zset db j
  pub zset-expire_zero :
      (k : String) (db : Db) (j : String)
      → zset (expire k 0 db) j ≡ (if str_eq k j then [] else zset db j)
  pub first_of_empty : (k : String) (db : Db) → zset db k ≡ [] → zrevrange_first k db ≡ none
  -- The member is one with the highest score.
  pub first_of_members :
      (k : String) (db : Db)
      → zset db k ≢ []
      → (m : String) × (s : ℕ) × (zrevrange_first k db ≡ some m)
        × (lookup m (zset db k) ≡ some s)
        × ((j : String) (t : ℕ) → lookup j (zset db k) ≡ some t → t ≤ s)
