-- ===== src/Throttle/Limiter/Answers.antt =====
-- What `is_deny` returns: a tuple for each key, and no exception for a text identifier and positive
-- intervals.
use webtool.Prelude.{
  none, ◌++◌, false, ltb→lt, str_eq, ℕ, suc, ◌+◌, ◌<◌, String, ◌≡◌, ◌≢◌, refl, sym, ap, ◌∙◌, inl,
  inr, Bool, Bool-cases, some, List, [], ◌∷◌, ltb, leb, length, any, All, arith, eq_iff, eq_refl,
}
use Prim.Native.String
use webtool.Prelude.Int.{sub_ℕ}
use webtool.Prelude.Dict.{
  lookup-insert, Dict, lookup, insert, HasDistinctKeys, HasDistinctKeys-insert, IsFresh,
  insert-ne-nil,
}
use webtool.Result.{ok, err, index_error}
use webtool.Redis.SortedSets.{SortedSets}
use webtool.Auth.Models.{text}
use webtool.Throttle.Rule.{LimitRule}
use webtool.Throttle.Limiter.{
  NumberText, Ruleset, Deny, admit, visit, run_script, deny_list, ruleset_from, get_ruleset,
  is_deny,
}
use webtool.Throttle.Limiter.Script.{current, recorded, zset-visit}
use webtool.Throttle.Limiter.Rows.{over, IsPositive}

-- The test `s[0] < s[1]` on a tuple.
abbrev pub over_deny : Deny → Bool
over_deny d = ltb d.limit d.amount

abbrev pub HasIntervals : List LimitRule → Type 0
HasIntervals rules = All (λ r. 0 < r.interval) rules

IsPositive-insert :
    (k : String) (v : ℕ × ℕ) (m : Ruleset) → 0 < v.1 → IsPositive m → IsPositive (insert k v m)
unfolding insert
IsPositive-insert k v [] p h = (p, tt)
IsPositive-insert k (l, w) ((j, (l', w')) ∷ m) p (q, h) =
    ground (arith, IsPositive-insert k (l, w) m p h)

ruleset_from_valid :
    (s : String) (rules : List LimitRule) (m : Ruleset)
    → HasIntervals rules
    → HasDistinctKeys m
    → IsPositive m
    → HasDistinctKeys (ruleset_from s rules m) × IsPositive (ruleset_from s rules m)
unfolding ruleset_from
ruleset_from_valid s [] m h d p = (d, p)
ruleset_from_valid s (r ∷ rules) m (i, h) d p =
    ruleset_from_valid s rules
      (insert (String.◌++◌ s r.throttle_key) (r.max_requests, r.interval) m) h
      (HasDistinctKeys-insert (String.◌++◌ s r.throttle_key) (r.max_requests, r.interval) m d)
      (IsPositive-insert (String.◌++◌ s r.throttle_key) (r.max_requests, r.interval) m i p)

get_ruleset_total :
    (s : String) (rules : List LimitRule)
    → HasIntervals rules
    → (limits : Ruleset) × (get_ruleset (text s) rules ≡ ok limits)
      × HasDistinctKeys limits
      × IsPositive limits
unfolding get_ruleset
get_ruleset_total s [] h = ([], refl, tt, tt)
get_ruleset_total s (r ∷ rules) h =
    let (d, p) = ruleset_from_valid s (r ∷ rules) [] h tt tt in
    (ruleset_from s (r ∷ rules) [], refl, d, p)

-- No rule of the list has the key of the rule.
abbrev pub IsLastOfKey : String → LimitRule → List LimitRule → Type 0
IsLastOfKey s rule later =
    All (λ r. String.◌++◌ s r.throttle_key ≢ String.◌++◌ s rule.throttle_key) later

HasDistinctKeys-ruleset_from :
    (s : String) (rules : List LimitRule) (m : Ruleset)
    → HasDistinctKeys m
    → HasDistinctKeys (ruleset_from s rules m)
unfolding ruleset_from
HasDistinctKeys-ruleset_from s [] m d = d
HasDistinctKeys-ruleset_from s (r ∷ rules) m d =
    HasDistinctKeys-ruleset_from s rules
      (insert (String.◌++◌ s r.throttle_key) (r.max_requests, r.interval) m)
      (HasDistinctKeys-insert (String.◌++◌ s r.throttle_key) (r.max_requests, r.interval) m d)

lookup-ruleset_later :
    (s : String) (rule : LimitRule) (later : List LimitRule) (m : Ruleset)
    → IsLastOfKey s rule later
    → lookup (String.◌++◌ s rule.throttle_key) (ruleset_from s later m)
      ≡ lookup (String.◌++◌ s rule.throttle_key) m
unfolding ruleset_from
lookup-ruleset_later s rule [] m last = refl
lookup-ruleset_later s rule (r ∷ later) m (apart, last) =
    let k = String.◌++◌ s r.throttle_key in
    let asked = String.◌++◌ s rule.throttle_key in
    let v : ℕ × ℕ = (r.max_requests, r.interval) in
    let ne : str_eq k asked ≡ false = ground (arith, eq_iff k asked, apart) in
    lookup-ruleset_later s rule later (insert k v m) last ∙ (lookup-insert k asked v m ∙ rw ne refl)

-- The last rule with its key is the one that counts.
lookup-ruleset_from :
    (s : String) (before : List LimitRule) (rule : LimitRule) (later : List LimitRule) (m : Ruleset)
    → IsLastOfKey s rule later
    → lookup (String.◌++◌ s rule.throttle_key) (ruleset_from s (before ++ rule ∷ later) m)
      ≡ some (rule.max_requests, rule.interval)
unfolding ruleset_from
lookup-ruleset_from s [] rule later m last =
    let k = String.◌++◌ s rule.throttle_key in
    let v : ℕ × ℕ = (rule.max_requests, rule.interval) in
    lookup-ruleset_later s rule later (insert k v m) last
    ∙ (lookup-insert k k v m ∙ rw (eq_refl k) refl)
lookup-ruleset_from s (r ∷ before) rule later m last =
    lookup-ruleset_from s before rule later
      (insert (String.◌++◌ s r.throttle_key) (r.max_requests, r.interval) m) last

get_ruleset_full :
    (s : String) (before : List LimitRule) (rule : LimitRule) (later : List LimitRule)
    → get_ruleset (text s) (before ++ rule ∷ later)
      ≡ ok (ruleset_from s (before ++ rule ∷ later) [])
unfolding get_ruleset
get_ruleset_full s [] rule later = refl
get_ruleset_full s (r ∷ before) rule later = refl

-- The entries of a ruleset are those that another finds at their keys.
abbrev Within : Ruleset → Ruleset → Type 0
Within limits whole = All (λ e. lookup e.0 whole ≡ some e.1) limits

Within-cons :
    (j : String) (v : ℕ × ℕ) (limits whole : Ruleset)
    → IsFresh j limits
    → Within limits whole
    → Within limits ((j, v) ∷ whole)
unfolding lookup
Within-cons j v [] whole f w = tt
Within-cons j v ((i, u) ∷ limits) whole (other, f) (here, w) =
    (ground (arith, eq_iff i j, eq_iff j i), Within-cons j v limits whole f w)

Within-self : (limits : Ruleset) → HasDistinctKeys limits → Within limits limits
unfolding lookup
Within-self [] d = tt
Within-self ((j, v) ∷ limits) (f, d) =
    (rw (eq_refl j), Within-cons j v limits limits f (Within-self limits d))

recorded-ne-nil :
    (now : ℕ) (member : String) (limit window : ℕ) (z : Dict ℕ)
    → recorded now member limit window z ≢ []
unfolding recorded
recorded-ne-nil now member limit window z =
    elim (Bool-cases (leb (length (current now window z)) limit)) [
      | inl room ↦ rw room (insert-ne-nil member now (current now window z))
      | inr full ↦
          rw full (λ e. let short : length (current now window z) ≡ 0 = ap length e in ground arith)
    ]

module _ (redis : SortedSets) (numbers : NumberText) where
  open redis use {Db, zset, first_of_members, first_of_empty, zset-expire_zero}
  open numbers use {tostring, float}

  -- The rows of a script each have a first member.
  first-visit :
      (now : ℕ) (key : String) (limit window : ℕ) (db : Db)
      → 0 < window
      → (m : String) × ((visit redis numbers now key limit window db).1.first ≡ some m)
  first-visit now key limit window db p =
      let db' = (visit redis numbers now key limit window db).0 in
      let some_members : zset db' key ≢ [] = λ e.
        recorded-ne-nil now (tostring now) limit window (zset db key)
          (sym (zset-visit redis numbers now key limit window db key p ∙ rw (eq_refl key)) ∙ e) in
      let (m, s, first, _, _) = first_of_members key db' some_members in (m, unfold visit in first)

  deny_list_total :
      (now now' : ℕ) (limits whole : Ruleset) (db : Db)
      → IsPositive limits
      → Within limits whole
      → let rows = (run_script redis numbers now limits db).1 in
        (denies : List Deny) × (deny_list numbers now' whole rows ≡ ok denies)
        × (length denies ≡ length limits)
        × (any over_deny denies ≡ any over rows)
  unfolding run_script deny_list visit
  deny_list_total now now' [] whole db p w = ([], refl, refl, refl)
  deny_list_total now now' ((key, (limit, window)) ∷ limits) whole db (p, ps) (here, w) =
      let (m, first) = first-visit now key limit window db p in
      let (denies, rest, n, same) =
        deny_list_total now now' limits whole (visit redis numbers now key limit window db).0 ps
          w in
      let row = (visit redis numbers now key limit window db).1 in
      (
        record { limit = row.limit; amount = row.amount; reset = sub_ℕ (float m + window) now' }
            ∷ denies,
        rw (here, first, rest),
        ap suc n,
        rw same,
      )

  -- A text identifier and positive intervals: no exception, one tuple for each key of the ruleset,
  -- and a tuple is over its limit exactly if a row of the script is.
  pub is_deny_total :
      (now now' : ℕ) (s : String) (rules : List LimitRule) (db : Db)
      → HasIntervals rules
      → (limits : Ruleset) × (denies : List Deny) × (get_ruleset (text s) rules ≡ ok limits)
        × HasDistinctKeys limits
        × IsPositive limits
        × (is_deny redis numbers now now' (text s) rules db
            ≡ ((run_script redis numbers now limits db).0, ok denies))
        × (length denies ≡ length limits)
        × (any over_deny denies ≡ any over (run_script redis numbers now limits db).1)
  unfolding is_deny
  is_deny_total now now' s rules db h =
      let (limits, made, d, p) = get_ruleset_total s rules h in
      let (denies, e, n, same) =
        deny_list_total now now' limits limits db p (Within-self limits d) in
      (limits, denies, made, d, p, rw (made, e), n, same)

  -- A row of an interval of zero has no first member.
  first-visit_zero :
      (now : ℕ) (key : String) (limit window : ℕ) (db : Db)
      → window ≡ 0
      → (visit redis numbers now key limit window db).1.first ≡ none
  unfolding visit
  first-visit_zero now key limit window db zero_window =
      let db' = (admit redis numbers now key limit window db).0 in
      rw zero_window (
        let db'' = (admit redis numbers now key limit 0 db).0 in
        first_of_empty key (redis.expire key 0 db'')
          (zset-expire_zero key db'' key ∙ rw (eq_refl key)))

  deny_list_zero :
      (now now' : ℕ) (limits whole : Ruleset) (db : Db) (asked : String) (limit : ℕ)
      → Within limits whole
      → lookup asked limits ≡ some (limit, 0)
      → deny_list numbers now' whole (run_script redis numbers now limits db).1 ≡ err index_error
  unfolding run_script deny_list lookup visit
  deny_list_zero now now' [] whole db asked limit w e = ground arith
  deny_list_zero now now' ((key, (l, window)) ∷ limits) whole db asked limit (here, w) e =
      elim (Bool-cases (ltb 0 window)) [
        | inr zero_window ↦ rw (here, first-visit_zero now key l window db (ground arith)) refl
        | inl positive ↦
            let (m, first) = first-visit now key l window db (ltb→lt 0 window positive) in
            let later : lookup asked limits ≡ some (limit, 0) = unfold lookup in ground arith in
            rw
              (
                here,
                first,
                deny_list_zero now now' limits whole (visit redis numbers now key l window db).0
                    asked limit w later,
              )
              refl
      ]

  -- With an interval of zero, Redis deletes the key before the script reads its first member: if a
  -- rule has that interval and no rule behind it has the same key, `is_deny` raises `IndexError`,
  -- whatever the other rules are.
  pub is_deny_zero_interval :
      (now now' : ℕ) (s : String) (before later : List LimitRule) (rule : LimitRule) (db : Db)
      → rule.interval ≡ 0
      → IsLastOfKey s rule later
      → (is_deny redis numbers now now' (text s) (before ++ rule ∷ later) db).1 ≡ err index_error
  unfolding is_deny
  is_deny_zero_interval now now' s before later rule db zero_interval last =
      let limits = ruleset_from s (before ++ rule ∷ later) [] in
      rw (get_ruleset_full s before rule later) (
        deny_list_zero now now' limits limits db (String.◌++◌ s rule.throttle_key) rule.max_requests
          (Within-self limits (HasDistinctKeys-ruleset_from s (before ++ rule ∷ later) [] tt))
          (lookup-ruleset_from s before rule later [] last
            ∙ ap (λ (n : ℕ). some (rule.max_requests, n)) zero_interval))
