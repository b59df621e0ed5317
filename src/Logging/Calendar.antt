-- ===== src/Logging/Calendar.antt =====
-- The dates of webtool/logger/dev_handler.py: `time.gmtime`, `time.strftime` with "%Y-%m-%d", and
-- the pattern of the dated files, over the characters of a name.
pub mod Dates
pub mod Order
pub mod Texts
mod Tests
use Prim.Native.Nat.{◌/◌, ◌%◌}
use Prim.Native.Char.{Char, code}
use Prim.Native.String
use webtool.Prelude.{
  ℕ, zero, suc, ◌+◌, ◌-◌, ◌*◌, String, Bool, true, false, not, ◌&&◌, ◌||◌, Option, none, some, List,
  [], ◌∷◌, ltb, leb, ◌==◌, if◌then◌else◌,
}

-- The fields of `gmtime` that `computeRollover` reads: `t[3]`, `t[4]`, `t[5]`.
unfoldable pub hour : ℕ → ℕ
hour t = t / 3600 % 24

unfoldable pub minute : ℕ → ℕ
minute t = t / 60 % 60

unfoldable pub second : ℕ → ℕ
second t = t % 60

abbrev pub midnight : ℕ
midnight = 86400

unfoldable pub compute_rollover : ℕ → ℕ
unfolding hour minute second
compute_rollover current_time =
    let r =
      midnight - ((hour current_time * 60 + minute current_time) * 60 + second current_time) in
    let r' = if leb r 0 then r + midnight else r in current_time + r'

-- The Gregorian calendar.
abbrev pub is_leap : ℕ → Bool
is_leap y = (y % 4 == 0) && (not (y % 100 == 0) || (y % 400 == 0))

abbrev pub year_days : ℕ → ℕ
year_days y = if is_leap y then 366 else 365

abbrev pub month_lengths : ℕ → List ℕ
month_lengths y =
    31 ∷ (if is_leap y then 29 else 28) ∷ 31 ∷ 30 ∷ 31 ∷ 30 ∷ 31 ∷ 31 ∷ 30 ∷ 31 ∷ 30 ∷ 31 ∷ []

-- The year that starts `days` before, and the day in it, from a year before it: each year takes
-- some days, so that fuel above the number of days is enough.
unfoldable pub year_of : ℕ → ℕ → ℕ → ℕ × ℕ
year_of zero y days = (y, days)
year_of (suc fuel) y days =
    let rest = year_of fuel (suc y) (days - year_days y) in
    if ltb days (year_days y) then (y, days) else rest

unfoldable pub month_of : List ℕ → ℕ → ℕ → ℕ × ℕ
month_of [] m days = (m, days)
month_of (l ∷ ls) m days =
    let rest = month_of ls (suc m) (days - l) in if ltb days l then (m, days) else rest

pub record Date : Type 0 where
  pub year : ℕ
  pub month : ℕ
  pub day : ℕ

-- `gmtime` of seconds after 1970-01-01.
unfoldable pub gmtime : ℕ → Date
gmtime t =
    let (y, d) = year_of (suc (t / 86400)) 1970 (t / 86400) in
    let (m, d') = month_of (month_lengths y) 1 d in record { year = y; month = m; day = suc d' }

-- The character at a position, or the last one.
abbrev pub char_at : String → ℕ → Char
char_at String.[] n = "9"
char_at (String.◌∷◌ c s) zero = c
char_at (String.◌∷◌ c s) (suc n) = char_at s n

abbrev pub digit : ℕ → Char
digit n = char_at "0123456789" n

-- The decimal digits of a number below 10 ^ fuel, in front of a text.
abbrev pub decimal : ℕ → ℕ → String → String
decimal zero n s = s
decimal (suc fuel) n s =
    let rest = decimal fuel (n / 10) (String.◌∷◌ (digit (n % 10)) s) in
    if ltb n 10 then String.◌∷◌ (digit n) s else rest

abbrev pub two_digits : ℕ → String → String
two_digits n s = String.◌∷◌ (digit (n / 10 % 10)) (String.◌∷◌ (digit (n % 10)) s)

-- "%Y-%m-%d", for a year from 1000 on.
abbrev pub format : Date → String
format d = decimal (suc (d.year / 1000)) (d.year / 1000) (
    String.◌∷◌ (digit (d.year / 100 % 10)) (
      two_digits d.year
        (String.◌∷◌ "-" (two_digits d.month (String.◌∷◌ "-" (two_digits d.day String.[]))))))

unfoldable pub strftime : ℕ → String
strftime t = format (gmtime t)

abbrev pub is_digit : Char → Bool
is_digit c = leb b'0' (code c) && leb (code c) b'9'

-- The parts of "\d{4}-\d{2}-\d{2}", which ASCII digits match.
pub data Part : Type 0 where
  any_digit dash : Part

abbrev pub accepts : Part → Char → Bool
accepts any_digit c = is_digit c
accepts dash c = code c == b'-'

abbrev pub pattern : List Part
pattern =
    any_digit ∷ any_digit ∷ any_digit ∷ any_digit ∷ dash ∷ any_digit ∷ any_digit ∷ dash ∷ any_digit
    ∷ any_digit ∷ []

-- What the parts match at the start of a text, and what follows it.
abbrev pub match : List Part → String → Option (String × String)
match [] s = some (String.[], s)
match (p ∷ ps) String.[] = none
match (p ∷ ps) (String.◌∷◌ c s) = elim (match ps s) [
  | none ↦ none
  | some (m, after) ↦ if accepts p c then some (String.◌∷◌ c m, after) else none
]

abbrev pub starts_with_digit : String → Bool
starts_with_digit String.[] = false
starts_with_digit (String.◌∷◌ c s) = is_digit c

abbrev ends : Option (String × String) → Bool
ends none = false
ends (some (m, String.[])) = true
ends (some (m, String.◌∷◌ c s)) = false

-- `self.extMatch.fullmatch(s)`: no digit stands before or after the text.
unfoldable pub fullmatch : String → Bool
fullmatch s = ends (match pattern s)

abbrev first_match : Bool → Option (String × String) → List String → List String
first_match true o ms = ms
first_match false none ms = ms
first_match false (some (m, after)) ms = if starts_with_digit after then ms else m ∷ ms

-- What `search` finds in a text, one start after the other; the flag tells whether the character
-- before is a digit.
unfoldable pub matches : Bool → String → List String
matches before String.[] = []
matches before (String.◌∷◌ c s) =
    first_match before (match pattern (String.◌∷◌ c s)) (matches (is_digit c) s)
