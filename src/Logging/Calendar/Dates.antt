-- ===== src/Logging/Calendar/Dates.antt =====
-- The next midnight, and the texts of dates.
use Prim.Native.Nat.{◌/◌, ◌%◌}
use Prim.Native.Char.{Char}
use webtool.Prelude.{
  ℕ, zero, suc, ltb, String, ◌+◌, ◌-◌, ◌*◌, ◌≤◌, ◌<◌, ◌≡◌, refl, Bool, true, ◌&&◌, arith,
}
use webtool.Logging.Calendar.{
  Date, is_digit, char_at, digit, format, fullmatch, year_of, year_days, gmtime, strftime,
  compute_rollover, hour, minute, second,
}

time_of_day : (t : ℕ) → (hour t * 60 + minute t) * 60 + second t ≡ t % 86400
unfolding hour minute second
time_of_day t = omega arith

-- `computeRollover` returns the first midnight, in UTC, after the given time.
rollover_left : (t : ℕ) → compute_rollover t ≡ t + (86400 - t % 86400)
unfolding compute_rollover
rollover_left t = rw (time_of_day t) (ground arith)

-- `computeRollover` returns the first midnight, in UTC, after the given time.
pub compute_rollover_lem :
    (t : ℕ)
    → (compute_rollover t % 86400 ≡ 0)
      × (t < compute_rollover t)
      × (compute_rollover t ≤ t + 86400)
      × ((m : ℕ) → m % 86400 ≡ 0 → t < m → compute_rollover t ≤ m)
compute_rollover_lem t =
    rw (rollover_left t) (omega arith, omega arith, omega arith, λ m e lt. omega arith)

abbrev all_digits : String → Bool
all_digits String.[] = true
all_digits (String.◌∷◌ c s) = is_digit c && all_digits s

digit_at : (s : String) (n : ℕ) → all_digits s ≡ true → is_digit (char_at s n) ≡ true
digit_at String.[] n h = refl
digit_at (String.◌∷◌ c s) zero h = ground arith
digit_at (String.◌∷◌ c s) (suc n) h = digit_at s n (ground arith)

digit-is_digit : (n : ℕ) → is_digit (digit n) ≡ true
digit-is_digit n = digit_at "0123456789" n refl

abbrev date_text : Char → Char → Char → Char → Char → Char → Char → Char → String
date_text a b c d e f g h = String.◌∷◌ a (
    String.◌∷◌ b (
      String.◌∷◌ c (
        String.◌∷◌ d (
          String.◌∷◌ "-" (
            String.◌∷◌ e
              (String.◌∷◌ f (String.◌∷◌ "-" (String.◌∷◌ g (String.◌∷◌ h String.[])))))))))

digits-fullmatch :
    (a b c d e f g h : Char)
    → (is_digit a ≡ true) × (is_digit b ≡ true) × (is_digit c ≡ true) × (is_digit d ≡ true)
    → (is_digit e ≡ true) × (is_digit f ≡ true) × (is_digit g ≡ true) × (is_digit h ≡ true)
    → fullmatch (date_text a b c d e f g h) ≡ true
unfolding fullmatch
digits-fullmatch a b c d e f g h (ha, hb, hc, hd) (he, hf, hg, hh) = ground arith

-- A date of a year with four digits is written in the form that `extMatch` accepts.
format-fullmatch : (d : Date) → d.year < 10000 → fullmatch (format d) ≡ true
format-fullmatch d small =
    let one : ltb (d.year / 1000) 10 ≡ true = ground arith in
    let ok = digit-is_digit in
    rw one (
      digits-fullmatch (digit (d.year / 1000)) (digit (d.year / 100 % 10))
        (digit (d.year / 10 % 10)) (digit (d.year % 10)) (digit (d.month / 10 % 10))
        (digit (d.month % 10)) (digit (d.day / 10 % 10)) (digit (d.day % 10))
        (ok (d.year / 1000), ok (d.year / 100 % 10), ok (d.year / 10 % 10), ok (d.year % 10))
        (ok (d.month / 10 % 10), ok (d.month % 10), ok (d.day / 10 % 10), ok (d.day % 10)))

-- Each year takes at least 365 days.
year_of-bound :
    (fuel y days : ℕ)
    → days < fuel
    → (year_of fuel y days).0 * 365 + (year_of fuel y days).1 ≤ y * 365 + days
unfolding year_of
year_of-bound zero y days h = ground arith
year_of-bound (suc fuel) y days h = ground (arith, year_of-bound fuel (suc y) (days - year_days y))

pub gmtime-year : (t : ℕ) → t < 253183104000 → (gmtime t).year < 10000
unfolding gmtime
gmtime-year t small = omega (arith, year_of-bound (suc (t / 86400)) 1970 (t / 86400) (omega arith))

pub strftime-fullmatch : (t : ℕ) → t < 253183104000 → fullmatch (strftime t) ≡ true
unfolding strftime
strftime-fullmatch t small = format-fullmatch (gmtime t) (gmtime-year t small)
