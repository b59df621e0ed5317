-- ===== src/Logging/Calendar/Texts.antt =====
-- Later dates have later texts.
use Prim.Native.Nat.{◌/◌, ◌%◌}
use Prim.Native.Char.{code}
use webtool.Prelude.{
  ℕ, zero, suc, ◌+◌, ◌≤◌, ◌<◌, String, ◌≡◌, ◌⊎◌, inl, inr, refl, ap, true, Bool-cases, ltb, ltb→lt,
  arith,
}
use webtool.Prelude.Order.{str_leb}
use webtool.Logging.Calendar.Dates.{gmtime-year}
use webtool.Logging.Calendar.Order.{IsBefore, gmtime-IsBefore, gmtime-bounds}
use webtool.Logging.Calendar.{two_digits, Date, gmtime, char_at, digit, format, strftime}

-- A text of characters with consecutive numbers.
abbrev IsRun : ℕ → String → Type 0
IsRun c String.[] = Unit
IsRun c (String.◌∷◌ d s) = (code d ≡ c) × IsRun (suc c) s

abbrev size : String → ℕ
size String.[] = 0
size (String.◌∷◌ c s) = suc (size s)

code-char_at : (c : ℕ) (s : String) (n : ℕ) → IsRun c s → n < size s → code (char_at s n) ≡ c + n
code-char_at c String.[] n h lt = ground arith
code-char_at c (String.◌∷◌ d s) zero (e, h) lt = omega (arith, e)
code-char_at c (String.◌∷◌ d s) (suc n) (e, h) lt =
    omega (arith, code-char_at (suc c) s n h (omega arith))

code-digit : (n : ℕ) → n < 10 → code (digit n) ≡ 48 + n
code-digit n lt =
    code-char_at 48 "0123456789" n
      (refl, (refl, (refl, (refl, (refl, (refl, (refl, (refl, (refl, (refl, tt)))))))))) lt

-- The first characters decide, where they differ.
digit_leb :
    (a a' : ℕ) (s s' : String)
    → a < 10
    → a' < 10
    → (a < a') ⊎ ((a ≡ a') × (str_leb s s' ≡ true))
    → str_leb (String.◌∷◌ (digit a) s) (String.◌∷◌ (digit a') s') ≡ true
unfolding str_leb
digit_leb a a' s s' lt lt' h = ground (arith, code-digit a lt, code-digit a' lt', h)

dash_leb :
    (s s' : String) → str_leb s s' ≡ true → str_leb (String.◌∷◌ "-" s) (String.◌∷◌ "-" s') ≡ true
unfolding str_leb
dash_leb s s' h = h

map_rest : {A B R R' : Type 0} → A ⊎ (B × R) → (R → R') → A ⊎ (B × R')
map_rest (inl a) f = inl a
map_rest (inr (b, r)) f = inr (b, f r)

-- A comparison of two numbers is one of their digits.
split_digit :
    {R : Type 0} (x x' : ℕ)
    → (x < x') ⊎ ((x ≡ x') × R)
    → (x / 10 < x' / 10) ⊎ ((x / 10 ≡ x' / 10) × ((x % 10 < x' % 10) ⊎ ((x % 10 ≡ x' % 10) × R)))
split_digit x x' (inl lt) = elim (Bool-cases (ltb (x / 10) (x' / 10))) [
  | inl less ↦ inl (ltb→lt (x / 10) (x' / 10) less)
  | inr no' ↦ let ge : x' / 10 ≤ x / 10 = ground arith in inr (omega arith, inl (omega arith))
]
split_digit x x' (inr (e, r)) = inr (ap (λ n. n / 10) e, inr (ap (λ n. n % 10) e, r))

two_digits_leb :
    (m m' : ℕ) (s s' : String)
    → m < 100
    → m' < 100
    → (m < m') ⊎ ((m ≡ m') × (str_leb s s' ≡ true))
    → str_leb (two_digits m s) (two_digits m' s') ≡ true
two_digits_leb m m' s s' lt lt' h =
    let e : m / 10 % 10 ≡ m / 10 = omega arith in
    let e' : m' / 10 % 10 ≡ m' / 10 = omega arith in
    rw (e, e')
      (digit_leb (m / 10) (m' / 10) (String.◌∷◌ (digit (m % 10)) s)
        (String.◌∷◌ (digit (m' % 10)) s') (omega arith) (omega arith)
        (map_rest (split_digit m m' h)
          (digit_leb (m % 10) (m' % 10) s s' (omega arith) (omega arith))))

abbrev four_digits : ℕ → String → String
four_digits y s = String.◌∷◌ (digit (y / 1000)) (String.◌∷◌ (digit (y / 100 % 10)) (two_digits y s))

div_hundred : (y : ℕ) → y / 10 / 10 ≡ y / 100
div_hundred y = omega arith

div_thousand : (y : ℕ) → y / 10 / 10 / 10 ≡ y / 1000
div_thousand y = omega arith

split_year :
    {R : Type 0} (y y' : ℕ)
    → (y < y') ⊎ ((y ≡ y') × R)
    → (y / 1000 < y' / 1000)
      ⊎ ((y / 1000 ≡ y' / 1000)
          × ((y / 100 % 10 < y' / 100 % 10)
              ⊎ ((y / 100 % 10 ≡ y' / 100 % 10)
                  × ((y / 10 % 10 < y' / 10 % 10)
                      ⊎ ((y / 10 % 10 ≡ y' / 10 % 10)
                          × ((y % 10 < y' % 10) ⊎ ((y % 10 ≡ y' % 10) × R)))))))
split_year y y' h =
    rw (← div_thousand y, ← div_thousand y', ← div_hundred y, ← div_hundred y')
      (split_digit (y / 10 / 10) (y' / 10 / 10)
        (split_digit (y / 10) (y' / 10) (split_digit y y' h)))

four_digits_leb :
    (y y' : ℕ) (s s' : String)
    → y < 10000
    → y' < 10000
    → (y < y') ⊎ ((y ≡ y') × (str_leb s s' ≡ true))
    → str_leb (four_digits y s) (four_digits y' s') ≡ true
four_digits_leb y y' s s' lt lt' h =
    digit_leb (y / 1000) (y' / 1000) _ _ (omega arith) (omega arith) (
      map_rest (split_year y y' h) (λ c.
        digit_leb (y / 100 % 10) (y' / 100 % 10) _ _ (omega arith) (omega arith) (
          map_rest c (λ d.
            digit_leb (y / 10 % 10) (y' / 10 % 10) _ _ (omega arith) (omega arith)
              (map_rest d (digit_leb (y % 10) (y' % 10) s s' (omega arith) (omega arith)))))))

abbrev IsWritable : Date → Type 0
IsWritable d = (d.year < 10000) × (d.month < 100) × (d.day < 100)

written :
    (d : Date)
    → d.year < 10000
    → format d
      ≡ four_digits d.year
          (String.◌∷◌ "-" (two_digits d.month (String.◌∷◌ "-" (two_digits d.day String.[]))))
written d lt = let one : ltb (d.year / 1000) 10 ≡ true = ground arith in rw one refl

day_cases : (d d' : ℕ) → d ≤ d' → (d < d') ⊎ ((d ≡ d') × (str_leb String.[] String.[] ≡ true))
unfolding str_leb
day_cases d d' le = elim (Bool-cases (ltb d d')) [
  | inl lt ↦ inl (ltb→lt d d' lt)
  | inr no' ↦ inr (ground arith, refl)
]

format_mono :
    (d d' : Date)
    → IsWritable d
    → IsWritable d'
    → IsBefore d d'
    → str_leb (format d) (format d') ≡ true
format_mono d d' (y, m, n) (y', m', n') h =
    rw (written d y, written d' y')
      (four_digits_leb d.year d'.year _ _ y y' (
        map_rest h (λ c. dash_leb _ _ (
          two_digits_leb d.month d'.month _ _ m m' (
            map_rest c (λ le. dash_leb _ _ (
              two_digits_leb d.day d'.day String.[] String.[] n n'
                (day_cases d.day d'.day le))))))))

gmtime-IsWritable : (t : ℕ) → t < 253183104000 → IsWritable (gmtime t)
gmtime-IsWritable t early =
    let (m, d) = gmtime-bounds t in (gmtime-year t early, omega arith, omega arith)

-- Until the year 9993, the text of a later time does not come before that of an earlier one.
pub strftime_mono :
    (t t' : ℕ) → t ≤ t' → t' < 253183104000 → str_leb (strftime t) (strftime t') ≡ true
unfolding strftime
strftime_mono t t' le early =
    format_mono (gmtime t) (gmtime t') (gmtime-IsWritable t (omega arith))
      (gmtime-IsWritable t' early) (gmtime-IsBefore t t' le)
