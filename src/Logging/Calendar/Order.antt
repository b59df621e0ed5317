-- ===== src/Logging/Calendar/Order.antt =====
-- Later times have later dates.
use Prim.Native.Nat.{◌/◌}
use webtool.Prelude.{
  ℕ, zero, suc, ◌+◌, ◌-◌, ◌≤◌, ◌<◌, ◌≡◌, ◌⊎◌, inl, inr, refl, Bool, true, false, Bool-cases, List,
  [], ◌∷◌, All, length, ltb, ltb→lt, arith, if◌then◌else◌,
}
use webtool.Logging.Calendar.{is_leap, year_of, year_days, month_of, month_lengths, Date, gmtime}

year_of-ge : (fuel y days : ℕ) → y ≤ (year_of fuel y days).0
unfolding year_of
year_of-ge zero y days = omega arith
year_of-ge (suc fuel) y days = ground (arith, year_of-ge fuel (suc y) (days - year_days y))

year_of_mono :
    (fuel fuel' y days days' : ℕ)
    → days < fuel
    → days' < fuel'
    → days ≤ days'
    → ((year_of fuel y days).0 < (year_of fuel' y days').0)
      ⊎ (((year_of fuel y days).0 ≡ (year_of fuel' y days').0)
          × ((year_of fuel y days).1 ≤ (year_of fuel' y days').1))
unfolding year_of
year_of_mono zero fuel' y days days' lt lt' le = ground arith
year_of_mono (suc fuel) zero y days days' lt lt' le = ground arith
year_of_mono (suc fuel) (suc fuel') y days days' lt lt' le = ground (
  arith,
  year_of-ge fuel' (suc y) (days' - year_days y),
  year_of_mono fuel fuel' (suc y) (days - year_days y) (days' - year_days y),
)

year_days-pos : (y : ℕ) → 0 < year_days y
year_days-pos y = ground arith

rest_lt : (d l fuel : ℕ) → d < suc fuel → 0 < l → l ≤ d → d - l < fuel
rest_lt d l fuel h pos le = omega arith

not_lt : (d l : ℕ) → ltb d l ≡ false → l ≤ d
not_lt d l h = ground arith

year_of-rest :
    (fuel y days : ℕ) → days < fuel → (year_of fuel y days).1 < year_days (year_of fuel y days).0
unfolding year_of
year_of-rest zero y days lt = ground arith
year_of-rest (suc fuel) y days lt = elim (Bool-cases (ltb days (year_days y))) [
  | inl small ↦ rw small (ltb→lt days (year_days y) small)
  | inr big ↦ rw big (
      year_of-rest fuel (suc y) (days - year_days y)
        (rest_lt days (year_days y) fuel lt (year_days-pos y) (not_lt days (year_days y) big)))
]

month_of-ge : (ls : List ℕ) (m days : ℕ) → m ≤ (month_of ls m days).0
unfolding month_of
month_of-ge [] m days = omega arith
month_of-ge (l ∷ ls) m days = ground (arith, month_of-ge ls (suc m) (days - l))

month_of_mono :
    (ls : List ℕ) (m days days' : ℕ)
    → days ≤ days'
    → ((month_of ls m days).0 < (month_of ls m days').0)
      ⊎ (((month_of ls m days).0 ≡ (month_of ls m days').0)
          × ((month_of ls m days).1 ≤ (month_of ls m days').1))
unfolding month_of
month_of_mono [] m days days' le = inr (refl, le)
month_of_mono (l ∷ ls) m days days' le =
    ground
      (arith, month_of-ge ls (suc m) (days' - l), month_of_mono ls (suc m) (days - l) (days' - l))

abbrev sum : List ℕ → ℕ
sum [] = 0
sum (l ∷ ls) = l + sum ls

month_of-bounds :
    (ls : List ℕ) (m days : ℕ)
    → All (λ l. l ≤ 31) ls
    → days < sum ls
    → ((month_of ls m days).0 < m + length ls) × ((month_of ls m days).1 < 31)
unfolding month_of
month_of-bounds [] m days h lt = ground arith
month_of-bounds (l ∷ ls) m days (h, hs) lt = elim (Bool-cases (ltb days l)) [
  | inl small ↦ rw small (omega arith, (let lt' = ltb→lt days l small in omega arith))
  | inr big ↦
      let le = not_lt days l big in
      let (a, b) = month_of-bounds ls (suc m) (days - l) hs (omega arith) in rw big (omega arith, b)
]

february : (b : Bool) → (if b then 29 else 28) ≤ 31
february true = omega arith
february false = omega arith

lengths_le : (y : ℕ) → All (λ l. l ≤ 31) (month_lengths y)
lengths_le y = (
  omega arith,
  (
    february (is_leap y),
    (
      omega arith,
      (
        omega arith,
        (
          omega arith,
          (
            omega arith,
            (
              omega arith,
              (omega arith, (omega arith, (omega arith, (omega arith, (omega arith, tt))))),
            ),
          ),
        ),
      ),
    ),
  ),
)

sum_by_leap : (b : Bool) → 31 + ((if b then 29 else 28) + 306) ≡ (if b then 366 else 365)
sum_by_leap true = refl
sum_by_leap false = refl

sum-month_lengths : (y : ℕ) → sum (month_lengths y) ≡ year_days y
sum-month_lengths y = sum_by_leap (is_leap y)

-- One date is not after the other.
abbrev pub IsBefore : Date → Date → Type 0
IsBefore d d' =
    (d.year < d'.year)
    ⊎ ((d.year ≡ d'.year) × ((d.month < d'.month) ⊎ ((d.month ≡ d'.month) × (d.day ≤ d'.day))))

abbrev date_of : ℕ → ℕ → Date
date_of y d = record {
  year = y;
  month = (month_of (month_lengths y) 1 d).0;
  day = suc (month_of (month_lengths y) 1 d).1;
}

date_of-IsBefore :
    (y y' d d' : ℕ) → (y < y') ⊎ ((y ≡ y') × (d ≤ d')) → IsBefore (date_of y d) (date_of y' d')
date_of-IsBefore y y' d d' (inl lt) = inl lt
date_of-IsBefore y y' d d' (inr (e, le)) = inr (
  e,
  rw (← e) (elim (month_of_mono (month_lengths y) 1 d d' le) [
    | inl lt ↦ inl lt
    | inr (same, le') ↦ inr (same, omega arith)
  ]),
)

pub gmtime-IsBefore : (t t' : ℕ) → t ≤ t' → IsBefore (gmtime t) (gmtime t')
unfolding gmtime
gmtime-IsBefore t t' le = date_of-IsBefore _ _ _ _ (
    year_of_mono (suc (t / 86400)) (suc (t' / 86400)) 1970 (t / 86400) (t' / 86400) (omega arith)
      (omega arith) (omega arith))

-- The months and days of a date have at most two digits.
pub gmtime-bounds : (t : ℕ) → ((gmtime t).month < 13) × ((gmtime t).day < 32)
unfolding gmtime
gmtime-bounds t =
    let n = t / 86400 in
    let y = (year_of (suc n) 1970 n).0 in
    let d = (year_of (suc n) 1970 n).1 in
    let within : d < sum (month_lengths y) =
      rw (sum-month_lengths y) (year_of-rest (suc n) 1970 n (omega arith)) in
    let (m, r) = month_of-bounds (month_lengths y) 1 d (lengths_le y) within in
    (omega (arith, m), omega (arith, r))
