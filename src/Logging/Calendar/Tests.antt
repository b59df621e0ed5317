-- ===== src/Logging/Calendar/Tests.antt =====
-- Runs of the calendar.
use webtool.Prelude.{◌≡◌, refl, true, false, [], ◌∷◌}
use webtool.Logging.Calendar.{format, strftime, gmtime, year_of, month_of, fullmatch, matches}

leap_day : strftime 1709210096 ≡ "2024-02-29"
unfolding strftime gmtime year_of month_of
leap_day = refl

new_year : strftime 1735689599 ≡ "2024-12-31"
unfolding strftime gmtime year_of month_of
new_year = refl

late : format (record { year = 10000; month = 1; day = 1 }) ≡ "10000-01-01"
late = refl

dated : fullmatch "2024-02-29" ≡ true
unfolding fullmatch
dated = refl

found : matches false "a2024-02-29b-2024-03-01" ≡ "2024-02-29" ∷ "2024-03-01" ∷ []
unfolding matches
found = refl
