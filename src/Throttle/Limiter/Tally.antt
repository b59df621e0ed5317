-- ===== src/Throttle/Limiter/Tally.antt =====
-- A number text for concrete runs: a stroke for each unit.
use Prim.Native.String.{String}
use webtool.Prelude.{ℕ, zero, suc, ◌≡◌, refl, ap}
use webtool.Throttle.Limiter.{NumberText}

unfoldable pub strokes : ℕ → String
strokes zero = ""
strokes (suc n) = String.◌∷◌ "|" (strokes n)

unfoldable pub count_strokes : String → ℕ
count_strokes String.[] = 0
count_strokes (String.◌∷◌ c s) = suc (count_strokes s)

pub count_strokes_lem : (n : ℕ) → count_strokes (strokes n) ≡ n
unfolding strokes count_strokes
count_strokes_lem zero = refl
count_strokes_lem (suc n) = ap suc (count_strokes_lem n)

abbrev pub tally : NumberText
tally = record { tostring = strokes; float = count_strokes; float-tostring = count_strokes_lem }
