-- ===== src/Prelude/Bytes.antt =====
-- `bytes` objects as lists of their bytes, and the methods of theirs that the code calls.
use Prim.Native.Char.{code}
use Prim.Native.Nat.{ℕ, zero, suc, ◌+◌, ◌-◌}
use Prim.Native.String.{String}
use mathlib.Core.Bool.{Bool, true, false, ◌&&◌}
use mathlib.Core.Option.{Option, none, some}
use mathlib.Core.List.{List, [], ◌∷◌}
use webtool.Prelude.Tests.{◌==◌, leb, if◌then◌else◌}
use webtool.Prelude.Lists.{length}

abbrev pub Bytes : Type 0
Bytes = List ℕ

-- The code points of a text; of an ASCII literal, its bytes.
abbrev pub codes : String → List ℕ
codes String.[] = []
codes (String.◌∷◌ c s) = code c ∷ codes s

abbrev pub same_bytes : Bytes → Bytes → Bool
same_bytes [] [] = true
same_bytes [] (_ ∷ _) = false
same_bytes (_ ∷ _) [] = false
same_bytes (x ∷ xs) (y ∷ ys) = x == y && same_bytes xs ys

-- `bytes.startswith`
abbrev pub starts_with : Bytes → Bytes → Bool
starts_with [] s = true
starts_with (x ∷ xs) [] = false
starts_with (x ∷ xs) (y ∷ ys) = x == y && starts_with xs ys

-- The scan of `bytes.split`: the first piece and the others. The number is how much of a separator
-- is still to be passed over.
abbrev pub pieces : Bytes → ℕ → Bytes → Bytes × List Bytes
pieces sep k [] = ([], [])
pieces sep (suc k) (x ∷ xs) = pieces sep k xs
pieces sep zero (x ∷ xs) = elim (starts_with sep (x ∷ xs)) [
  | true ↦ let (p, ps) = pieces sep (length sep - 1) xs in ([], p ∷ ps)
  | false ↦ let (p, ps) = pieces sep zero xs in (x ∷ p, ps)
]

abbrev pub split : Bytes → Bytes → List Bytes
split sep s = let (p, ps) = pieces sep 0 s in p ∷ ps

-- `bytes.partition` at one byte, without the middle part.
abbrev pub partition : ℕ → Bytes → Bytes × Bytes
partition c [] = ([], [])
partition c (x ∷ xs) =
    let (before, after) = partition c xs in if x == c then ([], xs) else (x ∷ before, after)

-- `bytes.lower`
abbrev pub lower : Bytes → Bytes
lower [] = []
lower (x ∷ xs) = (if leb 65 x && leb x 90 then x + 32 else x) ∷ lower xs

-- `dict(pairs).get(key)`: the last pair of a key counts.
abbrev pub last_value : Bytes → List (Bytes × Bytes) → Option Bytes
last_value key [] = none
last_value key ((k, v) ∷ pairs) = elim (last_value key pairs) [
  | some w ↦ some w
  | none ↦ if same_bytes k key then some v else none
]
