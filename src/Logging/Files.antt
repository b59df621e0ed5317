-- ===== src/Logging/Files.antt =====
-- The directory of a log file, as webtool/logger/dev_handler.py uses it through `os` and its
-- stream: a listing of names with what they hold. No call fails, and no other process takes part.
pub mod Lookups
pub mod Holds
use Prim.Native.String
use webtool.Prelude.{
  ℕ, suc, ◌+◌, ◌-◌, String, Bool, true, false, not, ◌&&◌, Option, none, some, List, [], ◌∷◌, ◌++◌,
  is_some, ltb, leb, str_eq, if◌then◌else◌,
}
use webtool.Prelude.Dict.{Dict, lookup, insert, remove}

-- A regular file is the list of its lines; anything else, such as a device, keeps nothing.
pub data File : Type 0 where
  regular : List String → File
  special : File

abbrev pub Directory : Type 0
Directory = Dict File

-- `os.path.exists(path) and not os.path.isfile(path)`
abbrev pub is_special : Option File → Bool
is_special none = false
is_special (some (regular ls)) = false
is_special (some special) = true

unfoldable pub is_not_file : String → Directory → Bool
is_not_file name d = is_special (lookup name d)

-- `os.listdir`
unfoldable pub listdir : Directory → List String
listdir [] = []
listdir ((name, f) ∷ d) = name ∷ listdir d

-- `open(path, "a")`
unfoldable pub open_append : String → Directory → Directory
open_append name d = if is_some (lookup name d) then d else insert name (regular []) d

abbrev pub add_line : String → Option File → File
add_line line none = regular (line ∷ [])
add_line line (some (regular ls)) = regular (ls ++ (line ∷ []))
add_line line (some special) = special

-- A line written to an open stream, at the end of its file.
unfoldable pub write_line : String → String → Directory → Directory
write_line name line d = insert name (add_line line (lookup name d)) d

abbrev moved : String → String → Directory → Option File → Directory
moved source dest d none = d
moved source dest d (some f) = insert dest f (remove source d)

-- `rotate`, without a custom rotator: `os.rename(source, dest)`, if the source exists.
unfoldable pub rotate : String → String → Directory → Directory
rotate source dest d = moved source dest d (lookup source d)

-- `os.remove` of each.
unfoldable pub remove_all : List String → Directory → Directory
remove_all [] d = d
remove_all (name ∷ names) d = remove_all names (remove name d)

module _ (size : String → ℕ) where
  abbrev lines_size : List String → ℕ
  lines_size [] = 0
  lines_size (l ∷ ls) = size l + lines_size ls

  abbrev size_of : Option File → ℕ
  size_of none = 0
  size_of (some (regular ls)) = lines_size ls
  size_of (some special) = 0

  -- `stream.tell()` of a stream that appends: `size` is the bytes of a line with its end.
  unfoldable pub tell : String → Directory → ℕ
  tell name d = size_of (lookup name d)
