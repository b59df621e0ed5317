-- ===== src/Logging/Handler.antt =====
-- webtool/logger/dev_handler.py, `TimedRotatingFileHandler`. Names are those of files in the
-- directory of the log file; a full path has the same directory in front, which changes no order.
-- Times are seconds after 1970. A method takes its readings of the clock.
pub mod Deletes
pub mod Names
pub mod Rotates
pub mod Stuck
pub mod Kept
pub mod Runs
mod Tests
use Prim.Native.String
use webtool.Prelude.{
  ℕ, suc, zero, ◌+◌, ◌-◌, String, Bool, true, false, not, ◌&&◌, ◌||◌, Option, none, some, List, [],
  ◌∷◌, is_some, any, keep, length, ltb, leb, str_eq, if◌then◌else◌,
}
use webtool.Prelude.Dict.{lookup}
use webtool.Prelude.Order.{sort}
use webtool.Prelude.Take.{take}
use webtool.Logging.Calendar.{compute_rollover, strftime, fullmatch, matches}
use webtool.Logging.Files.{
  Directory, is_not_file, listdir, open_append, write_line, rotate, remove_all, tell,
}

-- `stream` tells whether the log file is open. `namer` gives the name for a default name.
pub record Handler : Type 0 where
  pub base_filename : String
  pub backup_count : ℕ
  pub interval : ℕ
  pub max_bytes : ℕ
  pub delay : Bool
  pub namer : Option (String → String)
  pub stream : Bool
  pub rollover_at : ℕ

-- The handler and the directory.
abbrev pub State : Type 0
State = Handler × Directory

-- `__init__`: with `delay` the file is not opened. `t` is the time of the last change of the file,
-- if it exists, or else the current time. `namer` is no argument of the source: it is the attribute
-- that the base class sets to `None` and that a user may assign to the new handler.
unfoldable pub init : String → ℕ → ℕ → ℕ → Bool → Option (String → String) → ℕ → Directory → State
init filename interval max_bytes backup_count delay namer t d = (
  record {
    base_filename = filename;
    backup_count = backup_count;
    interval = interval;
    max_bytes = max_bytes;
    delay = delay;
    namer = namer;
    stream = not delay;
    rollover_at = compute_rollover t;
  },
  if delay then d else open_append filename d,
)

abbrev pub with_stream : Bool → Handler → Handler
with_stream b h = record {
  base_filename = h.base_filename;
  backup_count = h.backup_count;
  interval = h.interval;
  max_bytes = h.max_bytes;
  delay = h.delay;
  namer = h.namer;
  stream = b;
  rollover_at = h.rollover_at;
}

abbrev pub with_rollover_at : ℕ → Handler → Handler
with_rollover_at t h = record {
  base_filename = h.base_filename;
  backup_count = h.backup_count;
  interval = h.interval;
  max_bytes = h.max_bytes;
  delay = h.delay;
  namer = h.namer;
  stream = h.stream;
  rollover_at = t;
}

-- `if self.stream is None: self.stream = self._open()`
unfoldable pub opened : State → State
opened (h, d) = (with_stream true h, if h.stream then d else open_append h.base_filename d)

-- `self.rotation_filename(self.baseFilename + "." + suffix)`
unfoldable pub rotation_filename : Handler → String → String
rotation_filename h suffix =
    let default_name = String.◌++◌ h.base_filename (String.◌++◌ "." suffix) in
    elim h.namer [ none ↦ default_name | some namer ↦ namer default_name ]

-- What follows a prefix: `fileName[plen:]`, if `fileName[:plen] == prefix`.
abbrev pub after_prefix : String → String → Option String
after_prefix String.[] s = some s
after_prefix (String.◌∷◌ p ps) String.[] = none
after_prefix (String.◌∷◌ p ps) (String.◌∷◌ c cs) =
    let rest = after_prefix ps cs in
    if str_eq (String.◌∷◌ p String.[]) (String.◌∷◌ c String.[]) then rest else none

abbrev pub is_dated : Option String → Bool
is_dated none = false
is_dated (some suffix) = fullmatch suffix

-- The test of a file name in `getFilesToDelete`.
unfoldable pub listed : Handler → String → Bool
unfolding rotation_filename
listed h file_name = elim h.namer [
  | none ↦ is_dated (after_prefix (String.◌++◌ h.base_filename ".") file_name)
  | some namer ↦
      any (λ m. str_eq (namer (String.◌++◌ h.base_filename (String.◌++◌ "." m))) file_name)
        (matches false file_name)
]

abbrev pub oldest : ℕ → List String → List String
oldest backup_count result =
    if ltb (length result) backup_count
    then []
    else take (length result - backup_count) (sort result)

unfoldable pub get_files_to_delete : State → List String
get_files_to_delete (h, d) = oldest h.backup_count (keep (listed h) (listdir d))

module _ (size : String → ℕ) where
  -- `shouldRollover`: `line` is the record as the formatter writes it, of which the source takes
  -- the number of characters and one for "\n".
  abbrev pub too_large : Handler → ℕ → Bool → String → Bool
  too_large h pos special line =
      if leb h.max_bytes 0
      then false
      else if leb pos 0
      then false
      else if ltb (pos + suc (String.count line)) h.max_bytes
      then false
      else not special

  unfoldable pub should_rollover : ℕ → String → State → State × Bool
  unfolding opened
  should_rollover t line (h, d) =
      let special = is_not_file h.base_filename d in
      let (h', d') = opened (h, d) in
      if leb h'.rollover_at t
      then (if special
          then ((with_rollover_at (compute_rollover t) h', d'), false)
          else ((h', d'), true))
      else ((h', d'), too_large h' (tell size h.base_filename d') special line)

-- The name of the file that a rollover makes.
unfoldable pub dated_name : Handler → String
dated_name h = rotation_filename h (strftime (h.rollover_at - h.interval))

abbrev pub without_old : State → State
without_old (h, d) =
    (h, if leb h.backup_count 0 then d else remove_all (get_files_to_delete (h, d)) d)

-- `if not self.delay: self.stream = self._open()`
abbrev pub reopened : State → State
reopened (h, d) = if h.delay then (h, d) else (with_stream true h, open_append h.base_filename d)

abbrev pub scheduled : ℕ → State → State
scheduled current_time (h, d) = (with_rollover_at (compute_rollover current_time) h, d)

unfoldable pub do_rollover : ℕ → State → State
unfolding dated_name
do_rollover current_time (h, d) =
    let dfn = dated_name h in
    if is_some (lookup dfn d)
    then (h, d)
    else scheduled current_time
        (reopened (without_old (with_stream false h, rotate h.base_filename dfn d)))

-- `emit` of the base classes: `if self.shouldRollover(record): self.doRollover()`, and the line is
-- written to the stream, which is opened if need be.
unfoldable pub written : String → State → State
unfolding opened
written line s = let (h, d) = opened s in (h, write_line h.base_filename line d)

unfoldable pub emit : (String → ℕ) → ℕ → ℕ → String → State → State
emit size t t' line s =
    let (s', rollover) = should_rollover size t line s in
    written line (if rollover then do_rollover t' s' else s')
