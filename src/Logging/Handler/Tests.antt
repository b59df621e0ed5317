-- ===== src/Logging/Handler/Tests.antt =====
-- A handler of a small log, and runs of it.
use Prim.Native.Nat.{◌%◌}
use webtool.Prelude.{
  ℕ, String, ◌≡◌, ◌≢◌, refl, true, false, none, List, [], ◌∷◌, arith, length, keep, All,
}
use webtool.Prelude.Dict.{lookup, remove}
use webtool.Prelude.Order.{str_leb, sort}
use webtool.Logging.Calendar.{
  compute_rollover, hour, minute, second, strftime, gmtime, year_of, month_of, fullmatch, matches,
}
use webtool.Logging.Calendar.Dates.{compute_rollover_lem}
use webtool.Logging.Files.{regular, Directory, is_not_file, open_append, listdir, remove_all, tell}
use webtool.Logging.Files.Holds.{Holds}
use webtool.Logging.Handler.{
  Handler, State, init, listed, get_files_to_delete, dated_name, rotation_filename, do_rollover,
  opened, should_rollover, emit, with_rollover_at,
}
use webtool.Logging.Handler.Deletes.{get_files_to_delete_lem}
use webtool.Logging.Handler.Names.{dated_name-str_leb}
use webtool.Logging.Handler.Stuck.{do_rollover-stuck}
use webtool.Logging.Handler.Runs.{start, logged, init-IsLossless}

-- A log of 1970-01-02, which was started in that night.
abbrev small : ℕ → Handler
small backup_count = record {
  base_filename = "a.log";
  backup_count = backup_count;
  interval = 86400;
  max_bytes = 10;
  delay = false;
  namer = none;
  stream = true;
  rollover_at = 172800;
}

abbrev lines : List String
lines = "one" ∷ "two" ∷ []

abbrev directory : Directory
directory =
    ("a.log", regular lines)
    ∷ ("a.log.1969-12-31", regular [])
    ∷ ("a.log.1970-01-01", regular [])
    ∷ ("b.log", regular [])
    ∷ []

abbrev bytes : String → ℕ
bytes s = 4

rolls : (should_rollover bytes 100000 "three" (small 0, directory)).1 ≡ true
unfolding should_rollover opened is_not_file open_append lookup tell
rolls = refl

compute_rollover_lem_example : compute_rollover 100000 % 86400 ≡ 0
compute_rollover_lem_example = (compute_rollover_lem 100000).0

get_files_to_delete_lem_example :
    length (
      keep
        (listed (small 1))
        (listdir (remove_all (get_files_to_delete (small 1, directory)) directory)))
    ≡ 1
unfolding listed fullmatch listdir remove_all get_files_to_delete sort str_leb remove
    rotation_filename matches
get_files_to_delete_lem_example =
    (get_files_to_delete_lem (small 1) directory
      ((refl, (refl, (refl, tt))), ((refl, (refl, tt)), ((refl, tt), (tt, tt))))).1

dated_name-str_leb_example :
    (listed (small 0) (dated_name (small 0)) ≡ true)
    × (str_leb (dated_name (with_rollover_at 86400 (small 0))) (dated_name (small 0)) ≡ true)
dated_name-str_leb_example = dated_name-str_leb (small 0) 86400 refl (omega arith) (omega arith)

abbrev rolled : State
rolled = do_rollover 100000 (small 0, directory)

abbrev later : State
later = emit bytes 300000 300000 "four" (emit bytes 200000 200000 "three" rolled)

do_rollover-stuck_example :
    (later.0.rollover_at ≡ 172800)
    × ((j : String) → j ≢ "a.log" → lookup j later.1 ≡ lookup j rolled.1)
unfolding lookup dated_name rotation_filename strftime gmtime year_of month_of compute_rollover hour
    minute second
do_rollover-stuck_example =
    do_rollover-stuck bytes 100000 (small 0) directory refl refl refl refl (λ e. ground arith)
      (logged 300000 300000 "four" (logged 200000 200000 "three" start))

abbrev made : State
made = init "a.log" 86400 10 0 false none 100000 directory

abbrev after : State
after = emit bytes 200000 200000 "four" (emit bytes 100000 100000 "three" made)

init-IsLossless_example :
    (after.0.rollover_at % 86400 ≡ 0)
    × All (λ line. Holds line after.1) ("four" ∷ "three" ∷ [])
    × ((line : String) → Holds line directory → Holds line after.1)
unfolding is_not_file lookup
init-IsLossless_example =
    init-IsLossless bytes "a.log" 86400 10 false none 100000 directory refl
      (logged 200000 200000 "four" (logged 100000 100000 "three" start))
