-- ===== src/Logging/Handler/Kept.antt =====
-- Rotation without a backup count loses no line, and keeps the time of the next rollover at a
-- midnight.
use Prim.Native.Nat.{◌%◌}
use webtool.Prelude.{
  ℕ, String, ◌≡◌, Bool, true, false, inl, inr, Bool-cases, Option-cases, none, leb, arith,
  if◌then◌else◌,
}
use webtool.Prelude.Dict.{lookup}
use webtool.Logging.Calendar.Dates.{compute_rollover_lem}
use webtool.Logging.Files.{Directory, is_not_file, open_append, rotate}
use webtool.Logging.Files.Holds.{
  Holds, Holds-open_append, Holds-write_line, Holds-rotate, Holds-written, open_append-file,
  write_line-file, rotate-file,
}
use webtool.Logging.Handler.{
  Handler, State, opened, should_rollover, dated_name, reopened, without_old, scheduled,
  do_rollover, written, emit, with_stream,
}

-- No file is deleted, the log file is no device, and the next rollover is due at a midnight.
pub record IsLossless (s : State) : Type 0 where
  pub no_backups : s.0.backup_count ≡ 0
  pub file : is_not_file s.0.base_filename s.1 ≡ false
  pub due : s.0.rollover_at % 86400 ≡ 0

-- A step from a state to a lossless one that holds all the lines that the first one holds.
pub record Keeps (s u : State) : Type 0 where
  pub lossless : IsLossless u
  pub holds : (line : String) → Holds line s.1 → Holds line u.1

pub Keeps-trans : (s u w : State) → Keeps s u → Keeps u w → Keeps s w
Keeps-trans s u w k k' = record {
  lossless = k'.lossless;
  holds = λ line h. k'.holds line (k.holds line h);
}

Keeps-if : (b : Bool) (s u w : State) → Keeps s u → Keeps s w → Keeps s (if b then u else w)
Keeps-if true s u w k k' = k
Keeps-if false s u w k k' = k'

Keeps-opened : (s : State) → IsLossless s → Keeps s (opened s)
unfolding opened
Keeps-opened (h, d) v = elim (Bool-cases h.stream) [
  | inl is_open ↦ rw is_open record {
    lossless = record { no_backups = v.no_backups; file = v.file; due = v.due };
    holds = λ line k. k;
  }
  | inr closed ↦ rw closed record {
    lossless = record {
      no_backups = v.no_backups;
      file = open_append-file h.base_filename d v.file;
      due = v.due;
    };
    holds = λ line k. Holds-open_append h.base_filename line d k;
  }
]

Keeps-written : (line : String) (s : State) → IsLossless s → Keeps s (written line s)
unfolding written
Keeps-written line s v =
    let k = Keeps-opened s v in
    let (h, d) = opened s in
    record {
      lossless = record {
        no_backups = k.lossless.no_backups;
        file = write_line-file (opened s).0.base_filename line (opened s).1 k.lossless.file;
        due = k.lossless.due;
      };
      holds = λ l m. Holds-write_line (opened s).0.base_filename line l (opened s).1 (k.holds l m);
    }

Keeps-reopened : (s : State) → IsLossless s → Keeps s (reopened s)
Keeps-reopened (h, d) v =
    Keeps-if h.delay (h, d) (h, d) (with_stream true h, open_append h.base_filename d)
      (record { lossless = v; holds = λ line k. k })
      (record {
        lossless = record {
          no_backups = v.no_backups;
          file = open_append-file h.base_filename d v.file;
          due = v.due;
        };
        holds = λ line k. Holds-open_append h.base_filename line d k;
      })

Keeps-without_old : (s : State) → IsLossless s → Keeps s (without_old s)
Keeps-without_old (h, d) v =
    let same : leb h.backup_count 0 ≡ true = ground (arith, v.no_backups) in
    rw same (record { lossless = v; holds = λ line k. k })

Keeps-scheduled : (t : ℕ) (s : State) → IsLossless s → Keeps s (scheduled t s)
Keeps-scheduled t (h, d) v = record {
  lossless = record { no_backups = v.no_backups; file = v.file; due = (compute_rollover_lem t).0 };
  holds = λ line k. k;
}

Keeps-rotate :
    (dest : String) (h : Handler) (d : Directory)
    → lookup dest d ≡ none
    → IsLossless (h, d)
    → Keeps (h, d) (with_stream false h, rotate h.base_filename dest d)
Keeps-rotate dest h d free v = record {
  lossless = record {
    no_backups = v.no_backups;
    file = rotate-file h.base_filename dest d free v.file;
    due = v.due;
  };
  holds = λ line k. Holds-rotate h.base_filename dest line d free k;
}

Keeps-do_rollover : (t : ℕ) (s : State) → IsLossless s → Keeps s (do_rollover t s)
unfolding do_rollover
Keeps-do_rollover t (h, d) v = elim (Option-cases (lookup (dated_name h) d)) [
  | inl free ↦ rw free (
      let a = Keeps-rotate (dated_name h) h d free v in
      let b =
        Keeps-without_old (with_stream false h, rotate h.base_filename (dated_name h) d)
          a.lossless in
      let c =
        Keeps-reopened (without_old (with_stream false h, rotate h.base_filename (dated_name h) d))
          b.lossless in
      let e =
        Keeps-scheduled t
          (reopened (without_old (with_stream false h, rotate h.base_filename (dated_name h) d)))
          c.lossless in
      record {
        lossless = e.lossless;
        holds = λ line k. e.holds line (c.holds line (b.holds line (a.holds line k)));
      })
  | inr (f, e) ↦ rw e (record { lossless = v; holds = λ line k. k })
]

module _ (size : String → ℕ) where
  Keeps-should_rollover :
      (t : ℕ) (line : String) (s : State) → IsLossless s → Keeps s (should_rollover size t line s).0
  unfolding should_rollover
  Keeps-should_rollover t line (h, d) v =
      let k = Keeps-opened (h, d) v in
      elim (Bool-cases (leb (opened (h, d)).0.rollover_at t)) [
        | inl due ↦ rw (due, v.file) k
        | inr early ↦ rw early k
      ]

  pub emit-IsLossless :
      (t t' : ℕ) (line : String) (s : State)
      → IsLossless s
      → Keeps s (emit size t t' line s) × Holds line (emit size t t' line s).1
  unfolding emit
  emit-IsLossless t t' line s v =
      let first = should_rollover size t line s in
      let a = Keeps-should_rollover t line s v in
      let b =
        Keeps-trans s first.0 (do_rollover t' first.0) a
          (Keeps-do_rollover t' first.0 a.lossless) in
      let turned = if first.1 then do_rollover t' first.0 else first.0 in
      let c = Keeps-if first.1 s (do_rollover t' first.0) first.0 b a in
      let w = Keeps-written line turned c.lossless in
      (
        Keeps-trans s turned (written line turned) c w,
        unfold written in
            Holds-written (opened turned).0.base_filename line (opened turned).1
              (Keeps-opened turned c.lossless).lossless.file,
      )
