-- ===== src/Logging/Handler/Runs.antt =====
-- Runs of a log handler: the records that it is given, one after the other.
use Prim.Native.Nat.{◌%◌}
use webtool.Prelude.{ℕ, String, ◌≡◌, refl, Bool, true, false, Option, List, [], ◌∷◌, All_mono, All}
use webtool.Logging.Calendar.Dates.{compute_rollover_lem}
use webtool.Logging.Files.{Directory, is_not_file}
use webtool.Logging.Files.Holds.{Holds, Holds-open_append, open_append-file}
use webtool.Logging.Handler.Kept.{IsLossless, Keeps, Keeps-trans, emit-IsLossless}
use webtool.Logging.Handler.{State, emit, init}

init-Keeps :
    (filename : String) (interval max_bytes : ℕ) (delay : Bool) (namer : Option (String → String))
    (t : ℕ) (d : Directory)
    → is_not_file filename d ≡ false
    → IsLossless (init filename interval max_bytes 0 delay namer t d)
      × ((line : String)
          → Holds line d
          → Holds line (init filename interval max_bytes 0 delay namer t d).1)
unfolding init
init-Keeps filename interval max_bytes true namer t d file =
    (record { no_backups = refl; file = file; due = (compute_rollover_lem t).0 }, λ line h. h)
init-Keeps filename interval max_bytes false namer t d file = (
  record {
    no_backups = refl;
    file = open_append-file filename d file;
    due = (compute_rollover_lem t).0;
  },
  λ line h. Holds-open_append filename line d h,
)

module _ (size : String → ℕ) where
  -- The records that a run emits, the last one first.
  pub data Run (s : State) : List String → State → Type 0 where
    start : Run s [] s
    logged :
        {lines : List String} {u : State} (t t' : ℕ) (line : String)
        → Run s lines u
        → Run s (line ∷ lines) (emit size t t' line u)

  Run-Keeps :
      (s : State)
      → IsLossless s
      → {lines : List String} {u : State} → Run s lines u
      → Keeps s u × All (λ line. Holds line u.1) lines
  Run-Keeps s v start = (record { lossless = v; holds = λ line k. k }, tt)
  Run-Keeps s v (logged {lines = lines} {u = u} t t' line r) =
      let (k, all) = Run-Keeps s v r in
      let (k', new) = emit-IsLossless size t t' line u k.lossless in
      (
        Keeps-trans s u (emit size t t' line u) k k',
        (new, All_mono lines (λ l h. k'.holds l h) all),
      )

  -- A handler that is made with a backup count of zero for a log file that is no device: after
  -- every run of `emit`, the next rollover is due at a midnight, every line that was emitted is in
  -- a regular file of the directory, and so is every line that was in one at the start.
  pub init-IsLossless :
      {lines : List String} {u : State} (filename : String) (interval max_bytes : ℕ) (delay : Bool)
      (namer : Option (String → String)) (t : ℕ) (d : Directory)
      → is_not_file filename d ≡ false
      → Run (init filename interval max_bytes 0 delay namer t d) lines u
      → (u.0.rollover_at % 86400 ≡ 0)
        × All (λ line. Holds line u.1) lines
        × ((line : String) → Holds line d → Holds line u.1)
  init-IsLossless {u = u} filename interval max_bytes delay namer t d file run =
      let s = init filename interval max_bytes 0 delay namer t d in
      let (v, opens) = init-Keeps filename interval max_bytes delay namer t d file in
      let (k, all) = Run-Keeps s v run in
      (k.lossless.due, all, λ line h. k.holds line (opens line h))
