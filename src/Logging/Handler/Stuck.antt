-- ===== src/Logging/Handler/Stuck.antt =====
-- When the dated file of the next rollover is there already, `doRollover` returns early and leaves
-- the time of the next rollover as it is, so that no later rollover takes place either.
use webtool.Prelude.{
  ℕ, String, ◌≡◌, ◌≢◌, refl, sym, ap, ◌∙◌, Bool, true, false, inl, inr, Bool-cases, Option-cases,
  none, some, List, leb, eq_iff, eq_refl, arith, if◌then◌else◌, not,
}
use webtool.Prelude.Dict.{lookup}
use webtool.Logging.Calendar.{compute_rollover}
use webtool.Logging.Files.{File, Directory, is_not_file, open_append, write_line}
use webtool.Logging.Files.Lookups.{lookup-open_append, lookup-write_line}
use webtool.Logging.Files.Holds.{open_append-file, write_line-file}
use webtool.Logging.Handler.{
  Handler, State, opened, should_rollover, dated_name, rotation_filename, do_rollover, written,
  emit, with_stream, with_rollover_at,
}
use webtool.Logging.Handler.Rotates.{do_rollover_lem, dated_name_apart}
use webtool.Logging.Handler.Runs.{Run, start, logged}

-- A state that differs from a first one in the log file and its stream only.
pub record IsSame (s u : State) : Type 0 where
  pub open_or_not : Bool
  pub same : u.0 ≡ with_stream open_or_not s.0
  pub file : is_not_file s.0.base_filename u.1 ≡ false
  pub others : (j : String) → j ≢ s.0.base_filename → lookup j u.1 ≡ lookup j s.1

other_open_append :
    (name j : String) (d : Directory) → j ≢ name → lookup j (open_append name d) ≡ lookup j d
other_open_append name j d other =
    lookup-open_append name j d ∙ ground (arith, eq_iff name j, other)

other_write_line :
    (name j line : String) (d : Directory)
    → j ≢ name
    → lookup j (write_line name line d) ≡ lookup j d
other_write_line name j line d other =
    lookup-write_line name j line d ∙ ground (arith, eq_iff name j, other)

module _ (s : State) where
  opened-IsSame : (h : Handler) (d : Directory) → IsSame s (h, d) → IsSame s (opened (h, d))
  unfolding opened
  opened-IsSame h d v = elim (Bool-cases h.stream) [
    | inl is_open ↦ rw is_open record {
      open_or_not = true;
      same = ap (with_stream true) v.same;
      file = v.file;
      others = v.others;
    }
    | inr closed ↦ rw closed record {
      open_or_not = true;
      same = ap (with_stream true) v.same;
      file =
          rw (ap (λ (k : Handler). k.base_filename) v.same)
            (open_append-file s.0.base_filename d v.file);
      others = λ j other.
          rw (ap (λ (k : Handler). k.base_filename) v.same)
            (other_open_append s.0.base_filename j d other ∙ v.others j other);
    }
  ]

  write_line-IsSame :
      (line : String) (h : Handler) (d : Directory)
      → IsSame s (h, d)
      → IsSame s (h, write_line h.base_filename line d)
  write_line-IsSame line h d v =
      let base = ap (λ (k : Handler). k.base_filename) v.same in
      record {
        open_or_not = v.open_or_not;
        same = v.same;
        file = rw base (write_line-file s.0.base_filename line d v.file);
        others = λ j other.
            rw base (other_write_line s.0.base_filename j line d other ∙ v.others j other);
      }

  written-IsSame : (line : String) (u : State) → IsSame s u → IsSame s (written line u)
  unfolding written
  written-IsSame line u v =
      write_line-IsSame line (opened u).0 (opened u).1 (opened-IsSame u.0 u.1 v)

  dated_name_same : (u : State) → IsSame s u → dated_name u.0 ≡ dated_name s.0
  unfolding dated_name rotation_filename
  dated_name_same u v = rw v.same refl

  module _ (f : File) (dated : lookup (dated_name s.0) s.1 ≡ some f)
      (other : dated_name s.0 ≢ s.0.base_filename) where
    do_rollover-IsSame : (t : ℕ) (u : State) → IsSame s u → IsSame s (do_rollover t u)
    unfolding do_rollover
    do_rollover-IsSame t (h, d) v =
        let there : lookup (dated_name h) d ≡ some f =
          ap (λ n. lookup n d) (dated_name_same (h, d) v)
          ∙ (v.others (dated_name s.0) other ∙ dated) in
        rw there v

    IsSame-if : (b : Bool) (u w : State) → IsSame s u → IsSame s w → IsSame s (if b then u else w)
    IsSame-if true u w v v' = v
    IsSame-if false u w v v' = v'

    module _ (size : String → ℕ) where
      should_rollover-IsSame :
          (t : ℕ) (line : String) (u : State)
          → IsSame s u
          → IsSame s (should_rollover size t line u).0
      unfolding should_rollover
      should_rollover-IsSame t line (h, d) v =
          let regular_file : is_not_file h.base_filename d ≡ false =
            ap (λ (k : Handler). is_not_file k.base_filename d) v.same ∙ v.file in
          elim (Bool-cases (leb (opened (h, d)).0.rollover_at t)) [
            | inl due ↦ rw (due, regular_file) (opened-IsSame h d v)
            | inr early ↦ rw early (opened-IsSame h d v)
          ]

      emit-IsSame :
          (t t' : ℕ) (line : String) (u : State) → IsSame s u → IsSame s (emit size t t' line u)
      unfolding emit
      emit-IsSame t t' line u v =
          let first = should_rollover size t line u in
          let w = should_rollover-IsSame t line u v in
          written-IsSame line (if first.1 then do_rollover t' first.0 else first.0)
            (IsSame-if first.1 (do_rollover t' first.0) first.0 (do_rollover-IsSame t' first.0 w) w)

      -- No run of `emit` moves the log file any more.
      pub Run-IsSame :
          IsSame s s → {lines : List String} {u : State} → Run size s lines u → IsSame s u
      Run-IsSame v start = v
      Run-IsSame v (logged {u = u} t t' line r) = emit-IsSame t t' line u (Run-IsSame v r)

dated_name_rolled :
    (t : ℕ) (b : Bool) (h : Handler)
    → h.rollover_at ≡ t
    → dated_name (with_rollover_at t (with_stream b h)) ≡ dated_name h
unfolding dated_name rotation_filename
dated_name_rolled t b h day = rw day refl

-- The state that such a rollover leaves.
rolled-IsSame :
    (t' : ℕ) (h : Handler) (d : Directory) (f : File)
    → h.backup_count ≡ 0
    → lookup (dated_name h) d ≡ none
    → lookup h.base_filename d ≡ some f
    → IsSame (do_rollover t' (h, d)) (do_rollover t' (h, d))
rolled-IsSame t' h d f no_backups free there =
    let s = do_rollover t' (h, d) in
    let (same, files) = (do_rollover_lem t' h d).1 free in
    record {
      open_or_not = s.0.stream;
      same = refl;
      file =
          ap (λ (k : Handler). is_not_file k.base_filename s.1) same
          ∙ unfold is_not_file in
            rw (files no_backups f there h.base_filename) (
              ground (
                arith,
                eq_refl h.base_filename,
                eq_iff (dated_name h) h.base_filename,
                there,
                free,
              ));
      others = λ j other. refl;
    }

-- A rollover on the day before the midnight at which it is due, as a large log file causes it,
-- without custom names and without backups, with the dated name free and the log file there: from
-- then on, no run of `emit` moves the log file. Every other file stays as the rollover left it, and
-- the next rollover is due at the same midnight as before.
pub do_rollover-stuck :
    (size : String → ℕ) (t' : ℕ) (h : Handler) (d : Directory) {lines : List String} {u : State}
    → h.namer ≡ none
    → h.backup_count ≡ 0
    → h.rollover_at ≡ compute_rollover t'
    → lookup (dated_name h) d ≡ none
    → lookup h.base_filename d ≢ none
    → Run size (do_rollover t' (h, d)) lines u
    → (u.0.rollover_at ≡ h.rollover_at)
      × ((j : String) → j ≢ h.base_filename → lookup j u.1 ≡ lookup j (do_rollover t' (h, d)).1)
do_rollover-stuck size t' h d {u = u} default no_backups day free there run =
    elim (Option-cases (lookup h.base_filename d)) [
      | inl gone ↦ absurd (there gone)
      | inr (f, e) ↦
          let s = do_rollover t' (h, d) in
          let (same, files) = (do_rollover_lem t' h d).1 free in
          let named : dated_name s.0 ≡ dated_name h =
            ap dated_name same ∙ dated_name_rolled (compute_rollover t') (not h.delay) h day in
          let dated : lookup (dated_name s.0) s.1 ≡ some f =
            ap (λ n. lookup n s.1) named
            ∙ (files no_backups f e (dated_name h) ∙ rw (eq_refl (dated_name h)) refl) in
          let base = ap (λ (k : Handler). k.base_filename) same in
          let kept =
            Run-IsSame s f dated (λ q. dated_name_apart h default (sym named ∙ (q ∙ base))) size
              (rolled-IsSame t' h d f no_backups free e) run in
          (
            ap (λ (k : Handler). k.rollover_at) kept.same
                ∙ (ap (λ (k : Handler). k.rollover_at) same ∙ sym day),
            λ j other. kept.others j (λ q. other (q ∙ base)),
          )
    ]
