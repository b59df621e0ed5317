-- ===== src/Logging/Handler/Rotates.antt =====
-- What `doRollover` does to the handler and to the directory.
use Prim.Native.String
use webtool.Prelude.{◌-◌}
use package.text.Mathlib.TextLemmas.{length-append}
use webtool.Prelude.{
  ℕ, ◌+◌, String, ◌≡◌, ◌≢◌, refl, sym, ap, ◌∙◌, Bool, true, false, inl, inr, Bool-cases, none, some,
  [], str_eq, eq_iff, eq_refl, arith, if◌then◌else◌, not,
}
use webtool.Prelude.Dict.{lookup}
use webtool.Logging.Calendar.{compute_rollover, strftime}
use webtool.Logging.Files.{File, regular, Directory, open_append, rotate}
use webtool.Logging.Files.Lookups.{lookup-open_append, lookup-rotate}
use webtool.Logging.Handler.{
  Handler, State, dated_name, rotation_filename, reopened, without_old, scheduled, do_rollover,
  with_stream, with_rollover_at,
}

default_name :
    (h : Handler)
    → h.namer ≡ none
    → dated_name h
      ≡ String.◌++◌ h.base_filename (String.◌++◌ "." (strftime (h.rollover_at - h.interval)))
unfolding dated_name rotation_filename
default_name h default = rw default refl

longer : (s x : String) → String.◌++◌ s (String.◌++◌ "." x) ≢ s
longer s x e =
    let dot : String.count (String.◌++◌ "." x) ≡ 1 + String.count x = length-append "." x in
    omega (arith, dot, length-append s (String.◌++◌ "." x), ap String.count e)

-- Without a custom namer, the dated name is not that of the log file.
pub dated_name_apart : (h : Handler) → h.namer ≡ none → dated_name h ≢ h.base_filename
dated_name_apart h default e =
    longer h.base_filename (strftime (h.rollover_at - h.interval))
      (sym (default_name h default) ∙ e)

reopened_lem :
    (h : Handler) (d : Directory)
    → reopened (with_stream false h, d)
      ≡ (with_stream (not h.delay) h, if h.delay then d else open_append h.base_filename d)
reopened_lem h d = elim (Bool-cases h.delay) [ inl late ↦ rw late refl | inr now ↦ rw now refl ]

-- The handler and the directory when the dated name is free, in turn.
rolled :
    (t : ℕ) (h : Handler) (d : Directory)
    → lookup (dated_name h) d ≡ none
    → do_rollover t (h, d)
      ≡ scheduled t
          (reopened (without_old (with_stream false h, rotate h.base_filename (dated_name h) d)))
unfolding do_rollover
rolled t h d free = rw free refl

without_old_none : (h : Handler) (d : Directory) → h.backup_count ≡ 0 → without_old (h, d) ≡ (h, d)
without_old_none h d none' = rw none' refl

emptied-lookup :
    (late : Bool) (base dfn j : String) (f : File) (d : Directory)
    → lookup base d ≡ some f
    → lookup dfn d ≡ none
    → lookup j (if late then rotate base dfn d else open_append base (rotate base dfn d)) ≡ (
        if str_eq dfn j
        then some f
        else if str_eq base j
        then (if late then none else some (regular []))
        else lookup j d)
emptied-lookup true base dfn j f d there free = lookup-rotate base dfn j f d there
emptied-lookup false base dfn j f d there free =
    rw
      (
        lookup-open_append base j (rotate base dfn d),
        lookup-rotate base dfn j f d there,
        lookup-rotate base dfn base f d there,
      )
      (ground (arith, eq_iff dfn base, eq_iff base j, eq_iff dfn j, eq_refl base, there, free))

-- `doRollover` does nothing if the dated file is there. Otherwise the handler waits for the next
-- midnight, with its stream open again unless `delay` is set; and without backups the dated file is
-- what the log file was, the log file is empty, or missing with `delay`, and no other file changes.
pub do_rollover_lem :
    (t : ℕ) (h : Handler) (d : Directory)
    → ((f : File) → lookup (dated_name h) d ≡ some f → do_rollover t (h, d) ≡ (h, d))
      × (lookup (dated_name h) d ≡ none
          → ((do_rollover t (h, d)).0
              ≡ with_rollover_at (compute_rollover t) (with_stream (not h.delay) h))
            × (h.backup_count ≡ 0
                → (f : File) → lookup h.base_filename d ≡ some f
                → (j : String)
                → lookup j (do_rollover t (h, d)).1 ≡ (
                    if str_eq (dated_name h) j
                    then some f
                    else if str_eq h.base_filename j
                    then (if h.delay then none else some (regular []))
                    else lookup j d)))
do_rollover_lem t h d = (
  λ f e. unfold do_rollover in rw e refl,
  λ free. (
    ap (λ (u : State). u.0) (rolled t h d free)
        ∙ ap (with_rollover_at (compute_rollover t)) (
            ap (λ (u : State). u.0)
              (reopened_lem h
                (without_old (with_stream false h, rotate h.base_filename (dated_name h) d)).1)),
    λ no_backups f there j.
        ap (λ (u : State). lookup j u.1) (rolled t h d free)
        ∙ (ap (λ (u : State). lookup j (reopened u).1)
              (without_old_none (with_stream false h) (rotate h.base_filename (dated_name h) d)
                no_backups)
            ∙ (ap (λ (u : State). lookup j u.1)
                  (reopened_lem h (rotate h.base_filename (dated_name h) d))
                ∙ emptied-lookup h.delay h.base_filename (dated_name h) j f d there free)),
  ),
)
