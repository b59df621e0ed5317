-- ===== src/Logging/Handler/Names.antt =====
-- The names of dated files.
use Prim.Native.String
use package.text.Mathlib.TextLemmas.{append_assoc, nil-append, cons-append}
use webtool.Prelude.{ℕ, ◌≤◌, arith, ◌-◌, ◌<◌, String, ◌≡◌, refl, ap, true, none, some, eq_refl}
use webtool.Logging.Calendar.{strftime}
use webtool.Logging.Calendar.Dates.{strftime-fullmatch}
use webtool.Prelude.Order.{str_leb}
use webtool.Logging.Calendar.Texts.{strftime_mono}
use webtool.Logging.Handler.{
  with_rollover_at, Handler, dated_name, rotation_filename, after_prefix, listed,
}

after_prefix-append : (p s : String) → after_prefix p (String.◌++◌ p s) ≡ some s
after_prefix-append String.[] s = ap some (nil-append s)
after_prefix-append (String.◌∷◌ c p) s =
    rw (cons-append c p s, eq_refl (String.◌∷◌ c String.[]), after_prefix-append p s) refl

str_leb-append :
    (p s t : String) → str_leb s t ≡ true → str_leb (String.◌++◌ p s) (String.◌++◌ p t) ≡ true
unfolding str_leb
str_leb-append String.[] s t h = rw (nil-append s, nil-append t) h
str_leb-append (String.◌∷◌ c p) s t h =
    rw (cons-append c p s, cons-append c p t) (ground (arith, str_leb-append p s t h))

dated_name-listed :
    (h : Handler)
    → h.namer ≡ none
    → h.rollover_at - h.interval < 253183104000
    → listed h (dated_name h) ≡ true
unfolding listed dated_name rotation_filename
dated_name-listed h default early =
    let suffix = strftime (h.rollover_at - h.interval) in
    rw
      (
        default,
        ← append_assoc h.base_filename "." suffix,
        after_prefix-append (String.◌++◌ h.base_filename ".") suffix,
      )
      (strftime-fullmatch (h.rollover_at - h.interval) early)

-- Without a custom namer, and until the year 9993: the file that a rollover makes is one that
-- `getFilesToDelete` looks for, and it does not come before the one of an earlier rollover in the
-- order of names, in which the first files are deleted.
pub dated_name-str_leb :
    (h : Handler) (earlier : ℕ)
    → h.namer ≡ none
    → h.rollover_at - h.interval < 253183104000
    → earlier ≤ h.rollover_at
    → (listed h (dated_name h) ≡ true)
      × (str_leb (dated_name (with_rollover_at earlier h)) (dated_name h) ≡ true)
unfolding dated_name rotation_filename
dated_name-str_leb h earlier default early le =
    let t = earlier - h.interval in
    let t' = h.rollover_at - h.interval in
    (
      unfold dated_name rotation_filename in dated_name-listed h default early,
      rw default (
          str_leb-append h.base_filename (String.◌++◌ "." (strftime t))
            (String.◌++◌ "." (strftime t'))
            (str_leb-append "." (strftime t) (strftime t')
              (strftime_mono t t' (omega arith) early))),
    )
