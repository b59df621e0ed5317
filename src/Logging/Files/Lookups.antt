-- ===== src/Logging/Files/Lookups.antt =====
-- What a directory holds at a name after an operation on it.
use webtool.Prelude.{
  String, ◌≡◌, refl, none, some, List, [], ◌∷◌, is_some, elem, not, ◌&&◌, str_eq, eq_iff, arith,
  if◌then◌else◌,
}
use webtool.Prelude.Dict.{lookup, remove, lookup-insert, lookup-remove}
use webtool.Logging.Files.{
  File, regular, Directory, open_append, add_line, write_line, rotate, remove_all,
}

pub lookup-open_append :
    (name j : String) (d : Directory)
    → lookup j (open_append name d)
      ≡ (if str_eq name j && not (is_some (lookup name d)) then some (regular []) else lookup j d)
unfolding open_append
lookup-open_append name j d = ground (arith, lookup-insert name j (regular []) d, eq_iff name j)

pub lookup-write_line :
    (name j line : String) (d : Directory)
    → lookup j (write_line name line d)
      ≡ (if str_eq name j then some (add_line line (lookup name d)) else lookup j d)
unfolding write_line
lookup-write_line name j line d = lookup-insert name j (add_line line (lookup name d)) d

pub lookup-rotate :
    (source dest j : String) (f : File) (d : Directory)
    → lookup source d ≡ some f
    → lookup j (rotate source dest d)
      ≡ (if str_eq dest j then some f else if str_eq source j then none else lookup j d)
unfolding rotate
lookup-rotate source dest j f d e =
    rw (e, lookup-insert dest j f (remove source d), lookup-remove source j d)

pub rotate_missing :
    (source dest : String) (d : Directory) → lookup source d ≡ none → rotate source dest d ≡ d
unfolding rotate
rotate_missing source dest d e = rw e

pub lookup-remove_all :
    (names : List String) (j : String) (d : Directory)
    → lookup j (remove_all names d) ≡ (if elem j names then none else lookup j d)
unfolding remove_all
lookup-remove_all [] j d = refl
lookup-remove_all (name ∷ names) j d = ground (
  arith,
  lookup-remove_all names j (remove name d),
  lookup-remove name j d,
  eq_iff name j,
  eq_iff j name,
)
