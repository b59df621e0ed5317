-- ===== src/Logging/Files/Holds.antt =====
-- The lines that a directory holds in its regular files.
use webtool.Prelude.{
  String, ◌≡◌, refl, ◌∙◌, false, inl, inr, Bool-cases, Option-cases, Option, none, some, List, [],
  ◌∷◌, ◌++◌, In, In-append, str_eq, eq_iff, eq_refl, arith,
}
use webtool.Prelude.Dict.{lookup}
use webtool.Logging.Files.{
  File, regular, special, Directory, is_special, is_not_file, open_append, add_line, write_line,
  rotate,
}
use webtool.Logging.Files.Lookups.{
  lookup-open_append, lookup-write_line, lookup-rotate, rotate_missing,
}

-- Some regular file has the line.
pub record Holds (line : String) (d : Directory) : Type 0 where
  pub name : String
  pub lines : List String
  pub found : lookup name d ≡ some (regular lines)
  pub has : In line lines

pub Holds-open_append :
    (name line : String) (d : Directory) → Holds line d → Holds line (open_append name d)
Holds-open_append name line d h = record {
  name = h.name;
  lines = h.lines;
  found = lookup-open_append name h.name d ∙ ground (arith, eq_iff name h.name, h.found);
  has = h.has;
}

pub Holds-write_line :
    (name new line : String) (d : Directory) → Holds line d → Holds line (write_line name new d)
Holds-write_line name new line d h = elim (Bool-cases (str_eq name h.name)) [
  | inl same ↦ record {
    name = h.name;
    lines = h.lines ++ (new ∷ []);
    found = lookup-write_line name h.name new d ∙ rw (same, (eq_iff name h.name).0 same, h.found);
    has = (In-append line h.lines (new ∷ [])).1 (inl h.has);
  }
  | inr other ↦ record {
    name = h.name;
    lines = h.lines;
    found = lookup-write_line name h.name new d ∙ rw (other, h.found);
    has = h.has;
  }
]

-- A rename to a free name loses no line.
pub Holds-rotate :
    (source dest line : String) (d : Directory)
    → lookup dest d ≡ none
    → Holds line d
    → Holds line (rotate source dest d)
Holds-rotate source dest line d free h = elim (Option-cases (lookup source d)) [
  | inl gone ↦ rw (rotate_missing source dest d gone) h
  | inr (f, e) ↦ elim (Bool-cases (str_eq source h.name)) [
    | inl same ↦ record {
      name = dest;
      lines = h.lines;
      found =
          lookup-rotate source dest dest f d e
          ∙ ground (arith, eq_refl dest, eq_iff source h.name, h.found);
      has = h.has;
    }
    | inr other ↦ record {
      name = h.name;
      lines = h.lines;
      found = lookup-rotate source dest h.name f d e ∙ ground (arith, eq_iff dest h.name, h.found);
      has = h.has;
    }
  ]
]

-- The written line is held, if its file is regular.
pub Holds-written :
    (name line : String) (d : Directory)
    → is_not_file name d ≡ false
    → Holds line (write_line name line d)
unfolding is_not_file
Holds-written name line d ok = elim (Option-cases (lookup name d)) [
  | inl gone ↦ record {
    name = name;
    lines = line ∷ [];
    found = lookup-write_line name name line d ∙ rw (eq_refl name, gone);
    has = inl refl;
  }
  | inr (regular ls, e) ↦ record {
    name = name;
    lines = ls ++ (line ∷ []);
    found = lookup-write_line name name line d ∙ rw (eq_refl name, e);
    has = (In-append line ls (line ∷ [])).1 (inr (inl refl));
  }
  | inr (special, e) ↦ ground arith
]

pub open_append-file :
    (name : String) (d : Directory)
    → is_not_file name d ≡ false
    → is_not_file name (open_append name d) ≡ false
unfolding is_not_file
open_append-file name d h = rw (lookup-open_append name name d) (ground (arith, eq_refl name))

is_special-add_line :
    (line : String) (o : Option File) → is_special (some (add_line line o)) ≡ is_special o
is_special-add_line line none = refl
is_special-add_line line (some (regular ls)) = refl
is_special-add_line line (some special) = refl

pub write_line-file :
    (name line : String) (d : Directory)
    → is_not_file name d ≡ false
    → is_not_file name (write_line name line d) ≡ false
unfolding is_not_file
write_line-file name line d h =
    rw (lookup-write_line name name line d, eq_refl name, is_special-add_line line (lookup name d))
      h

pub rotate-file :
    (source dest : String) (d : Directory)
    → lookup dest d ≡ none
    → is_not_file source d ≡ false
    → is_not_file source (rotate source dest d) ≡ false
unfolding is_not_file
rotate-file source dest d free h = elim (Option-cases (lookup source d)) [
  | inl gone ↦ rw (rotate_missing source dest d gone) h
  | inr (f, e) ↦
      rw (lookup-rotate source dest source f d e)
        (ground (arith, eq_iff dest source, eq_refl source))
]
