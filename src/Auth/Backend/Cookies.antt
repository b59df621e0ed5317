-- ===== src/Auth/Backend/Cookies.antt =====
-- `_get_cookie_value` reads what a client writes: a round trip of cookies.
use webtool.Prelude.{
  ℕ, String, ◌≡◌, ◌≢◌, refl, sym, ap, ◌∙◌, false, List, [], ◌∷◌, ◌++◌, map, All, All-append, ◌==◌,
  arith, Option,
}
use webtool.Prelude.Bytes.{Bytes, pieces, split, last_value, codes}
use webtool.Result.{Result, ok, ◌>>=◌}
use webtool.Auth.Backend.{HeaderList, cookie_pairs, decoded, get_cookie_value}

append_nil : (p : Bytes) → p ++ [] ≡ p
append_nil [] = refl
append_nil (x ∷ p) = ap (λ l. x ∷ l) (append_nil p)

-- A separator is found only where its first byte is.
pieces_clean :
    (c : ℕ) (sep p s : Bytes)
    → All (λ b. b ≢ c) p
    → pieces (c ∷ sep) 0 (p ++ s) ≡ (p ++ (pieces (c ∷ sep) 0 s).0, (pieces (c ∷ sep) 0 s).1)
pieces_clean c sep [] s h = refl
pieces_clean c sep (x ∷ p) s (ne, h) =
    let other : (c == x) ≡ false = ground arith in rw (pieces, other, pieces_clean c sep p s h) refl

pieces_all : (c : ℕ) (sep p : Bytes) → All (λ b. b ≢ c) p → pieces (c ∷ sep) 0 p ≡ (p, [])
pieces_all c sep p h =
    ap (λ l. pieces (c ∷ sep) 0 l) (sym (append_nil p))
    ∙ (pieces_clean c sep p [] h ∙ ap (λ (l : Bytes). (l, [])) (append_nil p))

-- A cookie as a client writes it, and the header with all of them.
abbrev pub print_cookie : Bytes × Bytes → Bytes
print_cookie c = c.0 ++ 61 ∷ c.1

abbrev pub print_cookies : Bytes × Bytes → HeaderList → Bytes
print_cookies c [] = print_cookie c
print_cookies c (d ∷ cs) = print_cookie c ++ 59 ∷ 32 ∷ print_cookies d cs

-- No "=" and no ";" in a name or a value.
abbrev pub IsPlain : Bytes → Type 0
IsPlain p = All (λ b. (b ≢ 61) × (b ≢ 59)) p

abbrev pub IsPlainCookie : Bytes × Bytes → Type 0
IsPlainCookie c = IsPlain c.0 × IsPlain c.1

plain_not : (p : Bytes) → IsPlain p → All (λ b. b ≢ 61) p × All (λ b. b ≢ 59) p
plain_not [] h = (tt, tt)
plain_not (x ∷ p) ((a, b), h) = let (f, g) = plain_not p h in ((a, f), (b, g))

split-print_cookie :
    (c : Bytes × Bytes) → IsPlainCookie c → split (codes "=") (print_cookie c) ≡ c.0 ∷ c.1 ∷ []
split-print_cookie (k, v) (hk, hv) =
    let name = (plain_not k hk).0 in
    rw (pieces_clean 61 [] k (61 ∷ v) name, pieces_all 61 [] v (plain_not v hv).0, append_nil k)
      refl

print_cookie-plain : (c : Bytes × Bytes) → IsPlainCookie c → All (λ b. b ≢ 59) (print_cookie c)
print_cookie-plain (k, v) (hk, hv) =
    All-append (λ b. b ≢ 59) k (61 ∷ v) (plain_not k hk).1 ((λ e. ground arith), (plain_not v hv).1)

split-print_cookies :
    (c : Bytes × Bytes) (cs : HeaderList)
    → IsPlainCookie c
    → All IsPlainCookie cs
    → split (codes "; ") (print_cookies c cs) ≡ map print_cookie (c ∷ cs)
split-print_cookies c [] h hs =
    rw (pieces_all 59 (32 ∷ []) (print_cookie c) (print_cookie-plain c h)) refl
split-print_cookies c (d ∷ cs) h (hd, hs) =
    rw
      (
        pieces_clean 59 (32 ∷ []) (print_cookie c) (59 ∷ 32 ∷ print_cookies d cs)
            (print_cookie-plain c h),
        append_nil (print_cookie c),
      )
      (ap (λ l. print_cookie c ∷ l) (split-print_cookies d cs hd hs))

cookie_pairs-print_cookie :
    (cs : HeaderList) → All IsPlainCookie cs → cookie_pairs (map print_cookie cs) ≡ ok cs
unfolding cookie_pairs
cookie_pairs-print_cookie [] h = refl
cookie_pairs-print_cookie (c ∷ cs) (h, hs) =
    rw (split-print_cookie c h, cookie_pairs-print_cookie cs hs) refl

-- From a header of one or more cookies, written "name=value" and joined by "; ", where no name and
-- no value has a "=" or a ";", `_get_cookie_value` reads the value of the last cookie of the name,
-- decoded, or `None` if there is no such cookie.
pub get_cookie_value-print_cookies :
    (decode : Bytes → Result String) (c : Bytes × Bytes) (cs : HeaderList) (name : Bytes)
    → All IsPlainCookie (c ∷ cs)
    → get_cookie_value decode (print_cookies c cs) name ≡ decoded decode (last_value name (c ∷ cs))
unfolding get_cookie_value
get_cookie_value-print_cookies decode c cs name (h, hs) =
    let read : List Bytes → Result (Option String) =
      λ parts. cookie_pairs parts >>= λ pairs. decoded decode (last_value name pairs) in
    ap read (split-print_cookies c cs h hs)
    ∙ ap (λ (r : Result HeaderList). r >>= λ pairs. decoded decode (last_value name pairs))
        (cookie_pairs-print_cookie (c ∷ cs) (h, hs))
