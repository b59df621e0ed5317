-- ===== src/Auth/Service/Reordered.antt =====
-- A payload whose members come in another order is the same payload to `validate_refresh_token`.
use webtool.Prelude.{
  suc, String, ◌≡◌, ◌≢◌, refl, sym, ap, ◌∙◌, true, Bool-cases, inl, inr, some, [], ◌∷◌, all, All,
  All_mono, length, str_eq, eq_iff, eq_refl, arith,
}
use webtool.Prelude.Dict.{
  lookup, insert, remove, IsFresh, HasDistinctKeys, HasDistinctKeys-remove, lookup-insert,
  lookup-remove, lookup_of_IsFresh,
}
use webtool.Result.{ok}
use webtool.Auth.Models.{Value, Payload}
use webtool.Auth.TokenServer.{IsReordered}
use webtool.Auth.Manager.{same_payload}
use webtool.Auth.Service.{full, compare_cached}
use webtool.Auth.Service.Tokens.{found_in, full_of, same_value_refl}

remove_fresh : (k : String) (m : Payload) → IsFresh k m → remove k m ≡ m
unfolding remove
remove_fresh k [] h = refl
remove_fresh k ((j, v) ∷ m) (ne, h) = rw (ne, remove_fresh k m h) refl

length-remove_found :
    (k : String) (v : Value) (m : Payload)
    → HasDistinctKeys m
    → lookup k m ≡ some v
    → length m ≡ suc (length (remove k m))
unfolding remove lookup
length-remove_found k v [] d e = ground arith
length-remove_found k v ((j, w) ∷ m) (fresh, d) e = elim (Bool-cases (str_eq j k)) [
  | inl same ↦
      let fresh' : IsFresh k m = rw⁻¹ ((eq_iff j k).0 same) fresh in
      rw (same, remove_fresh k m fresh') refl
  | inr other ↦
      let later : lookup k m ≡ some v = unfold lookup in ground arith in
      rw other (ap suc (length-remove_found k v m d later))
]

length-insert_fresh :
    (k : String) (v : Value) (m : Payload) → IsFresh k m → length (insert k v m) ≡ suc (length m)
unfolding insert
length-insert_fresh k v [] h = refl
length-insert_fresh k v ((j, w) ∷ m) (ne, h) = rw ne (ap suc (length-insert_fresh k v m h))

lookup-insert_same : (k : String) (v : Value) (p : Payload) → lookup k (insert k v p) ≡ some v
lookup-insert_same k v p = lookup-insert k k v p ∙ rw (eq_refl k) refl

-- Each member is found at its own key.
abbrev Holds : Payload → Payload → Type 0
Holds b a = All (λ e. lookup e.0 b ≡ some e.1) a

Holds-cons :
    (j : String) (v : Value) (a b : Payload) → IsFresh j a → Holds b a → Holds ((j, v) ∷ b) a
unfolding lookup
Holds-cons j v [] b f h = tt
Holds-cons j v ((i, u) ∷ a) b (other, f) (here, h) =
    (ground (arith, eq_iff i j, eq_iff j i), Holds-cons j v a b f h)

Holds-self : (a : Payload) → HasDistinctKeys a → Holds a a
unfolding lookup
Holds-self [] d = tt
Holds-self ((j, v) ∷ a) (f, d) = (rw (eq_refl j), Holds-cons j v a a f (Holds-self a d))

Holds-all : (a b : Payload) → Holds b a → all (found_in b) a ≡ true
Holds-all [] b h = refl
Holds-all ((k, v) ∷ a) b (here, h) = rw (here, same_value_refl v, Holds-all a b h) refl

-- What is read of a key after the pop of another one that was put in.
lookup-popped :
    (k j : String) (v : Value) (c p : Payload)
    → IsFresh k p
    → lookup j c ≡ lookup j (insert k v p)
    → lookup j (remove k c) ≡ lookup j p
lookup-popped k j v c p fresh e = elim (Bool-cases (str_eq k j)) [
  | inl same ↦
      lookup-remove k j c
      ∙ (rw same refl
          ∙ sym (ap (λ i. lookup i p) (sym ((eq_iff k j).0 same)) ∙ lookup_of_IsFresh k p fresh))
  | inr other ↦ lookup-remove k j c ∙ (rw other e ∙ (lookup-insert k j v p ∙ rw other refl))
]

-- What was stored beside "access_jti", in any order, is what is compared with the claims.
pub compare_reordered :
    (v : Value) (c p : Payload)
    → IsFresh "access_jti" p
    → IsReordered c (insert "access_jti" v p)
    → compare_cached (full (some c)) p ≡ ok (some p)
unfolding same_payload
compare_reordered v c p fresh r =
    let k : String = "access_jti" in
    let there : lookup k c ≡ some v = r.found k ∙ lookup-insert_same k v p in
    let longer = length-insert_fresh k v p fresh in
    let shorter = length-remove_found k v c r.distinct there in
    let same : length (remove k c) ≡ length p = omega (arith, r.same_length, longer, shorter) in
    let nonempty : c ≢ [] = λ e. let n : length c ≡ 0 = ap length e in omega (arith, n, shorter) in
    let d = HasDistinctKeys-remove k c r.distinct in
    let held = Holds-all (remove k c) p (
      All_mono (remove k c) (λ e h. sym (lookup-popped k e.0 v c p fresh (r.found e.0)) ∙ h)
        (Holds-self (remove k c) d)) in
    rw (full_of c nonempty, there, held, same) (ground arith)
