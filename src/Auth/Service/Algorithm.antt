-- ===== src/Auth/Service/Algorithm.antt =====
-- `_verify_key_algorithm`: the algorithm that tokens are signed and checked with.
use webtool.Prelude.{
  String, ◌≡◌, refl, sym, ap, ◌∙◌, ◌⊎◌, inl, inr, Bool, true, false, Option, none, some, str_eq,
  eq_iff, arith, if◌then◌else◌,
}
use webtool.Result.{ok, err, value_error, ok-injective}
use webtool.Auth.Service.{verify_key_algorithm}

tests_inv :
    (b b' : Bool) (expected key_algorithm a : String)
    → (b ≡ true → expected ≡ "")
    → (b' ≡ true → key_algorithm ≡ expected)
    → (if b then ok key_algorithm else if b' then ok expected else err value_error) ≡ ok a
    → (a ≡ key_algorithm) × ((expected ≡ "") ⊎ (expected ≡ key_algorithm))
tests_inv true b' expected key_algorithm a f g h = (sym (ok-injective h), inl (f refl))
tests_inv false true expected key_algorithm a f g h =
    (sym (ok-injective h) ∙ sym (g refl), inr (sym (g refl)))
tests_inv false false expected key_algorithm a f g h = ground arith

-- Where `_verify_key_algorithm` does not raise, the service has the algorithm of its key, and was
-- given no algorithm, an empty one, or that one.
pub verify_key_algorithm_lem :
    (expected : Option String) (key_algorithm a : String)
    → verify_key_algorithm expected key_algorithm ≡ ok a
    → (a ≡ key_algorithm)
      × ((expected ≡ none) ⊎ ((expected ≡ some "") ⊎ (expected ≡ some key_algorithm)))
unfolding verify_key_algorithm
verify_key_algorithm_lem none key_algorithm a h = (sym (ok-injective h), inl refl)
verify_key_algorithm_lem (some e) key_algorithm a h =
    let (same, cases) =
      tests_inv (str_eq e "") (str_eq key_algorithm e) e key_algorithm a (eq_iff e "").0
        (eq_iff key_algorithm e).0 h in
    (same, inr (elim cases [ inl x ↦ inl (ap some x) | inr x ↦ inr (ap some x) ]))
