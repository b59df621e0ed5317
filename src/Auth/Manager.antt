-- ===== src/Auth/Manager.antt =====
-- webtool/auth/manager.py: the error paths of `JWTManager.decode`, and Python's `==` on payloads.
use webtool.Prelude.{
  String, Bool, true, false, ◌&&◌, ◌||◌, Option, none, some, List, [], ◌∷◌, all, length, ◌==◌,
  str_eq, if◌then◌else◌,
}
use webtool.Prelude.Dict.{lookup}
use webtool.Result.{Exception, Result, ok, err, value_error, invalid_token}
use webtool.Auth.Models.{Value, null, text, number, texts, Payload}

-- `==` on the values of claims and on payloads.
abbrev pub same_texts : List String → List String → Bool
same_texts [] [] = true
same_texts [] (_ ∷ _) = false
same_texts (_ ∷ _) [] = false
same_texts (x ∷ xs) (y ∷ ys) = str_eq x y && same_texts xs ys

abbrev pub same_value : Value → Value → Bool
same_value null null = true
same_value (text s) (text t) = str_eq s t
same_value (number m) (number n) = m == n
same_value (texts l) (texts k) = same_texts l k
same_value _ _ = false

abbrev pub has_value : Value → Option Value → Bool
has_value v none = false
has_value v (some w) = same_value v w

unfoldable pub same_payload : Payload → Payload → Bool
same_payload a b = length a == length b && all (λ e. has_value e.1 (lookup e.0 b)) a

-- `JWTManager.decode`, once PyJWT has answered.
abbrev pub at_hash_ok : Option String → Payload → Bool
at_hash_ok none res = true
at_hash_ok (some h) res = str_eq h "" || has_value (text h) (lookup "at_hash" res)

abbrev pub raised_or_none : Bool → Exception → Result (Option Payload)
raised_or_none raise_error e = if raise_error then err e else ok none

abbrev pub checked : Option String → Bool → Result Payload → Result (Option Payload)
checked at_hash raise_error (err invalid_token) = raised_or_none raise_error invalid_token
checked at_hash raise_error (err value_error) = raised_or_none raise_error value_error
checked at_hash raise_error (err e) = err e
checked at_hash raise_error (ok res) =
    if at_hash_ok at_hash res then ok (some res) else raised_or_none raise_error value_error
