-- ===== src/Auth/Models.antt =====
-- webtool/auth/models.py. A payload is a `dict` of JSON values; of the values, those that the code
-- looks into: `None`, texts, numbers, and lists of texts.
use webtool.Prelude.{
  ℕ, zero, ◌+◌, String, Bool, true, false, Option, none, some, List, [], ◌∷◌, str_eq, if◌then◌else◌,
}
use webtool.Prelude.Dict.{Dict, lookup, insert}
use webtool.Result.{Result, ok, err, value_error}

pub data Value : Type 0 where
  null : Value
  text : String → Value
  number : ℕ → Value
  texts : List String → Value

abbrev pub Payload : Type 0
Payload = Dict Value

pub record AuthData : Type 0 where
  pub identifier : Value
  pub data' : Option Payload

-- Python's truth of a value that `dict.get` returned.
abbrev pub truthy : Option Value → Bool
truthy none = false
truthy (some null) = false
truthy (some (text s)) = if str_eq s "" then false else true
truthy (some (number zero)) = false
truthy (some (number _)) = true
truthy (some (texts [])) = false
truthy (some (texts (_ ∷ _))) = true

unfoldable pub get_jti : Payload → Option Value
get_jti validated_data = lookup "jti" validated_data

unfoldable pub get_exp : Payload → Option Value
get_exp validated_data = lookup "exp" validated_data

-- `_validate_sub`
unfoldable pub validate_sub : Payload → Result Bool
validate_sub token_data = if truthy (lookup "sub" token_data) then ok true else err value_error

-- `_create_metadata`, with its clock reading in whole seconds and the new `uuid4().hex`.
unfoldable pub create_metadata : Payload → ℕ → ℕ → String → Payload
create_metadata payload ttl now jti =
    insert "jti" (text jti) (insert "iat" (number now) (insert "exp" (number (now + ttl)) payload))
