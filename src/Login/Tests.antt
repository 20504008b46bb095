-- ===== src/Login/Tests.antt =====
-- A password with a letter and a digit, and a code of the step before.
use treckrr.Prelude.{ℕ, ◌+◌, ◌∷◌, [], ◌≤◌, ◌≡◌, ◌↔◌, true, false, refl, Option, arith, some, ok}
use treckrr.Text.{same_text, Text, text, byte_length, is_empty, trim_space}
use treckrr.Login.Password.{
  is_digit, is_letter, any_point, validate_password, validate_password_lem,
}
use treckrr.Login.Totp.{
  first_match, IsNearStep, validate_step, validate, validate_lem, validate_step-IsNearStep,
}

abbrev password : Text
password = text "feldweg7"

validate_password_lem_example : (validate_password password ≡ ok tt) ↔ (
    (8 ≤ byte_length password)
    × (byte_length password ≤ 72)
    × (any_point is_letter password ≡ true)
    × (any_point is_digit password ≡ true))
validate_password_lem_example = validate_password_lem password

abbrev secret : Text
secret = text "GEZDGNBV"

abbrev entered : Text
entered = text " 000006 "

-- A stand-in for RFC 6238: five zeros and the step, for steps below ten.
abbrev code : Text → ℕ → Option Text
code key step = some (48 ∷ 48 ∷ 48 ∷ 48 ∷ 48 ∷ (48 + step) ∷ [])

validate_lem_example : (validate code 7 secret entered ≡ true) ↔ (
    (is_empty (trim_space secret) ≡ false)
    × (byte_length (trim_space entered) ≡ 6)
    × ((step : ℕ) × IsNearStep code 7 secret (trim_space entered) step))
validate_lem_example = validate_lem code 7 secret entered (omega arith) (omega arith)

steps_back : validate_step code 7 secret entered ≡ some 6
unfolding validate_step first_match trim_space is_empty byte_length same_text
steps_back = refl

validate_step-IsNearStep_example : IsNearStep code 7 secret (trim_space entered) 6
validate_step-IsNearStep_example =
    validate_step-IsNearStep code 7 secret entered 6 (omega arith) (omega arith) steps_back
