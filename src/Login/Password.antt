-- ===== src/Login/Password.antt =====
-- `ValidatePassword`. Its length is counted in bytes, its letters and digits by code points.
use treckrr.Prelude.{
  ℕ, ◌≤◌, leb, ltb, ◌≡◌, ◌↔◌, Bool, true, false, not, ◌&&◌, ◌||◌, inl, inr, Bool-cases, [], ◌∷◌,
  if◌then◌else◌, Result, ok, ◌>>◌, refuse_if, arith,
}
use treckrr.Text.{Text, byte_length}

pub data Error : Type 0 where
  password_too_short password_too_long password_complexity : Error

abbrev pub is_digit : ℕ → Bool
is_digit c = leb 48 c && leb c 57

abbrev pub is_letter : ℕ → Bool
is_letter c = (leb 97 c && leb c 122) || (leb 65 c && leb c 90)

-- The loop: `hasLetter` and `hasDigit`.
unfoldable pub scan_password : Bool → Bool → Text → Bool × Bool
scan_password letter digit [] = (letter, digit)
scan_password letter digit (c ∷ cs) =
    let one = scan_password letter true cs in
    let two = scan_password true digit cs in
    let three = scan_password letter digit cs in
    if is_digit c then one else (if is_letter c then two else three)

unfoldable pub validate_password : Text → Result Error (Unit {0})
unfolding scan_password
validate_password pw = do
  refuse_if (ltb (byte_length pw) 8) password_too_short
  refuse_if (ltb 72 (byte_length pw)) password_too_long
  let found = scan_password false false pw
  refuse_if (not found.0 || not found.1) password_complexity

abbrev pub any_point : (ℕ → Bool) → Text → Bool
any_point p [] = false
any_point p (c ∷ cs) = p c || any_point p cs

letter_apart : (c : ℕ) → is_digit c ≡ true → is_letter c ≡ false
letter_apart c e = ground arith

scan_password-any_point :
    (letter digit : Bool) (pw : Text)
    → scan_password letter digit pw
      ≡ (letter || any_point is_letter pw, digit || any_point is_digit pw)
unfolding scan_password
scan_password-any_point letter digit [] = ground arith
scan_password-any_point letter digit (c ∷ cs) =
    let one = scan_password-any_point letter true cs in
    let two = scan_password-any_point true digit cs in
    let three = scan_password-any_point letter digit cs in
    elim (Bool-cases (is_digit c)) [
      | inl e ↦ rw e (rw (letter_apart c e) (rw one (ground arith)))
      | inr e ↦ elim (Bool-cases (is_letter c)) [
        | inl l ↦ rw e (rw l (rw two (ground arith)))
        | inr l ↦ rw e (rw l three)
      ]
    ]

-- A password is accepted exactly if it has from 8 to 72 bytes, an ASCII letter and an ASCII digit.
pub validate_password_lem :
    (pw : Text)
    → (validate_password pw ≡ ok tt) ↔ (
        (8 ≤ byte_length pw)
        × (byte_length pw ≤ 72)
        × (any_point is_letter pw ≡ true)
        × (any_point is_digit pw ≡ true))
unfolding validate_password
validate_password_lem pw = rw (scan_password-any_point false false pw) (ground arith)
