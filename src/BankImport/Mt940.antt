-- ===== src/BankImport/Mt940.antt =====
-- `ParseMT940` and `Parse`: the statement lines one after another. The pattern of a `:61:` line is
-- matched by a parameter, which gives the value date, the mark and the amount.
use treckrr.Prelude.{
  ℕ, zero, suc, leb, ◌==◌, Bool, true, false, not, ◌||◌, ◌&&◌, Option, none, some, List, [], ◌∷◌,
  ◌++◌, if◌then◌else◌, Result,
}
use treckrr.Decimal.{Decimal}
use treckrr.Calendar.{Date}
use treckrr.Text.{Text, text, is_empty, same_text, trim_space}
use treckrr.BankImport.Amount.{
  Banking, Txn, has_char, norm_iban, zero_date, set_hash, credit_amount,
}
use treckrr.BankImport.Csv.{
  Error, no_credits, has_prefix, contains_part, without_mark, finished, parse_csv,
}
use treckrr.BankImport.Camt.{CamtDoc, join_spaced, parse_camt}

-- `strings.Split` at a character; `piece` is the part read so far.
unfoldable pub split_at : ℕ → Text → Text → List Text
split_at c piece [] = piece ∷ []
split_at c piece (x ∷ s) =
    if x == c then piece ∷ split_at c [] s else split_at c (piece ++ (x ∷ [])) s

-- `ReplaceAll("\r\n", "\n")`
unfoldable pub unix_lines : Text → Text
unix_lines [] = []
unix_lines (x ∷ []) = x ∷ []
unix_lines (x ∷ y ∷ s) =
    let rest = unix_lines (y ∷ s) in if x == 13 && y == 10 then rest else x ∷ rest

unfoldable pub drop_chars : ℕ → Text → Text
drop_chars zero s = s
drop_chars (suc n) [] = []
drop_chars (suc n) (c ∷ s) = drop_chars n s

-- `ref`, `name`, `iban` of `parse86`, the texts of `ref` still apart.
pub record Parts : Type 0 where
  pub refs : List Text
  pub name : Text
  pub iban : Text

-- `code >= "20" && code <= "29" || code >= "60" && code <= "63"`, on two characters
abbrev pub is_remittance : ℕ → ℕ → Bool
is_remittance a b = a == 50 && leb 48 b && leb b 57 || a == 54 && leb 48 b && leb b 51

abbrev pub is_code : ℕ → ℕ → ℕ → ℕ → Bool
is_code a b x y = a == x && b == y

abbrev pub without_svwz : Text → Text
without_svwz s = if has_prefix (text "SVWZ+") s then drop_chars 5 s else s

abbrev pub add_ref : Text → Parts → Parts
add_ref s p = if is_empty s then p else record p { refs = p.refs ++ (s ∷ []) }

abbrev pub add_name : Text → Parts → Parts
add_name s p = record p { name = if is_empty p.name then s else p.name ++ (text " " ++ s) }

module _ {D : Type 0} (k : Banking D) where
  unfoldable pub read_part : Text → Parts → Parts
  unfolding has_prefix drop_chars trim_space
  read_part [] p = p
  read_part (a ∷ []) p = p
  read_part (a ∷ b ∷ rest) p =
      let s = trim_space rest in
      if is_remittance a b
      then add_ref (without_svwz s) p
      else if is_code a b 51 49
      then record p { iban = norm_iban k s }
      else if is_code a b 51 50 || is_code a b 51 51
      then add_name s p
      else p

  unfoldable pub read_parts : List Text → Parts → Parts
  unfolding read_part
  read_parts [] p = p
  read_parts (s ∷ ss) p = read_parts ss (read_part s p)

  unfoldable pub parse86 : Text → Text × Text × Text
  unfolding read_parts split_at join_spaced has_char trim_space
  parse86 s =
      let p = read_parts (split_at 63 [] s) (record { refs = []; name = []; iban = [] }) in
      if has_char 63 s then (join_spaced p.refs, p.name, p.iban) else (trim_space s, [], [])

-- The variables of the loop; a current credit has its date and amount only.
pub record Mt940State (D : Type 0) : Type 0 where
  pub out : List (Txn D)
  pub cur : Option (Txn D)
  pub raw86 : Text
  pub in86 : Bool

-- The groups 1, 3 and 4 of the pattern.
pub record Line61 : Type 0 where
  pub value_date : Text
  pub mark : Text
  pub amount : Text

module _ {D : Type 0} ⦃d : Decimal D⦄ (k : Banking D) where
  abbrev pub with_remittance : Text → Txn D → Txn D
  with_remittance raw t =
      let p = parse86 k raw in set_hash k (record t { reference = p.0; name = p.1; iban = p.2 })

  unfoldable pub flush : Mt940State D → Mt940State D
  unfolding parse86
  flush s = elim s.cur [
    | none ↦ s
    | some t ↦ record s { out = s.out ++ (with_remittance s.raw86 t ∷ []); cur = none; raw86 = [] }
  ]

  abbrev pub date_or_zero : Option Date → Date
  date_or_zero none = zero_date
  date_or_zero (some t) = t

  abbrev pub opened : Text → D → Txn D
  opened value_date amount = record {
    date = date_or_zero (k.parse_time (text "060102") value_date);
    amount = amount;
    reference = [];
    name = [];
    iban = [];
    hash = [];
  }

  unfoldable pub open_credit : Option Line61 → Option (Txn D)
  unfolding credit_amount same_text
  open_credit none = none
  open_credit (some m) =
      if same_text m.mark (text "C")
      then elim (credit_amount k m.amount) [
        | none ↦ none
        | some amount ↦ some (opened m.value_date amount)
      ]
      else none

  abbrev pub is_open : Option (Txn D) → Bool
  is_open none = false
  is_open (some t) = true

  unfoldable pub read_line : (Text → Option Line61) → Mt940State D → Text → Mt940State D
  unfolding flush open_credit has_prefix drop_chars trim_space
  read_line match61 s ln =
      if has_prefix (text ":61:") ln
      then record (flush s) { in86 = false; cur = open_credit (match61 (drop_chars 4 ln)) }
      else if has_prefix (text ":86:") ln
      then (if is_open s.cur
          then record s { raw86 = trim_space (drop_chars 4 ln); in86 = true }
          else s)
      else if s.in86
          && is_open s.cur
          && not (has_prefix (text ":") ln)
          && not (has_prefix (text "-") ln)
          && not (is_empty (trim_space ln))
      then record s { raw86 = s.raw86 ++ (10 ∷ trim_space ln) }
      else if has_prefix (text ":") ln
      then flush (record s { in86 = false })
      else record s { in86 = false }

  unfoldable pub read_lines : (Text → Option Line61) → Mt940State D → List Text → Mt940State D
  unfolding read_line
  read_lines match61 s [] = s
  read_lines match61 s (ln ∷ lns) = read_lines match61 (read_line match61 s ln) lns

  unfoldable pub parse_mt940 : (Text → Option Line61) → Text → Result Error (List (Txn D))
  unfolding read_lines unix_lines split_at
  parse_mt940 match61 data_text =
      let start : Mt940State D = record { out = []; cur = none; raw86 = []; in86 = false } in
      finished k no_credits
        (flush (read_lines match61 start (split_at 10 [] (unix_lines data_text)))).out

  -- `Parse`
  unfoldable pub parse :
      (ℕ → Text → Option (List (List Text)))
      → (Text → Option CamtDoc)
      → (Text → Option Line61)
      → Text
      → Result Error (List (Txn D))
  unfolding parse_mt940 parse_csv parse_camt has_prefix contains_part trim_space
  parse read_all decode match61 data_text =
      let s = trim_space (without_mark data_text) in
      if has_prefix (text "<?xml") s || has_prefix (text "<Document") s
      then parse_camt k decode data_text
      else if has_prefix (text ":20:") s
          || has_prefix (text "{1:") s
          || contains_part (10 ∷ text ":61:") s
      then parse_mt940 match61 data_text
      else parse_csv k read_all data_text
