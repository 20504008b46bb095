-- ===== src/BankImport/Csv.antt =====
-- `ParseCSV`: the columns by their headers, and a credit for each row with a positive amount.
use treckrr.Prelude.{
  ℕ, zero, suc, ◌==◌, ltb, Bool, true, false, ◌||◌, ◌&&◌, Option, none, some, List, [], ◌∷◌,
  if◌then◌else◌, Result, ok, err,
}
use treckrr.Decimal.{Decimal}
use treckrr.Text.{Text, text, is_empty, trim_space}
use treckrr.BankImport.Amount.{
  Banking, Txn, norm_iban, parse_date, set_hash, disambiguate, credit_amount,
}

pub data Error : Type 0 where
  unreadable no_rows missing_columns no_credits : Error

unfoldable pub has_prefix : Text → Text → Bool
has_prefix [] s = true
has_prefix (c ∷ p) [] = false
has_prefix (c ∷ p) (x ∷ s) = c == x && has_prefix p s

-- `strings.Contains`
unfoldable pub contains_part : Text → Text → Bool
unfolding has_prefix
contains_part p [] = is_empty p
contains_part p (x ∷ s) = has_prefix p (x ∷ s) || contains_part p s

unfoldable pub count_char : ℕ → Text → ℕ
count_char c [] = 0
count_char c (x ∷ s) = let rest = count_char c s in if x == c then suc rest else rest

unfoldable pub contains_any_part : Text → List Text → Bool
unfolding contains_part
contains_any_part s [] = false
contains_any_part s (p ∷ ps) = contains_part p s || contains_any_part s ps

-- A column, none for -1.
abbrev pub same_index : Option ℕ → Option ℕ → Bool
same_index none none = true
same_index none (some j) = false
same_index (some i) none = false
same_index (some i) (some j) = i == j

-- `TrimPrefix(text, "\uFEFF")`
abbrev pub without_mark : Text → Text
without_mark [] = []
without_mark (c ∷ s) = if c == 0xfeff then s else c ∷ s

-- `col`
unfoldable pub field_at : ℕ → List Text → Text
unfolding trim_space
field_at n [] = []
field_at zero (f ∷ fs) = trim_space f
field_at (suc n) (f ∷ fs) = field_at n fs

abbrev pub col : List Text → Option ℕ → Text
col fields none = []
col fields (some i) = field_at i fields

module _ {D : Type 0} (k : Banking D) where
  -- `find`, from the position `n` on
  unfoldable pub find_column : Option ℕ → List Text → ℕ → List Text → Option ℕ
  unfolding contains_any_part trim_space
  find_column skip keys n [] = none
  find_column skip keys n (h ∷ hs) =
      let later = find_column skip keys (suc n) hs in
      if same_index skip (some n)
      then later
      else if contains_any_part (k.to_lower (trim_space h)) keys
      then some n
      else later

-- The columns that the header names.
pub record Columns : Type 0 where
  pub date : Option ℕ
  pub amount : Option ℕ
  pub reference : Option ℕ
  pub iban : Option ℕ
  pub legacy_name : Option ℕ
  pub name : Option ℕ

abbrev pub name_keys : List Text
name_keys = text "auftraggeber" ∷ text "name" ∷ text "empfänger" ∷ text "zahler" ∷ []

unfoldable pub find_columns : {D : Type 0} → Banking D → List Text → Columns
unfolding find_column
find_columns k header =
    let iban = find_column k none (text "iban" ∷ []) 0 header in
    record {
      date = find_column k none (text "datum" ∷ text "buchung" ∷ []) 0 header;
      amount = find_column k none (text "betrag" ∷ text "umsatz" ∷ text "amount" ∷ []) 0 header;
      reference =
          find_column k none
            (text "verwendungszweck" ∷ text "zweck" ∷ text "referenz" ∷ text "reference" ∷ []) 0
            header;
      iban = iban;
      legacy_name = find_column k none name_keys 0 header;
      name = find_column k iban name_keys 0 header;
    }

module _ {D : Type 0} ⦃d : Decimal D⦄ (k : Banking D) where
  abbrev pub csv_txn : Columns → List Text → D → Txn D
  csv_txn c fields amount = record {
    date = parse_date k (col fields c.date);
    amount = amount;
    reference = col fields c.reference;
    name = col fields c.name;
    iban = norm_iban k (col fields c.iban);
    hash = [];
  }

  -- The name that the hash of earlier imports counted.
  abbrev pub hashed_name : Columns → Txn D → Txn D
  hashed_name c t = if same_index c.legacy_name c.iban then record t { name = [] } else t

  abbrev pub csv_credit : Columns → List Text → D → Txn D
  csv_credit c fields amount =
      let t = csv_txn c fields amount in record t { hash = (set_hash k (hashed_name c t)).hash }

  unfoldable pub csv_rows : Columns → List (List Text) → List (Txn D)
  unfolding credit_amount
  csv_rows c [] = []
  csv_rows c (r ∷ rs) = elim (credit_amount k (col r c.amount)) [
    | none ↦ csv_rows c rs
    | some amount ↦ csv_credit c r amount ∷ csv_rows c rs
  ]

  abbrev pub finished : Error → List (Txn D) → Result Error (List (Txn D))
  finished e [] = err e
  finished e (t ∷ ts) = ok (disambiguate k [] (t ∷ ts))

  abbrev pub is_column : Option ℕ → Bool
  is_column none = false
  is_column (some i) = true

  unfoldable pub csv_table : List (List Text) → Result Error (List (Txn D))
  unfolding find_columns csv_rows
  csv_table [] = err no_rows
  csv_table (header ∷ []) = err no_rows
  csv_table (header ∷ r ∷ rs) =
      let c = find_columns k header in
      if is_column c.amount && is_column c.reference
      then finished no_credits (csv_rows c (r ∷ rs))
      else err missing_columns

  -- `csv.Reader.ReadAll` with a delimiter is a parameter.
  unfoldable pub parse_csv :
      (ℕ → Text → Option (List (List Text))) → Text → Result Error (List (Txn D))
  unfolding csv_table count_char
  parse_csv read_all data_text =
      let s = without_mark data_text in
      elim (read_all (if ltb (count_char 59 s) (count_char 44 s) then 44 else 59) s) [
        | none ↦ err unreadable
        | some rows ↦ csv_table rows
      ]
