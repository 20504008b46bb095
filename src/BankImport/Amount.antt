-- ===== src/BankImport/Amount.antt =====
-- `parseAmount`, `parseDate`, `normIBAN` and the hashes of credits. Texts are code points.
use treckrr.Prelude.{
  ℕ, zero, suc, ◌==◌, ltb, ℤ, pos, Bool, false, not, ◌||◌, Option, none, some, List, [], ◌∷◌, ◌++◌,
  if◌then◌else◌,
}
use treckrr.Decimal.{Decimal}
use treckrr.Calendar.{Date}
use treckrr.Text.{Text, text, is_empty, same_text, trim_space, byte_length}

-- What the parsers take from Go's libraries and from shopspring/decimal.
pub record Banking (D : Type 0) : Type 0 where
  -- `decimal.NewFromString`, `NewFromInt`, `Abs`, `Truncate(2)`, `GreaterThanOrEqual`, `StringFixed(2)`
  pub from_string : Text → Option D
  pub of_int : ℤ → D
  pub abs : D → D
  pub truncate_cents : D → D
  pub greater_or_equal : D → D → Bool
  pub fixed_cents : D → Text
  -- `time.Parse` with a layout, and `Format("2006-01-02")`
  pub parse_time : Text → Text → Option Date
  pub date_text : Date → Text
  -- SHA-256 in hexadecimal digits, and `strconv.Itoa`
  pub hex_digest : Text → Text
  pub digits : ℕ → Text
  pub to_upper : Text → Text
  pub to_lower : Text → Text
  pub equal_fold : Text → Text → Bool

-- `Txn`
pub record Txn (D : Type 0) : Type 0 where
  pub date : Date
  pub amount : D
  pub reference : Text
  pub name : Text
  pub iban : Text
  pub hash : Text

abbrev pub max_amount_len : ℕ
max_amount_len = 32

unfoldable pub has_char : ℕ → Text → Bool
has_char c [] = false
has_char c (x ∷ s) = x == c || has_char c s

-- `ReplaceAll` of a character by nothing, and by another
unfoldable pub remove_char : ℕ → Text → Text
remove_char c [] = []
remove_char c (x ∷ s) = let rest = remove_char c s in if x == c then rest else x ∷ rest

unfoldable pub swap_char : ℕ → ℕ → Text → Text
swap_char c e [] = []
swap_char c e (x ∷ s) = (if x == c then e else x) ∷ swap_char c e s

-- `LastIndex`, from the position `n` on
unfoldable pub last_index : ℕ → ℕ → Text → Option ℕ
last_index c n [] = none
last_index c n (x ∷ s) = elim (last_index c (suc n) s) [
  | some i ↦ some i
  | none ↦ if x == c then some n else none
]

-- The last separator is the decimal one; it becomes a point, and the other one goes.
unfoldable pub plain_form : Text → Text
unfolding last_index remove_char swap_char
plain_form s = elim (last_index 44 0 s) [
  | none ↦ s
  | some comma ↦ elim (last_index 46 0 s) [
    | none ↦ swap_char 44 46 s
    | some point ↦ if ltb point comma then swap_char 44 46 (remove_char 46 s) else remove_char 44 s
  ]
]

-- `normIBAN`
unfoldable pub norm_iban : {D : Type 0} → Banking D → Text → Text
unfolding trim_space remove_char
norm_iban k s = k.to_upper (remove_char 32 (trim_space s))

abbrev pub date_layouts : List Text
date_layouts = text "2006-01-02" ∷ text "02.01.2006" ∷ text "02.01.06" ∷ text "2006/01/02" ∷ []

-- `time.Time{}`
abbrev pub zero_date : Date
zero_date = record { year = 1; month = 1; day = 1 }

unfoldable pub first_layout : {D : Type 0} → Banking D → Text → List Text → Date
first_layout k s [] = zero_date
first_layout k s (l ∷ ls) = elim (k.parse_time l s) [ some t ↦ t | none ↦ first_layout k s ls ]

-- `parseDate`, whose callers drop the flag
unfoldable pub parse_date : {D : Type 0} → Banking D → Text → Date
unfolding first_layout trim_space
parse_date k raw = first_layout k (trim_space raw) date_layouts

module _ {D : Type 0} (k : Banking D) where
  unfoldable pub txn_hash : Txn D → Text
  unfolding trim_space
  txn_hash t = k.hex_digest (
      k.date_text t.date
      ++ (text "|"
          ++ (k.fixed_cents t.amount
              ++ (text "|" ++ (trim_space t.reference ++ (text "|" ++ trim_space t.name))))))

  -- `setHash`
  abbrev pub set_hash : Txn D → Txn D
  set_hash t = record t { hash = txn_hash t }

  -- `seen[h]`, and `seen[h]++`
  unfoldable pub times_seen : Text → List Text → ℕ
  unfolding same_text
  times_seen h [] = 0
  times_seen h (s ∷ ss) = let rest = times_seen h ss in if same_text s h then suc rest else rest

  abbrev pub hash_again : ℕ → Text → Text
  hash_again zero h = h
  hash_again (suc n) h = k.hex_digest (h ++ (text "#dup" ++ k.digits (suc n)))

  -- `disambiguateDuplicateHashes`; `seen` holds the hashes as they came
  unfoldable pub disambiguate : List Text → List (Txn D) → List (Txn D)
  unfolding times_seen
  disambiguate seen [] = []
  disambiguate seen (t ∷ ts) =
      record t { hash = hash_again (times_seen t.hash seen) t.hash }
      ∷ disambiguate (t.hash ∷ seen) ts

module _ {D : Type 0} ⦃d : Decimal D⦄ (k : Banking D) where
  open d use {equal, is_positive}

  abbrev pub max_amount : D
  max_amount = k.of_int (pos 1000000000)

  abbrev pub accepted : Option D → Option D
  accepted none = none
  accepted (some a) =
      if k.greater_or_equal (k.abs a) max_amount || not (equal a (k.truncate_cents a))
      then none
      else some a

  unfoldable pub parse_amount : Text → Option D
  unfolding remove_char has_char plain_form trim_space byte_length
  parse_amount raw =
      let s = remove_char 32 (trim_space raw) in
      if is_empty s || ltb max_amount_len (byte_length s) || has_char 101 s || has_char 69 s
      then none
      else accepted (k.from_string (plain_form s))

  abbrev positive_only : Option D → Option D
  positive_only none = none
  positive_only (some a) = if is_positive a then some a else none

  -- The amount of a credit: `amt, ok := parseAmount(raw)`, and `ok && amt.IsPositive()`
  unfoldable pub credit_amount : Text → Option D
  unfolding parse_amount
  credit_amount raw = positive_only (parse_amount raw)
