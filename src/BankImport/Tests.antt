-- ===== src/BankImport/Tests.antt =====
-- A camt message with one entry over ten euros, split into six and four; a library whose amounts are
-- digits alone.
use treckrr.Prelude.{
  ℕ, ◌+◌, ◌-◌, ◌*◌, ◌≡◌, ◌≈◌, ◌⊎◌, refl, ap, arith, ℤ, pos, pos_part, neg_part, ◌+ℤ◌, ◌-ℤ◌, leb_ℤ,
  Option, none, some, [], ◌∷◌, List, All, Result, ok, err,
}
use treckrr.Decimal.{tenth_cents}
use treckrr.Text.{Text, text, same_text, trim_space}
use treckrr.BankImport.Amount.{Banking, Txn, credit_amount}
use treckrr.BankImport.Csv.{Error, has_prefix}
use treckrr.BankImport.Camt.{CamtAmt, CamtTxDtls, CamtEntry, CamtDoc, camt_entry, sum_amounts}
use treckrr.BankImport.Mt940.{parse}
use treckrr.BankImport.Bounds.{IsExact, IsCredit, cut}
use treckrr.BankImport.Statements.{parse-IsCredit}
use treckrr.BankImport.Batches.{camt_entry-whole}

-- Whole euros, read from digits.
abbrev euros : ℕ → Text → Option ℤ
euros n [] = some (pos (n * 1000))
euros n (c ∷ s) = euros (n * 10 + (c - 48)) s

abbrev library : Banking ℤ
library = record {
  from_string = euros 0;
  of_int = λ a. pos (pos_part a * 1000);
  abs = λ a. pos (pos_part a + neg_part a);
  truncate_cents = cut 10;
  greater_or_equal = λ a b. leb_ℤ b a;
  fixed_cents = λ a. [];
  parse_time = λ layout s. none;
  date_text = λ t. [];
  hex_digest = λ s. s;
  digits = λ n. n ∷ [];
  to_upper = λ s. s;
  to_lower = λ s. s;
  equal_fold = same_text;
}

library-IsExact : IsExact library
library-IsExact = record {
  units-of_int = λ n. ap pos (omega arith);
  units-abs = λ a. refl;
  units-truncate_cents = λ a. refl;
  greater_or_equal_lem = λ a b. refl;
}

abbrev euro : Text → CamtAmt
euro s = record { value = s; ccy = text "EUR" }

abbrev detail : Text → CamtTxDtls
detail s = record {
  ustrd = text "R1" ∷ [];
  dbtr_nm = [];
  dbtr_iban = [];
  amt = euro s;
  tx_amt = euro [];
}

abbrev entry : CamtEntry
entry = record {
  amt = euro (text "10");
  cdt_dbt_ind = text "CRDT";
  bookg_dt = record { dt = []; dt_tm = [] };
  acct_svcr_ref = text "B";
  details = detail (text "6") ∷ detail (text "4") ∷ [];
}

abbrev message : CamtDoc
message = record { stmt = entry ∷ []; rpt = []; ntfctn = [] }

abbrev value_of : Result Error (List (Txn ℤ)) → List (Txn ℤ)
value_of (err e) = []
value_of (ok ts) = ts

abbrev credits : List (Txn ℤ)
credits = value_of (parse library (λ c s. none) (λ s. some message) (λ s. none) (text "<Document>"))

reads : parse library (λ c s. none) (λ s. some message) (λ s. none) (text "<Document>") ≡ ok credits
unfolding parse same_text trim_space has_prefix ◌+ℤ◌ ◌-ℤ◌
reads = refl

parse-IsCredit_example : All IsCredit credits
parse-IsCredit_example =
    parse-IsCredit library library-IsExact (λ c s. none) (λ s. some message) (λ s. none)
      (text "<Document>") credits reads

camt_entry-whole_example :
    (camt_entry library entry ≡ [])
    ⊎ ((a : ℤ) × (credit_amount library (text "10") ≡ some a)
        × (sum_amounts library (pos 0) (camt_entry library entry) ≈ a))
camt_entry-whole_example = camt_entry-whole library entry
