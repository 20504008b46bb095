-- ===== src/Invoices/Tests.antt =====
-- An invoice over 100 euros that is credited by 30 and then reversed; amounts are tenths of a cent.
use treckrr.Prelude.{
  ℤ, pos, ◌+ℤ◌, ◌-ℤ◌, ◌≤ℤ◌, ◌≈◌, ◌≡◌, refl, false, some, [], ◌∷◌, All, ok, and_true, arith, Result,
  err,
}
use treckrr.Decimal.{tenth_cents}
use treckrr.Text.{text, trim_space, same_text}
use treckrr.Account.Data.{Key, same_account, DocumentRow, Books, Error}
use treckrr.Account.Balance.{counts_invoice, counts_credit, document_gross, sum_where, balance}
use treckrr.Account.Locks.{is_member, lock_account_boundary}
use treckrr.Account.Samples.{sample_day, sample_invoice}
use treckrr.Invoices.Contents.{Printing}
use treckrr.Invoices.Documents.{refers_to, attached_active_credits}
use treckrr.Invoices.Operations.{gutschrift_invoice_by_id, storno_invoice_by_id}
use treckrr.Invoices.Totals.{total}
use treckrr.Invoices.Orderly.{Reaches, IsOrderly}
use treckrr.Invoices.Refinement.{register_of}
use treckrr.Invoices.Runs.{IsTarget}
use treckrr.Invoices.Invariant.{
  DocumentStep, Runs, DocumentStep-Reaches, Runs-IsOrderly, gutschrift_invoice_by_id-total,
}
use treckrr.Invoices.Freed.{claims_entry, entry_total}
use treckrr.Invoices.Released.{documents_part, storno_invoice_by_id-balance}
use treckrr.Invoices.Release.{IsClosed, storno_invoice_by_id-releases}

-- The products are not needed without VAT.
abbrev plain : Printing ℤ
plain = record {
  mul = λ a b. a;
  div = λ a b. a;
  of_int = λ a. a;
  digits = λ n. n ∷ [];
  decimal_text = λ a. [];
  content_hash = λ c. [];
}

abbrev here : Key
here = record { year_id = pos 1; neighbor_id = pos 7 }

abbrev books : Books ℤ
books = record {
  years = record { id = pos 1; completed = false } ∷ [];
  neighbors = record { id = pos 7; anonymized = false } ∷ [];
  members = here ∷ [];
  documents = sample_invoice (pos 20) here (text "R1") (pos 100000) ∷ [];
  entries =
      record {
        id = pos 40;
        account = here;
        cost = pos 100000;
        voided = false;
        claimed_by = some (pos 20);
      }
      ∷ [];
  ledger = [];
  payments = [];
  audit = [];
  next_id = pos 41;
}

abbrev value_of : Result Error (DocumentRow ℤ × Books ℤ) → DocumentRow ℤ × Books ℤ
value_of (ok x) = x
value_of (err e) = (sample_invoice (pos 0) here [] (pos 0), books)

abbrev credited : DocumentRow ℤ × Books ℤ
credited = value_of (gutschrift_invoice_by_id plain here (pos 0) (pos 30000) [] sample_day books)

abbrev reversed : DocumentRow ℤ × Books ℤ
reversed = value_of (storno_invoice_by_id plain here (pos 20) [] sample_day credited.1)

credits : gutschrift_invoice_by_id plain here (pos 0) (pos 30000) [] sample_day books ≡ ok credited
unfolding gutschrift_invoice_by_id lock_account_boundary is_member ◌-ℤ◌ ◌+ℤ◌ trim_space same_text
credits = refl

reverses : storno_invoice_by_id plain here (pos 20) [] sample_day credited.1 ≡ ok reversed
unfolding storno_invoice_by_id gutschrift_invoice_by_id lock_account_boundary is_member ◌-ℤ◌ ◌+ℤ◌
    trim_space same_text
reverses = refl

orderly : IsOrderly (register_of books)
unfolding sum_where ◌+ℤ◌
orderly = record {
  keyed = (tt, tt);
  below = (omega arith, tt);
  credited = (omega arith, tt);
  capped = (omega arith, tt);
  balanced = λ k. rw (and_true (same_account here k)) refl;
}

DocumentStep-Reaches_example : Reaches (register_of books) (register_of credited.1)
DocumentStep-Reaches_example =
    DocumentStep-Reaches plain books credited.1 orderly
      (DocumentStep.credits_invoice here (pos 0) (pos 30000) [] sample_day credited.0 credits)

Runs-IsOrderly_example : IsOrderly (register_of reversed.1)
Runs-IsOrderly_example = Runs-IsOrderly plain books reversed.1 orderly (
    Runs.there books credited.1 reversed.1
      (DocumentStep.credits_invoice here (pos 0) (pos 30000) [] sample_day credited.0 credits)
      (Runs.there credited.1 reversed.1 reversed.1
        (DocumentStep.cancels_invoice here (pos 20) [] sample_day reversed.0 reverses)
        (Runs.here reversed.1)))

gutschrift_invoice_by_id-total_example :
    pos 0
    ≤ℤ total (counts_invoice here) credited.1.documents
      +ℤ total (counts_credit here) credited.1.documents
gutschrift_invoice_by_id-total_example =
    gutschrift_invoice_by_id-total plain here (pos 0) (pos 30000) [] sample_day books credited.1
      credited.0 credits

storno_invoice_by_id-releases_example :
    (orig : DocumentRow ℤ) × IsTarget credited.1 here (pos 20) orig
    × (document_gross reversed.0 ≈ pos 0 -ℤ document_gross orig)
    × All (IsClosed orig.id) reversed.1.documents
    × (attached_active_credits orig.id reversed.1 ≡ [])
    × All (λ r. refers_to orig.id r.claimed_by ≡ false) reversed.1.entries
storno_invoice_by_id-releases_example =
    storno_invoice_by_id-releases plain here (pos 20) [] sample_day credited.1 reversed.1 reversed.0
      reverses

storno_invoice_by_id-balance_example :
    (orig : DocumentRow ℤ) × IsTarget credited.1 here (pos 20) orig
    × (balance reversed.1 here
        ≈ balance credited.1 here
          -ℤ documents_part here (orig ∷ attached_active_credits orig.id credited.1)
          +ℤ entry_total (claims_entry here orig.id) credited.1.entries)
storno_invoice_by_id-balance_example =
    storno_invoice_by_id-balance plain here here (pos 20) [] sample_day credited.1 reversed.1
      reversed.0
      (Runs-IsOrderly plain books credited.1 orderly (
        Runs.there books credited.1 credited.1
          (DocumentStep.credits_invoice here (pos 0) (pos 30000) [] sample_day credited.0 credits)
          (Runs.here credited.1)))
      reverses
