-- ===== src/Account/Data.antt =====
-- The rows that the account operations read and write, over any exact decimals.
use treckrr.Prelude.{ℕ, ℤ, Bool, ◌&&◌, ◌==ℤ◌, List, Option}
use treckrr.Calendar.{Date}
use treckrr.Text.{Text}
use treckrr.Account.Content.{Content}

-- `accountKey`
pub record Key : Type 0 where
  pub year_id : ℤ
  pub neighbor_id : ℤ

abbrev pub same_account : Key → Key → Bool
same_account a b = (a.year_id ==ℤ b.year_id) && (a.neighbor_id ==ℤ b.neighbor_id)

pub record YearRow : Type 0 where
  pub id : ℤ
  pub completed : Bool

pub record NeighborRow : Type 0 where
  pub id : ℤ
  pub anonymized : Bool

pub data Kind : Type 0 where
  invoice storno credit_note anzahlung : Kind

pub data Status : Type 0 where
  issued canceled : Status

pub record DocumentRow (D : Type 0) : Type 0 where
  pub id : ℤ
  pub account : Key
  pub number : Text
  pub kind : Kind
  pub status : Status
  -- the invoice that a storno or a credit note corrects
  pub references : Option ℤ
  pub payment_reference : Text
  pub issued_on : Date
  -- none for the rows from before the frozen contents
  pub content : Option (Content D)

-- `claimed_by`: the invoice of the active row of `invoice_entries` that names the entry.
pub record EntryRow (D : Type 0) : Type 0 where
  pub id : ℤ
  pub account : Key
  pub cost : D
  pub voided : Bool
  pub claimed_by : Option ℤ

pub record LedgerRow (D : Type 0) : Type 0 where
  pub id : ℤ
  pub account : Key
  pub amount : D
  pub description : Text
  pub posting_date : Date
  pub voided : Bool
  -- empty for an ordinary posting
  pub transfer_id : Text
  pub void_reason : Text
  -- `booking IS NOT NULL`
  pub has_booking : Bool

pub record PaymentRow (D : Type 0) : Type 0 where
  pub id : ℤ
  pub account : Key
  pub amount : D
  pub paid_on : Date
  pub note : Text
  pub method : Text
  pub deleted : Bool
  pub invoice_id : Option ℤ
  -- `idempotency_key`, empty where it is NULL
  pub form_key : Text
  pub preferred_invoice_id : Option ℤ
  -- a row of `payment_import_rows` names the payment
  pub imported : Bool
  -- `reversal_of_payment_id IS NOT NULL`
  pub reversal : Bool

-- The actions of the audit lines on documents.
pub data DocumentAction : Type 0 where
  invoice_storno document_storno invoice_gutschrift anzahlung_create : DocumentAction

-- The audit lines of the operations, with what their texts state.
pub data Audit (D : Type 0) : Type 0 where
  payment_settle : ℤ → D → Date → Text → Audit D
  carry_forward : Text → D → ℤ → ℤ → Audit D
  credit_payout : ℤ → D → ℤ → Audit D
  payment_add : ℤ → D → Date → Text → Audit D
  payment_update : ℤ → D → Date → Text → D → Date → Text → Audit D
  payment_delete : ℤ → D → Date → Text → Audit D
  payment_restore : ℤ → D → Date → Text → Audit D
  ledger_add : ℤ → D → Date → Audit D
  ledger_update : ℤ → D → Date → D → Date → Bool → Audit D
  ledger_delete : ℤ → D → Date → Bool → Audit D
  ledger_void : ℤ → D → Date → Bool → Audit D
  transfer_delete : Text → ℕ → Audit D
  transfer_void : Text → ℕ → Bool → Audit D
  -- `addInvoiceAudit`: the action, and the number, kind and gross of the document
  document_issue : DocumentAction → ℤ → Text → Kind → D → Audit D

-- The tables; `next_id` stands for the sequences.
pub record Books (D : Type 0) : Type 0 where
  pub years : List YearRow
  pub neighbors : List NeighborRow
  pub members : List Key
  pub documents : List (DocumentRow D)
  pub entries : List (EntryRow D)
  pub ledger : List (LedgerRow D)
  pub payments : List (PaymentRow D)
  pub audit : List (Audit D)
  pub next_id : ℤ

pub data Error : Type 0 where
  not_found year_completed neighbor_anonymized : Error
  carry_target_completed carry_preview_changed : Error
  ledger_transfer empty_transfer_id : Error
  payment_amount imported_payment_immutable : Error
  invoice_ambiguous invoice_incomplete no_snapshot number_taken : Error
  amount_required gutschrift_amount gutschrift_too_large : Error
  idempotency_conflict skonto_year_completed : Error
