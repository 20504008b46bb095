-- ===== src/Settlement/Inputs.antt =====
-- `allocationInvoiceInputs`, `allocationPaymentInputs` and `allocationLedgerInputs`: from the rows that
-- the queries select, in their order, to the input of each account; and `invoiceAllocationsTx`.
use treckrr.Prelude.{
  ℤ, pos, ◌==ℤ◌, Bool, true, false, not, ◌&&◌, ◌||◌, Option, none, some, List, [], ◌∷◌, ◌++◌, Map,
  lookup, insert, get_or, if◌then◌else◌, Result, ok, err, ◌>>=◌, ◌>>◌, refuse_if,
}
use treckrr.Decimal.{Decimal}
use treckrr.Calendar.{Date, is_zero_date}
use treckrr.Account.Data.{Key, same_account, Kind, Status, issued, canceled}
use treckrr.Account.Balance.{is_invoice}
use treckrr.Allocation.Data.{Invoice, Payment, Input, whole_cents}
use treckrr.Allocation.Data as Allocation
use treckrr.Settlement.Summary.{Summary, summarize}

pub data Error : Type 0 where
  no_frozen_gross credit_amount_or_date credit_target payment_target reversal_account : ℤ → Error
  plan_refused : Key → Allocation.Error → Error

-- `allocationDocument`; a gross that is NULL is none. The query selects issued invoices and credit notes.
pub record Document (D : Type 0) : Type 0 where
  pub id : ℤ
  pub account : Key
  pub is_invoice : Bool
  pub issued_on : Date
  pub gross : Option D
  pub reference_id : ℤ

-- The document with its gross read.
pub record Target (D : Type 0) : Type 0 where
  pub id : ℤ
  pub account : Key
  pub issued_on : Date
  pub gross : D
  pub reference_id : ℤ

-- A row of the payments joined with the invoice they prefer, none for no such row.
pub record PreferredInvoice : Type 0 where
  pub account : Key
  pub kind : Kind
  pub status : Status

pub record PaymentEntry (D : Type 0) : Type 0 where
  pub payment : Payment D
  pub account : Key
  pub preferred : Option PreferredInvoice

-- map[accountKey]*invoiceAllocationInput
abbrev pub Inputs : Type 0 → Type 0
Inputs D = List (Key × Input D)

abbrev pub is_canceled : Status → Bool
is_canceled canceled = true
is_canceled issued = false

abbrev pub no_account : Key
no_account = record { year_id = pos 0; neighbor_id = pos 0 }

module _ {D : Type 0} ⦃d : Decimal D⦄ where
  open d use {zero, add, is_positive}

  abbrev pub no_input : Input D
  no_input = record { invoices = []; payments = []; ledger = zero; standalone_credits = zero }

  -- `allocationInputFor(inputs, key)` with a change of what it points to
  unfoldable pub change_input : Key → (Input D → Input D) → Inputs D → Inputs D
  change_input k change [] = (k, change no_input) ∷ []
  change_input k change ((j, input) ∷ rest) =
      let later = change_input k change rest in
      if same_account j k then (j, change input) ∷ rest else (j, input) ∷ later

  abbrev pub with_invoice : Invoice D → Input D → Input D
  with_invoice i input = record input { invoices = input.invoices ++ (i ∷ []) }

  abbrev pub with_credit : D → Input D → Input D
  with_credit c input = record input { standalone_credits = add input.standalone_credits c }

  abbrev pub with_payment : Payment D → Input D → Input D
  with_payment p input = record input { payments = input.payments ++ (p ∷ []) }

  abbrev pub with_ledger : D → Input D → Input D
  with_ledger amount input = record input { ledger = amount }

  abbrev pub target_of : Document D → D → Target D
  target_of row gross = record {
    id = row.id;
    account = row.account;
    issued_on = row.issued_on;
    gross = gross;
    reference_id = row.reference_id;
  }

  -- The loop over the rows: the inputs, `targets` and `credits`.
  unfoldable pub read_documents :
      List (Document D)
      → Inputs D
      → Map (Target D)
      → List (Target D)
      → Result Error (Inputs D × Map (Target D) × List (Target D))
  unfolding change_input
  read_documents [] inputs targets credits = ok (inputs, targets, credits)
  read_documents (row ∷ rows) inputs targets credits = elim row.gross [
    | none ↦ err (no_frozen_gross row.id)
    | some gross ↦
        read_documents rows (change_input row.account (λ input. input) inputs)
          (if row.is_invoice then insert row.id (target_of row gross) targets else targets)
          (if row.is_invoice then credits else credits ++ (target_of row gross ∷ []))
  ]

  abbrev pub is_bad_credit : Target D → Bool
  is_bad_credit c = is_zero_date c.issued_on || is_positive c.gross || not (whole_cents c.gross)

  abbrev pub is_own_target : Target D → Option (Target D) → Bool
  is_own_target c none = false
  is_own_target c (some t) = same_account t.account c.account

  -- The loop over the credits: standalone ones to the account, the others to `attached`.
  unfoldable pub read_credits :
      List (Target D) → Map (Target D) → Inputs D → Map D → Result Error (Inputs D × Map D)
  unfolding change_input
  read_credits [] targets inputs attached = ok (inputs, attached)
  read_credits (c ∷ cs) targets inputs attached = do
    refuse_if (is_bad_credit c) (credit_amount_or_date c.id)
    let standalone = c.reference_id ==ℤ pos 0
    refuse_if (not standalone && not (is_own_target c (lookup c.reference_id targets)))
        (credit_target c.id)
    read_credits cs targets
        (if standalone then change_input c.account (with_credit c.gross) inputs else inputs)
        (if standalone
          then attached
          else insert c.reference_id (add (get_or c.reference_id zero attached) c.gross) attached)

  -- The loop over `targets`; Go leaves its order open, and the planner sorts.
  unfoldable pub add_invoices : Map (Target D) → Map D → Inputs D → Inputs D
  unfolding change_input
  add_invoices [] attached inputs = inputs
  add_invoices ((id, t) ∷ targets) attached inputs = add_invoices targets attached (
      change_input t.account
        (with_invoice (record {
          id = t.id;
          issued_on = t.issued_on;
          gross = t.gross;
          attached_credit = get_or t.id zero attached;
        }))
        inputs)

  unfoldable pub allocation_invoice_inputs : List (Document D) → Result Error (Inputs D)
  unfolding read_documents read_credits add_invoices
  allocation_invoice_inputs rows = do
    (inputs, targets, credits) ← read_documents rows [] [] []
    (credited, attached) ← read_credits credits targets inputs []
    ok (add_invoices targets attached credited)

  -- The preferred invoice of the payment's own account; `Status` has the two statuses accepted here.
  abbrev pub is_good_preference : PaymentEntry D → Bool
  is_good_preference e = elim e.preferred [
    | none ↦ false
    | some i ↦ same_account i.account e.account && is_invoice i.kind
  ]

  abbrev pub prefers : PaymentEntry D → Bool
  prefers e = not (e.payment.preferred_invoice_id ==ℤ pos 0)

  abbrev pub lost_preference : PaymentEntry D → Bool
  lost_preference e = elim e.preferred [ none ↦ false | some i ↦ is_canceled i.status ]

  -- A canceled invoice releases the payment.
  abbrev pub released : PaymentEntry D → PaymentEntry D
  released e =
      if prefers e && lost_preference e
      then record e { payment = record (e.payment) { preferred_invoice_id = pos 0 } }
      else e

  unfoldable pub read_payments :
      List (PaymentEntry D)
      → Map Key
      → List (PaymentEntry D)
      → Result Error (Map Key × List (PaymentEntry D))
  read_payments [] owners payments = ok (owners, payments)
  read_payments (e ∷ es) owners payments = do
    refuse_if (prefers e && not (is_good_preference e)) (payment_target e.payment.id)
    read_payments es (insert e.payment.id e.account owners) (payments ++ (released e ∷ []))

  unfoldable pub add_payments : List (PaymentEntry D) → Map Key → Inputs D → Result Error (Inputs D)
  unfolding change_input
  add_payments [] owners inputs = ok inputs
  add_payments (e ∷ es) owners inputs = do
    refuse_if
        (not (e.payment.reversal_of_id ==ℤ pos 0)
          && not (same_account (get_or e.payment.reversal_of_id no_account owners) e.account))
        (reversal_account e.payment.id)
    add_payments es owners (change_input e.account (with_payment e.payment) inputs)

  unfoldable pub allocation_payment_inputs :
      List (PaymentEntry D) → Inputs D → Result Error (Inputs D)
  unfolding read_payments add_payments
  allocation_payment_inputs rows inputs = do
    (owners, payments) ← read_payments rows [] []
    add_payments payments owners inputs

  -- One sum for each account, as the query groups them.
  unfoldable pub allocation_ledger_inputs : List (Key × D) → Inputs D → Inputs D
  unfolding change_input
  allocation_ledger_inputs [] inputs = inputs
  allocation_ledger_inputs ((k, amount) ∷ sums) inputs =
      allocation_ledger_inputs sums (change_input k (with_ledger amount) inputs)

  unfoldable pub summarize_account : Key → Input D → Result Error (Summary D)
  unfolding summarize
  summarize_account k input = elim (summarize input) [
    | err e ↦ err (plan_refused k e)
    | ok s ↦ ok s
  ]

  unfoldable pub summarize_all : Inputs D → Result Error (List (Key × Summary D))
  unfolding summarize_account
  summarize_all [] = ok []
  summarize_all ((k, input) ∷ rest) = do
    summary ← summarize_account k input
    others ← summarize_all rest
    ok ((k, summary) ∷ others)

  unfoldable pub invoice_allocations :
      List (Document D)
      → List (PaymentEntry D)
      → List (Key × D)
      → Result Error (List (Key × Summary D))
  unfolding allocation_invoice_inputs allocation_payment_inputs allocation_ledger_inputs
      summarize_all
  invoice_allocations documents payments sums = do
    inputs ← allocation_invoice_inputs documents
    paid ← allocation_payment_inputs payments inputs
    summarize_all (allocation_ledger_inputs sums paid)
