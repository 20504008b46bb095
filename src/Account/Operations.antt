-- ===== src/Account/Operations.antt =====
-- `SettleRemainingWithMethod`, `CarryForwardConfirmed` and `PayoutCredit`, each one transaction: an
-- error rolls it back, and the amount is computed from the balance under the locks.
use treckrr.Prelude.{
  ℤ, pos, ◌+ℤ◌, Bool, true, false, not, ◌||◌, Option, none, some, List, [], ◌∷◌, ◌++◌,
  if◌then◌else◌, Result, ok, ◌>>=◌, ◌>>◌, refuse_if,
}
use treckrr.Decimal.{Decimal}
use treckrr.Calendar.{Date}
use treckrr.Text.{Text}
use treckrr.Account.Data.{
  Key, YearRow, DocumentRow, LedgerRow, PaymentRow, Books, Audit, payment_settle, carry_forward,
  credit_payout, Error, carry_target_completed, carry_preview_changed,
}
use treckrr.Account.Balance.{counts_invoice, remaining}
use treckrr.Account.Locks.{find_year, lock_account_boundary, lock_accounts}

-- `CASE WHEN COUNT(*)=1 THEN MIN(id) END` over the account's issued invoices.
unfoldable pub only_invoice : {D : Type 0} → Key → List (DocumentRow D) → Option ℤ → Bool → Option ℤ
only_invoice k [] found several = if several then none else found
only_invoice k (r ∷ rs) found several =
    let keep = only_invoice k rs found several in
    let first = only_invoice k rs (some r.id) several in
    let more = only_invoice k rs found true in
    if counts_invoice k r then elim found [ none ↦ first | some id ↦ more ] else keep

abbrev pub insert_payment : {D : Type 0} → PaymentRow D → Audit D → Books D → Books D
insert_payment r line b = record b {
  payments = b.payments ++ (r ∷ []);
  audit = b.audit ++ (line ∷ []);
  next_id = b.next_id +ℤ pos 1;
}

abbrev pub insert_posting : {D : Type 0} → LedgerRow D → Books D → Books D
insert_posting r b = record b { ledger = b.ledger ++ (r ∷ []); next_id = b.next_id +ℤ pos 1 }

abbrev pub add_audit : {D : Type 0} → Audit D → Books D → Books D
add_audit line b = record b { audit = b.audit ++ (line ∷ []) }

-- `CarryPreview`
pub record CarryPreview (D : Type 0) : Type 0 where
  pub source : D
  pub target : D

-- `targetStatus`; the year is there, since its row is locked.
abbrev pub is_completed : Option YearRow → Bool
is_completed none = false
is_completed (some y) = y.completed

module _ {D : Type 0} ⦃d : Decimal D⦄ where
  open d use {zero, neg, is_zero, is_positive, is_negative, equal}

  -- The payment of a settlement; its invoice is the account's only one, if there is just one.
  abbrev pub settlement_row : Key → Date → Text → Text → Books D → PaymentRow D
  settlement_row k when note method b = record {
    id = b.next_id;
    account = k;
    amount = remaining b k;
    paid_on = when;
    note = note;
    method = method;
    deleted = false;
    invoice_id = only_invoice k b.documents none false;
    form_key = [];
    preferred_invoice_id = none;
    imported = false;
    reversal = false;
  }

  -- The amount that was booked, and the tables afterwards.
  unfoldable pub settle_remaining : Key → Date → Text → Text → Books D → Result Error (D × Books D)
  settle_remaining k when note method b = do
    present ← lock_account_boundary b k false true
    let amount = remaining b k
    ok (
        if not present || not (is_positive amount) then (zero, b) else (
          amount,
          insert_payment (settlement_row k when note method b)
              (payment_settle b.next_id amount when method) b,
        ))

  abbrev pub posting : ℤ → Key → D → Text → Date → Text → LedgerRow D
  posting id k amount description when transfer = record {
    id = id;
    account = k;
    amount = amount;
    description = description;
    posting_date = when;
    voided = false;
    transfer_id = transfer;
    void_reason = [];
    has_booking = false;
  }

  unfoldable pub payout_credit : Key → Date → Text → Books D → Result Error (D × Books D)
  payout_credit k when description b = do
    present ← lock_account_boundary b k false true
    let due = remaining b k
    let amount = neg due
    ok (
        if not present || not (is_negative due) then (zero, b) else (
          amount,
          add_audit (credit_payout b.next_id amount k.year_id)
              (insert_posting (posting b.next_id k amount description when []) b),
        ))

  abbrev pub is_stale : Option (CarryPreview D) → D → D → Bool
  is_stale none source target = false
  is_stale (some p) source target = not (equal source p.source) || not (equal target p.target)

  unfoldable pub carry_forward_confirmed :
      Text
      → ℤ
      → ℤ
      → ℤ
      → Date
      → Text
      → Text
      → Option (CarryPreview D)
      → Books D
      → Result Error (D × Books D)
  carry_forward_confirmed tid neighbor_id from_year to_year when from_text to_text expected b = do
    let source : Key = record { year_id = from_year; neighbor_id = neighbor_id }
    let target : Key = record { year_id = to_year; neighbor_id = neighbor_id }
    lock_accounts b (source ∷ target ∷ []) false true
    refuse_if (is_completed (find_year to_year b.years)) carry_target_completed
    let amount = remaining b source
    refuse_if (is_stale expected amount (remaining b target)) carry_preview_changed
    let out = insert_posting (posting b.next_id source (neg amount) from_text when tid) b
    let moved = insert_posting (posting out.next_id target amount to_text when tid) out
    ok (
        if is_zero amount
        then (zero, b)
        else (amount, add_audit (carry_forward tid amount from_year to_year) moved))
