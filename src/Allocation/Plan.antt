-- ===== src/Allocation/Plan.antt =====
-- `planInvoiceAllocation`: account offsets first, then payments, both oldest document first.
use treckrr.Prelude.{
  ℤ, pos, Bool, not, ◌||◌, List, [], ◌∷◌, ◌++◌, Map, contains, get_or, insert, leb_ℤ, ◌==ℤ◌,
  if◌then◌else◌, Result, ok, ◌>>=◌, ◌>>◌, refuse_if,
}
use treckrr.Decimal.{Decimal}
use treckrr.Calendar.{is_zero_date}
use treckrr.Allocation.Data.{
  Invoice, Payment, Input, Planned, Plan, Error, ledger_or_credit, bad_invoice, whole_cents,
}
use treckrr.Allocation.Order.{sort_by, invoice_order}
use treckrr.Allocation.Reversal.{allocation_net_payments}

-- What the loops over a payment carry: `plan.Payments`, `plan.Remaining` and `available`.
pub record Purse (D : Type 0) : Type 0 where
  pub planned : List (Planned D)
  pub remaining : Map D
  pub available : D

module _ {D : Type 0} ⦃d : Decimal D⦄ where
  open d use {zero, add, sub, neg, largest, smallest, is_zero, is_positive, greater_than}

  -- `m[id]` of a map of decimals
  unfoldable pub at : ℤ → Map D → D
  at id m = get_or id zero m

  abbrev pub claim : Invoice D → D
  claim invoice = add invoice.gross invoice.attached_credit

  unfoldable pub is_bad_invoice : Invoice D → Map D → Bool
  unfolding is_zero_date
  is_bad_invoice invoice remaining =
      leb_ℤ invoice.id (pos 0)
      || is_zero_date invoice.issued_on
      || contains invoice.id remaining
      || not (whole_cents invoice.gross)
      || not (whole_cents invoice.attached_credit)
      || is_positive invoice.attached_credit
      || greater_than (neg invoice.attached_credit) (largest invoice.gross zero)

  -- The first loop over the invoices: the open claim of each, and the offset that grows by negative
  -- claims.
  unfoldable pub open_claims : List (Invoice D) → Map D → D → Result Error (Map D × D)
  unfolding is_bad_invoice
  open_claims [] remaining offset = ok (remaining, offset)
  open_claims (invoice ∷ invoices) remaining offset = do
    refuse_if (is_bad_invoice invoice remaining) (bad_invoice invoice.id)
    open_claims invoices (insert invoice.id (largest (claim invoice) zero) remaining)
        (add offset (largest (neg (claim invoice)) zero))

  -- The second loop: what is applied to each invoice, what remains on it, and the unused offset.
  unfoldable pub apply_offsets : List (Invoice D) → Map D → Map D → D → Map D × Map D × D
  apply_offsets [] applied remaining offset = (applied, remaining, offset)
  apply_offsets (invoice ∷ invoices) applied remaining offset =
      let amount = smallest offset (at invoice.id remaining) in
      apply_offsets invoices (insert invoice.id amount applied)
        (insert invoice.id (sub (at invoice.id remaining) amount) remaining) (sub offset amount)

  -- The closure `apply` of one payment.
  unfoldable pub pay_invoice : ℤ → ℤ → Purse D → Purse D
  pay_invoice payment_id invoice_id s =
      let amount = smallest s.available (at invoice_id s.remaining) in
      if not (is_positive amount) then s else record {
        planned =
            s.planned
            ++ (record { payment_id = payment_id; invoice_id = invoice_id; amount = amount } ∷ []);
        remaining = insert invoice_id (sub (at invoice_id s.remaining) amount) s.remaining;
        available = sub s.available amount;
      }

  -- Oldest invoice first, until nothing is available.
  unfoldable pub pay_fifo : ℤ → List (Invoice D) → Purse D → Purse D
  pay_fifo payment_id [] s = s
  pay_fifo payment_id (invoice ∷ invoices) s =
      let rest = pay_fifo payment_id invoices (pay_invoice payment_id invoice.id s) in
      if is_zero s.available then s else rest

  -- One payment: its preferred invoice, then the rest in order.
  unfoldable pub pay : Payment D → List (Invoice D) → List (Planned D) → Map D → Purse D
  pay p invoices planned remaining =
      let start : Purse D = record {
        planned = planned;
        remaining = remaining;
        available = p.amount;
      } in
      pay_fifo p.id invoices (
        if p.preferred_invoice_id ==ℤ pos 0
        then start
        else pay_invoice p.id p.preferred_invoice_id start)

  -- The loop over the payments; `available` is `plan.UnallocatedCash`.
  unfoldable pub pay_all : List (Payment D) → List (Invoice D) → Purse D → Purse D
  pay_all [] invoices s = s
  pay_all (p ∷ ps) invoices s =
      let paid = pay p invoices s.planned s.remaining in
      pay_all ps invoices (record paid { available = add s.available paid.available })

  -- The plan from checked invoices, their claims and the net payments.
  unfoldable pub distribute : D → List (Invoice D) → List (Payment D) → Map D → D → Plan D
  distribute ledger invoices payments claims offset =
      let (applied, remaining, unused) = apply_offsets invoices [] claims offset in
      let purse =
        pay_all payments invoices
          (record { planned = []; remaining = remaining; available = zero }) in
      record {
        remaining = purse.remaining;
        offset_applied = applied;
        payments = purse.planned;
        unallocated_cash = purse.available;
        unused_offset = unused;
        account_residual = sub (sub (largest ledger zero) unused) purse.available;
      }

  unfoldable pub first_offset : Input D → D
  first_offset input = sub (largest (neg input.ledger) zero) input.standalone_credits

  unfoldable pub plan_invoice_allocation : Input D → Result Error (Plan D)
  plan_invoice_allocation input = do
    refuse_if
        (not (whole_cents input.ledger)
          || not (whole_cents input.standalone_credits)
          || is_positive input.standalone_credits)
        ledger_or_credit
    let invoices = sort_by invoice_order input.invoices
    (claims, offset) ← open_claims invoices [] (first_offset input)
    payments ← allocation_net_payments input.payments claims
    ok (distribute input.ledger invoices payments claims offset)
