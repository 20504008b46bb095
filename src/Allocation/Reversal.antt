-- ===== src/Allocation/Reversal.antt =====
-- `allocationNetPayments`: a reversal and the payment that it reverses drop out as a pair.
use treckrr.Prelude.{
  pos, Bool, true, not, ◌&&◌, ◌||◌, Option, none, some, List, [], ◌∷◌, Map, lookup, contains,
  insert, ltb_ℤ, leb_ℤ, ◌==ℤ◌, if◌then◌else◌, Result, ok, err, ◌>>=◌, ◌>>◌, refuse_if,
}
use treckrr.Decimal.{Decimal}
use treckrr.Calendar.{is_zero_date}
use treckrr.Allocation.Data.{Payment, Error, bad_payment, bad_target, bad_reversal, whole_cents}
use treckrr.Allocation.Order.{sort_by, payment_order}

module _ {D : Type 0} ⦃d : Decimal D⦄ where
  open d use {equal, neg, is_zero, is_negative}

  unfoldable pub is_bad_payment : Payment D → Map (Payment D) → Bool
  unfolding is_zero_date
  is_bad_payment p by_id =
      leb_ℤ p.id (pos 0)
      || is_zero_date p.paid_on
      || contains p.id by_id
      || not (whole_cents p.amount)
      || is_zero p.amount
      || ltb_ℤ p.reversal_of_id (pos 0)
      || ltb_ℤ p.preferred_invoice_id (pos 0)
      || (p.reversal_of_id ==ℤ pos 0) && is_negative p.amount
      || not (p.reversal_of_id ==ℤ pos 0) && not (is_negative p.amount)

  -- The first loop: every payment is checked and filed under its identifier.
  unfoldable pub file_payments :
      List (Payment D) → Map D → Map (Payment D) → Result Error (Map (Payment D))
  unfolding is_bad_payment
  file_payments [] invoices by_id = ok by_id
  file_payments (p ∷ ps) invoices by_id = do
    refuse_if (is_bad_payment p by_id) (bad_payment p.id)
    refuse_if
        (not (p.preferred_invoice_id ==ℤ pos 0) && not (contains p.preferred_invoice_id invoices))
        (bad_target p.id)
    file_payments ps invoices (insert p.id p by_id)

  -- `byID[payment.ReversalOfID]` is there, is no reversal and is not reversed yet, and the amounts
  -- cancel.
  unfoldable pub reverse_one : Payment D → Option (Payment D) → Map Bool → Result Error (Map Bool)
  reverse_one p none reversed = err (bad_reversal p.id)
  reverse_one p (some original) reversed = do
    refuse_if
        (not (original.reversal_of_id ==ℤ pos 0)
          || contains original.id reversed
          || not (equal original.amount (neg p.amount)))
        (bad_reversal p.id)
    ok (insert original.id true reversed)

  -- The second loop: which payments are reversed.
  unfoldable pub mark_reversed :
      List (Payment D) → Map (Payment D) → Map Bool → Result Error (Map Bool)
  unfolding reverse_one
  mark_reversed [] by_id reversed = ok reversed
  mark_reversed (p ∷ ps) by_id reversed =
      let rest = reverse_one p (lookup p.reversal_of_id by_id) reversed >>= λ reversed'.
      mark_reversed ps by_id reversed' in
      let skip = mark_reversed ps by_id reversed in
      if p.reversal_of_id ==ℤ pos 0 then skip else rest

  -- The third loop: what is neither a reversal nor reversed.
  unfoldable pub keep_net : List (Payment D) → Map Bool → List (Payment D)
  keep_net [] reversed = []
  keep_net (p ∷ ps) reversed =
      let rest = keep_net ps reversed in
      if (p.reversal_of_id ==ℤ pos 0) && not (contains p.id reversed) then p ∷ rest else rest

  unfoldable pub allocation_net_payments :
      List (Payment D) → Map D → Result Error (List (Payment D))
  allocation_net_payments payments invoices = do
    by_id ← file_payments payments invoices []
    reversed ← mark_reversed payments by_id []
    ok (sort_by payment_order (keep_net payments reversed))
