-- ===== src/Account/Balance.antt =====
-- `remainingSQL`: issued invoices, unclaimed bookings, credit notes and ledger postings, less
-- payments, rounded to whole cents.
use treckrr.Prelude.{
  ℤ, Option, none, some, Bool, true, false, not, ◌&&◌, List, [], ◌∷◌, if◌then◌else◌,
}
use treckrr.Decimal.{Decimal}
use treckrr.Account.Data.{
  Key, same_account, Kind, invoice, storno, credit_note, anzahlung, Status, issued, canceled,
  DocumentRow, EntryRow, LedgerRow, PaymentRow, Books,
}

abbrev pub is_invoice : Kind → Bool
is_invoice invoice = true
is_invoice storno = false
is_invoice credit_note = false
is_invoice anzahlung = false

abbrev pub is_credit_note : Kind → Bool
is_credit_note invoice = false
is_credit_note storno = false
is_credit_note credit_note = true
is_credit_note anzahlung = false

abbrev pub is_issued : Status → Bool
is_issued issued = true
is_issued canceled = false

abbrev pub counts_invoice : {D : Type 0} → Key → DocumentRow D → Bool
counts_invoice k r = same_account r.account k && is_invoice r.kind && is_issued r.status

abbrev pub counts_credit : {D : Type 0} → Key → DocumentRow D → Bool
counts_credit k r = same_account r.account k && is_credit_note r.kind && is_issued r.status

abbrev pub is_claimed : Option ℤ → Bool
is_claimed none = false
is_claimed (some id) = true

abbrev pub counts_entry : {D : Type 0} → Key → EntryRow D → Bool
counts_entry k r = same_account r.account k && not r.voided && not (is_claimed r.claimed_by)

abbrev pub counts_ledger : {D : Type 0} → Key → LedgerRow D → Bool
counts_ledger k r = same_account r.account k && not r.voided

abbrev pub counts_payment : {D : Type 0} → Key → PaymentRow D → Bool
counts_payment k r = same_account r.account k && not r.deleted

module _ {D : Type 0} ⦃d : Decimal D⦄ where
  open d use {zero, add, sub, round_cents}

  -- The column `gross`, NULL without a content.
  abbrev pub document_gross : DocumentRow D → D
  document_gross r = elim r.content [ none ↦ zero | some c ↦ c.gross ]

  -- `COALESCE(SUM(amount), 0)` over the rows that a WHERE clause keeps.
  unfoldable pub sum_where {ℓ} : {A : Type ℓ} → (A → Bool) → (A → D) → List A → D
  sum_where keep amount [] = zero
  sum_where keep amount (x ∷ xs) =
      let rest = sum_where keep amount xs in if keep x then add (amount x) rest else rest

  -- The balance before it is rounded.
  unfoldable pub balance : Books D → Key → D
  unfolding sum_where
  balance b k =
      sub
        (add
          (add
            (add (sum_where (counts_invoice k) document_gross b.documents)
              (sum_where (counts_entry k) (λ r. r.cost) b.entries))
            (sum_where (counts_credit k) document_gross b.documents))
          (sum_where (counts_ledger k) (λ r. r.amount) b.ledger))
        (sum_where (counts_payment k) (λ r. r.amount) b.payments)

  -- `remainingLocked`
  unfoldable pub remaining : Books D → Key → D
  unfolding balance
  remaining b k = round_cents (balance b k)
