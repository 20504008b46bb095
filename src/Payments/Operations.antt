-- ===== src/Payments/Operations.antt =====
-- `UpdatePayment` and `setPaymentDeleted`, each one transaction on the tables of Account. An `id` is
-- the primary key. The Boolean says whether a row was changed.
use treckrr.Prelude.{
  ℤ, ◌==ℤ◌, Bool, true, false, not, ◌&&◌, ◌||◌, Option, none, some, List, [], ◌∷◌, ◌++◌,
  if◌then◌else◌, Result, ok, err, ◌>>=◌, ◌>>◌, refuse_if,
}
use treckrr.Decimal.{Decimal}
use treckrr.Calendar.{Date}
use treckrr.Text.{Text}
use treckrr.Account.Data.{
  PaymentRow, Books, Audit, payment_update, payment_delete, payment_restore, Error, not_found,
  payment_amount, imported_payment_immutable,
}
use treckrr.Account.Locks.{lock_account_boundary}
use treckrr.Ledger.Operations.{round_money}

module _ {D : Type 0} where
  -- `paymentAccount`, `paymentForUpdate`
  unfoldable pub find_payment : ℤ → List (PaymentRow D) → Option (PaymentRow D)
  find_payment id [] = none
  find_payment id (p ∷ ps) = let later = find_payment id ps in if p.id ==ℤ id then some p else later

  unfoldable pub change_payment :
      ℤ → (PaymentRow D → PaymentRow D) → List (PaymentRow D) → List (PaymentRow D)
  change_payment id change [] = []
  change_payment id change (p ∷ ps) =
      let later = change_payment id change ps in if p.id ==ℤ id then change p ∷ ps else p ∷ later

  abbrev pub found_payment : Option (PaymentRow D) → Result Error (PaymentRow D)
  found_payment none = err not_found
  found_payment (some p) = ok p

  abbrev pub write_payments : List (PaymentRow D) → Audit D → Books D → Books D
  write_payments rows line b = record b { payments = rows; audit = b.audit ++ (line ∷ []) }

  -- The checks before a payment is changed; the row is read under the lock of its account.
  unfoldable pub changeable_payment : ℤ → Books D → Result Error (PaymentRow D)
  unfolding find_payment
  changeable_payment id b = do
    before ← found_payment (find_payment id b.payments)
    present ← lock_account_boundary b before.account false false
    refuse_if (not present) not_found
    refuse_if (before.imported || before.reversal) imported_payment_immutable
    ok before

  abbrev pub with_deleted : Bool → PaymentRow D → PaymentRow D
  with_deleted deleted p = record p { deleted = deleted }

  abbrev pub deletion_line : Bool → PaymentRow D → Audit D
  deletion_line true p = payment_delete p.id p.amount p.paid_on p.method
  deletion_line false p = payment_restore p.id p.amount p.paid_on p.method

  abbrev pub wants_change : Bool → PaymentRow D → Bool
  wants_change deleted p = (deleted && not p.deleted) || (not deleted && p.deleted)

  unfoldable pub set_payment_deleted : ℤ → Bool → Books D → Result Error (Bool × Books D)
  unfolding changeable_payment change_payment
  set_payment_deleted id deleted b = do
    payment ← changeable_payment id b
    ok (
        if wants_change deleted payment
        then (
          true,
          write_payments (change_payment id (with_deleted deleted) b.payments)
              (deletion_line deleted payment) b,
        )
        else (false, b))

  -- `DeletePayment`, `RestorePayment`
  abbrev pub delete_payment : ℤ → Books D → Result Error (Bool × Books D)
  delete_payment id b = set_payment_deleted id true b

  abbrev pub restore_payment : ℤ → Books D → Result Error (Bool × Books D)
  restore_payment id b = set_payment_deleted id false b

module _ {D : Type 0} ⦃d : Decimal D⦄ where
  abbrev pub with_values : D → Date → Text → Text → PaymentRow D → PaymentRow D
  with_values amount when note method p = record p {
    amount = amount;
    paid_on = when;
    note = note;
    method = method;
  }

  unfoldable pub update_payment :
      ℤ → D → Date → Text → Text → Books D → Result Error (Bool × Books D)
  unfolding changeable_payment change_payment
  update_payment id entered when note method b = do
    let amount = round_money entered
    refuse_if (not (d.is_positive amount)) payment_amount
    before ← changeable_payment id b
    ok (
        if before.deleted then (false, b) else (
          true,
          write_payments (change_payment id (with_values amount when note method) b.payments)
              (payment_update id before.amount before.paid_on before.method amount when method) b,
        ))
