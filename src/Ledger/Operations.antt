-- ===== src/Ledger/Operations.antt =====
-- Adding, editing, voiding and deleting a posting, and voiding or deleting a carry-forward pair. Each
-- is one transaction: an error rolls it back.
use treckrr.Prelude.{
  ℤ, ◌==◌, Bool, true, false, not, ◌&&◌, ◌||◌, Option, none, some, List, [], ◌∷◌, ◌++◌, map, length,
  if◌then◌else◌, Result, ok, err, ◌>>=◌, ◌>>◌, refuse_if,
}
use treckrr.Decimal.{Decimal}
use treckrr.Calendar.{Date}
use treckrr.Text.{Text, is_empty}
use treckrr.Account.Data.{
  Key, LedgerRow, Books, Audit, ledger_add, ledger_update, ledger_delete, ledger_void,
  transfer_delete, transfer_void, Error, not_found, ledger_transfer, empty_transfer_id,
}
use treckrr.Account.Locks.{lock_account_boundary, lock_accounts}
use treckrr.Account.Operations.{posting, insert_posting, add_audit}
use treckrr.Ledger.Rows.{
  find_posting, change_posting, drop_posting, in_transfer, keep_rows, count_rows, with_voided,
  with_content, transfer_accounts,
}

-- `models.RoundMoney`
abbrev pub round_money : {D : Type 0} ⦃d : Decimal D⦄ → D → D
round_money ⦃d⦄ x = d.round_cents x

unfoldable pub lock_open_account : {D : Type 0} → Books D → Key → Result Error (Unit {0})
lock_open_account b k = do
  present ← lock_account_boundary b k true false
  refuse_if (not present) not_found

abbrev pub lock_open_accounts : {D : Type 0} → Books D → List Key → Result Error (Unit {0})
lock_open_accounts b keys = lock_accounts b keys true false

abbrev pub found_posting : {D : Type 0} → Option (LedgerRow D) → Result Error (LedgerRow D)
found_posting none = err not_found
found_posting (some r) = ok r

abbrev pub write_ledger : {D : Type 0} → List (LedgerRow D) → Audit D → Books D → Books D
write_ledger rows line b = record b { ledger = rows; audit = b.audit ++ (line ∷ []) }

-- What every change of one posting checks first; the row is read under the lock of its account.
unfoldable pub editable_posting : {D : Type 0} → ℤ → Books D → Result Error (LedgerRow D)
unfolding find_posting
editable_posting id b = do
  before ← found_posting (find_posting id b.ledger)
  lock_open_account b before.account
  refuse_if (not (is_empty before.transfer_id)) ledger_transfer
  ok before

-- What every change of a pair checks first.
unfoldable pub editable_transfer : {D : Type 0} → Text → Books D → Result Error (Unit {0})
unfolding transfer_accounts
editable_transfer transfer b = do
  refuse_if (is_empty transfer) empty_transfer_id
  let accounts = transfer_accounts transfer b.ledger
  refuse_if (length accounts == 0) not_found
  lock_open_accounts b accounts

module _ {D : Type 0} ⦃d : Decimal D⦄ where
  unfoldable pub add_neighbor_ledger : Key → D → Text → Date → Books D → Result Error (ℤ × Books D)
  add_neighbor_ledger k entered description when b = do
    let amount = round_money entered
    lock_open_account b k
    ok (
      b.next_id,
      add_audit (ledger_add b.next_id amount when)
          (insert_posting (posting b.next_id k amount description when []) b),
    )

  -- A posting with a booking matches no row of the UPDATE.
  unfoldable pub update_neighbor_ledger : ℤ → D → Text → Date → Books D → Result Error (Books D)
  unfolding editable_posting change_posting
  update_neighbor_ledger id entered description when b = do
    let amount = round_money entered
    before ← editable_posting id b
    refuse_if before.has_booking not_found
    ok (
        write_ledger (change_posting id (with_content amount description when) b.ledger)
          (ledger_update id before.amount before.posting_date amount when before.voided) b)

  unfoldable pub set_ledger_voided : ℤ → Bool → Text → Books D → Result Error (Books D)
  unfolding editable_posting change_posting
  set_ledger_voided id voided reason b = do
    before ← editable_posting id b
    ok (
        if (before.voided && voided) || (not before.voided && not voided)
        then b
        else write_ledger (change_posting id (with_voided voided reason) b.ledger)
            (ledger_void id before.amount before.posting_date voided) b)

  unfoldable pub delete_neighbor_ledger : ℤ → Books D → Result Error (Books D)
  unfolding editable_posting drop_posting
  delete_neighbor_ledger id b = do
    before ← editable_posting id b
    ok (
        write_ledger (drop_posting id b.ledger)
          (ledger_delete id before.amount before.posting_date before.voided) b)

  unfoldable pub delete_ledger_transfer : Text → Books D → Result Error (Books D)
  unfolding editable_transfer keep_rows count_rows
  delete_ledger_transfer transfer b = do
    editable_transfer transfer b
    let n = count_rows (in_transfer transfer) b.ledger
    refuse_if (n == 0) not_found
    ok (
        write_ledger (keep_rows (λ r. not (in_transfer transfer r)) b.ledger)
          (transfer_delete transfer n) b)

  unfoldable pub set_ledger_voided_transfer : Text → Bool → Text → Books D → Result Error (Books D)
  unfolding editable_transfer count_rows
  set_ledger_voided_transfer transfer voided reason b = do
    editable_transfer transfer b
    let n = count_rows (in_transfer transfer) b.ledger
    refuse_if (n == 0) not_found
    ok (
        write_ledger
          (map (λ r. if in_transfer transfer r then with_voided voided reason r else r) b.ledger)
          (transfer_void transfer n voided) b)
