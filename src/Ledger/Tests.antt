-- ===== src/Ledger/Tests.antt =====
-- A carry-forward of 50 euros into an open year and its deletion.
use treckrr.Prelude.{ℤ, pos, negsuc, ◌+ℤ◌, ◌-ℤ◌, ◌≡◌, refl, [], ◌∷◌, false, none, ok}
use treckrr.Decimal.{tenth_cents}
use treckrr.Calendar.{Date}
use treckrr.Text.{Text, same_text}
use treckrr.Account.Data.{Books, carry_forward, transfer_delete}
use treckrr.Account.Samples.{sample_invoice}
use treckrr.Account.Balance.{sum_where, balance, remaining}
use treckrr.Account.Locks.{is_member, lock_accounts, sorted_unique_accounts}
use treckrr.Account.Operations.{insert_posting, add_audit, posting, carry_forward_confirmed}
use treckrr.Account.Carry.{in_year}
use treckrr.Ledger.Rows.{in_transfer, keep_rows, count_rows, transfer_accounts}
use treckrr.Ledger.Operations.{delete_ledger_transfer, editable_transfer, write_ledger}
use treckrr.Ledger.Pairs.{IsPaired}
use treckrr.Ledger.Steps.{carries, deletes_transfer, here, there}
use treckrr.Ledger.Invariant.{Reaches-IsPaired}
use treckrr.Ledger.Undo.{delete_ledger_transfer-carry_forward_confirmed}

abbrev today : Date
today = record { year = 2026; month = 5; day = 4 }

abbrev token : Text
token = 97 ∷ []

abbrev books : Books ℤ
books = record {
  years = record { id = pos 1; completed = false } ∷ record { id = pos 2; completed = false } ∷ [];
  neighbors = record { id = pos 7; anonymized = false } ∷ [];
  members = in_year (pos 7) (pos 1) ∷ in_year (pos 7) (pos 2) ∷ [];
  documents = sample_invoice (pos 20) (in_year (pos 7) (pos 1)) [] (pos 50000) ∷ [];
  entries = [];
  ledger = posting (pos 30) (in_year (pos 7) (pos 1)) (pos 10000) [] today [] ∷ [];
  payments = [];
  audit = [];
  next_id = pos 31;
}

abbrev moved : Books ℤ
moved = add_audit (carry_forward token (pos 60000) (pos 1) (pos 2)) (
    insert_posting (posting (pos 32) (in_year (pos 7) (pos 2)) (pos 60000) [] today token) (
      insert_posting (posting (pos 31) (in_year (pos 7) (pos 1)) (negsuc 59999) [] today token)
        books))

abbrev undone : Books ℤ
undone = write_ledger books.ledger (transfer_delete token 2) moved

carry_runs :
    carry_forward_confirmed token (pos 7) (pos 1) (pos 2) today [] [] none books
    ≡ ok (pos 60000, moved)
unfolding carry_forward_confirmed remaining balance sum_where lock_accounts is_member ◌-ℤ◌ ◌+ℤ◌
carry_runs = refl

delete_runs : delete_ledger_transfer token moved ≡ ok undone
unfolding delete_ledger_transfer editable_transfer transfer_accounts keep_rows count_rows
    sorted_unique_accounts lock_accounts is_member same_text
delete_runs = refl

unused : count_rows (in_transfer token) books.ledger ≡ 0
unfolding count_rows same_text
unused = refl

delete_ledger_transfer-carry_forward_confirmed_example : undone.ledger ≡ books.ledger
delete_ledger_transfer-carry_forward_confirmed_example =
    delete_ledger_transfer-carry_forward_confirmed token (pos 7) (pos 1) (pos 2) today [] [] none
      books unused carry_runs delete_runs

paired : IsPaired token books.ledger
unfolding sum_where same_text
paired = (refl, refl)

Reaches-IsPaired_example : IsPaired token undone.ledger
Reaches-IsPaired_example =
    Reaches-IsPaired token refl books undone
      (there books moved undone
        (carries token (pos 7) (pos 1) (pos 2) today [] [] none (pos 60000) carry_runs)
        (there moved undone undone (deletes_transfer token delete_runs) (here undone)))
      paired
