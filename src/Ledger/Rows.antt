-- ===== src/Ledger/Rows.antt =====
-- The statements that the ledger operations run on the table of postings. An `id` is the primary key,
-- so a statement on one `id` reaches the first row that has it.
use treckrr.Prelude.{
  ℕ, suc, ℤ, ◌==ℤ◌, Bool, not, ◌&&◌, Option, none, some, List, [], ◌∷◌, map, if◌then◌else◌,
}
use treckrr.Calendar.{Date}
use treckrr.Text.{Text, same_text}
use treckrr.Account.Data.{Key, LedgerRow}
use treckrr.Account.Locks.{sorted_unique_accounts}

module _ {D : Type 0} where
  -- `ledgerAccount`, `ledgerForUpdate`
  unfoldable pub find_posting : ℤ → List (LedgerRow D) → Option (LedgerRow D)
  find_posting id [] = none
  find_posting id (r ∷ rs) = let later = find_posting id rs in if r.id ==ℤ id then some r else later

  unfoldable pub change_posting :
      ℤ → (LedgerRow D → LedgerRow D) → List (LedgerRow D) → List (LedgerRow D)
  change_posting id change [] = []
  change_posting id change (r ∷ rs) =
      let later = change_posting id change rs in if r.id ==ℤ id then change r ∷ rs else r ∷ later

  unfoldable pub drop_posting : ℤ → List (LedgerRow D) → List (LedgerRow D)
  drop_posting id [] = []
  drop_posting id (r ∷ rs) = let later = drop_posting id rs in if r.id ==ℤ id then rs else r ∷ later

  abbrev pub in_transfer : Text → LedgerRow D → Bool
  in_transfer transfer r = same_text r.transfer_id transfer

  abbrev pub is_active_in : Text → LedgerRow D → Bool
  is_active_in transfer r = in_transfer transfer r && not r.voided

  unfoldable pub keep_rows : (LedgerRow D → Bool) → List (LedgerRow D) → List (LedgerRow D)
  keep_rows keep [] = []
  keep_rows keep (r ∷ rs) = let rest = keep_rows keep rs in if keep r then r ∷ rest else rest

  unfoldable pub count_rows : (LedgerRow D → Bool) → List (LedgerRow D) → ℕ
  count_rows keep [] = 0
  count_rows keep (r ∷ rs) = let rest = count_rows keep rs in if keep r then suc rest else rest

  abbrev pub with_voided : Bool → Text → LedgerRow D → LedgerRow D
  with_voided voided reason r = record r { voided = voided; void_reason = reason }

  abbrev pub with_content : D → Text → Date → LedgerRow D → LedgerRow D
  with_content amount description when r = record r {
    amount = amount;
    description = description;
    posting_date = when;
  }

  -- `ledgerTransferAccounts`
  unfoldable pub transfer_accounts : Text → List (LedgerRow D) → List Key
  unfolding keep_rows
  transfer_accounts transfer rows =
      sorted_unique_accounts (map (λ r. r.account) (keep_rows (in_transfer transfer) rows))
