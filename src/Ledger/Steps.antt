-- ===== src/Ledger/Steps.antt =====
-- The operations that write postings, as the steps of the books.
use treckrr.Prelude.{ℤ, ◌≡◌, Bool, Option, ok}
use treckrr.Decimal.{Decimal}
use treckrr.Calendar.{Date}
use treckrr.Text.{Text}
use treckrr.Account.Data.{Key, Books}
use treckrr.Account.Operations.{
  CarryPreview, settle_remaining, payout_credit, carry_forward_confirmed,
}
use treckrr.Ledger.Operations.{
  add_neighbor_ledger, update_neighbor_ledger, set_ledger_voided, delete_neighbor_ledger,
  delete_ledger_transfer, set_ledger_voided_transfer,
}

-- One operation that succeeds.
pub data Step {D : Type 0} ⦃d : Decimal D⦄ (b b' : Books D) : Type 0 where
  settles :
      (k : Key) (when : Date) (note method : Text) (amount : D)
      → settle_remaining k when note method b ≡ ok (amount, b')
      → Step b b'
  pays_out :
      (k : Key) (when : Date) (description : Text) (amount : D)
      → payout_credit k when description b ≡ ok (amount, b')
      → Step b b'
  carries :
      (tid : Text) (n from_year to_year : ℤ) (when : Date) (out_text in_text : Text)
      (expected : Option (CarryPreview D)) (amount : D)
      → carry_forward_confirmed tid n from_year to_year when out_text in_text expected b
        ≡ ok (amount, b')
      → Step b b'
  adds :
      (k : Key) (amount : D) (description : Text) (when : Date) (id : ℤ)
      → add_neighbor_ledger k amount description when b ≡ ok (id, b')
      → Step b b'
  updates :
      (id : ℤ) (amount : D) (description : Text) (when : Date)
      → update_neighbor_ledger id amount description when b ≡ ok b'
      → Step b b'
  voids :
      (id : ℤ) (voided : Bool) (reason : Text)
      → set_ledger_voided id voided reason b ≡ ok b'
      → Step b b'
  deletes : (id : ℤ) → delete_neighbor_ledger id b ≡ ok b' → Step b b'
  deletes_transfer : (transfer : Text) → delete_ledger_transfer transfer b ≡ ok b' → Step b b'
  voids_transfer :
      (transfer : Text) (voided : Bool) (reason : Text)
      → set_ledger_voided_transfer transfer voided reason b ≡ ok b'
      → Step b b'

pub data Reaches {D : Type 0} ⦃d : Decimal D⦄ : Books D → Books D → Type 0 where
  here : (b : Books D) → Reaches b b
  there : (b b' b'' : Books D) → Step b b' → Reaches b' b'' → Reaches b b''
