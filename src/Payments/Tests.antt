-- ===== src/Payments/Tests.antt =====
-- A payment of 20 euros that is deleted and restored, and one that is corrected to 25.
use treckrr.Prelude.{
  ℤ, pos, ◌≡◌, ◌≈◌, ◌+ℤ◌, ◌-ℤ◌, if◌then◌else◌, ◌||◌, refl, true, false, some, none, [], ◌∷◌, ok,
}
use treckrr.Decimal.{tenth_cents, round_half_away}
use treckrr.Calendar.{Date}
use treckrr.Text.{text, same_text}
use treckrr.Account.Data.{
  Key, same_account, PaymentRow, Books, payment_update, payment_delete, payment_restore,
}
use treckrr.Account.Locks.{is_member, lock_account_boundary}
use treckrr.Ledger.Operations.{round_money}
use treckrr.Payments.Operations.{
  find_payment, change_payment, changeable_payment, write_payments, with_deleted, with_values,
  set_payment_deleted, delete_payment, restore_payment, update_payment,
}
use treckrr.Payments.Record.{
  PaymentInput, PaymentResult, write_payment, record_payment, record_new, find_replay, find_key,
  check_named_invoice, prepare_skonto, issue_skonto,
}
use treckrr.Payments.Replay.{record_payment_again}
use treckrr.Payments.Effects.{skonto_part, record_payment-balance}
use treckrr.Invoices.Contents.{Printing}
use treckrr.Account.Balance.{balance}
use treckrr.Account.Operations.{only_invoice}
use treckrr.Payments.Plans.{
  PlanInput, Plans, plan_row, appended_plan, find_plan_key, add_installment_once,
  delete_installment,
}
use treckrr.Payments.Planned.{add_installment_once_again, delete_installment-add_installment_once}
use treckrr.Payments.Undo.{restore_payment-delete_payment, IsUpdate, update_payment_allowed}

abbrev today : Date
today = record { year = 2026; month = 5; day = 4 }

abbrev here : Key
here = record { year_id = pos 1; neighbor_id = pos 7 }

abbrev row : PaymentRow ℤ
row = record {
  id = pos 30;
  account = here;
  amount = pos 20000;
  paid_on = today;
  note = [];
  method = text "bar";
  deleted = false;
  invoice_id = none;
  form_key = [];
  preferred_invoice_id = none;
  imported = false;
  reversal = false;
}

abbrev books : Books ℤ
books = record {
  years = record { id = pos 1; completed = true } ∷ [];
  neighbors = record { id = pos 7; anonymized = false } ∷ [];
  members = here ∷ [];
  documents = [];
  entries = [];
  ledger = [];
  payments = row ∷ [];
  audit = [];
  next_id = pos 31;
}

abbrev gone : Books ℤ
gone =
    write_payments (with_deleted true row ∷ [])
      (payment_delete (pos 30) (pos 20000) today (text "bar")) books

abbrev back : Books ℤ
back = write_payments (row ∷ []) (payment_restore (pos 30) (pos 20000) today (text "bar")) gone

deletes : delete_payment (pos 30) books ≡ ok (true, gone)
unfolding set_payment_deleted changeable_payment change_payment lock_account_boundary is_member
deletes = refl

restores : restore_payment (pos 30) gone ≡ ok (true, back)
unfolding set_payment_deleted changeable_payment change_payment lock_account_boundary is_member
restores = refl

restore_payment-delete_payment_example : back.payments ≡ books.payments
restore_payment-delete_payment_example =
    restore_payment-delete_payment (pos 30) books gone deletes restores

abbrev corrected : Books ℤ
corrected =
    write_payments (with_values (pos 25000) today [] (text "bank") row ∷ [])
      (payment_update (pos 30) (pos 20000) today (text "bar") (pos 25000) today (text "bank")) books

updates : update_payment (pos 30) (pos 25000) today [] (text "bank") books ≡ ok (true, corrected)
unfolding update_payment changeable_payment change_payment lock_account_boundary is_member
updates = refl

update_payment_allowed_example :
    (p : PaymentRow ℤ) × (find_payment (pos 30) books.payments ≡ some p)
    × (p.deleted ≡ false)
    × ((p.imported || p.reversal) ≡ false)
    × (tenth_cents.is_positive (round_money (pos 25000)) ≡ true)
    × ((q : PaymentRow ℤ) × (find_payment (pos 30) corrected.payments ≡ some q)
        × IsUpdate (round_money (pos 25000)) today [] (text "bank") p q)
    × (find_payment (pos 31) corrected.payments ≡ find_payment (pos 31) books.payments)
update_payment_allowed_example =
    update_payment_allowed (pos 30) (pos 31) (pos 25000) today [] (text "bank") books corrected
      updates refl

-- Twenty euros with a Skonto of nothing, under a key.
abbrev form : PaymentInput ℤ
form = record {
  account = here;
  invoice_id = pos 0;
  amount = pos 20004;
  paid_on = today;
  note = [];
  method = text "bar";
  skonto_pct = pos 0;
  idempotency_key = text "k1";
}

abbrev printing : Printing ℤ
printing = record {
  mul = λ a b. a;
  div = λ a b. a;
  of_int = λ a. a;
  digits = λ n. n ∷ [];
  decimal_text = λ a. [];
  content_hash = λ c. [];
}

abbrev recorded : Books ℤ
recorded = write_payment form (pos 20000) books

abbrev receipt : PaymentResult ℤ
receipt = record { payment_id = pos 31; duplicate = false; skonto = none }

records : record_payment printing form today books ≡ ok (receipt, recorded)
unfolding record_payment record_new find_replay check_named_invoice prepare_skonto issue_skonto
    lock_account_boundary is_member same_text find_key ◌+ℤ◌ ◌-ℤ◌ only_invoice
records = refl

record_payment_again_example :
    record_payment printing form today recorded
    ≡ ok (record { payment_id = pos 31; duplicate = true; skonto = none }, recorded)
record_payment_again_example =
    record_payment_again printing form today today books recorded receipt refl records

record_payment-balance_example :
    balance recorded here
    ≈ balance books here
      -ℤ (if same_account here here then round_half_away 10 (pos 20004) else pos 0)
      +ℤ skonto_part here receipt
record_payment-balance_example =
    record_payment-balance printing form today books recorded receipt here records refl

-- An installment of ten euros.
abbrev installment : PlanInput ℤ
installment = record {
  account = here;
  amount = pos 10000;
  due_on = today;
  note = [];
  idempotency_key = text "k2";
}

abbrev no_plans : Plans ℤ
no_plans = record { rows = []; next_id = pos 1 }

abbrev one_plan : Plans ℤ
one_plan = appended_plan installment (pos 10000) no_plans

plans :
    add_installment_once installment books no_plans
    ≡ ok (record { id = pos 1; duplicate = false }, one_plan)
unfolding add_installment_once find_plan_key lock_account_boundary is_member ◌+ℤ◌ ◌-ℤ◌
plans = refl

add_installment_once_again_example :
    add_installment_once installment books one_plan
    ≡ ok (record { id = pos 1; duplicate = true }, one_plan)
add_installment_once_again_example =
    add_installment_once_again installment books books no_plans one_plan
      (record { id = pos 1; duplicate = false }) refl plans

delete_installment-add_installment_once_example :
    delete_installment (pos 1) one_plan
    ≡ ok (plan_row installment (pos 10000) no_plans, record one_plan { rows = [] })
delete_installment-add_installment_once_example =
    delete_installment-add_installment_once installment books no_plans one_plan
      (record { id = pos 1; duplicate = false }) tt plans refl
