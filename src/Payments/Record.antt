-- ===== src/Payments/Record.antt =====
-- `RecordPayment`: a payment and, on request, its Skonto credit note in one transaction, once for each
-- rendered form.
use treckrr.Prelude.{
  ℤ, pos, ltb_ℤ, ◌==ℤ◌, Bool, true, false, not, ◌&&◌, Option, none, some, List, [], ◌∷◌, ◌++◌,
  if◌then◌else◌, Result, ok, err, ◌>>=◌, ◌>>◌, refuse_if,
}
use treckrr.Decimal.{Decimal}
use treckrr.Calendar.{Date, same_date}
use treckrr.Text.{Text, text, is_empty, same_text}
use treckrr.Account.Content.{Content}
use treckrr.Account.Data.{
  Key, same_account, DocumentRow, PaymentRow, Books, Error, not_found, payment_amount,
  idempotency_conflict, skonto_year_completed, payment_add,
}
use treckrr.Account.Locks.{find_year, lock_account_boundary}
use treckrr.Account.Operations.{only_invoice, insert_payment, is_completed}
use treckrr.Ledger.Operations.{round_money}
use treckrr.Invoices.Contents.{Printing}
use treckrr.Invoices.Documents.{active_invoice}
use treckrr.Invoices.Operations.{check_invoice_credit_cap, issue_gutschrift}

pub record PaymentInput (D : Type 0) : Type 0 where
  pub account : Key
  pub invoice_id : ℤ
  pub amount : D
  pub paid_on : Date
  pub note : Text
  pub method : Text
  pub skonto_pct : D
  pub idempotency_key : Text

pub record PaymentResult (D : Type 0) : Type 0 where
  pub payment_id : ℤ
  pub duplicate : Bool
  pub skonto : Option (DocumentRow D)

-- `skontoCredit`
pub record SkontoCredit (D : Type 0) : Type 0 where
  pub orig : DocumentRow D
  pub base : Content D
  pub gross : D

-- `NULLIF(n, 0)`, and `COALESCE(x, 0)`
abbrev pub null_if_zero : ℤ → Option ℤ
null_if_zero id = if id ==ℤ pos 0 then none else some id

abbrev pub or_zero : Option ℤ → ℤ
or_zero none = pos 0
or_zero (some id) = id

module _ {D : Type 0} where
  -- `WHERE idempotency_key=$1`; an empty key is stored as NULL, which no key equals.
  unfoldable pub find_key : Text → List (PaymentRow D) → Option (PaymentRow D)
  unfolding same_text
  find_key key [] = none
  find_key key (r ∷ rs) =
      let later = find_key key rs in
      if not (is_empty r.form_key) && same_text r.form_key key then some r else later

module _ {D : Type 0} ⦃d : Decimal D⦄ where
  open d use {is_positive, equal}

  abbrev pub is_same_payment : PaymentInput D → D → PaymentRow D → Bool
  is_same_payment i amount r =
      same_account r.account i.account
      && equal r.amount amount
      && same_date r.paid_on i.paid_on
      && same_text r.note i.note
      && same_text r.method i.method
      && (or_zero r.preferred_invoice_id ==ℤ i.invoice_id)

  -- What a row that holds the key says: a replay, or a conflict.
  abbrev pub replay_of : PaymentInput D → D → Option (PaymentRow D) → Result Error (Option ℤ)
  replay_of i amount none = ok none
  replay_of i amount (some r) =
      if is_same_payment i amount r then ok (some r.id) else err idempotency_conflict

  unfoldable pub find_replay : PaymentInput D → D → Books D → Result Error (Option ℤ)
  unfolding find_key
  find_replay i amount b =
      if is_empty i.idempotency_key
      then ok none
      else replay_of i amount (find_key i.idempotency_key b.payments)

  abbrev pub payment_row : PaymentInput D → D → Books D → PaymentRow D
  payment_row i amount b = record {
    id = b.next_id;
    account = i.account;
    amount = amount;
    paid_on = i.paid_on;
    note = i.note;
    method = i.method;
    deleted = false;
    invoice_id = elim (null_if_zero i.invoice_id) [
      | none ↦ only_invoice i.account b.documents none false
      | some id ↦ some id
    ];
    form_key = i.idempotency_key;
    preferred_invoice_id = null_if_zero i.invoice_id;
    imported = false;
    reversal = false;
  }

  -- The named invoice must be one of the account's.
  unfoldable pub check_named_invoice : Key → ℤ → Books D → Result Error (Unit {0})
  unfolding active_invoice
  check_named_invoice k id b =
      if id ==ℤ pos 0 then ok tt else active_invoice k id b >>= (λ r. ok tt)

  abbrev pub write_payment : PaymentInput D → D → Books D → Books D
  write_payment i amount b =
      insert_payment (payment_row i amount b) (payment_add b.next_id amount i.paid_on i.method) b

  abbrev pub no_credit : Result Error (Option (SkontoCredit D))
  no_credit = ok none

module _ {D : Type 0} ⦃d : Decimal D⦄ (p : Printing D) where
  open d use {is_positive}

  unfoldable pub skonto_gross : Content D → D → D
  skonto_gross c pct = round_money (p.div (p.mul c.gross pct) (p.of_int (pos 100)))

  -- The invoice is there: its snapshot, the amount, the year and the caps.
  unfoldable pub prepare_credit :
      Key
      → D
      → Books D
      → DocumentRow D
      → Option (Content D)
      → Result Error (Option (SkontoCredit D))
  unfolding skonto_gross check_invoice_credit_cap
  prepare_credit k pct b orig none = no_credit
  prepare_credit k pct b orig (some c) =
      let gross = skonto_gross c pct in
      if not (is_positive gross) then no_credit else (do
        refuse_if (is_completed (find_year k.year_id b.years)) skonto_year_completed
        check_invoice_credit_cap orig gross b
        ok (some (record { orig = orig; base = c; gross = gross })))

  -- Without a named invoice, none or more than one active: the first leaves nothing to reduce.
  unfoldable pub prepare_found :
      Key → ℤ → D → Books D → Result Error (DocumentRow D) → Result Error (Option (SkontoCredit D))
  unfolding prepare_credit
  prepare_found k id pct b (ok orig) = prepare_credit k pct b orig orig.content
  prepare_found k id pct b (err not_found) = if id ==ℤ pos 0 then no_credit else err not_found
  prepare_found k id pct b (err e) = err e

  unfoldable pub prepare_skonto : Key → ℤ → D → Books D → Result Error (Option (SkontoCredit D))
  unfolding prepare_found active_invoice
  prepare_skonto k id pct b =
      if is_positive pct then prepare_found k id pct b (active_invoice k id b) else no_credit

  -- The credit note after the payment is written.
  unfoldable pub issue_skonto :
      PaymentInput D
      → ℤ
      → Date
      → Option (SkontoCredit D)
      → Books D
      → Result Error (PaymentResult D × Books D)
  unfolding issue_gutschrift
  issue_skonto i id now none b =
      ok (record { payment_id = id; duplicate = false; skonto = none }, b)
  issue_skonto i id now (some s) b = do
    issued ←
        issue_gutschrift p s.orig s.base s.gross
          (text "Skonto " ++ (p.decimal_text i.skonto_pct ++ text " %")) now b
    ok (record { payment_id = id; duplicate = false; skonto = some issued.0 }, issued.1)

  -- The payment of a form that was not recorded before.
  unfoldable pub record_new :
      PaymentInput D → D → Date → Books D → Result Error (PaymentResult D × Books D)
  unfolding check_named_invoice prepare_skonto issue_skonto
  record_new i amount now b = do
    present ← lock_account_boundary b i.account false false
    refuse_if (not present) not_found
    check_named_invoice i.account i.invoice_id b
    credit ← prepare_skonto i.account i.invoice_id i.skonto_pct b
    issue_skonto i b.next_id now credit (write_payment i amount b)

  abbrev pub replayed : ℤ → PaymentResult D
  replayed id = record { payment_id = id; duplicate = true; skonto = none }

  abbrev pub record_or_replay :
      PaymentInput D → D → Date → Books D → Option ℤ → Result Error (PaymentResult D × Books D)
  record_or_replay i amount now b (some id) = ok (replayed id, b)
  record_or_replay i amount now b none = record_new i amount now b

  unfoldable pub record_payment :
      PaymentInput D → Date → Books D → Result Error (PaymentResult D × Books D)
  unfolding find_replay record_new
  record_payment i now b = do
    refuse_if (ltb_ℤ i.invoice_id (pos 0)) not_found
    let amount = round_money i.amount
    refuse_if (not (is_positive amount)) payment_amount
    replay ← find_replay i amount b
    record_or_replay i amount now b replay

  -- `AddPayment`
  abbrev pub add_payment :
      Key → D → Date → Text → Text → Date → Books D → Result Error (PaymentResult D × Books D)
  add_payment k amount paid_on note method now b =
      record_payment
        (record {
          account = k;
          invoice_id = pos 0;
          amount = amount;
          paid_on = paid_on;
          note = note;
          method = method;
          skonto_pct = d.zero;
          idempotency_key = [];
        })
        now b
