-- ===== src/Payments/Effects.antt =====
-- What a recorded payment and its credit note do to the balance.
use treckrr.Prelude.{
  ℤ, pos, ◌+ℤ◌, ◌-ℤ◌, ◌≈◌, ltb_ℤ, int_laws, parts_of_eq, ◌≡◌, refl, sym, ap, Bool, true, false, not,
  ◌&&◌, and_true, Option, none, some, ◌++◌, subst, ok, ok-injective, first_of_chain, refuse_if-ok,
  if◌then◌else◌,
}
use treckrr.Decimal.{Decimal}
use treckrr.Calendar.{Date}
use treckrr.Text.{text}
use treckrr.Account.Data.{
  Key, same_account, credit_note, issued, invoice_gutschrift, DocumentRow, Books, not_found,
  payment_amount, DocumentAction, payment_add,
}
use treckrr.Account.Balance.{counts_invoice, counts_credit, balance}
use treckrr.Account.Locks.{lock_account_boundary}
use treckrr.Account.Effects.{balance_value, balance-insert_payment, balance-add_audit}
use treckrr.Ledger.Operations.{round_money}
use treckrr.Invoices.Contents.{Printing}
use treckrr.Invoices.Documents.{append_document, add_invoice_audit}
use treckrr.Invoices.Operations.{issue_gutschrift}
use treckrr.Invoices.Totals.{part_of, total-append}
use treckrr.Invoices.Credits.{issue_gutschrift_lem}
use treckrr.Payments.Record.{
  PaymentInput, PaymentResult, SkontoCredit, find_replay, payment_row, check_named_invoice,
  write_payment, prepare_skonto, issue_skonto, record_new, record_or_replay, record_payment,
}

no_invoice : (b : Bool) → (b && false && true) ≡ false
no_invoice true = refl
no_invoice false = refl

module _ {D : Type 0} ⦃d : Decimal D⦄ where
  open d use {units}

  balance-append_document :
      (r : DocumentRow D) (b : Books D) (k : Key)
      → units (balance (append_document r b) k)
        ≈ units (balance b k) +ℤ part_of (counts_invoice k) r +ℤ part_of (counts_credit k) r
  balance-append_document r b k = omega (
    int_laws,
    balance_value b k,
    balance_value (append_document r b) k,
    total-append (counts_invoice k) b.documents r,
    total-append (counts_credit k) b.documents r,
  )

  balance-add_invoice_audit :
      (action : DocumentAction) (r : DocumentRow D) (b : Books D) (k : Key)
      → balance (add_invoice_audit action r b) k ≡ balance b k
  balance-add_invoice_audit action r b k = balance-add_audit _ b k

  -- What the Skonto of a recorded payment takes off an account.
  abbrev pub skonto_part : Key → PaymentResult D → ℤ
  skonto_part k r = elim r.skonto [ none ↦ pos 0 | some gv ↦ part_of (counts_credit k) gv ]

module _ {D : Type 0} ⦃d : Decimal D⦄ (p : Printing D) where
  open d use {units, is_positive}

  issued_part :
      (k : Key) (gv : DocumentRow D)
      → gv.kind ≡ credit_note
      → gv.status ≡ issued
      → part_of (counts_invoice k) gv ≡ pos 0
  issued_part k gv kind status =
      rw kind (rw status (rw (no_invoice (same_account gv.account k)) refl))

  issue_skonto-balance :
      (i : PaymentInput D) (id : ℤ) (now : Date) (s : Option (SkontoCredit D)) (b b' : Books D)
      (r : PaymentResult D) (k : Key)
      → issue_skonto p i id now s b ≡ ok (r, b')
      → units (balance b' k) ≈ units (balance b k) +ℤ skonto_part k r
  unfolding issue_skonto
  issue_skonto-balance i id now none b b' r k e =
      subst
        (λ (x : PaymentResult D × Books D).
          units (balance x.1 k) ≈ units (balance b k) +ℤ skonto_part k x.0)
        (ok-injective e) (omega int_laws)
  issue_skonto-balance i id now (some s) b b' r k e =
      let label = text "Skonto " ++ (p.decimal_text i.skonto_pct ++ text " %") in
      let (credit, issues, e1) =
        first_of_chain _ (issue_gutschrift p s.orig s.base s.gross label now b) e in
      let (number, row, made) =
        issue_gutschrift_lem p s.orig s.base s.gross label now b credit.1 credit.0 issues in
      let dropped : part_of (counts_invoice k) credit.0 ≡ pos 0 =
        issued_part k credit.0 (ap (λ (x : DocumentRow D). x.kind) row)
          (ap (λ (x : DocumentRow D). x.status) row) in
      let after : units (balance credit.1 k)
          ≈ units (balance b k) +ℤ part_of (counts_credit k) credit.0 =
        omega (
          int_laws,
          parts_of_eq (ap (λ (x : Books D). units (balance x k)) made),
          parts_of_eq (
              ap units (
                balance-add_invoice_audit invoice_gutschrift credit.0 (append_document credit.0 b)
                  k)),
          balance-append_document credit.0 b k,
          parts_of_eq dropped,
        ) in
      subst
        (λ (x : PaymentResult D × Books D).
          units (balance x.1 k) ≈ units (balance b k) +ℤ skonto_part k x.0)
        (ok-injective e1) after

  record_new-balance :
      (i : PaymentInput D) (amount : D) (now : Date) (b b' : Books D) (r : PaymentResult D)
      (k : Key)
      → record_new p i amount now b ≡ ok (r, b')
      → units (balance b' k)
        ≈ units (balance b k)
          -ℤ (if same_account i.account k && true then units amount else pos 0)
          +ℤ skonto_part k r
  unfolding record_new
  record_new-balance i amount now b b' r k e =
      let (present, _, e1) = first_of_chain _ (lock_account_boundary b i.account false false) e in
      let (_, e2) = refuse_if-ok (not present) not_found _ e1 in
      let (_, _, e3) = first_of_chain _ (check_named_invoice i.account i.invoice_id b) e2 in
      let (credit, _, e4) =
        first_of_chain _ (prepare_skonto p i.account i.invoice_id i.skonto_pct b) e3 in
      omega (
        int_laws,
        issue_skonto-balance i b.next_id now credit (write_payment i amount b) b' r k e4,
        balance-insert_payment (payment_row i amount b)
            (payment_add b.next_id amount i.paid_on i.method) b k,
      )

  -- If recording a payment succeeds and is no duplicate, the balance of the payment's account goes down
  -- by the amount rounded to cents, and that of every account changes by the credit note of the Skonto
  -- that stands in it, if one was issued.
  pub record_payment-balance :
      (i : PaymentInput D) (now : Date) (b b' : Books D) (r : PaymentResult D) (k : Key)
      → record_payment p i now b ≡ ok (r, b')
      → r.duplicate ≡ false
      → units (balance b' k)
        ≈ units (balance b k)
          -ℤ (if same_account i.account k then units (round_money i.amount) else pos 0)
          +ℤ skonto_part k r
  unfolding record_payment
  record_payment-balance i now b b' r k e fresh =
      let amount = round_money i.amount in
      let (_, e1) = refuse_if-ok (ltb_ℤ i.invoice_id (pos 0)) not_found _ e in
      let (_, e2) = refuse_if-ok (not (is_positive amount)) payment_amount _ e1 in
      let (replay, _, e3) = first_of_chain _ (find_replay i amount b) e2 in moved replay e3
    where
      moved :
          (replay : Option ℤ)
          → record_or_replay p i (round_money i.amount) now b replay ≡ ok (r, b')
          → units (balance b' k)
            ≈ units (balance b k)
              -ℤ (if same_account i.account k then units (round_money i.amount) else pos 0)
              +ℤ skonto_part k r
      moved (some id) e =
          let repeated : r.duplicate ≡ true =
            sym (ap (λ (x : PaymentResult D × Books D). x.0.duplicate) (ok-injective e)) in
          cc
      moved none e =
          subst
            (λ paid.
              units (balance b' k)
              ≈ units (balance b k)
                -ℤ (if paid then units (round_money i.amount) else pos 0)
                +ℤ skonto_part k r)
            (and_true (same_account i.account k))
            (record_new-balance i (round_money i.amount) now b b' r k e)
