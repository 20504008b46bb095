-- ===== src/Payments/Replay.antt =====
-- A form that is sent again records nothing again.
use treckrr.Prelude.{
  ℤ, pos, ltb_ℤ, ◌==ℤ◌, ==ℤ_refl, ==ℤ_iff, arith, ◌≡◌, refl, sym, ap, ◌∙◌, true, false, not, ◌&&◌,
  Bool-cases, inl, inr, Option, Option-cases, none, some, List, [], ◌∷◌, ◌++◌, subst, Result, ok,
  err, ok-injective, first_of_chain, refuse_if-ok,
}
use treckrr.Decimal.{Decimal}
use treckrr.Calendar.{Date, same_date_refl}
use treckrr.Text.{Text, text, is_empty, same_text, same_text_refl}
use treckrr.Account.Data.{Key, same_account, PaymentRow, Books, Error, not_found, payment_amount}
use treckrr.Account.Locks.{lock_account_boundary}
use treckrr.Ledger.Operations.{round_money}
use treckrr.Invoices.Contents.{Printing}
use treckrr.Invoices.Operations.{issue_gutschrift}
use treckrr.Invoices.Credits.{issue_gutschrift_lem}
use treckrr.Payments.Record.{
  PaymentInput, PaymentResult, SkontoCredit, null_if_zero, or_zero, find_key, is_same_payment,
  replay_of, find_replay, payment_row, check_named_invoice, write_payment, prepare_skonto,
  issue_skonto, record_new, replayed, record_or_replay, record_payment,
}

pub same_account_refl : (k : Key) → same_account k k ≡ true
same_account_refl k = rw (==ℤ_refl k.year_id) (==ℤ_refl k.neighbor_id)

or_zero-null_if_zero : (id : ℤ) → (or_zero (null_if_zero id) ==ℤ id) ≡ true
or_zero-null_if_zero id = elim (Bool-cases (id ==ℤ pos 0)) [
  | inl e ↦ let zero = (==ℤ_iff id (pos 0)).0 e in rw e (rw zero refl)
  | inr e ↦ rw e (==ℤ_refl id)
]

module _ {D : Type 0} where
  -- The row of a new key is the one found.
  find_key-append :
      (key : Text) (rs : List (PaymentRow D)) (r : PaymentRow D)
      → find_key key rs ≡ none
      → is_empty key ≡ false
      → r.form_key ≡ key
      → find_key key (rs ++ (r ∷ [])) ≡ some r
  unfolding find_key
  find_key-append key [] r absent filled same =
      rw same (rw (filled, find_key) (rw (same_text_refl key) refl))
  find_key-append key (q ∷ qs) r absent filled same =
      elim (Bool-cases (not (is_empty q.form_key) && same_text q.form_key key)) [
        | inl e ↦
            let found : ◌≡◌ {A = Option (PaymentRow D)} (some q) none =
              rw (e, find_key) at absent in
            cc
        | inr e ↦
            rw (e, find_key) (find_key-append key qs r (rw (e, find_key) at absent) filled same)
      ]

module _ {D : Type 0} ⦃d : Decimal D⦄ where
  open d use {equal, is_positive}

  pub equal_refl : (a : D) → equal a a ≡ true
  equal_refl a = ground (arith, d.equal_lem a a)

  is_same_payment-payment_row :
      (i : PaymentInput D) (amount : D) (b : Books D)
      → is_same_payment i amount (payment_row i amount b) ≡ true
  is_same_payment-payment_row i amount b = rw (same_account_refl i.account) (
      rw (equal_refl amount) (
        rw (same_date_refl i.paid_on) (
          rw (same_text_refl i.note)
            (rw (same_text_refl i.method) (or_zero-null_if_zero i.invoice_id)))))

  -- Without a replay, no row holds the key.
  find_replay-none :
      (i : PaymentInput D) (amount : D) (b : Books D)
      → is_empty i.idempotency_key ≡ false
      → find_replay i amount b ≡ ok none
      → find_key i.idempotency_key b.payments ≡ none
  unfolding find_replay
  find_replay-none i amount b filled e =
      let e1 : replay_of i amount (find_key i.idempotency_key b.payments) ≡ ok none =
        rw (filled, find_replay) at e in
      elim (Option-cases (find_key i.idempotency_key b.payments)) [
        | inl absent ↦ absent
        | inr (r, found) ↦ absurd (no_none r (rw found at e1))
      ]
    where
      no_none : (r : PaymentRow D) → replay_of i amount (some r) ≡ ok none → ⊥
      no_none r h = elim (Bool-cases (is_same_payment i amount r)) [
        | inl same ↦
            let bad : ◌≡◌ {A = Result Error (Option ℤ)} (ok (some r.id)) (ok none) = rw same at h in
            cc
        | inr other ↦
            let bad : ◌≡◌ {A = Result Error (Option ℤ)} (err _) (ok none) = rw other at h in cc
      ]

module _ {D : Type 0} ⦃d : Decimal D⦄ (p : Printing D) where
  open d use {is_positive}

  -- The credit note leaves the payments alone.
  issue_skonto-payments :
      (i : PaymentInput D) (id : ℤ) (now : Date) (s : Option (SkontoCredit D)) (b b' : Books D)
      (r : PaymentResult D)
      → issue_skonto p i id now s b ≡ ok (r, b')
      → (b'.payments ≡ b.payments) × (r.payment_id ≡ id)
  unfolding issue_skonto
  issue_skonto-payments i id now none b b' r e =
      let same = ok-injective e in
      (
        sym (ap (λ (x : PaymentResult D × Books D). x.1.payments) same),
        sym (ap (λ (x : PaymentResult D × Books D). x.0.payment_id) same),
      )
  issue_skonto-payments i id now (some s) b b' r e =
      let label = text "Skonto " ++ (p.decimal_text i.skonto_pct ++ text " %") in
      let (issued, issues, e1) =
        first_of_chain _ (issue_gutschrift p s.orig s.base s.gross label now b) e in
      let (_, _, made) =
        issue_gutschrift_lem p s.orig s.base s.gross label now b issued.1 issued.0 issues in
      let same = ok-injective e1 in
      (
        sym (ap (λ (x : PaymentResult D × Books D). x.1.payments) same)
            ∙ ap (λ (x : Books D). x.payments) made,
        sym (ap (λ (x : PaymentResult D × Books D). x.0.payment_id) same),
      )

  -- The payment of a new form is appended.
  record_new-payments :
      (i : PaymentInput D) (amount : D) (now : Date) (b b' : Books D) (r : PaymentResult D)
      → record_new p i amount now b ≡ ok (r, b')
      → (b'.payments ≡ b.payments ++ (payment_row i amount b ∷ [])) × (r.payment_id ≡ b.next_id)
  unfolding record_new
  record_new-payments i amount now b b' r e =
      let (present, _, e1) = first_of_chain _ (lock_account_boundary b i.account false false) e in
      let (_, e2) = refuse_if-ok (not present) not_found _ e1 in
      let (_, _, e3) = first_of_chain _ (check_named_invoice i.account i.invoice_id b) e2 in
      let (credit, _, e4) =
        first_of_chain _ (prepare_skonto p i.account i.invoice_id i.skonto_pct b) e3 in
      issue_skonto-payments i b.next_id now credit (write_payment i amount b) b' r e4

  -- A run that finds its key.
  record_payment-found :
      (i : PaymentInput D) (now : Date) (b : Books D) (id : ℤ)
      → ltb_ℤ i.invoice_id (pos 0) ≡ false
      → not (is_positive (round_money i.amount)) ≡ false
      → find_replay i (round_money i.amount) b ≡ ok (some id)
      → record_payment p i now b ≡ ok (replayed p id, b)
  unfolding record_payment
  record_payment-found i now b id named positive found =
      rw (named, record_payment) (rw positive (rw found refl))

  found_again :
      (i : PaymentInput D) (amount : D) (b : Books D)
      → is_empty i.idempotency_key ≡ false
      → find_key i.idempotency_key b.payments ≡ none
      → (b' : Books D) → b'.payments ≡ b.payments ++ (payment_row i amount b ∷ [])
      → find_replay i amount b' ≡ ok (some b.next_id)
  unfolding find_replay
  found_again i amount b filled absent b' same =
      let found =
        find_key-append i.idempotency_key b.payments (payment_row i amount b) absent filled refl in
      rw (filled, find_replay)
        (rw same (rw found (rw (is_same_payment-payment_row i amount b) refl)))

  -- If a form with a key is recorded without an error, then sending the same form again, at whatever
  -- time, reports a duplicate with the id of the payment from the first time and changes nothing.
  pub record_payment_again :
      (i : PaymentInput D) (now later : Date) (b b' : Books D) (r : PaymentResult D)
      → is_empty i.idempotency_key ≡ false
      → record_payment p i now b ≡ ok (r, b')
      → record_payment p i later b'
        ≡ ok (record { payment_id = r.payment_id; duplicate = true; skonto = none }, b')
  unfolding record_payment
  record_payment_again i now later b b' r filled e =
      let amount = round_money i.amount in
      let (named, e1) = refuse_if-ok (ltb_ℤ i.invoice_id (pos 0)) not_found _ e in
      let (positive, e2) = refuse_if-ok (not (is_positive amount)) payment_amount _ e1 in
      let (replay, found, e3) = first_of_chain _ (find_replay i amount b) e2 in
      again named positive replay found e3
    where
      again :
          ltb_ℤ i.invoice_id (pos 0) ≡ false
          → not (is_positive (round_money i.amount)) ≡ false
          → (replay : Option ℤ) → find_replay i (round_money i.amount) b ≡ ok replay
          → record_or_replay p i (round_money i.amount) now b replay ≡ ok (r, b')
          → record_payment p i later b'
            ≡ ok (record { payment_id = r.payment_id; duplicate = true; skonto = none }, b')
      again named positive (some id) found e =
          let same = ok-injective e in
          let first = record_payment-found i later b id named positive found in
          subst
            (λ (x : PaymentResult D × Books D).
              record_payment p i later x.1
              ≡ ok (record { payment_id = x.0.payment_id; duplicate = true; skonto = none }, x.1))
            same first
      again named positive none found e =
          let amount = round_money i.amount in
          let (rows, id) = record_new-payments i amount now b b' r e in
          let absent = find_replay-none i amount b filled found in
          rw id (
            record_payment-found i later b' b.next_id named positive
              (found_again i amount b filled absent b' rows))
