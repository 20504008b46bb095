-- ===== src/Payments/Undo.antt =====
-- Deleting a payment and restoring it, and what no change may touch.
use treckrr.Prelude.{
  true_of_not, ℤ, ◌==ℤ◌, ==ℤ_iff, ◌≡◌, refl, Bool, true, false, not, ◌||◌, inl, inr, ◌⊎◌,
  Bool-cases, Option, none, some, List, [], ◌∷◌, ok, first_of_chain, refuse_if-ok, ok-injective, ap,
  sym, ◌∙◌,
}
use treckrr.Decimal.{Decimal}
use treckrr.Calendar.{Date}
use treckrr.Text.{Text}
use treckrr.Account.Data.{PaymentRow, Books, not_found, payment_amount, imported_payment_immutable}
use treckrr.Account.Locks.{lock_account_boundary}
use treckrr.Ledger.Operations.{round_money}
use treckrr.Payments.Operations.{
  find_payment, change_payment, found_payment, changeable_payment, with_deleted, with_values,
  wants_change, set_payment_deleted, delete_payment, restore_payment, update_payment,
}

module _ {D : Type 0} where
  found_row :
      {p : PaymentRow D} (row : Option (PaymentRow D)) → found_payment row ≡ ok p → row ≡ some p
  found_row none e = cc
  found_row (some q) e = cc

  changeable_payment_own :
      (id : ℤ) (b : Books D) {p : PaymentRow D}
      → changeable_payment id b ≡ ok p
      → (find_payment id b.payments ≡ some p) × ((p.imported || p.reversal) ≡ false)
  unfolding changeable_payment
  changeable_payment_own id b {p} e =
      let (before, found, checked) =
        first_of_chain _ (found_payment (find_payment id b.payments)) e in
      let (present, _, there) =
        first_of_chain _ (lock_account_boundary b before.account false false) checked in
      let (_, owned) = refuse_if-ok (not present) not_found _ there in
      let (own, returned) =
        refuse_if-ok (before.imported || before.reversal) imported_payment_immutable _ owned in
      let same = ok-injective returned in
      (found_row (find_payment id b.payments) found ∙ ap some same, rw same at own)

  -- What a deletion or a restoring that succeeds did.
  set_payment_deleted_cases :
      (id : ℤ) (deleted : Bool) (b : Books D) {r : Bool × Books D}
      → set_payment_deleted id deleted b ≡ ok r
      → (p : PaymentRow D) × (find_payment id b.payments ≡ some p)
        × (((wants_change deleted p ≡ true)
              × (r.0 ≡ true)
              × (r.1.payments ≡ change_payment id (with_deleted deleted) b.payments))
            ⊎ ((wants_change deleted p ≡ false) × (r ≡ (false, b))))
  unfolding set_payment_deleted
  set_payment_deleted_cases id deleted b {r} e =
      let (p, checked, returned) = first_of_chain _ (changeable_payment id b) e in
      let (found, _) = changeable_payment_own id b checked in
      let same = sym (ok-injective returned) in
      (
        p,
        found,
        elim (Bool-cases (wants_change deleted p)) [
          | inl wanted ↦
              let done = rw wanted at same in
              inl (
                wanted,
                ap (λ (x : Bool × Books D). x.0) done,
                ap (λ (x : Bool × Books D). x.1.payments) done,
              )
          | inr unwanted ↦ inr (unwanted, rw unwanted at same)
        ],
      )

  find_payment-change_payment :
      (id : ℤ) (change : PaymentRow D → PaymentRow D)
      → ((p : PaymentRow D) → (change p).id ≡ p.id)
      → (p : PaymentRow D) (ps : List (PaymentRow D)) → find_payment id ps ≡ some p
      → find_payment id (change_payment id change ps) ≡ some (change p)
  unfolding find_payment change_payment
  find_payment-change_payment id change keeps p [] found = cc
  find_payment-change_payment id change keeps p (q ∷ qs) found = elim (Bool-cases (q.id ==ℤ id)) [
    | inl e ↦
        let same : some q ≡ some p = rw e at found in
        let row : q ≡ p = cc in
        let here : ((change q).id ==ℤ id) ≡ true = ap (λ i. i ==ℤ id) (keeps q) ∙ e in
        rw e (rw here (ap (λ (x : PaymentRow D). some (change x)) row))
    | inr e ↦ rw e (rw e (find_payment-change_payment id change keeps p qs (rw e at found)))
  ]

  find_payment-change_payment_elsewhere :
      (id j : ℤ) (change : PaymentRow D → PaymentRow D)
      → ((p : PaymentRow D) → (change p).id ≡ p.id)
      → (ps : List (PaymentRow D)) → (id ==ℤ j) ≡ false
      → find_payment j (change_payment id change ps) ≡ find_payment j ps
  unfolding find_payment change_payment
  find_payment-change_payment_elsewhere id j change keeps [] other = refl
  find_payment-change_payment_elsewhere id j change keeps (q ∷ qs) other =
      let rest = find_payment-change_payment_elsewhere id j change keeps qs other in
      elim (Bool-cases (q.id ==ℤ id)) [
        | inl e ↦
            let apart : (q.id ==ℤ j) ≡ false = rw ((==ℤ_iff q.id id).0 e) other in
            let here : ((change q).id ==ℤ j) ≡ false = ap (λ i. i ==ℤ j) (keeps q) ∙ apart in
            rw e (rw here (rw apart refl))
        | inr e ↦ rw e (rw rest refl)
      ]

  change_payment-change_payment :
      (id : ℤ) (p : PaymentRow D) (ps : List (PaymentRow D))
      → find_payment id ps ≡ some p
      → p.deleted ≡ false
      → change_payment id (with_deleted false) (change_payment id (with_deleted true) ps) ≡ ps
  unfolding find_payment change_payment
  change_payment-change_payment id p [] found active = cc
  change_payment-change_payment id p (q ∷ qs) found active = elim (Bool-cases (q.id ==ℤ id)) [
    | inl e ↦
        let same : some q ≡ some p = rw e at found in
        let row : q ≡ p = cc in
        let open_row : q.deleted ≡ false = rw row active in
        let again : with_deleted false q ≡ q = rw (← open_row) refl in
        rw e (rw e (ap (λ x. x ∷ qs) again))
    | inr e ↦ rw e (
        rw e (ap (λ rest. q ∷ rest) (change_payment-change_payment id p qs (rw e at found) active)))
  ]

  active_before : (p : PaymentRow D) → wants_change true p ≡ true → p.deleted ≡ false
  active_before p e = elim (Bool-cases p.deleted) [
    | inl deleted ↦ let impossible : false ≡ true = rw deleted at e in cc
    | inr active ↦ active
  ]

  -- If deleting a payment reports a change and restoring it afterwards succeeds, the table of payments
  -- is what it was before.
  pub restore_payment-delete_payment :
      (id : ℤ) (b gone : Books D) {r : Bool × Books D}
      → delete_payment id b ≡ ok (true, gone)
      → restore_payment id gone ≡ ok r
      → r.1.payments ≡ b.payments
  restore_payment-delete_payment id b gone {r} deleted restored =
      let (p, found, did) = set_payment_deleted_cases id true b deleted in
      elim did [
        | inl (wanted, _, rows) ↦
            let later =
              find_payment-change_payment id (with_deleted true) (λ x. refl) p b.payments found in
            let there : find_payment id gone.payments ≡ some (with_deleted true p) =
              ap (find_payment id) rows ∙ later in
            let back =
              change_payment-change_payment id p b.payments found (active_before p wanted) in
            let (q, found', did') = set_payment_deleted_cases id false gone restored in
            let same : with_deleted true p ≡ q = some_injective (sym there ∙ found') in
            elim did' [
              | inl (_, _, rows') ↦
                  rows' ∙ (ap (change_payment id (with_deleted false)) rows ∙ back)
              | inr (unwanted, _) ↦ let impossible : true ≡ false = rw (← same) at unwanted in cc
            ]
        | inr (_, kept) ↦
            let impossible : true ≡ false = ap (λ (x : Bool × Books D). x.0) kept in cc
      ]
    where
      some_injective :
          {x y : PaymentRow D} → ◌≡◌ {A = Option (PaymentRow D)} (some x) (some y) → x ≡ y
      some_injective e = cc

module _ {D : Type 0} ⦃d : Decimal D⦄ where
  -- A row with new values; what is not named by them is as it was.
  pub record IsUpdate (amount : D) (when : Date) (note method : Text) (p q : PaymentRow D)
      : Type 0 where
    pub amount_new : q.amount ≡ amount
    pub date_new : q.paid_on ≡ when
    pub note_new : q.note ≡ note
    pub method_new : q.method ≡ method
    pub id_kept : q.id ≡ p.id
    pub account_kept : q.account ≡ p.account
    pub deleted_kept : q.deleted ≡ p.deleted
    pub invoice_kept : q.invoice_id ≡ p.invoice_id
    pub key_kept : q.form_key ≡ p.form_key
    pub preferred_kept : q.preferred_invoice_id ≡ p.preferred_invoice_id
    pub imported_kept : q.imported ≡ p.imported
    pub reversal_kept : q.reversal ≡ p.reversal

  -- If an update of a payment reports a change, the payment was there, was not deleted, is neither
  -- imported nor a reversal, and the amount rounded to whole cents is positive; afterwards the payment
  -- has that amount and the date, the note and the method given, all else of it is as it was, and the
  -- payment found under any other id is the one found before.
  pub update_payment_allowed :
      (id j : ℤ) (amount : D) (when : Date) (note method : Text) (b b' : Books D)
      → update_payment id amount when note method b ≡ ok (true, b')
      → (id ==ℤ j) ≡ false
      → (p : PaymentRow D) × (find_payment id b.payments ≡ some p)
        × (p.deleted ≡ false)
        × ((p.imported || p.reversal) ≡ false)
        × (d.is_positive (round_money amount) ≡ true)
        × ((q : PaymentRow D) × (find_payment id b'.payments ≡ some q)
            × IsUpdate (round_money amount) when note method p q)
        × (find_payment j b'.payments ≡ find_payment j b.payments)
  unfolding update_payment
  update_payment_allowed id j amount when note method b b' e other =
      let (positive, rest) =
        refuse_if-ok (not (d.is_positive (round_money amount))) payment_amount _ e in
      let (p, checked, returned) = first_of_chain _ (changeable_payment id b) rest in
      let (found, own) = changeable_payment_own id b checked in
      let same = ok-injective returned in
      elim (Bool-cases p.deleted) [
        | inl gone ↦
            let impossible : false ≡ true = ap (λ (x : Bool × Books D). x.0) (rw gone at same) in
            absurd (no impossible)
        | inr active ↦
            let change = with_values (round_money amount) when note method in
            let rows = sym (ap (λ (x : Bool × Books D). x.1.payments) (rw active at same)) in
            (
              p,
              found,
              active,
              own,
              true_of_not _ positive,
              (
                change p,
                ap (find_payment id) rows
                    ∙ find_payment-change_payment id change (λ x. refl) p b.payments found,
                updated p,
              ),
              ap (find_payment j) rows
                  ∙ find_payment-change_payment_elsewhere id j change (λ x. refl) b.payments other,
            )
      ]
    where
      no : false ≡ true → ⊥
      no e = cc

      updated :
          (p : PaymentRow D)
          → IsUpdate
              (round_money amount)
              when
              note
              method
              p
              (with_values (round_money amount) when note method p)
      updated p = record {
        amount_new = refl;
        date_new = refl;
        note_new = refl;
        method_new = refl;
        id_kept = refl;
        account_kept = refl;
        deleted_kept = refl;
        invoice_kept = refl;
        key_kept = refl;
        preferred_kept = refl;
        imported_kept = refl;
        reversal_kept = refl;
      }
