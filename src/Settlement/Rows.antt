-- ===== src/Settlement/Rows.antt =====
-- Payments and postings of the ledger on their way from the selected rows into the inputs.
use treckrr.Prelude.{
  ℤ, pos, ◌+ℤ◌, ◌-ℤ◌, ◌≈◌, ◌≡◌, refl, ap, not, ◌&&◌, Bool-cases, inl, inr, List, [], ◌∷◌, ◌++◌, Map,
  insert, int_laws, parts_of_eq, ok, first_of_chain, refuse_if-ok, ok-injective,
}
use treckrr.Decimal.{Decimal}
use treckrr.Account.Data.{Key, same_account}
use treckrr.Settlement.Inputs.{
  Inputs, PaymentEntry, payment_target, reversal_account, change_input, with_payment,
  is_good_preference, prefers, lost_preference, released, read_payments, add_payments,
  allocation_payment_inputs,
}
use treckrr.Settlement.Worth.{at_key, account_worth, account_worth-grows, worth-with_payment}

module _ {D : Type 0} ⦃d : Decimal D⦄ where
  open d use {units, zero}

  -- The payments of one account among the rows.
  abbrev pub rows_paid : Key → List (PaymentEntry D) → ℤ
  rows_paid j [] = pos 0
  rows_paid j (e ∷ es) = at_key j e.account (units e.payment.amount) +ℤ rows_paid j es

  -- The sums of the ledger of one account among the rows.
  abbrev pub rows_posted : Key → List (Key × D) → ℤ
  rows_posted j [] = pos 0
  rows_posted j ((k, a) ∷ sums) = at_key j k (units a) +ℤ rows_posted j sums

  rows_paid-append :
      (j : Key) (es : List (PaymentEntry D)) (e : PaymentEntry D)
      → rows_paid j (es ++ (e ∷ [])) ≈ rows_paid j es +ℤ at_key j e.account (units e.payment.amount)
  rows_paid-append j [] e = omega int_laws
  rows_paid-append j (f ∷ es) e = omega (int_laws, rows_paid-append j es e)

  rows_paid-released :
      (j : Key) (e : PaymentEntry D)
      → at_key j (released e).account (units (released e).payment.amount)
        ≡ at_key j e.account (units e.payment.amount)
  rows_paid-released j e = elim (Bool-cases (prefers e && lost_preference e)) [
    | inl lost ↦ rw lost refl
    | inr kept ↦ rw kept refl
  ]

  rows_paid-read_payments :
      (j : Key) (rows : List (PaymentEntry D)) (owners : Map Key) (payments : List (PaymentEntry D))
      {r : Map Key × List (PaymentEntry D)}
      → read_payments rows owners payments ≡ ok r
      → rows_paid j r.1 ≈ rows_paid j payments +ℤ rows_paid j rows
  unfolding read_payments
  rows_paid-read_payments j [] owners payments e = omega (
    int_laws,
    parts_of_eq (ap (λ (x : Map Key × List (PaymentEntry D)). rows_paid j x.1) (ok-injective e)),
  )
  rows_paid-read_payments j (row ∷ rows) owners payments e =
      let (_, rest) =
        refuse_if-ok (prefers row && not (is_good_preference row)) (payment_target row.payment.id) _
          e in
      omega (
        int_laws,
        rows_paid-read_payments j rows (insert row.payment.id row.account owners)
            (payments ++ (released row ∷ [])) rest,
        rows_paid-append j payments (released row),
        parts_of_eq (rows_paid-released j row),
      )

  account_worth-add_payments :
      (j : Key) (es : List (PaymentEntry D)) (owners : Map Key) (inputs : Inputs D) {r : Inputs D}
      → add_payments es owners inputs ≡ ok r
      → account_worth j r ≈ account_worth j inputs -ℤ rows_paid j es
  unfolding add_payments
  account_worth-add_payments j [] owners inputs e =
      omega (int_laws, parts_of_eq (ap (λ (x : Inputs D). account_worth j x) (ok-injective e)))
  account_worth-add_payments j (row ∷ es) owners inputs e =
      let (_, rest) = refuse_if-ok _ (reversal_account row.payment.id) _ e in
      let next = change_input row.account (with_payment row.payment) inputs in
      let amount = units row.payment.amount in
      let minus : at_key j row.account (pos 0 -ℤ amount) ≈ pos 0 -ℤ at_key j row.account amount =
        elim (Bool-cases (same_account row.account j)) [
          | inl here ↦ rw here (omega int_laws)
          | inr there ↦ rw there (omega int_laws)
        ] in
      omega (
        int_laws,
        account_worth-add_payments j es owners next rest,
        account_worth-grows j row.account (with_payment row.payment) (pos 0 -ℤ amount)
            (worth-with_payment row.payment) inputs,
        minus,
      )

  pub account_worth-allocation_payment_inputs :
      (j : Key) (rows : List (PaymentEntry D)) (inputs : Inputs D) {r : Inputs D}
      → allocation_payment_inputs rows inputs ≡ ok r
      → account_worth j r ≈ account_worth j inputs -ℤ rows_paid j rows
  unfolding allocation_payment_inputs
  account_worth-allocation_payment_inputs j rows inputs e =
      let (read, reads, rest) = first_of_chain _ (read_payments rows [] []) e in
      omega (
        int_laws,
        rows_paid-read_payments j rows [] [] reads,
        account_worth-add_payments j read.1 read.0 inputs rest,
      )
