-- ===== src/Account/Effects.antt =====
-- What a payment and a ledger posting do to the balance of each account.
use treckrr.Prelude.{
  pos, ◌+ℤ◌, ◌-ℤ◌, ◌≈◌, ◌≡◌, refl, Bool, inl, inr, Bool-cases, List, [], ◌∷◌, ◌++◌, if◌then◌else◌,
  int_laws, eq_of_parts, ap, ◌∙◌, sym,
}
use treckrr.Decimal.{Decimal, add_parts, sub_parts, round_half_away}
use treckrr.Account.Data.{Key, LedgerRow, PaymentRow, Books, Audit}
use treckrr.Account.Balance.{
  counts_invoice, counts_credit, counts_entry, counts_ledger, counts_payment, document_gross,
  sum_where, balance, remaining,
}
use treckrr.Account.Operations.{insert_payment, insert_posting, add_audit}

module _ {D : Type 0} ⦃d : Decimal D⦄ where
  open d use {units}

  pub sum_where-append {ℓ} :
      {A : Type ℓ} (keep : A → Bool) (amount : A → D) (xs : List A) (x : A)
      → units (sum_where keep amount (xs ++ (x ∷ [])))
        ≈ units (sum_where keep amount xs) +ℤ (if keep x then units (amount x) else pos 0)
  unfolding sum_where
  sum_where-append keep amount [] x = elim (Bool-cases (keep x)) [
    | inl e ↦ rw e (omega (int_laws, add_parts (amount x) d.zero))
    | inr e ↦ rw e (omega int_laws)
  ]
  sum_where-append keep amount (y ∷ ys) x = elim (Bool-cases (keep y)) [
    | inl e ↦ rw e (
        omega (
          int_laws,
          sum_where-append keep amount ys x,
          add_parts (amount y) (sum_where keep amount ys),
          add_parts (amount y) (sum_where keep amount (ys ++ (x ∷ []))),
        ))
    | inr e ↦ rw e (sum_where-append keep amount ys x)
  ]

  module _ (b : Books D) (k : Key) where
    abbrev invoiced : D
    invoiced = sum_where (counts_invoice k) document_gross b.documents

    abbrev unbilled : D
    unbilled = sum_where (counts_entry k) (λ r. r.cost) b.entries

    abbrev credited : D
    credited = sum_where (counts_credit k) document_gross b.documents

    abbrev posted : D
    posted = sum_where (counts_ledger k) (λ r. r.amount) b.ledger

    abbrev paid : D
    paid = sum_where (counts_payment k) (λ r. r.amount) b.payments

    pub balance_value :
        units (balance b k)
        ≈ units invoiced +ℤ units unbilled +ℤ units credited +ℤ units posted -ℤ units paid
    unfolding balance
    balance_value = omega (
      int_laws,
      sub_parts (d.add (d.add (d.add invoiced unbilled) credited) posted) paid,
      add_parts (d.add (d.add invoiced unbilled) credited) posted,
      add_parts (d.add invoiced unbilled) credited,
      add_parts invoiced unbilled,
    )

  pub balance-insert_payment :
      (r : PaymentRow D) (line : Audit D) (b : Books D) (k : Key)
      → units (balance (insert_payment r line b) k)
        ≈ units (balance b k) -ℤ (if counts_payment k r then units r.amount else pos 0)
  balance-insert_payment r line b k = omega (
    int_laws,
    balance_value b k,
    balance_value (insert_payment r line b) k,
    sum_where-append (counts_payment k) (λ (x : PaymentRow D). x.amount) b.payments r,
  )

  pub balance-insert_posting :
      (r : LedgerRow D) (b : Books D) (k : Key)
      → units (balance (insert_posting r b) k)
        ≈ units (balance b k) +ℤ (if counts_ledger k r then units r.amount else pos 0)
  balance-insert_posting r b k = omega (
    int_laws,
    balance_value b k,
    balance_value (insert_posting r b) k,
    sum_where-append (counts_ledger k) (λ (x : LedgerRow D). x.amount) b.ledger r,
  )

  pub balance-add_audit :
      (line : Audit D) (b : Books D) (k : Key) → balance (add_audit line b) k ≡ balance b k
  unfolding balance
  balance-add_audit line b k = refl

  -- What is left to pay goes by the value of the balance alone.
  pub remaining_units :
      (b : Books D) (k : Key) → units (remaining b k) ≡ round_half_away d.cent (units (balance b k))
  unfolding remaining
  remaining_units b k = d.units-round_cents (balance b k)

  pub remaining_congr :
      (b b' : Books D) (k k' : Key)
      → units (balance b k) ≈ units (balance b' k')
      → units (remaining b k) ≡ units (remaining b' k')
  remaining_congr b b' k k' e =
      remaining_units b k
      ∙ (ap (round_half_away d.cent) (eq_of_parts _ _ e) ∙ sym (remaining_units b' k'))
