-- ===== src/BankImport/Batches.antt =====
-- A batch of a camt message is taken whole or not at all.
use treckrr.Prelude.{
  ◌≈◌, ◌≡◌, refl, sym, ap, ◌∙◌, int_laws, parts_of_eq, true, ◌&&◌, Bool-cases, inl, inr, ◌⊎◌,
  Option-cases, some, [], ◌∷◌, subst, ==ℤ_iff, ◌==ℤ◌,
}
use treckrr.Decimal.{Decimal, add_parts, zero_parts}
use treckrr.Text.{Text, text, is_empty, trim_space}
use treckrr.BankImport.Amount.{Banking, Txn, parse_date, credit_amount}
use treckrr.BankImport.Camt.{
  CamtEntry, entry_date, with_reference_hash, split_batch, sum_amounts, single_txn, is_batch,
  entry_credits, camt_entry,
}

module _ {D : Type 0} ⦃d : Decimal D⦄ (k : Banking D) where
  open d use {units}

  pub with_reference_hash-amount :
      (reference suffix : Text) (t : Txn D)
      → (with_reference_hash k reference suffix t).amount ≡ t.amount
  with_reference_hash-amount reference suffix t =
      elim (Bool-cases (is_empty (trim_space reference))) [ inl e ↦ rw e refl | inr e ↦ rw e refl ]

  entry_credits-whole :
      (e : CamtEntry) (a : D)
      → (entry_credits k e a ≡ []) ⊎ (units (sum_amounts k d.zero (entry_credits k e a)) ≈ units a)
  unfolding entry_credits sum_amounts
  entry_credits-whole e a =
      let bookg = parse_date k (entry_date e.bookg_dt) in
      let split = split_batch k e bookg in
      elim (Bool-cases (is_batch e.details)) [
        | inl batch ↦ elim (Bool-cases (d.equal (sum_amounts k d.zero split) a)) [
          | inl whole ↦
              let same : entry_credits k e a ≡ split = rw (batch, entry_credits) (rw whole refl) in
              let equal : (units (sum_amounts k d.zero split) ==ℤ units a) ≡ true =
                sym (d.equal_lem (sum_amounts k d.zero split) a) ∙ whole in
              inr (
                subst (λ ts. units (sum_amounts k d.zero ts) ≈ units a) (sym same)
                  (parts_of_eq {a = units (sum_amounts k d.zero split)} {b = units a}
                    ((==ℤ_iff (units (sum_amounts k d.zero split)) (units a)).0 equal)))
          | inr other ↦ inl (rw (batch, entry_credits) (rw other refl))
        ]
        | inr single ↦
            let t = single_txn k e bookg a in
            let same : entry_credits k e a ≡ t ∷ [] = rw (single, entry_credits) refl in
            let amount : t.amount ≡ a = with_reference_hash-amount e.acct_svcr_ref [] _ in
            let sum : units (d.add d.zero t.amount) ≈ units a =
              omega (
                int_laws,
                add_parts d.zero t.amount,
                zero_parts D,
                parts_of_eq (ap units amount),
              ) in
            inr (subst (λ ts. units (sum_amounts k d.zero ts) ≈ units a) (sym same) sum)
      ]

  -- An entry of a camt message yields no credit, or credits that together come to the entry's amount: a
  -- batch is taken whole or not at all.
  pub camt_entry-whole :
      (e : CamtEntry)
      → (camt_entry k e ≡ [])
        ⊎ ((a : D) × (credit_amount k e.amt.value ≡ some a)
            × (units (sum_amounts k d.zero (camt_entry k e)) ≈ units a))
  unfolding camt_entry
  camt_entry-whole e =
      elim (Bool-cases (
        k.equal_fold (trim_space e.cdt_dbt_ind) (text "CRDT")
        && k.equal_fold (trim_space e.amt.ccy) (text "EUR"))) [
          | inr other ↦ inl (rw (other, camt_entry) refl)
          | inl euro ↦ elim (Option-cases (credit_amount k e.amt.value)) [
            | inl missing ↦ inl (rw (euro, camt_entry) (rw missing refl))
            | inr (a, found) ↦
                let same : camt_entry k e ≡ entry_credits k e a =
                  rw (euro, camt_entry) (rw found refl) in
                elim (entry_credits-whole e a) [
                  | inl nothing ↦ inl (same ∙ nothing)
                  | inr whole ↦ inr (
                    a,
                    found,
                    subst (λ ts. units (sum_amounts k d.zero ts) ≈ units a) (sym same) whole,
                  )
                ]
          ]
        ]
