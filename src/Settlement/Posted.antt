-- ===== src/Settlement/Posted.antt =====
-- The sums of the ledger on their way into the inputs, and the inputs that hold none yet.
use treckrr.Prelude.{
  ℤ, pos, ◌+ℤ◌, ◌≈◌, ◌≡◌, ◌==ℤ◌, sym, ap, ◌∙◌, true, false, Bool-cases, inl, inr, Option, none,
  some, List, [], ◌∷◌, ◌++◌, All, All-map, All-zip, Map, get_or, insert, if◌then◌else◌, int_laws,
  subst, Result, ok, err, first_of_chain, refuse_if-ok, ok-injective,
}
use treckrr.Decimal.{Decimal, zero_parts}
use treckrr.Account.Data.{Key, same_account}
use treckrr.Invoices.Runs.{same_account-eq}
use treckrr.Allocation.Data.{Input}
use treckrr.Settlement.Inputs.{
  Inputs, Document, Target, PaymentEntry, Error, no_frozen_gross, credit_amount_or_date,
  credit_target, reversal_account, no_input, change_input, with_invoice, with_credit, with_payment,
  with_ledger, target_of, read_documents, is_bad_credit, read_credits, add_invoices,
  allocation_invoice_inputs, read_payments, add_payments, allocation_payment_inputs,
  allocation_ledger_inputs,
}
use treckrr.Settlement.Worth.{account_worth, account_worth-change_input, worth-with_ledger}
use treckrr.Settlement.Rows.{rows_posted}

module _ {D : Type 0} ⦃d : Decimal D⦄ where
  open d use {units, zero, add}

  -- Nothing of the ledger is in an input of the account.
  abbrev pub HasNone : Key → Inputs D → Type 0
  HasNone k inputs = All (λ e. same_account e.0 k ≡ true → units e.1.ledger ≈ pos 0) inputs

  -- One sum for each account.
  abbrev pub SumsApart : List (Key × D) → Type 0
  SumsApart [] = Unit
  SumsApart (s ∷ sums) = All (λ t. same_account s.0 t.0 ≡ false) sums × SumsApart sums

  HasNone-change_input :
      (j k : Key) (change : Input D → Input D)
      → ((i : Input D)
          → same_account k j ≡ true
          → units i.ledger ≈ pos 0
          → units (change i).ledger ≈ pos 0)
      → (inputs : Inputs D) → HasNone j inputs
      → HasNone j (change_input k change inputs)
  unfolding change_input
  HasNone-change_input j k change keeps [] _ =
      (λ here. keeps no_input here (omega (int_laws, zero_parts D)), tt)
  HasNone-change_input j k change keeps ((i, input) ∷ rest) (own, others) =
      let later = HasNone-change_input j k change keeps rest others in
      elim (Bool-cases (same_account i k)) [
        | inl e ↦
            let same : i ≡ k = same_account-eq i k e in
            rw e (
              λ here. keeps input (ap (λ (n : Key). same_account n j) (sym same) ∙ here) (own here),
              others,
            )
        | inr e ↦ rw e (own, later)
      ]

  -- The loops before the ledger's leave it alone.
  HasNone-read_documents :
      (j : Key) (rows : List (Document D)) (inputs : Inputs D) (targets : Map (Target D))
      (credits : List (Target D)) {r : Inputs D × Map (Target D) × List (Target D)}
      → read_documents rows inputs targets credits ≡ ok r
      → HasNone j inputs
      → HasNone j r.0
  unfolding read_documents
  HasNone-read_documents j [] inputs targets credits e clean =
      subst (λ (s : Inputs D × Map (Target D) × List (Target D)). HasNone j s.0) (ok-injective e)
        clean
  HasNone-read_documents j (row ∷ rows) inputs targets credits {r} e clean =
      go row.gross e (λ targets' credits' e'.
        HasNone-read_documents j rows (change_input row.account (λ input. input) inputs) targets'
          credits' e'
          (HasNone-change_input j row.account (λ input. input) (λ i _ h. h) inputs clean))
    where
      go :
          (g : Option D)
          → ◌≡◌ {A = Result Error (Inputs D × Map (Target D) × List (Target D))}
              (elim g [
                | none ↦ err (no_frozen_gross row.id)
                | some gross ↦
                    read_documents rows
                      (change_input row.account (λ input. input) inputs)
                      (if row.is_invoice
                        then insert row.id (target_of row gross) targets
                        else targets)
                      (if row.is_invoice then credits else credits ++ (target_of row gross ∷ []))
              ])
              (ok r)
          → ((targets' : Map (Target D)) (credits' : List (Target D))
              → read_documents rows
                  (change_input row.account (λ input. input) inputs)
                  targets'
                  credits'
                ≡ ok r
              → HasNone j r.0)
          → HasNone j r.0
      go none e' onward = cc
      go (some g) e' onward = onward _ _ e'

  HasNone-read_credits :
      (j : Key) (cs : List (Target D)) (targets : Map (Target D)) (inputs : Inputs D)
      (attached : Map D) {r : Inputs D × Map D}
      → read_credits cs targets inputs attached ≡ ok r
      → HasNone j inputs
      → HasNone j r.0
  unfolding read_credits
  HasNone-read_credits j [] targets inputs attached e clean =
      subst (λ (s : Inputs D × Map D). HasNone j s.0) (ok-injective e) clean
  HasNone-read_credits j (c ∷ cs) targets inputs attached {r} e clean =
      let (_, e1) = refuse_if-ok (is_bad_credit c) (credit_amount_or_date c.id) _ e in
      let (_, e2) = refuse_if-ok _ (credit_target c.id) _ e1 in
      let inputs' = change_input c.account (with_credit c.gross) inputs in
      let clean' =
        HasNone-change_input j c.account (with_credit c.gross) (λ i _ h. h) inputs clean in
      HasNone-read_credits j cs targets (if c.reference_id ==ℤ pos 0 then inputs' else inputs)
        (if c.reference_id ==ℤ pos 0
          then attached
          else insert c.reference_id (add (get_or c.reference_id zero attached) c.gross) attached)
        e2
        (elim (Bool-cases (c.reference_id ==ℤ pos 0)) [
          | inl alone ↦ rw alone clean'
          | inr tied ↦ rw tied clean
        ])

  HasNone-add_invoices :
      (j : Key) (targets : Map (Target D)) (attached : Map D) (inputs : Inputs D)
      → HasNone j inputs
      → HasNone j (add_invoices targets attached inputs)
  unfolding add_invoices
  HasNone-add_invoices j [] attached inputs clean = clean
  HasNone-add_invoices j ((id, t) ∷ targets) attached inputs clean =
      HasNone-add_invoices j targets attached _ (
        HasNone-change_input j t.account
          (with_invoice (record {
            id = t.id;
            issued_on = t.issued_on;
            gross = t.gross;
            attached_credit = get_or t.id zero attached;
          }))
          (λ i _ h. h) inputs clean)

  pub HasNone-allocation_invoice_inputs :
      (j : Key) (rows : List (Document D)) {r : Inputs D}
      → allocation_invoice_inputs rows ≡ ok r
      → HasNone j r
  unfolding allocation_invoice_inputs
  HasNone-allocation_invoice_inputs j rows e =
      let (s, reads, e1) = first_of_chain _ (read_documents rows [] [] []) e in
      let (c, credits, e2) = first_of_chain _ (read_credits s.2 s.1 s.0 []) e1 in
      subst (λ (x : Inputs D). HasNone j x) (ok-injective e2)
        (HasNone-add_invoices j s.1 c.1 c.0 (
          HasNone-read_credits j s.2 s.1 s.0 [] credits
            (HasNone-read_documents j rows [] [] [] reads tt)))

  HasNone-add_payments :
      (j : Key) (es : List (PaymentEntry D)) (owners : Map Key) (inputs : Inputs D) {r : Inputs D}
      → add_payments es owners inputs ≡ ok r
      → HasNone j inputs
      → HasNone j r
  unfolding add_payments
  HasNone-add_payments j [] owners inputs e clean =
      subst (λ (x : Inputs D). HasNone j x) (ok-injective e) clean
  HasNone-add_payments j (row ∷ es) owners inputs e clean =
      let (_, rest) = refuse_if-ok _ (reversal_account row.payment.id) _ e in
      HasNone-add_payments j es owners _ rest
        (HasNone-change_input j row.account (with_payment row.payment) (λ i _ h. h) inputs clean)

  pub HasNone-allocation_payment_inputs :
      (j : Key) (rows : List (PaymentEntry D)) (inputs : Inputs D) {r : Inputs D}
      → allocation_payment_inputs rows inputs ≡ ok r
      → HasNone j inputs
      → HasNone j r
  unfolding allocation_payment_inputs
  HasNone-allocation_payment_inputs j rows inputs e clean =
      let (read, _, rest) = first_of_chain _ (read_payments rows [] []) e in
      HasNone-add_payments j read.1 read.0 inputs rest clean

  pub account_worth-allocation_ledger_inputs :
      (j : Key) (sums : List (Key × D)) (inputs : Inputs D)
      → SumsApart sums
      → All (λ s. HasNone s.0 inputs) sums
      → account_worth j (allocation_ledger_inputs sums inputs)
        ≈ account_worth j inputs +ℤ rows_posted j sums
  unfolding allocation_ledger_inputs
  account_worth-allocation_ledger_inputs j [] inputs _ _ = omega int_laws
  account_worth-allocation_ledger_inputs j ((k, a) ∷ sums) inputs (apart, rest) (clean, cleans) =
      let next = change_input k (with_ledger a) inputs in
      let still : All (λ s. HasNone s.0 next) sums =
        All-map _ (λ (s : Key × D). HasNone s.0 next)
          (λ s (other, own).
            HasNone-change_input s.0 k (with_ledger a)
              (λ i here _. clash (units a) (sym other ∙ here)) inputs own)
          sums
          (All-zip (λ (t : Key × D). same_account k t.0 ≡ false) (λ s. HasNone s.0 inputs) sums
            apart cleans) in
      omega (
        int_laws,
        account_worth-change_input (λ i. units i.ledger ≈ pos 0) j k (with_ledger a) (units a)
            (omega (int_laws, zero_parts D)) (worth-with_ledger a) inputs clean,
        account_worth-allocation_ledger_inputs j sums next rest still,
      )
    where
      clash : (x : ℤ) → false ≡ true → x ≈ pos 0
      clash x e = cc
