-- ===== src/Settlement/Documents.antt =====
-- The worth of the inputs after the documents are read: their gross, account by account.
use treckrr.Prelude.{
  true_of_not, ℤ, pos, ◌+ℤ◌, ◌≈◌, ◌≡◌, ◌==ℤ◌, refl, ap, ◌∙◌, false, not, ◌&&◌, Bool-cases, inl, inr,
  Option, none, some, List, [], ◌∷◌, ◌++◌, All, All-map, All-zip, Map, lookup, lookup-insert,
  get_or, insert, if◌then◌else◌, int_laws, parts_of_eq, subst, Result, ok, err, first_of_chain,
  refuse_if-ok, ok-injective,
}
use treckrr.Decimal.{Decimal, zero_parts}
use treckrr.Account.Data.{Key, same_account}
use treckrr.Invoices.Runs.{same_account-eq}
use treckrr.Allocation.Data.{Invoice}
use treckrr.Settlement.Inputs.{
  Inputs, Document, Target, Error, no_frozen_gross, credit_amount_or_date, credit_target,
  change_input, with_invoice, with_credit, target_of, read_documents, is_bad_credit, is_own_target,
  read_credits, add_invoices, allocation_invoice_inputs,
}
use treckrr.Settlement.Worth.{
  at_key, at_key-zero, account_worth, account_worth-grows, worth-with_invoice, worth-with_credit,
}
use treckrr.Settlement.Targets.{
  IsTable, targets_gross, targets_credit, credits_gross, IsTable-insert, targets_gross-insert,
  targets_credit-insert,
}

module _ {D : Type 0} ⦃d : Decimal D⦄ where
  open d use {units, zero, add}

  -- The gross of the account's invoices and credit notes among the rows.
  abbrev pub document_worth : Document D → ℤ
  document_worth row = elim row.gross [ none ↦ pos 0 | some g ↦ units g ]

  abbrev pub rows_gross : Key → List (Document D) → ℤ
  rows_gross j [] = pos 0
  rows_gross j (row ∷ rows) = at_key j row.account (document_worth row) +ℤ rows_gross j rows

  -- Rows of different ids.
  abbrev pub RowsApart : List (Document D) → Type 0
  RowsApart [] = Unit
  RowsApart (row ∷ rows) = All (λ q. (q.id ==ℤ row.id) ≡ false) rows × RowsApart rows

  credits_gross-append :
      (j : Key) (cs : List (Target D)) (c : Target D)
      → credits_gross j (cs ++ (c ∷ [])) ≈ credits_gross j cs +ℤ at_key j c.account (units c.gross)
  credits_gross-append j [] c = omega int_laws
  credits_gross-append j (b ∷ cs) c = omega (int_laws, credits_gross-append j cs c)

  account_worth-touched :
      (j k : Key) (inputs : Inputs D)
      → account_worth j (change_input k (λ i. i) inputs) ≈ account_worth j inputs
  account_worth-touched j k inputs = omega (
    int_laws,
    account_worth-grows j k (λ i. i) (pos 0) (λ i. omega int_laws) inputs,
    at_key-zero j k,
  )

  -- What a state of the first loop holds for an account.
  abbrev held : Key → Inputs D × Map (Target D) × List (Target D) → ℤ
  held j s = account_worth j s.0 +ℤ targets_gross j s.1 +ℤ credits_gross j s.2

  held-read_documents :
      (j : Key) (rows : List (Document D)) (inputs : Inputs D) (targets : Map (Target D))
      (credits : List (Target D)) {r : Inputs D × Map (Target D) × List (Target D)}
      → read_documents rows inputs targets credits ≡ ok r
      → IsTable targets
      → RowsApart rows
      → All (λ q. lookup q.id targets ≡ none) rows
      → (held j r ≈ held j (inputs, targets, credits) +ℤ rows_gross j rows) × IsTable r.1
  unfolding read_documents
  held-read_documents j [] inputs targets credits {r} e table _ _ =
      subst
        (λ (s : Inputs D × Map (Target D) × List (Target D)).
          (held j s ≈ held j (inputs, targets, credits) +ℤ pos 0) × IsTable s.1)
        (ok-injective e) (omega int_laws, table)
  held-read_documents j (row ∷ rows) inputs targets credits {r} e table (apart, rest_apart)
        (fresh, rest_fresh) =
      go row.gross refl e (λ inputs' targets' credits' e' table' fresh'.
        held-read_documents j rows inputs' targets' credits' e' table' rest_apart fresh')
    where
      go :
          (g : Option D)
          → row.gross ≡ g
          → ◌≡◌ {A = Result Error (Inputs D × Map (Target D) × List (Target D))}
              (elim g [
                | none ↦ err (no_frozen_gross row.id)
                | some gross ↦
                    read_documents rows
                      (change_input row.account (λ input. input) inputs)
                      (if row.is_invoice
                        then insert row.id (target_of row gross) targets
                        else targets)
                      (if row.is_invoice then credits else credits ++ (target_of row gross ∷ []))
              ])
              (ok r)
          → ((inputs' : Inputs D) (targets' : Map (Target D)) (credits' : List (Target D))
              → read_documents rows inputs' targets' credits' ≡ ok r
              → IsTable targets'
              → All {0, 0} (λ q. lookup q.id targets' ≡ none) rows
              → (held j r ≈ held j (inputs', targets', credits') +ℤ rows_gross j rows)
                × IsTable r.1)
          → (held j r ≈ held j (inputs, targets, credits) +ℤ rows_gross j (row ∷ rows))
            × IsTable r.1
      go none is e' onward = cc
      go (some g) is e' onward =
          let t = target_of row g in
          let inputs' = change_input row.account (λ input. input) inputs in
          let touched = account_worth-touched j row.account inputs in
          let amount : at_key j row.account (document_worth row) ≡ at_key j row.account (units g) =
            rw is refl in
          elim (Bool-cases row.is_invoice) [
            | inl invoice ↦
                let later : read_documents rows inputs' (insert row.id t targets) credits ≡ ok r =
                  rw invoice at e' in
                let still =
                  All-map _ (λ (q : Document D). lookup q.id (insert row.id t targets) ≡ none)
                    (λ q (other, free). lookup-insert row.id q.id t targets ∙ rw other free) rows
                    (All-zip (λ (q : Document D). (q.id ==ℤ row.id) ≡ false)
                      (λ q. lookup q.id targets ≡ none) rows apart rest_fresh) in
                let (sum, table') =
                  onward inputs' (insert row.id t targets) credits later
                    (IsTable-insert row.id t targets refl fresh table) still in
                (
                  omega (
                    int_laws,
                    sum,
                    touched,
                    parts_of_eq amount,
                    targets_gross-insert j row.id t targets fresh,
                  ),
                  table',
                )
            | inr credit ↦
                let later : read_documents rows inputs' targets (credits ++ (t ∷ [])) ≡ ok r =
                  rw credit at e' in
                let (sum, table') =
                  onward inputs' targets (credits ++ (t ∷ [])) later table rest_fresh in
                (
                  omega (
                    int_laws,
                    sum,
                    touched,
                    parts_of_eq amount,
                    credits_gross-append j credits t,
                  ),
                  table',
                )
          ]

  account_worth-add_invoices :
      (j : Key) (targets : Map (Target D)) (attached : Map D) (inputs : Inputs D)
      → account_worth j (add_invoices targets attached inputs)
        ≈ account_worth j inputs +ℤ targets_gross j targets +ℤ targets_credit j targets attached
  unfolding add_invoices
  account_worth-add_invoices j [] attached inputs = omega int_laws
  account_worth-add_invoices j ((id, t) ∷ targets) attached inputs =
      let credit = get_or t.id zero attached in
      let v : Invoice D = record {
        id = t.id;
        issued_on = t.issued_on;
        gross = t.gross;
        attached_credit = credit;
      } in
      let split : at_key j t.account (units t.gross +ℤ units credit)
          ≈ at_key j t.account (units t.gross) +ℤ at_key j t.account (units credit) =
        elim (Bool-cases (same_account t.account j)) [
          | inl e ↦ rw e (omega int_laws)
          | inr e ↦ rw e (omega int_laws)
        ] in
      omega (
        int_laws,
        split,
        account_worth-grows j t.account (with_invoice v) (units t.gross +ℤ units credit)
            (worth-with_invoice v) inputs,
        account_worth-add_invoices j targets attached
            (change_input t.account (with_invoice v) inputs),
      )

  -- The second loop: an attached credit goes to an invoice of its own account.
  account_worth-read_credits :
      (j : Key) (cs : List (Target D)) (targets : Map (Target D)) (inputs : Inputs D)
      (attached : Map D) {r : Inputs D × Map D}
      → read_credits cs targets inputs attached ≡ ok r
      → IsTable targets
      → account_worth j r.0 +ℤ targets_credit j targets r.1
        ≈ account_worth j inputs +ℤ targets_credit j targets attached +ℤ credits_gross j cs
  unfolding read_credits
  account_worth-read_credits j [] targets inputs attached e table = omega (
    int_laws,
    parts_of_eq (
        ap (λ (s : Inputs D × Map D). account_worth j s.0 +ℤ targets_credit j targets s.1)
          (ok-injective e)),
  )
  account_worth-read_credits j (c ∷ cs) targets inputs attached {r} e table =
      let standalone = c.reference_id ==ℤ pos 0 in
      let (_, e1) = refuse_if-ok (is_bad_credit c) (credit_amount_or_date c.id) _ e in
      let (own, e2) =
        refuse_if-ok (not standalone && not (is_own_target c (lookup c.reference_id targets)))
          (credit_target c.id) _ e1 in
      elim (Bool-cases (c.reference_id ==ℤ pos 0)) [
        | inl alone ↦
            let inputs' = change_input c.account (with_credit c.gross) inputs in
            let later : read_credits cs targets inputs' attached ≡ ok r = rw alone at e2 in
            omega (
              int_laws,
              account_worth-read_credits j cs targets inputs' attached later table,
              account_worth-grows j c.account (with_credit c.gross) (units c.gross)
                  (worth-with_credit c.gross) inputs,
            )
        | inr tied ↦
            let sum = add (get_or c.reference_id zero attached) c.gross in
            let later : read_credits cs targets inputs (insert c.reference_id sum attached) ≡ ok r =
              rw tied at e2 in
            let (t, found, same) =
              target_found c (lookup c.reference_id targets) (rw tied at own) in
            let place : at_key j t.account (units c.gross) ≡ at_key j c.account (units c.gross) =
              ap (λ k. at_key j k (units c.gross)) same in
            omega (
              int_laws,
              account_worth-read_credits j cs targets inputs (insert c.reference_id sum attached)
                  later table,
              targets_credit-insert j c.reference_id c.gross targets attached t table found,
              parts_of_eq place,
            )
      ]
    where
      target_found :
          (x : Target D) (o : Option (Target D))
          → not (is_own_target x o) ≡ false
          → (t : Target D) × (o ≡ some t) × (t.account ≡ x.account)
      target_found x none h = cc
      target_found x (some t) h = (t, refl, same_account-eq t.account x.account (true_of_not _ h))

  nothing_attached : (j : Key) (m : Map (Target D)) → targets_credit j m [] ≈ pos 0
  nothing_attached j [] = omega int_laws
  nothing_attached j ((i, t) ∷ m) =
      let part : at_key j t.account (units zero) ≈ pos 0 =
        elim (Bool-cases (same_account t.account j)) [
          | inl e ↦ rw e (omega (int_laws, zero_parts D))
          | inr e ↦ rw e (omega int_laws)
        ] in
      omega (int_laws, part, nothing_attached j m)

  pub account_worth-allocation_invoice_inputs :
      (j : Key) (rows : List (Document D)) {r : Inputs D}
      → allocation_invoice_inputs rows ≡ ok r
      → RowsApart rows
      → account_worth j r ≈ rows_gross j rows
  unfolding allocation_invoice_inputs
  account_worth-allocation_invoice_inputs j rows {r} e apart =
      let (s, reads, e1) = first_of_chain _ (read_documents rows [] [] []) e in
      let (c, credits, e2) = first_of_chain _ (read_credits s.2 s.1 s.0 []) e1 in
      let (sum, table) = held-read_documents j rows [] [] [] reads tt apart (all_free rows) in
      omega (
        int_laws,
        sum,
        account_worth-read_credits j s.2 s.1 s.0 [] credits table,
        nothing_attached j s.1,
        account_worth-add_invoices j s.1 c.1 c.0,
        parts_of_eq (ap (λ (x : Inputs D). account_worth j x) (ok-injective e2)),
      )
    where
      all_free :
          (rs : List (Document D)) → All {0, 0} (λ q. lookup {V = Target D} q.id [] ≡ none) rs
      all_free [] = tt
      all_free (q ∷ rs) = (refl, all_free rs)
