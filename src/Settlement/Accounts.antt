-- ===== src/Settlement/Accounts.antt =====
-- What a read of the allocations of several accounts guarantees.
use treckrr.Prelude.{
  int_laws, ◌+ℤ◌, ◌-ℤ◌, ◌≈◌, All, ◌≡◌, List, [], ◌∷◌, Result, ok, err, first_of_chain, ok-injective,
  subst,
}
use treckrr.Decimal.{Decimal}
use treckrr.Account.Data.{Key}
use treckrr.Allocation.Data.{Input}
use treckrr.Allocation.Data as Allocation
use treckrr.Settlement.Summary.{Summary, summarize, IsAccounted, summarize-IsAccounted}
use treckrr.Settlement.Inputs.{
  Inputs, Document, PaymentEntry, Error, plan_refused, allocation_invoice_inputs,
  allocation_payment_inputs, allocation_ledger_inputs, summarize_account, summarize_all,
  invoice_allocations,
}
use treckrr.Settlement.Worth.{account_worth}
use treckrr.Settlement.Rows.{rows_paid, rows_posted, account_worth-allocation_payment_inputs}
use treckrr.Settlement.Documents.{RowsApart, rows_gross, account_worth-allocation_invoice_inputs}
use treckrr.Settlement.Posted.{
  HasNone, SumsApart, HasNone-allocation_invoice_inputs, HasNone-allocation_payment_inputs,
  account_worth-allocation_ledger_inputs,
}

module _ {D : Type 0} ⦃d : Decimal D⦄ where
  abbrev pub IsAccountedFor : Key × Summary D → Type 0
  IsAccountedFor s = All IsAccounted s.1.invoices

  plan_of : Key → Result Allocation.Error (Summary D) → Result Error (Summary D)
  plan_of k r = elim r [ err e ↦ err (plan_refused k e) | ok s ↦ ok s ]

  plan_of-ok :
      (k : Key) (r : Result Allocation.Error (Summary D)) {s : Summary D}
      → plan_of k r ≡ ok s
      → r ≡ ok s
  unfolding plan_of
  plan_of-ok k (err x) e = cc
  plan_of-ok k (ok x) e = cc

  summarize_account-IsAccounted :
      (k : Key) (input : Input D) {s : Summary D}
      → summarize_account k input ≡ ok s
      → All IsAccounted s.invoices
  unfolding summarize_account plan_of
  summarize_account-IsAccounted k input e =
      summarize-IsAccounted input (plan_of-ok k (summarize input) e)

  summarize_all-IsAccounted :
      (inputs : Inputs D) {summaries : List (Key × Summary D)}
      → summarize_all inputs ≡ ok summaries
      → All IsAccountedFor summaries
  unfolding summarize_all
  summarize_all-IsAccounted [] e = subst (λ x. All IsAccountedFor x) (ok-injective e) tt
  summarize_all-IsAccounted ((k, input) ∷ rest) e =
      let (s, here, later) = first_of_chain _ (summarize_account k input) e in
      let (others, there, returned) = first_of_chain _ (summarize_all rest) later in
      subst (λ x. All IsAccountedFor x) (ok-injective returned)
        (summarize_account-IsAccounted k input here, summarize_all-IsAccounted rest there)

  -- If the allocations of all accounts are read without an error, from documents of different ids and
  -- one ledger sum for each account, then the inputs that are summarized hold for any account exactly
  -- the gross of its invoices and credit notes among the rows and its ledger sum, less its payments;
  -- and in every summary each invoice's open amount, its applied offset and its payments add up to its
  -- gross less its credit notes (or nothing, if that is negative), the payments are the sum of their
  -- listed parts, and the open amount is not negative.
  pub invoice_allocations-account_worth :
      (documents : List (Document D)) (payments : List (PaymentEntry D)) (sums : List (Key × D))
      (j : Key) {summaries : List (Key × Summary D)}
      → invoice_allocations documents payments sums ≡ ok summaries
      → RowsApart documents
      → SumsApart sums
      → (inputs : Inputs D) × (summarize_all inputs ≡ ok summaries)
        × (account_worth j inputs
            ≈ rows_gross j documents +ℤ rows_posted j sums -ℤ rows_paid j payments)
        × All IsAccountedFor summaries
  unfolding invoice_allocations
  invoice_allocations-account_worth documents payments sums j e apart sums_apart =
      let (inputs, reads, rest) = first_of_chain _ (allocation_invoice_inputs documents) e in
      let (paid, pays, done) = first_of_chain _ (allocation_payment_inputs payments inputs) rest in
      let clean : All (λ s. HasNone s.0 paid) sums =
        all_clean paid
          (λ k.
            HasNone-allocation_payment_inputs k payments inputs pays
              (HasNone-allocation_invoice_inputs k documents reads))
          sums in
      (
        allocation_ledger_inputs sums paid,
        done,
        omega (
          int_laws,
          account_worth-allocation_invoice_inputs j documents reads apart,
          account_worth-allocation_payment_inputs j payments inputs pays,
          account_worth-allocation_ledger_inputs j sums paid sums_apart clean,
        ),
        summarize_all-IsAccounted (allocation_ledger_inputs sums paid) done,
      )
    where
      all_clean :
          (paid : Inputs D)
          → ((k : Key) → HasNone k paid)
          → (ts : List (Key × D)) → All {0, 0} (λ t. HasNone t.0 paid) ts
      all_clean paid clean [] = tt
      all_clean paid clean (t ∷ ts) = (clean t.0, all_clean paid clean ts)
