-- ===== src/Settlement/Worth.antt =====
-- What the inputs of the accounts are worth, and what changing one of them does to it.
use treckrr.Prelude.{
  ℤ, pos, ◌+ℤ◌, ◌-ℤ◌, ◌≈◌, ◌≡◌, sym, true, Bool-cases, inl, inr, List, [], ◌∷◌, ◌++◌, All,
  if◌then◌else◌, int_laws, subst,
}
use treckrr.Decimal.{Decimal, add_parts, zero_parts}
use treckrr.Account.Data.{Key, same_account}
use treckrr.Invoices.Runs.{same_account-eq}
use treckrr.Allocation.Data.{Invoice, Payment, Input}
use treckrr.Allocation.Claims.{claims_sum}
use treckrr.Allocation.Payments.{amounts}
use treckrr.Settlement.Inputs.{
  Inputs, no_input, change_input, with_invoice, with_credit, with_payment, with_ledger,
}

-- What of `x` at `k` counts for `j`.
abbrev pub at_key : Key → Key → ℤ → ℤ
at_key j k x = if same_account k j then x else pos 0

pub at_key_parts :
    (j k : Key) (x y z : ℤ) → x ≈ y +ℤ z → at_key j k x ≈ at_key j k y +ℤ at_key j k z
at_key_parts j k x y z e = elim (Bool-cases (same_account k j)) [
  | inl same ↦ rw same e
  | inr other ↦ rw other (omega int_laws)
]

pub at_key-zero : (j k : Key) → at_key j k (pos 0) ≈ pos 0
at_key-zero j k = elim (Bool-cases (same_account k j)) [
  | inl e ↦ rw e (omega int_laws)
  | inr e ↦ rw e (omega int_laws)
]

module _ {D : Type 0} ⦃d : Decimal D⦄ where
  open d use {units, zero, add}

  -- Invoices, attached and standalone credits and the ledger, less the payments.
  abbrev pub worth : Input D → ℤ
  worth i =
      claims_sum i.invoices +ℤ units i.standalone_credits +ℤ units i.ledger -ℤ amounts i.payments

  -- The worth of one account in the inputs.
  abbrev pub account_worth : Key → Inputs D → ℤ
  account_worth j [] = pos 0
  account_worth j ((k, i) ∷ rest) = at_key j k (worth i) +ℤ account_worth j rest

  pub account_worth-change_input :
      (P : Input D → Type 0) (j k : Key) (change : Input D → Input D) (x : ℤ)
      → P no_input
      → ((i : Input D) → P i → worth (change i) ≈ worth i +ℤ x)
      → (inputs : Inputs D) → All (λ e. same_account e.0 k ≡ true → P e.1) inputs
      → account_worth j (change_input k change inputs) ≈ account_worth j inputs +ℤ at_key j k x
  unfolding change_input
  account_worth-change_input P j k change x none grows [] _ =
      let empty : worth (no_input {D = D}) ≈ pos 0 = omega (int_laws, zero_parts D) in
      let fresh : worth (change no_input) ≈ pos 0 +ℤ x =
        omega (int_laws, grows no_input none, empty) in
      let part = at_key_parts j k (worth (change no_input)) (pos 0) x fresh in
      omega (int_laws, part, at_key-zero j k)
  account_worth-change_input P j k change x none grows ((i, input) ∷ rest) (fits, others) =
      elim (Bool-cases (same_account i k)) [
        | inl e ↦
            let same : i ≡ k = same_account-eq i k e in
            let part =
              at_key_parts j k (worth (change input)) (worth input) x (grows input (fits e)) in
            let here : at_key j i (worth (change input))
                ≈ at_key j i (worth input) +ℤ at_key j k x =
              subst
                (λ (n : Key).
                  at_key j n (worth (change input)) ≈ at_key j n (worth input) +ℤ at_key j k x)
                (sym same) part in
            rw e (omega (int_laws, here))
        | inr e ↦
            let later = account_worth-change_input P j k change x none grows rest others in
            rw e (omega (int_laws, later))
      ]

  claims_sum-append :
      (is : List (Invoice D)) (i : Invoice D)
      → claims_sum (is ++ (i ∷ [])) ≈ claims_sum is +ℤ units i.gross +ℤ units i.attached_credit
  claims_sum-append [] i = omega int_laws
  claims_sum-append (k ∷ is) i = omega (int_laws, claims_sum-append is i)

  amounts-append :
      (ps : List (Payment D)) (p : Payment D)
      → amounts (ps ++ (p ∷ [])) ≈ amounts ps +ℤ units p.amount
  amounts-append [] p = omega int_laws
  amounts-append (q ∷ ps) p = omega (int_laws, amounts-append ps p)

  pub worth-with_invoice :
      (v : Invoice D) (i : Input D)
      → worth (with_invoice v i) ≈ worth i +ℤ (units v.gross +ℤ units v.attached_credit)
  worth-with_invoice v i = omega (int_laws, claims_sum-append i.invoices v)

  pub worth-with_credit : (c : D) (i : Input D) → worth (with_credit c i) ≈ worth i +ℤ units c
  worth-with_credit c i = omega (int_laws, add_parts i.standalone_credits c)

  pub worth-with_payment :
      (p : Payment D) (i : Input D)
      → worth (with_payment p i) ≈ worth i +ℤ (pos 0 -ℤ units p.amount)
  worth-with_payment p i = omega (int_laws, amounts-append i.payments p)

  pub worth-with_ledger :
      (a : D) (i : Input D) → units i.ledger ≈ pos 0 → worth (with_ledger a i) ≈ worth i +ℤ units a
  worth-with_ledger a i none = omega (int_laws, none)

  -- The same where the change grows every input.
  pub account_worth-grows :
      (j k : Key) (change : Input D → Input D) (x : ℤ)
      → ((i : Input D) → worth (change i) ≈ worth i +ℤ x)
      → (inputs : Inputs D)
      → account_worth j (change_input k change inputs) ≈ account_worth j inputs +ℤ at_key j k x
  account_worth-grows j k change x grows inputs =
      account_worth-change_input (λ _. Unit {0}) j k change x tt (λ i _. grows i) inputs
        (everywhere inputs)
    where
      everywhere : (es : Inputs D) → All (λ e. same_account e.0 k ≡ true → Unit {0}) es
      everywhere [] = tt
      everywhere (e ∷ es) = (λ _. tt, everywhere es)
