-- ===== src/Settlement/Uses.antt =====
-- `explainAccountSettlement` as a whole: what it says of every invoice and of every payment.
use treckrr.Prelude.{
  ℤ, pos, ◌+ℤ◌, ◌-ℤ◌, ◌≈◌, ◌≡◌, ◌==ℤ◌, ==ℤ_iff, sym, ap, ◌∙◌, false, Bool-cases, inl, inr, Option,
  none, some, List, [], ◌∷◌, ◌++◌, All, Map, lookup, get_or, get_or-insert, if◌then◌else◌, ok,
  int_laws, parts_of_eq, Result, err, first_of_chain, ok-injective, subst,
}
use treckrr.Decimal.{Decimal, sub_parts, zero_parts}
use treckrr.Text.{Text, text}
use treckrr.Settlement.Lines.{
  Error, payment_metadata_missing, SettlementLine, settlement_lines, lines_total,
}
use treckrr.Settlement.Summary.{Part, InvoiceAllocation, Summary}
use treckrr.Settlement.Explain.{
  Source, SourcePayment, PaymentUse, PaymentUsage, Sources, Explained, open_usages, mark_reversals,
  payment_label, by_payment, collect_sources, pool_of, offset_lines, use_part, part_lines,
  explain_invoice, explain_invoices, explain_account_settlement, explain_invoice_lines,
}

module _ {D : Type 0} ⦃d : Decimal D⦄ where
  open d use {units, zero, add, sub, largest}

  -- The use of a payment, with nothing for a missing one.
  abbrev pub usage_of : ℤ → Map (PaymentUsage D) → PaymentUsage D
  usage_of k m = get_or k (record { parts = []; unallocated = zero; reversed = false }) m

  abbrev pub uses_total : List (PaymentUse D) → ℤ
  uses_total [] = pos 0
  uses_total (u ∷ us) = units u.amount +ℤ uses_total us

  -- What a list of parts takes from one payment.
  abbrev pub taken_by : ℤ → List (Part D) → ℤ
  taken_by k [] = pos 0
  taken_by k (p ∷ ps) = (if k ==ℤ p.payment_id then units p.amount else pos 0) +ℤ taken_by k ps

  -- What all invoices take from it, and what they leave open.
  abbrev pub taken : ℤ → List (InvoiceAllocation D) → ℤ
  taken k [] = pos 0
  taken k (a ∷ as') = taken_by k a.payment_parts +ℤ taken k as'

  abbrev pub open_total : List (InvoiceAllocation D) → ℤ
  open_total [] = pos 0
  open_total (a ∷ as') = units a.remaining +ℤ open_total as'

  -- Invoices of different ids.
  abbrev pub Apart : List (InvoiceAllocation D) → Type 0
  Apart [] = Unit
  Apart (a ∷ as') = All (λ x. (a.invoice_id ==ℤ x.invoice_id) ≡ false) as' × Apart as'

  abbrev pub IsExplained : Map (List (SettlementLine D)) → InvoiceAllocation D → Type 0
  IsExplained lines a =
      lines_total (get_or a.invoice_id [] lines) ≈ units (largest a.gross zero) -ℤ units a.remaining

  -- From one table of uses to the next, `amount` of a payment is used.
  abbrev pub Uses : ℤ → ℤ → Map (PaymentUsage D) → Map (PaymentUsage D) → Type 0
  Uses k amount m m' =
      (units (usage_of k m').unallocated ≈ units (usage_of k m).unallocated -ℤ amount)
      × (uses_total (usage_of k m').parts ≈ uses_total (usage_of k m).parts +ℤ amount)

  uses_total-append :
      (us : List (PaymentUse D)) (u : PaymentUse D)
      → uses_total (us ++ (u ∷ [])) ≈ uses_total us +ℤ units u.amount
  uses_total-append [] u = omega int_laws
  uses_total-append (v ∷ us) u = omega (int_laws, uses_total-append us u)

  Uses-use_part :
      (k : ℤ) (number : Text) (invoice_id : ℤ) (p : Part D) (m : Map (PaymentUsage D))
      → Uses k
          (if k ==ℤ p.payment_id then units p.amount else pos 0)
          m
          (use_part number invoice_id p m)
  Uses-use_part k number invoice_id p m =
      let z : PaymentUsage D = record { parts = []; unallocated = zero; reversed = false } in
      let u : PaymentUse D = record {
        invoice_id = invoice_id;
        invoice_number = number;
        amount = p.amount;
      } in
      let old = usage_of p.payment_id m in
      let new : PaymentUsage D = record old {
        parts = old.parts ++ (u ∷ []);
        unallocated = sub old.unallocated p.amount;
      } in
      let there = get_or-insert p.payment_id k z new m in
      elim (Bool-cases (k ==ℤ p.payment_id)) [
        | inl e ↦
            let same = (==ℤ_iff k p.payment_id).0 e in
            let here : usage_of k (use_part number invoice_id p m) ≡ new = rw e at there in
            let before : usage_of k m ≡ old = ap (λ j. usage_of j m) same in
            rw here (
              rw e (
                rw before (
                  omega (int_laws, sub_parts old.unallocated p.amount),
                  omega (int_laws, uses_total-append old.parts u),
                )))
        | inr e ↦
            let here : usage_of k (use_part number invoice_id p m) ≡ usage_of k m = rw e at there in
            rw here (rw e (omega int_laws, omega int_laws))
      ]

  Uses-then :
      (k x y : ℤ) (m m' m'' : Map (PaymentUsage D))
      → Uses k x m m'
      → Uses k y m' m''
      → Uses k (x +ℤ y) m m''
  Uses-then k x y m m' m'' (less, more) (less', more') =
      (omega (int_laws, less, less'), omega (int_laws, more, more'))

module _ {D : Type 0} ⦃d : Decimal D⦄ (to_lower : Text → Text) where
  open d use {units, zero, add, sub, largest}

  Uses-part_lines :
      (k : ℤ) (known : Map (SourcePayment D)) (number : Text) (invoice_id : ℤ)
      (parts : List (Part D)) (lines : List (SettlementLine D)) (m : Map (PaymentUsage D))
      {r : List (SettlementLine D) × Map (PaymentUsage D)}
      → part_lines to_lower known number invoice_id parts lines m ≡ ok r
      → Uses k (taken_by k parts) m r.1
  unfolding part_lines
  Uses-part_lines k known number invoice_id [] lines m {r} e =
      subst (λ (x : List (SettlementLine D) × Map (PaymentUsage D)). Uses k (pos 0) m x.1)
        (ok-injective e) (omega int_laws, omega int_laws)
  Uses-part_lines k known number invoice_id (p ∷ ps) lines m {r} e =
      go (lookup p.payment_id known)
        (λ later e'.
          Uses-part_lines k known number invoice_id ps later (use_part number invoice_id p m) e')
        e
    where
      go :
          (o : Option (SourcePayment D))
          → ((later : List (SettlementLine D))
              → part_lines to_lower known number invoice_id ps later
                  (use_part number invoice_id p m)
                ≡ ok r
              → Uses k (taken_by k ps) (use_part number invoice_id p m) r.1)
          → ◌≡◌ {A = Result Error (List (SettlementLine D) × Map (PaymentUsage D))}
              (elim o [
                | none ↦ err payment_metadata_missing
                | some q ↦
                    part_lines to_lower known number invoice_id ps
                      (lines
                        ++ (record {
                          date = some q.date;
                          kind = text "payment";
                          label = payment_label to_lower q.method;
                          amount = p.amount;
                        }
                            ∷ []))
                      (use_part number invoice_id p m)
              ])
              (ok r)
          → Uses k (taken_by k (p ∷ ps)) m r.1
      go none onward e' = cc
      go (some q) onward e' =
          Uses-then k (if k ==ℤ p.payment_id then units p.amount else pos 0) (taken_by k ps) m
            (use_part number invoice_id p m) r.1 (Uses-use_part k number invoice_id p m)
            (onward _ e')

  Uses-explain_invoice :
      (k : ℤ) (sources : Sources D) (pool : List (SettlementLine D)) (known : Map (SourcePayment D))
      (a : InvoiceAllocation D) (acc : Explained D) {next : Explained D}
      → explain_invoice to_lower sources pool known a acc ≡ ok next
      → Uses k (taken_by k a.payment_parts) acc.payments next.payments
  unfolding explain_invoice
  Uses-explain_invoice k sources pool known a acc {next} e =
      let lines = get_or a.invoice_id [] sources.attached ++ offset_lines pool a.offset_applied in
      let number = get_or a.invoice_id [] sources.numbers in
      let applied = sub (largest a.gross zero) a.remaining in
      let (listed, parts, checked) =
        first_of_chain _
          (part_lines to_lower known number a.invoice_id a.payment_parts lines acc.payments) e in
      let (validated, _, returned) =
        first_of_chain _ (settlement_lines (some listed.0) applied) checked in
      subst (λ (x : Explained D). Uses k (taken_by k a.payment_parts) acc.payments x.payments)
        (ok-injective returned)
        (Uses-part_lines k known number a.invoice_id a.payment_parts lines acc.payments parts)

  Uses-explain_invoices :
      (k : ℤ) (sources : Sources D) (pool : List (SettlementLine D)) (known : Map (SourcePayment D))
      (as' : List (InvoiceAllocation D)) (acc : Explained D) {next : Explained D}
      → explain_invoices to_lower sources pool known as' acc ≡ ok next
      → Uses k (taken k as') acc.payments next.payments
  unfolding explain_invoices
  Uses-explain_invoices k sources pool known [] acc e =
      subst (λ (x : Explained D). Uses k (pos 0) acc.payments x.payments) (ok-injective e)
        (omega int_laws, omega int_laws)
  Uses-explain_invoices k sources pool known (a ∷ as') acc {next} e =
      let (middle, first, rest) =
        first_of_chain _ (explain_invoice to_lower sources pool known a acc) e in
      Uses-then k (taken_by k a.payment_parts) (taken k as') acc.payments middle.payments
        next.payments (Uses-explain_invoice k sources pool known a acc first)
        (Uses-explain_invoices k sources pool known as' middle rest)

  -- The lines of an invoice that is not among those of the loop stay.
  explain_invoices-elsewhere :
      (k : ℤ) (sources : Sources D) (pool : List (SettlementLine D)) (known : Map (SourcePayment D))
      (as' : List (InvoiceAllocation D)) (acc : Explained D) {next : Explained D}
      → explain_invoices to_lower sources pool known as' acc ≡ ok next
      → All (λ x. (k ==ℤ x.invoice_id) ≡ false) as'
      → get_or k [] next.lines ≡ get_or k [] acc.lines
  unfolding explain_invoices
  explain_invoices-elsewhere k sources pool known [] acc e others =
      sym (ap (λ (x : Explained D). get_or k [] x.lines) (ok-injective e))
  explain_invoices-elsewhere k sources pool known (a ∷ as') acc {next} e (other, others) =
      let (middle, first, rest) =
        first_of_chain _ (explain_invoice to_lower sources pool known a acc) e in
      let (_, _, kept) = explain_invoice_lines to_lower sources pool known a acc first in
      explain_invoices-elsewhere k sources pool known as' middle rest others ∙ kept k other

  explain_invoices_lem :
      (sources : Sources D) (pool : List (SettlementLine D)) (known : Map (SourcePayment D))
      (as' : List (InvoiceAllocation D)) (acc : Explained D) {next : Explained D}
      → explain_invoices to_lower sources pool known as' acc ≡ ok next
      → Apart as'
      → All (IsExplained next.lines) as'
        × (units next.open_invoices ≈ units acc.open_invoices +ℤ open_total as')
  unfolding explain_invoices
  explain_invoices_lem sources pool known [] acc e apart = (
    tt,
    omega
        (int_laws, parts_of_eq (ap (λ (x : Explained D). units x.open_invoices) (ok-injective e))),
  )
  explain_invoices_lem sources pool known (a ∷ as') acc {next} e (apart, rest_apart) =
      let (middle, first, rest) =
        first_of_chain _ (explain_invoice to_lower sources pool known a acc) e in
      let (total, opened, _) = explain_invoice_lines to_lower sources pool known a acc first in
      let (explained, left) = explain_invoices_lem sources pool known as' middle rest rest_apart in
      let same = explain_invoices-elsewhere a.invoice_id sources pool known as' middle rest apart in
      (
        (
          subst (λ ls. lines_total ls ≈ units (largest a.gross zero) -ℤ units a.remaining)
              (sym same) total,
          explained,
        ),
        omega (int_laws, opened, left),
      )

  -- If the account is explained without an error, and the invoices of its summary have different ids,
  -- then the lines of every invoice add up to what of its gross (or of nothing, if that is negative) is
  -- not open, the open amount of the account is the sum of what the invoices leave open, and of every
  -- payment exactly what the invoices' parts take from it is listed as used, and is missing from what
  -- was not allocated of it at the start.
  pub explain_account_settlement_lem :
      (summary : Summary D) (sources : List (Source D)) (payments : List (SourcePayment D)) (k : ℤ)
      {explained : Explained D}
      → explain_account_settlement to_lower summary sources payments ≡ ok explained
      → Apart summary.invoices
      → All (IsExplained explained.lines) summary.invoices
        × (units explained.open_invoices ≈ open_total summary.invoices)
        × Uses k
            (taken k summary.invoices)
            (mark_reversals (open_usages [] payments) payments)
            explained.payments
  unfolding explain_account_settlement
  explain_account_settlement_lem summary sources payments k e apart =
      let collected =
        collect_sources
          (record {
            numbers = [];
            attached = [];
            pool = [];
            ledger = [];
            ledger_net = zero;
            has_ledger_debit = false;
          })
          sources in
      let start : Explained D = record {
        lines = [];
        payments = mark_reversals (open_usages [] payments) payments;
        open_invoices = zero;
      } in
      let known = by_payment [] payments in
      let (explained, left) =
        explain_invoices_lem collected (pool_of collected) known summary.invoices start e apart in
      (
        explained,
        omega (int_laws, left, zero_parts D),
        Uses-explain_invoices k collected (pool_of collected) known summary.invoices start e,
      )
