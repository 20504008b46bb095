-- ===== src/Allocation/Conservation.antt =====
-- The allocation as a whole: every cent of the account is counted exactly once.
use treckrr.Prelude.{
  All, All-map, ok-injective, subst, ℤ, pos, ◌+ℤ◌, ◌≤ℤ◌, ◌≈◌, ◌≡◌, List, [], ◌∷◌, Map, arith, Bool,
  false, not, ◌||◌, int_laws, eq_of_parts, Result, ok, ◌>>=◌, first_of_chain, refuse_if-ok,
}
use treckrr.Decimal.{Decimal, zero_parts, sub_parts, neg_parts, largest_parts}
use treckrr.Allocation.Data.{Invoice, Payment, Input, Plan, Error, ledger_or_credit, whole_cents}
use treckrr.Allocation.Order.{sort_by, invoice_order}
use treckrr.Allocation.Reversal.{allocation_net_payments}
use treckrr.Allocation.Plan.{
  at, claim, Purse, open_claims, apply_offsets, pay_all, distribute, first_offset,
  plan_invoice_allocation,
}
use treckrr.Allocation.Sums.{total, paid_to, paid, at-nil}
use treckrr.Allocation.Sorting.{sum_by-sort_by, sort_by-All}
use treckrr.Allocation.Payments.{IsBalanced, amounts, NonnegAmounts, pay_all-IsBalanced}
use treckrr.Allocation.Claims.{Opened, IsOpenClaim, claims_sum, open_claims-Opened}
use treckrr.Allocation.Offsets.{IsApplied, apply_offsets-IsApplied}
use treckrr.Allocation.NetPayments.{allocation_net_payments_lem}

module _ {D : Type 0} ⦃d : Decimal D⦄ where
  open d use {units, largest, neg, zero, sub}

  abbrev bad_account : Input D → Bool
  bad_account input =
      not (whole_cents input.ledger)
      || not (whole_cents input.standalone_credits)
      || d.is_positive input.standalone_credits

  -- The intermediate values of a run that returns a plan.
  pub record Run (input : Input D) (plan : Plan D) : Type 0 where
    pub claims : Map D
    pub offset : D
    pub net : List (Payment D)
    pub credit : d.is_positive input.standalone_credits ≡ false
    pub opening :
        open_claims (sort_by invoice_order input.invoices) [] (first_offset input)
        ≡ ok (claims, offset)
    pub netting : allocation_net_payments input.payments claims ≡ ok net
    pub planning :
        distribute input.ledger (sort_by invoice_order input.invoices) net claims offset ≡ plan

  pub plan-Run :
      (input : Input D) {plan : Plan D} → plan_invoice_allocation input ≡ ok plan → Run input plan
  unfolding plan_invoice_allocation
  plan-Run input {plan} e =
      let invoices = sort_by invoice_order input.invoices in
      let finish : Map D × D → List (Payment D) → Result Error (Plan D) =
        λ r net. ok (distribute input.ledger invoices net r.0 r.1) in
      let allocate : Map D × D → Result Error (Plan D) =
        λ r. allocation_net_payments input.payments r.0 >>= finish r in
      let guarded = refuse_if-ok (bad_account input) ledger_or_credit _ e in
      let (r, opening, rest) =
        first_of_chain allocate (open_claims invoices [] (first_offset input)) guarded.1 in
      let (net, netting, planning) =
        first_of_chain (finish r) (allocation_net_payments input.payments r.0) rest in
      record {
        claims = r.0;
        offset = r.1;
        net = net;
        credit =
            last_guard (not (whole_cents input.ledger)) (not (whole_cents input.standalone_credits))
              _ guarded.0;
        opening = opening;
        netting = netting;
        planning = ok-injective planning;
      }
    where
      last_guard : (a b c : Bool) → (a || b || c) ≡ false → c ≡ false
      last_guard a b c h = ground arith

  module _ (ledger : D) (invoices : List (Invoice D)) (net : List (Payment D)) (claims : Map D)
      (offset : D) where
    abbrev applied : Map D × Map D × D
    applied = apply_offsets invoices [] claims offset

    abbrev purse : Purse D
    purse = pay_all net invoices (record { planned = []; remaining = applied.1; available = zero })

    module _ (h : IsApplied [] claims offset applied) (nonneg : NonnegAmounts net) where
      purse-IsBalanced : IsBalanced applied.1 (amounts net) purse
      purse-IsBalanced =
          pay_all-IsBalanced net invoices applied.1 (pos 0) (amounts net) _ nonneg (omega int_laws)
            (record {
              by_invoice = λ k. omega int_laws;
              open_nonneg = h.open_nonneg;
              paid_nonneg = λ k. omega arith;
              available_nonneg = omega (arith, zero_parts D);
              spent = omega (int_laws, zero_parts D);
              in_total = omega int_laws;
            })

      distribute-by_invoice :
          (k : ℤ)
          → let plan = distribute ledger invoices net claims offset in
            (units (at k plan.remaining)
                +ℤ units (at k plan.offset_applied)
                +ℤ paid_to k plan.payments
              ≈ units (at k claims))
            × (pos 0 ≤ℤ units (at k plan.remaining))
            × (pos 0 ≤ℤ units (at k plan.offset_applied))
            × (pos 0 ≤ℤ paid_to k plan.payments)
      unfolding distribute
      distribute-by_invoice k =
          let b = purse-IsBalanced in
          (
            omega (int_laws, h.by_invoice k, b.by_invoice k, at-nil D k),
            b.open_nonneg k,
            h.applied_nonneg k,
            b.paid_nonneg k,
          )

      distribute-balance :
          let plan = distribute ledger invoices net claims offset in
          (total plan.remaining +ℤ units plan.account_residual +ℤ units offset +ℤ amounts net
            ≈ total claims +ℤ units (largest ledger zero))
          × (paid plan.payments +ℤ units plan.unallocated_cash ≈ amounts net)
          × (pos 0 ≤ℤ units plan.unallocated_cash)
          × (pos 0 ≤ℤ units plan.unused_offset)
      unfolding distribute
      distribute-balance =
          let b = purse-IsBalanced in
          let less = sub (largest ledger zero) applied.2 in
          (
            omega (
              int_laws,
              h.balance,
              b.in_total,
              b.spent,
              sub_parts less purse.available,
              sub_parts (largest ledger zero) applied.2,
            ),
            b.spent,
            b.available_nonneg,
            h.offset_nonneg,
          )

  -- What an invoice was worth is what remains, what offsets covered and what payments covered.
  abbrev pub IsSettled : Plan D → Invoice D → Type 0
  IsSettled plan i =
      (units (at i.id plan.remaining)
          +ℤ units (at i.id plan.offset_applied)
          +ℤ paid_to i.id plan.payments
        ≡ units (largest (claim i) zero))
      × (pos 0 ≤ℤ units (at i.id plan.remaining))
      × (pos 0 ≤ℤ units (at i.id plan.offset_applied))
      × (pos 0 ≤ℤ paid_to i.id plan.payments)

  module _ (input : Input D) {plan : Plan D} (run : Run input plan) where
    abbrev invoices : List (Invoice D)
    invoices = sort_by invoice_order input.invoices

    pub Run-Opened : Opened invoices [] run.claims (first_offset input) run.offset
    Run-Opened = open_claims-Opened invoices [] (first_offset input) _ run.opening

    pub Run-offset_nonneg : pos 0 ≤ℤ units run.offset
    unfolding first_offset
    Run-offset_nonneg = ground (
      arith,
      (Run-Opened).offset_le,
      sub_parts (largest (neg input.ledger) zero) input.standalone_credits,
      largest_parts (neg input.ledger) zero,
      zero_parts D,
      run.credit,
      d.is_positive_lem input.standalone_credits,
    )

    Run-IsApplied :
        IsApplied [] run.claims run.offset (apply_offsets invoices [] run.claims run.offset)
    Run-IsApplied =
        apply_offsets-IsApplied invoices [] run.claims run.offset (Run-Opened).distinct
          (unused_at_first invoices) ((Run-Opened).nonneg (λ k. omega (arith, at-nil D k)))
          (λ k. omega (arith, at-nil D k)) Run-offset_nonneg
      where
        unused_at_first : (is : List (Invoice D)) → All (λ i. units (at i.id []) ≈ pos 0) is
        unused_at_first [] = tt
        unused_at_first (i ∷ is) = (at-nil D i.id, unused_at_first is)

    Run-net : (amounts run.net ≈ amounts input.payments) × NonnegAmounts run.net
    Run-net = allocation_net_payments_lem input.payments run.claims run.netting

    Run-by_invoice :
        (k : ℤ)
        → (units (at k plan.remaining)
              +ℤ units (at k plan.offset_applied)
              +ℤ paid_to k plan.payments
            ≈ units (at k run.claims))
          × (pos 0 ≤ℤ units (at k plan.remaining))
          × (pos 0 ≤ℤ units (at k plan.offset_applied))
          × (pos 0 ≤ℤ paid_to k plan.payments)
    Run-by_invoice k =
        subst
          (λ (p : Plan D).
            (units (at k p.remaining) +ℤ units (at k p.offset_applied) +ℤ paid_to k p.payments
              ≈ units (at k run.claims))
            × (pos 0 ≤ℤ units (at k p.remaining))
            × (pos 0 ≤ℤ units (at k p.offset_applied))
            × (pos 0 ≤ℤ paid_to k p.payments))
          run.planning
          (distribute-by_invoice input.ledger invoices run.net run.claims run.offset Run-IsApplied
            Run-net.1 k)

    Run-balance :
        (total plan.remaining +ℤ units plan.account_residual +ℤ units run.offset +ℤ amounts run.net
          ≈ total run.claims +ℤ units (largest input.ledger zero))
        × (paid plan.payments +ℤ units plan.unallocated_cash ≈ amounts run.net)
        × (pos 0 ≤ℤ units plan.unallocated_cash)
        × (pos 0 ≤ℤ units plan.unused_offset)
    Run-balance =
        subst
          (λ (p : Plan D).
            (total p.remaining +ℤ units p.account_residual +ℤ units run.offset +ℤ amounts run.net
              ≈ total run.claims +ℤ units (largest input.ledger zero))
            × (paid p.payments +ℤ units p.unallocated_cash ≈ amounts run.net)
            × (pos 0 ≤ℤ units p.unallocated_cash)
            × (pos 0 ≤ℤ units p.unused_offset))
          run.planning
          (distribute-balance input.ledger invoices run.net run.claims run.offset Run-IsApplied
            Run-net.1)

    Run-documents : All (IsSettled plan) input.invoices
    Run-documents =
        sort_by-All invoice_order (IsSettled plan) input.invoices
          (All-map (IsOpenClaim run.claims) (IsSettled plan) settled invoices (Run-Opened).claimed)
      where
        settled : (i : Invoice D) → IsOpenClaim run.claims i → IsSettled plan i
        settled i e =
            let (sum, open_nonneg, applied_nonneg, paid_nonneg) = Run-by_invoice i.id in
            (eq_of_parts _ _ (rw (← e) sum), open_nonneg, applied_nonneg, paid_nonneg)

    Run-account :
        total plan.remaining +ℤ units plan.account_residual +ℤ amounts input.payments
        ≡ claims_sum input.invoices +ℤ units input.ledger +ℤ units input.standalone_credits
    unfolding first_offset
    Run-account = eq_of_parts _ _ (
        omega (
          int_laws,
          Run-balance,
          Run-net.0,
          (Run-Opened).balance,
          sum_by-sort_by invoice_order (λ (i : Invoice D). units i.gross +ℤ units i.attached_credit)
              input.invoices,
          sub_parts (largest (neg input.ledger) zero) input.standalone_credits,
          neg_parts input.ledger,
          largest_parts (neg input.ledger) zero,
          largest_parts input.ledger zero,
          zero_parts D,
        ))

    Run-cash :
        (paid plan.payments +ℤ units plan.unallocated_cash ≡ amounts input.payments)
        × (pos 0 ≤ℤ units plan.unallocated_cash)
        × (pos 0 ≤ℤ units plan.unused_offset)
    Run-cash =
        let (_, spent, cash_nonneg, offset_nonneg) = Run-balance in
        (eq_of_parts _ _ (omega (int_laws, spent, Run-net.0)), cash_nonneg, offset_nonneg)

module _ {D : Type 0} ⦃d : Decimal D⦄ (input : Input D) {plan : Plan D}
    (planned : plan_invoice_allocation input ≡ ok plan) where
  -- In a plan that is returned, what an invoice was worth (its gross less its credit notes, or
  -- nothing if that is negative) is exactly what remains open on it, what offsets were applied to it
  -- and what payments were allocated to it; and none of the three is negative.
  pub plan-documents : All (IsSettled plan) input.invoices
  plan-documents = Run-documents input (plan-Run input planned)

  -- In a plan that is returned, the open documents together with the account residual are the signed
  -- sum of all invoices with their credit notes, the ledger and the standalone credits, less all
  -- payments with reversals as negative amounts.
  pub plan-account :
      total plan.remaining +ℤ d.units plan.account_residual +ℤ amounts input.payments
      ≡ claims_sum input.invoices +ℤ d.units input.ledger +ℤ d.units input.standalone_credits
  plan-account = Run-account input (plan-Run input planned)

  -- In a plan that is returned, the allocated payment parts and the unallocated cash add up to all
  -- payments with reversals as negative amounts, and neither the unallocated cash nor the unused
  -- offset is negative.
  pub plan-cash :
      (paid plan.payments +ℤ d.units plan.unallocated_cash ≡ amounts input.payments)
      × (pos 0 ≤ℤ d.units plan.unallocated_cash)
      × (pos 0 ≤ℤ d.units plan.unused_offset)
  plan-cash = Run-cash input (plan-Run input planned)
