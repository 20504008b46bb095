-- ===== src/Settlement/Summary.antt =====
-- The summary of one account in `invoiceAllocationsTx`: what the plan did to each invoice, with the
-- payments that went to it.
use treckrr.Prelude.{
  All, All-map, parts_of_eq, ℤ, pos, ◌+ℤ◌, ◌≤ℤ◌, ◌≈◌, ◌≡◌, ◌==ℤ◌, inl, inr, Bool-cases, List, [],
  ◌∷◌, ◌++◌, map, Map, insert, get_or, get_or-insert, if◌then◌else◌, int_laws, Result, ok, ◌>>=◌,
  first_of_chain, ok-injective, subst, ==ℤ_iff,
}
use treckrr.Decimal.{Decimal, add_parts}
use treckrr.Allocation.Data.{Invoice, Input, Planned, Plan, Error}
use treckrr.Allocation.Order.{invoice_order, sort_by}
use treckrr.Allocation.Plan.{at, plan_invoice_allocation}
use treckrr.Allocation.Sums.{paid_to, at-insert, at-nil}
use treckrr.Allocation.Sorting.{All-sort_by}
use treckrr.Allocation.Conservation.{IsSettled, plan-documents}

-- `InvoicePaymentPart`
pub record Part (D : Type 0) : Type 0 where
  pub payment_id : ℤ
  pub amount : D

-- `InvoiceAllocation`
pub record InvoiceAllocation (D : Type 0) : Type 0 where
  pub invoice_id : ℤ
  pub gross : D
  pub attached_credit : D
  pub offset_applied : D
  pub paid : D
  pub remaining : D
  pub payment_parts : List (Part D)

-- `InvoiceAllocationSummary`
pub record Summary (D : Type 0) : Type 0 where
  pub invoices : List (InvoiceAllocation D)
  pub unallocated_cash : D
  pub unused_offset : D
  pub account_residual : D

module _ {D : Type 0} ⦃d : Decimal D⦄ where
  open d use {units, add}

  -- The loop over `plan.Payments`, for each of its two maps.
  unfoldable pub add_paid : Map D → List (Planned D) → Map D
  unfolding at
  add_paid m [] = m
  add_paid m (p ∷ ps) = add_paid (insert p.invoice_id (add (at p.invoice_id m) p.amount) m) ps

  abbrev pub part_of : Planned D → Part D
  part_of p = record { payment_id = p.payment_id; amount = p.amount }

  unfoldable pub add_parts_of : Map (List (Part D)) → List (Planned D) → Map (List (Part D))
  add_parts_of m [] = m
  add_parts_of m (p ∷ ps) =
      add_parts_of (insert p.invoice_id (get_or p.invoice_id [] m ++ (part_of p ∷ [])) m) ps

  unfoldable pub allocation_of : Plan D → Invoice D → InvoiceAllocation D
  unfolding add_paid add_parts_of
  allocation_of plan i = record {
    invoice_id = i.id;
    gross = i.gross;
    attached_credit = i.attached_credit;
    offset_applied = at i.id plan.offset_applied;
    paid = at i.id (add_paid [] plan.payments);
    remaining = at i.id plan.remaining;
    payment_parts = get_or i.id [] (add_parts_of [] plan.payments);
  }

  unfoldable pub summarize : Input D → Result Error (Summary D)
  unfolding plan_invoice_allocation allocation_of
  summarize input = do
    plan ← plan_invoice_allocation input
    ok (record {
      invoices = map (allocation_of plan) (sort_by invoice_order input.invoices);
      unallocated_cash = plan.unallocated_cash;
      unused_offset = plan.unused_offset;
      account_residual = plan.account_residual;
    })

  abbrev pub parts_total : List (Part D) → ℤ
  parts_total [] = pos 0
  parts_total (p ∷ ps) = units p.amount +ℤ parts_total ps

  parts_total-append :
      (ps : List (Part D)) (p : Part D)
      → parts_total (ps ++ (p ∷ [])) ≈ parts_total ps +ℤ units p.amount
  parts_total-append [] p = omega int_laws
  parts_total-append (q ∷ ps) p = omega (int_laws, parts_total-append ps p)

  -- One payment into each of the two maps.
  at-paid :
      (k i : ℤ) (a : D) (m : Map D)
      → units (at k (insert i (add (at i m) a) m))
        ≈ units (at k m) +ℤ (if k ==ℤ i then units a else pos 0)
  at-paid k i a m = elim (Bool-cases (k ==ℤ i)) [
    | inl e ↦
        let same = (==ℤ_iff k i).0 e in
        let here = rw e at (at-insert i k (add (at i m) a) m) in
        rw here (rw e (rw same (omega (int_laws, add_parts (at i m) a))))
    | inr e ↦
        let here = rw e at (at-insert i k (add (at i m) a) m) in rw here (rw e (omega int_laws))
  ]

  parts-paid :
      (k i : ℤ) (p : Part D) (m : Map (List (Part D)))
      → parts_total (get_or k [] (insert i (get_or i [] m ++ (p ∷ [])) m))
        ≈ parts_total (get_or k [] m) +ℤ (if k ==ℤ i then units p.amount else pos 0)
  parts-paid k i p m = elim (Bool-cases (k ==ℤ i)) [
    | inl e ↦
        let same = (==ℤ_iff k i).0 e in
        let here = rw e at (get_or-insert i k [] (get_or i [] m ++ (p ∷ [])) m) in
        rw here (rw e (rw same (omega (int_laws, parts_total-append (get_or i [] m) p))))
    | inr e ↦
        let here = rw e at (get_or-insert i k [] (get_or i [] m ++ (p ∷ [])) m) in
        rw here (rw e (omega int_laws))
  ]

  add_paid-paid_to :
      (k : ℤ) (m : Map D) (ps : List (Planned D))
      → units (at k (add_paid m ps)) ≈ units (at k m) +ℤ paid_to k ps
  unfolding add_paid
  add_paid-paid_to k m [] = omega int_laws
  add_paid-paid_to k m (p ∷ ps) = omega (
    int_laws,
    at-paid k p.invoice_id p.amount m,
    add_paid-paid_to k (insert p.invoice_id (add (at p.invoice_id m) p.amount) m) ps,
  )

  add_parts_of-paid_to :
      (k : ℤ) (m : Map (List (Part D))) (ps : List (Planned D))
      → parts_total (get_or k [] (add_parts_of m ps)) ≈ parts_total (get_or k [] m) +ℤ paid_to k ps
  unfolding add_parts_of
  add_parts_of-paid_to k m [] = omega int_laws
  add_parts_of-paid_to k m (p ∷ ps) = omega (
    int_laws,
    parts-paid k p.invoice_id (part_of p) m,
    add_parts_of-paid_to k (insert p.invoice_id (get_or p.invoice_id [] m ++ (part_of p ∷ [])) m)
        ps,
  )

  -- A row of the summary accounts for the invoice's worth.
  abbrev pub IsAccounted : InvoiceAllocation D → Type 0
  IsAccounted a =
      (units a.remaining +ℤ units a.offset_applied +ℤ units a.paid
        ≈ units (d.largest (add a.gross a.attached_credit) d.zero))
      × (units a.paid ≈ parts_total a.payment_parts)
      × (pos 0 ≤ℤ units a.remaining)

  allocation_of-IsAccounted :
      (plan : Plan D) (i : Invoice D) → IsSettled plan i → IsAccounted (allocation_of plan i)
  unfolding allocation_of
  allocation_of-IsAccounted plan i (worth, open_nonneg, _, _) =
      let cash = add_paid-paid_to i.id [] plan.payments in
      let parts = add_parts_of-paid_to i.id [] plan.payments in
      let none_yet = at-nil D i.id in
      (
        omega (int_laws, parts_of_eq worth, cash, none_yet),
        omega (int_laws, cash, parts, none_yet),
        open_nonneg,
      )

  All-map_list :
      (P : InvoiceAllocation D → Type 0) (f : Invoice D → InvoiceAllocation D)
      (xs : List (Invoice D))
      → All (λ i. P (f i)) xs
      → All P (map f xs)
  All-map_list P f [] _ = tt
  All-map_list P f (x ∷ xs) (p, ps) = (p, All-map_list P f xs ps)

  -- In the summary of an account, every invoice's open amount, its applied offset and its payments add
  -- up to its gross less its credit notes (or nothing, if that is negative), the payments are the sum
  -- of their listed parts, and the open amount is not negative.
  pub summarize-IsAccounted :
      (input : Input D) {summary : Summary D}
      → summarize input ≡ ok summary
      → All IsAccounted summary.invoices
  unfolding summarize
  summarize-IsAccounted input {summary} e =
      let (plan, planned, returned) = first_of_chain _ (plan_invoice_allocation input) e in
      let rows = plan-documents input planned in
      let accounted =
        All-map_list IsAccounted (allocation_of plan) (sort_by invoice_order input.invoices) (
          All-sort_by invoice_order (λ i. IsAccounted (allocation_of plan i)) input.invoices
            (All-map (IsSettled plan) (λ i. IsAccounted (allocation_of plan i))
              (allocation_of-IsAccounted plan) input.invoices rows)) in
      subst (λ (s : Summary D). All IsAccounted s.invoices) (ok-injective returned) accounted
