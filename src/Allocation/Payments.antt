-- ===== src/Allocation/Payments.antt =====
-- Payments move value from what is available to what is planned, and lower the open invoices by it.
use treckrr.Prelude.{
  All, ℤ, pos, ◌+ℤ◌, ◌≤ℤ◌, ◌==ℤ◌, ◌≈◌, refl, inl, inr, Bool-cases, List, [], ◌∷◌, ◌++◌, Map, insert,
  arith, int_laws, ==ℤ_iff, ==ℤ_refl,
}
use treckrr.Decimal.{Decimal, sub_parts, add_parts, smallest_parts}
use treckrr.Allocation.Data.{Planned, Invoice, Payment}
use treckrr.Allocation.Plan.{at, Purse, pay_invoice, pay_fifo, pay, pay_all}
use treckrr.Allocation.Sorting.{sum_by}
use treckrr.Allocation.Sums.{
  total, paid_to, paid, total-insert, at-insert_self, at-insert_ne, paid_to-append_hit,
  paid_to-append_miss, paid-append,
}

module _ {D : Type 0} ⦃d : Decimal D⦄ where
  open d use {units, smallest, sub}

  -- From the open claims and the cash at hand, nothing is lost, doubled or overdrawn.
  pub record IsBalanced (claims : Map D) (cash : ℤ) (s : Purse D) : Type 0 where
    pub by_invoice : (k : ℤ) → units (at k s.remaining) +ℤ paid_to k s.planned ≈ units (at k claims)
    pub open_nonneg : (k : ℤ) → pos 0 ≤ℤ units (at k s.remaining)
    pub paid_nonneg : (k : ℤ) → pos 0 ≤ℤ paid_to k s.planned
    pub available_nonneg : pos 0 ≤ℤ units s.available
    pub spent : paid s.planned +ℤ units s.available ≈ cash
    pub in_total : total s.remaining +ℤ paid s.planned ≈ total claims

  module _ (p i : ℤ) (claims : Map D) (cash : ℤ) (s : Purse D) (h : IsBalanced claims cash s) where
    abbrev moved : D
    moved = smallest s.available (at i s.remaining)

    abbrev step : Planned D
    step = record { payment_id = p; invoice_id = i; amount = moved }

    abbrev lowered : Map D
    lowered = insert i (sub (at i s.remaining) moved) s.remaining

    moved_bounds :
        (pos 0 ≤ℤ units moved)
        × (units moved ≤ℤ units s.available)
        × (units moved ≤ℤ units (at i s.remaining))
    moved_bounds =
        let (a, b, c) = smallest_parts s.available (at i s.remaining) in
        (omega (arith, c, h.available_nonneg, h.open_nonneg i), a, b)

    moved_by_invoice :
        (k : ℤ)
        → (units (at k lowered) +ℤ paid_to k (s.planned ++ (step ∷ [])) ≈ units (at k claims))
          × (pos 0 ≤ℤ units (at k lowered))
          × (pos 0 ≤ℤ paid_to k (s.planned ++ (step ∷ [])))
    moved_by_invoice k = elim (Bool-cases (k ==ℤ i)) [
      | inl e ↦
          rw ((==ℤ_iff k i).0 e, at-insert_self)
            (omega (
              int_laws,
              sub_parts (at i s.remaining) moved,
              paid_to-append_hit i s.planned step (==ℤ_refl i),
              h.by_invoice i,
              h.paid_nonneg i,
              moved_bounds,
            ))
      | inr e ↦ rw (at-insert_ne i k _ s.remaining e) (
          omega (
            int_laws,
            paid_to-append_miss k s.planned step e,
            h.by_invoice k,
            h.open_nonneg k,
            h.paid_nonneg k,
          ))
    ]

    moved-IsBalanced : IsBalanced claims cash (record {
      planned = s.planned ++ (step ∷ []);
      remaining = lowered;
      available = sub s.available moved;
    })
    moved-IsBalanced = record {
      by_invoice = λ k. (moved_by_invoice k).0;
      open_nonneg = λ k. (moved_by_invoice k).1;
      paid_nonneg = λ k. (moved_by_invoice k).2;
      available_nonneg = omega (arith, sub_parts s.available moved, moved_bounds);
      spent = omega (int_laws, sub_parts s.available moved, paid-append s.planned step, h.spent);
      in_total = omega (
        int_laws,
        sub_parts (at i s.remaining) moved,
        paid-append s.planned step,
        h.in_total,
        total-insert i (sub (at i s.remaining) moved) s.remaining,
      );
    }

    pub pay_invoice-IsBalanced : IsBalanced claims cash (pay_invoice p i s)
    unfolding pay_invoice
    pay_invoice-IsBalanced = elim (Bool-cases (d.is_positive moved)) [
      | inl some_left ↦ rw some_left moved-IsBalanced
      | inr nothing ↦ rw nothing h
    ]

  pub pay_fifo-IsBalanced :
      (p : ℤ) (invoices : List (Invoice D)) (claims : Map D) (cash : ℤ) (s : Purse D)
      → IsBalanced claims cash s
      → IsBalanced claims cash (pay_fifo p invoices s)
  unfolding pay_fifo
  pay_fifo-IsBalanced p [] claims cash s h = h
  pay_fifo-IsBalanced p (i ∷ is) claims cash s h = elim (Bool-cases (d.is_zero s.available)) [
    | inl done ↦ rw done h
    | inr more ↦ rw more (
        pay_fifo-IsBalanced p is claims cash (pay_invoice p i.id s)
          (pay_invoice-IsBalanced p i.id claims cash s h))
  ]

  -- What payments bring in, and that none is negative.
  abbrev pub amounts : List (Payment D) → ℤ
  amounts = sum_by (λ p. units p.amount)

  abbrev pub NonnegAmounts : List (Payment D) → Type 0
  NonnegAmounts = All (λ p. pos 0 ≤ℤ units p.amount)

  pay-IsBalanced :
      (p : Payment D) (invoices : List (Invoice D)) (claims : Map D) (cash : ℤ) (s : Purse D)
      → pos 0 ≤ℤ units p.amount
      → IsBalanced claims cash s
      → IsBalanced claims (paid s.planned +ℤ units p.amount) (pay p invoices s.planned s.remaining)
  unfolding pay
  pay-IsBalanced p invoices claims cash s nonneg h =
      pay_fifo-IsBalanced p.id invoices claims spending _
        (elim (Bool-cases (p.preferred_invoice_id ==ℤ pos 0)) [
          | inl fifo ↦ rw fifo started
          | inr chosen ↦
              rw chosen
                (pay_invoice-IsBalanced p.id p.preferred_invoice_id claims spending start started)
        ])
    where
      spending : ℤ
      spending = paid s.planned +ℤ units p.amount

      start : Purse D
      start = record { planned = s.planned; remaining = s.remaining; available = p.amount }

      started : IsBalanced claims spending start
      started = record {
        by_invoice = h.by_invoice;
        open_nonneg = h.open_nonneg;
        paid_nonneg = h.paid_nonneg;
        available_nonneg = nonneg;
        spent = refl;
        in_total = h.in_total;
      }

  pub pay_all-IsBalanced :
      (ps : List (Payment D)) (invoices : List (Invoice D)) (claims : Map D) (cash after : ℤ)
      (s : Purse D)
      → NonnegAmounts ps
      → cash +ℤ amounts ps ≈ after
      → IsBalanced claims cash s
      → IsBalanced claims after (pay_all ps invoices s)
  unfolding pay_all
  pay_all-IsBalanced [] invoices claims cash after s nonneg e h = record {
    by_invoice = h.by_invoice;
    open_nonneg = h.open_nonneg;
    paid_nonneg = h.paid_nonneg;
    available_nonneg = h.available_nonneg;
    spent = omega (int_laws, h.spent);
    in_total = h.in_total;
  }
  pay_all-IsBalanced (p ∷ ps) invoices claims cash after s nonneg e h =
      let paying = pay-IsBalanced p invoices claims cash s nonneg.0 h in
      let purse = pay p invoices s.planned s.remaining in
      pay_all-IsBalanced ps invoices claims (cash +ℤ units p.amount) after _ nonneg.1
        (omega int_laws)
        (record {
          by_invoice = paying.by_invoice;
          open_nonneg = paying.open_nonneg;
          paid_nonneg = paying.paid_nonneg;
          available_nonneg = omega (
            arith,
            add_parts s.available purse.available,
            paying.available_nonneg,
            h.available_nonneg,
          );
          spent = omega (int_laws, add_parts s.available purse.available, paying.spent, h.spent);
          in_total = paying.in_total;
        })
