-- ===== src/Allocation/Exhaustion.antt =====
-- Money is left over only when every document is closed.
use treckrr.Prelude.{
  All, All-map, subst, sym, ℤ, pos, ◌≤ℤ◌, ◌==ℤ◌, ◌≡◌, ◌⊎◌, inl, inr, Bool-cases, List, [], ◌∷◌, Map,
  insert, arith, if◌then◌else◌, true, false, ==ℤ_iff, ok,
}
use treckrr.Decimal.{Decimal, zero_parts, sub_parts, add_parts, smallest_parts}
use treckrr.Allocation.Data.{Invoice, Payment, Input, Plan}
use treckrr.Allocation.Order.{sort_by, invoice_order}
use treckrr.Allocation.Plan.{
  at, Purse, apply_offsets, pay_invoice, pay_fifo, pay, pay_all, distribute,
  plan_invoice_allocation,
}
use treckrr.Allocation.Sums.{at-insert_self, at-insert_ne, at-nil}
use treckrr.Allocation.Sorting.{sort_by-All}
use treckrr.Allocation.Conservation.{plan-Run, Run-Opened, Run-offset_nonneg}

module _ {D : Type 0} ⦃d : Decimal D⦄ where
  open d use {units, smallest, sub}

  -- Nothing more is owed on the invoice.
  abbrev pub IsClosed : Map D → Invoice D → Type 0
  IsClosed remaining i = units (at i.id remaining) ≤ℤ pos 0

  -- No open amount grows.
  abbrev IsLower : Map D → Map D → Type 0
  IsLower m m' = (k : ℤ) → (units (at k m') ≤ℤ units (at k m)) ⊎ (units (at k m') ≤ℤ pos 0)

  IsClosed-lower :
      (m m' : Map D) (is : List (Invoice D))
      → IsLower m m'
      → All (IsClosed m) is
      → All (IsClosed m') is
  IsClosed-lower m m' is lower =
      All-map (IsClosed m) (IsClosed m') (λ i c. omega (arith, lower i.id, c)) is

  IsLower-trans : (a b c : Map D) → IsLower a b → IsLower b c → IsLower a c
  IsLower-trans a b c h g k = elim (h k) [
    | inl x ↦ elim (g k) [ inl y ↦ inl (omega (arith, x, y)) | inr y ↦ inr y ]
    | inr x ↦ inr (omega (arith, x, g k))
  ]

  module _ (p i : ℤ) (s : Purse D) where
    abbrev moved : D
    moved = smallest s.available (at i s.remaining)

    pay_invoice-IsLower : IsLower s.remaining (pay_invoice p i s).remaining
    unfolding pay_invoice
    pay_invoice-IsLower k = elim (Bool-cases (d.is_positive moved)) [
      | inr nothing ↦ rw nothing (inl (omega arith))
      | inl some_left ↦ rw some_left (elim (Bool-cases (k ==ℤ i)) [
        | inr e ↦ rw (at-insert_ne i k _ s.remaining e) (inl (omega arith))
        | inl e ↦
            rw ((==ℤ_iff k i).0 e, at-insert_self)
              (inl (omega (arith, sub_parts (at i s.remaining) moved, positive some_left)))
      ])
    ]
      where
        positive : d.is_positive moved ≡ true → pos 0 ≤ℤ units moved
        positive e = ground (arith, d.is_positive_lem moved)

    -- After an invoice is paid, either nothing is available or it is closed.
    pay_invoice-exhausts :
        (units (pay_invoice p i s).available ≤ℤ pos 0)
        ⊎ (units (at i (pay_invoice p i s).remaining) ≤ℤ pos 0)
    unfolding pay_invoice
    pay_invoice-exhausts = elim (Bool-cases (d.is_positive moved)) [
      | inr nothing ↦ rw nothing (elim (smallest_parts s.available (at i s.remaining)).2 [
        | inl x ↦ inl (omega (arith, x, not_positive nothing))
        | inr x ↦ inr (omega (arith, x, not_positive nothing))
      ])
      | inl some_left ↦
          rw (some_left, at-insert_self)
            (elim (smallest_parts s.available (at i s.remaining)).2 [
              | inl x ↦ inl (omega (arith, x, sub_parts s.available moved))
              | inr x ↦ inr (omega (arith, x, sub_parts (at i s.remaining) moved))
            ])
    ]
      where
        not_positive : d.is_positive moved ≡ false → units moved ≤ℤ pos 0
        not_positive e = ground (arith, d.is_positive_lem moved)

  pay_invoice-spent :
      (p i : ℤ) (s : Purse D)
      → units s.available ≤ℤ pos 0
      → units (pay_invoice p i s).available ≤ℤ pos 0
  unfolding pay_invoice
  pay_invoice-spent p i s h = elim (Bool-cases (d.is_positive (moved p i s))) [
    | inr nothing ↦ rw nothing h
    | inl some_left ↦ absurd (
        ground (
          arith,
          h,
          d.is_positive_lem (moved p i s),
          smallest_parts s.available (at i s.remaining),
          some_left,
        ))
  ]

  module _ (p : ℤ) where
    pay_fifo-done :
        (i : Invoice D) (is : List (Invoice D)) (s : Purse D)
        → d.is_zero s.available ≡ true
        → pay_fifo p (i ∷ is) s ≡ s
    unfolding pay_fifo
    pay_fifo-done i is s e = rw e

    pay_fifo-more :
        (i : Invoice D) (is : List (Invoice D)) (s : Purse D)
        → d.is_zero s.available ≡ false
        → pay_fifo p (i ∷ is) s ≡ pay_fifo p is (pay_invoice p i.id s)
    unfolding pay_fifo
    pay_fifo-more i is s e = rw e

    pay_fifo-IsLower :
        (is : List (Invoice D)) (s : Purse D) → IsLower s.remaining (pay_fifo p is s).remaining
    unfolding pay_fifo
    pay_fifo-IsLower [] s = λ k. inl (omega arith)
    pay_fifo-IsLower (i ∷ is) s = elim (Bool-cases (d.is_zero s.available)) [
      | inl done ↦ rw done (λ k. inl (omega arith))
      | inr more ↦ rw more (
          IsLower-trans s.remaining (pay_invoice p i.id s).remaining _
            (pay_invoice-IsLower p i.id s) (pay_fifo-IsLower is (pay_invoice p i.id s)))
    ]

    -- Nothing available stays so.
    pay_fifo-spent :
        (is : List (Invoice D)) (s : Purse D)
        → units s.available ≤ℤ pos 0
        → units (pay_fifo p is s).available ≤ℤ pos 0
    unfolding pay_fifo
    pay_fifo-spent [] s h = h
    pay_fifo-spent (i ∷ is) s h = elim (Bool-cases (d.is_zero s.available)) [
      | inl done ↦ rw done h
      | inr more ↦ rw more (pay_fifo-spent is (pay_invoice p i.id s) (pay_invoice-spent p i.id s h))
    ]

  -- Everything is spent, or the invoices are closed.
  abbrev IsExhausted : List (Invoice D) → Purse D → Type 0
  IsExhausted is s = (units s.available ≤ℤ pos 0) ⊎ All (IsClosed s.remaining) is

  pay_fifo-exhausts :
      (p : ℤ) (is : List (Invoice D)) (s : Purse D) → IsExhausted is (pay_fifo p is s)
  pay_fifo-exhausts p [] s = inr tt
  pay_fifo-exhausts p (i ∷ is) s = elim (Bool-cases (d.is_zero s.available)) [
    | inl done ↦
        subst (IsExhausted (i ∷ is)) (sym (pay_fifo-done p i is s done))
          (inl (ground (arith, d.is_zero_lem s.available, done)))
    | inr more ↦
        subst (IsExhausted (i ∷ is)) (sym (pay_fifo-more p i is s more))
          (elim (pay_invoice-exhausts p i.id s) [
            | inl x ↦ inl (pay_fifo-spent p is (pay_invoice p i.id s) x)
            | inr x ↦ elim (pay_fifo-exhausts p is (pay_invoice p i.id s)) [
              | inl y ↦ inl y
              | inr y ↦ inr (omega (arith, x, pay_fifo-IsLower p is (pay_invoice p i.id s) i.id), y)
            ]
          ])
  ]

  pay-exhausts :
      (p : Payment D) (is : List (Invoice D)) (s : Purse D)
      → IsExhausted is (pay p is s.planned s.remaining)
        × IsLower s.remaining (pay p is s.planned s.remaining).remaining
  unfolding pay
  pay-exhausts p is s = (
    pay_fifo-exhausts p.id is first,
    elim (Bool-cases (p.preferred_invoice_id ==ℤ pos 0)) [
      | inl fifo ↦ rw fifo (pay_fifo-IsLower p.id is start)
      | inr chosen ↦ rw chosen (
          IsLower-trans s.remaining (pay_invoice p.id p.preferred_invoice_id start).remaining _
            (pay_invoice-IsLower p.id p.preferred_invoice_id start)
            (pay_fifo-IsLower p.id is (pay_invoice p.id p.preferred_invoice_id start)))
    ],
  )
    where
      start : Purse D
      start = record { planned = s.planned; remaining = s.remaining; available = p.amount }

      first : Purse D
      first =
          if p.preferred_invoice_id ==ℤ pos 0
          then start
          else pay_invoice p.id p.preferred_invoice_id start

  pay_all-exhausts :
      (ps : List (Payment D)) (is : List (Invoice D)) (s : Purse D)
      → IsExhausted is s
      → IsExhausted is (pay_all ps is s)
  unfolding pay_all
  pay_all-exhausts [] is s h = h
  pay_all-exhausts (p ∷ ps) is s h =
      let (paid, lower) = pay-exhausts p is s in
      let purse = pay p is s.planned s.remaining in
      pay_all-exhausts ps is _ (elim h [
        | inr closed ↦ inr (IsClosed-lower s.remaining purse.remaining is lower closed)
        | inl spent ↦ elim paid [
          | inr closed ↦ inr closed
          | inl spent' ↦ inl (omega (arith, spent, spent', add_parts s.available purse.available))
        ]
      ])

  pay_all-IsLower :
      (ps : List (Payment D)) (is : List (Invoice D)) (s : Purse D)
      → IsLower s.remaining (pay_all ps is s).remaining
  unfolding pay_all
  pay_all-IsLower [] is s = λ k. inl (omega arith)
  pay_all-IsLower (p ∷ ps) is s =
      IsLower-trans s.remaining (pay p is s.planned s.remaining).remaining _ (pay-exhausts p is s).1
        (pay_all-IsLower ps is _)

  -- The unused offset is spent, or the invoices are closed.
  abbrev IsOffset : List (Invoice D) → Map D × Map D × D → Type 0
  IsOffset is r = (units r.2 ≤ℤ pos 0) ⊎ All (IsClosed r.1) is

  module _ (i : ℤ) (remaining : Map D) (offset : D) where
    abbrev covered : D
    covered = smallest offset (at i remaining)

    abbrev lowered : Map D
    lowered = insert i (sub (at i remaining) covered) remaining

    lowered-IsLower :
        pos 0 ≤ℤ units offset → pos 0 ≤ℤ units (at i remaining) → IsLower remaining lowered
    lowered-IsLower h g k = elim (Bool-cases (k ==ℤ i)) [
      | inr e ↦ rw (at-insert_ne i k _ remaining e) (inl (omega arith))
      | inl e ↦
          rw ((==ℤ_iff k i).0 e, at-insert_self)
            (inl (
              omega (
                arith,
                sub_parts (at i remaining) covered,
                smallest_parts offset (at i remaining),
              )))
    ]

    lowered-exhausts : (units (sub offset covered) ≤ℤ pos 0) ⊎ (units (at i lowered) ≤ℤ pos 0)
    lowered-exhausts = elim (smallest_parts offset (at i remaining)).2 [
      | inl x ↦ inl (omega (arith, x, sub_parts offset covered))
      | inr x ↦ inr (rw at-insert_self (omega (arith, x, sub_parts (at i remaining) covered)))
    ]

    lowered_nonneg : (k : ℤ) → pos 0 ≤ℤ units (at k remaining) → pos 0 ≤ℤ units (at k lowered)
    lowered_nonneg k h = elim (Bool-cases (k ==ℤ i)) [
      | inr e ↦ rw (at-insert_ne i k _ remaining e) h
      | inl e ↦
          let at_i : pos 0 ≤ℤ units (at i remaining) = rw (← (==ℤ_iff k i).0 e) h in
          rw ((==ℤ_iff k i).0 e, at-insert_self)
            (omega (
              arith,
              at_i,
              sub_parts (at i remaining) covered,
              smallest_parts offset (at i remaining),
            ))
    ]

    left_nonneg : pos 0 ≤ℤ units offset → pos 0 ≤ℤ units (sub offset covered)
    left_nonneg h = omega (arith, sub_parts offset covered, smallest_parts offset (at i remaining))

  apply_offsets-exhausts :
      (is : List (Invoice D)) (applied remaining : Map D) (offset : D)
      → ((k : ℤ) → pos 0 ≤ℤ units (at k remaining))
      → pos 0 ≤ℤ units offset
      → IsOffset is (apply_offsets is applied remaining offset)
        × IsLower remaining (apply_offsets is applied remaining offset).1
        × (units (apply_offsets is applied remaining offset).2 ≤ℤ units offset)
  unfolding apply_offsets
  apply_offsets-exhausts [] applied remaining offset due whole =
      (inr tt, λ k. inl (omega arith), omega arith)
  apply_offsets-exhausts (i ∷ is) applied remaining offset due whole =
      let left = left_nonneg i.id remaining offset whole in
      let (rest, lower, spent) =
        apply_offsets-exhausts is _ (lowered i.id remaining offset) _
          (λ k. lowered_nonneg i.id remaining offset k (due k)) left in
      (
        elim (lowered-exhausts i.id remaining offset) [
          | inl x ↦ inl (omega (arith, x, spent))
          | inr x ↦ elim rest [ inl y ↦ inl y | inr y ↦ inr (omega (arith, x, lower i.id), y) ]
        ],
        IsLower-trans remaining (lowered i.id remaining offset) _
            (lowered-IsLower i.id remaining offset whole (due i.id)) lower,
        omega (
          arith,
          spent,
          sub_parts offset (covered i.id remaining offset),
          smallest_parts offset (at i.id remaining),
          due i.id,
        ),
      )

  distribute-IsClosed :
      (ledger : D) (is : List (Invoice D)) (net : List (Payment D)) (claims : Map D) (offset : D)
      → ((k : ℤ) → pos 0 ≤ℤ units (at k claims))
      → pos 0 ≤ℤ units offset
      → let plan = distribute ledger is net claims offset in
        ((units plan.unallocated_cash ≤ℤ pos 0) × (units plan.unused_offset ≤ℤ pos 0))
        ⊎ All (IsClosed plan.remaining) is
  unfolding distribute
  distribute-IsClosed ledger is net claims offset due whole =
      let r = apply_offsets is [] claims offset in
      let (offsets, _, _) = apply_offsets-exhausts is [] claims offset due whole in
      let start : Purse D = record { planned = []; remaining = r.1; available = d.zero } in
      elim offsets [
        | inr closed ↦ inr (
            IsClosed-lower r.1 (pay_all net is start).remaining is (pay_all-IsLower net is start)
              closed)
        | inl spent ↦ elim (pay_all-exhausts net is start (inl (omega (arith, zero_parts D)))) [
          | inr closed ↦ inr closed
          | inl cash ↦ inl (cash, spent)
        ]
      ]

module _ {D : Type 0} ⦃d : Decimal D⦄ (input : Input D) {plan : Plan D} where
  -- In a plan that is returned, cash that is not allocated or an offset that is not used means that
  -- nothing is left open on any invoice.
  pub plan-IsClosed :
      plan_invoice_allocation input ≡ ok plan
      → (pos 1 ≤ℤ d.units plan.unallocated_cash) ⊎ (pos 1 ≤ℤ d.units plan.unused_offset)
      → All (IsClosed plan.remaining) input.invoices
  plan-IsClosed planned left =
      let run = plan-Run input planned in
      let spent = λ (q : Plan D).
        (d.units q.unallocated_cash ≤ℤ pos 0) × (d.units q.unused_offset ≤ℤ pos 0) in
      elim (subst (λ q. spent q ⊎ All (IsClosed q.remaining) (sort_by invoice_order input.invoices))
        run.planning
        (distribute-IsClosed input.ledger (sort_by invoice_order input.invoices) run.net run.claims
          run.offset ((Run-Opened input run).nonneg (λ k. omega (arith, at-nil D k)))
          (Run-offset_nonneg input run))) [
            | inr closed ↦ sort_by-All invoice_order (IsClosed plan.remaining) input.invoices closed
            | inl none_left ↦ absurd (omega (arith, left, none_left))
          ]
