-- ===== src/Allocation/Offsets.antt =====
-- The second loop of the planner: offsets lower the open claims, and nothing is lost.
use treckrr.Prelude.{
  All, ℤ, pos, ◌+ℤ◌, ◌≤ℤ◌, ◌==ℤ◌, ◌≈◌, ◌≡◌, refl, inl, inr, Bool-cases, List, [], ◌∷◌, Map, insert,
  arith, false, int_laws, ==ℤ_iff,
}
use treckrr.Decimal.{Decimal, sub_parts, smallest_parts}
use treckrr.Allocation.Data.{Invoice}
use treckrr.Allocation.Plan.{at, apply_offsets}
use treckrr.Allocation.Sums.{total, total-insert, at-insert_self, at-insert_ne}
use treckrr.Allocation.Claims.{Distinct}

module _ {D : Type 0} ⦃d : Decimal D⦄ where
  open d use {units, smallest, sub}

  abbrev IsUnused : Map D → Invoice D → Type 0
  IsUnused applied i = units (at i.id applied) ≈ pos 0

  -- The result is `plan.OffsetApplied`, `plan.Remaining` and the unused offset.
  pub record IsApplied (applied remaining : Map D) (offset : D) (r : Map D × Map D × D)
      : Type 0 where
    pub by_invoice :
        (k : ℤ)
        → units (at k r.1) +ℤ units (at k r.0) ≈ units (at k remaining) +ℤ units (at k applied)
    pub open_nonneg : (k : ℤ) → pos 0 ≤ℤ units (at k r.1)
    pub applied_nonneg : (k : ℤ) → pos 0 ≤ℤ units (at k r.0)
    pub offset_nonneg : pos 0 ≤ℤ units r.2
    pub balance : total r.1 +ℤ units offset ≈ total remaining +ℤ units r.2

  module _ (i : ℤ) (applied remaining : Map D) (offset : D) where
    abbrev amount : D
    amount = smallest offset (at i remaining)

    abbrev applied' : Map D
    applied' = insert i amount applied

    abbrev remaining' : Map D
    remaining' = insert i (sub (at i remaining) amount) remaining

    offset_step :
        ((k : ℤ) → pos 0 ≤ℤ units (at k remaining))
        → ((k : ℤ) → pos 0 ≤ℤ units (at k applied))
        → pos 0 ≤ℤ units offset
        → units (at i applied) ≈ pos 0
        → IsApplied applied remaining offset (applied', remaining', sub offset amount)
    offset_step due used whole unused = record {
      by_invoice = λ k. (at_invoice k).0;
      open_nonneg = λ k. (at_invoice k).1;
      applied_nonneg = λ k. (at_invoice k).2;
      offset_nonneg =
          omega (arith, sub_parts offset amount, smallest_parts offset (at i remaining));
      balance = omega (
        int_laws,
        sub_parts offset amount,
        sub_parts (at i remaining) amount,
        total-insert i (sub (at i remaining) amount) remaining,
      );
    }
      where
        at_invoice :
            (k : ℤ)
            → (units (at k remaining') +ℤ units (at k applied')
                ≈ units (at k remaining) +ℤ units (at k applied))
              × (pos 0 ≤ℤ units (at k remaining'))
              × (pos 0 ≤ℤ units (at k applied'))
        at_invoice k = elim (Bool-cases (k ==ℤ i)) [
          | inl e ↦
              rw
                (
                  (==ℤ_iff k i).0 e,
                  at-insert_self i (sub (at i remaining) amount) remaining,
                  at-insert_self i amount applied,
                )
                (omega (
                  int_laws,
                  sub_parts (at i remaining) amount,
                  unused,
                  smallest_parts offset (at i remaining),
                  due i,
                ))
          | inr e ↦
              rw
                (
                  at-insert_ne i k (sub (at i remaining) amount) remaining e,
                  at-insert_ne i k amount applied e,
                )
                (omega (int_laws, due k, used k))
        ]

    IsUnused-step :
        (j : Invoice D) → (j.id ==ℤ i) ≡ false → IsUnused applied j → IsUnused applied' j
    IsUnused-step j e unused = rw (at-insert_ne i j.id amount applied e) unused

  IsUnused-steps :
      (i : ℤ) (applied remaining : Map D) (offset : D) (is : List (Invoice D))
      → All (λ j. (j.id ==ℤ i) ≡ false) is
      → All (IsUnused applied) is
      → All (IsUnused (applied' i applied remaining offset)) is
  IsUnused-steps i applied remaining offset [] e u = tt
  IsUnused-steps i applied remaining offset (j ∷ js) e u = (
    IsUnused-step i applied remaining offset j e.0 u.0,
    IsUnused-steps i applied remaining offset js e.1 u.1,
  )

  pub apply_offsets-IsApplied :
      (is : List (Invoice D)) (applied remaining : Map D) (offset : D)
      → Distinct is
      → All (IsUnused applied) is
      → ((k : ℤ) → pos 0 ≤ℤ units (at k remaining))
      → ((k : ℤ) → pos 0 ≤ℤ units (at k applied))
      → pos 0 ≤ℤ units offset
      → IsApplied applied remaining offset (apply_offsets is applied remaining offset)
  unfolding apply_offsets
  apply_offsets-IsApplied [] applied remaining offset distinct unused due used whole = record {
    by_invoice = λ k. refl;
    open_nonneg = due;
    applied_nonneg = used;
    offset_nonneg = whole;
    balance = refl;
  }
  apply_offsets-IsApplied (i ∷ is) applied remaining offset distinct unused due used whole =
      let first = offset_step i.id applied remaining offset due used whole unused.0 in
      let rest =
        apply_offsets-IsApplied is _ _ (sub offset (amount i.id applied remaining offset))
          distinct.1 (IsUnused-steps i.id applied remaining offset is distinct.0 unused.1)
          first.open_nonneg first.applied_nonneg first.offset_nonneg in
      record {
        by_invoice = λ k. omega (int_laws, first.by_invoice k, rest.by_invoice k);
        open_nonneg = rest.open_nonneg;
        applied_nonneg = rest.applied_nonneg;
        offset_nonneg = rest.offset_nonneg;
        balance = omega (int_laws, first.balance, rest.balance);
      }
