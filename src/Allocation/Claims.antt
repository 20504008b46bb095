-- ===== src/Allocation/Claims.antt =====
-- The first loop of the planner: what a successful check of the invoices says about them.
use treckrr.Prelude.{
  All, All-map, ok-injective, subst, ap, ◌∙◌, ℤ, pos, ◌+ℤ◌, ◌≤ℤ◌, ◌==ℤ◌, ◌≈◌, ◌≡◌, refl, inl, inr,
  Bool-cases, List, [], ◌∷◌, Map, insert, arith, if◌then◌else◌, true, false, int_laws, ==ℤ_iff,
  ==ℤ_refl, contains, lookup-insert, ok,
}
use treckrr.Decimal.{Decimal, zero_parts, add_parts, neg_parts, largest_parts}
use treckrr.Allocation.Data.{Invoice}
use treckrr.Allocation.Plan.{at, claim, is_bad_invoice, open_claims}
use treckrr.Allocation.Sorting.{sum_by}
use treckrr.Allocation.Sums.{total, total-insert, at-insert_self, at-insert_ne, at-missing}

-- No two invoices have one identifier.
abbrev pub Distinct : {D : Type 0} → List (Invoice D) → Type 0
Distinct [] = Unit
Distinct (i ∷ is) = All (λ j. (j.id ==ℤ i.id) ≡ false) is × Distinct is

module _ {D : Type 0} ⦃d : Decimal D⦄ where
  open d use {units, largest, neg, zero, add}

  -- Gross and attached credits, with their signs.
  abbrev pub claims_sum : List (Invoice D) → ℤ
  claims_sum = sum_by (λ i. units i.gross +ℤ units i.attached_credit)

  -- The open amount of an invoice before anything is applied: its claim, or zero if that is negative.
  abbrev pub IsOpenClaim : Map D → Invoice D → Type 0
  IsOpenClaim m i = at i.id m ≡ largest (claim i) zero

  pub record Opened (is : List (Invoice D)) (before after : Map D) (offset offset' : D)
      : Type 0 where
    pub distinct : Distinct is
    pub fresh : All (λ i. contains i.id before ≡ false) is
    pub kept : (k : ℤ) → contains k before ≡ true → at k after ≡ at k before
    pub claimed : All (IsOpenClaim after) is
    pub nonneg : ((k : ℤ) → pos 0 ≤ℤ units (at k before)) → (k : ℤ) → pos 0 ≤ℤ units (at k after)
    pub offset_le : units offset ≤ℤ units offset'
    pub balance : total after +ℤ units offset ≈ total before +ℤ units offset' +ℤ claims_sum is

  is_bad_invoice-fresh :
      (i : Invoice D) (m : Map D) → is_bad_invoice i m ≡ false → contains i.id m ≡ false
  unfolding is_bad_invoice
  is_bad_invoice-fresh i m e = ground arith

  module _ (i : Invoice D) (before : Map D) (offset : D) where
    abbrev opened : Map D
    opened = insert i.id (largest (claim i) zero) before

    abbrev raised : D
    raised = add offset (largest (neg (claim i)) zero)

    contains-opened : (k : ℤ) → contains k opened ≡ (if k ==ℤ i.id then true else contains k before)
    contains-opened k = ground (arith, lookup-insert i.id k (largest (claim i) zero) before)

    contains-opened-false :
        (k : ℤ) → contains k opened ≡ false → ((k ==ℤ i.id) ≡ false) × (contains k before ≡ false)
    contains-opened-false k e = ground (arith, contains-opened k)

    contains-opened-true : (k : ℤ) → contains k before ≡ true → contains k opened ≡ true
    contains-opened-true k e = ground (arith, contains-opened k)

    contains-opened_self : contains i.id opened ≡ true
    contains-opened_self =
        contains-opened i.id ∙ ap (λ b. if b then true else contains i.id before) (==ℤ_refl i.id)

    opened_nonneg : (k : ℤ) → pos 0 ≤ℤ units (at k before) → pos 0 ≤ℤ units (at k opened)
    opened_nonneg k old = elim (Bool-cases (k ==ℤ i.id)) [
      | inl e ↦
          rw ((==ℤ_iff k i.id).0 e, at-insert_self)
            (omega (arith, largest_parts (claim i) zero, zero_parts D))
      | inr e ↦ rw (at-insert_ne i.id k _ before e) old
    ]

    opened-total :
        contains i.id before ≡ false
        → total opened +ℤ units offset
          ≈ total before +ℤ units raised +ℤ (units i.gross +ℤ units i.attached_credit)
    opened-total e = omega (
      int_laws,
      total-insert i.id (largest (claim i) zero) before,
      at-missing i.id before e,
      add_parts offset (largest (neg (claim i)) zero),
      neg_parts (claim i),
      add_parts i.gross i.attached_credit,
      largest_parts (claim i) zero,
      largest_parts (neg (claim i)) zero,
      zero_parts D,
    )

    opened-Opened :
        (is : List (Invoice D)) (after : Map D) (offset' : D)
        → contains i.id before ≡ false
        → Opened is opened after raised offset'
        → Opened (i ∷ is) before after offset offset'
    opened-Opened is after offset' e h = record {
      distinct = (All-map _ _ (λ j new. (contains-opened-false j.id new).0) is h.fresh, h.distinct);
      fresh = (e, All-map _ _ (λ j new. (contains-opened-false j.id new).1) is h.fresh);
      kept = λ k old.
          h.kept k (contains-opened-true k old)
          ∙ at-insert_ne i.id k _ before (ground (arith, old, e));
      claimed = (h.kept i.id (contains-opened_self) ∙ at-insert_self i.id _ before, h.claimed);
      nonneg = λ old. h.nonneg (λ k. opened_nonneg k (old k));
      offset_le = omega (
        arith,
        h.offset_le,
        add_parts offset (largest (neg (claim i)) zero),
        largest_parts (neg (claim i)) zero,
        zero_parts D,
      );
      balance = omega (int_laws, h.balance, opened-total e);
    }

  pub open_claims-Opened :
      (is : List (Invoice D)) (before : Map D) (offset : D) (r : Map D × D)
      → open_claims is before offset ≡ ok r
      → Opened is before r.0 offset r.1
  unfolding open_claims
  open_claims-Opened [] before offset r e =
      subst (λ (t : Map D × D). Opened [] before t.0 offset t.1) (ok-injective e)
        (record {
          distinct = tt;
          fresh = tt;
          kept = λ k old. refl;
          claimed = tt;
          nonneg = λ old. old;
          offset_le = omega arith;
          balance = omega int_laws;
        })
  open_claims-Opened (i ∷ is) before offset r e = elim (Bool-cases (is_bad_invoice i before)) [
    | inl bad ↦ cc (rw bad at e)
    | inr fine ↦
        let rest : open_claims is (insert i.id (largest (claim i) zero) before)
              (add offset (largest (neg (claim i)) zero))
            ≡ ok r =
          rw fine at e in
        opened-Opened i before offset is r.0 r.1 (is_bad_invoice-fresh i before fine)
          (open_claims-Opened is _ _ r rest)
  ]
