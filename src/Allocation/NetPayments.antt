-- ===== src/Allocation/NetPayments.antt =====
-- `allocationNetPayments`: a payment and its reversal drop out together, so the net payments bring
-- in what all payments do, and none of them is negative.
use treckrr.Prelude.{
  All, All-map, Option, none, some, ok-injective, subst, ◌∙◌, ℤ, pos, ◌+ℤ◌, ◌≤ℤ◌, ◌==ℤ◌, ◌≈◌, ◌≡◌,
  refl, inl, inr, Bool-cases, Option-cases, List, [], ◌∷◌, Map, insert, lookup, arith,
  if◌then◌else◌, Bool, true, false, not, ◌&&◌, int_laws, ==ℤ_iff, ==ℤ_refl, +ℤ_parts, contains,
  lookup-insert, Result, ok, ◌>>=◌, first_of_chain, refuse_if-ok, sym, ◌||◌,
}
use mathlib.Core.Option.{some-injective}
use treckrr.Decimal.{Decimal, neg_parts}
use treckrr.Allocation.Data.{Payment, Error}
use treckrr.Allocation.Reversal.{
  is_bad_payment, file_payments, reverse_one, mark_reversed, keep_net, allocation_net_payments,
}
use treckrr.Allocation.Order.{sort_by, payment_order}
use treckrr.Allocation.Sorting.{sum_by, sum_by-sort_by, All-sort_by}
use treckrr.Allocation.Payments.{amounts, NonnegAmounts}

contains-insert :
    (k j : ℤ) (m : Map Bool)
    → contains j (insert k true m) ≡ (if j ==ℤ k then true else contains j m)
contains-insert k j m = ground (arith, lookup-insert k j true m)

module _ {D : Type 0} where
  abbrev is_original : Payment D → Bool
  is_original p = p.reversal_of_id ==ℤ pos 0

  abbrev find : ℤ → List (Payment D) → Option (Payment D)
  find k [] = none
  find k (p ∷ ps) = if k ==ℤ p.id then some p else find k ps

  abbrev or_else : Option (Payment D) → Option (Payment D) → Option (Payment D)
  or_else none o = o
  or_else (some p) o = some p

  or_else-none : (o : Option (Payment D)) → or_else o none ≡ o
  or_else-none none = refl
  or_else-none (some p) = refl

  abbrev DistinctPayments : List (Payment D) → Type 0
  DistinctPayments [] = Unit
  DistinctPayments (p ∷ ps) = All (λ q. (q.id ==ℤ p.id) ≡ false) ps × DistinctPayments ps

  find-none :
      (k : ℤ) (ps : List (Payment D)) → All (λ q. (q.id ==ℤ k) ≡ false) ps → find k ps ≡ none
  find-none k [] h = refl
  find-none k (p ∷ ps) h = ground (arith, find-none k ps h.1)

  find-id :
      (k : ℤ) (ps : List (Payment D)) (o : Payment D) → find k ps ≡ some o → (k ==ℤ o.id) ≡ true
  find-id k [] o e = cc
  find-id k (p ∷ ps) o e = elim (Bool-cases (k ==ℤ p.id)) [
    | inl here ↦ let same : some p ≡ some o = rw here at e in rw (← some-injective _ _ same) here
    | inr there ↦ find-id k ps o (rw there at e)
  ]

module _ {D : Type 0} ⦃d : Decimal D⦄ where
  open d use {units, neg}

  -- The sign of a checked payment.
  abbrev IsSigned : Payment D → Type 0
  IsSigned p = is_original p ≡ true → pos 0 ≤ℤ units p.amount

  record Filed (ps : List (Payment D)) (before after : Map (Payment D)) : Type 0 where
    signed : All IsSigned ps
    distinct : DistinctPayments ps
    fresh : All (λ p. contains p.id before ≡ false) ps
    found : (k : ℤ) → lookup k after ≡ or_else (find k ps) (lookup k before)

  is_bad_payment-false :
      (p : Payment D) (m : Map (Payment D))
      → is_bad_payment p m ≡ false
      → (contains p.id m ≡ false) × IsSigned p
  unfolding is_bad_payment
  is_bad_payment-false p m e = ground (arith, d.is_negative_lem p.amount)

  module _ (p : Payment D) (before : Map (Payment D)) where
    contains-filed_false :
        (k : ℤ)
        → contains k (insert p.id p before) ≡ false
        → ((k ==ℤ p.id) ≡ false) × (contains k before ≡ false)
    contains-filed_false k e = ground (arith, lookup-insert p.id k p before)

    Filed-insert :
        (ps : List (Payment D)) (after : Map (Payment D))
        → contains p.id before ≡ false
        → IsSigned p
        → Filed ps (insert p.id p before) after
        → Filed (p ∷ ps) before after
    Filed-insert ps after new sign h = record {
      signed = (sign, h.signed);
      distinct = (apart, h.distinct);
      fresh = (new, All-map _ _ (λ q e. (contains-filed_false q.id e).1) ps h.fresh);
      found = λ k. found_step k;
    }
      where
        apart : All (λ q. (q.id ==ℤ p.id) ≡ false) ps
        apart = All-map _ _ (λ q e. (contains-filed_false q.id e).0) ps h.fresh

        found_step : (k : ℤ) → lookup k after ≡ or_else (find k (p ∷ ps)) (lookup k before)
        found_step k = elim (Bool-cases (k ==ℤ p.id)) [
          | inl e ↦
              let none_left : find k ps ≡ none =
                rw ((==ℤ_iff k p.id).0 e) (find-none p.id ps apart) in
              ground (arith, h.found k, none_left, lookup-insert p.id k p before)
          | inr e ↦ ground (arith, h.found k, lookup-insert p.id k p before)
        ]

  file_payments-Filed :
      (ps : List (Payment D)) (invoices : Map D) (before after : Map (Payment D))
      → file_payments ps invoices before ≡ ok after
      → Filed ps before after
  unfolding file_payments
  file_payments-Filed [] invoices before after e =
      subst (Filed [] before) (ok-injective e)
        (record { signed = tt; distinct = tt; fresh = tt; found = λ k. refl })
  file_payments-Filed (p ∷ ps) invoices before after e =
      let checked = refuse_if-ok _ _ _ e in
      let fine = is_bad_payment-false p before checked.0 in
      let targeted = refuse_if-ok _ _ _ checked.1 in
      Filed-insert p before ps after fine.0 fine.1
        (file_payments-Filed ps invoices (insert p.id p before) after targeted.1)

  -- What the originals that are marked as reversed brought in.
  abbrev reversed_sum : List (Payment D) → Map Bool → ℤ
  reversed_sum [] reversed = pos 0
  reversed_sum (p ∷ ps) reversed =
      (if is_original p && contains p.id reversed then units p.amount else pos 0)
      +ℤ reversed_sum ps reversed

  reversed_sum-nil : (ps : List (Payment D)) → reversed_sum ps [] ≈ pos 0
  reversed_sum-nil [] = refl
  reversed_sum-nil (p ∷ ps) = elim (Bool-cases (is_original p)) [
    | inl e ↦ rw e (omega (int_laws, reversed_sum-nil ps))
    | inr e ↦ rw e (omega (int_laws, reversed_sum-nil ps))
  ]

  -- What the reversals take back.
  abbrev reversal_sum : List (Payment D) → ℤ
  reversal_sum = sum_by (λ p. if is_original p then pos 0 else units p.amount)

  reversed_sum-other :
      (k : ℤ) (ps : List (Payment D)) (reversed : Map Bool)
      → All (λ q. (q.id ==ℤ k) ≡ false) ps
      → reversed_sum ps (insert k true reversed) ≈ reversed_sum ps reversed
  reversed_sum-other k [] reversed h = refl
  reversed_sum-other k (p ∷ ps) reversed h =
      rw (contains-insert k p.id reversed, h.0)
        (omega (int_laws, reversed_sum-other k ps reversed h.1))

  reversed_sum-insert_head :
      (p : Payment D) (ps : List (Payment D)) (reversed : Map Bool)
      → All (λ q. (q.id ==ℤ p.id) ≡ false) ps
      → is_original p ≡ true
      → contains p.id reversed ≡ false
      → reversed_sum (p ∷ ps) (insert p.id true reversed)
        ≈ reversed_sum (p ∷ ps) reversed +ℤ units p.amount
  reversed_sum-insert_head p ps reversed apart original new =
      rw (contains-insert p.id p.id reversed, ==ℤ_refl p.id, original, new)
        (omega (int_laws, reversed_sum-other p.id ps reversed apart))

  ids_differ :
      (k : ℤ) (p o : Payment D)
      → (k ==ℤ p.id) ≡ false
      → (k ==ℤ o.id) ≡ true
      → (p.id ==ℤ o.id) ≡ false
  ids_differ k p o e f = ground arith

  -- Marking one more original adds its amount.
  reversed_sum-insert :
      (k : ℤ) (ps : List (Payment D)) (o : Payment D) (reversed : Map Bool)
      → DistinctPayments ps
      → find k ps ≡ some o
      → is_original o ≡ true
      → contains o.id reversed ≡ false
      → reversed_sum ps (insert o.id true reversed) ≈ reversed_sum ps reversed +ℤ units o.amount
  reversed_sum-insert k [] o reversed distinct found original new = cc
  reversed_sum-insert k (p ∷ ps) o reversed distinct found original new =
      elim (Bool-cases (k ==ℤ p.id)) [
        | inl e ↦
            let same : some p ≡ some o = rw e at found in
            let p' = some-injective _ _ same in
            subst
              (λ q.
                reversed_sum (p ∷ ps) (insert q.id true reversed)
                ≈ reversed_sum (p ∷ ps) reversed +ℤ units q.amount)
              p' (reversed_sum-insert_head p ps reversed distinct.0 (rw p' original) (rw p' new))
        | inr e ↦
            let rest : find k ps ≡ some o = rw e at found in
            rw (contains-insert o.id p.id reversed, ids_differ k p o e (find-id k ps o rest))
              (omega (int_laws, reversed_sum-insert k ps o reversed distinct.1 rest original new))
      ]

  keep_net-sum :
      (ps : List (Payment D)) (reversed : Map Bool)
      → amounts (keep_net ps reversed) +ℤ reversed_sum ps reversed +ℤ reversal_sum ps ≈ amounts ps
  unfolding keep_net
  keep_net-sum [] reversed = omega int_laws
  keep_net-sum (p ∷ ps) reversed = elim (Bool-cases (is_original p)) [
    | inr e ↦ rw e (omega (int_laws, keep_net-sum ps reversed))
    | inl e ↦ elim (Bool-cases (contains p.id reversed)) [
      | inl gone ↦ rw (e, gone) (omega (int_laws, keep_net-sum ps reversed))
      | inr stays ↦ rw (e, stays) (omega (int_laws, keep_net-sum ps reversed))
    ]
  ]

  keep_net-All :
      (ps : List (Payment D)) (reversed : Map Bool)
      → All IsSigned ps
      → NonnegAmounts (keep_net ps reversed)
  unfolding keep_net
  keep_net-All [] reversed h = tt
  keep_net-All (p ∷ ps) reversed h =
      elim (Bool-cases (is_original p && not (contains p.id reversed))) [
        | inl e ↦ rw e (h.0 (ground (arith, e)), keep_net-All ps reversed h.1)
        | inr e ↦ rw e (keep_net-All ps reversed h.1)
      ]

  reversible :
      (p o : Payment D) (reversed : Map Bool)
      → (not (is_original o) || contains o.id reversed || not (d.equal o.amount (neg p.amount)))
        ≡ false
      → (is_original o ≡ true)
        × (contains o.id reversed ≡ false)
        × (units o.amount +ℤ units p.amount ≈ pos 0)
  reversible p o reversed e = ground (
    arith,
    d.equal_lem o.amount (neg p.amount),
    neg_parts p.amount,
    +ℤ_parts (units o.amount) (units p.amount),
  )

  module _ (ps : List (Payment D)) (by_id : Map (Payment D)) (distinct : DistinctPayments ps)
      (found : (k : ℤ) → lookup k by_id ≡ find k ps) where
    reverse_one-sum :
        (p : Payment D) (reversed after : Map Bool)
        → reverse_one p (lookup p.reversal_of_id by_id) reversed ≡ ok after
        → reversed_sum ps after +ℤ units p.amount ≈ reversed_sum ps reversed
    unfolding reverse_one
    reverse_one-sum p reversed after e = elim (Option-cases (lookup p.reversal_of_id by_id)) [
      | inl missing ↦ cc (rw missing at e)
      | inr (o, there) ↦
          let checked = refuse_if-ok _ _ _ (rw there at e) in
          let (original, new, cancels) = reversible p o reversed checked.0 in
          subst (λ m. reversed_sum ps m +ℤ units p.amount ≈ reversed_sum ps reversed)
            (ok-injective checked.1)
            (omega (
              int_laws,
              reversed_sum-insert p.reversal_of_id ps o reversed distinct
                  (sym (found p.reversal_of_id) ∙ there) original new,
              cancels,
            ))
    ]

    mark_reversed-sum :
        (rs : List (Payment D)) (reversed after : Map Bool)
        → mark_reversed rs by_id reversed ≡ ok after
        → reversed_sum ps after +ℤ reversal_sum rs ≈ reversed_sum ps reversed
    unfolding mark_reversed
    mark_reversed-sum [] reversed after e =
        subst (λ m. reversed_sum ps m +ℤ pos 0 ≈ reversed_sum ps reversed) (ok-injective e)
          (omega int_laws)
    mark_reversed-sum (r ∷ rs) reversed after e = elim (Bool-cases (is_original r)) [
      | inl original ↦
          rw original (omega (int_laws, mark_reversed-sum rs reversed after (rw original at e)))
      | inr reversal ↦
          let (reversed', marked, rest) =
            first_of_chain (λ m. mark_reversed rs by_id m)
              (reverse_one r (lookup r.reversal_of_id by_id) reversed) (rw reversal at e) in
          rw reversal (
            omega (
              int_laws,
              reverse_one-sum r reversed reversed' marked,
              mark_reversed-sum rs reversed' after rest,
            ))
    ]

  -- The net payments bring in what all payments of the account do, with reversals as negative
  -- amounts, and none of them is negative.
  pub allocation_net_payments_lem :
      (ps : List (Payment D)) (invoices : Map D) {net : List (Payment D)}
      → allocation_net_payments ps invoices ≡ ok net
      → (amounts net ≈ amounts ps) × NonnegAmounts net
  unfolding allocation_net_payments
  allocation_net_payments_lem ps invoices {net} e =
      let sorted : Map Bool → Result Error (List (Payment D)) =
        λ reversed. ok (sort_by payment_order (keep_net ps reversed)) in
      let (by_id, filing, rest) =
        first_of_chain (λ by_id. mark_reversed ps by_id [] >>= sorted)
          (file_payments ps invoices []) e in
      let (reversed, marking, sorting) = first_of_chain sorted (mark_reversed ps by_id []) rest in
      let filed = file_payments-Filed ps invoices [] by_id filing in
      let kept = keep_net ps reversed in
      let found = λ (k : ℤ). filed.found k ∙ or_else-none (find k ps) in
      subst (λ out. (amounts out ≈ amounts ps) × NonnegAmounts out) (ok-injective sorting)
        (
          omega (
            int_laws,
            sum_by-sort_by payment_order (λ p. units p.amount) kept,
            keep_net-sum ps reversed,
            reversed_sum-nil ps,
            mark_reversed-sum ps by_id filed.distinct found ps [] reversed marking,
          ),
          All-sort_by payment_order _ kept (keep_net-All ps reversed filed.signed),
        )
