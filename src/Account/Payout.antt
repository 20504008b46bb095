-- ===== src/Account/Payout.antt =====
-- Paying out a credit: the account is cleared and no other account moves.
use treckrr.Prelude.{
  ◌+◌, ◌*◌, ◌≤◌, pos, pos_part, neg_part, ◌+ℤ◌, ◌-ℤ◌, ◌≤ℤ◌, ◌≈◌, ◌≡◌, Bool, true, false, ◌||◌, not,
  inl, inr, ◌⊎◌, Bool-cases, [], arith, if◌then◌else◌, int_laws, sym, subst, ok, first_of_chain,
  ok-injective,
}
use treckrr.Decimal.{Decimal, zero_parts, neg_parts}
use treckrr.Calendar.{Date}
use treckrr.Text.{Text}
use treckrr.Account.Data.{Key, same_account, Books, credit_payout}
use treckrr.Account.Balance.{balance, remaining}
use treckrr.Account.Locks.{lock_account_boundary}
use treckrr.Account.Operations.{insert_posting, add_audit, posting, payout_credit}
use treckrr.Account.Effects.{balance-insert_posting, balance-add_audit, remaining_congr}
use treckrr.Account.Settlement.{IsWhole, remaining_of_rest, remaining-zero, same_account_refl}

module _ {D : Type 0} ⦃d : Decimal D⦄ where
  open d use {units, zero, neg}

  module _ (k : Key) (when : Date) (description : Text) (b : Books D) where
    -- What a payout leaves.
    abbrev pub paid_out : Books D
    paid_out =
        add_audit (credit_payout b.next_id (neg (remaining b k)) k.year_id)
          (insert_posting (posting b.next_id k (neg (remaining b k)) description when []) b)

    abbrev pub nothing_owed : Bool → Bool
    nothing_owed present = not present || not (d.is_negative (remaining b k))

    pub payout_credit_cases :
        (r : D × Books D)
        → payout_credit k when description b ≡ ok r
        → (present : Bool) × (((nothing_owed present ≡ true) × (r ≡ (zero, b)))
            ⊎ ((nothing_owed present ≡ false) × (r ≡ (neg (remaining b k), paid_out))))
    unfolding payout_credit
    payout_credit_cases r e =
        let outcome : Bool → D × Books D =
          λ present. if nothing_owed present then (zero, b) else (neg (remaining b k), paid_out) in
        let (present, _, returned) =
          first_of_chain (λ present. ok (outcome present)) (lock_account_boundary b k false true)
            e in
        let same = sym (ok-injective returned) in
        (
          present,
          elim (Bool-cases (nothing_owed present)) [
            | inl nothing ↦ inl (nothing, rw nothing at same)
            | inr due ↦ inr (due, rw due at same)
          ],
        )

    payout_credit_booked :
        {r : D × Books D}
        → payout_credit k when description b ≡ ok r
        → pos 1 ≤ℤ units r.0
        → r ≡ (neg (remaining b k), paid_out)
    payout_credit_booked {r} e booked = elim (payout_credit_cases r e).1 [
      | inl (_, kept) ↦ absurd (omega (arith, rw kept at booked, zero_parts D))
      | inr (_, same) ↦ same
    ]

    balance-paid_out : units (balance paid_out k) ≈ units (balance b k) -ℤ units (remaining b k)
    balance-paid_out =
        let out : units (balance paid_out k) ≈ units (balance b k) +ℤ units (neg (remaining b k)) =
          rw (← balance-add_audit (credit_payout b.next_id (neg (remaining b k)) k.year_id) _ k) at
            (rw (same_account_refl k) at (
              balance-insert_posting (posting b.next_id k (neg (remaining b k)) description when [])
                b k)) in
        omega (int_laws, out, neg_parts (remaining b k))

    paid_out-elsewhere :
        (j : Key) → same_account k j ≡ false → units (remaining paid_out j) ≡ units (remaining b j)
    paid_out-elsewhere j e =
        let unchanged : units (balance paid_out j) ≈ units (balance b j) +ℤ pos 0 =
          rw (← balance-add_audit (credit_payout b.next_id (neg (remaining b k)) k.year_id) _ j) at
            (rw e at (
              balance-insert_posting (posting b.next_id k (neg (remaining b k)) description when [])
                b j)) in
        remaining_congr paid_out b j j (omega (int_laws, unchanged))

  -- If a payout books an amount, then that amount is the credit that stood on the account, the open
  -- amount of any other account stays what it was, and the payout leaves at most half a cent of the
  -- balance on either side.
  pub payout_credit-clears :
      (k j : Key) (when : Date) (description : Text) (b : Books D) {r : D × Books D}
      → payout_credit k when description b ≡ ok r
      → pos 1 ≤ℤ units r.0
      → same_account k j ≡ false
      → (units r.0 ≈ pos 0 -ℤ units (remaining b k))
        × (units (remaining r.1 j) ≡ units (remaining b j))
        × (2 * pos_part (units (balance r.1 k)) ≤ d.cent + 2 * neg_part (units (balance r.1 k)))
        × (2 * neg_part (units (balance r.1 k)) ≤ d.cent + 2 * pos_part (units (balance r.1 k)))
  payout_credit-clears k j when description b {r} e booked other =
      let (low, high) =
        remaining_of_rest b (paid_out k when description b) k
          (balance-paid_out k when description b) in
      subst
        (λ (t : D × Books D).
          (units t.0 ≈ pos 0 -ℤ units (remaining b k))
          × (units (remaining t.1 j) ≡ units (remaining b j))
          × (2 * pos_part (units (balance t.1 k)) ≤ d.cent + 2 * neg_part (units (balance t.1 k)))
          × (2 * neg_part (units (balance t.1 k)) ≤ d.cent + 2 * pos_part (units (balance t.1 k))))
        (sym (payout_credit_booked k when description b e booked))
        (
          omega (int_laws, neg_parts (remaining b k)),
          paid_out-elsewhere k when description b j other,
          low,
          high,
        )

  -- If the balance has no sub-cent part and a payout books an amount, nothing remains open on the
  -- account.
  pub payout_credit-pays :
      (k : Key) (when : Date) (description : Text) (b : Books D) {r : D × Books D}
      → payout_credit k when description b ≡ ok r
      → pos 1 ≤ℤ units r.0
      → IsWhole b k
      → units (remaining r.1 k) ≡ pos 0
  payout_credit-pays k when description b {r} e booked whole =
      let left = balance-paid_out k when description b in
      subst (λ (t : D × Books D). units (remaining t.1 k) ≡ pos 0)
        (sym (payout_credit_booked k when description b e booked))
        (remaining-zero (paid_out k when description b) k (omega (int_laws, left, whole)))
