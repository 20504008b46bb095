-- ===== src/Account/Settlement.antt =====
-- Settling an account: the account is cleared, no other account moves, and a second run finds
-- nothing to do.
use treckrr.Prelude.{
  ℕ, negsuc, ◌+◌, ◌*◌, ◌≤◌, ℤ, pos, pos_part, neg_part, ◌-ℤ◌, ◌≤ℤ◌, ◌≈◌, ◌≡◌, refl, Bool, true,
  false, ◌||◌, not, inl, inr, ◌⊎◌, Bool-cases, arith, if◌then◌else◌, int_laws, eq_of_parts, ap, ◌∙◌,
  sym, subst, ==ℤ_refl, ok, first_of_chain, ok-injective,
}
use treckrr.Decimal.{Decimal, zero_parts, round_half_away}
use treckrr.Decimal.Rounding.{rest_bounds, round_small, round_minus_half}
use treckrr.Calendar.{Date}
use treckrr.Text.{Text}
use treckrr.Account.Data.{Key, same_account, Books, payment_settle}
use treckrr.Account.Balance.{balance, remaining}
use treckrr.Account.Locks.{lock_account_boundary}
use treckrr.Account.Operations.{insert_payment, settlement_row, settle_remaining}
use treckrr.Account.Effects.{balance-insert_payment, remaining_units, remaining_congr}

pub same_account_refl : (k : Key) → same_account k k ≡ true
same_account_refl k = ground (arith, ==ℤ_refl k.year_id, ==ℤ_refl k.neighbor_id)

neg_part-half : (x : ℤ) (c : ℕ) → 2 * neg_part x ≡ c + 2 * pos_part x → 2 * neg_part x ≡ c
neg_part-half (pos n) c e = omega arith
neg_part-half (negsuc n) c e = omega arith

module _ {D : Type 0} ⦃d : Decimal D⦄ where
  open d use {units, zero, neg}

  -- No sub-cent part in the balance.
  abbrev pub IsWhole : Books D → Key → Type 0
  IsWhole b k = units (remaining b k) ≈ units (balance b k)

  -- The half-cent bound on what a rounded posting leaves.
  pub remaining_of_rest :
      (b b' : Books D) (k : Key)
      → units (balance b' k) ≈ units (balance b k) -ℤ units (remaining b k)
      → (2 * pos_part (units (balance b' k)) ≤ d.cent + 2 * neg_part (units (balance b' k)))
        × (2 * neg_part (units (balance b' k)) ≤ d.cent + 2 * pos_part (units (balance b' k)))
  remaining_of_rest b b' k e = omega (
    int_laws,
    rw (← remaining_units b k) at (rest_bounds d.cent d.cent_pos (units (balance b k))),
  )

  pub remaining-zero :
      (b : Books D) (k : Key) → units (balance b k) ≈ pos 0 → units (remaining b k) ≡ pos 0
  remaining-zero b k e =
      remaining_units b k
      ∙ (ap (round_half_away d.cent) (eq_of_parts _ (pos 0) e)
          ∙ round_small d.cent d.cent_pos (pos 0) (omega (arith, d.cent_pos))
              (omega (arith, d.cent_pos)))

  module _ (k : Key) (when : Date) (note method : Text) (b : Books D) where
    -- What a settlement leaves.
    abbrev pub settled : Books D
    settled =
        insert_payment (settlement_row k when note method b)
          (payment_settle b.next_id (remaining b k) when method) b

    -- The account is not there, or nothing is open on it.
    abbrev pub nothing_due : Bool → Bool
    nothing_due present = not present || not (d.is_positive (remaining b k))

    pub settle_remaining_cases :
        (r : D × Books D)
        → settle_remaining k when note method b ≡ ok r
        → (present : Bool) × (lock_account_boundary b k false true ≡ ok present)
          × (((nothing_due present ≡ true) × (r ≡ (zero, b)))
              ⊎ ((nothing_due present ≡ false) × (r ≡ (remaining b k, settled))))
    unfolding settle_remaining
    settle_remaining_cases r e =
        let outcome : Bool → D × Books D =
          λ present. if nothing_due present then (zero, b) else (remaining b k, settled) in
        let (present, locked, returned) =
          first_of_chain (λ present. ok (outcome present)) (lock_account_boundary b k false true)
            e in
        let same = sym (ok-injective returned) in
        (
          present,
          locked,
          elim (Bool-cases (nothing_due present)) [
            | inl nothing ↦ inl (nothing, rw nothing at same)
            | inr due ↦ inr (due, rw due at same)
          ],
        )

    settle_remaining_booked :
        {r : D × Books D}
        → settle_remaining k when note method b ≡ ok r
        → pos 1 ≤ℤ units r.0
        → r ≡ (remaining b k, settled)
    settle_remaining_booked {r} e booked = elim (settle_remaining_cases r e).2 [
      | inl (_, nothing) ↦ absurd (omega (arith, rw nothing at booked, zero_parts D))
      | inr (_, same) ↦ same
    ]

    balance-settled : units (balance settled k) ≈ units (balance b k) -ℤ units (remaining b k)
    balance-settled = rw (same_account_refl k) at (
        balance-insert_payment (settlement_row k when note method b)
          (payment_settle b.next_id (remaining b k) when method) b k)

    settled-elsewhere :
        (j : Key) → same_account k j ≡ false → units (remaining settled j) ≡ units (remaining b j)
    settled-elsewhere j e = remaining_congr settled b j j (omega (int_laws, unchanged))
      where
        unchanged : units (balance settled j) ≈ units (balance b j) -ℤ pos 0
        unchanged = rw e at (
            balance-insert_payment (settlement_row k when note method b)
              (payment_settle b.next_id (remaining b k) when method) b j)

  -- If settling an account books an amount, that amount is what remained to be paid, the open amount
  -- of any other account stays what it was, and the payment leaves at most half a cent of the balance
  -- on either side.
  pub settle_remaining-clears :
      (k j : Key) (when : Date) (note method : Text) (b : Books D) {r : D × Books D}
      → settle_remaining k when note method b ≡ ok r
      → pos 1 ≤ℤ units r.0
      → same_account k j ≡ false
      → (units r.0 ≡ units (remaining b k))
        × (units (remaining r.1 j) ≡ units (remaining b j))
        × (2 * pos_part (units (balance r.1 k)) ≤ d.cent + 2 * neg_part (units (balance r.1 k)))
        × (2 * neg_part (units (balance r.1 k)) ≤ d.cent + 2 * pos_part (units (balance r.1 k)))
  settle_remaining-clears k j when note method b {r} e booked other =
      let same = settle_remaining_booked k when note method b e booked in
      let (low, high) =
        remaining_of_rest b (settled k when note method b) k
          (balance-settled k when note method b) in
      subst
        (λ (t : D × Books D).
          (units t.0 ≡ units (remaining b k))
          × (units (remaining t.1 j) ≡ units (remaining b j))
          × (2 * pos_part (units (balance t.1 k)) ≤ d.cent + 2 * neg_part (units (balance t.1 k)))
          × (2 * neg_part (units (balance t.1 k)) ≤ d.cent + 2 * pos_part (units (balance t.1 k))))
        (sym same) (refl, settled-elsewhere k when note method b j other, low, high)

  -- If the balance has no sub-cent part and settling the account books an amount, nothing remains to be
  -- paid.
  pub settle_remaining-pays :
      (k : Key) (when : Date) (note method : Text) (b : Books D) {r : D × Books D}
      → settle_remaining k when note method b ≡ ok r
      → pos 1 ≤ℤ units r.0
      → IsWhole b k
      → units (remaining r.1 k) ≡ pos 0
  settle_remaining-pays k when note method b {r} e booked whole =
      let left = balance-settled k when note method b in
      subst (λ (t : D × Books D). units (remaining t.1 k) ≡ pos 0)
        (sym (settle_remaining_booked k when note method b e booked))
        (remaining-zero (settled k when note method b) k (omega (int_laws, left, whole)))

  -- If settling an account books an amount, and the balance lies exactly half a cent below the amount
  -- that remained to be paid, the amount booked is that amount and a credit of one cent is left.
  pub settle_remaining-overshoots :
      (k : Key) (when : Date) (note method : Text) (b : Books D) {r : D × Books D}
      → settle_remaining k when note method b ≡ ok r
      → pos 1 ≤ℤ units r.0
      → 2 * pos_part (units (balance b k)) + d.cent + 2 * neg_part (units (remaining b k))
        ≡ 2 * pos_part (units (remaining b k)) + 2 * neg_part (units (balance b k))
      → (units r.0 ≡ units (remaining b k)) × (units (remaining r.1 k) ≡ pos 0 -ℤ pos d.cent)
  settle_remaining-overshoots k when note method b {r} e booked half =
      let after = settled k when note method b in
      let left = balance-settled k when note method b in
      subst
        (λ (t : D × Books D).
          (units t.0 ≡ units (remaining b k)) × (units (remaining t.1 k) ≡ pos 0 -ℤ pos d.cent))
        (sym (settle_remaining_booked k when note method b e booked))
        (
          refl,
          remaining_units after k
              ∙ round_minus_half d.cent d.cent_pos (units (balance after k))
                  (neg_part-half (units (balance after k)) d.cent (omega (int_laws, left, half))),
        )

  -- Settling a second time changes nothing and books nothing, whatever the first run booked, if the
  -- balance had no sub-cent part.
  pub settle_remaining_again :
      (k : Key) (when when' : Date) (note note' method method' : Text) (b : Books D)
      {r r' : D × Books D}
      → IsWhole b k
      → settle_remaining k when note method b ≡ ok r
      → settle_remaining k when' note' method' r.1 ≡ ok r'
      → r' ≡ (zero, r.1)
  settle_remaining_again k when when' note note' method method' b {r} {r'} whole e e' =
      let (present, locked, first) = settle_remaining_cases k when note method b r e in
      let (present', locked', second) = settle_remaining_cases k when' note' method' r.1 r' e' in
      elim second [
        | inl (_, nothing) ↦ nothing
        | inr (due, _) ↦ elim first [
          | inl (nothing, same) ↦
              let again : nothing_due k when' note' method' b present' ≡ false = rw same at due in
              let found : lock_account_boundary b k false true ≡ ok present' = rw same at locked' in
              let one = ok-injective (sym found ∙ locked) in
              let still : nothing_due k when note method b present ≡ false = rw one at again in cc
          | inr (_, same) ↦
              let again : nothing_due k when' note' method' (settled k when note method b) present'
                  ≡ false =
                rw same at due in
              let left =
                remaining-zero (settled k when note method b) k
                  (omega (int_laws, balance-settled k when note method b, whole)) in
              absurd (
                ground (
                  arith,
                  again,
                  left,
                  d.is_positive_lem (remaining (settled k when note method b) k),
                ))
        ]
      ]
