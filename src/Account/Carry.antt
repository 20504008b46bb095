-- ===== src/Account/Carry.antt =====
-- Carrying a balance from one year into another: what leaves the source arrives at the target, and
-- a completed target or a stale preview is refused.
use treckrr.Prelude.{
  ℤ, pos, ◌+ℤ◌, ◌-ℤ◌, ◌≈◌, ◌==ℤ◌, ◌≡◌, true, false, inl, inr, Bool-cases, [], ◌∷◌, arith,
  if◌then◌else◌, int_laws, Option, ok, first_of_chain, refuse_if-ok, ok-injective,
}
use treckrr.Decimal.{Decimal, zero_parts, neg_parts}
use treckrr.Calendar.{Date}
use treckrr.Text.{Text}
use treckrr.Account.Data.{
  Key, same_account, Books, LedgerRow, carry_forward, carry_target_completed, carry_preview_changed,
}
use treckrr.Account.Balance.{balance, remaining}
use treckrr.Account.Locks.{find_year, lock_accounts}
use treckrr.Account.Operations.{
  insert_posting, add_audit, posting, is_completed, is_stale, CarryPreview, carry_forward_confirmed,
}
use treckrr.Account.Effects.{balance-insert_posting, balance-add_audit}
use treckrr.Account.Settlement.{same_account_refl}

abbrev pub in_year : ℤ → ℤ → Key
in_year neighbor_id year_id = record { year_id = year_id; neighbor_id = neighbor_id }

module _ {D : Type 0} ⦃d : Decimal D⦄ (tid : Text) (k j : Key) (when : Date)
    (out_text in_text : Text) (b : Books D) where
  open d use {units, neg}

  abbrev pub out_row : LedgerRow D
  out_row = posting b.next_id k (neg (remaining b k)) out_text when tid

  abbrev pub in_row : LedgerRow D
  in_row = posting (b.next_id +ℤ pos 1) j (remaining b k) in_text when tid

  -- What carrying from the account `k` to the account `j` leaves.
  abbrev pub carried : Books D
  carried =
      add_audit (carry_forward tid (remaining b k) k.year_id j.year_id)
        (insert_posting in_row (insert_posting out_row b))

  carried_balance :
      (i : Key)
      → units (balance carried i)
        ≈ units (balance b i)
          -ℤ (if same_account k i then units (remaining b k) else pos 0)
          +ℤ (if same_account j i then units (remaining b k) else pos 0)
  carried_balance i =
      let logged =
        balance-add_audit (carry_forward tid (remaining b k) k.year_id j.year_id)
          (insert_posting in_row (insert_posting out_row b)) i in
      let inward = balance-insert_posting in_row (insert_posting out_row b) i in
      let outward = balance-insert_posting out_row b i in
      let negated = neg_parts (remaining b k) in
      rw logged (elim (Bool-cases (same_account k i)) [
        | inl here ↦ elim (Bool-cases (same_account j i)) [
          | inl there ↦
              rw here (rw there (omega (int_laws, rw there at inward, rw here at outward, negated)))
          | inr there ↦
              rw here (rw there (omega (int_laws, rw there at inward, rw here at outward, negated)))
        ]
        | inr here ↦ elim (Bool-cases (same_account j i)) [
          | inl there ↦
              rw here (rw there (omega (int_laws, rw there at inward, rw here at outward, negated)))
          | inr there ↦
              rw here (rw there (omega (int_laws, rw there at inward, rw here at outward, negated)))
        ]
      ])

module _ {D : Type 0} ⦃d : Decimal D⦄ where
  open d use {units, neg, zero}

  pub carry_cases :
      (tid : Text) (n from_year to_year : ℤ) (when : Date) (out_text in_text : Text)
      (expected : Option (CarryPreview D)) (b : Books D) {r : D × Books D}
      → carry_forward_confirmed tid n from_year to_year when out_text in_text expected b ≡ ok r
      → (is_completed (find_year to_year b.years) ≡ false)
        × (is_stale expected (remaining b (in_year n from_year)) (remaining b (in_year n to_year))
            ≡ false)
        × ((if d.is_zero (remaining b (in_year n from_year)) then (zero, b) else (
          remaining b (in_year n from_year),
          carried tid (in_year n from_year) (in_year n to_year) when out_text in_text b,
        ))
            ≡ r)
  unfolding carry_forward_confirmed
  carry_cases tid n from_year to_year when out_text in_text expected b {r} e =
      let (_, _, checked) =
        first_of_chain _ (lock_accounts b (in_year n from_year ∷ in_year n to_year ∷ []) false true)
          e in
      let (open_year, fresh) =
        refuse_if-ok (is_completed (find_year to_year b.years)) carry_target_completed _ checked in
      let (current, done) =
        refuse_if-ok
          (is_stale expected (remaining b (in_year n from_year)) (remaining b (in_year n to_year)))
          carry_preview_changed _ fresh in
      (open_year, current, ok-injective done)

  -- If carrying a balance from one year to another of the same neighbor succeeds, the target year is
  -- open, the amount returned is what remained to be paid in the source year, the source's balance
  -- falls and the target's rises by that amount, and any third account keeps its balance.
  pub carry_forward_confirmed-moves :
      (tid : Text) (n from_year to_year : ℤ) (when : Date) (out_text in_text : Text)
      (expected : Option (CarryPreview D)) (b : Books D) (i : Key) {r : D × Books D}
      → carry_forward_confirmed tid n from_year to_year when out_text in_text expected b ≡ ok r
      → from_year ==ℤ to_year ≡ false
      → to_year ==ℤ from_year ≡ false
      → same_account (in_year n from_year) i ≡ false
      → same_account (in_year n to_year) i ≡ false
      → (is_completed (find_year to_year b.years) ≡ false)
        × (units r.0 ≈ units (remaining b (in_year n from_year)))
        × (units (balance r.1 (in_year n from_year))
            ≈ units (balance b (in_year n from_year)) -ℤ units (remaining b (in_year n from_year)))
        × (units (balance r.1 (in_year n to_year))
            ≈ units (balance b (in_year n to_year)) +ℤ units (remaining b (in_year n from_year)))
        × (units (balance r.1 i) ≈ units (balance b i))
  carry_forward_confirmed-moves tid n from_year to_year when out_text in_text expected b i {r} e
        apart apart' third third' =
      let k = in_year n from_year in
      let j = in_year n to_year in
      let (open_year, _, returned) =
        carry_cases tid n from_year to_year when out_text in_text expected b e in
      let moved = carried_balance tid k j when out_text in_text b in
      let (returned_amount, source_falls, target_rises, third_stays) : (units r.0
            ≈ units (remaining b k))
          × (units (balance r.1 k) ≈ units (balance b k) -ℤ units (remaining b k))
          × (units (balance r.1 j) ≈ units (balance b j) +ℤ units (remaining b k))
          × (units (balance r.1 i) ≈ units (balance b i)) =
        elim (Bool-cases (d.is_zero (remaining b k))) [
          | inl nothing ↦
              let kept : (zero, b) ≡ r = rw nothing at returned in
              let empty : units (remaining b k) ≈ pos 0 =
                ground (arith, nothing, d.is_zero_lem (remaining b k)) in
              rw (← kept) (omega (int_laws, zero_parts D, empty))
          | inr some_due ↦
              let went : (remaining b k, carried tid k j when out_text in_text b) ≡ r =
                rw some_due at returned in
              let source_moved = rw (same_account_refl k) at (rw apart' at (moved k)) in
              let target_moved = rw (same_account_refl j) at (rw apart at (moved j)) in
              let third_moved = rw third at (rw third' at (moved i)) in
              rw (← went) (omega (int_laws, source_moved, target_moved, third_moved))
        ] in
      (open_year, returned_amount, source_falls, target_rises, third_stays)
