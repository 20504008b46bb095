-- ===== src/Ledger/Invariant.antt =====
-- Every step keeps the carry-forward pairs, and so does every sequence of steps.
use treckrr.Prelude.{
  true_of_not, ℤ, ◌≡◌, refl, Bool, true, false, not, ◌&&◌, ◌||◌, inl, inr, Bool-cases, Option, none,
  some, List, [], ◌∷◌, ◌++◌, int_laws, ok, first_of_chain, refuse_if-ok, ok-injective, sym, subst,
  ◌==◌,
}
use treckrr.Decimal.{Decimal, neg_parts}
use treckrr.Calendar.{Date}
use treckrr.Text.{Text, same_text, is_empty}
use treckrr.Account.Data.{Key, LedgerRow, Books, not_found, ledger_transfer}
use treckrr.Account.Balance.{remaining}
use treckrr.Account.Operations.{
  CarryPreview, posting, settle_remaining, payout_credit, carry_forward_confirmed,
}
use treckrr.Account.Effects.{sum_where-append}
use treckrr.Account.Settlement.{settle_remaining_cases}
use treckrr.Account.Payout.{payout_credit_cases}
use treckrr.Account.Carry.{in_year, carried, carry_cases, out_row, in_row}
use treckrr.Ledger.Rows.{
  find_posting, in_transfer, is_active_in, count_rows, with_voided, with_content,
}
use treckrr.Ledger.Operations.{
  round_money, found_posting, lock_open_account, editable_posting, editable_transfer,
  add_neighbor_ledger, update_neighbor_ledger, set_ledger_voided, delete_neighbor_ledger,
  delete_ledger_transfer, set_ledger_voided_transfer,
}
use treckrr.Ledger.Pairs.{
  IsPaired, ordinary_apart, change_posting-IsPaired, drop_posting-IsPaired, keep_rows-IsPaired,
  map-IsPaired,
}
use treckrr.Ledger.Steps.{
  Step, settles, pays_out, carries, adds, updates, voids, deletes, deletes_transfer, voids_transfer,
  Reaches, here, there,
}

module _ {D : Type 0} ⦃d : Decimal D⦄ where
  open d use {units, neg}

  editable_posting_ordinary :
      (id : ℤ) (b : Books D) {r : LedgerRow D}
      → editable_posting id b ≡ ok r
      → (find_posting id b.ledger ≡ some r) × (is_empty r.transfer_id ≡ true)
  unfolding editable_posting
  editable_posting_ordinary id b {r} e =
      let (before, found, checked) =
        first_of_chain _ (found_posting (find_posting id b.ledger)) e in
      let (_, _, unlocked) = first_of_chain _ (lock_open_account b before.account) checked in
      let (ordinary, returned) =
        refuse_if-ok (not (is_empty before.transfer_id)) ledger_transfer _ unlocked in
      let same = ok-injective returned in
      (
        found_row (find_posting id b.ledger) found same,
        rw same at (true_of_not (is_empty before.transfer_id) ordinary),
      )
    where
      found_row :
          {before : LedgerRow D} (row : Option (LedgerRow D))
          → found_posting row ≡ ok before
          → before ≡ r
          → row ≡ some r
      found_row none e same = cc
      found_row (some q) e same = cc

module _ {D : Type 0} ⦃d : Decimal D⦄ (t : Text) (named : is_empty t ≡ false) where
  open d use {units, neg}

  append-IsPaired :
      (r : LedgerRow D) (rows : List (LedgerRow D))
      → is_empty r.transfer_id ≡ true
      → IsPaired t rows
      → IsPaired t (rows ++ (r ∷ []))
  append-IsPaired r rows ordinary paired =
      let (all, active) = paired in
      let out = ordinary_apart r.transfer_id t ordinary named in
      (
        omega (
          int_laws,
          all,
          rw out at (sum_where-append (in_transfer t) (λ (x : LedgerRow D). x.amount) rows r),
        ),
        omega (
          int_laws,
          active,
          rw out at (sum_where-append (is_active_in t) (λ (x : LedgerRow D). x.amount) rows r),
        ),
      )

  carried-IsPaired :
      (tid : Text) (k j : Key) (when : Date) (out_text in_text : Text) (b : Books D)
      → IsPaired t b.ledger
      → IsPaired t (carried tid k j when out_text in_text b).ledger
  carried-IsPaired tid k j when out_text in_text b paired =
      let (all, active) = paired in
      let outward = out_row tid k j when out_text in_text b in
      let inward = in_row tid k j when out_text in_text b in
      let first_all =
        sum_where-append (in_transfer t) (λ (x : LedgerRow D). x.amount) b.ledger outward in
      let second_all =
        sum_where-append (in_transfer t) (λ (x : LedgerRow D). x.amount)
          (b.ledger ++ (outward ∷ [])) inward in
      let first_active =
        sum_where-append (is_active_in t) (λ (x : LedgerRow D). x.amount) b.ledger outward in
      let second_active =
        sum_where-append (is_active_in t) (λ (x : LedgerRow D). x.amount)
          (b.ledger ++ (outward ∷ [])) inward in
      let negated = neg_parts (remaining b k) in
      elim (Bool-cases (same_text tid t)) [
        | inl e ↦ (
          omega (int_laws, all, negated, rw e at first_all, rw e at second_all),
          omega (int_laws, active, negated, rw e at first_active, rw e at second_active),
        )
        | inr e ↦ (
          omega (int_laws, all, rw e at first_all, rw e at second_all),
          omega (int_laws, active, rw e at first_active, rw e at second_active),
        )
      ]

  settles-IsPaired :
      (k : Key) (when : Date) (note method : Text) (b b' : Books D) (amount : D)
      → settle_remaining k when note method b ≡ ok (amount, b')
      → IsPaired t b.ledger
      → IsPaired t b'.ledger
  settles-IsPaired k when note method b b' amount e paired =
      elim (settle_remaining_cases k when note method b (amount, b') e).2 [
        | inl (_, kept) ↦ subst (λ (r : D × Books D). IsPaired t r.1.ledger) (sym kept) paired
        | inr (_, paid) ↦ subst (λ (r : D × Books D). IsPaired t r.1.ledger) (sym paid) paired
      ]

  pays_out-IsPaired :
      (k : Key) (when : Date) (description : Text) (b b' : Books D) (amount : D)
      → payout_credit k when description b ≡ ok (amount, b')
      → IsPaired t b.ledger
      → IsPaired t b'.ledger
  pays_out-IsPaired k when description b b' amount e paired =
      elim (payout_credit_cases k when description b (amount, b') e).1 [
        | inl (_, kept) ↦ subst (λ (r : D × Books D). IsPaired t r.1.ledger) (sym kept) paired
        | inr (_, paid) ↦
            subst (λ (r : D × Books D). IsPaired t r.1.ledger) (sym paid)
              (append-IsPaired (posting b.next_id k (neg (remaining b k)) description when [])
                b.ledger refl paired)
      ]

  carries-IsPaired :
      (tid : Text) (n from_year to_year : ℤ) (when : Date) (out_text in_text : Text)
      (expected : Option (CarryPreview D)) (b b' : Books D) (amount : D)
      → carry_forward_confirmed tid n from_year to_year when out_text in_text expected b
        ≡ ok (amount, b')
      → IsPaired t b.ledger
      → IsPaired t b'.ledger
  carries-IsPaired tid n from_year to_year when out_text in_text expected b b' amount e paired =
      let k = in_year n from_year in
      let j = in_year n to_year in
      let (_, _, returned) =
        carry_cases tid n from_year to_year when out_text in_text expected b e in
      elim (Bool-cases (d.is_zero (remaining b k))) [
        | inl nothing ↦
            subst (λ (r : D × Books D). IsPaired t r.1.ledger) (rw nothing at returned) paired
        | inr due ↦
            subst (λ (r : D × Books D). IsPaired t r.1.ledger) (rw due at returned)
              (carried-IsPaired tid k j when out_text in_text b paired)
      ]

  adds-IsPaired :
      (k : Key) (amount : D) (description : Text) (when : Date) (b b' : Books D) (id : ℤ)
      → add_neighbor_ledger k amount description when b ≡ ok (id, b')
      → IsPaired t b.ledger
      → IsPaired t b'.ledger
  unfolding add_neighbor_ledger
  adds-IsPaired k amount description when b b' id e paired =
      let (_, _, returned) = first_of_chain _ (lock_open_account b k) e in
      subst (λ (r : ℤ × Books D). IsPaired t r.1.ledger) (ok-injective returned)
        (append-IsPaired (posting b.next_id k (round_money amount) description when []) b.ledger
          refl paired)

  updates-IsPaired :
      (id : ℤ) (amount : D) (description : Text) (when : Date) (b b' : Books D)
      → update_neighbor_ledger id amount description when b ≡ ok b'
      → IsPaired t b.ledger
      → IsPaired t b'.ledger
  unfolding update_neighbor_ledger
  updates-IsPaired id amount description when b b' e paired =
      let (before, checked, changed) = first_of_chain _ (editable_posting id b) e in
      let (found, ordinary) = editable_posting_ordinary id b checked in
      let (_, returned) = refuse_if-ok before.has_booking not_found _ changed in
      subst (λ (x : Books D). IsPaired t x.ledger) (ok-injective returned)
        (change_posting-IsPaired id (with_content (round_money amount) description when) before
          b.ledger found ordinary ordinary t named paired)

  voids-IsPaired :
      (id : ℤ) (voided : Bool) (reason : Text) (b b' : Books D)
      → set_ledger_voided id voided reason b ≡ ok b'
      → IsPaired t b.ledger
      → IsPaired t b'.ledger
  unfolding set_ledger_voided
  voids-IsPaired id voided reason b b' e paired =
      let (before, checked, changed) = first_of_chain _ (editable_posting id b) e in
      let (found, ordinary) = editable_posting_ordinary id b checked in
      let same = ok-injective changed in
      elim (Bool-cases ((before.voided && voided) || (not before.voided && not voided))) [
        | inl already ↦ subst (λ (x : Books D). IsPaired t x.ledger) (rw already at same) paired
        | inr other ↦
            subst (λ (x : Books D). IsPaired t x.ledger) (rw other at same)
              (change_posting-IsPaired id (with_voided voided reason) before b.ledger found ordinary
                ordinary t named paired)
      ]

  deletes-IsPaired :
      (id : ℤ) (b b' : Books D)
      → delete_neighbor_ledger id b ≡ ok b'
      → IsPaired t b.ledger
      → IsPaired t b'.ledger
  unfolding delete_neighbor_ledger
  deletes-IsPaired id b b' e paired =
      let (before, checked, changed) = first_of_chain _ (editable_posting id b) e in
      let (found, ordinary) = editable_posting_ordinary id b checked in
      subst (λ (x : Books D). IsPaired t x.ledger) (ok-injective changed)
        (drop_posting-IsPaired id before b.ledger found ordinary t named paired)

  deletes_transfer-IsPaired :
      (transfer : Text) (b b' : Books D)
      → delete_ledger_transfer transfer b ≡ ok b'
      → IsPaired t b.ledger
      → IsPaired t b'.ledger
  unfolding delete_ledger_transfer
  deletes_transfer-IsPaired transfer b b' e paired =
      let (_, _, changed) = first_of_chain _ (editable_transfer transfer b) e in
      let (_, returned) =
        refuse_if-ok (count_rows (in_transfer transfer) b.ledger == 0) not_found _ changed in
      subst (λ (x : Books D). IsPaired t x.ledger) (ok-injective returned)
        (keep_rows-IsPaired transfer b.ledger t named paired)

  voids_transfer-IsPaired :
      (transfer : Text) (voided : Bool) (reason : Text) (b b' : Books D)
      → set_ledger_voided_transfer transfer voided reason b ≡ ok b'
      → IsPaired t b.ledger
      → IsPaired t b'.ledger
  unfolding set_ledger_voided_transfer
  voids_transfer-IsPaired transfer voided reason b b' e paired =
      let (_, _, changed) = first_of_chain _ (editable_transfer transfer b) e in
      let (_, returned) =
        refuse_if-ok (count_rows (in_transfer transfer) b.ledger == 0) not_found _ changed in
      subst (λ (x : Books D). IsPaired t x.ledger) (ok-injective returned)
        (map-IsPaired transfer voided reason b.ledger t named paired)

  Step-IsPaired : (b b' : Books D) → Step b b' → IsPaired t b.ledger → IsPaired t b'.ledger
  Step-IsPaired b b' (settles k when note method amount e) =
      settles-IsPaired k when note method b b' amount e
  Step-IsPaired b b' (pays_out k when description amount e) =
      pays_out-IsPaired k when description b b' amount e
  Step-IsPaired b b' (carries tid n from_year to_year when out_text in_text expected amount e) =
      carries-IsPaired tid n from_year to_year when out_text in_text expected b b' amount e
  Step-IsPaired b b' (adds k amount description when id e) =
      adds-IsPaired k amount description when b b' id e
  Step-IsPaired b b' (updates id amount description when e) =
      updates-IsPaired id amount description when b b' e
  Step-IsPaired b b' (voids id voided reason e) = voids-IsPaired id voided reason b b' e
  Step-IsPaired b b' (deletes id e) = deletes-IsPaired id b b' e
  Step-IsPaired b b' (deletes_transfer transfer e) = deletes_transfer-IsPaired transfer b b' e
  Step-IsPaired b b' (voids_transfer transfer voided reason e) =
      voids_transfer-IsPaired transfer voided reason b b' e

  -- For a non-empty transfer id: if its postings sum to zero, all of them and those not voided, then
  -- they still do in any books that a sequence of successful settlements, payouts, carry-forwards and
  -- changes of postings and of pairs reaches.
  pub Reaches-IsPaired :
      (b b' : Books D) → Reaches b b' → IsPaired t b.ledger → IsPaired t b'.ledger
  Reaches-IsPaired b b' (here _) paired = paired
  Reaches-IsPaired b b' (there _ c _ step rest) paired =
      Reaches-IsPaired c b' rest (Step-IsPaired b c step paired)
