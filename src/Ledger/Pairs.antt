-- ===== src/Ledger/Pairs.antt =====
-- The postings of a carry-forward sum to zero, all of them and those not voided, and every operation
-- keeps it so.
use treckrr.Prelude.{
  ℤ, pos, ◌≈◌, ◌≡◌, refl, Bool, true, false, not, inl, inr, Bool-cases, some, List, [], ◌∷◌, map,
  if◌then◌else◌, int_laws,
}
use treckrr.Decimal.{Decimal, zero_parts}
use treckrr.Text.{Text, same_text, is_empty, same_text_eq}
use treckrr.Account.Data.{LedgerRow}
use treckrr.Account.Balance.{sum_where}
use treckrr.Ledger.Rows.{
  find_posting, change_posting, drop_posting, in_transfer, is_active_in, keep_rows, with_voided,
}
use treckrr.Ledger.Sums.{
  part, sum_of, sum_of-cons, sum_of-map, sum_of-keep_rows, sum_of-change_posting,
  sum_of-drop_posting,
}

pub ordinary_apart : (s t : Text) → is_empty s ≡ true → is_empty t ≡ false → same_text s t ≡ false
unfolding same_text
ordinary_apart [] [] e e' = cc
ordinary_apart [] (c ∷ t) e e' = refl
ordinary_apart (c ∷ s) t e e' = cc

module _ {D : Type 0} ⦃d : Decimal D⦄ where
  open d use {units}

  -- The postings of the carry-forward `t` net to zero.
  abbrev pub IsPaired : Text → List (LedgerRow D) → Type 0
  IsPaired t rows = (sum_of (in_transfer t) rows ≈ pos 0) × (sum_of (is_active_in t) rows ≈ pos 0)

  pub change_posting-IsPaired :
      (id : ℤ) (change : LedgerRow D → LedgerRow D) (row : LedgerRow D) (rows : List (LedgerRow D))
      → find_posting id rows ≡ some row
      → is_empty row.transfer_id ≡ true
      → is_empty (change row).transfer_id ≡ true
      → (t : Text) → is_empty t ≡ false
      → IsPaired t rows
      → IsPaired t (change_posting id change rows)
  change_posting-IsPaired id change row rows found before after t named paired =
      let (all, active) = paired in
      let out = ordinary_apart row.transfer_id t before named in
      let out' = ordinary_apart (change row).transfer_id t after named in
      (
        omega (
          int_laws,
          all,
          sum_of-change_posting (in_transfer t) change id row out out' rows found,
        ),
        omega (
          int_laws,
          active,
          sum_of-change_posting (is_active_in t) change id row (rw out refl) (rw out' refl) rows
              found,
        ),
      )

  pub drop_posting-IsPaired :
      (id : ℤ) (row : LedgerRow D) (rows : List (LedgerRow D))
      → find_posting id rows ≡ some row
      → is_empty row.transfer_id ≡ true
      → (t : Text) → is_empty t ≡ false
      → IsPaired t rows
      → IsPaired t (drop_posting id rows)
  drop_posting-IsPaired id row rows found before t named paired =
      let (all, active) = paired in
      let out = ordinary_apart row.transfer_id t before named in
      (
        omega (int_laws, all, sum_of-drop_posting (in_transfer t) id row out rows found),
        omega (
          int_laws,
          active,
          sum_of-drop_posting (is_active_in t) id row (rw out refl) rows found,
        ),
      )

  sum_of-nothing : (rows : List (LedgerRow D)) → sum_of (λ r. false) rows ≈ pos 0
  unfolding sum_where
  sum_of-nothing [] = omega (int_laws, zero_parts D)
  sum_of-nothing (r ∷ rs) = omega (int_laws, sum_of-cons (λ r. false) r rs, sum_of-nothing rs)

  abbrev outside : Text → LedgerRow D → Bool
  outside transfer r = not (in_transfer transfer r)

  apart_rows :
      (transfer t : Text) (r : LedgerRow D)
      → same_text transfer t ≡ false
      → in_transfer transfer r ≡ true
      → in_transfer t r ≡ false
  apart_rows transfer t r apart here =
      let same = same_text_eq r.transfer_id transfer here in rw same apart

  -- A sum over the rows of `t` after the rows of another transfer are gone.
  part_outside :
      (transfer t : Text) (keep : LedgerRow D → Bool)
      → ((r : LedgerRow D) → in_transfer t r ≡ false → keep r ≡ false)
      → same_text transfer t ≡ false
      → (r : LedgerRow D) → (if outside transfer r then part keep r else pos 0) ≈ part keep r
  part_outside transfer t keep within apart r = elim (Bool-cases (in_transfer transfer r)) [
    | inl e ↦ rw e (rw (within r (apart_rows transfer t r apart e)) refl)
    | inr e ↦ rw e refl
  ]

  part_inside :
      (t : Text) (keep : LedgerRow D → Bool)
      → ((r : LedgerRow D) → in_transfer t r ≡ false → keep r ≡ false)
      → (r : LedgerRow D) → (if outside t r then part keep r else pos 0) ≈ part (λ r. false) r
  part_inside t keep within r = elim (Bool-cases (in_transfer t r)) [
    | inl e ↦ rw e refl
    | inr e ↦ rw e (rw (within r e) refl)
  ]

  pub keep_rows-IsPaired :
      (transfer : Text) (rows : List (LedgerRow D))
      → (t : Text) → is_empty t ≡ false
      → IsPaired t rows
      → IsPaired t (keep_rows (outside transfer) rows)
  keep_rows-IsPaired transfer rows t named paired = elim (Bool-cases (same_text transfer t)) [
    | inl e ↦
        let same = same_text_eq transfer t e in
        rw same (
          omega (
            int_laws,
            sum_of-nothing rows,
            sum_of-keep_rows (in_transfer t) (λ r. false) (outside t)
                (part_inside t (in_transfer t) (λ r out. out)) rows,
          ),
          omega (
            int_laws,
            sum_of-nothing rows,
            sum_of-keep_rows (is_active_in t) (λ r. false) (outside t)
                (part_inside t (is_active_in t) (λ r out. rw out refl)) rows,
          ),
        )
    | inr apart ↦
        let (all, active) = paired in
        (
          omega (
            int_laws,
            all,
            sum_of-keep_rows (in_transfer t) (in_transfer t) (outside transfer)
                (part_outside transfer t (in_transfer t) (λ r out. out) apart) rows,
          ),
          omega (
            int_laws,
            active,
            sum_of-keep_rows (is_active_in t) (is_active_in t) (outside transfer)
                (part_outside transfer t (is_active_in t) (λ r out. rw out refl) apart) rows,
          ),
        )
  ]

  abbrev voiding : Text → Bool → Text → LedgerRow D → LedgerRow D
  voiding transfer voided reason r =
      if in_transfer transfer r then with_voided voided reason r else r

  -- What a row of `t` adds once its transfer, or another, was voided or restored.
  part_all :
      (transfer t : Text) (voided : Bool) (reason : Text) (r : LedgerRow D)
      → part (in_transfer t) (voiding transfer voided reason r) ≈ part (in_transfer t) r
  part_all transfer t voided reason r = elim (Bool-cases (in_transfer transfer r)) [
    | inl e ↦ rw e refl
    | inr e ↦ rw e refl
  ]

  part_voided :
      (t : Text) (reason : Text) (r : LedgerRow D)
      → part (is_active_in t) (voiding t true reason r) ≈ part (λ r. false) r
  part_voided t reason r = elim (Bool-cases (in_transfer t r)) [
    | inl e ↦ rw e (rw e refl)
    | inr e ↦ rw e (rw e refl)
  ]

  part_restored :
      (t : Text) (reason : Text) (r : LedgerRow D)
      → part (is_active_in t) (voiding t false reason r) ≈ part (in_transfer t) r
  part_restored t reason r = elim (Bool-cases (in_transfer t r)) [
    | inl e ↦ rw e (rw e refl)
    | inr e ↦ rw e (rw e refl)
  ]

  part_elsewhere :
      (transfer t : Text) (voided : Bool) (reason : Text)
      → same_text transfer t ≡ false
      → (r : LedgerRow D)
      → part (is_active_in t) (voiding transfer voided reason r) ≈ part (is_active_in t) r
  part_elsewhere transfer t voided reason apart r = elim (Bool-cases (in_transfer transfer r)) [
    | inl e ↦ rw e (rw (apart_rows transfer t r apart e) refl)
    | inr e ↦ rw e refl
  ]

  pub map-IsPaired :
      (transfer : Text) (voided : Bool) (reason : Text) (rows : List (LedgerRow D))
      → (t : Text) → is_empty t ≡ false
      → IsPaired t rows
      → IsPaired t (map (voiding transfer voided reason) rows)
  map-IsPaired transfer voided reason rows t named paired =
      let (all, active) = paired in
      (
        omega (
          int_laws,
          all,
          sum_of-map (in_transfer t) (in_transfer t) (voiding transfer voided reason)
              (part_all transfer t voided reason) rows,
        ),
        elim (Bool-cases (same_text transfer t)) [
          | inl e ↦
              let same = same_text_eq transfer t e in
              rw same (elim (Bool-cases voided) [
                | inl off ↦ rw off (
                    omega (
                      int_laws,
                      sum_of-nothing rows,
                      sum_of-map (is_active_in t) (λ r. false) (voiding t true reason)
                          (part_voided t reason) rows,
                    ))
                | inr on ↦ rw on (
                    omega (
                      int_laws,
                      all,
                      sum_of-map (is_active_in t) (in_transfer t) (voiding t false reason)
                          (part_restored t reason) rows,
                    ))
              ])
          | inr apart ↦ omega (
            int_laws,
            active,
            sum_of-map (is_active_in t) (is_active_in t) (voiding transfer voided reason)
                (part_elsewhere transfer t voided reason apart) rows,
          )
        ],
      )
