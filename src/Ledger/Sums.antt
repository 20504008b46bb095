-- ===== src/Ledger/Sums.antt =====
-- What each statement on the postings does to a sum over them.
use treckrr.Prelude.{
  ℤ, pos, ◌+ℤ◌, ◌≈◌, ◌≡◌, refl, Bool, true, false, inl, inr, Bool-cases, some, List, [], ◌∷◌, map,
  if◌then◌else◌, int_laws, ◌==ℤ◌,
}
use treckrr.Decimal.{Decimal, add_parts}
use treckrr.Account.Data.{LedgerRow}
use treckrr.Account.Balance.{sum_where}
use treckrr.Ledger.Rows.{find_posting, change_posting, drop_posting, keep_rows}

module _ {D : Type 0} ⦃d : Decimal D⦄ where
  open d use {units}

  -- What one row adds.
  abbrev pub part : (LedgerRow D → Bool) → LedgerRow D → ℤ
  part keep r = if keep r then units r.amount else pos 0

  abbrev pub sum_of : (LedgerRow D → Bool) → List (LedgerRow D) → ℤ
  sum_of keep rows = units (sum_where keep (λ r. r.amount) rows)

  -- A row in front, counted or not.
  sum_where-counted :
      (keep : LedgerRow D → Bool) (r : LedgerRow D) (rs : List (LedgerRow D))
      → keep r ≡ true
      → sum_where keep (λ r. r.amount) (r ∷ rs) ≡ d.add r.amount (sum_where keep (λ r. r.amount) rs)
  unfolding sum_where
  sum_where-counted keep r rs e = rw e refl

  sum_where-skipped :
      (keep : LedgerRow D → Bool) (r : LedgerRow D) (rs : List (LedgerRow D))
      → keep r ≡ false
      → sum_where keep (λ r. r.amount) (r ∷ rs) ≡ sum_where keep (λ r. r.amount) rs
  unfolding sum_where
  sum_where-skipped keep r rs e = rw e refl

  pub sum_of-cons :
      (keep : LedgerRow D → Bool) (r : LedgerRow D) (rs : List (LedgerRow D))
      → sum_of keep (r ∷ rs) ≈ part keep r +ℤ sum_of keep rs
  sum_of-cons keep r rs = elim (Bool-cases (keep r)) [
    | inl e ↦
        rw (sum_of, sum_where-counted keep r rs e)
          (rw e (
            omega
              (int_laws, add_parts r.amount (sum_where keep (λ (x : LedgerRow D). x.amount) rs))))
    | inr e ↦ rw (sum_of, sum_where-skipped keep r rs e) (rw e (omega int_laws))
  ]

  counts_nothing :
      (keep : LedgerRow D → Bool) (r : LedgerRow D) → keep r ≡ false → part keep r ≈ pos 0
  counts_nothing keep r e = rw e refl

  pub sum_of-map :
      (keep keep' : LedgerRow D → Bool) (change : LedgerRow D → LedgerRow D)
      → ((r : LedgerRow D) → part keep (change r) ≈ part keep' r)
      → (rows : List (LedgerRow D)) → sum_of keep (map change rows) ≈ sum_of keep' rows
  unfolding sum_where
  sum_of-map keep keep' change same [] = refl
  sum_of-map keep keep' change same (r ∷ rs) = omega (
    int_laws,
    sum_of-cons keep (change r) (map change rs),
    sum_of-cons keep' r rs,
    same r,
    sum_of-map keep keep' change same rs,
  )

  pub sum_of-keep_rows :
      (keep keep' pass : LedgerRow D → Bool)
      → ((r : LedgerRow D) → (if pass r then part keep r else pos 0) ≈ part keep' r)
      → (rows : List (LedgerRow D)) → sum_of keep (keep_rows pass rows) ≈ sum_of keep' rows
  unfolding sum_where keep_rows
  sum_of-keep_rows keep keep' pass same [] = refl
  sum_of-keep_rows keep keep' pass same (r ∷ rs) =
      let rest = sum_of-keep_rows keep keep' pass same rs in
      let whole = sum_of-cons keep' r rs in
      let here = same r in
      elim (Bool-cases (pass r)) [
        | inl e ↦
            rw e
              (omega (int_laws, sum_of-cons keep r (keep_rows pass rs), whole, rw e at here, rest))
        | inr e ↦ rw e (omega (int_laws, whole, rw e at here, rest))
      ]

  -- Changing a row that the sum leaves out, before and after.
  pub sum_of-change_posting :
      (keep : LedgerRow D → Bool) (change : LedgerRow D → LedgerRow D) (id : ℤ) (row : LedgerRow D)
      → keep row ≡ false
      → keep (change row) ≡ false
      → (rows : List (LedgerRow D)) → find_posting id rows ≡ some row
      → sum_of keep (change_posting id change rows) ≈ sum_of keep rows
  unfolding change_posting find_posting
  sum_of-change_posting keep change id row before after [] found = cc
  sum_of-change_posting keep change id row before after (r ∷ rs) found =
      elim (Bool-cases (r.id ==ℤ id)) [
        | inl e ↦
            let here : some r ≡ some row = rw e at found in
            let same : r ≡ row = cc in
            rw e (
              rw same (
                omega (
                  int_laws,
                  sum_of-cons keep (change row) rs,
                  sum_of-cons keep row rs,
                  counts_nothing keep (change row) after,
                  counts_nothing keep row before,
                )))
        | inr e ↦
            let later : find_posting id rs ≡ some row = rw e at found in
            rw e (
              omega (
                int_laws,
                sum_of-cons keep r (change_posting id change rs),
                sum_of-cons keep r rs,
                sum_of-change_posting keep change id row before after rs later,
              ))
      ]

  pub sum_of-drop_posting :
      (keep : LedgerRow D → Bool) (id : ℤ) (row : LedgerRow D)
      → keep row ≡ false
      → (rows : List (LedgerRow D)) → find_posting id rows ≡ some row
      → sum_of keep (drop_posting id rows) ≈ sum_of keep rows
  unfolding drop_posting find_posting
  sum_of-drop_posting keep id row before [] found = cc
  sum_of-drop_posting keep id row before (r ∷ rs) found = elim (Bool-cases (r.id ==ℤ id)) [
    | inl e ↦
        let here : some r ≡ some row = rw e at found in
        let same : r ≡ row = cc in
        rw e (rw same (omega (int_laws, sum_of-cons keep row rs, counts_nothing keep row before)))
    | inr e ↦
        let later : find_posting id rs ≡ some row = rw e at found in
        rw e (
          omega (
            int_laws,
            sum_of-cons keep r (drop_posting id rs),
            sum_of-cons keep r rs,
            sum_of-drop_posting keep id row before rs later,
          ))
  ]
