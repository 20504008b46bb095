-- ===== src/Ledger/Undo.antt =====
-- Deleting a carry-forward takes back exactly the two postings it made.
use treckrr.Prelude.{
  suc, ℤ, ◌==◌, ◌≡◌, refl, Bool, true, not, inl, inr, Bool-cases, Option, List, [], ◌∷◌, ◌++◌,
  arith, ok, first_of_chain, refuse_if-ok, ok-injective, sym, ap, ◌∙◌,
}
use treckrr.Decimal.{Decimal}
use treckrr.Calendar.{Date}
use treckrr.Text.{Text, same_text_refl}
use treckrr.Account.Data.{LedgerRow, Books, not_found}
use treckrr.Account.Balance.{remaining}
use treckrr.Account.Operations.{CarryPreview, carry_forward_confirmed}
use treckrr.Account.Carry.{in_year, carry_cases, out_row, in_row}
use treckrr.Ledger.Rows.{in_transfer, keep_rows, count_rows}
use treckrr.Ledger.Operations.{editable_transfer, delete_ledger_transfer}

module _ {D : Type 0} ⦃d : Decimal D⦄ (tid : Text) where
  abbrev others : LedgerRow D → Bool
  others r = not (in_transfer tid r)

  keep_rows-fresh :
      (rows : List (LedgerRow D))
      → count_rows (in_transfer tid) rows ≡ 0
      → keep_rows others rows ≡ rows
  unfolding keep_rows count_rows
  keep_rows-fresh [] fresh = refl
  keep_rows-fresh (r ∷ rs) fresh = elim (Bool-cases (in_transfer tid r)) [
    | inl e ↦
        let impossible : suc (count_rows (in_transfer tid) rs) ≡ 0 = rw e at fresh in
        absurd (omega arith)
    | inr e ↦ rw e (ap (λ rest. r ∷ rest) (keep_rows-fresh rs (rw e at fresh)))
  ]

  keep_rows-append :
      (rows : List (LedgerRow D)) (r : LedgerRow D)
      → in_transfer tid r ≡ true
      → keep_rows others (rows ++ (r ∷ [])) ≡ keep_rows others rows
  unfolding keep_rows
  keep_rows-append [] r e = rw e refl
  keep_rows-append (x ∷ xs) r e = rw (keep_rows-append xs r e) refl

  delete_ledger_transfer_kept :
      (b b' : Books D)
      → delete_ledger_transfer tid b ≡ ok b'
      → keep_rows others b.ledger ≡ b'.ledger
  unfolding delete_ledger_transfer
  delete_ledger_transfer_kept b b' e =
      let (_, _, changed) = first_of_chain _ (editable_transfer tid b) e in
      let (_, returned) =
        refuse_if-ok (count_rows (in_transfer tid) b.ledger == 0) not_found _ changed in
      ap (λ (x : Books D). x.ledger) (ok-injective returned)

  -- If a carry-forward succeeds under a transfer id that no posting has yet, and deleting that
  -- transfer succeeds, the table of postings is what it was before the carry-forward.
  pub delete_ledger_transfer-carry_forward_confirmed :
      (n from_year to_year : ℤ) (when : Date) (out_text in_text : Text)
      (expected : Option (CarryPreview D)) (b : Books D) {amount : D} {moved undone : Books D}
      → count_rows (in_transfer tid) b.ledger ≡ 0
      → carry_forward_confirmed tid n from_year to_year when out_text in_text expected b
        ≡ ok (amount, moved)
      → delete_ledger_transfer tid moved ≡ ok undone
      → undone.ledger ≡ b.ledger
  delete_ledger_transfer-carry_forward_confirmed n from_year to_year when out_text in_text expected
        b {amount} {moved} {undone} fresh e e' =
      let k = in_year n from_year in
      let j = in_year n to_year in
      let kept = delete_ledger_transfer_kept moved undone e' in
      let plain = keep_rows-fresh b.ledger fresh in
      let (_, _, returned) =
        carry_cases tid n from_year to_year when out_text in_text expected b e in
      elim (Bool-cases (d.is_zero (remaining b k))) [
        | inl nothing ↦
            let same = ap (λ (r : D × Books D). r.1.ledger) (rw nothing at returned) in
            sym kept ∙ (ap (keep_rows others) (sym same) ∙ plain)
        | inr due ↦
            let same = ap (λ (r : D × Books D). r.1.ledger) (rw due at returned) in
            let outward = out_row tid k j when out_text in_text b in
            let inward = in_row tid k j when out_text in_text b in
            sym kept
            ∙ (ap (keep_rows others) (sym same)
                ∙ (keep_rows-append (b.ledger ++ (outward ∷ [])) inward (same_text_refl tid)
                    ∙ (keep_rows-append b.ledger outward (same_text_refl tid) ∙ plain)))
      ]
