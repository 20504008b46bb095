-- ===== src/Invoices/Totals.antt =====
-- Sums over the register, and what marking a row canceled does to them.
use mathlib.Core.List.{Memᴰ}
use treckrr.Prelude.{
  ℤ, pos, ◌+ℤ◌, ◌-ℤ◌, ◌≈◌, ◌==ℤ◌, ==ℤ_iff, int_laws, parts_of_eq, eq_of_parts, ◌≡◌, ◌≢◌, refl, sym,
  inl, inr, Bool, false, Bool-cases, List, [], ◌∷◌, ◌++◌, subst, All-Mem, if◌then◌else◌,
}
use treckrr.Decimal.{Decimal, add_parts}
use treckrr.Account.Data.{DocumentRow}
use treckrr.Account.Balance.{document_gross, sum_where}
use treckrr.Account.Effects.{sum_where-append}
use treckrr.Invoices.Documents.{cancel_rows}
use treckrr.Invoices.Register.{
  Keyed, canceled_row, cancel_rows_absent, cancel_rows_here, cancel_rows_there,
}

module _ {D : Type 0} ⦃d : Decimal D⦄ where
  open d use {units}

  -- What a row adds to a sum.
  abbrev pub part_of : (DocumentRow D → Bool) → DocumentRow D → ℤ
  part_of keep r = if keep r then units (document_gross r) else pos 0

  abbrev pub total : (DocumentRow D → Bool) → List (DocumentRow D) → ℤ
  total keep rs = units (sum_where keep document_gross rs)

  pub total_cons :
      (keep : DocumentRow D → Bool) (r : DocumentRow D) (rs : List (DocumentRow D))
      → total keep (r ∷ rs) ≈ part_of keep r +ℤ total keep rs
  unfolding sum_where
  total_cons keep r rs =
      let rest = sum_where keep document_gross rs in
      elim (Bool-cases (keep r)) [
        | inl e ↦
            let sum : total keep (r ∷ rs) ≡ units (d.add (document_gross r) rest) =
              rw (e, total, sum_where) refl in
            let part : part_of keep r ≡ units (document_gross r) = rw e refl in
            omega (int_laws, parts_of_eq sum, parts_of_eq part, add_parts (document_gross r) rest)
        | inr e ↦
            let sum : total keep (r ∷ rs) ≡ total keep rs = rw (e, total, sum_where) refl in
            let part : part_of keep r ≡ pos 0 = rw e refl in
            omega (int_laws, parts_of_eq sum, parts_of_eq part)
      ]

  pub total-cancel_rows_all :
      (keep : DocumentRow D → Bool)
      → ((r : DocumentRow D) → keep (canceled_row r) ≡ keep r)
      → (id : ℤ) (rs : List (DocumentRow D)) → total keep (cancel_rows id rs) ≡ total keep rs
  unfolding cancel_rows
  total-cancel_rows_all keep blind id [] = refl
  total-cancel_rows_all keep blind id (r ∷ rs) =
      let rest = total-cancel_rows_all keep blind id rs in
      elim (Bool-cases (r.id ==ℤ id)) [
        | inl e ↦
            let same : part_of keep (canceled_row r) ≡ part_of keep r = rw (blind r) refl in
            rw (e, cancel_rows)
              (eq_of_parts _ _ (
                omega (
                  int_laws,
                  parts_of_eq same,
                  parts_of_eq rest,
                  total_cons keep (canceled_row r) (cancel_rows id rs),
                  total_cons keep r rs,
                )))
        | inr e ↦
            rw (e, cancel_rows)
              (eq_of_parts _ _ (
                omega (
                  int_laws,
                  parts_of_eq rest,
                  total_cons keep r (cancel_rows id rs),
                  total_cons keep r rs,
                )))
      ]

  pub total-append :
      (keep : DocumentRow D → Bool) (rs : List (DocumentRow D)) (r : DocumentRow D)
      → total keep (rs ++ (r ∷ [])) ≈ total keep rs +ℤ part_of keep r
  total-append keep rs r = sum_where-append keep document_gross rs r

  part_of_canceled :
      (keep : DocumentRow D → Bool) (r : DocumentRow D)
      → keep (canceled_row r) ≡ false
      → part_of keep (canceled_row r) ≡ pos 0
  part_of_canceled keep r drops = rw drops refl

  -- Marking a row canceled takes its amount out of a sum over issued rows.
  pub total-cancel_rows :
      (keep : DocumentRow D → Bool)
      → ((q : DocumentRow D) → keep (canceled_row q) ≡ false)
      → (r : DocumentRow D) (rs : List (DocumentRow D)) → Keyed rs
      → Memᴰ r rs
      → total keep (cancel_rows r.id rs) ≈ total keep rs -ℤ part_of keep r
  total-cancel_rows keep drops r [] keyed in_rs = elim in_rs [ ]
  total-cancel_rows keep drops r (q ∷ qs) (apart, keyed) (Memᴰ.head same) =
      subst
        (λ (x : DocumentRow D).
          total keep (cancel_rows x.id (q ∷ qs)) ≈ total keep (q ∷ qs) -ℤ part_of keep x)
        (sym same)
        (rw (cancel_rows_here q qs) (
          rw (cancel_rows_absent q.id qs apart) (
            omega (
              int_laws,
              total_cons keep q qs,
              total_cons keep (canceled_row q) qs,
              parts_of_eq (part_of_canceled keep q (drops q)),
            ))))
  total-cancel_rows keep drops r (q ∷ qs) (apart, keyed) (Memᴰ.tail in_qs) =
      let rest = total-cancel_rows keep drops r qs keyed in_qs in
      elim (Bool-cases (q.id ==ℤ r.id)) [
        | inl e ↦
            absurd (All-Mem (λ x. x.id ≢ q.id) qs r apart in_qs (sym ((==ℤ_iff q.id r.id).0 e)))
        | inr e ↦
            rw (cancel_rows_there r.id q qs e) (
              omega (int_laws, rest, total_cons keep q qs, total_cons keep q (cancel_rows r.id qs)))
      ]
