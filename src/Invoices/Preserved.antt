-- ===== src/Invoices/Preserved.antt =====
-- Each step of the register keeps it orderly.
use mathlib.Core.List.{Memᴰ}
use mathlib.Core.List.Memᴰ
use treckrr.Prelude.{
  pos, ◌+ℤ◌, ◌-ℤ◌, ◌≤ℤ◌, ◌≈◌, int_laws, parts_of_eq, ◌≡◌, ◌≢◌, refl, sym, ◌⊎◌, inl, inr, true,
  false, and_false, some, List, [], ◌∷◌, subst, All-append, All-map, All-zip, All-Mem,
}
use treckrr.Decimal.{Decimal}
use treckrr.Account.Data.{Key, storno, credit_note, DocumentRow}
use treckrr.Account.Balance.{is_invoice, is_credit_note, document_gross}
use treckrr.Invoices.Documents.{new_document, cancel_rows, is_attached}
use treckrr.Invoices.Register.{
  Register, appended, with_canceled, canceled_row, is_live, counts_row, counts_live,
  is_open_invoice, Keyed, All-cancel_rows, Keyed-append, Keyed-cancel_rows, Keyed-apart,
}
use treckrr.Invoices.Totals.{total, total-append, total-cancel_rows, total-cancel_rows_all}
use treckrr.Invoices.Orderly.{
  uncredited, credit_value, Step, Reaches, IsOrderly, fresh_id, below-append, attached_canceled,
  live_canceled, part_of-is_attached, uncredited_closed, uncredited_grows, part_of_dropped,
  not_attached, not_live, live_part, opposite_part, part_of_low, attached_elsewhere,
}

module _ {D : Type 0} ⦃d : Decimal D⦄ where
  open d use {units}

  module _ (g : Register D) (o : IsOrderly g) (r new : DocumentRow D)
      (in_g : Memᴰ r g.documents) where
    module _ (id : new.id ≡ g.next_id) where
      pub Keyed-appended : Keyed (appended new g).documents
      Keyed-appended = Keyed-append g.documents new o.keyed (fresh_id g new id o.below)

      pub in_appended : Memᴰ r (appended new g).documents
      in_appended = Memᴰ.append_left (new ∷ []) in_g

      reverses-IsOrderly :
          is_live r ≡ true
          → new.account ≡ r.account
          → is_live new ≡ false
          → is_credit_note new.kind ≡ false
          → is_open_invoice new ≡ false
          → units (document_gross new) ≈ pos 0 -ℤ units (document_gross r)
          → IsOrderly (with_canceled r.id (appended new g))
      reverses-IsOrderly live account dead plain closed amount = record {
        keyed = Keyed-cancel_rows r.id docs Keyed-appended;
        below =
            All-cancel_rows _ _ r.id (λ q _ h. h) (λ q h. h) docs (below-append g new id o.below);
        credited =
            All-cancel_rows (λ q. credit_value q ≤ℤ pos 0) (λ q. credit_value q ≤ℤ pos 0) r.id
              (λ q _ h. h) (λ q h. h) docs
              (All-append (λ q. credit_value q ≤ℤ pos 0) g.documents (new ∷ []) o.credited
                (rw plain (omega int_laws), tt));
        capped =
            All-cancel_rows (λ q. pos 0 ≤ℤ uncredited g.documents q)
              (λ q. pos 0 ≤ℤ uncredited after q) r.id
              (λ q _ h. uncredited_grows g.documents after q (grows q) h)
              (λ q h. uncredited_closed after (canceled_row q) (and_false (is_invoice q.kind))) docs
              (All-append (λ q. pos 0 ≤ℤ uncredited g.documents q) g.documents (new ∷ []) o.capped
                (uncredited_closed g.documents new closed, tt));
        balanced = balance;
      }
        where
          docs : List (DocumentRow D)
          docs = (appended new g).documents

          after : List (DocumentRow D)
          after = cancel_rows r.id docs

          grows :
              (q : DocumentRow D)
              → total (is_attached q.id) g.documents ≤ℤ total (is_attached q.id) after
          grows q = omega (
            int_laws,
            total-cancel_rows (is_attached q.id) (attached_canceled q.id) r docs Keyed-appended
                in_appended,
            total-append (is_attached q.id) g.documents new,
            parts_of_eq (part_of_dropped (is_attached q.id) new (not_attached q.id new plain)),
            part_of-is_attached q.id r
                (All-Mem (λ x. credit_value x ≤ℤ pos 0) g.documents r o.credited in_g),
          )

          balance : (k : Key) → total (counts_row k) after ≈ total (counts_live k) after
          balance k = omega (
            int_laws,
            parts_of_eq (total-cancel_rows_all (counts_row k) (λ q. refl) r.id docs),
            total-append (counts_row k) g.documents new,
            total-cancel_rows (counts_live k) (live_canceled k) r docs Keyed-appended in_appended,
            total-append (counts_live k) g.documents new,
            parts_of_eq (part_of_dropped (counts_live k) new (not_live k new dead)),
            parts_of_eq (live_part k r live),
            opposite_part k r new account amount,
            o.balanced k,
          )

      credits-IsOrderly :
          is_live new ≡ true
          → is_open_invoice new ≡ false
          → is_open_invoice r ≡ true
          → is_credit_note new.kind ≡ true
          → new.references ≡ some r.id
          → units (document_gross new) ≤ℤ pos 0
          → pos 0 ≤ℤ uncredited g.documents r +ℤ units (document_gross new)
          → IsOrderly (appended new g)
      credits-IsOrderly live closed billed credit references low enough = record {
        keyed = Keyed-appended;
        below = below-append g new id o.below;
        credited =
            All-append (λ q. credit_value q ≤ℤ pos 0) g.documents (new ∷ []) o.credited
              (rw credit low, tt);
        capped =
            All-append (λ q. pos 0 ≤ℤ uncredited docs q) g.documents (new ∷ [])
              (All-map _ (λ q. pos 0 ≤ℤ uncredited docs q) (λ q (place, h). covered q place h)
                g.documents
                (All-zip (λ q. (q.id ≢ r.id) ⊎ (q ≡ r)) (λ q. pos 0 ≤ℤ uncredited g.documents q)
                  g.documents (Keyed-apart g.documents r o.keyed in_g) o.capped))
              (uncredited_closed docs new closed, tt);
        balanced = balance;
      }
        where
          docs : List (DocumentRow D)
          docs = (appended new g).documents

          balance : (k : Key) → total (counts_row k) docs ≈ total (counts_live k) docs
          balance k = omega (
            int_laws,
            total-append (counts_row k) g.documents new,
            total-append (counts_live k) g.documents new,
            parts_of_eq (live_part k new live),
            o.balanced k,
          )

          still_covered : pos 0 ≤ℤ uncredited docs r
          still_covered =
              let before : uncredited g.documents r
                  ≡ units (document_gross r) +ℤ total (is_attached r.id) g.documents =
                rw billed refl in
              let now : uncredited docs r
                  ≡ units (document_gross r) +ℤ total (is_attached r.id) docs =
                rw billed refl in
              omega (
                int_laws,
                parts_of_eq before,
                parts_of_eq now,
                total-append (is_attached r.id) g.documents new,
                part_of_low (is_attached r.id) new low,
                enough,
              )

          covered :
              (q : DocumentRow D)
              → (q.id ≢ r.id) ⊎ (q ≡ r)
              → pos 0 ≤ℤ uncredited g.documents q
              → pos 0 ≤ℤ uncredited docs q
          covered q (inr same) h =
              subst (λ (x : DocumentRow D). pos 0 ≤ℤ uncredited docs x) (sym same) still_covered
          covered q (inl other) h =
              uncredited_grows g.documents docs q
                (omega (
                  int_laws,
                  total-append (is_attached q.id) g.documents new,
                  parts_of_eq (
                      part_of_dropped (is_attached q.id) new
                        (attached_elsewhere q.id r.id new references other)),
                ))
                h

  pub Step-IsOrderly : (g g' : Register D) → Step g g' → IsOrderly g → IsOrderly g'
  Step-IsOrderly g g' (Step.reverses r number when c in_g live amount) o =
      reverses-IsOrderly g o r (new_document g.next_id r.account number storno (some r.id) when c)
        in_g refl live refl refl refl refl amount
  Step-IsOrderly g g' (Step.credits r number when c in_g billed low enough) o =
      credits-IsOrderly g o r
        (new_document g.next_id r.account number credit_note (some r.id) when c) in_g refl refl refl
        billed refl refl low enough

  pub Reaches-IsOrderly : (g g' : Register D) → Reaches g g' → IsOrderly g → IsOrderly g'
  Reaches-IsOrderly g g' (Reaches.here _) o = o
  Reaches-IsOrderly g g'' (Reaches.there _ g' _ step rest) o =
      Reaches-IsOrderly g' g'' rest (Step-IsOrderly g g' step o)
