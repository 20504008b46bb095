-- ===== src/Invoices/Reversals.antt =====
-- What the reversals of documents take out of a sum over the documents.
use mathlib.Core.List.{Memᴰ}
use treckrr.Prelude.{
  ℤ, pos, ◌+ℤ◌, ◌-ℤ◌, ◌≈◌, int_laws, parts_of_eq, ◌≡◌, ◌≢◌, refl, sym, ap, ◌∙◌, Bool, true, false,
  some, List, [], ◌∷◌, ◌++◌, subst, All, All-map, All-zip, ok, ok-injective, first_of_chain,
}
use treckrr.Decimal.{Decimal}
use treckrr.Calendar.{Date}
use treckrr.Text.{Text, text}
use treckrr.Account.Data.{storno, no_snapshot, DocumentRow, EntryRow, LedgerRow, PaymentRow, Books}
use treckrr.Invoices.Contents.{Printing, reverse_content}
use treckrr.Invoices.Documents.{new_document, insert_invoice_doc}
use treckrr.Invoices.Operations.{required, reverse_document, reverse_documents}
use treckrr.Invoices.Register.{Register, appended, with_canceled, canceled_row, is_live, Keyed}
use treckrr.Invoices.Totals.{part_of, total, total-append, total-cancel_rows}
use treckrr.Invoices.Orderly.{IsOrderly, part_of_dropped}
use treckrr.Invoices.Preserved.{Step-IsOrderly, Keyed-appended, in_appended}
use treckrr.Invoices.Refinement.{
  register_of, insert_invoice_doc-ok, reverse_document_shape, reverse_document_lem,
}

module _ {D : Type 0} ⦃d : Decimal D⦄ where
  open d use {units}

  -- What the documents of a list put into a sum.
  abbrev pub parts_of : (DocumentRow D → Bool) → List (DocumentRow D) → ℤ
  parts_of keep [] = pos 0
  parts_of keep (r ∷ rs) = part_of keep r +ℤ parts_of keep rs

  -- Reversing a document takes its part out of a sum over rows in force other than reversals.
  pub reversal-total :
      (keep : DocumentRow D → Bool)
      → ((q : DocumentRow D) → keep (canceled_row q) ≡ false)
      → (r new : DocumentRow D) (g : Register D) → IsOrderly g
      → Memᴰ r g.documents
      → new.id ≡ g.next_id
      → keep new ≡ false
      → total keep (with_canceled r.id (appended new g)).documents
        ≈ total keep g.documents -ℤ part_of keep r
  reversal-total keep drops r new g o in_g id plain = omega (
    int_laws,
    total-cancel_rows keep drops r (appended new g).documents (Keyed-appended g o r new in_g id)
        (in_appended g o r new in_g id),
    total-append keep g.documents new,
    parts_of_eq (part_of_dropped keep new plain),
  )

  -- The lists that the reversal of a document leaves as they are.
  abbrev pub other_rows : Books D → List (EntryRow D) × List (LedgerRow D) × List (PaymentRow D)
  other_rows b = (b.entries, b.ledger, b.payments)

module _ {D : Type 0} ⦃d : Decimal D⦄ (p : Printing D) where
  open d use {units}

  reverse_document-other_rows :
      (orig sv : DocumentRow D) (reason : Text) (when : Date) (b b' : Books D)
      → reverse_document p orig reason when b ≡ ok (sv, b')
      → other_rows b' ≡ other_rows b
  unfolding reverse_document
  reverse_document-other_rows orig sv reason when b b' e =
      let (c, content, e1) = first_of_chain _ (required no_snapshot orig.content) e in
      let number = orig.number ++ text "-S" in
      let rev = reverse_content p c orig.number reason in
      let (inserted, inserts, e2) =
        first_of_chain _ (insert_invoice_doc orig.account number storno (some orig.id) when rev b)
          e1 in
      let (_, made) =
        insert_invoice_doc-ok p orig.account number storno (some orig.id) when rev b inserted.1
          inserted.0 inserts in
      sym (ap (λ (x : DocumentRow D × Books D). other_rows x.1) (ok-injective e2))
      ∙ ap other_rows made

  reverse_document-total :
      (keep : DocumentRow D → Bool)
      → ((q : DocumentRow D) → keep (canceled_row q) ≡ false)
      → ((q : DocumentRow D) → q.kind ≡ storno → keep q ≡ false)
      → (r sv : DocumentRow D) (reason : Text) (when : Date) (b b' : Books D)
      → IsOrderly (register_of b)
      → Memᴰ r b.documents
      → reverse_document p r reason when b ≡ ok (sv, b')
      → total keep b'.documents ≈ total keep b.documents -ℤ part_of keep r
  reverse_document-total keep drops plain r sv reason when b b' o in_b e =
      let (c, _, shape) = reverse_document_shape p r sv reason when b b' e in
      let new =
        new_document b.next_id r.account (r.number ++ text "-S") storno (some r.id) when
          (reverse_content p c r.number reason) in
      omega (
        int_laws,
        parts_of_eq (ap (λ (g : Register D). total keep g.documents) shape),
        reversal-total keep drops r new (register_of b) o in_b refl (plain new refl),
      )

  pub reverse_documents-total :
      (rs : List (DocumentRow D)) (reason : Text) (when : Date) (b b' : Books D)
      → IsOrderly (register_of b)
      → Keyed rs
      → All (λ r. Memᴰ r b.documents × (is_live r ≡ true)) rs
      → reverse_documents p rs reason when b ≡ ok b'
      → ((keep : DocumentRow D → Bool)
          → ((q : DocumentRow D) → keep (canceled_row q) ≡ false)
          → ((q : DocumentRow D) → q.kind ≡ storno → keep q ≡ false)
          → total keep b'.documents ≈ total keep b.documents -ℤ parts_of keep rs)
        × IsOrderly (register_of b')
        × (other_rows b' ≡ other_rows b)
  unfolding reverse_documents
  reverse_documents-total [] reason when b b' o keyed in_b e =
      let same = ok-injective e in
      (
        λ keep _ _.
            omega (int_laws, parts_of_eq (ap (λ (x : Books D). total keep x.documents) same)),
        subst (λ (x : Books D). IsOrderly (register_of x)) same o,
        sym (ap other_rows same),
      )
  reverse_documents-total (r ∷ rs) reason when b b' o (apart, keyed) ((in_b, live), in_rest) e =
      let (reversed, reverses, e1) = first_of_chain _ (reverse_document p r reason when b) e in
      let (step, keeps) =
        reverse_document_lem p r reversed.0 reason when b reversed.1 in_b live reverses in
      let in_later =
        All-map _ (λ q. Memᴰ q reversed.1.documents × (is_live q ≡ true))
          (λ q (other, (in_rows, lives)). (keeps q other in_rows, lives)) rs
          (All-zip (λ q. q.id ≢ r.id) (λ q. Memᴰ q b.documents × (is_live q ≡ true)) rs apart
            in_rest) in
      let (totals, orderly, others) =
        reverse_documents-total rs reason when reversed.1 b'
          (Step-IsOrderly (register_of b) (register_of reversed.1) step o) keyed in_later e1 in
      (
        λ keep drops plain. omega (
          int_laws,
          totals keep drops plain,
          reverse_document-total keep drops plain r reversed.0 reason when b reversed.1 o in_b
              reverses,
        ),
        orderly,
        others ∙ reverse_document-other_rows r reversed.0 reason when b reversed.1 reverses,
      )
