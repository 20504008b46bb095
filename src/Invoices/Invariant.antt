-- ===== src/Invoices/Invariant.antt =====
-- Any sequence of operations on documents keeps the register orderly.
use treckrr.Prelude.{
  ℤ, pos, ◌+ℤ◌, ◌≤ℤ◌, ◌≡◌, refl, sym, ap, parts_of_eq, int_laws, subst, ◌∙◌, ok, List, some, Bool,
  true, false, ◌&&◌,
}
use treckrr.Decimal.{Decimal}
use treckrr.Calendar.{Date}
use treckrr.Text.{Text}
use treckrr.Account.Data.{Key, credit_note, DocumentRow, Books, same_account}
use treckrr.Account.Balance.{counts_invoice, counts_credit, document_gross}
use treckrr.Invoices.Contents.{Printing}
use treckrr.Invoices.Documents.{new_document, is_attached}
use treckrr.Invoices.Operations.{storno_invoice_by_id, gutschrift_invoice_by_id, storno_document}
use treckrr.Invoices.Register.{Register, appended, is_open_invoice}
use treckrr.Invoices.Totals.{total, total-append}
use treckrr.Invoices.Orderly.{uncredited, Step, Reaches, IsOrderly, part_of_dropped, part_of_low}
use treckrr.Invoices.Preserved.{Reaches-IsOrderly}
use treckrr.Invoices.Credits.{gutschrift_invoice_by_id_lem}
use treckrr.Invoices.Refinement.{register_of}
use treckrr.Invoices.Runs.{IsTarget, storno_invoice_by_id-Reaches, storno_document-Reaches}

no_invoice : (b : Bool) → (b && false && true) ≡ false
no_invoice true = refl
no_invoice false = refl

module _ {D : Type 0} ⦃d : Decimal D⦄ (p : Printing D) where
  open d use {units}

  -- One operation on documents that succeeds.
  pub data DocumentStep (b b' : Books D) : Type 0 where
    cancels_invoice :
        (k : Key) (id : ℤ) (reason : Text) (when : Date) (sv : DocumentRow D)
        → storno_invoice_by_id p k id reason when b ≡ ok (sv, b')
        → DocumentStep b b'
    credits_invoice :
        (k : Key) (id : ℤ) (entered : D) (note : Text) (when : Date) (gv : DocumentRow D)
        → gutschrift_invoice_by_id p k id entered note when b ≡ ok (gv, b')
        → DocumentStep b b'
    cancels_document :
        (id : ℤ) (reason : Text) (when : Date) (sv : DocumentRow D)
        → storno_document p id reason when b ≡ ok (sv, b')
        → DocumentStep b b'

  pub data Runs : Books D → Books D → Type 0 where
    here : (b : Books D) → Runs b b
    there : (b b' b'' : Books D) → DocumentStep b b' → Runs b' b'' → Runs b b''

  uncredited_open :
      (rs : List (DocumentRow D)) (r : DocumentRow D)
      → is_open_invoice r ≡ true
      → uncredited rs r ≡ units (document_gross r) +ℤ total (is_attached r.id) rs
  uncredited_open rs r e = rw e refl

  open_target :
      (b : Books D) (k : Key) (id : ℤ) (r : DocumentRow D)
      → IsTarget b k id r
      → is_open_invoice r ≡ true
  open_target b k id r t = rw (t.kind) t.status

  -- An operation on the documents that succeeds on an orderly register, an invoice's reversal, a credit
  -- note or the reversal of another document, is a sequence of steps of the register: reversals of
  -- documents in force and credit notes within what is left of their invoice.
  pub DocumentStep-Reaches :
      (b b' : Books D)
      → IsOrderly (register_of b)
      → DocumentStep b b'
      → Reaches (register_of b) (register_of b')
  DocumentStep-Reaches b b' o (DocumentStep.cancels_invoice k id reason when sv e) =
      storno_invoice_by_id-Reaches p k id reason when b b' sv o.keyed e
  DocumentStep-Reaches b b' o (DocumentStep.cancels_document id reason when sv e) =
      storno_document-Reaches p id reason when b b' sv e
  DocumentStep-Reaches b b' o (DocumentStep.credits_invoice k id entered note when gv e) =
      let (orig, t, (c, number, shape, low, left, _)) =
        gutschrift_invoice_by_id_lem p k id entered note when b b' gv e in
      let billed = open_target b k id orig t in
      let shape' =
        shape
        ∙ ap
            (λ (j : Key).
              appended (new_document b.next_id j number credit_note (some orig.id) when c)
                (register_of b))
            (sym t.account) in
      Reaches.there (register_of b) (register_of b') (register_of b')
        (subst (λ (g : Register D). Step (register_of b) g) (sym shape')
          (Step.credits orig number when c t.in_table billed low
            (omega (int_laws, left, parts_of_eq (uncredited_open b.documents orig billed)))))
        (Reaches.here (register_of b'))

  -- If the ids tell the documents apart, no credit note is positive, no issued invoice is credited
  -- beyond its gross, and in every account all documents together sum to what the documents in force
  -- sum to, then the same holds after any sequence of reversals and credit notes that succeed.
  pub Runs-IsOrderly :
      (b b' : Books D) → IsOrderly (register_of b) → Runs b b' → IsOrderly (register_of b')
  Runs-IsOrderly b b' o (Runs.here _) = o
  Runs-IsOrderly b b'' o (Runs.there _ b' _ step rest) =
      Runs-IsOrderly b' b''
        (Reaches-IsOrderly (register_of b) (register_of b') (DocumentStep-Reaches b b' o step) o)
        rest

  -- After a credit note is issued, the issued credit notes of its account, attached and free together,
  -- take no more than the issued invoices of the account come to.
  pub gutschrift_invoice_by_id-total :
      (k : Key) (id : ℤ) (entered : D) (note : Text) (when : Date) (b b' : Books D)
      (gv : DocumentRow D)
      → gutschrift_invoice_by_id p k id entered note when b ≡ ok (gv, b')
      → pos 0 ≤ℤ total (counts_invoice k) b'.documents +ℤ total (counts_credit k) b'.documents
  gutschrift_invoice_by_id-total k id entered note when b b' gv e =
      let (orig, t, (c, number, shape, low, _, left)) =
        gutschrift_invoice_by_id_lem p k id entered note when b b' gv e in
      let new = new_document b.next_id k number credit_note (some orig.id) when c in
      subst
        (λ (g : Register D).
          pos 0 ≤ℤ total (counts_invoice k) g.documents +ℤ total (counts_credit k) g.documents)
        (sym shape)
        (omega (
          int_laws,
          left,
          low,
          total-append (counts_invoice k) b.documents new,
          total-append (counts_credit k) b.documents new,
          parts_of_eq (part_of_dropped (counts_invoice k) new (no_invoice (same_account k k))),
          part_of_low (counts_credit k) new low,
        ))
