-- ===== src/Invoices/Operations.antt =====
-- `StornoInvoiceByID`, `GutschriftInvoiceByID` and `StornoDocument`, each one transaction on the tables
-- of Account, and the two caps on credit notes.
use treckrr.Prelude.{
  ℕ, ◌+◌, ltb, ℤ, pos, ◌==ℤ◌, Bool, true, false, not, ◌&&◌, Option, none, some, List, [], ◌∷◌, ◌++◌,
  length, if◌then◌else◌, Result, ok, err, ◌>>=◌, ◌>>◌, refuse_if,
}
use treckrr.Decimal.{Decimal}
use treckrr.Calendar.{Date}
use treckrr.Text.{Text, text}
use treckrr.Account.Content.{Content}
use treckrr.Account.Data.{
  Key, Kind, invoice, storno, credit_note, anzahlung, DocumentRow, Books, Error, not_found,
  invoice_incomplete, no_snapshot, gutschrift_too_large, gutschrift_amount, invoice_storno,
  document_storno, invoice_gutschrift,
}
use treckrr.Account.Balance.{
  is_credit_note, is_issued, counts_invoice, counts_credit, document_gross, sum_where,
}
use treckrr.Account.Locks.{lock_account_boundary}
use treckrr.Ledger.Operations.{round_money}
use treckrr.Invoices.Contents.{Printing, reverse_content, gutschrift_content}
use treckrr.Invoices.Documents.{
  select, refers_to, insert_invoice_doc, cancel_rows, cancel_document, release_entries,
  active_invoice, is_attached, attached_active_credits, add_invoice_audit,
}

abbrev pub required {ℓ} : {A : Type ℓ} → Error → Option A → Result Error A
required e none = err e
required e (some a) = ok a

-- `FOR UPDATE` of one issued Anzahlung or credit note.
abbrev pub is_reversible : Kind → Bool
is_reversible invoice = false
is_reversible storno = false
is_reversible credit_note = true
is_reversible anzahlung = true

module _ {D : Type 0} where
  unfoldable pub find_document : ℤ → List (DocumentRow D) → Option (DocumentRow D)
  find_document id [] = none
  find_document id (r ∷ rs) =
      let later = find_document id rs in if r.id ==ℤ id then some r else later

  abbrev pub is_credit_of : ℤ → DocumentRow D → Bool
  is_credit_of id r = refers_to id r.references && is_credit_note r.kind

  abbrev pub is_storno_target : Key → DocumentRow D → Bool
  is_storno_target k r =
      is_reversible r.kind && is_issued r.status && (r.account.year_id ==ℤ k.year_id)

module _ {D : Type 0} ⦃d : Decimal D⦄ where
  open d use {sub, neg, is_positive, greater_than}

  -- `COALESCE(-SUM(gross), 0)` of the credit notes attached to an invoice
  unfoldable pub attached_credit : ℤ → Books D → D
  unfolding sum_where
  attached_credit id b = neg (sum_where (is_attached id) document_gross b.documents)

  unfoldable pub invoiced_gross : Key → Books D → D
  unfolding sum_where
  invoiced_gross k b = sum_where (counts_invoice k) document_gross b.documents

  unfoldable pub credited_gross : Key → Books D → D
  unfolding sum_where
  credited_gross k b = neg (sum_where (counts_credit k) document_gross b.documents)

  unfoldable pub check_credit_cap : Key → D → D → Books D → Result Error (Unit {0})
  unfolding credited_gross
  check_credit_cap k cap gross b =
      refuse_if (greater_than gross (sub cap (credited_gross k b))) gutschrift_too_large

  unfoldable pub check_invoice_credit_cap : DocumentRow D → D → Books D → Result Error (Unit {0})
  unfolding attached_credit invoiced_gross check_credit_cap
  check_invoice_credit_cap r gross b = do
    c ← required invoice_incomplete r.content
    refuse_if (greater_than gross (sub c.gross (attached_credit r.id b))) gutschrift_too_large
    check_credit_cap r.account (invoiced_gross r.account b) gross b

module _ {D : Type 0} ⦃d : Decimal D⦄ (p : Printing D) where
  open d use {is_positive}

  -- `stornoDocumentTx`
  unfoldable pub reverse_document :
      DocumentRow D → Text → Date → Books D → Result Error (DocumentRow D × Books D)
  unfolding insert_invoice_doc cancel_rows
  reverse_document orig reason when b = do
    c ← required no_snapshot orig.content
    inserted ←
        insert_invoice_doc orig.account (orig.number ++ text "-S") storno (some orig.id) when
          (reverse_content p c orig.number reason) b
    ok (
      inserted.0,
      add_invoice_audit document_storno inserted.0 (cancel_document orig.id inserted.1),
    )

  -- The loop over the attached credit notes.
  unfoldable pub reverse_documents :
      List (DocumentRow D) → Text → Date → Books D → Result Error (Books D)
  unfolding reverse_document
  reverse_documents [] reason when b = ok b
  reverse_documents (r ∷ rs) reason when b = do
    reversed ← reverse_document r reason when b
    reverse_documents rs reason when reversed.1

  unfoldable pub storno_invoice_by_id :
      Key → ℤ → Text → Date → Books D → Result Error (DocumentRow D × Books D)
  unfolding active_invoice reverse_documents attached_active_credits insert_invoice_doc
  storno_invoice_by_id k id reason when b = do
    present ← lock_account_boundary b k true true
    refuse_if (not present) not_found
    orig ← active_invoice k id b
    c ← required invoice_incomplete orig.content
    b1 ← reverse_documents (attached_active_credits orig.id b) reason when b
    inserted ←
        insert_invoice_doc k (orig.number ++ text "-S") storno (some orig.id) when
          (reverse_content p c orig.number reason) b1
    ok (
      inserted.0,
      add_invoice_audit invoice_storno inserted.0
          (release_entries orig.id (cancel_document orig.id inserted.1)),
    )

  -- `StornoInvoice`
  abbrev pub storno_invoice : Key → Text → Date → Books D → Result Error (DocumentRow D × Books D)
  storno_invoice k reason when b = storno_invoice_by_id k (pos 0) reason when b

  -- `-G`, then `-G2`, `-G3`
  unfoldable pub gutschrift_suffix : ℕ → Text
  gutschrift_suffix count = if ltb 0 count then text "-G" ++ p.digits (count + 1) else text "-G"

  -- `issueGutschriftTx`
  unfoldable pub issue_gutschrift :
      DocumentRow D → Content D → D → Text → Date → Books D → Result Error (DocumentRow D × Books D)
  unfolding insert_invoice_doc select gutschrift_suffix
  issue_gutschrift orig base reduction note when b = do
    let credit = gutschrift_content p base reduction note orig.number orig.issued_on
    let suffix = gutschrift_suffix (length (select (is_credit_of orig.id) b.documents))
    inserted ←
        insert_invoice_doc orig.account (orig.number ++ suffix) credit_note (some orig.id) when
          credit b
    ok (inserted.0, add_invoice_audit invoice_gutschrift inserted.0 inserted.1)

  unfoldable pub gutschrift_invoice_by_id :
      Key → ℤ → D → Text → Date → Books D → Result Error (DocumentRow D × Books D)
  unfolding active_invoice check_invoice_credit_cap issue_gutschrift
  gutschrift_invoice_by_id k id entered note when b = do
    let reduction = round_money entered
    refuse_if (not (is_positive reduction)) gutschrift_amount
    present ← lock_account_boundary b k true true
    refuse_if (not present) not_found
    orig ← active_invoice k id b
    base ← required invoice_incomplete orig.content
    check_invoice_credit_cap orig reduction b
    issue_gutschrift orig base reduction note when b

  -- `GutschriftInvoice`
  abbrev pub gutschrift_invoice :
      Key → D → Text → Date → Books D → Result Error (DocumentRow D × Books D)
  gutschrift_invoice k entered note when b = gutschrift_invoice_by_id k (pos 0) entered note when b

  unfoldable pub storno_document :
      ℤ → Text → Date → Books D → Result Error (DocumentRow D × Books D)
  unfolding find_document reverse_document
  storno_document id reason when b = do
    orig ← required not_found (find_document id b.documents)
    present ← lock_account_boundary b orig.account true true
    refuse_if (not present) not_found
    refuse_if (not (is_storno_target orig.account orig)) not_found
    reverse_document orig reason when b
