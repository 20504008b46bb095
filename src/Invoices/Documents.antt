-- ===== src/Invoices/Documents.antt =====
-- The rows of `invoices`: inserting one, selecting the active invoice and the attached credit notes,
-- and marking one canceled. The table stands in the order of its ids.
use treckrr.Prelude.{
  ℤ, pos, ◌+ℤ◌, ◌==ℤ◌, Bool, false, ◌&&◌, ◌||◌, Option, none, some, List, [], ◌∷◌, ◌++◌,
  if◌then◌else◌, Result, ok, err, ◌>>◌, refuse_if,
}
use treckrr.Decimal.{Decimal}
use treckrr.Calendar.{Date}
use treckrr.Text.{Text, same_text}
use treckrr.Account.Content.{Content}
use treckrr.Account.Data.{
  Key, same_account, Kind, issued, canceled, DocumentRow, EntryRow, Books, Error, not_found,
  invoice_ambiguous, number_taken, DocumentAction, document_issue,
}
use treckrr.Account.Balance.{is_invoice, is_credit_note, is_issued, document_gross}
use treckrr.Account.Operations.{add_audit}

unfoldable pub select {ℓ} : {A : Type ℓ} → (A → Bool) → List A → List A
select keep [] = []
select keep (x ∷ xs) = let rest = select keep xs in if keep x then x ∷ rest else rest

abbrev pub refers_to : ℤ → Option ℤ → Bool
refers_to id none = false
refers_to id (some j) = j ==ℤ id

module _ {D : Type 0} where
  -- The constraint `invoices_year_number_key`.
  unfoldable pub number_is_taken : ℤ → Text → List (DocumentRow D) → Bool
  unfolding same_text
  number_is_taken year number [] = false
  number_is_taken year number (r ∷ rs) =
      (r.account.year_id ==ℤ year) && same_text r.number number || number_is_taken year number rs

  abbrev pub new_document : ℤ → Key → Text → Kind → Option ℤ → Date → Content D → DocumentRow D
  new_document id k number kind references when c = record {
    id = id;
    account = k;
    number = number;
    kind = kind;
    status = issued;
    references = references;
    payment_reference = number;
    issued_on = when;
    content = some c;
  }

  abbrev pub append_document : DocumentRow D → Books D → Books D
  append_document r b = record b {
    documents = b.documents ++ (r ∷ []);
    next_id = b.next_id +ℤ pos 1;
  }

  unfoldable pub insert_invoice_doc :
      Key
      → Text
      → Kind
      → Option ℤ
      → Date
      → Content D
      → Books D
      → Result Error (DocumentRow D × Books D)
  unfolding number_is_taken
  insert_invoice_doc k number kind references when c b = do
    refuse_if (number_is_taken k.year_id number b.documents) number_taken
    let row = new_document b.next_id k number kind references when c
    ok (row, append_document row b)

  -- `UPDATE invoices SET status='canceled' WHERE id=$1`
  unfoldable pub cancel_rows : ℤ → List (DocumentRow D) → List (DocumentRow D)
  cancel_rows id [] = []
  cancel_rows id (r ∷ rs) =
      (if r.id ==ℤ id then record r { status = canceled } else r) ∷ cancel_rows id rs

  abbrev pub cancel_document : ℤ → Books D → Books D
  cancel_document id b = record b { documents = cancel_rows id b.documents }

  -- `UPDATE invoice_entries SET active=false WHERE invoice_id=$1 AND active`
  unfoldable pub release_rows : ℤ → List (EntryRow D) → List (EntryRow D)
  release_rows id [] = []
  release_rows id (r ∷ rs) =
      (if refers_to id r.claimed_by then record r { claimed_by = none } else r) ∷ release_rows id rs

  abbrev pub release_entries : ℤ → Books D → Books D
  release_entries id b = record b { entries = release_rows id b.entries }

  abbrev pub is_active_invoice : Key → ℤ → DocumentRow D → Bool
  is_active_invoice k id r =
      same_account r.account k
      && is_invoice r.kind
      && is_issued r.status
      && ((id ==ℤ pos 0) || (r.id ==ℤ id))

  unfoldable pub unique_invoice : List (DocumentRow D) → Result Error (DocumentRow D)
  unique_invoice [] = err not_found
  unique_invoice (r ∷ []) = ok r
  unique_invoice (r ∷ q ∷ rs) = err invoice_ambiguous

  -- `activeInvoiceTx`
  unfoldable pub active_invoice : Key → ℤ → Books D → Result Error (DocumentRow D)
  unfolding unique_invoice select
  active_invoice k id b = unique_invoice (select (is_active_invoice k id) b.documents)

  abbrev pub is_attached : ℤ → DocumentRow D → Bool
  is_attached id r = refers_to id r.references && is_credit_note r.kind && is_issued r.status

  unfoldable pub attached_active_credits : ℤ → Books D → List (DocumentRow D)
  unfolding select
  attached_active_credits id b = select (is_attached id) b.documents

module _ {D : Type 0} ⦃d : Decimal D⦄ where
  -- `addInvoiceAudit`
  abbrev pub add_invoice_audit : DocumentAction → DocumentRow D → Books D → Books D
  add_invoice_audit action r b =
      add_audit (document_issue action r.id r.number r.kind (document_gross r)) b
