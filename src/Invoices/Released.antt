-- ===== src/Invoices/Released.antt =====
-- What the reversal of an invoice does to the balances.
use mathlib.Core.List.{Memᴰ}
use treckrr.Prelude.{
  ℤ, ◌+ℤ◌, ◌-ℤ◌, ◌≈◌, int_laws, parts_of_eq, ◌≡◌, refl, sym, ap, ◌∙◌, true, false, not, some, List,
  ◌∷◌, ◌++◌, subst, All, ok, ok-injective, first_of_chain, refuse_if-ok,
}
use treckrr.Decimal.{Decimal}
use treckrr.Calendar.{Date}
use treckrr.Text.{Text, text}
use treckrr.Account.Data.{
  Key, same_account, storno, not_found, invoice_incomplete, invoice_storno, DocumentRow, EntryRow,
  Books,
}
use treckrr.Account.Balance.{
  is_invoice, is_credit_note, is_issued, counts_invoice, counts_ledger, counts_payment,
  counts_credit, counts_entry, sum_where, balance,
}
use treckrr.Account.Locks.{lock_account_boundary}
use treckrr.Account.Effects.{balance_value}
use treckrr.Invoices.Contents.{Printing, reverse_content}
use treckrr.Invoices.Documents.{
  select, new_document, insert_invoice_doc, active_invoice, is_attached, attached_active_credits,
  append_document, add_invoice_audit, cancel_document, release_entries,
}
use treckrr.Invoices.Operations.{required, reverse_documents, storno_invoice_by_id}
use treckrr.Invoices.Register.{canceled_row, is_live}
use treckrr.Invoices.Totals.{part_of, total}
use treckrr.Invoices.Orderly.{IsOrderly, attached_false, attached_plain}
use treckrr.Invoices.Runs.{
  IsTarget, active_invoice-IsTarget, live_row, live_attached, not_storno-is_invoice,
  apart_from_credits,
}
use treckrr.Invoices.Refinement.{
  Mem-select, All-of_Mem, Keyed-select, reverse_documents_lem, register_of, insert_invoice_doc-ok,
}
use treckrr.Invoices.Freed.{claims_entry, entry_total, entry_total-release_rows}
use treckrr.Invoices.Reversals.{parts_of, other_rows, reversal-total, reverse_documents-total}

module _ {D : Type 0} ⦃d : Decimal D⦄ where
  open d use {units}

  -- What documents count in the balance of an account.
  abbrev pub documents_part : Key → List (DocumentRow D) → ℤ
  documents_part k rs = parts_of (counts_invoice k) rs +ℤ parts_of (counts_credit k) rs

  invoice_drops : (k : Key) (q : DocumentRow D) → counts_invoice k (canceled_row q) ≡ false
  invoice_drops k q = attached_false (same_account q.account k) (is_invoice q.kind)

  credit_drops : (k : Key) (q : DocumentRow D) → counts_credit k (canceled_row q) ≡ false
  credit_drops k q = attached_false (same_account q.account k) (is_credit_note q.kind)

  invoice_plain : (k : Key) (q : DocumentRow D) → q.kind ≡ storno → counts_invoice k q ≡ false
  invoice_plain k q e = rw e (attached_plain (same_account q.account k) (is_issued q.status))

  credit_plain : (k : Key) (q : DocumentRow D) → q.kind ≡ storno → counts_credit k q ≡ false
  credit_plain k q e = rw e (attached_plain (same_account q.account k) (is_issued q.status))

  -- The reversals of the credit notes.
  balance-others :
      (k : Key) (rs : List (DocumentRow D)) (b b' : Books D)
      → total (counts_invoice k) b'.documents
        ≈ total (counts_invoice k) b.documents -ℤ parts_of (counts_invoice k) rs
      → total (counts_credit k) b'.documents
        ≈ total (counts_credit k) b.documents -ℤ parts_of (counts_credit k) rs
      → other_rows b' ≡ other_rows b
      → units (balance b' k) ≈ units (balance b k) -ℤ documents_part k rs
  balance-others k rs b b' invoiced credited others = omega (
    int_laws,
    balance_value b' k,
    balance_value b k,
    invoiced,
    credited,
    parts_of_eq (ap (λ x. entry_total (counts_entry k) x.0) others),
    parts_of_eq (ap (λ x. units (sum_where (counts_ledger k) (λ r. r.amount) x.1)) others),
    parts_of_eq (ap (λ x. units (sum_where (counts_payment k) (λ r. r.amount) x.2)) others),
  )

  -- The reversal of the invoice and the release of its bookings.
  balance-reversal :
      (k : Key) (r new : DocumentRow D) (b : Books D)
      → IsOrderly (register_of b)
      → Memᴰ r b.documents
      → new.id ≡ b.next_id
      → new.kind ≡ storno
      → units (balance (release_entries r.id (cancel_document r.id (append_document new b))) k)
        ≈ units (balance b k)
          -ℤ (part_of (counts_invoice k) r +ℤ part_of (counts_credit k) r)
          +ℤ entry_total (claims_entry k r.id) b.entries
  balance-reversal k r new b o in_b id plain = omega (
    int_laws,
    balance_value (release_entries r.id (cancel_document r.id (append_document new b))) k,
    balance_value b k,
    reversal-total (counts_invoice k) (invoice_drops k) r new (register_of b) o in_b id
        (invoice_plain k new plain),
    reversal-total (counts_credit k) (credit_drops k) r new (register_of b) o in_b id
        (credit_plain k new plain),
    entry_total-release_rows k r.id b.entries,
  )

  reversal_sum :
      (k : Key) (r : DocumentRow D) (rs : List (DocumentRow D)) (start middle last freed : ℤ)
      → middle ≈ start -ℤ documents_part k rs
      → last ≈ middle -ℤ (part_of (counts_invoice k) r +ℤ part_of (counts_credit k) r) +ℤ freed
      → last ≈ start -ℤ documents_part k (r ∷ rs) +ℤ freed
  reversal_sum k r rs start middle last freed first second = omega (int_laws, first, second)

  balance-add_invoice_audit :
      (r : DocumentRow D) (b : Books D) (k : Key)
      → balance (add_invoice_audit invoice_storno r b) k ≡ balance b k
  unfolding balance
  balance-add_invoice_audit r b k = refl

module _ {D : Type 0} ⦃d : Decimal D⦄ (p : Printing D) where
  open d use {units}

  -- If the reversal of an invoice succeeds in an orderly register, the invoice is the one with the
  -- given id or, without an id, the only invoice in force of the account, and the balance of every
  -- account changes by exactly two things: it loses what the invoice and the credit notes in force
  -- that are attached to it counted there, and it gains the costs of the account's bookings that
  -- the invoice had claimed, voided ones left out.
  pub storno_invoice_by_id-balance :
      (k j : Key) (id : ℤ) (reason : Text) (when : Date) (b b' : Books D) (sv : DocumentRow D)
      → IsOrderly (register_of b)
      → storno_invoice_by_id p k id reason when b ≡ ok (sv, b')
      → (orig : DocumentRow D) × IsTarget b k id orig
        × (units (balance b' j)
            ≈ units (balance b j)
              -ℤ documents_part j (orig ∷ attached_active_credits orig.id b)
              +ℤ entry_total (claims_entry j orig.id) b.entries)
  unfolding storno_invoice_by_id attached_active_credits
  storno_invoice_by_id-balance k j id reason when b b' sv o e =
      let (present, _, e1) = first_of_chain _ (lock_account_boundary b k true true) e in
      let (_, e2) = refuse_if-ok (not present) not_found _ e1 in
      let (orig, chosen, e3) = first_of_chain _ (active_invoice k id b) e2 in
      let (c, content, e4) = first_of_chain _ (required invoice_incomplete orig.content) e3 in
      let (b1, reverses, e5) =
        first_of_chain _ (reverse_documents p (attached_active_credits orig.id b) reason when b)
          e4 in
      let number = orig.number ++ text "-S" in
      let rev = reverse_content p c orig.number reason in
      let (inserted, inserts, e6) =
        first_of_chain _ (insert_invoice_doc k number storno (some orig.id) when rev b1) e5 in
      let t = active_invoice-IsTarget k id b orig chosen in
      let live = live_row orig (not_storno-is_invoice orig.kind t.kind) t.status in
      let credits = select (is_attached orig.id) b.documents in
      let keyed = Keyed-select (is_attached orig.id) b.documents o.keyed in
      let in_b : All (λ r. Memᴰ r b.documents × (is_live r ≡ true)) credits =
        All-of_Mem _ credits (λ r in_credits.
          let (in_rows, attached) = Mem-select (is_attached orig.id) b.documents r in_credits in
          (in_rows, live_attached orig.id r attached)) in
      let (_, keeps) = reverse_documents_lem p credits reason when b b1 keyed in_b reverses in
      let (totals, orderly, others) =
        reverse_documents-total p credits reason when b b1 o keyed in_b reverses in
      let in_b1 =
        keeps orig (apart_from_credits b.documents orig orig.id o.keyed t.in_table t.kind)
          t.in_table in
      let (_, made) =
        insert_invoice_doc-ok p k number storno (some orig.id) when rev b1 inserted.1 inserted.0
          inserts in
      let new = new_document b1.next_id k number storno (some orig.id) when rev in
      let final = release_entries orig.id (cancel_document orig.id (append_document new b1)) in
      let same : balance b' j ≡ balance final j =
        sym (ap (λ (x : DocumentRow D × Books D). balance x.1 j) (ok-injective e6))
        ∙ (balance-add_invoice_audit inserted.0
              (release_entries orig.id (cancel_document orig.id inserted.1)) j
            ∙ ap (λ (x : Books D). balance (release_entries orig.id (cancel_document orig.id x)) j)
                made) in
      (
        orig,
        t,
        subst
            (λ v.
              units v
              ≈ units (balance b j)
                -ℤ documents_part j (orig ∷ credits)
                +ℤ entry_total (claims_entry j orig.id) b.entries)
            (sym same)
            (subst
              (λ (es : List (EntryRow D)).
                units (balance final j)
                ≈ units (balance b j)
                  -ℤ documents_part j (orig ∷ credits)
                  +ℤ entry_total (claims_entry j orig.id) es)
              (ap (λ x. x.0) others)
              (reversal_sum j orig credits (units (balance b j)) (units (balance b1 j))
                (units (balance final j)) (entry_total (claims_entry j orig.id) b1.entries)
                (balance-others j credits b b1
                  (totals (counts_invoice j) (invoice_drops j) (invoice_plain j))
                  (totals (counts_credit j) (credit_drops j) (credit_plain j)) others)
                (balance-reversal j orig new b1 orderly in_b1 refl refl))),
      )
