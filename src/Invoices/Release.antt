-- ===== src/Invoices/Release.antt =====
-- What the reversal of an invoice leaves: no credit note in force on it, no booking claimed by it.
use mathlib.Core.List.{Memᴰ}
use mathlib.Core.List.Memᴰ
use treckrr.Prelude.{
  ℤ, pos, ◌-ℤ◌, ◌≈◌, ◌==ℤ◌, ==ℤ_iff, ◌≡◌, refl, sym, ap, ◌∙◌, ◌⊎◌, inl, inr, Bool, true, false, not,
  ◌&&◌, and_false, Bool-cases, int_laws, parts_of_eq, some, List, [], ◌∷◌, ◌++◌, subst, All,
  All-append, All-map, ok, ok-injective, first_of_chain, refuse_if-ok,
}
use treckrr.Decimal.{Decimal}
use treckrr.Calendar.{Date}
use treckrr.Text.{Text, text}
use treckrr.Account.Data.{Key, storno, not_found, invoice_incomplete, DocumentRow, EntryRow, Books}
use treckrr.Account.Balance.{is_issued, document_gross}
use treckrr.Account.Locks.{lock_account_boundary}
use treckrr.Invoices.Contents.{Printing, reverse_content}
use treckrr.Invoices.Documents.{
  select, refers_to, new_document, insert_invoice_doc, cancel_rows, release_rows, active_invoice,
  is_attached, attached_active_credits,
}
use treckrr.Invoices.Operations.{
  required, reverse_document, reverse_documents, storno_invoice_by_id,
}
use treckrr.Invoices.Register.{Register, appended, with_canceled, All-cancel_rows}
use treckrr.Invoices.Orderly.{not_attached, attached_canceled}
use treckrr.Invoices.Refinement.{
  All-of_Mem, register_of, insert_invoice_doc-ok, required-ok, reverse_document_shape,
  document_gross-some, reverse_content-gross,
}
use treckrr.Invoices.Runs.{IsTarget, active_invoice-IsTarget}

module _ {ℓ} {A : Type ℓ} where
  select_nothing :
      (keep : A → Bool) (xs : List A) → All (λ x. keep x ≡ false) xs → select keep xs ≡ []
  unfolding select
  select_nothing keep [] _ = refl
  select_nothing keep (x ∷ xs) (e, es) = rw (e, select) (select_nothing keep xs es)

  Mem-select_of :
      (keep : A → Bool) (xs : List A) (x : A) → Memᴰ x xs → keep x ≡ true → Memᴰ x (select keep xs)
  unfolding select
  Mem-select_of keep [] x in_xs e = elim in_xs [ ]
  Mem-select_of keep (y ∷ ys) x (Memᴰ.head same) e =
      let kept : keep y ≡ true = subst (λ z. keep z ≡ true) same e in
      rw (kept, select) (Memᴰ.head same)
  Mem-select_of keep (y ∷ ys) x (Memᴰ.tail in_ys) e =
      let rest = Mem-select_of keep ys x in_ys e in
      elim (Bool-cases (keep y)) [
        | inl h ↦ rw (h, select) (Memᴰ.tail rest)
        | inr h ↦ rw (h, select) rest
      ]

module _ {D : Type 0} where
  -- A row that is no credit note in force on the invoice, or that is still to be reversed.
  abbrev IsPending : ℤ → List (DocumentRow D) → DocumentRow D → Type 0
  IsPending id rs q = (is_attached id q ≡ false) ⊎ ((r : DocumentRow D) × Memᴰ r rs × (q.id ≡ r.id))

  IsPending-select :
      (id : ℤ) (rs : List (DocumentRow D)) → All (IsPending id (select (is_attached id) rs)) rs
  IsPending-select id rs = All-of_Mem (IsPending id (select (is_attached id) rs)) rs (λ q in_rs.
      elim (Bool-cases (is_attached id q)) [
        | inl e ↦ inr (q, Mem-select_of (is_attached id) rs q in_rs e, refl)
        | inr e ↦ inl e
      ])

  -- Reversing the first of them.
  IsPending-rest :
      (id : ℤ) (r : DocumentRow D) (rs : List (DocumentRow D)) (q : DocumentRow D)
      → (q.id ==ℤ r.id) ≡ false
      → IsPending id (r ∷ rs) q
      → IsPending id rs q
  IsPending-rest id r rs q other (inl e) = inl e
  IsPending-rest id r rs q other (inr (x, in_rs, same)) = elim (Memᴰ.cases_cons in_rs) [
    | inl first ↦
        let equal : (q.id ==ℤ r.id) ≡ true =
          (==ℤ_iff q.id r.id).1 (same ∙ ap (λ (y : DocumentRow D). y.id) first) in
        cc
    | inr later ↦ inr (x, later, same)
  ]

  release_rows_lem :
      (id : ℤ) (rs : List (EntryRow D))
      → All (λ r. refers_to id r.claimed_by ≡ false) (release_rows id rs)
  unfolding release_rows
  release_rows_lem id [] = tt
  release_rows_lem id (r ∷ rs) = elim (Bool-cases (refers_to id r.claimed_by)) [
    | inl e ↦ rw (e, release_rows) (refl, release_rows_lem id rs)
    | inr e ↦ rw (e, release_rows) (e, release_rows_lem id rs)
  ]

  -- No row of the id is in force.
  abbrev pub IsClosed : ℤ → DocumentRow D → Type 0
  IsClosed id r = ((r.id ==ℤ id) && is_issued r.status) ≡ false

  cancel_rows-IsClosed :
      (id : ℤ) (rs : List (DocumentRow D)) → All (IsClosed id) (cancel_rows id rs)
  cancel_rows-IsClosed id rs =
      All-cancel_rows (λ q. Unit {0}) (IsClosed id) id (λ q e _. rw e refl)
        (λ q _. and_false (q.id ==ℤ id)) rs (All-of_Mem _ rs (λ q _. tt))

module _ {D : Type 0} ⦃d : Decimal D⦄ (p : Printing D) where
  open d use {units}

  IsPending-appended :
      (id : ℤ) (r new : DocumentRow D) (rs : List (DocumentRow D)) (g : Register D)
      → is_attached id new ≡ false
      → All (IsPending id (r ∷ rs)) g.documents
      → All (IsPending id rs) (with_canceled r.id (appended new g)).documents
  IsPending-appended id r new rs g plain pending =
      All-cancel_rows (IsPending id (r ∷ rs)) (IsPending id rs) r.id
        (λ q other h. IsPending-rest id r rs q other h) (λ q _. inl (attached_canceled id q))
        (g.documents ++ (new ∷ []))
        (All-append (IsPending id (r ∷ rs)) g.documents (new ∷ []) pending (inl plain, tt))

  IsPending-reverse_documents :
      (id : ℤ) (rs : List (DocumentRow D)) (reason : Text) (when : Date) (b b' : Books D)
      → All (IsPending id rs) b.documents
      → reverse_documents p rs reason when b ≡ ok b'
      → All (IsPending id []) b'.documents
  unfolding reverse_documents
  IsPending-reverse_documents id [] reason when b b' pending e =
      subst (λ (x : Books D). All (IsPending id []) x.documents) (ok-injective e) pending
  IsPending-reverse_documents id (r ∷ rs) reason when b b' pending e =
      let (reversed, reverses, e1) = first_of_chain _ (reverse_document p r reason when b) e in
      let (c, _, shape) = reverse_document_shape p r reversed.0 reason when b reversed.1 reverses in
      let new =
        new_document b.next_id r.account (r.number ++ text "-S") storno (some r.id) when
          (reverse_content p c r.number reason) in
      let next =
        IsPending-appended id r new rs (register_of b) (not_attached id new refl) pending in
      IsPending-reverse_documents id rs reason when reversed.1 b'
        (subst (λ (g : Register D). All (IsPending id rs) g.documents) (sym shape) next) e1

  -- If the reversal of an invoice succeeds, the invoice is the one with the given id or, without an
  -- id, the only invoice in force of the account; its document has the opposite gross of the
  -- invoice, and afterwards the invoice is no longer in force, no credit note in force is attached
  -- to it, and no booking is claimed by it.
  pub storno_invoice_by_id-releases :
      (k : Key) (id : ℤ) (reason : Text) (when : Date) (b b' : Books D) (sv : DocumentRow D)
      → storno_invoice_by_id p k id reason when b ≡ ok (sv, b')
      → (orig : DocumentRow D) × IsTarget b k id orig
        × (units (document_gross sv) ≈ pos 0 -ℤ units (document_gross orig))
        × All (IsClosed orig.id) b'.documents
        × (attached_active_credits orig.id b' ≡ [])
        × All (λ r. refers_to orig.id r.claimed_by ≡ false) b'.entries
  unfolding storno_invoice_by_id attached_active_credits
  storno_invoice_by_id-releases k id reason when b b' sv e =
      let (present, _, e1) = first_of_chain _ (lock_account_boundary b k true true) e in
      let (_, e2) = refuse_if-ok (not present) not_found _ e1 in
      let (orig, chosen, e3) = first_of_chain _ (active_invoice k id b) e2 in
      let (c, content, e4) = first_of_chain _ (required invoice_incomplete orig.content) e3 in
      let (b1, reverses, e5) =
        first_of_chain _ (reverse_documents p (attached_active_credits orig.id b) reason when b)
          e4 in
      let number = orig.number ++ text "-S" in
      let rev = reverse_content p c orig.number reason in
      let (inserted, inserts, e6) =
        first_of_chain _ (insert_invoice_doc k number storno (some orig.id) when rev b1) e5 in
      let (row, made) =
        insert_invoice_doc-ok p k number storno (some orig.id) when rev b1 inserted.1 inserted.0
          inserts in
      let new = new_document b1.next_id k number storno (some orig.id) when rev in
      let same = ok-injective e6 in
      let shape : register_of b' ≡ with_canceled orig.id (appended new (register_of b1)) =
        sym (ap (λ (x : DocumentRow D × Books D). register_of x.1) same)
        ∙ ap (λ (x : Books D). with_canceled orig.id (register_of x)) made in
      let pending =
        IsPending-reverse_documents orig.id (select (is_attached orig.id) b.documents) reason when b
          b1 (IsPending-select orig.id b.documents) reverses in
      let plain =
        All-map (IsPending orig.id []) (λ q. is_attached orig.id q ≡ false)
          (λ q h. settled orig.id q h) (register_of b1).documents pending in
      let after = (with_canceled orig.id (appended new (register_of b1))).documents in
      let nothing : All (λ q. is_attached orig.id q ≡ false) after =
        All-cancel_rows (λ q. is_attached orig.id q ≡ false) (λ q. is_attached orig.id q ≡ false)
          orig.id (λ q _ h. h) (λ q _. attached_canceled orig.id q) (b1.documents ++ (new ∷ []))
          (All-append (λ q. is_attached orig.id q ≡ false) b1.documents (new ∷ []) plain
            (not_attached orig.id new refl, tt)) in
      let reversal : sv ≡ new = sym (ap (λ (x : DocumentRow D × Books D). x.0) same) ∙ row in
      (
        orig,
        active_invoice-IsTarget k id b orig chosen,
        omega (
          int_laws,
          reverse_content-gross p c orig.number reason,
          parts_of_eq (ap (λ (x : DocumentRow D). units (document_gross x)) reversal),
          parts_of_eq (
              ap units (
                document_gross-some p orig c
                  (required-ok p invoice_incomplete orig.content c content))),
        ),
        subst (λ (g : Register D). All (IsClosed orig.id) g.documents) (sym shape)
            (cancel_rows-IsClosed orig.id (b1.documents ++ (new ∷ []))),
        subst (λ (g : Register D). select (is_attached orig.id) g.documents ≡ []) (sym shape)
            (select_nothing (is_attached orig.id) after nothing),
        subst
            (λ (x : DocumentRow D × Books D).
              All (λ (r : EntryRow D). refers_to orig.id r.claimed_by ≡ false) x.1.entries)
            same (release_rows_lem orig.id inserted.1.entries),
      )
    where
      settled : (i : ℤ) (q : DocumentRow D) → IsPending i [] q → is_attached i q ≡ false
      settled i q (inl e) = e
      settled i q (inr (r, in_none, _)) = elim in_none [ ]
