-- ===== src/Invoices/Runs.antt =====
-- The operations on documents as steps of the books, each a walk of the register.
use mathlib.Core.List.{Memᴰ}
use treckrr.Prelude.{
  ℤ, pos, ◌==ℤ◌, ==ℤ_iff, ◌≡◌, ◌≢◌, refl, sym, ap, ◌∙◌, ◌⊎◌, inl, inr, Bool, true, false, not, ◌&&◌,
  ◌||◌, Bool-cases, Option, some, List, [], ◌∷◌, ◌++◌, subst, All, All-Mem, ok, ok-injective,
  first_of_chain, refuse_if-ok, true_of_not,
}
use treckrr.Decimal.{Decimal}
use treckrr.Calendar.{Date}
use treckrr.Text.{Text, text}
use treckrr.Account.Data.{
  Key, same_account, Kind, invoice, storno, credit_note, anzahlung, not_found, invoice_incomplete,
  DocumentRow, Books,
}
use treckrr.Account.Balance.{counts_invoice, is_invoice, is_credit_note, is_issued}
use treckrr.Account.Locks.{lock_account_boundary}
use treckrr.Invoices.Contents.{Printing, reverse_content}
use treckrr.Invoices.Documents.{
  select, refers_to, insert_invoice_doc, is_active_invoice, unique_invoice, active_invoice,
  is_attached, attached_active_credits,
}
use treckrr.Invoices.Operations.{
  required, is_reversible, find_document, is_storno_target, reverse_documents, storno_invoice_by_id,
  storno_document,
}
use treckrr.Invoices.Register.{Register, with_canceled, not_storno, is_live, Keyed, Keyed-apart}
use treckrr.Invoices.Orderly.{Step, Reaches}
use treckrr.Invoices.Refinement.{
  Mem-select, select-Mem, All-of_Mem, register_of, Keyed-select, insert_invoice_doc-ok, required-ok,
  reversal_lem, reverse_document_lem, reverse_documents_lem,
}

and_parts : (a b : Bool) → (a && b) ≡ true → (a ≡ true) × (b ≡ true)
and_parts true b e = (refl, e)
and_parts false b e = cc

pub same_account-eq : (a b : Key) → same_account a b ≡ true → a ≡ b
same_account-eq a b e =
    let (years, neighbors) =
      and_parts (a.year_id ==ℤ b.year_id) (a.neighbor_id ==ℤ b.neighbor_id) e in
    let year = (==ℤ_iff a.year_id b.year_id).0 years in
    let neighbor = (==ℤ_iff a.neighbor_id b.neighbor_id).0 neighbors in cc

pub not_storno-is_invoice : (kind : Kind) → is_invoice kind ≡ true → not_storno kind ≡ true
not_storno-is_invoice invoice e = refl
not_storno-is_invoice storno e = cc
not_storno-is_invoice credit_note e = cc
not_storno-is_invoice anzahlung e = cc

or_false_parts : (a b : Bool) → (a || b) ≡ true → b ≡ false → a ≡ true
or_false_parts true b e plain = refl
or_false_parts false b e plain = cc

not_storno-is_reversible : (kind : Kind) → is_reversible kind ≡ true → not_storno kind ≡ true
not_storno-is_reversible invoice e = refl
not_storno-is_reversible storno e = cc
not_storno-is_reversible credit_note e = refl
not_storno-is_reversible anzahlung e = refl

is_reversible-is_credit_note :
    (kind : Kind) → is_credit_note kind ≡ true → is_reversible kind ≡ true
is_reversible-is_credit_note invoice e = cc
is_reversible-is_credit_note storno e = cc
is_reversible-is_credit_note credit_note e = refl
is_reversible-is_credit_note anzahlung e = refl

is_credit_note-is_invoice : (kind : Kind) → is_invoice kind ≡ true → is_credit_note kind ≡ false
is_credit_note-is_invoice invoice e = refl
is_credit_note-is_invoice storno e = refl
is_credit_note-is_invoice credit_note e = cc
is_credit_note-is_invoice anzahlung e = refl

pub some-injective : {A : Type 0} {x y : A} → ◌≡◌ {A = Option A} (some x) (some y) → x ≡ y
some-injective e = cc

module _ {D : Type 0} where
  unique_invoice-ok :
      (rs : List (DocumentRow D)) (r : DocumentRow D) → unique_invoice rs ≡ ok r → Memᴰ r rs
  unfolding unique_invoice
  unique_invoice-ok [] r e = cc
  unique_invoice-ok (x ∷ []) r e = Memᴰ.head (sym (ok-injective e))
  unique_invoice-ok (x ∷ y ∷ rs) r e = cc

  only_invoice_in :
      (rs : List (DocumentRow D)) (r q : DocumentRow D)
      → unique_invoice rs ≡ ok r
      → Memᴰ q rs
      → q ≡ r
  unfolding unique_invoice
  only_invoice_in [] r q e in_rs = cc
  only_invoice_in (x ∷ []) r q e (Memᴰ.head same) = same ∙ ok-injective e
  only_invoice_in (x ∷ []) r q e (Memᴰ.tail in_none) = elim in_none [ ]
  only_invoice_in (x ∷ y ∷ rs) r q e in_rs = cc

  find_document-Mem :
      (id : ℤ) (rs : List (DocumentRow D)) (r : DocumentRow D)
      → find_document id rs ≡ some r
      → Memᴰ r rs
  unfolding find_document
  find_document-Mem id [] r e = cc
  find_document-Mem id (x ∷ rs) r e = elim (Bool-cases (x.id ==ℤ id)) [
    | inl this ↦
        let same : ◌≡◌ {A = Option (DocumentRow D)} (some x) (some r) =
          rw (this, find_document) at e in
        Memᴰ.head cc
    | inr other ↦ Memᴰ.tail (find_document-Mem id rs r (rw (other, find_document) at e))
  ]

  -- The invoice that an operation works on.
  -- With an id it is the one of that id, without one the only invoice in force of the account.
  pub record IsTarget (b : Books D) (k : Key) (id : ℤ) (r : DocumentRow D) : Type 0 where
    pub in_table : Memᴰ r b.documents
    pub account : r.account ≡ k
    pub kind : is_invoice r.kind ≡ true
    pub status : is_issued r.status ≡ true
    pub requested :
        (r.id ≡ id) ⊎ ((id ≡ pos 0) × All (λ q. (counts_invoice k q ≡ false) ⊎ (q ≡ r)) b.documents)

  pub active_invoice-IsTarget :
      (k : Key) (id : ℤ) (b : Books D) (r : DocumentRow D)
      → active_invoice k id b ≡ ok r
      → IsTarget b k id r
  unfolding active_invoice
  active_invoice-IsTarget k id b r e =
      let chosen = unique_invoice-ok (select (is_active_invoice k id) b.documents) r e in
      let (in_b, active) = Mem-select (is_active_invoice k id) b.documents r chosen in
      let (shown, fits) =
        and_parts (same_account r.account k && is_invoice r.kind && is_issued r.status)
          ((id ==ℤ pos 0) || (r.id ==ℤ id)) active in
      let (named, status) =
        and_parts (same_account r.account k && is_invoice r.kind) (is_issued r.status) shown in
      let (same, kind) = and_parts (same_account r.account k) (is_invoice r.kind) named in
      let asked : (r.id ≡ id)
          ⊎ ((id ≡ pos 0) × All (λ q. (counts_invoice k q ≡ false) ⊎ (q ≡ r)) b.documents) =
        elim (Bool-cases (r.id ==ℤ id)) [
          | inl this ↦ inl ((==ℤ_iff r.id id).0 this)
          | inr other ↦
              let any : (id ==ℤ pos 0) ≡ true =
                or_false_parts (id ==ℤ pos 0) (r.id ==ℤ id) fits other in
              inr (
                (==ℤ_iff id (pos 0)).0 any,
                All-of_Mem _ b.documents (λ q in_rows. elim (Bool-cases (counts_invoice k q)) [
                  | inl counted ↦ inr (
                      only_invoice_in (select (is_active_invoice k id) b.documents) r q e (
                        select-Mem (is_active_invoice k id) b.documents q in_rows
                          (rw counted (rw any refl))))
                  | inr uncounted ↦ inl uncounted
                ]),
              )
        ] in
      record {
        in_table = in_b;
        account = same_account-eq r.account k same;
        kind = kind;
        status = status;
        requested = asked;
      }

  pub live_row :
      (r : DocumentRow D) → not_storno r.kind ≡ true → is_issued r.status ≡ true → is_live r ≡ true
  live_row r kind status = rw status kind

  -- An attached credit note of the table.
  pub is_attached_parts :
      (id : ℤ) (r : DocumentRow D)
      → is_attached id r ≡ true
      → (is_credit_note r.kind ≡ true) × (is_issued r.status ≡ true)
  is_attached_parts id r e =
      let (shown, status) =
        and_parts (refers_to id r.references && is_credit_note r.kind) (is_issued r.status) e in
      ((and_parts (refers_to id r.references) (is_credit_note r.kind) shown).1, status)

  pub live_attached : (id : ℤ) (r : DocumentRow D) → is_attached id r ≡ true → is_live r ≡ true
  live_attached id r e =
      let (credit, status) = is_attached_parts id r e in
      live_row r (not_storno-is_reversible r.kind (is_reversible-is_credit_note r.kind credit))
        status

  -- An invoice is none of its credit notes.
  pub apart_from_credits :
      (rs : List (DocumentRow D)) (orig : DocumentRow D) (id : ℤ)
      → Keyed rs
      → Memᴰ orig rs
      → is_invoice orig.kind ≡ true
      → All (λ r. orig.id ≢ r.id) (select (is_attached id) rs)
  apart_from_credits rs orig id keyed in_rs kind =
      All-of_Mem (λ r. orig.id ≢ r.id) (select (is_attached id) rs)
        (λ r chosen.
          let (in_table, attached) = Mem-select (is_attached id) rs r chosen in
          let (credit, _) = is_attached_parts id r attached in
          elim (All-Mem (λ q. (q.id ≢ orig.id) ⊎ (q ≡ orig)) rs r (Keyed-apart rs orig keyed in_rs)
            in_table) [
              | inl other ↦ λ e. other (sym e)
              | inr same ↦ λ e.
                  let plain : is_credit_note r.kind ≡ false =
                    is_credit_note-is_invoice r.kind
                      (subst (λ (x : DocumentRow D). is_invoice x.kind ≡ true) (sym same) kind) in
                  cc
            ])

module _ {D : Type 0} ⦃d : Decimal D⦄ (p : Printing D) where
  open d use {units}

  Reaches-Step : (g g' g'' : Register D) → Reaches g g' → Step g' g'' → Reaches g g''
  Reaches-Step g g' g'' (Reaches.here _) step = Reaches.there g g'' g'' step (Reaches.here g'')
  Reaches-Step g g' g'' (Reaches.there _ h _ first rest) step =
      Reaches.there g h g'' first (Reaches-Step h g' g'' rest step)

  pub storno_invoice_by_id-Reaches :
      (k : Key) (id : ℤ) (reason : Text) (when : Date) (b b' : Books D) (sv : DocumentRow D)
      → Keyed b.documents
      → storno_invoice_by_id p k id reason when b ≡ ok (sv, b')
      → Reaches (register_of b) (register_of b')
  unfolding storno_invoice_by_id attached_active_credits
  storno_invoice_by_id-Reaches k id reason when b b' sv keyed e =
      let (present, _, e1) = first_of_chain _ (lock_account_boundary b k true true) e in
      let (_, e2) = refuse_if-ok (not present) not_found _ e1 in
      let (orig, chosen, e3) = first_of_chain _ (active_invoice k id b) e2 in
      let (c, content, e4) = first_of_chain _ (required invoice_incomplete orig.content) e3 in
      let (b1, reverses, e5) =
        first_of_chain _ (reverse_documents p (attached_active_credits orig.id b) reason when b)
          e4 in
      let number = orig.number ++ text "-S" in
      let rev = reverse_content p c orig.number reason in
      let (inserted, inserts, e6) =
        first_of_chain _ (insert_invoice_doc k number storno (some orig.id) when rev b1) e5 in
      let t = active_invoice-IsTarget k id b orig chosen in
      let credits = select (is_attached orig.id) b.documents in
      let (steps, keeps) =
        reverse_documents_lem p credits reason when b b1
          (Keyed-select (is_attached orig.id) b.documents keyed)
          (All-of_Mem (λ r. Memᴰ r b.documents × (is_live r ≡ true)) credits
            (λ r in_credits.
              let (in_b, attached) = Mem-select (is_attached orig.id) b.documents r in_credits in
              (in_b, live_attached orig.id r attached)))
          reverses in
      let (_, made) =
        insert_invoice_doc-ok p k number storno (some orig.id) when rev b1 inserted.1 inserted.0
          inserts in
      let (step, _) =
        reversal_lem p orig k number reason when c b1 b'
          (keeps orig (apart_from_credits b.documents orig orig.id keyed t.in_table t.kind)
            t.in_table)
          (live_row orig (not_storno-is_invoice orig.kind t.kind) t.status) t.account
          (required-ok p invoice_incomplete orig.content c content)
          (sym (ap (λ (x : DocumentRow D × Books D). register_of x.1) (ok-injective e6))
            ∙ ap (λ (x : Books D). with_canceled orig.id (register_of x)) made) in
      Reaches-Step (register_of b) (register_of b1) (register_of b') steps step

  pub storno_document-Reaches :
      (id : ℤ) (reason : Text) (when : Date) (b b' : Books D) (sv : DocumentRow D)
      → storno_document p id reason when b ≡ ok (sv, b')
      → Reaches (register_of b) (register_of b')
  unfolding storno_document
  storno_document-Reaches id reason when b b' sv e =
      let (orig, found, e1) =
        first_of_chain _ (required not_found (find_document id b.documents)) e in
      let (present, _, e2) = first_of_chain _ (lock_account_boundary b orig.account true true) e1 in
      let (_, e3) = refuse_if-ok (not present) not_found _ e2 in
      let (target, e4) = refuse_if-ok (not (is_storno_target orig.account orig)) not_found _ e3 in
      let (shown, _) =
        and_parts (is_reversible orig.kind && is_issued orig.status)
          (orig.account.year_id ==ℤ orig.account.year_id)
          (true_of_not (is_storno_target orig.account orig) target) in
      let (kind, status) = and_parts (is_reversible orig.kind) (is_issued orig.status) shown in
      let (step, _) =
        reverse_document_lem p orig sv reason when b b'
          (find_document-Mem id b.documents orig (required-ok p not_found _ orig found))
          (live_row orig (not_storno-is_reversible orig.kind kind) status) e4 in
      Reaches.there (register_of b) (register_of b') (register_of b') step
        (Reaches.here (register_of b'))
