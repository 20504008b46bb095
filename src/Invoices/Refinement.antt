-- ===== src/Invoices/Refinement.antt =====
-- The operations on documents take the register along its steps.
use mathlib.Core.List.{Memᴰ}
use mathlib.Core.List.Memᴰ
use treckrr.Prelude.{
  ℤ, pos, ◌-ℤ◌, ◌≈◌, ◌==ℤ◌, ==ℤ_iff, int_laws, parts_of_eq, ◌≡◌, ◌≢◌, refl, sym, ap, ◌∙◌, inl, inr,
  Bool, true, false, Bool-cases, Option, none, some, List, [], ◌∷◌, ◌++◌, subst, All, All-map,
  All-zip, All-Mem, ok, ok-injective, first_of_chain, refuse_if-ok,
}
use treckrr.Decimal.{Decimal, neg_parts}
use treckrr.Calendar.{Date}
use treckrr.Text.{Text, text}
use treckrr.Account.Content.{Content}
use treckrr.Account.Data.{Key, Kind, storno, Error, no_snapshot, number_taken, DocumentRow, Books}
use treckrr.Account.Balance.{document_gross}
use treckrr.Invoices.Contents.{Printing, reverse_content}
use treckrr.Invoices.Documents.{
  select, new_document, append_document, number_is_taken, insert_invoice_doc, cancel_rows,
}
use treckrr.Invoices.Operations.{required, reverse_document, reverse_documents}
use treckrr.Invoices.Register.{Register, appended, with_canceled, is_live, Keyed, cancel_rows_there}
use treckrr.Invoices.Orderly.{Step, Reaches}

module _ {ℓ} {A : Type ℓ} where
  pub Mem-select :
      (keep : A → Bool) (xs : List A) (x : A)
      → Memᴰ x (select keep xs)
      → Memᴰ x xs × (keep x ≡ true)
  unfolding select
  Mem-select keep [] x in_xs = elim in_xs [ ]
  Mem-select keep (y ∷ ys) x in_xs = elim (Bool-cases (keep y)) [
    | inl e ↦ elim (Memᴰ.cases_cons (rw (e, select) at in_xs)) [
      | inl same ↦ (Memᴰ.head same, subst (λ z. keep z ≡ true) (sym same) e)
      | inr in_ys ↦ let (found, kept) = Mem-select keep ys x in_ys in (Memᴰ.tail found, kept)
    ]
    | inr e ↦
        let (found, kept) = Mem-select keep ys x (rw (e, select) at in_xs) in
        (Memᴰ.tail found, kept)
  ]

  pub select-Mem :
      (keep : A → Bool) (xs : List A) (x : A) → Memᴰ x xs → keep x ≡ true → Memᴰ x (select keep xs)
  unfolding select
  select-Mem keep [] x in_xs kept = elim in_xs [ ]
  select-Mem keep (y ∷ ys) x (Memᴰ.head same) kept =
      rw (subst (λ z. keep z ≡ true) same kept, select) (Memᴰ.head same)
  select-Mem keep (y ∷ ys) x (Memᴰ.tail in_ys) kept =
      let rest = select-Mem keep ys x in_ys kept in
      elim (Bool-cases (keep y)) [
        | inl e ↦ rw (e, select) (Memᴰ.tail rest)
        | inr e ↦ rw (e, select) rest
      ]

  pub All-of_Mem {κ} : (P : A → Type κ) (xs : List A) → ((x : A) → Memᴰ x xs → P x) → All P xs
  All-of_Mem P [] f = tt
  All-of_Mem P (x ∷ xs) f =
      (f x (Memᴰ.head refl), All-of_Mem P xs (λ y in_xs. f y (Memᴰ.tail in_xs)))

module _ {D : Type 0} where
  abbrev pub register_of : Books D → Register D
  register_of b = record { documents = b.documents; next_id = b.next_id }

  pub Keyed-select :
      (keep : DocumentRow D → Bool) (rs : List (DocumentRow D)) → Keyed rs → Keyed (select keep rs)
  unfolding select
  Keyed-select keep [] _ = tt
  Keyed-select keep (r ∷ rs) (apart, keyed) =
      let rest = Keyed-select keep rs keyed in
      elim (Bool-cases (keep r)) [
        | inl e ↦
            let others : All (λ q. q.id ≢ r.id) (select keep rs) =
              All-of_Mem (λ q. q.id ≢ r.id) (select keep rs)
                (λ q in_rs. All-Mem (λ x. x.id ≢ r.id) rs q apart (Mem-select keep rs q in_rs).0) in
            rw (e, select) (others, rest)
        | inr e ↦ rw (e, select) rest
      ]

  Mem-cancel_rows :
      (id : ℤ) (rs : List (DocumentRow D)) (q : DocumentRow D)
      → Memᴰ q rs
      → q.id ≢ id
      → Memᴰ q (cancel_rows id rs)
  unfolding cancel_rows
  Mem-cancel_rows id [] q in_rs other = elim in_rs [ ]
  Mem-cancel_rows id (r ∷ rs) q (Memᴰ.head same) other =
      let e : (r.id ==ℤ id) ≡ false = elim (Bool-cases (r.id ==ℤ id)) [
        | inl e ↦ absurd (other (ap (λ (x : DocumentRow D). x.id) same ∙ (==ℤ_iff r.id id).0 e))
        | inr e ↦ e
      ] in
      rw (cancel_rows_there id r rs e) (Memᴰ.head same)
  Mem-cancel_rows id (r ∷ rs) q (Memᴰ.tail in_rs) other =
      Memᴰ.tail (Mem-cancel_rows id rs q in_rs other)

module _ {D : Type 0} ⦃d : Decimal D⦄ (p : Printing D) where
  open d use {units}

  pub insert_invoice_doc-ok :
      (k : Key) (number : Text) (kind : Kind) (references : Option ℤ) (when : Date) (c : Content D)
      (b b' : Books D) (r : DocumentRow D)
      → insert_invoice_doc k number kind references when c b ≡ ok (r, b')
      → (r ≡ new_document b.next_id k number kind references when c)
        × (b' ≡ append_document (new_document b.next_id k number kind references when c) b)
  unfolding insert_invoice_doc
  insert_invoice_doc-ok k number kind references when c b b' r e =
      let (_, inserted) =
        refuse_if-ok (number_is_taken k.year_id number b.documents) number_taken _ e in
      let same = ok-injective inserted in
      (
        sym (ap (λ (x : DocumentRow D × Books D). x.0) same),
        sym (ap (λ (x : DocumentRow D × Books D). x.1) same),
      )

  pub reverse_content-gross :
      (c : Content D) (number reason : Text)
      → units (reverse_content p c number reason).gross ≈ pos 0 -ℤ units c.gross
  unfolding reverse_content
  reverse_content-gross c number reason = omega (int_laws, neg_parts c.gross)

  pub required-ok :
      {A : Type 0} (e : Error) (o : Option A) (a : A) → required e o ≡ ok a → o ≡ some a
  required-ok e none a h = cc
  required-ok e (some x) a h = ap some (ok-injective h)

  pub document_gross-some :
      (r : DocumentRow D) (c : Content D) → r.content ≡ some c → document_gross r ≡ c.gross
  document_gross-some r c e = rw e refl

  -- From one table of documents to another: the steps between them, and which rows stay.
  abbrev pub Keeps : Books D → Books D → DocumentRow D → Type 0
  Keeps b b' q = Memᴰ q b.documents → Memᴰ q b'.documents

  pub reversal_lem :
      (orig : DocumentRow D) (k : Key) (number reason : Text) (when : Date) (c : Content D)
      (b b' : Books D)
      → Memᴰ orig b.documents
      → is_live orig ≡ true
      → orig.account ≡ k
      → orig.content ≡ some c
      → register_of b'
        ≡ with_canceled orig.id (
            appended
              (new_document b.next_id k number storno
                (some orig.id)
                when
                (reverse_content p c orig.number reason))
              (register_of b))
      → Step (register_of b) (register_of b')
        × ((q : DocumentRow D) → q.id ≢ orig.id → Keeps b b' q)
  reversal_lem orig k number reason when c b b' in_b live account content shape =
      let rev = reverse_content p c orig.number reason in
      let amount : units rev.gross ≈ pos 0 -ℤ units (document_gross orig) = omega (
        int_laws,
        reverse_content-gross c orig.number reason,
        parts_of_eq (ap units (document_gross-some orig c content)),
      ) in
      let shape' =
        shape
        ∙ ap
            (λ (j : Key). with_canceled orig.id (
              appended (new_document b.next_id j number storno (some orig.id) when rev)
                (register_of b)))
            (sym account) in
      (
        subst (λ (g : Register D). Step (register_of b) g) (sym shape')
            (Step.reverses orig number when rev in_b live amount),
        λ q other in_rows.
            subst (λ (g : Register D). Memᴰ q g.documents) (sym shape)
              (Mem-cancel_rows orig.id _ q (Memᴰ.append_left _ in_rows) other),
      )

  -- The register after a document is reversed.
  pub reverse_document_shape :
      (orig sv : DocumentRow D) (reason : Text) (when : Date) (b b' : Books D)
      → reverse_document p orig reason when b ≡ ok (sv, b')
      → (c : Content D) × (orig.content ≡ some c)
        × (register_of b'
            ≡ with_canceled orig.id (
                appended
                  (new_document b.next_id orig.account
                    (orig.number ++ text "-S")
                    storno
                    (some orig.id)
                    when
                    (reverse_content p c orig.number reason))
                  (register_of b)))
  unfolding reverse_document
  reverse_document_shape orig sv reason when b b' e =
      let (c, content, e1) = first_of_chain _ (required no_snapshot orig.content) e in
      let (inserted, inserts, e2) =
        first_of_chain _
          (insert_invoice_doc orig.account (orig.number ++ text "-S") storno (some orig.id) when
            (reverse_content p c orig.number reason) b)
          e1 in
      let (_, made) =
        insert_invoice_doc-ok orig.account (orig.number ++ text "-S") storno (some orig.id) when
          (reverse_content p c orig.number reason) b inserted.1 inserted.0 inserts in
      (
        c,
        required-ok no_snapshot orig.content c content,
        sym (ap (λ (x : DocumentRow D × Books D). register_of x.1) (ok-injective e2))
            ∙ ap (λ (x : Books D). with_canceled orig.id (register_of x)) made,
      )

  -- What reversing one document does to the register and to the other rows.
  pub reverse_document_lem :
      (orig sv : DocumentRow D) (reason : Text) (when : Date) (b b' : Books D)
      → Memᴰ orig b.documents
      → is_live orig ≡ true
      → reverse_document p orig reason when b ≡ ok (sv, b')
      → Step (register_of b) (register_of b')
        × ((q : DocumentRow D) → q.id ≢ orig.id → Keeps b b' q)
  reverse_document_lem orig sv reason when b b' in_b live e =
      let (c, content, shape) = reverse_document_shape orig sv reason when b b' e in
      reversal_lem orig orig.account (orig.number ++ text "-S") reason when c b b' in_b live refl
        content shape

  -- The same for the loop, which no row of another id notices.
  pub reverse_documents_lem :
      (rs : List (DocumentRow D)) (reason : Text) (when : Date) (b b' : Books D)
      → Keyed rs
      → All (λ r. Memᴰ r b.documents × (is_live r ≡ true)) rs
      → reverse_documents p rs reason when b ≡ ok b'
      → Reaches (register_of b) (register_of b')
        × ((q : DocumentRow D) → All (λ r. q.id ≢ r.id) rs → Keeps b b' q)
  unfolding reverse_documents
  reverse_documents_lem [] reason when b b' keyed in_b e =
      let same = ok-injective e in
      (
        subst (λ (x : Books D). Reaches (register_of b) (register_of x)) same
            (Reaches.here (register_of b)),
        λ q _ in_rows. subst (λ (x : Books D). Memᴰ q x.documents) same in_rows,
      )
  reverse_documents_lem (r ∷ rs) reason when b b' (apart, keyed) ((in_b, live), in_rest) e =
      let (reversed, reverses, e1) = first_of_chain _ (reverse_document p r reason when b) e in
      let (step, keeps) =
        reverse_document_lem r reversed.0 reason when b reversed.1 in_b live reverses in
      let in_later =
        All-map _ (λ q. Memᴰ q reversed.1.documents × (is_live q ≡ true))
          (λ q (other, (in_rows, lives)). (keeps q other in_rows, lives)) rs
          (All-zip (λ q. q.id ≢ r.id) (λ q. Memᴰ q b.documents × (is_live q ≡ true)) rs apart
            in_rest) in
      let (steps, keep_all) =
        reverse_documents_lem rs reason when reversed.1 b' keyed in_later e1 in
      (
        Reaches.there (register_of b) (register_of reversed.1) (register_of b') step steps,
        λ q (other, others) in_rows. keep_all q others (keeps q other in_rows),
      )
