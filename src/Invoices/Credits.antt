-- ===== src/Invoices/Credits.antt =====
-- What a credit note that is issued has passed, and what it adds to the register.
use treckrr.Prelude.{
  ℤ, pos, ◌+ℤ◌, ◌-ℤ◌, ◌≤ℤ◌, ◌≈◌, int_laws, parts_of_eq, ◌≡◌, sym, ap, ◌∙◌, arith, true, false, not,
  some, ◌++◌, length, subst, ok, ok-injective, first_of_chain, refuse_if-ok, refuse_if_passed,
  true_of_not,
}
use treckrr.Decimal.{Decimal, neg_parts, sub_parts}
use treckrr.Calendar.{Date}
use treckrr.Text.{Text}
use treckrr.Account.Content.{Content}
use treckrr.Account.Data.{
  Key, credit_note, not_found, invoice_incomplete, gutschrift_amount, gutschrift_too_large,
  invoice_gutschrift, DocumentRow, Books,
}
use treckrr.Account.Balance.{counts_invoice, counts_credit, document_gross, sum_where}
use treckrr.Account.Locks.{lock_account_boundary}
use treckrr.Ledger.Operations.{round_money}
use treckrr.Invoices.Contents.{Printing, gutschrift_content}
use treckrr.Invoices.Documents.{
  select, new_document, append_document, add_invoice_audit, insert_invoice_doc, active_invoice,
  is_attached,
}
use treckrr.Invoices.Operations.{
  required, gutschrift_invoice_by_id, attached_credit, invoiced_gross, credited_gross,
  check_credit_cap, check_invoice_credit_cap, issue_gutschrift, is_credit_of, gutschrift_suffix,
}
use treckrr.Invoices.Register.{appended}
use treckrr.Invoices.Totals.{total}
use treckrr.Invoices.Refinement.{
  register_of, insert_invoice_doc-ok, required-ok, document_gross-some,
}
use treckrr.Invoices.Runs.{some-injective, IsTarget, active_invoice-IsTarget}

module _ {D : Type 0} ⦃d : Decimal D⦄ (p : Printing D) where
  open d use {units}

  not_greater : (a b : D) → d.greater_than a b ≡ false → units a ≤ℤ units b
  not_greater a b e = ground (arith, d.greater_than_lem a b)

  positive_units : (a : D) → d.is_positive a ≡ true → pos 1 ≤ℤ units a
  positive_units a e = ground (arith, d.is_positive_lem a)

  gutschrift_content-gross :
      (base : Content D) (reduction : D) (note number : Text) (when : Date)
      → units (gutschrift_content p base reduction note number when).gross
        ≈ pos 0 -ℤ units reduction
  unfolding gutschrift_content
  gutschrift_content-gross base reduction note number when = omega (int_laws, neg_parts reduction)

  attached_credit_units :
      (id : ℤ) (b : Books D)
      → units (attached_credit id b) ≈ pos 0 -ℤ total (is_attached id) b.documents
  unfolding attached_credit
  attached_credit_units id b =
      omega (int_laws, neg_parts (sum_where (is_attached id) document_gross b.documents))

  -- What the cap of an account has checked.
  check_credit_cap-ok :
      (k : Key) (cap gross : D) (b : Books D)
      → check_credit_cap k cap gross b ≡ ok tt
      → units gross ≤ℤ units cap +ℤ total (counts_credit k) b.documents
  unfolding check_credit_cap credited_gross
  check_credit_cap-ok k cap gross b e =
      let credit = sum_where (counts_credit k) document_gross b.documents in
      let low = not_greater gross (d.sub cap (d.neg credit)) (
        refuse_if_passed (d.greater_than gross (d.sub cap (d.neg credit))) gutschrift_too_large
          e) in
      omega (int_laws, low, sub_parts cap (d.neg credit), neg_parts credit)

  -- What both caps have checked.
  check_invoice_credit_cap-ok :
      (r : DocumentRow D) (c : Content D) (gross : D) (b : Books D)
      → r.content ≡ some c
      → check_invoice_credit_cap r gross b ≡ ok tt
      → (units gross ≤ℤ units c.gross +ℤ total (is_attached r.id) b.documents)
        × (units gross
            ≤ℤ total (counts_invoice r.account) b.documents
              +ℤ total (counts_credit r.account) b.documents)
  unfolding check_invoice_credit_cap invoiced_gross
  check_invoice_credit_cap-ok r c gross b content e =
      let (c', found, e1) = first_of_chain _ (required invoice_incomplete r.content) e in
      let same =
        some-injective (sym content ∙ required-ok p invoice_incomplete r.content c' found) in
      let credit = attached_credit r.id b in
      let (attached, e2) =
        refuse_if-ok (d.greater_than gross (d.sub c'.gross credit)) gutschrift_too_large _ e1 in
      let low = not_greater gross (d.sub c'.gross credit) attached in
      (
        omega (
          int_laws,
          low,
          sub_parts c'.gross credit,
          attached_credit_units r.id b,
          parts_of_eq (ap (λ (x : Content D). units x.gross) same),
        ),
        check_credit_cap-ok r.account (invoiced_gross r.account b) gross b e2,
      )

  -- A credit note that is issued: its row, and the caps it has passed.
  pub gutschrift_invoice_by_id_lem :
      (k : Key) (id : ℤ) (entered : D) (note : Text) (when : Date) (b b' : Books D)
      (gv : DocumentRow D)
      → gutschrift_invoice_by_id p k id entered note when b ≡ ok (gv, b')
      → (orig : DocumentRow D) × IsTarget b k id orig
        × ((c : Content D) × (number : Text) × (register_of b'
              ≡ appended
                  (new_document b.next_id k number credit_note (some orig.id) when c)
                  (register_of b))
            × (units c.gross ≤ℤ pos 0)
            × (pos 0
                ≤ℤ units (document_gross orig)
                  +ℤ total (is_attached orig.id) b.documents
                  +ℤ units c.gross)
            × (pos 0
                ≤ℤ total (counts_invoice k) b.documents
                  +ℤ total (counts_credit k) b.documents
                  +ℤ units c.gross))
  unfolding gutschrift_invoice_by_id issue_gutschrift
  gutschrift_invoice_by_id_lem k id entered note when b b' gv e =
      let reduction = round_money entered in
      let (sign, e1) = refuse_if-ok (not (d.is_positive reduction)) gutschrift_amount _ e in
      let (present, _, e2) = first_of_chain _ (lock_account_boundary b k true true) e1 in
      let (_, e3) = refuse_if-ok (not present) not_found _ e2 in
      let (orig, chosen, e4) = first_of_chain _ (active_invoice k id b) e3 in
      let (base, content, e5) = first_of_chain _ (required invoice_incomplete orig.content) e4 in
      let (_, checked, e6) = first_of_chain _ (check_invoice_credit_cap orig reduction b) e5 in
      let credit = gutschrift_content p base reduction note orig.number orig.issued_on in
      let number =
        orig.number ++ gutschrift_suffix p (length (select (is_credit_of orig.id) b.documents)) in
      let (inserted, inserts, e7) =
        first_of_chain _
          (insert_invoice_doc orig.account number credit_note (some orig.id) when credit b) e6 in
      let (_, made) =
        insert_invoice_doc-ok p orig.account number credit_note (some orig.id) when credit b
          inserted.1 inserted.0 inserts in
      let t = active_invoice-IsTarget k id b orig chosen in
      let frozen = required-ok p invoice_incomplete orig.content base content in
      let (attached, total_cap) =
        check_invoice_credit_cap-ok orig base reduction b frozen checked in
      let amount = gutschrift_content-gross base reduction note orig.number orig.issued_on in
      let positive = positive_units reduction (true_of_not (d.is_positive reduction) sign) in
      let shape =
        sym (ap (λ (x : DocumentRow D × Books D). register_of x.1) (ok-injective e7))
        ∙ ap (λ (x : Books D). register_of x) made in
      (
        orig,
        t,
        (
          credit,
          number,
          shape
              ∙ ap
                  (λ (j : Key).
                    appended
                      (new_document b.next_id j number credit_note (some orig.id) when credit)
                      (register_of b))
                  t.account,
          omega (int_laws, amount, positive),
          omega (
            int_laws,
            amount,
            attached,
            parts_of_eq (ap units (document_gross-some p orig base frozen)),
          ),
          subst
              (λ (j : Key).
                pos 0
                ≤ℤ total (counts_invoice j) b.documents
                  +ℤ total (counts_credit j) b.documents
                  +ℤ units credit.gross)
              t.account (omega (int_laws, amount, total_cap)),
        ),
      )

  -- What issuing a credit note does to the tables.
  pub issue_gutschrift_lem :
      (orig : DocumentRow D) (base : Content D) (reduction : D) (note : Text) (when : Date)
      (b b' : Books D) (gv : DocumentRow D)
      → issue_gutschrift p orig base reduction note when b ≡ ok (gv, b')
      → (number : Text) × (gv
          ≡ new_document b.next_id orig.account number credit_note
              (some orig.id)
              when
              (gutschrift_content p base reduction note orig.number orig.issued_on))
        × (b' ≡ add_invoice_audit invoice_gutschrift gv (append_document gv b))
  unfolding issue_gutschrift
  issue_gutschrift_lem orig base reduction note when b b' gv e =
      let credit = gutschrift_content p base reduction note orig.number orig.issued_on in
      let number =
        orig.number ++ gutschrift_suffix p (length (select (is_credit_of orig.id) b.documents)) in
      let (inserted, inserts, e1) =
        first_of_chain _
          (insert_invoice_doc orig.account number credit_note (some orig.id) when credit b) e in
      let (row, made) =
        insert_invoice_doc-ok p orig.account number credit_note (some orig.id) when credit b
          inserted.1 inserted.0 inserts in
      let same = ok-injective e1 in
      let issued = sym (ap (λ (x : DocumentRow D × Books D). x.0) same) in
      (
        number,
        issued ∙ row,
        sym (ap (λ (x : DocumentRow D × Books D). x.1) same)
            ∙ (ap (λ (x : Books D). add_invoice_audit invoice_gutschrift inserted.0 x) made
                ∙ ap
                    (λ (x : DocumentRow D).
                      add_invoice_audit invoice_gutschrift inserted.0 (append_document x b))
                    (sym row)
                ∙ ap
                    (λ (x : DocumentRow D).
                      add_invoice_audit invoice_gutschrift x (append_document x b))
                    (sym issued)),
      )
