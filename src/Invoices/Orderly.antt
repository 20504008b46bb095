-- ===== src/Invoices/Orderly.antt =====
-- The steps of the register and the invariant that they keep: ids tell the rows apart, credit notes
-- are not positive, no issued invoice is credited beyond its gross, and in every account all rows
-- together sum to what the rows in force sum to.
use mathlib.Core.List.{Memᴰ}
use treckrr.Prelude.{
  ℤ, pos, ◌+ℤ◌, ◌-ℤ◌, ◌≤ℤ◌, ◌≈◌, ◌==ℤ◌, ==ℤ_iff, int_laws, parts_of_eq, ◌≡◌, ◌≢◌, refl, sym, inl,
  inr, Bool, true, false, ◌&&◌, Bool-cases, and_false, and_true, some, List, [], ◌∷◌, ◌++◌, All,
  All-append, All-map, if◌then◌else◌,
}
use treckrr.Decimal.{Decimal}
use treckrr.Calendar.{Date}
use treckrr.Text.{Text}
use treckrr.Account.Content.{Content}
use treckrr.Account.Data.{Key, same_account, storno, credit_note, DocumentRow}
use treckrr.Account.Balance.{is_credit_note, is_issued, document_gross}
use treckrr.Invoices.Documents.{new_document, refers_to, is_attached}
use treckrr.Invoices.Register.{
  Register, appended, with_canceled, canceled_row, is_live, counts_row, counts_live,
  is_open_invoice, Keyed,
}
use treckrr.Invoices.Totals.{part_of, total}

pub attached_false : (refers credit : Bool) → (refers && credit && false) ≡ false
attached_false true credit = and_false credit
attached_false false credit = refl

attached_value :
    (refers credit issued : Bool) (value : ℤ)
    → (if credit then value else pos 0) ≤ℤ pos 0
    → (if refers && credit && issued then value else pos 0) ≤ℤ pos 0
attached_value true true true value low = low
attached_value true true false value low = omega int_laws
attached_value true false issued value low = omega int_laws
attached_value false credit issued value low = omega int_laws

pub attached_plain : (refers issued : Bool) → (refers && false && issued) ≡ false
attached_plain true issued = refl
attached_plain false issued = refl

module _ {D : Type 0} ⦃d : Decimal D⦄ where
  open d use {units}

  -- What the credit notes leave of an issued invoice.
  abbrev pub uncredited : List (DocumentRow D) → DocumentRow D → ℤ
  uncredited rs r =
      if is_open_invoice r then units (document_gross r) +ℤ total (is_attached r.id) rs else pos 0

  abbrev pub credit_value : DocumentRow D → ℤ
  credit_value r = if is_credit_note r.kind then units (document_gross r) else pos 0

  -- The two things that happen to a register.
  pub data Step (g : Register D) : Register D → Type 0 where
    -- A document in force is canceled by a reversal of its amount.
    reverses :
        (r : DocumentRow D) (number : Text) (when : Date) (c : Content D)
        → Memᴰ r g.documents
        → is_live r ≡ true
        → units c.gross ≈ pos 0 -ℤ units (document_gross r)
        → Step g (
            with_canceled r.id
              (appended (new_document g.next_id r.account number storno (some r.id) when c) g))
    -- An issued invoice is credited with no more than what is left of it.
    credits :
        (r : DocumentRow D) (number : Text) (when : Date) (c : Content D)
        → Memᴰ r g.documents
        → is_open_invoice r ≡ true
        → units c.gross ≤ℤ pos 0
        → pos 0 ≤ℤ uncredited g.documents r +ℤ units c.gross
        → Step g
            (appended (new_document g.next_id r.account number credit_note (some r.id) when c) g)

  pub data Reaches : Register D → Register D → Type 0 where
    here : (g : Register D) → Reaches g g
    there : (g g' g'' : Register D) → Step g g' → Reaches g' g'' → Reaches g g''

  pub record IsOrderly (g : Register D) : Type 0 where
    pub keyed : Keyed g.documents
    pub below : All (λ r. (r.id +ℤ pos 1) ≤ℤ g.next_id) g.documents
    pub credited : All (λ r. credit_value r ≤ℤ pos 0) g.documents
    pub capped : All (λ r. pos 0 ≤ℤ uncredited g.documents r) g.documents
    pub balanced : (k : Key) → total (counts_row k) g.documents ≈ total (counts_live k) g.documents

  -- A row that comes with the next id.
  pub fresh_id :
      (g : Register D) (r : DocumentRow D)
      → r.id ≡ g.next_id
      → All (λ q. (q.id +ℤ pos 1) ≤ℤ g.next_id) g.documents
      → All (λ q. q.id ≢ r.id) g.documents
  fresh_id g r same =
      All-map _ _ (λ q low. λ e. omega (int_laws, low, parts_of_eq same, parts_of_eq e)) g.documents

  pub below-append :
      (g : Register D) (r : DocumentRow D)
      → r.id ≡ g.next_id
      → All (λ q. (q.id +ℤ pos 1) ≤ℤ g.next_id) g.documents
      → All (λ q. (q.id +ℤ pos 1) ≤ℤ (g.next_id +ℤ pos 1)) (g.documents ++ (r ∷ []))
  below-append g r same low =
      All-append (λ q. (q.id +ℤ pos 1) ≤ℤ (g.next_id +ℤ pos 1)) g.documents (r ∷ [])
        (All-map _ _ (λ q h. omega (int_laws, h)) g.documents low)
        (omega (int_laws, parts_of_eq same), tt)

  pub attached_canceled : (id : ℤ) (q : DocumentRow D) → is_attached id (canceled_row q) ≡ false
  attached_canceled id q = attached_false (refers_to id q.references) (is_credit_note q.kind)

  pub live_canceled : (k : Key) (q : DocumentRow D) → counts_live k (canceled_row q) ≡ false
  live_canceled k q = and_false (same_account q.account k)

  -- A credit note in force takes away, never adds.
  pub part_of-is_attached :
      (id : ℤ) (r : DocumentRow D) → credit_value r ≤ℤ pos 0 → part_of (is_attached id) r ≤ℤ pos 0
  part_of-is_attached id r low =
      attached_value (refers_to id r.references) (is_credit_note r.kind) (is_issued r.status) _ low

  pub uncredited_closed :
      (rs : List (DocumentRow D)) (r : DocumentRow D)
      → is_open_invoice r ≡ false
      → pos 0 ≤ℤ uncredited rs r
  uncredited_closed rs r e = rw e (omega int_laws)

  -- More is left of an invoice whose attached credit notes come to less.
  pub uncredited_grows :
      (rs qs : List (DocumentRow D)) (r : DocumentRow D)
      → total (is_attached r.id) rs ≤ℤ total (is_attached r.id) qs
      → pos 0 ≤ℤ uncredited rs r
      → pos 0 ≤ℤ uncredited qs r
  uncredited_grows rs qs r more capped = elim (Bool-cases (is_open_invoice r)) [
    | inl e ↦
        let before : uncredited rs r ≡ units (document_gross r) +ℤ total (is_attached r.id) rs =
          rw e refl in
        let after : uncredited qs r ≡ units (document_gross r) +ℤ total (is_attached r.id) qs =
          rw e refl in
        omega (int_laws, parts_of_eq before, parts_of_eq after, more, capped)
    | inr e ↦ uncredited_closed qs r e
  ]

  pub part_of_dropped :
      (keep : DocumentRow D → Bool) (r : DocumentRow D) → keep r ≡ false → part_of keep r ≡ pos 0
  part_of_dropped keep r e = rw e refl

  pub not_attached :
      (id : ℤ) (r : DocumentRow D) → is_credit_note r.kind ≡ false → is_attached id r ≡ false
  not_attached id r plain =
      rw plain (attached_plain (refers_to id r.references) (is_issued r.status))

  pub not_live : (k : Key) (r : DocumentRow D) → is_live r ≡ false → counts_live k r ≡ false
  not_live k r dead = rw dead (and_false (same_account r.account k))

  pub live_part :
      (k : Key) (r : DocumentRow D)
      → is_live r ≡ true
      → part_of (counts_live k) r ≡ part_of (counts_row k) r
  live_part k r live = rw live (rw (and_true (same_account r.account k)) refl)

  -- A row of the other's account with the opposite amount.
  pub opposite_part :
      (k : Key) (r new : DocumentRow D)
      → new.account ≡ r.account
      → units (document_gross new) ≈ pos 0 -ℤ units (document_gross r)
      → part_of (counts_row k) new ≈ pos 0 -ℤ part_of (counts_row k) r
  opposite_part k r new account amount = elim (Bool-cases (same_account r.account k)) [
    | inl e ↦ rw account (rw e amount)
    | inr e ↦ rw account (rw e (omega int_laws))
  ]

  pub part_of_low :
      (keep : DocumentRow D → Bool) (r : DocumentRow D)
      → units (document_gross r) ≤ℤ pos 0
      → units (document_gross r) ≤ℤ part_of keep r
  part_of_low keep r low = elim (Bool-cases (keep r)) [
    | inl e ↦ rw e (omega int_laws)
    | inr e ↦ rw e low
  ]

  pub attached_elsewhere :
      (id j : ℤ) (r : DocumentRow D) → r.references ≡ some j → id ≢ j → is_attached id r ≡ false
  attached_elsewhere id j r references other = rw references (elim (Bool-cases (j ==ℤ id)) [
    | inl e ↦ absurd (other (sym ((==ℤ_iff j id).0 e)))
    | inr e ↦ rw e refl
  ])
