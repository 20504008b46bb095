-- ===== src/Invoices/Register.antt =====
-- The register of documents: what reversing a document and crediting an invoice do to the rows of
-- `invoices`, apart from who may do it and when.
use mathlib.Core.List.{Memᴰ}
use treckrr.Prelude.{
  ℤ, pos, ◌+ℤ◌, ◌==ℤ◌, ==ℤ_iff, ==ℤ_refl, ◌≡◌, ◌≢◌, refl, sym, ap, ◌∙◌, ◌⊎◌, inl, inr, Bool, true,
  false, ◌&&◌, Bool-cases, List, [], ◌∷◌, ◌++◌, All, All-append, All-map, All-Mem,
}
use treckrr.Account.Data.{
  Key, same_account, Kind, invoice, storno, credit_note, anzahlung, canceled, DocumentRow,
}
use treckrr.Account.Balance.{is_invoice, is_issued}
use treckrr.Invoices.Documents.{cancel_rows}

pub record Register (D : Type 0) : Type 0 where
  pub documents : List (DocumentRow D)
  pub next_id : ℤ

abbrev pub not_storno : Kind → Bool
not_storno invoice = true
not_storno storno = false
not_storno credit_note = true
not_storno anzahlung = true

module _ {D : Type 0} where
  abbrev pub appended : DocumentRow D → Register D → Register D
  appended r g = record { documents = g.documents ++ (r ∷ []); next_id = g.next_id +ℤ pos 1 }

  abbrev pub with_canceled : ℤ → Register D → Register D
  with_canceled id g = record g { documents = cancel_rows id g.documents }

  abbrev pub canceled_row : DocumentRow D → DocumentRow D
  canceled_row r = record r { status = canceled }

  -- Documents that are still in force, apart from the reversals.
  abbrev pub is_live : DocumentRow D → Bool
  is_live r = is_issued r.status && not_storno r.kind

  abbrev pub counts_row : Key → DocumentRow D → Bool
  counts_row k r = same_account r.account k

  abbrev pub counts_live : Key → DocumentRow D → Bool
  counts_live k r = same_account r.account k && is_live r

  abbrev pub is_open_invoice : DocumentRow D → Bool
  is_open_invoice r = is_invoice r.kind && is_issued r.status

  -- No two rows have one id.
  abbrev pub Keyed : List (DocumentRow D) → Type 0
  Keyed [] = Unit
  Keyed (r ∷ rs) = All (λ q. q.id ≢ r.id) rs × Keyed rs

  pub cancel_rows_absent :
      (id : ℤ) (rs : List (DocumentRow D)) → All (λ q. q.id ≢ id) rs → cancel_rows id rs ≡ rs
  unfolding cancel_rows
  cancel_rows_absent id [] _ = refl
  cancel_rows_absent id (r ∷ rs) (other, others) = elim (Bool-cases (r.id ==ℤ id)) [
    | inl e ↦ absurd (other ((==ℤ_iff r.id id).0 e))
    | inr e ↦ rw (e, cancel_rows) (ap (λ rest. r ∷ rest) (cancel_rows_absent id rs others))
  ]

  pub cancel_rows_here :
      (r : DocumentRow D) (rs : List (DocumentRow D))
      → cancel_rows r.id (r ∷ rs) ≡ canceled_row r ∷ cancel_rows r.id rs
  unfolding cancel_rows
  cancel_rows_here r rs = rw (==ℤ_refl r.id, cancel_rows) refl

  pub cancel_rows_there :
      (id : ℤ) (r : DocumentRow D) (rs : List (DocumentRow D))
      → (r.id ==ℤ id) ≡ false
      → cancel_rows id (r ∷ rs) ≡ r ∷ cancel_rows id rs
  unfolding cancel_rows
  cancel_rows_there id r rs e = rw (e, cancel_rows) refl

  pub All-cancel_rows {κ μ} :
      (P : DocumentRow D → Type κ) (Q : DocumentRow D → Type μ) (id : ℤ)
      → ((r : DocumentRow D) → (r.id ==ℤ id) ≡ false → P r → Q r)
      → ((r : DocumentRow D) → P r → Q (canceled_row r))
      → (rs : List (DocumentRow D)) → All P rs
      → All Q (cancel_rows id rs)
  unfolding cancel_rows
  All-cancel_rows P Q id kept gone [] _ = tt
  All-cancel_rows P Q id kept gone (r ∷ rs) (p, ps) =
      let rest = All-cancel_rows P Q id kept gone rs ps in
      elim (Bool-cases (r.id ==ℤ id)) [
        | inl e ↦ rw (e, cancel_rows) (gone r p, rest)
        | inr e ↦ rw (e, cancel_rows) (kept r e p, rest)
      ]

  pub Keyed-append :
      (rs : List (DocumentRow D)) (r : DocumentRow D)
      → Keyed rs
      → All (λ q. q.id ≢ r.id) rs
      → Keyed (rs ++ (r ∷ []))
  Keyed-append [] r _ _ = (tt, tt)
  Keyed-append (q ∷ qs) r (apart, keyed) (other, others) = (
    All-append (λ x. x.id ≢ q.id) qs (r ∷ []) apart ((λ e. other (sym e)), tt),
    Keyed-append qs r keyed others,
  )

  pub Keyed-cancel_rows :
      (id : ℤ) (rs : List (DocumentRow D)) → Keyed rs → Keyed (cancel_rows id rs)
  unfolding cancel_rows
  Keyed-cancel_rows id [] _ = tt
  Keyed-cancel_rows id (r ∷ rs) (apart, keyed) =
      let others =
        All-cancel_rows (λ q. q.id ≢ r.id) (λ q. q.id ≢ r.id) id (λ q _ h. h) (λ q h. h) rs apart in
      let rest = Keyed-cancel_rows id rs keyed in
      elim (Bool-cases (r.id ==ℤ id)) [
        | inl e ↦ rw (e, cancel_rows) (others, rest)
        | inr e ↦ rw (e, cancel_rows) (others, rest)
      ]

  -- Beside a row of the table stand only rows of other ids.
  pub Keyed-apart :
      (rs : List (DocumentRow D)) (r : DocumentRow D)
      → Keyed rs
      → Memᴰ r rs
      → All (λ q. (q.id ≢ r.id) ⊎ (q ≡ r)) rs
  Keyed-apart [] r _ in_rs = elim in_rs [ ]
  Keyed-apart (q ∷ qs) r (apart, keyed) (Memᴰ.head e) = (
    inr (sym e),
    All-map (λ x. x.id ≢ q.id) (λ x. (x.id ≢ r.id) ⊎ (x ≡ r))
        (λ x other. inl (λ same. other (same ∙ ap (λ (y : DocumentRow D). y.id) e))) qs apart,
  )
  Keyed-apart (q ∷ qs) r (apart, keyed) (Memᴰ.tail in_qs) = (
    inl (λ same. All-Mem (λ x. x.id ≢ q.id) qs r apart in_qs (sym same)),
    Keyed-apart qs r keyed in_qs,
  )
