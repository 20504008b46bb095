-- ===== src/Allocation/Sums.antt =====
-- What the maps and the planned payments of an allocation add up to, in units.
use treckrr.Prelude.{
  inl, inr, Bool-cases, ℤ, pos, ◌+ℤ◌, ◌==ℤ◌, ◌≈◌, ◌≡◌, List, [], ◌∷◌, ◌++◌, Map, insert,
  get_or-cons, contains, get_or-insert, ==ℤ_refl, true, ◌∙◌, ap, false, arith, if◌then◌else◌,
  int_laws,
}
use treckrr.Decimal.{Decimal, zero_parts}
use treckrr.Allocation.Data.{Planned}
use treckrr.Allocation.Plan.{at}

pub at-nil : (D : Type 0) ⦃d : Decimal D⦄ (k : ℤ) → d.units (at k []) ≈ pos 0
unfolding at
at-nil D k = omega (arith, zero_parts D)

module _ {D : Type 0} ⦃d : Decimal D⦄ where
  open d use {units}

  -- Everything that a map holds.
  abbrev pub total : Map D → ℤ
  total [] = pos 0
  total ((k, v) ∷ m) = units v +ℤ total m

  -- What planned payments bring to one invoice, take from one payment, and move in all.
  abbrev pub paid_to : ℤ → List (Planned D) → ℤ
  paid_to k [] = pos 0
  paid_to k (p ∷ ps) = (if k ==ℤ p.invoice_id then units p.amount else pos 0) +ℤ paid_to k ps

  abbrev pub paid_by : ℤ → List (Planned D) → ℤ
  paid_by k [] = pos 0
  paid_by k (p ∷ ps) = (if k ==ℤ p.payment_id then units p.amount else pos 0) +ℤ paid_by k ps

  abbrev pub paid : List (Planned D) → ℤ
  paid [] = pos 0
  paid (p ∷ ps) = units p.amount +ℤ paid ps

  pub at-cons : (k j : ℤ) (v : D) (m : Map D) → at k ((j, v) ∷ m) ≡ (if k ==ℤ j then v else at k m)
  unfolding at
  at-cons k j v m = get_or-cons k j d.zero v m

  pub at-insert :
      (k j : ℤ) (v : D) (m : Map D) → at j (insert k v m) ≡ (if j ==ℤ k then v else at j m)
  unfolding at
  at-insert k j v m = get_or-insert k j d.zero v m

  pub at-missing : (k : ℤ) (m : Map D) → contains k m ≡ false → units (at k m) ≈ pos 0
  unfolding at
  at-missing k m e = ground (arith, zero_parts D)

  pub at-insert_self : (k : ℤ) (v : D) (m : Map D) → at k (insert k v m) ≡ v
  at-insert_self k v m = at-insert k k v m ∙ ap (λ b. if b then v else at k m) (==ℤ_refl k)

  pub at-insert_ne :
      (k j : ℤ) (v : D) (m : Map D) → (j ==ℤ k) ≡ false → at j (insert k v m) ≡ at j m
  at-insert_ne k j v m e = at-insert k j v m ∙ ap (λ b. if b then v else at j m) e

  pub total-insert :
      (k : ℤ) (v : D) (m : Map D) → total (insert k v m) +ℤ units (at k m) ≈ total m +ℤ units v
  total-insert k v [] = omega (int_laws, at-nil D k)
  total-insert k v ((j, w) ∷ m) = elim (Bool-cases (k ==ℤ j)) [
    | inl e ↦ rw (at-cons, e) (omega int_laws)
    | inr e ↦ rw (at-cons, e) (omega (int_laws, total-insert k v m))
  ]

  pub paid_to-append :
      (k : ℤ) (ps : List (Planned D)) (p : Planned D)
      → paid_to k (ps ++ (p ∷ []))
        ≈ paid_to k ps +ℤ (if k ==ℤ p.invoice_id then units p.amount else pos 0)
  paid_to-append k [] p = omega int_laws
  paid_to-append k (q ∷ ps) p = omega (int_laws, paid_to-append k ps p)

  pub paid_to-append_hit :
      (k : ℤ) (ps : List (Planned D)) (p : Planned D)
      → (k ==ℤ p.invoice_id) ≡ true
      → paid_to k (ps ++ (p ∷ [])) ≈ paid_to k ps +ℤ units p.amount
  paid_to-append_hit k ps p e = rw e at (paid_to-append k ps p)

  pub paid_to-append_miss :
      (k : ℤ) (ps : List (Planned D)) (p : Planned D)
      → (k ==ℤ p.invoice_id) ≡ false
      → paid_to k (ps ++ (p ∷ [])) ≈ paid_to k ps
  paid_to-append_miss k ps p e =
      let added : paid_to k (ps ++ (p ∷ [])) ≈ paid_to k ps +ℤ pos 0 =
        rw e at (paid_to-append k ps p) in
      omega (int_laws, added)

  pub paid_by-append :
      (k : ℤ) (ps : List (Planned D)) (p : Planned D)
      → paid_by k (ps ++ (p ∷ []))
        ≈ paid_by k ps +ℤ (if k ==ℤ p.payment_id then units p.amount else pos 0)
  paid_by-append k [] p = omega int_laws
  paid_by-append k (q ∷ ps) p = omega (int_laws, paid_by-append k ps p)

  pub paid-append :
      (ps : List (Planned D)) (p : Planned D) → paid (ps ++ (p ∷ [])) ≈ paid ps +ℤ units p.amount
  paid-append [] p = omega int_laws
  paid-append (q ∷ ps) p = omega (int_laws, paid-append ps p)
