-- ===== src/Settlement/Targets.antt =====
-- Invoices and credit notes on their way from the selected rows into the inputs.
use treckrr.Prelude.{
  ℤ, pos, ◌+ℤ◌, ◌≈◌, ◌≡◌, ◌==ℤ◌, ==ℤ_iff, ==ℤ_refl, refl, sym, ap, ◌∙◌, true, false, Bool-cases,
  inl, inr, Option, none, some, List, [], ◌∷◌, Map, lookup, lookup-insert, get_or, get_or-insert,
  insert, int_laws, parts_of_eq,
}
use treckrr.Decimal.{Decimal, add_parts}
use treckrr.Account.Data.{Key}
use treckrr.Settlement.Inputs.{Target}
use treckrr.Settlement.Worth.{at_key, at_key_parts}

flip_ne : (k i : ℤ) → (k ==ℤ i) ≡ false → (i ==ℤ k) ≡ false
flip_ne k i e = elim (Bool-cases (i ==ℤ k)) [
  | inl same ↦ let back : (k ==ℤ i) ≡ true = rw ((==ℤ_iff i k).0 same) (==ℤ_refl k) in cc
  | inr other ↦ other
]

module _ {D : Type 0} ⦃d : Decimal D⦄ where
  open d use {units, zero, add}

  -- A table of invoices, each under its own id.
  abbrev pub IsTable : Map (Target D) → Type 0
  IsTable [] = Unit
  IsTable ((i, t) ∷ m) = (t.id ≡ i) × (lookup i m ≡ none) × IsTable m

  abbrev pub targets_gross : Key → Map (Target D) → ℤ
  targets_gross j [] = pos 0
  targets_gross j ((i, t) ∷ m) = at_key j t.account (units t.gross) +ℤ targets_gross j m

  -- What the table of attached credits holds for the invoices.
  abbrev pub targets_credit : Key → Map (Target D) → Map D → ℤ
  targets_credit j [] attached = pos 0
  targets_credit j ((i, t) ∷ m) attached =
      at_key j t.account (units (get_or t.id zero attached)) +ℤ targets_credit j m attached

  abbrev pub credits_gross : Key → List (Target D) → ℤ
  credits_gross j [] = pos 0
  credits_gross j (c ∷ cs) = at_key j c.account (units c.gross) +ℤ credits_gross j cs

  fresh-insert :
      (k i : ℤ) (v t : Target D) (m : Map (Target D))
      → lookup k ((i, t) ∷ m) ≡ none
      → ((k ==ℤ i) ≡ false) × (lookup k m ≡ none)
  fresh-insert k i v t m e = elim (Bool-cases (k ==ℤ i)) [
    | inl here ↦
        let impossible : ◌≡◌ {A = Option (Target D)} (some t) none = rw here at e in
        absurd (no impossible)
    | inr there ↦ (there, rw there at e)
  ]
    where
      no : ◌≡◌ {A = Option (Target D)} (some t) none → ⊥
      no e' = cc

  pub IsTable-insert :
      (k : ℤ) (v : Target D) (m : Map (Target D))
      → v.id ≡ k
      → lookup k m ≡ none
      → IsTable m
      → IsTable (insert k v m)
  IsTable-insert k v [] own fresh _ = (own, refl, tt)
  IsTable-insert k v ((i, t) ∷ m) own fresh (id, once, rest) =
      let (other, later) = fresh-insert k i v t m fresh in
      let still : lookup i (insert k v m) ≡ none =
        lookup-insert k i v m ∙ rw (flip_ne k i other) once in
      rw other (id, still, IsTable-insert k v m own later rest)

  pub targets_gross-insert :
      (j : Key) (k : ℤ) (v : Target D) (m : Map (Target D))
      → lookup k m ≡ none
      → targets_gross j (insert k v m) ≈ targets_gross j m +ℤ at_key j v.account (units v.gross)
  targets_gross-insert j k v [] fresh = omega int_laws
  targets_gross-insert j k v ((i, t) ∷ m) fresh =
      let (other, later) = fresh-insert k i v t m fresh in
      let rest = targets_gross-insert j k v m later in rw other (omega (int_laws, rest))

  -- A credit for an invoice that is not in the table, and for one that is.
  targets_credit-absent :
      (j : Key) (k : ℤ) (x : D) (m : Map (Target D)) (attached : Map D)
      → IsTable m
      → lookup k m ≡ none
      → targets_credit j m (insert k x attached) ≡ targets_credit j m attached
  targets_credit-absent j k x [] attached _ fresh = refl
  targets_credit-absent j k x ((i, t) ∷ m) attached (id, once, rest) fresh =
      let (other, later) = fresh-insert k i t t m fresh in
      let apart : (t.id ==ℤ k) ≡ false = ap (λ n. n ==ℤ k) id ∙ flip_ne k i other in
      let kept : get_or t.id zero (insert k x attached) ≡ get_or t.id zero attached =
        rw apart at (get_or-insert k t.id zero x attached) in
      let same = targets_credit-absent j k x m attached rest later in rw kept (rw same refl)

  pub targets_credit-insert :
      (j : Key) (k : ℤ) (g : D) (m : Map (Target D)) (attached : Map D) (t : Target D)
      → IsTable m
      → lookup k m ≡ some t
      → targets_credit j m (insert k (add (get_or k zero attached) g) attached)
        ≈ targets_credit j m attached +ℤ at_key j t.account (units g)
  targets_credit-insert j k g [] attached t _ found = cc
  targets_credit-insert j k g ((i, u) ∷ m) attached t (id, once, rest) found =
      let sum = add (get_or k zero attached) g in
      elim (Bool-cases (k ==ℤ i)) [
        | inl e ↦
            let this : ◌≡◌ {A = Option (Target D)} (some u) (some t) = rw e at found in
            let same : u ≡ t = cc in
            let key : k ≡ i = (==ℤ_iff k i).0 e in
            let own : u.id ≡ k = id ∙ sym key in
            let none_later : lookup k m ≡ none = ap (λ n. lookup n m) key ∙ once in
            let here : get_or u.id zero (insert k sum attached) ≡ sum =
              rw (ap (λ n. n ==ℤ k) own ∙ ==ℤ_refl k) at (get_or-insert k u.id zero sum attached) in
            let before : get_or u.id zero attached ≡ get_or k zero attached =
              ap (λ n. get_or n zero attached) own in
            let added : units (get_or u.id zero (insert k sum attached))
                ≈ units (get_or u.id zero attached) +ℤ units g =
              omega (
                int_laws,
                parts_of_eq (ap units here),
                parts_of_eq (ap units before),
                add_parts (get_or k zero attached) g,
              ) in
            let part =
              at_key_parts j u.account (units (get_or u.id zero (insert k sum attached)))
                (units (get_or u.id zero attached)) (units g) added in
            omega (
              int_laws,
              part,
              parts_of_eq (targets_credit-absent j k sum m attached rest none_later),
              parts_of_eq (ap (λ (y : Target D). at_key j y.account (units g)) same),
            )
        | inr e ↦
            let later : lookup k m ≡ some t = rw e at found in
            let apart : (u.id ==ℤ k) ≡ false = ap (λ n. n ==ℤ k) id ∙ flip_ne k i e in
            let kept : get_or u.id zero (insert k sum attached) ≡ get_or u.id zero attached =
              rw apart at (get_or-insert k u.id zero sum attached) in
            omega (
              int_laws,
              targets_credit-insert j k g m attached t rest later,
              parts_of_eq (ap (λ y. at_key j u.account (units y)) kept),
            )
      ]
