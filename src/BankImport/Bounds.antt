-- ===== src/BankImport/Bounds.antt =====
-- Every credit that a statement yields is a positive number of whole cents below a billion euros.
use treckrr.Prelude.{
  ℕ, suc, ◌+◌, ◌*◌, ◌/◌, ◌<◌, ℤ, pos, negsuc, pos_part, neg_part, ◌-ℤ◌, ◌≤ℤ◌, leb_ℤ, ◌==ℤ◌, ==ℤ_iff,
  arith, ◌≡◌, refl, sym, ap, ◌∙◌, Bool, true, false, not, ◌||◌, Bool-cases, inl, inr, true_of_not,
  Option, Option-cases, none, some, List, [], ◌∷◌, subst, All, ok, ok-injective, if◌then◌else◌,
}
use treckrr.Decimal.{Decimal, plus}
use treckrr.Text.{Text, trim_space}
use treckrr.BankImport.Amount.{
  Banking, Txn, remove_char, plain_form, max_amount, accepted, parse_amount, credit_amount,
  disambiguate,
}
use treckrr.BankImport.Csv.{Error, finished, csv_rows, Columns, col}

-- The value of a decimal cut to whole cents.
abbrev pub cut : ℕ → ℤ → ℤ
cut c (pos n) = pos (n / c * c)
cut c (negsuc n) = pos 0 -ℤ pos (suc n / c * c)

-- What shopspring documents of the decimals that the parsers build and compare.
pub record IsExact {D : Type 0} ⦃d : Decimal D⦄ (k : Banking D) : Type 0 where
  pub units-of_int : (n : ℕ) → d.units (k.of_int (pos n)) ≡ pos (n * (100 * d.cent))
  pub units-abs : (a : D) → d.units (k.abs a) ≡ pos (pos_part (d.units a) + neg_part (d.units a))
  pub units-truncate_cents : (a : D) → d.units (k.truncate_cents a) ≡ cut d.cent (d.units a)
  pub greater_or_equal_lem : (a b : D) → k.greater_or_equal a b ≡ leb_ℤ (d.units b) (d.units a)

module _ {D : Type 0} ⦃d : Decimal D⦄ where
  -- A positive number of whole cents below a billion euros.
  abbrev pub IsCreditAmount : D → Type 0
  IsCreditAmount a =
      (pos 1 ≤ℤ d.units a)
      × (plus a < 1000000000 * (100 * d.cent))
      × ((m : ℕ) × (plus a ≡ m * d.cent))

  abbrev pub IsCredit : Txn D → Type 0
  IsCredit t = IsCreditAmount t.amount

leb_false : (a b n : ℕ) → leb_ℤ (pos a) (pos (b + n)) ≡ false → b < a
leb_false a b n e = ground arith

pub some-injective : {A : Type 0} {x y : A} → ◌≡◌ {A = Option A} (some x) (some y) → x ≡ y
some-injective e = cc

if_none :
    {A : Type 0} (b : Bool) (o : Option A) {a : A} → (if b then none else o) ≡ some a → o ≡ some a
if_none true o e = cc
if_none false o e = e

if_none-refused :
    {A : Type 0} (b : Bool) (o : Option A) {a : A} → (if b then none else o) ≡ some a → b ≡ false
if_none-refused true o e = cc
if_none-refused false o e = refl

or_false : (a b : Bool) → (a || b) ≡ false → (a ≡ false) × (b ≡ false)
or_false true b e = cc
or_false false b e = (refl, e)

module _ {D : Type 0} ⦃d : Decimal D⦄ (k : Banking D) (x : IsExact k) where
  open d use {units}

  cut_positive : (c : ℕ) (v : ℤ) → pos 1 ≤ℤ v → v ≡ cut c v → (m : ℕ) × (pos_part v ≡ m * c)
  cut_positive c (pos n) positive e = (n / c, ap pos_part e)
  cut_positive c (negsuc n) positive e = absurd (omega (arith, positive))

  credit_of_tests :
      (a : D)
      → k.greater_or_equal (k.abs a) (max_amount k) ≡ false
      → d.equal a (k.truncate_cents a) ≡ true
      → d.is_positive a ≡ true
      → IsCreditAmount a
  credit_of_tests a small whole positive =
      let above : pos 1 ≤ℤ units a = ground (arith, d.is_positive_lem a) in
      let same : (units a ==ℤ units (k.truncate_cents a)) ≡ true =
        sym (d.equal_lem a (k.truncate_cents a)) ∙ whole in
      let exact : units a ≡ cut d.cent (units a) =
        (==ℤ_iff (units a) (units (k.truncate_cents a))).0 same ∙ x.units-truncate_cents a in
      let below : leb_ℤ (units (max_amount k)) (units (k.abs a)) ≡ false =
        sym (x.greater_or_equal_lem (k.abs a) (max_amount k)) ∙ small in
      let bound : plus a < 1000000000 * (100 * d.cent) = leb_false _ _ _ (
        subst (λ v. leb_ℤ v (pos (plus a + neg_part (units a))) ≡ false) (x.units-of_int 1000000000)
          (subst (λ v. leb_ℤ (units (max_amount k)) v ≡ false) (x.units-abs a) below)) in
      (above, bound, cut_positive d.cent (units a) above exact)

  parse_amount-accepted :
      (raw : Text) (a : D)
      → parse_amount k raw ≡ some a
      → (k.greater_or_equal (k.abs a) (max_amount k) ≡ false)
        × (d.equal a (k.truncate_cents a) ≡ true)
  unfolding parse_amount
  parse_amount-accepted raw a e =
      tested (k.from_string (plain_form (remove_char 32 (trim_space raw)))) (if_none _ _ e)
    where
      tested :
          (o : Option D)
          → accepted k o ≡ some a
          → (k.greater_or_equal (k.abs a) (max_amount k) ≡ false)
            × (d.equal a (k.truncate_cents a) ≡ true)
      tested none h = cc
      tested (some v) h =
          let bad =
            k.greater_or_equal (k.abs v) (max_amount k) || not (d.equal v (k.truncate_cents v)) in
          let (small, whole) =
            or_false (k.greater_or_equal (k.abs v) (max_amount k)) _
              (if_none-refused bad (some v) h) in
          let same : v ≡ a = some-injective (if_none bad (some v) h) in
          subst
            (λ y.
              (k.greater_or_equal (k.abs y) (max_amount k) ≡ false)
              × (d.equal y (k.truncate_cents y) ≡ true))
            same (small, true_of_not _ whole)

  pub credit_amount-IsCreditAmount :
      (raw : Text) (a : D) → credit_amount k raw ≡ some a → IsCreditAmount a
  unfolding credit_amount
  credit_amount-IsCreditAmount raw a e = elim (Option-cases (parse_amount k raw)) [
    | inl missing ↦
        let bad : ◌≡◌ {A = Option D} none (some a) = rw (missing, credit_amount) at e in cc
    | inr (v, parsed) ↦
        let kept : (if d.is_positive v then some v else none) ≡ some a =
          rw (parsed, credit_amount) at e in
        elim (Bool-cases (d.is_positive v)) [
          | inl positive ↦
              let same : v ≡ a = some-injective (rw positive at kept) in
              let (small, whole) = parse_amount-accepted raw v parsed in
              subst (λ y. IsCreditAmount y) same (credit_of_tests v small whole positive)
          | inr other ↦ let bad : ◌≡◌ {A = Option D} none (some a) = rw other at kept in cc
        ]
  ]

  -- The hashes do not touch the amounts.
  disambiguate-IsCredit :
      (seen : List Text) (ts : List (Txn D))
      → All IsCredit ts
      → All IsCredit (disambiguate k seen ts)
  unfolding disambiguate
  disambiguate-IsCredit seen [] _ = tt
  disambiguate-IsCredit seen (t ∷ ts) (c, cs) = (c, disambiguate-IsCredit (t.hash ∷ seen) ts cs)

  pub finished-IsCredit :
      (e : Error) (ts out : List (Txn D))
      → All IsCredit ts
      → finished k e ts ≡ ok out
      → All IsCredit out
  finished-IsCredit e [] out cs h = cc
  finished-IsCredit e (t ∷ ts) out cs h =
      subst (All IsCredit) (ok-injective h) (disambiguate-IsCredit [] (t ∷ ts) cs)

  pub csv_rows-IsCredit : (c : Columns) (rs : List (List Text)) → All IsCredit (csv_rows k c rs)
  unfolding csv_rows
  csv_rows-IsCredit c [] = tt
  csv_rows-IsCredit c (r ∷ rs) = elim (Option-cases (credit_amount k (col r c.amount))) [
    | inl none_found ↦ rw (none_found, csv_rows) (csv_rows-IsCredit c rs)
    | inr (a, found) ↦
        rw (found, csv_rows)
          (credit_amount-IsCreditAmount (col r c.amount) a found, csv_rows-IsCredit c rs)
  ]
