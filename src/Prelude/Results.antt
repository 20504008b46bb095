-- ===== src/Prelude/Results.antt =====
-- Go's `(value, error)` results: a value, or an error of the component's own kind.
use mathlib.Core.Path.{◌≡◌, refl}
use mathlib.Core.Bool.{Bool, true, false}

pub data Result {ℓ κ} (E : Type κ) (A : Type ℓ) : Type (ℓ ⊔ κ) where
  err : E → Result E A
  ok : A → Result E A

module _ {ℓ κ μ} {E : Type κ} {A : Type ℓ} {B : Type μ} where
  infixl 5 ◌>>=◌
  -- `if err != nil { return …, err }`
  abbrev pub ◌>>=◌ : Result E A → (A → Result E B) → Result E B
  err e >>= next = err e
  ok a >>= next = next a

  -- A chain that returns a value went through its first step.
  pub first_of_chain :
      (next : A → Result E B) (m : Result E A) {b : B}
      → (m >>= next) ≡ ok b
      → (a : A) × (m ≡ ok a) × (next a ≡ ok b)
  first_of_chain next (err e) returned = cc
  first_of_chain next (ok a) returned = (a, refl, returned)

module _ {ℓ κ} {E : Type κ} {A : Type ℓ} where
  infixl 5 ◌>>◌
  abbrev pub ◌>>◌ : Result E (Unit {0}) → Result E A → Result E A
  checked >> rest = checked >>= (λ done. rest)

  pub ok-injective : {a b : A} → ◌≡◌ {A = Result E A} (ok a) (ok b) → a ≡ b
  ok-injective h = cc

-- `if bad { return …, err }`
abbrev pub refuse_if {κ} : {E : Type κ} → Bool → E → Result E (Unit {0})
refuse_if true e = err e
refuse_if false e = ok tt

-- A guard that lets pass.
pub refuse_if-ok {ℓ κ} :
    {E : Type κ} {A : Type ℓ} (b : Bool) (e : E) (m : Result E A) {a : A}
    → (refuse_if b e >> m) ≡ ok a
    → (b ≡ false) × (m ≡ ok a)
refuse_if-ok true e m h = cc
refuse_if-ok false e m h = (refl, h)

pub refuse_if_passed :
    {E : Type 0} (b : Bool) (e : E)
    → ◌≡◌ {A = Result E (Unit {0})} (refuse_if b e) (ok tt)
    → b ≡ false
refuse_if_passed true e h = cc
refuse_if_passed false e h = refl
