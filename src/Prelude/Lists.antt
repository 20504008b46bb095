-- ===== src/Prelude/Lists.antt =====
-- Lists, and Go's maps with integer keys as association lists.
use Prim.Native.Nat.{ℕ, suc, ◌+◌}
use mathlib.Core.Path.{◌≡◌, refl, sym, subst}
use mathlib.Core.Bool.{Bool, true, false}
use mathlib.Core.Option.{Option, none, some}
use mathlib.Core.List.{Memᴰ, List, [], ◌∷◌, ◌++◌}
use native.Mathlib.Omega.{arith}
use treckrr.Prelude.Tests.{if◌then◌else◌}
use treckrr.Prelude.Int.{ℤ, ◌==ℤ◌}

module _ {ℓ} {A : Type ℓ} where
  abbrev pub length : List A → ℕ
  length [] = 0
  length (x ∷ xs) = suc (length xs)

  abbrev pub All {κ} : (A → Type κ) → List A → Type κ
  All P [] = Unit
  All P (x ∷ xs) = P x × All P xs

  pub length-append : (xs ys : List A) → length (xs ++ ys) ≡ length xs + length ys
  length-append [] ys = omega arith
  length-append (x ∷ xs) ys = omega (arith, length-append xs ys)

  pub All-append {κ} : (P : A → Type κ) (xs ys : List A) → All P xs → All P ys → All P (xs ++ ys)
  All-append P [] ys _ q = q
  All-append P (x ∷ xs) ys (p, ps) q = (p, All-append P xs ys ps q)

  pub All-Mem {κ} : (P : A → Type κ) (xs : List A) (x : A) → All P xs → Memᴰ x xs → P x
  All-Mem P [] x _ in_xs = elim in_xs [ ]
  All-Mem P (y ∷ ys) x (p, ps) (Memᴰ.head e) = subst P (sym e) p
  All-Mem P (y ∷ ys) x (p, ps) (Memᴰ.tail in_ys) = All-Mem P ys x ps in_ys

  pub All-zip {κ μ} :
      (P : A → Type κ) (Q : A → Type μ) (xs : List A)
      → All P xs
      → All Q xs
      → All (λ x. P x × Q x) xs
  All-zip P Q [] _ _ = tt
  All-zip P Q (x ∷ xs) (p, ps) (q, qs) = ((p, q), All-zip P Q xs ps qs)

  pub All-map {κ μ} :
      (P : A → Type κ) (Q : A → Type μ)
      → ((x : A) → P x → Q x)
      → (xs : List A) → All P xs
      → All Q xs
  All-map P Q f [] _ = tt
  All-map P Q f (x ∷ xs) (p, ps) = (f x p, All-map P Q f xs ps)

-- A map[int64]V; a later write to a key replaces the earlier one.
abbrev pub Map {ℓ} : Type ℓ → Type ℓ
Map V = List (ℤ × V)

module _ {ℓ} {V : Type ℓ} where
  -- `v, ok := m[k]`
  abbrev pub lookup : ℤ → Map V → Option V
  lookup k [] = none
  lookup k ((j, v) ∷ m) = if k ==ℤ j then some v else lookup k m

  -- `_, ok := m[k]`
  abbrev pub contains : ℤ → Map V → Bool
  contains k m = elim (lookup k m) [ none ↦ false | some _ ↦ true ]

  -- `m[k]`, with the type's zero value for a missing key
  abbrev pub get_or : ℤ → V → Map V → V
  get_or k z m = elim (lookup k m) [ none ↦ z | some v ↦ v ]

  -- `m[k] = v`
  abbrev pub insert : ℤ → V → Map V → Map V
  insert k v [] = (k, v) ∷ []
  insert k v ((j, w) ∷ m) = if k ==ℤ j then (j, v) ∷ m else (j, w) ∷ insert k v m

pub lookup-insert :
    {V : Type 0} (k j : ℤ) (v : V) (m : Map V)
    → lookup j (insert k v m) ≡ (if j ==ℤ k then some v else lookup j m)
lookup-insert k j v [] = refl
lookup-insert k j v ((i, w) ∷ m) = ground (arith, lookup-insert k j v m)

pub get_or-cons :
    {V : Type 0} (k j : ℤ) (z v : V) (m : Map V)
    → get_or k z ((j, v) ∷ m) ≡ (if k ==ℤ j then v else get_or k z m)
get_or-cons k j z v m = ground arith

pub get_or-insert :
    {V : Type 0} (k j : ℤ) (z v : V) (m : Map V)
    → get_or j z (insert k v m) ≡ (if j ==ℤ k then v else get_or j z m)
get_or-insert k j z v m = ground (arith, lookup-insert k j v m)
