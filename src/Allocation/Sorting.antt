-- ===== src/Allocation/Sorting.antt =====
-- The sort keeps the entries: predicates and sums carry over.
use Prim.Native.Nat.{Ordering}
use treckrr.Prelude.{All, ℤ, pos, ◌+ℤ◌, ◌≈◌, inl, inr, Bool-cases, List, [], ◌∷◌, arith, int_laws}
use treckrr.Allocation.Order.{insert_sorted, sort_by, is_less}

-- A sum over a list, by any weight.
abbrev pub sum_by {ℓ} : {A : Type ℓ} → (A → ℤ) → List A → ℤ
sum_by f [] = pos 0
sum_by f (x ∷ xs) = f x +ℤ sum_by f xs

module _ {ℓ} {A : Type ℓ} (order : A → A → Ordering) where
  All-insert_sorted {κ} :
      (P : A → Type κ) (x : A) (xs : List A) → P x → All P xs → All P (insert_sorted order x xs)
  unfolding insert_sorted
  All-insert_sorted P x [] p ps = (p, ps)
  All-insert_sorted P x (y ∷ ys) p ps = elim (Bool-cases (is_less (order y x))) [
    | inl e ↦ rw e (ps.0, All-insert_sorted P x ys p ps.1)
    | inr e ↦ rw e (p, ps)
  ]

  pub All-sort_by {κ} : (P : A → Type κ) (xs : List A) → All P xs → All P (sort_by order xs)
  unfolding sort_by
  All-sort_by P [] ps = ps
  All-sort_by P (x ∷ xs) ps = All-insert_sorted P x (sort_by order xs) ps.0 (All-sort_by P xs ps.1)

  insert_sorted-All {κ} :
      (P : A → Type κ) (x : A) (xs : List A) → All P (insert_sorted order x xs) → P x × All P xs
  unfolding insert_sorted
  insert_sorted-All P x [] ps = ps
  insert_sorted-All P x (y ∷ ys) ps = elim (Bool-cases (is_less (order y x))) [
    | inl e ↦
        let split : P y × All P (insert_sorted order x ys) = rw e at ps in
        let rest = insert_sorted-All P x ys split.1 in (rest.0, (split.0, rest.1))
    | inr e ↦ let same : P x × (P y × All P ys) = rw e at ps in same
  ]

  pub sort_by-All {κ} : (P : A → Type κ) (xs : List A) → All P (sort_by order xs) → All P xs
  unfolding sort_by
  sort_by-All P [] ps = ps
  sort_by-All P (x ∷ xs) ps =
      let split = insert_sorted-All P x (sort_by order xs) ps in (split.0, sort_by-All P xs split.1)

  sum_by-insert_sorted :
      (f : A → ℤ) (x : A) (xs : List A) → sum_by f (insert_sorted order x xs) ≈ f x +ℤ sum_by f xs
  unfolding insert_sorted
  sum_by-insert_sorted f x [] = omega int_laws
  sum_by-insert_sorted f x (y ∷ ys) = elim (Bool-cases (is_less (order y x))) [
    | inl e ↦ rw e (omega (int_laws, sum_by-insert_sorted f x ys))
    | inr e ↦ rw e (omega int_laws)
  ]

  pub sum_by-sort_by : (f : A → ℤ) (xs : List A) → sum_by f (sort_by order xs) ≈ sum_by f xs
  unfolding sort_by
  sum_by-sort_by f [] = omega arith
  sum_by-sort_by f (x ∷ xs) =
      omega (int_laws, sum_by-sort_by f xs, sum_by-insert_sorted f x (sort_by order xs))
