-- ===== src/Allocation/Order.antt =====
-- The order of invoices and payments: calendar date, then identifier. `slices.SortFunc` is an
-- insertion sort here; entries that compare equal have equal identifiers, which the planner refuses.
use Prim.Native.Nat.{compare, Ordering}
use treckrr.Prelude.{ℤ, Bool, true, false, List, [], ◌∷◌, if◌then◌else◌}
use treckrr.Calendar.{Date, compare_ℤ, then_by}
use treckrr.Allocation.Data.{Invoice, Payment}

unfoldable pub compare_order : Date → ℤ → Date → ℤ → Ordering
compare_order a a_id b b_id =
    then_by (compare a.year b.year)
      (then_by (compare a.month b.month) (then_by (compare a.day b.day) (compare_ℤ a_id b_id)))

-- `cmp(a, b) < 0`
abbrev pub is_less : Ordering → Bool
is_less Ordering.lt = true
is_less Ordering.eq = false
is_less Ordering.gt = false

module _ {ℓ} {A : Type ℓ} (order : A → A → Ordering) where
  unfoldable pub insert_sorted : A → List A → List A
  insert_sorted x [] = x ∷ []
  insert_sorted x (y ∷ ys) = if is_less (order y x) then y ∷ insert_sorted x ys else x ∷ y ∷ ys

  unfoldable pub sort_by : List A → List A
  unfolding insert_sorted
  sort_by [] = []
  sort_by (x ∷ xs) = insert_sorted x (sort_by xs)

abbrev pub invoice_order : {D : Type 0} → Invoice D → Invoice D → Ordering
invoice_order a b = compare_order a.issued_on a.id b.issued_on b.id

abbrev pub payment_order : {D : Type 0} → Payment D → Payment D → Ordering
payment_order a b = compare_order a.paid_on a.id b.paid_on b.id
