-- ===== src/Calendar.antt =====
-- Calendar dates, as a DATE column or `time.Time.Date` gives them.
use Prim.Native.Nat.{compare, Ordering}
use treckrr.Prelude.{◌≡◌, arith, true, ℕ, ◌+◌, Bool, ◌&&◌, ℤ, pos_part, neg_part, ◌==◌}

pub record Date : Type 0 where
  pub year : ℕ
  pub month : ℕ
  pub day : ℕ

-- `IsZero`: the first of January of the year 1.
unfoldable pub is_zero_date : Date → Bool
is_zero_date d = d.year == 1 && d.month == 1 && d.day == 1

-- `cmp.Compare` on int64.
abbrev pub compare_ℤ : ℤ → ℤ → Ordering
compare_ℤ a b = compare (pos_part a + neg_part b) (pos_part b + neg_part a)

-- The first comparison that tells the two apart.
abbrev pub then_by : Ordering → Ordering → Ordering
then_by Ordering.eq next = next
then_by Ordering.lt next = Ordering.lt
then_by Ordering.gt next = Ordering.gt

abbrev pub same_date : Date → Date → Bool
same_date a b = a.year == b.year && a.month == b.month && a.day == b.day

pub same_date_refl : (a : Date) → same_date a a ≡ true
same_date_refl a = ground arith
