-- ===== src/Decimal/Cents.antt =====
-- A concrete instance: whole numbers of tenths of a cent.
use treckrr.Prelude.{refl, arith, ℤ, pos, ◌+ℤ◌, ◌-ℤ◌, ltb_ℤ, leb_ℤ, ◌==ℤ◌, if◌then◌else◌}
use treckrr.Decimal.Laws.{Decimal, round_half_away}

instance abbrev pub tenth_cents : Decimal ℤ
tenth_cents = record {
  zero = pos 0;
  add = λ a b. a +ℤ b;
  sub = λ a b. a -ℤ b;
  neg = λ a. pos 0 -ℤ a;
  largest = λ a b. if leb_ℤ a b then b else a;
  smallest = λ a b. if leb_ℤ a b then a else b;
  round_cents = round_half_away 10;
  is_zero = λ a. a ==ℤ pos 0;
  is_positive = λ a. ltb_ℤ (pos 0) a;
  is_negative = λ a. ltb_ℤ a (pos 0);
  equal = λ a b. a ==ℤ b;
  greater_than = λ a b. ltb_ℤ b a;
  units = λ a. a;
  cent = 10;
  cent_pos = omega arith;
  units-zero = refl;
  units-add = λ a b. refl;
  units-sub = λ a b. refl;
  units-neg = λ a. refl;
  units-largest = λ a b. refl;
  units-smallest = λ a b. refl;
  units-round_cents = λ a. refl;
  is_zero_lem = λ a. refl;
  is_positive_lem = λ a. refl;
  is_negative_lem = λ a. refl;
  equal_lem = λ a b. refl;
  greater_than_lem = λ a b. refl;
}
