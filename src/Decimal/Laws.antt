-- ===== src/Decimal/Laws.antt =====
-- The interface of the decimals, and their laws in the form that the arithmetic tactics read.
use treckrr.Prelude.{
  ℕ, suc, ◌+◌, ◌*◌, ◌/◌, ◌<◌, ◌≤◌, ◌≡◌, ◌⊎◌, Bool, arith, ℤ, pos, negsuc, pos_part, neg_part, ◌+ℤ◌,
  ◌-ℤ◌, ◌≤ℤ◌, ltb_ℤ, leb_ℤ, ◌==ℤ◌, if◌then◌else◌, int_laws, +ℤ_parts, -ℤ_parts, eq_of_parts,
}

-- Rounding to a whole multiple of `c` units, half away from zero, on the magnitude `n`.
abbrev pub nearest : ℕ → ℕ → ℕ
nearest c n = (2 * n + c) / (2 * c) * c

-- The same with its sign.
abbrev pub round_half_away : ℕ → ℤ → ℤ
round_half_away c (pos n) = pos (nearest c n)
round_half_away c (negsuc n) = pos 0 -ℤ pos (nearest c (suc n))

pub record Decimal (D : Type 0) : Type 0 where
  pub zero : D
  pub add : D → D → D
  pub sub : D → D → D
  pub neg : D → D
  pub largest : D → D → D
  pub smallest : D → D → D
  -- `Round(2)`
  pub round_cents : D → D
  pub is_zero : D → Bool
  pub is_positive : D → Bool
  pub is_negative : D → Bool
  pub equal : D → D → Bool
  pub greater_than : D → D → Bool
  -- the number of units, and of units in a cent
  pub units : D → ℤ
  pub cent : ℕ
  pub cent_pos : 0 < cent
  pub units-zero : units zero ≡ pos 0
  pub units-add : (a b : D) → units (add a b) ≡ units a +ℤ units b
  pub units-sub : (a b : D) → units (sub a b) ≡ units a -ℤ units b
  pub units-neg : (a : D) → units (neg a) ≡ pos 0 -ℤ units a
  pub units-largest :
      (a b : D) → units (largest a b) ≡ (if leb_ℤ (units a) (units b) then units b else units a)
  pub units-smallest :
      (a b : D) → units (smallest a b) ≡ (if leb_ℤ (units a) (units b) then units a else units b)
  pub units-round_cents : (a : D) → units (round_cents a) ≡ round_half_away cent (units a)
  pub is_zero_lem : (a : D) → is_zero a ≡ (units a ==ℤ pos 0)
  pub is_positive_lem : (a : D) → is_positive a ≡ ltb_ℤ (pos 0) (units a)
  pub is_negative_lem : (a : D) → is_negative a ≡ ltb_ℤ (units a) (pos 0)
  pub equal_lem : (a b : D) → equal a b ≡ (units a ==ℤ units b)
  pub greater_than_lem : (a b : D) → greater_than a b ≡ ltb_ℤ (units b) (units a)

module _ {D : Type 0} ⦃d : Decimal D⦄ where
  open d use {add, sub, neg, largest, smallest, units}

  -- The part of the value above zero, and below it.
  abbrev pub plus : D → ℕ
  plus a = pos_part (units a)

  abbrev pub minus : D → ℕ
  minus a = neg_part (units a)

  pub add_parts : (a b : D) → plus (add a b) + minus a + minus b ≡ minus (add a b) + plus a + plus b
  add_parts a b = ground (arith, d.units-add a b, +ℤ_parts (units a) (units b))

  pub sub_parts : (a b : D) → plus (sub a b) + minus a + plus b ≡ minus (sub a b) + plus a + minus b
  sub_parts a b = ground (arith, d.units-sub a b, -ℤ_parts (units a) (units b))

  pub neg_parts : (a : D) → plus (neg a) + plus a ≡ minus (neg a) + minus a
  neg_parts a = ground (arith, d.units-neg a, -ℤ_parts (pos 0) (units a))

  pub largest_parts :
      (a b : D)
      → (units a ≤ℤ units (largest a b))
        × (units b ≤ℤ units (largest a b))
        × ((units (largest a b) ≤ℤ units a) ⊎ (units (largest a b) ≤ℤ units b))
  largest_parts a b = ground (arith, d.units-largest a b)

  pub smallest_parts :
      (a b : D)
      → (units (smallest a b) ≤ℤ units a)
        × (units (smallest a b) ≤ℤ units b)
        × ((units a ≤ℤ units (smallest a b)) ⊎ (units b ≤ℤ units (smallest a b)))
  smallest_parts a b = ground (arith, d.units-smallest a b)

-- With the type of the decimals written, since nothing else shows it.
pub zero_parts : (D : Type 0) ⦃d : Decimal D⦄ → (plus d.zero ≡ 0) × (minus d.zero ≡ 0)
zero_parts D ⦃d⦄ = ground (arith, d.units-zero)

-- For `omega` and `grind` over decimals with the operations shut.
pub ruleset decimal_laws = (
  arith, add_parts, sub_parts, neg_parts, largest_parts, smallest_parts, +ℤ_parts, -ℤ_parts,
  eq_of_parts,
)
