-- ===== src/Decimal/Rounding.antt =====
-- Rounding to whole cents: how far it moves a value, and what is left after a rounded value is taken
-- away.
use native.Mathlib.Nat.{div-add-mod, mod-lt, div-eq_of_lt, div_self}
use treckrr.Prelude.{
  ℕ, suc, ◌+◌, ◌*◌, ◌/◌, ◌<◌, ◌≤◌, ◌≡◌, arith, ℤ, pos, negsuc, pos_part, neg_part, ◌-ℤ◌,
  eq_of_parts, -ℤ_parts, ◌∙◌, ap,
}
use treckrr.Decimal.Laws.{nearest, round_half_away}

module _ (c : ℕ) (c_pos : 0 < c) where
  -- The nearest multiple is at most half a cent away; an exact half goes up.
  pub nearest_bounds : (n : ℕ) → (2 * nearest c n ≤ 2 * n + c) × (2 * n < 2 * nearest c n + c)
  nearest_bounds n =
      omega (arith, div-add-mod (2 * n + c) (2 * c), mod-lt (2 * n + c) {m = 2 * c} (omega arith))

  pub nearest_small : (n : ℕ) → 2 * n < c → nearest c n ≡ 0
  nearest_small n h =
      ap (λ q. q * c) (div-eq_of_lt {n = 2 * n + c} {m = 2 * c} (omega arith)) ∙ omega arith

  pub nearest_half : (n : ℕ) → 2 * n ≡ c → nearest c n ≡ c
  nearest_half n h =
      ap (λ m. m / (2 * c) * c) twice
      ∙ (ap (λ q. q * c) (div_self {n = 2 * c} (omega arith)) ∙ omega arith)
    where
      twice : 2 * n + c ≡ 2 * c
      twice = omega arith

  -- What is left is at most half a cent on either side.
  pub rest_bounds :
      (x : ℤ)
      → let rest = x -ℤ round_half_away c x in
        (2 * pos_part rest ≤ c + 2 * neg_part rest) × (2 * neg_part rest ≤ c + 2 * pos_part rest)
  rest_bounds (pos n) = omega (arith, nearest_bounds n, -ℤ_parts (pos n) (pos (nearest c n)))
  rest_bounds (negsuc n) = omega (
    arith,
    nearest_bounds (suc n),
    -ℤ_parts (negsuc n) (pos 0 -ℤ pos (nearest c (suc n))),
    -ℤ_parts (pos 0) (pos (nearest c (suc n))),
  )

  -- Less than half a cent rounds to nothing.
  pub round_small : (x : ℤ) → 2 * pos_part x < c → 2 * neg_part x < c → round_half_away c x ≡ pos 0
  round_small (pos n) p q = ap pos (nearest_small n p)
  round_small (negsuc n) p q =
      eq_of_parts _ _
        (omega (arith, nearest_small (suc n) q, -ℤ_parts (pos 0) (pos (nearest c (suc n)))))

  -- Half a cent below zero rounds to a whole cent below zero.
  pub round_minus_half : (x : ℤ) → 2 * neg_part x ≡ c → round_half_away c x ≡ pos 0 -ℤ pos c
  round_minus_half (pos n) q = absurd (omega arith)
  round_minus_half (negsuc n) q = ap (λ m. pos 0 -ℤ pos m) (nearest_half (suc n) q)
