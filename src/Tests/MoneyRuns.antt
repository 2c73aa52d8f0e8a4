-- ===== src/Tests/MoneyRuns.antt =====
-- Divisions, splits and texts at concrete amounts.
use worldsimulator.Prelude.{
  ℕ, ◌*◌, ◌/◌, ◌+◌, ◌≤◌, ◌≡◌, ◌≢◌, refl, false, List, [], ◌∷◌, map, arith, sum, length, get_or,
}
use worldsimulator.Prelude.Int.{ℤ, pos, negsuc, magnitude, ◌*ℤ◌, ◌+ℤ◌, ◌-ℤ◌, quot, rem, neg, sum_ℤ}
use worldsimulator.Prelude.Decimal.{print_ℤ, is_integer_text}
use worldsimulator.Prelude.Results.{ok, err, money_error}
use worldsimulator.Money.{
  half_even, floor, ceil, money, mul_div, allocate, allocate_natural, format_money,
}
use worldsimulator.Money.Rounding.{Rounds, signed_num, mul_div-Rounds}
use worldsimulator.Money.Allocation.{allocate_natural_fair, allocate_exact}
use worldsimulator.Money.Texts.{money-print_ℤ}

-- -5 / 2 is -2.5: down to -3, up to -2, and to the even -2.
three_modes :
    (mul_div (negsuc 4) (pos 1) (pos 2) floor ≡ ok (negsuc 2))
    × (mul_div (negsuc 4) (pos 1) (pos 2) ceil ≡ ok (negsuc 1))
    × (mul_div (negsuc 4) (pos 1) (pos 2) half_even ≡ ok (negsuc 1))
unfolding mul_div quot rem ◌*ℤ◌ ◌-ℤ◌ ◌+ℤ◌ neg
three_modes = (refl, refl, refl)

split_dollar : allocate (pos 100) (pos 1 ∷ pos 1 ∷ pos 1 ∷ []) ≡ ok (pos 34 ∷ pos 33 ∷ pos 33 ∷ [])
unfolding allocate
split_dollar = refl

shown : format_money (negsuc 1204) ≡ b'-' ∷ b'$' ∷ b'1' ∷ b'2' ∷ b'.' ∷ b'0' ∷ b'5' ∷ []
unfolding format_money
shown = refl

mul_div-Rounds_example :
    (negsuc 2 ≡ pos 0 → mul_div (pos 7) (pos 1) (negsuc 2) half_even ≡ err money_error)
    × (negsuc 2 ≢ pos 0
        → (r : ℤ) × (mul_div (pos 7) (pos 1) (negsuc 2) half_even ≡ ok r)
          × Rounds half_even (pos 7 *ℤ signed_num (pos 1) (negsuc 2)) (magnitude (negsuc 2)) r)
mul_div-Rounds_example = mul_div-Rounds (pos 7) (pos 1) (negsuc 2) half_even

abbrev weights : List ℕ
weights = 1 ∷ 2 ∷ 4 ∷ []

allocate_exact_example :
    (parts : List ℤ) × (allocate (negsuc 99) (map pos weights) ≡ ok parts)
    × (sum_ℤ parts ≡ negsuc 99)
    × (length parts ≡ length weights)
allocate_exact_example = allocate_exact (negsuc 99) weights (omega arith)

allocate_natural_fair_example :
    (100 * get_or weights 1 0 / sum weights ≤ get_or (allocate_natural 100 weights) 1 0)
    × (get_or (allocate_natural 100 weights) 1 0 ≤ 100 * get_or weights 1 0 / sum weights + 1)
allocate_natural_fair_example = allocate_natural_fair 100 weights 1 (omega arith)

money-print_ℤ_example :
    (money (print_ℤ (negsuc 6)) ≡ ok (negsuc 6))
    × (is_integer_text (b'x' ∷ []) ≡ false → money (b'x' ∷ []) ≡ err money_error)
money-print_ℤ_example = money-print_ℤ (negsuc 6) (b'x' ∷ [])
