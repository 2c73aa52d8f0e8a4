-- ===== src/Energy/Tariffs.antt =====
-- The bounds of a tariff under the program's own parameters.
use worldsimulator.Prelude.{
  ℕ, ◌+◌, ◌*◌, max, min, ◌||◌, ◌/◌, ◌≤◌, ◌<◌, ◌≡◌, ◌≢◌, true, false, arith,
}
use worldsimulator.Prelude.Int.{ℤ, pos, negsuc, ◌+ℤ◌, ◌-ℤ◌, ◌*ℤ◌, ltb_ℤ, leb_ℤ, *ℤ-pos_pos}
use worldsimulator.Prelude.Results.{ok, assert_safe_integer-pos}
use worldsimulator.Money.{half_even, floor, ceil}
use worldsimulator.Money.Natural.{round_magnitude, mul_div-natural, round_magnitude-floor}
use worldsimulator.Money.Rounding.{mul_div-Rounds}
use worldsimulator.Energy.{TariffInput, energy_tariff_for_fuel_price, clamp}

-- The defaults of `energyTariffForFuelPrice`.
abbrev pub default_tariff : (base reference fuel : ℕ) → TariffInput
default_tariff base reference fuel = record {
  base_tariff_cents = pos base;
  reference_fuel_price_cents = pos reference;
  fuel_price_cents = pos fuel;
  pass_through_bp = pos 6000;
  minimum_tariff_bp = pos 5000;
  maximum_tariff_bp = pos 20000;
}

abbrev half_up : ℕ → ℕ
half_up base = round_magnitude ceil false (base * 5000) 10000

half_up_bounds : (base : ℕ) → (base ≤ 2 * half_up base) × (2 * half_up base ≤ base + 1)
unfolding round_magnitude
half_up_bounds base = ground arith

clamp_bounds :
    (z : ℤ) (low high : ℕ)
    → low ≤ high
    → (t : ℕ) × (clamp z (pos low) (pos high) ≡ pos t) × (low ≤ t) × (t ≤ high)
unfolding clamp
clamp_bounds (pos n) low high h = (max low (min n high), ground arith, omega arith, omega arith)
clamp_bounds (negsuc n) low high h = (low, ground arith, omega arith, h)

positive_denominator : (n : ℕ) → 0 < n → pos (n * 10000) ≢ pos 0
positive_denominator n h e = absurd (ground arith)

twice : (n : ℕ) → n * 20000 / 10000 ≡ 2 * n
twice n = omega arith

half_positive : (base : ℕ) → 0 < base → ltb_ℤ (pos 0) (pos (half_up base)) ≡ true
half_positive base h = ground (arith, half_up_bounds base)

checked :
    (base reference fuel : ℕ)
    → 0 < base
    → 0 < reference
    → 0 < fuel
    → leb_ℤ (pos base) (pos 0) || leb_ℤ (pos reference) (pos 0) || leb_ℤ (pos fuel) (pos 0) ≡ false
checked base reference fuel b r f = ground arith

-- With the program's own parameters a tariff is returned for all positive prices, and whatever
-- fuel costs it lies from half the base tariff to twice it, and is positive.
pub tariff_bounds :
    (base reference fuel : ℕ)
    → 0 < base
    → 0 < reference
    → 0 < fuel
    → (tariff : ℕ) × (energy_tariff_for_fuel_price (default_tariff base reference fuel)
        ≡ ok (pos tariff))
      × (0 < tariff)
      × (base ≤ 2 * tariff)
      × (tariff ≤ 2 * base)
unfolding energy_tariff_for_fuel_price
tariff_bounds base reference fuel b r f =
    let (adjustment, adjusted, _) =
      (mul_div-Rounds (pos base) ((pos fuel -ℤ pos reference) *ℤ pos 6000)
          (pos reference *ℤ pos 10000) half_even).1
        (rw (*ℤ-pos_pos reference 10000) (positive_denominator reference r)) in
    let (tariff, clamped, low, high) =
      clamp_bounds (pos base +ℤ adjustment) (half_up base) (2 * base)
        (omega (arith, half_up_bounds base)) in
    (
      tariff,
      rw (
        checked base reference fuel b r f,
        assert_safe_integer-pos 6000 0 (omega arith) (omega arith),
        assert_safe_integer-pos 5000 1 (omega arith) (omega arith),
        assert_safe_integer-pos 20000 1 (omega arith) (omega arith),
        adjusted,
        mul_div-natural base 5000 10000 ceil (omega arith),
        mul_div-natural base 20000 10000 floor (omega arith),
        round_magnitude-floor (base * 20000) 10000,
        twice base,
        half_positive base b,
        clamped,
      ),
      omega (arith, half_up_bounds base),
      omega (arith, half_up_bounds base),
      high,
    )
