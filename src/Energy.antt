-- ===== src/Energy.antt =====
-- packages/engine/src/energy-rules.ts: tariffs, billing cycles and fuel. Its two guards on numbers
-- are those of the prelude's results.
pub mod Billing
pub mod Tariffs
use worldsimulator.Prelude.{
  ℕ, ◌+◌, ◌-◌, ◌*◌, ◌%◌, Bool, true, false, ◌&&◌, ◌||◌, ltb, leb, ◌==◌, if◌then◌else◌,
}
use worldsimulator.Prelude.Int.{ℤ, pos, ◌+ℤ◌, ◌-ℤ◌, ◌*ℤ◌, ltb_ℤ, leb_ℤ}
use worldsimulator.Prelude.Results.{
  validation_failed, Result, ok, err, ◌>>=◌, ◌>>◌, throw_if, assert_safe_integer, safe_number,
  add_numbers,
}
use worldsimulator.Money.{half_even, floor, ceil, mul_div}

unfoldable pub clamp : (value minimum maximum : ℤ) → ℤ
clamp value minimum maximum =
    if ltb_ℤ value minimum then minimum else if ltb_ℤ maximum value then maximum else value

unfoldable pub energy_billing_cycle_due : (tick interval_ticks : ℤ) → Result Bool
energy_billing_cycle_due tick interval_ticks = do
  t ← assert_safe_integer tick 0
  i ← assert_safe_integer interval_ticks 1
  ok (ltb 0 t && t % i == 0)

unfoldable pub next_energy_billing_tick : (tick interval_ticks : ℤ) → Result ℕ
next_energy_billing_tick tick interval_ticks = do
  t ← assert_safe_integer tick 0
  i ← assert_safe_integer interval_ticks 1
  let remainder = t % i
  let sum = add_numbers t i
  ok (if remainder == 0 then sum else add_numbers (sum - remainder) 0)

-- The input of `energyTariffForFuelPrice`, with the defaults filled in by the caller
pub record TariffInput : Type 0 where
  pub base_tariff_cents : ℤ
  pub reference_fuel_price_cents : ℤ
  pub fuel_price_cents : ℤ
  pub pass_through_bp : ℤ
  pub minimum_tariff_bp : ℤ
  pub maximum_tariff_bp : ℤ

unfoldable pub energy_tariff_for_fuel_price : TariffInput → Result ℤ
energy_tariff_for_fuel_price input = do
  throw_if
      (leb_ℤ input.base_tariff_cents (pos 0)
        || leb_ℤ input.reference_fuel_price_cents (pos 0)
        || leb_ℤ input.fuel_price_cents (pos 0))
      validation_failed
  pass_through ← assert_safe_integer input.pass_through_bp 0
  least_bp ← assert_safe_integer input.minimum_tariff_bp 1
  most_bp ← assert_safe_integer input.maximum_tariff_bp 1
  throw_if (ltb 10000 pass_through || ltb most_bp least_bp) validation_failed
  let fuel_delta = input.fuel_price_cents -ℤ input.reference_fuel_price_cents
  adjustment ←
      mul_div input.base_tariff_cents (fuel_delta *ℤ pos pass_through)
        (input.reference_fuel_price_cents *ℤ pos 10000) half_even
  rounded_minimum ← mul_div input.base_tariff_cents (pos least_bp) (pos 10000) ceil
  maximum ← mul_div input.base_tariff_cents (pos most_bp) (pos 10000) floor
  let minimum = if ltb_ℤ (pos 0) rounded_minimum then rounded_minimum else pos 1
  ok (clamp (input.base_tariff_cents +ℤ adjustment) minimum maximum)

-- The input of `changedFuelPrice`, with the defaults filled in by the caller
pub record FuelChange : Type 0 where
  pub current_fuel_price_cents : ℤ
  pub reference_fuel_price_cents : ℤ
  pub change_bp : ℤ
  pub minimum_fuel_price_bp : ℤ
  pub maximum_fuel_price_bp : ℤ

-- `Number.isSafeInteger(value)`
abbrev is_safe : ℤ → Bool
is_safe z = leb_ℤ (pos 0 -ℤ pos 9007199254740991) z && leb_ℤ z (pos 9007199254740991)

-- `10_000 + input.changeBp`
abbrev ten_thousand_plus : ℤ → ℤ
ten_thousand_plus (pos n) = pos (add_numbers 10000 n)
ten_thousand_plus z = pos 10000 +ℤ z

unfoldable pub changed_fuel_price : FuelChange → Result ℤ
changed_fuel_price input = do
  throw_if
      (leb_ℤ input.current_fuel_price_cents (pos 0)
        || leb_ℤ input.reference_fuel_price_cents (pos 0))
      validation_failed
  throw_if (if is_safe input.change_bp then leb_ℤ (input.change_bp +ℤ pos 10000) (pos 0) else true)
      validation_failed
  least_bp ← assert_safe_integer input.minimum_fuel_price_bp 1
  most_bp ← assert_safe_integer input.maximum_fuel_price_bp 1
  throw_if (ltb most_bp least_bp) validation_failed
  candidate ←
      mul_div input.current_fuel_price_cents (ten_thousand_plus input.change_bp) (pos 10000)
        half_even
  minimum ← mul_div input.reference_fuel_price_cents (pos least_bp) (pos 10000) half_even
  maximum ← mul_div input.reference_fuel_price_cents (pos most_bp) (pos 10000) half_even
  ok (clamp candidate minimum maximum)

unfoldable pub energy_bill_total : (unit_tariff units : ℤ) → Result ℤ
energy_bill_total unit_tariff units = do
  throw_if (leb_ℤ unit_tariff (pos 0)) validation_failed
  n ← assert_safe_integer units 1
  ok (unit_tariff *ℤ pos n)

pub data CustomerClass : Type 0 where
  household business : CustomerClass

abbrev pub fuel_per_unit : CustomerClass → ℕ
fuel_per_unit household = 100000
fuel_per_unit business = 250

unfoldable pub fuel_milliunits_for_delivery : CustomerClass → (units : ℤ) → Result ℕ
fuel_milliunits_for_delivery customer_class units = do
  n ← assert_safe_integer units 1
  safe_number (n * fuel_per_unit customer_class)

unfoldable pub fuel_purchase_total : (fuel_price fuel_milliunits : ℤ) → Result ℤ
fuel_purchase_total fuel_price fuel_milliunits = do
  throw_if (leb_ℤ fuel_price (pos 0)) validation_failed
  n ← assert_safe_integer fuel_milliunits 1
  total ← mul_div fuel_price (pos n) (pos 1000) half_even
  ok (if ltb_ℤ (pos 0) total then total else pos 1)
