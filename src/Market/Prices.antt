-- ===== src/Market/Prices.antt =====
-- How posted prices move from week to week.
use worldsimulator.Prelude.{
  ℕ, ◌+◌, ◌-◌, ◌*◌, ◌/◌, ◌≤◌, ◌<◌, ◌≡◌, ◌≢◌, false, Option, none, some, ◌==◌, if◌then◌else◌, min,
  max,
}
use worldsimulator.Prelude.Int.{pos}
use worldsimulator.Prelude.Results.{max_safe}
use worldsimulator.Money.{half_even}
use worldsimulator.Money.Natural.{round_magnitude}
use worldsimulator.Market.{
  Bounds, Signal, bound_correction, stockout, low_inventory, balanced, excess_inventory, no_sales,
  no_activity, Direction, increase, decrease, unchanged, Week, signal_of, direction_of,
}
use worldsimulator.Market.Signals.{ratio_of}

-- The price that a step of one twentieth leads to: at least one cent up or down.
abbrev pub step_of : ℕ → Direction → ℕ
step_of p increase = max (p + 1) (round_magnitude half_even false (p * 10500) 10000)
step_of p decrease = min (p - 1) (round_magnitude half_even false (p * 9500) 10000)
step_of p unchanged = p

abbrev pub highest : ℕ → ℕ
highest cost = cost * 15000 / 10000

-- The bounds of a positive unit cost.
abbrev pub bounds_of : ℕ → Bounds
bounds_of cost = record { minimum_cents = pos cost; maximum_cents = pos (highest cost) }

-- What a signal says of the move from `old` to `new` between the two bounds.
abbrev pub Moves : Signal → (low high old new : ℕ) → Type 0
Moves bound_correction low high old new =
    (old < low → new ≡ low) × (high < old → new ≡ high) × (old ≢ new)
Moves stockout low high old new = (old ≤ new) × (old < high → old < new)
Moves low_inventory low high old new = (old ≤ new) × (old < high → old < new)
Moves excess_inventory low high old new = (new ≤ old) × (low < old → new < old)
Moves no_sales low high old new = (new ≤ old) × (low < old → new < old)
Moves balanced low high old new = new ≡ old
Moves no_activity low high old new = new ≡ old

-- The price of next week when the current one is within the bounds.
abbrev next_price : (cost price : ℕ) → Signal → ℕ
next_price cost price signal = max cost (min (step_of price (direction_of signal)) (highest cost))

module _ (price cost inventory sold unfilled : ℕ) (h : 0 < price) (c : 0 < cost)
    (i : inventory ≤ max_safe) (s : sold ≤ max_safe) (u : unfilled ≤ max_safe) where
  abbrev ratio_of_week : Option ℕ
  ratio_of_week = if sold == 0 then none else some (ratio_of inventory sold)

  abbrev week : Week
  week = record {
    current_price_cents = pos price;
    unit_cost_cents = pos cost;
    inventory_quantity = pos inventory;
    units_sold = pos sold;
    unfilled_units = pos unfilled;
  }

  abbrev clamped : ℕ
  clamped = max cost (min price (highest cost))

  abbrev week_signal : Signal
  week_signal = signal_of ratio_of_week inventory unfilled

  abbrev next_week : ℕ
  next_week = next_price cost price week_signal
