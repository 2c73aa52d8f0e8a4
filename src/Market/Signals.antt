-- ===== src/Market/Signals.antt =====
-- What the signal of a weekly price review says of the sales, the stock and the unfilled demand.
use worldsimulator.Prelude.{
  ℕ, ◌+◌, ◌*◌, ◌/◌, zero, suc, ltb, ◌⊎◌, ◌%◌, ◌≤◌, ◌<◌, ◌≡◌, refl, true, false, Option, none, some,
  arith, ◌==◌, if◌then◌else◌, min, Bool-cases, inl, inr,
}
use worldsimulator.Prelude.Results.{max_safe}
use worldsimulator.Money.Natural.{div_mod, mod_lt}
use worldsimulator.Market.{
  Signal, bound_correction, stockout, low_inventory, balanced, excess_inventory, no_sales,
  no_activity, signal_of,
}

abbrev pub IsPriced : (price low high : ℕ) → Type 0
IsPriced price low high = (low ≤ price) × (price ≤ high)

-- What a signal says of the week: its price against the bounds, its sales, its stock and the demand
-- that it left unfilled. The stock is low below half of the sales, in excess above twice the sales
-- by more than what rounding down to a basis point hides.
abbrev pub Reads : Signal → (price low high inventory sold unfilled : ℕ) → Type 0
Reads bound_correction price low high inventory sold unfilled = price < low ⊎ high < price
Reads stockout price low high inventory sold unfilled = IsPriced price low high × (0 < unfilled)
Reads low_inventory price low high inventory sold unfilled =
    IsPriced price low high × (unfilled ≡ 0) × (0 < sold) × (inventory * 2 < sold)
Reads excess_inventory price low high inventory sold unfilled =
    IsPriced price low high × (unfilled ≡ 0) × (0 < sold) × (20001 * sold ≤ inventory * 10000)
Reads balanced price low high inventory sold unfilled =
    IsPriced price low high
    × (unfilled ≡ 0)
    × (0 < sold)
    × (sold ≤ inventory * 2)
    × (inventory * 10000 < 20001 * sold)
Reads no_sales price low high inventory sold unfilled =
    IsPriced price low high × (unfilled ≡ 0) × (sold ≡ 0) × (0 < inventory)
Reads no_activity price low high inventory sold unfilled =
    IsPriced price low high × (unfilled ≡ 0) × (sold ≡ 0) × (inventory ≡ 0)

-- The ratio of a week with sales, rounded down to a basis point and capped.
abbrev pub ratio_of : (inventory sold : ℕ) → ℕ
ratio_of inventory sold = min (inventory * 10000 / sold) max_safe

times_le : (a b c : ℕ) → a ≤ b → a * c ≤ b * c
times_le a b c h = grind arith

-- A ratio read as a bound on the stock.
ratio_bounds :
    (k inventory sold : ℕ)
    → 0 < sold
    → (k + 1 ≤ inventory * 10000 / sold → (k + 1) * sold ≤ inventory * 10000)
      × (inventory * 10000 / sold ≤ k → inventory * 10000 < (k + 1) * sold)
ratio_bounds k inventory sold h = (
  λ low. omega (arith, times_le (k + 1) (inventory * 10000 / sold) sold low, whole),
  λ high. omega (arith, times_le (inventory * 10000 / sold) k sold high, whole, part, next),
)
  where
    whole : inventory * 10000 ≡ inventory * 10000 / sold * sold + inventory * 10000 % sold
    whole = div_mod (inventory * 10000) sold h

    part : inventory * 10000 % sold < sold
    part = mod_lt (inventory * 10000) sold h

    next : (k + 1) * sold ≡ k * sold + sold
    next = grind arith

sales_signal :
    (price low high inventory sold : ℕ)
    → IsPriced price low high
    → 0 < sold
    → Reads (signal_of (some (ratio_of inventory sold)) inventory 0) price low high inventory sold 0
unfolding signal_of
sales_signal price low high inventory sold within h =
    elim (Bool-cases (ltb (ratio_of inventory sold) 5000)) [
      | inl scarce ↦
          let q : inventory * 10000 / sold ≤ 4999 = ground arith in
          rw scarce (within, refl, h, omega (arith, (ratio_bounds 4999 inventory sold h).1 q))
      | inr stocked ↦
          let q : 4999 + 1 ≤ inventory * 10000 / sold = ground arith in
          let enough = (ratio_bounds 4999 inventory sold h).0 q in
          elim (Bool-cases (ltb 20000 (ratio_of inventory sold))) [
            | inl plenty ↦
                let q' : 20000 + 1 ≤ inventory * 10000 / sold = ground arith in
                rw (stocked, plenty)
                  (within, refl, h, omega (arith, (ratio_bounds 20000 inventory sold h).0 q'))
            | inr moderate ↦
                let q' : inventory * 10000 / sold ≤ 20000 = ground arith in
                rw (stocked, moderate)
                  (
                    within,
                    refl,
                    h,
                    omega (arith, enough),
                    omega (arith, (ratio_bounds 20000 inventory sold h).1 q'),
                  )
          ]
    ]

-- The signal of a price within its bounds is read off the week.
pub signal_of-Reads :
    (price low high inventory sold unfilled : ℕ)
    → IsPriced price low high
    → Reads
        (signal_of (if sold == 0 then none else some (ratio_of inventory sold)) inventory unfilled)
        price
        low
        high
        inventory
        sold
        unfilled
unfolding signal_of
signal_of-Reads price low high inventory sold (suc unfilled) within =
    short (if sold == 0 then none else some (ratio_of inventory sold))
  where
    asked : ltb 0 (suc unfilled) ≡ true
    asked = ground arith

    short :
        (ratio : Option ℕ)
        → Reads
            (signal_of ratio inventory (suc unfilled))
            price
            low
            high
            inventory
            sold
            (suc unfilled)
    short none = rw asked (within, omega arith)
    short (some r) = rw asked (within, omega arith)
signal_of-Reads price low high inventory (suc sold) zero within =
    let some_sold : (suc sold == 0) ≡ false = ground arith in
    rw some_sold (sales_signal price low high inventory (suc sold) within (omega arith))
signal_of-Reads price low high zero zero zero within = (within, refl, refl, refl)
signal_of-Reads price low high (suc inventory) zero zero within =
    let some_stock : ltb 0 (suc inventory) ≡ true = ground arith in
    rw some_stock (within, refl, refl, omega arith)
