-- ===== src/Market.antt =====
-- packages/engine/src/market-rules.ts: production, inventory and posted prices. The two guards on
-- numbers, `assertSafeInteger` and `safeNumber`, are among the results of the prelude.
pub mod Inventory
pub mod Signals
pub mod Prices
use worldsimulator.Prelude.{
  ℕ, ◌+◌, ◌-◌, ◌*◌, ◌/◌, ◌%◌, ◌^◌, Bool, true, false, ◌&&◌, ◌||◌, List, Option, none, some, ltb,
  leb, ◌==◌, if◌then◌else◌, min,
}
use worldsimulator.Prelude.Int.{ℤ, pos, ◌+ℤ◌, ◌-ℤ◌, ◌*ℤ◌, quot, ltb_ℤ, leb_ℤ, eqb_ℤ}
use worldsimulator.Prelude.Decimal.{Text, integer_of}
use worldsimulator.Prelude.Texts.{text_before}
use worldsimulator.Prelude.Sort.{sort}
use worldsimulator.Prelude.Results.{
  validation_failed, conflict, Result, ok, err, ◌>>=◌, ◌>>◌, throw_if, max_safe,
  assert_safe_integer, safe_number, add_numbers,
}
use worldsimulator.Money.{half_even, mul_div}

pub data Signal : Type 0 where
  bound_correction stockout low_inventory balanced excess_inventory no_sales : Signal
  no_activity : Signal

pub record Bounds : Type 0 where
  pub minimum_cents : ℤ
  pub maximum_cents : ℤ

pub record WeeklyResult : Type 0 where
  pub bounds : Bounds
  pub new_price_cents : ℤ
  pub inventory_sales_ratio_bp : Option ℕ
  pub signal : Signal

pub record Production : Type 0 where
  pub active_worker_count : ℤ
  pub labor_hours_per_worker : ℤ
  pub productivity_milliunits_per_labor_hour : ℤ
  pub capacity_units_per_tick : ℤ

unfoldable pub linear_production_units : Production → Result ℕ
unfolding assert_safe_integer safe_number
linear_production_units input = do
  workers ← assert_safe_integer input.active_worker_count 0
  hours ← assert_safe_integer input.labor_hours_per_worker 1
  productivity ← assert_safe_integer input.productivity_milliunits_per_labor_hour 1
  capacity ← assert_safe_integer input.capacity_units_per_tick 1
  let labor_bound = workers * hours * productivity / 1000
  safe_number (if ltb labor_bound capacity then labor_bound else capacity)

unfoldable pub inventory_after_production : (current produced : ℤ) → Result ℕ
unfolding assert_safe_integer safe_number
inventory_after_production current produced = do
  c ← assert_safe_integer current 0
  p ← assert_safe_integer produced 0
  safe_number (c + p)

unfoldable pub inventory_after_sale : (current sold : ℤ) → Result ℕ
unfolding assert_safe_integer
inventory_after_sale current sold = do
  c ← assert_safe_integer current 0
  s ← assert_safe_integer sold 1
  throw_if (ltb c s) conflict
  ok (c - s)

pub record Stock : Type 0 where
  pub current_quantity : ℤ
  pub current_average_unit_cost_cents : ℤ
  pub produced_quantity : ℤ
  pub produced_unit_cost_cents : ℤ

unfoldable pub moving_average_unit_cost : Stock → Result ℤ
unfolding assert_safe_integer add_numbers
moving_average_unit_cost input = do
  current ← assert_safe_integer input.current_quantity 0
  produced ← assert_safe_integer input.produced_quantity 0
  throw_if
      (ltb_ℤ input.current_average_unit_cost_cents (pos 0)
        || ltb_ℤ input.produced_unit_cost_cents (pos 0))
      validation_failed
  let total_quantity = add_numbers current produced
  let total_cost =
      input.current_average_unit_cost_cents *ℤ pos current
      +ℤ input.produced_unit_cost_cents *ℤ pos produced
  if total_quantity == 0
      then ok (pos 0)
      else mul_div total_cost (pos 1) (pos total_quantity) half_even

unfoldable pub posted_price_total : (unit_price quantity : ℤ) → Result ℤ
unfolding assert_safe_integer
posted_price_total unit_price quantity = do
  q ← assert_safe_integer quantity 1
  throw_if (leb_ℤ unit_price (pos 0)) validation_failed
  ok (unit_price *ℤ pos q)

-- `safeNumber` at a bigint, which the caller has made nonnegative
abbrev safe_number_ℤ : ℤ → Result ℕ
safe_number_ℤ (pos n) = safe_number n
safe_number_ℤ _ = err validation_failed

unfoldable pub affordable_quantity : (budget unit_price : ℤ) → Result ℕ
unfolding safe_number
affordable_quantity budget unit_price = do
  throw_if (ltb_ℤ budget (pos 0)) validation_failed
  throw_if (leb_ℤ unit_price (pos 0)) validation_failed
  safe_number_ℤ (quot budget unit_price)

pub record Offering : Type 0 where
  pub id : Text
  pub posted_price_cents : Text

-- The comparator: the lower price first, then the smaller id.
unfoldable pub offering_before : Offering → Offering → Bool
offering_before left right =
    let a = integer_of left.posted_price_cents in
    let b = integer_of right.posted_price_cents in
    if ltb_ℤ (a -ℤ b) (pos 0)
    then true
    else if ltb_ℤ (pos 0) (a -ℤ b)
    then false
    else text_before left.id right.id

unfoldable pub sort_posted_price_offerings : List Offering → List Offering
unfolding sort
sort_posted_price_offerings = sort offering_before

unfoldable pub market_price_bounds : ℤ → Result Bounds
market_price_bounds unit_cost = do
  throw_if (leb_ℤ unit_cost (pos 0)) validation_failed
  ok (record {
    minimum_cents = unit_cost;
    maximum_cents = quot (unit_cost *ℤ pos 15000) (pos 10000);
  })

unfoldable pub assert_market_price_within_bounds : (price unit_cost : ℤ) → Result ℤ
unfolding market_price_bounds
assert_market_price_within_bounds price unit_cost = do
  bounds ← market_price_bounds unit_cost
  throw_if (ltb_ℤ price bounds.minimum_cents || ltb_ℤ bounds.maximum_cents price) validation_failed
  ok price

unfoldable pub inventory_sales_ratio_basis_points : (inventory sold : ℤ) → Result (Option ℕ)
unfolding assert_safe_integer
inventory_sales_ratio_basis_points inventory sold = do
  i ← assert_safe_integer inventory 0
  s ← assert_safe_integer sold 0
  ok (if s == 0 then none else some (min (i * 10000 / s) max_safe))

unfoldable pub market_price_review_due : (created_tick tick : ℤ) → Result Bool
unfolding assert_safe_integer
market_price_review_due created_tick tick = do
  c ← assert_safe_integer created_tick 0
  t ← assert_safe_integer tick 0
  ok (ltb c t && (t - c) % 7 == 0)

unfoldable pub clamp_price : ℤ → Bounds → ℤ
clamp_price price bounds =
    if ltb_ℤ price bounds.minimum_cents
    then bounds.minimum_cents
    else if ltb_ℤ bounds.maximum_cents price
    then bounds.maximum_cents
    else price

pub data Direction : Type 0 where
  increase decrease unchanged : Direction

-- The last lines of `steppedPrice`: at least one cent in the direction.
abbrev pub at_least_one : (rounded current : ℤ) → Direction → ℤ
at_least_one rounded current increase =
    if leb_ℤ rounded current then (current +ℤ pos 1) else rounded
at_least_one rounded current decrease =
    if leb_ℤ current rounded then (current -ℤ pos 1) else rounded
at_least_one rounded current unchanged = rounded

abbrev pub factor_of : Direction → ℤ
factor_of increase = pos 10500
factor_of _ = pos 9500

-- The candidate price: `steppedPrice` unless the direction is `unchanged`.
unfoldable pub stepped_price : ℤ → Direction → Result ℤ
stepped_price current unchanged = ok current
stepped_price current direction =
    mul_div current (factor_of direction) (pos 10000) half_even >>= λ rounded.
    ok (at_least_one rounded current direction)

unfoldable pub signal_of : (ratio : Option ℕ) → (inventory unfilled : ℕ) → Signal
signal_of none inventory unfilled =
    if ltb 0 unfilled then stockout else if ltb 0 inventory then no_sales else no_activity
signal_of (some ratio) inventory unfilled =
    if ltb 0 unfilled
    then stockout
    else if ltb ratio 5000
    then low_inventory
    else if ltb 20000 ratio
    then excess_inventory
    else balanced

unfoldable pub direction_of : Signal → Direction
direction_of stockout = increase
direction_of low_inventory = increase
direction_of no_sales = decrease
direction_of excess_inventory = decrease
direction_of _ = unchanged

pub record Week : Type 0 where
  pub current_price_cents : ℤ
  pub unit_cost_cents : ℤ
  pub inventory_quantity : ℤ
  pub units_sold : ℤ
  pub unfilled_units : ℤ

-- The part of `weeklyMarketPriceAdjustment` after the correction of a price out of bounds
abbrev pub adjust :
    (price : ℤ) → Bounds → (ratio : Option ℕ) → (inventory unfilled : ℕ) → Result WeeklyResult
adjust price bounds ratio inventory unfilled = do
  let signal = signal_of ratio inventory unfilled
  candidate ← stepped_price price (direction_of signal)
  ok (record {
    bounds = bounds;
    new_price_cents = clamp_price candidate bounds;
    inventory_sales_ratio_bp = ratio;
    signal = signal;
  })

unfoldable pub weekly_market_price_adjustment : Week → Result WeeklyResult
unfolding assert_safe_integer market_price_bounds inventory_sales_ratio_basis_points clamp_price
    signal_of direction_of stepped_price
weekly_market_price_adjustment input = do
  throw_if (leb_ℤ input.current_price_cents (pos 0)) validation_failed
  inventory ← assert_safe_integer input.inventory_quantity 0
  sold ← assert_safe_integer input.units_sold 0
  unfilled ← assert_safe_integer input.unfilled_units 0
  bounds ← market_price_bounds input.unit_cost_cents
  let bounded_current = clamp_price input.current_price_cents bounds
  ratio ← inventory_sales_ratio_basis_points input.inventory_quantity input.units_sold
  if eqb_ℤ bounded_current input.current_price_cents
      then adjust input.current_price_cents bounds ratio inventory unfilled
      else ok (record {
        bounds = bounds;
        new_price_cents = bounded_current;
        inventory_sales_ratio_bp = ratio;
        signal = bound_correction;
      })
