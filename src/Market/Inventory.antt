-- ===== src/Market/Inventory.antt =====
-- What production, stock and sales guarantee.
use worldsimulator.Prelude.{
  ℕ, ◌+◌, ◌*◌, ◌/◌, ◌≤◌, ◌<◌, ◌≡◌, false, arith, ltb, ◌==◌, if◌then◌else◌, min,
}
use worldsimulator.Prelude.Int.{pos, quot-pos_pos, +ℤ-pos_pos, *ℤ-pos_pos}
use worldsimulator.Prelude.Results.{
  ok, err, conflict, ◌>>=◌, max_safe, safe_number, assert_safe_integer-pos, add_numbers-exact,
}
use worldsimulator.Money.Natural.{
  div_mod, mod_lt, round_magnitude, mul_div-natural, rounded_between,
}
use worldsimulator.Money.{half_even}
use worldsimulator.Market.{
  linear_production_units, inventory_after_production, inventory_after_sale, affordable_quantity,
  moving_average_unit_cost,
}

smaller_safe : (n c : ℕ) → c ≤ max_safe → safe_number (if ltb n c then n else c) ≡ ok (min n c)
unfolding safe_number
smaller_safe n c i = ground arith

quotient_bounds : (n d : ℕ) → 0 < d → (n / d ≤ n) × (d * (n / d) ≤ n) × (n < d * (n / d + 1))
quotient_bounds n d h = (
  le_of_product (n / d) d h (omega (arith, div_mod n d h)),
  omega (arith, div_mod n d h),
  omega (arith, div_mod n d h, mod_lt n d h),
)
  where
    le_of_product : {n : ℕ} (q d : ℕ) → 0 < d → q * d ≤ n → q ≤ n
    le_of_product q d h k = grind arith

-- For safe counts, each but the workers positive, production never fails and is the smaller of the
-- capacity and the thousandth part of workers times hours times productivity, rounded down.
pub linear_production_units_exact :
    (workers hours productivity capacity : ℕ)
    → workers ≤ max_safe
    → 1 ≤ hours
    → hours ≤ max_safe
    → 1 ≤ productivity
    → productivity ≤ max_safe
    → 1 ≤ capacity
    → capacity ≤ max_safe
    → linear_production_units (record {
      active_worker_count = pos workers;
      labor_hours_per_worker = pos hours;
      productivity_milliunits_per_labor_hour = pos productivity;
      capacity_units_per_tick = pos capacity;
    })
      ≡ ok (min (workers * hours * productivity / 1000) capacity)
unfolding linear_production_units
linear_production_units_exact w h p c a b d e f g i =
    rw
      (
        assert_safe_integer-pos w 0 (omega arith) a,
        assert_safe_integer-pos h 1 b d,
        assert_safe_integer-pos p 1 e f,
        assert_safe_integer-pos c 1 g i,
      )
      (smaller_safe (w * h * p / 1000) c i)

-- What is produced can be sold again: if the stock stays a safe integer, selling a positive
-- quantity after producing it gives the old stock back, and selling more than is then in stock
-- is a conflict.
pub sale-production :
    (stock produced more : ℕ)
    → 1 ≤ produced
    → stock + produced + more ≤ max_safe
    → (inventory_after_production (pos stock) (pos produced) >>= λ n.
          inventory_after_sale (pos n) (pos produced))
        ≡ ok stock
      × (1 ≤ more
          → (inventory_after_production (pos stock) (pos produced) >>= λ n.
              inventory_after_sale (pos n) (pos (n + more)))
            ≡ err conflict)
unfolding inventory_after_production inventory_after_sale safe_number
sale-production stock produced more h k = (
  ground (
    arith,
    assert_safe_integer-pos stock 0 (omega arith) (omega arith),
    assert_safe_integer-pos produced 0 (omega arith) (omega arith),
    assert_safe_integer-pos produced 1 (omega arith) (omega arith),
    assert_safe_integer-pos (stock + produced) 0 (omega arith) (omega arith),
  ),
  λ m. ground (
    arith,
    assert_safe_integer-pos stock 0 (omega arith) (omega arith),
    assert_safe_integer-pos produced 0 (omega arith) (omega arith),
    assert_safe_integer-pos (stock + produced + more) 1 (omega arith) (omega arith),
    assert_safe_integer-pos (stock + produced) 0 (omega arith) (omega arith),
  ),
)

-- The quantity that a budget affords is the largest one that it pays for: at the price it costs at
-- most the budget, and one more would cost more. It is returned if the budget is a safe number.
pub affordable_quantity_largest :
    (budget price : ℕ)
    → 0 < price
    → budget ≤ max_safe
    → (q : ℕ) × (affordable_quantity (pos budget) (pos price) ≡ ok q)
      × (price * q ≤ budget)
      × (budget < price * (q + 1))
unfolding affordable_quantity safe_number
affordable_quantity_largest budget price h k = (
  budget / price,
  rw (quot-pos_pos budget price h) (ground (arith, bounds.0)),
  bounds.1,
  bounds.2,
)
  where
    bounds :
        (budget / price ≤ budget)
        × (price * (budget / price) ≤ budget)
        × (budget < price * (budget / price + 1))
    bounds = quotient_bounds budget price h

-- With unit costs between two amounts, and a total quantity that is positive and safe, the moving
-- average is returned and is between the two amounts as well, rounded as it is.
pub moving_average_between :
    (low high held held_cost produced produced_cost : ℕ)
    → 0 < held + produced
    → held + produced ≤ max_safe
    → low ≤ held_cost
    → held_cost ≤ high
    → low ≤ produced_cost
    → produced_cost ≤ high
    → (average : ℕ) × (moving_average_unit_cost (record {
      current_quantity = pos held;
      current_average_unit_cost_cents = pos held_cost;
      produced_quantity = pos produced;
      produced_unit_cost_cents = pos produced_cost;
    })
        ≡ ok (pos average))
      × (low ≤ average)
      × (average ≤ high)
unfolding moving_average_unit_cost
moving_average_between low high m a n b h s la ha lb hb = (
  round_magnitude half_even false ((a * m + b * n) * 1) (m + n),
  rw
      (
        assert_safe_integer-pos m 0 (omega arith) (omega arith),
        assert_safe_integer-pos n 0 (omega arith) (omega arith),
        *ℤ-pos_pos a m,
        *ℤ-pos_pos b n,
        +ℤ-pos_pos (a * m) (b * n),
        add_numbers-exact m n s,
      )
      (rw (nonzero (m + n) h, mul_div-natural (a * m + b * n) 1 (m + n) half_even h)
        (ground arith)),
  between.0,
  between.1,
)
  where
    nonzero : (k : ℕ) → 0 < k → (k == 0) ≡ false
    nonzero k h = ground arith

    grows : (x y k : ℕ) → x ≤ y → x * k ≤ y * k
    grows x y k h = grind arith

    between :
        (low ≤ round_magnitude half_even false ((a * m + b * n) * 1) (m + n))
        × (round_magnitude half_even false ((a * m + b * n) * 1) (m + n) ≤ high)
    between =
        rounded_between low high ((a * m + b * n) * 1) (m + n) h
          (omega (arith, grows low a m la, grows low b n lb))
          (omega (arith, grows a high m ha, grows b high n hb))
