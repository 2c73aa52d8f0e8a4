-- ===== src/Energy/Billing.antt =====
-- When a customer is billed next.
use worldsimulator.Prelude.{
  ℕ, ◌+◌, ◌-◌, ◌*◌, ◌/◌, ◌%◌, ◌≤◌, ◌<◌, ◌≡◌, true, false, ◌&&◌, arith, ltb, ◌==◌, if◌then◌else◌,
  Bool-cases, inl, inr, ap, ◌∙◌,
}
use native.Mathlib.Nat.{mul-mod_left}
use worldsimulator.Prelude.Int.{pos}
use worldsimulator.Prelude.Results.{ok, max_safe, assert_safe_integer-pos, add_numbers-exact}
use worldsimulator.Money.Natural.{div_mod, mod_lt}
use worldsimulator.Energy.{energy_billing_cycle_due, next_energy_billing_tick}

due-pos :
    (tick interval : ℕ)
    → tick ≤ max_safe
    → 1 ≤ interval
    → interval ≤ max_safe
    → energy_billing_cycle_due (pos tick) (pos interval) ≡ ok (ltb 0 tick && tick % interval == 0)
unfolding energy_billing_cycle_due
due-pos tick interval h one most =
    rw (assert_safe_integer-pos tick 0 (omega arith) h, assert_safe_integer-pos interval 1 one most)

abbrev next_of : (tick interval : ℕ) → ℕ
next_of tick interval =
    if tick % interval == 0 then tick + interval else tick + interval - tick % interval

-- The next multiple of the interval, and where it lies.
next_of-multiple :
    (tick interval : ℕ) → 1 ≤ interval → next_of tick interval ≡ (tick / interval + 1) * interval
next_of-multiple tick interval h = elim (Bool-cases (tick % interval == 0)) [
  | inl exact ↦ rw exact (ground (arith, div_mod tick interval h))
  | inr inexact ↦ rw inexact (omega (arith, div_mod tick interval h, mod_lt tick interval h))
]

multiple_mod : (q i : ℕ) → 1 ≤ i → q * i % i ≡ 0
multiple_mod q i h = mul-mod_left q i

between_multiples : (t q i : ℕ) → 1 ≤ i → q * i < t → t < (q + 1) * i → (t % i == 0) ≡ false
between_multiples t q i h a b = elim (Bool-cases (t % i == 0)) [
  | inl exact ↦
      let whole : t ≡ t / i * i = omega (arith, div_mod t i h, at_zero exact) in
      absurd (no_quotient q (t / i) i (omega arith) (omega arith))
  | inr inexact ↦ inexact
]
  where
    at_zero : (t % i == 0) ≡ true → t % i ≡ 0
    at_zero e = ground arith

    no_quotient : (q r i : ℕ) → q * i < r * i → r * i < (q + 1) * i → ⊥
    no_quotient q r i a b = order (less q r i a) (less r (q + 1) i b)
      where
        less : (x y i : ℕ) → x * i < y * i → x < y
        less x y i a = grind arith

        order : q < r → r < q + 1 → ⊥
        order a b = omega arith

-- For a safe tick and a positive interval whose sum is safe, the next billing tick is returned. It
-- is later, by at most one interval, a bill is due at it, and none is due at any tick between.
pub next_billing_first :
    (tick interval : ℕ)
    → 1 ≤ interval
    → tick + interval ≤ max_safe
    → (next : ℕ) × (next_energy_billing_tick (pos tick) (pos interval) ≡ ok next)
      × (tick < next)
      × (next ≤ tick + interval)
      × (energy_billing_cycle_due (pos next) (pos interval) ≡ ok true)
      × ((t : ℕ) → tick < t → t < next → energy_billing_cycle_due (pos t) (pos interval) ≡ ok false)
unfolding next_energy_billing_tick
next_billing_first tick interval h k =
    let place = next_of-multiple tick interval h in
    let late : tick < next_of tick interval =
      omega (arith, place, div_mod tick interval h, mod_lt tick interval h) in
    let soon : next_of tick interval ≤ tick + interval =
      omega (arith, place, div_mod tick interval h) in
    (
      next_of tick interval,
      rw
          (
            assert_safe_integer-pos tick 0 (omega arith) (omega arith),
            assert_safe_integer-pos interval 1 h (omega arith),
            add_numbers-exact tick interval k,
            add_numbers-exact (tick + interval - tick % interval) 0 (omega arith),
          )
          (ground arith),
      late,
      soon,
      due-pos (next_of tick interval) interval (omega arith) h (omega arith)
          ∙ ap ok (
              is_due (next_of tick interval) (omega arith)
                (ap (λ n. n % interval) place ∙ multiple_mod (tick / interval + 1) interval h)),
      λ t a b.
          due-pos t interval (omega arith) h (omega arith)
          ∙ ap ok (
              is_none t (
                between_multiples t (tick / interval) interval h
                  (omega (arith, div_mod tick interval h)) (omega (arith, place)))),
    )
  where
    is_due : (n : ℕ) → 0 < n → n % interval ≡ 0 → (ltb 0 n && n % interval == 0) ≡ true
    is_due n a b = ground arith

    is_none : (n : ℕ) → (n % interval == 0) ≡ false → (ltb 0 n && n % interval == 0) ≡ false
    is_none n b = ground arith
