-- ===== src/Insolvency/Distress.antt =====
-- When a company is insolvent, and what its stock fetches.
use worldsimulator.Prelude.{
  ℕ, ◌+◌, ◌-◌, ◌*◌, ◌/◌, ◌≤◌, ◌<◌, ◌≡◌, refl, ◌↔◌, true, arith, ltb, leb, if◌then◌else◌, max,
  Bool-cases, inl, inr,
}
use worldsimulator.Prelude.Int.{pos, -ℤ-pos_pos, ltb_ℤ}
use worldsimulator.Prelude.Results.{ok, max_safe, assert_safe_integer-pos}
use worldsimulator.Money.{floor}
use worldsimulator.Money.Natural.{mul_div-natural, round_magnitude-floor}
use worldsimulator.Insolvency.{Solvency, assess_company_solvency, inventory_salvage_unit_price}

abbrev assessment : (cash obligation prior threshold : ℕ) → Solvency
assessment cash obligation prior threshold =
    let days = if ltb cash obligation then prior + 1 else 0 in
    record {
      cash_cents = pos cash;
      obligation_cents = pos obligation;
      shortfall_cents = pos (obligation - cash);
      consecutive_shortfall_days = days;
      insolvent = leb threshold days;
    }

same_test : (a b : ℕ) → ltb_ℤ (pos a) (pos b) ≡ ltb a b
same_test a b = ground arith

positive_gap :
    (cash obligation : ℕ) → cash < obligation → ltb_ℤ (pos 0) (pos (obligation - cash)) ≡ true
positive_gap cash obligation h = ground arith

no_gap : (cash obligation : ℕ) → obligation ≤ cash → obligation - cash ≡ 0
no_gap cash obligation h = omega arith

assessed :
    (cash obligation prior threshold : ℕ)
    → prior < max_safe
    → 1 ≤ threshold
    → threshold ≤ max_safe
    → assess_company_solvency (pos cash) (pos obligation) (pos prior) (pos threshold)
      ≡ ok (assessment cash obligation prior threshold)
unfolding assess_company_solvency
assessed cash obligation prior threshold h one most = elim (Bool-cases (ltb cash obligation)) [
  | inl short ↦
      rw
        (
          assert_safe_integer-pos prior 0 (omega arith) (omega arith),
          assert_safe_integer-pos threshold 1 one most,
          same_test cash obligation,
          short,
          -ℤ-pos_pos obligation cash (ground arith),
          positive_gap cash obligation (ground arith),
          assert_safe_integer-pos (prior + 1) 0 (omega arith) (omega arith),
        )
        (ground arith)
  | inr enough ↦
      rw
        (
          assert_safe_integer-pos prior 0 (omega arith) (omega arith),
          assert_safe_integer-pos threshold 1 one most,
          same_test cash obligation,
          enough,
          no_gap cash obligation (ground arith),
          assert_safe_integer-pos 0 0 (omega arith) (omega arith),
        )
        (ground arith)
]

-- For amounts that are not negative, a count of days below the largest safe integer and a positive
-- safe threshold a company is assessed. Its shortfall is what its cash lacks; a day with a
-- shortfall adds one to the run of such days and any other day ends it; and it is insolvent
-- exactly when there is a shortfall and the run has reached the threshold.
pub solvency_exact :
    (cash obligation prior threshold : ℕ)
    → prior < max_safe
    → 1 ≤ threshold
    → threshold ≤ max_safe
    → (s : Solvency) × (assess_company_solvency
          (pos cash)
          (pos obligation)
          (pos prior)
          (pos threshold)
        ≡ ok s)
      × (s.shortfall_cents ≡ pos (obligation - cash))
      × (cash < obligation → s.consecutive_shortfall_days ≡ prior + 1)
      × (obligation ≤ cash → s.consecutive_shortfall_days ≡ 0)
      × ((s.insolvent ≡ true) ↔ ((cash < obligation) × (threshold ≤ prior + 1)))
solvency_exact cash obligation prior threshold h one most = (
  assessment cash obligation prior threshold,
  assessed cash obligation prior threshold h one most,
  refl,
  λ k. ground arith,
  λ k. ground arith,
  (λ e. ground arith, λ e. ground arith),
)

-- For a positive reference price and a rate of 1 to 10000 basis points a salvage price is returned:
-- that share of the reference price, rounded down, but at least one cent; so it is positive and
-- never above the reference price.
pub salvage_bounds :
    (reference rate : ℕ)
    → 0 < reference
    → 1 ≤ rate
    → rate ≤ 10000
    → (price : ℕ) × (inventory_salvage_unit_price (pos reference) (pos rate) ≡ ok (pos price))
      × (price ≡ max 1 (reference * rate / 10000))
      × (price ≤ reference)
unfolding inventory_salvage_unit_price
salvage_bounds reference rate h one most = (
  max 1 (reference * rate / 10000),
  rw
      (
        assert_safe_integer-pos rate 1 one (omega arith),
        mul_div-natural reference rate 10000 floor (omega arith),
        round_magnitude-floor (reference * rate) 10000,
      )
      (ground arith),
  refl,
  share_small (reference * rate / 10000) h (share_bound reference rate most),
)
  where
    share_bound : (n r : ℕ) → r ≤ 10000 → n * r / 10000 ≤ n
    share_bound n r k = let most : n * r ≤ n * 10000 = grind arith in omega arith

    share_small : {n : ℕ} (q : ℕ) → 0 < n → q ≤ n → max 1 q ≤ n
    share_small q a b = omega arith
