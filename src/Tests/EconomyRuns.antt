-- ===== src/Tests/EconomyRuns.antt =====
-- Prices, stocks, payroll, spending, liquidation and run histories at concrete inputs.
use worldsimulator.Prelude.{
  ◌-◌, ◌*◌, ℕ, ◌+◌, ◌≤◌, ◌<◌, ◌≡◌, refl, true, false, List, [], ◌∷◌, arith, length, ◌↔◌, get_or,
}
use mathlib.Core.List.{Perm}
use worldsimulator.Prelude.Int.{ℤ, pos, ◌≤ℤ◌, ◌<ℤ◌, ◌+ℤ◌, ◌-ℤ◌, sum_ℤ}
use worldsimulator.Prelude.Texts.{text_eq}
use worldsimulator.Prelude.Sort.{IsSorted, sort}
use worldsimulator.Prelude.Results.{ok, assert_safe_integer}
use worldsimulator.Market.{moving_average_unit_cost, affordable_quantity}
use worldsimulator.Market.Inventory.{affordable_quantity_largest, moving_average_between}
use worldsimulator.Finance.{
  PayrollQuote, quote_payroll, ExpenseRequest, food, utilities, rent, allocate_household_spending,
}
use worldsimulator.Finance.Payroll.{payroll_exact}
use worldsimulator.Finance.Spending.{Spends, approved_total, spending-Spends}
use worldsimulator.Insolvency.{
  Claim, Allocation, allocate_creditor_waterfall, claim_before, check_claims, pay_claims,
}
use worldsimulator.Insolvency.{Solvency, assess_company_solvency}
use worldsimulator.Insolvency.Distress.{solvency_exact}
use worldsimulator.Insolvency.Waterfall.{
  Drains, IsServed, recovered, least, amounts, waterfall-Drains,
}
use worldsimulator.RunLifecycle.{
  created, paused, RunCommand, start, pause, resume, transition_run_status, is_terminal_run_status,
}
use worldsimulator.RunLifecycle.Histories.{
  command_all, times, is_start, is_pause, is_resume, has_started, paused_now, history_balanced,
}

affordable_quantity_largest_example :
    (q : ℕ) × (affordable_quantity (pos 100) (pos 30) ≡ ok q)
    × (30 * q ≤ 100)
    × (100 < 30 * (q + 1))
affordable_quantity_largest_example = affordable_quantity_largest 100 30 (omega arith) (omega arith)

moving_average_between_example :
    (average : ℕ) × (moving_average_unit_cost (record {
      current_quantity = pos 3;
      current_average_unit_cost_cents = pos 10;
      produced_quantity = pos 4;
      produced_unit_cost_cents = pos 20;
    })
      ≡ ok (pos average))
    × (10 ≤ average)
    × (average ≤ 20)
moving_average_between_example =
    moving_average_between 10 20 3 10 4 20 (omega arith) (omega arith) (omega arith) (omega arith)
      (omega arith) (omega arith)

payroll_exact_example :
    (parts : List ℤ) × (length parts ≡ 24)
    × (sum_ℤ parts ≡ pos 5000000)
    × ((i : ℕ)
        → i < 24
        → (q : PayrollQuote) × (gross withheld : ℕ) × (quote_payroll
              (pos 5000000)
              (pos i)
              (pos 1800)
            ≡ ok q)
          × (q.gross_cents ≡ get_or parts i (pos 0))
          × (q.gross_cents ≡ pos gross)
          × (q.withholding_cents ≡ pos withheld)
          × (withheld ≤ gross)
          × (q.net_cents ≡ pos (gross - withheld)))
payroll_exact_example = payroll_exact 5000000 1800 (omega arith)

abbrev requests : List ExpenseRequest
requests =
    record { category = food; requested_cents = pos 40; essential = true }
    ∷ record { category = utilities; requested_cents = pos 90; essential = true }
    ∷ record { category = rent; requested_cents = pos 80; essential = true }
    ∷ []

spending-Spends_example :
    Spends (pos 100) requests (allocate_household_spending (pos 100) requests)
    × (pos 0 ≤ℤ pos 100
        → approved_total (allocate_household_spending (pos 100) requests) ≤ℤ pos 100)
    × (pos 100 <ℤ pos 0 → approved_total (allocate_household_spending (pos 100) requests) ≤ℤ pos 0)
spending-Spends_example =
    spending-Spends (pos 100) requests (omega arith, (omega arith, (omega arith, tt)))

abbrev trade_claim : Claim
trade_claim = record {
  id = b't' ∷ [];
  seniority = pos 40;
  registered_tick = pos 1;
  amount_cents = pos 70;
}

abbrev wage_claim : Claim
wage_claim = record {
  id = b'w' ∷ [];
  seniority = pos 10;
  registered_tick = pos 2;
  amount_cents = pos 60;
}

abbrev allocations : List Allocation
allocations =
    record { claim_id = b'w' ∷ []; recovered_cents = pos 60; written_off_cents = pos 0 }
    ∷ record { claim_id = b't' ∷ []; recovered_cents = pos 40; written_off_cents = pos 30 }
    ∷ []

liquidated : allocate_creditor_waterfall (pos 100) (trade_claim ∷ wage_claim ∷ []) ≡ ok allocations
unfolding allocate_creditor_waterfall check_claims pay_claims sort assert_safe_integer text_eq
    claim_before ◌-ℤ◌ ◌+ℤ◌
liquidated = refl

waterfall-Drains_example :
    (ordered : List Claim) × Perm ordered (trade_claim ∷ wage_claim ∷ [])
    × IsSorted claim_before ordered
    × IsServed ordered
    × Drains (pos 100) ordered allocations
    × (recovered allocations ≡ least (pos 100) (amounts ordered))
waterfall-Drains_example = waterfall-Drains (pos 100) (trade_claim ∷ wage_claim ∷ []) liquidated

abbrev commands : List RunCommand
commands = start ∷ pause ∷ resume ∷ pause ∷ []

commanded : command_all created commands ≡ ok paused
unfolding transition_run_status
commanded = refl

history_balanced_example :
    (times is_start commands ≡ has_started paused)
    × (is_terminal_run_status paused ≡ false
        → times is_pause commands ≡ times is_resume commands + paused_now paused)
history_balanced_example = history_balanced commands commanded

solvency_exact_example :
    (s : Solvency) × (assess_company_solvency (pos 40) (pos 100) (pos 29) (pos 30) ≡ ok s)
    × (s.shortfall_cents ≡ pos (100 - 40))
    × (40 < 100 → s.consecutive_shortfall_days ≡ 29 + 1)
    × (100 ≤ 40 → s.consecutive_shortfall_days ≡ 0)
    × ((s.insolvent ≡ true) ↔ ((40 < 100) × (30 ≤ 29 + 1)))
solvency_exact_example = solvency_exact 40 100 29 30 (omega arith) (omega arith) (omega arith)
