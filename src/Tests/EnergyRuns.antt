-- ===== src/Tests/EnergyRuns.antt =====
-- Bills, tariffs and fund deployments at concrete inputs.
use worldsimulator.Prelude.{ℕ, ◌+◌, ◌*◌, ◌≤◌, ◌<◌, ◌≡◌, refl, true, false, arith}
use worldsimulator.Prelude.Int.{pos}
use worldsimulator.Prelude.Results.{ok, bounded}
use worldsimulator.Prelude.Decimal.{print, natural_of, is_positive_text}
use worldsimulator.Prelude.Texts.{codes}
use worldsimulator.Venture.{
  RoundTerms, RoundQuote, quote_priced_round, cents, signed_sqlite_maximum, Fund,
}
use worldsimulator.Venture.Rounds.{Balances, quote_priced_round-Balances}
use worldsimulator.Energy.{
  energy_billing_cycle_due, next_energy_billing_tick, energy_tariff_for_fuel_price,
}
use worldsimulator.Energy.Billing.{next_billing_first}
use worldsimulator.Energy.Tariffs.{default_tariff, tariff_bounds}

next_billing_first_example :
    (next : ℕ) × (next_energy_billing_tick (pos 47) (pos 30) ≡ ok next)
    × (47 < next)
    × (next ≤ 47 + 30)
    × (energy_billing_cycle_due (pos next) (pos 30) ≡ ok true)
    × ((t : ℕ) → 47 < t → t < next → energy_billing_cycle_due (pos t) (pos 30) ≡ ok false)
next_billing_first_example = next_billing_first 47 30 (omega arith) (omega arith)

tariff_bounds_example :
    (tariff : ℕ) × (energy_tariff_for_fuel_price (default_tariff 51 100 330) ≡ ok (pos tariff))
    × (0 < tariff)
    × (51 ≤ 2 * tariff)
    × (tariff ≤ 2 * 51)
tariff_bounds_example = tariff_bounds 51 100 330 (omega arith) (omega arith) (omega arith)

abbrev terms : RoundTerms
terms = record {
  total_shares_before = codes "80";
  amount_cents = codes "500";
  pre_money_valuation_cents = codes "2000";
  equity_basis_points = pos 2001;
}

abbrev round : RoundQuote
round = record {
  total_shares_before = codes "80";
  shares_issued = codes "20";
  total_shares_after = codes "100";
  amount_cents = codes "500";
  pre_money_valuation_cents = codes "2000";
  post_money_valuation_cents = codes "2500";
  price_per_share_cents = codes "25";
  equity_basis_points = 2000;
}

priced : quote_priced_round terms ≡ ok round
unfolding quote_priced_round cents is_positive_text natural_of bounded print
priced = refl

quote_priced_round-Balances_example :
    Balances
      (natural_of (codes "25"))
      (natural_of (codes "80"))
      (natural_of (codes "20"))
      (natural_of (codes "100"))
      (natural_of (codes "500"))
      (natural_of (codes "2000"))
      (natural_of (codes "2500"))
    × ((natural_of (codes "100") ≤ signed_sqlite_maximum)
        × (natural_of (codes "2500") ≤ signed_sqlite_maximum))
    × (equity : ℕ) × (pos 2001 ≡ pos equity)
    × ((2000 ≤ equity + 1) × (equity ≤ 2000 + 1))
quote_priced_round-Balances_example = quote_priced_round-Balances terms priced

abbrev fund : Fund
fund = record { fund_size_cents = print 900; deployed_cents = print 300 }
