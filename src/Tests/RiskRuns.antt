-- ===== src/Tests/RiskRuns.antt =====
-- Policies, scores and circuit breakers at concrete inputs.
use worldsimulator.Prelude.{◌+◌, ◌≤◌, ◌≡◌, refl, true, false, [], ◌∷◌, some, arith, ◌↔◌}
use worldsimulator.Prelude.Int.{pos, negsuc}
use worldsimulator.Prelude.Decimal.{print, natural_of, is_natural_text, is_positive_text}
use worldsimulator.Prelude.Texts.{codes, trim}
use worldsimulator.Prelude.Results.{ok, bounded, assert_safe_integer}
use worldsimulator.Credit.Policy.{
  PolicyInput, Evaluation, active, lending_halted, closed, raw_checks,
}
use worldsimulator.Credit.Circuit.{
  CircuitEvaluation, evaluate_bank_lending_circuit, is_open, bank_ratio_basis_points,
  nonnegative_cents,
}
use worldsimulator.Credit.Circuit.Breakers.{
  Position, input_of, MayLend, IsSound, evaluate_circuit_exact, smaller_request_allowed,
}
use worldsimulator.Credit.Scoring.{
  ScoreInputs, breakdown_of, calculate_credit_score, is_score_inputs, debt_to_income_basis_points,
  credit_history_score_basis_points,
}
use worldsimulator.Credit.Scoring.Bounds.{Earns, score_bounds}

abbrev application : PolicyInput
application = record {
  system_score = pos 700;
  officer_adjustment = negsuc 4;
  debt_to_income_bp = pos 3000;
  term_months = pos 24;
  existing_debt_cents = codes "100";
  requested_amount_cents = codes "500";
  bank_status = active;
  bank_capital_cents = codes "900";
  bank_deposit_cents = codes "1000";
  bank_minimum_capital_ratio_bp = pos 800;
  bank_exposure_cap_cents = codes "600";
  bank_base_lending_rate_bp = pos 400;
  assessment_evidence_refs = codes "a" ∷ [];
  debt_evidence_refs = codes "d" ∷ [];
  bank_evidence_refs = codes "b" ∷ [];
}

abbrev evaluation : Evaluation
evaluation = record {
  final_score = pos 695;
  policy_checks = raw_checks application (pos 695) 3000 24 600 600 9000 800;
  approved = true;
  offered_rate_bp = some 675;
}

abbrev bank : Position
bank = record {
  status = lending_halted;
  deposits = 1000;
  reserves = 300;
  reserve_min = 1000;
  capital = 200;
  capital_min = 800;
  exposure = 50;
  exposure_cap = 700;
}

evaluate_circuit_exact_example :
    (e : CircuitEvaluation) × (evaluate_bank_lending_circuit (input_of bank 600) ≡ ok e)
    × ((e.allowed ≡ true) ↔ MayLend bank 600)
    × ((e.failed_breakers ≡ []) ↔ MayLend bank 600)
    × (is_open lending_halted ≡ false → e.bank_status_after ≡ closed)
    × (IsSound bank 600 → e.bank_status_after ≡ active)
    × (is_open lending_halted ≡ true → ¬ IsSound bank 600 → e.bank_status_after ≡ lending_halted)
evaluate_circuit_exact_example =
    evaluate_circuit_exact bank 600 (omega arith) (omega arith) (omega arith)

abbrev verdict : CircuitEvaluation
verdict = record {
  bank_status_before = lending_halted;
  bank_status_after = active;
  deposit_cents = print 1000;
  projected_deposit_cents = print 1600;
  reserve_cents = print 300;
  reserve_ratio_bp = 3000;
  projected_reserve_ratio_bp = 1875;
  reserve_ratio_min_bp = 1000;
  effective_capital_cents = print 200;
  capital_ratio_bp = 2000;
  projected_capital_ratio_bp = 1250;
  capital_ratio_min_bp = 800;
  borrower_exposure_cents = print 50;
  projected_borrower_exposure_cents = print 650;
  borrower_exposure_cap_cents = print 700;
  requested_amount_cents = print 600;
  bank_open = true;
  reserve_passed = true;
  capital_passed = true;
  exposure_passed = true;
  systemic_passed = true;
  allowed = true;
  failed_breakers = [];
}

may_lend : evaluate_bank_lending_circuit (input_of bank 600) ≡ ok verdict
unfolding evaluate_bank_lending_circuit bank_ratio_basis_points nonnegative_cents bounded
    is_natural_text natural_of print
may_lend = refl

smaller_request_allowed_example :
    (e' : CircuitEvaluation) × (evaluate_bank_lending_circuit (input_of bank 60) ≡ ok e')
    × (e'.allowed ≡ true)
smaller_request_allowed_example =
    smaller_request_allowed bank 60 600 (omega arith) (omega arith) (omega arith) (omega arith)
      may_lend refl

abbrev inputs : ScoreInputs
inputs = record {
  model_version = pos 1;
  annual_income_cents = codes "600000";
  annual_debt_service_cents = codes "180000";
  existing_debt_cents = codes "0";
  requested_amount_cents = codes "250000";
  term_months = pos 24;
  income_stability_bp = pos 8000;
  debt_to_income_bp = pos 3000;
  history_score_bp = pos 7300;
  completed_payments = pos 10;
  missed_payments = pos 1;
  defaults = pos 0;
  no_history = false;
  income_evidence_refs = codes "i" ∷ [];
  debt_evidence_refs = codes "d" ∷ [];
}

scored : calculate_credit_score inputs ≡ ok (breakdown_of 8000 3000 7300)
unfolding calculate_credit_score is_score_inputs debt_to_income_basis_points
    credit_history_score_basis_points is_natural_text is_positive_text natural_of trim
    assert_safe_integer
scored = refl

score_bounds_example :
    let b = breakdown_of 8000 3000 7300 in
    (b.base_points ≡ 300)
    × (b.income_stability_points ≤ 200)
    × (b.debt_to_income_points_ ≤ 200)
    × (b.history_points ≤ 150)
    × (b.total_points
        ≡ b.base_points + b.income_stability_points + b.debt_to_income_points_ + b.history_points)
    × (300 ≤ b.total_points)
    × (b.total_points ≤ 850)
    × Earns inputs b
score_bounds_example = score_bounds inputs scored
