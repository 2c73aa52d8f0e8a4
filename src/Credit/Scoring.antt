-- ===== src/Credit/Scoring.antt =====
-- packages/engine/src/credit-scoring.ts: the credit score and the inputs that it is made of.
pub mod Bounds
use worldsimulator.Prelude.{
  ℕ, ◌+◌, ◌-◌, ◌*◌, ◌/◌, Bool, true, false, ◌&&◌, ◌||◌, not, List, ltb, leb, ◌==◌, if◌then◌else◌,
  min, max, length, every,
}
use worldsimulator.Prelude.Int.{ℤ, pos, negsuc, pos_part, eqb_ℤ}
use worldsimulator.Prelude.Decimal.{Text, is_natural_text, is_positive_text, natural_of}
use worldsimulator.Prelude.Texts.{trim}
use worldsimulator.Prelude.Results.{
  validation_failed, zod_error, Result, ok, err, ◌>>=◌, ◌>>◌, throw_if, max_safe, bounded,
  assert_safe_integer,
}

unfoldable pub principal_due_within_year : Text → (term_months : ℤ) → Result ℕ
principal_due_within_year amount_cents term_months = do
  throw_if (not (is_positive_text amount_cents)) validation_failed
  term ← bounded term_months 1 360
  let amount = natural_of amount_cents
  let months = min 12 term
  ok (if months == term then amount else amount / term * months)

unfoldable pub debt_to_income_basis_points : (debt_service income : Text) → Result ℕ
debt_to_income_basis_points debt_service income = do
  throw_if (not (is_natural_text debt_service) || not (is_natural_text income)) validation_failed
  let debt = natural_of debt_service
  let year = natural_of income
  ok (if year == 0 then 100000 else min ((debt * 10000 + year - 1) / year) 100000)

unfoldable pub credit_history_score_basis_points : (completed missed defaults : ℤ) → Result ℕ
credit_history_score_basis_points completed missed defaults = do
  c ← assert_safe_integer completed 0
  m ← assert_safe_integer missed 0
  d ← assert_safe_integer defaults 0
  ok (
      if c + m + d == 0
      then 6000
      else max 0 (min 10000 (7000 + min c 20 * 150 - m * 1200 - d * 3500)))

unfoldable pub debt_to_income_points : ℕ → ℕ
debt_to_income_points bp =
    if leb bp 2000 then 200 else if leb 6000 bp then 0 else (6000 - bp) * 200 / 4000

pub record ScoreInputs : Type 0 where
  pub model_version : ℤ
  pub annual_income_cents : Text
  pub annual_debt_service_cents : Text
  pub existing_debt_cents : Text
  pub requested_amount_cents : Text
  pub term_months : ℤ
  pub income_stability_bp : ℤ
  pub debt_to_income_bp : ℤ
  pub history_score_bp : ℤ
  pub completed_payments : ℤ
  pub missed_payments : ℤ
  pub defaults : ℤ
  pub no_history : Bool
  pub income_evidence_refs : List Text
  pub debt_evidence_refs : List Text

abbrev pub in_range : (minimum maximum : ℕ) → ℤ → Bool
in_range minimum maximum (pos n) = leb minimum n && leb n maximum
in_range minimum maximum (negsuc n) = false

abbrev is_reference_list : List Text → Bool
is_reference_list refs =
    every (λ s. leb 1 (length (trim s)) && leb (length (trim s)) 160) refs && leb (length refs) 200

abbrev pub same_truth : Bool → Bool → Bool
same_truth true b = b
same_truth false b = not b

-- `creditScoreInputsSchema`, with its refinement of `noHistory`
unfoldable pub is_score_inputs : ScoreInputs → Bool
is_score_inputs i =
    eqb_ℤ i.model_version (pos 1)
    && is_natural_text i.annual_income_cents
    && is_natural_text i.annual_debt_service_cents
    && is_natural_text i.existing_debt_cents
    && is_positive_text i.requested_amount_cents
    && in_range 1 360 i.term_months
    && in_range 0 10000 i.income_stability_bp
    && in_range 0 100000 i.debt_to_income_bp
    && in_range 0 10000 i.history_score_bp
    && in_range 0 max_safe i.completed_payments
    && in_range 0 max_safe i.missed_payments
    && in_range 0 max_safe i.defaults
    && is_reference_list i.income_evidence_refs
    && is_reference_list i.debt_evidence_refs
    && same_truth i.no_history
        (pos_part i.completed_payments + pos_part i.missed_payments + pos_part i.defaults == 0)

pub record Breakdown : Type 0 where
  pub base_points : ℕ
  pub income_stability_points : ℕ
  pub debt_to_income_points_ : ℕ
  pub history_points : ℕ
  pub total_points : ℕ

-- The literal that `calculateCreditScore` returns
abbrev pub breakdown_of : (stability dti history : ℕ) → Breakdown
breakdown_of stability dti history = record {
  base_points = 300;
  income_stability_points = stability * 200 / 10000;
  debt_to_income_points_ = debt_to_income_points dti;
  history_points = history * 150 / 10000;
  total_points = 300 + stability * 200 / 10000 + debt_to_income_points dti + history * 150 / 10000;
}

unfoldable pub calculate_credit_score : ScoreInputs → Result Breakdown
calculate_credit_score inputs = do
  throw_if (not (is_score_inputs inputs)) zod_error
  expected_dti ←
      debt_to_income_basis_points inputs.annual_debt_service_cents inputs.annual_income_cents
  throw_if (not (eqb_ℤ inputs.debt_to_income_bp (pos expected_dti))) validation_failed
  expected_history ←
      credit_history_score_basis_points inputs.completed_payments inputs.missed_payments
        inputs.defaults
  throw_if (not (eqb_ℤ inputs.history_score_bp (pos expected_history))) validation_failed
  ok (
      breakdown_of (pos_part inputs.income_stability_bp) (pos_part inputs.debt_to_income_bp)
        (pos_part inputs.history_score_bp))
