-- ===== src/Credit/Policy.antt =====
-- packages/engine/src/credit-policy.ts: the six policy checks, the offered rate, and the states of
-- an application.
pub mod Decision
pub mod Applications
use worldsimulator.Prelude.{
  ℕ, ◌+◌, ◌*◌, ◌/◌, Bool, true, false, ◌&&◌, ◌||◌, not, List, [], ◌∷◌, ◌++◌, Option, none, some,
  ltb, leb, ◌==◌, if◌then◌else◌, length, every, min,
}
use worldsimulator.Prelude.Int.{ℤ, pos, negsuc, magnitude, pos_part, ◌+ℤ◌, ◌-ℤ◌, leb_ℤ}
use worldsimulator.Prelude.Decimal.{Text, is_natural_text, natural_of, print, print_ℤ}
use worldsimulator.Prelude.Texts.{codes, trim}
use worldsimulator.Prelude.Results.{
  validation_failed, conflict, zod_error, Result, ok, err, ◌>>=◌, ◌>>◌, throw_if, bounded,
}

pub data BankStatus : Type 0 where
  active lending_halted closed : BankStatus

pub record PolicyInput : Type 0 where
  pub system_score : ℤ
  pub officer_adjustment : ℤ
  pub debt_to_income_bp : ℤ
  pub term_months : ℤ
  pub existing_debt_cents : Text
  pub requested_amount_cents : Text
  pub bank_status : BankStatus
  pub bank_capital_cents : Text
  pub bank_deposit_cents : Text
  pub bank_minimum_capital_ratio_bp : ℤ
  pub bank_exposure_cap_cents : Text
  pub bank_base_lending_rate_bp : ℤ
  pub assessment_evidence_refs : List Text
  pub debt_evidence_refs : List Text
  pub bank_evidence_refs : List Text

pub data CheckId : Type 0 where
  minimum_score maximum_dti maximum_term borrower_exposure bank_status_active : CheckId
  minimum_capital_ratio : CheckId

pub data Comparator : Type 0 where
  gte lte eq : Comparator

pub record Check : Type 0 where
  pub id : CheckId
  pub comparator : Comparator
  pub actual : Text
  pub threshold : Text
  pub passed : Bool
  pub evidence_refs : List Text

pub record Evaluation : Type 0 where
  pub final_score : ℤ
  pub policy_checks : List Check
  pub approved : Bool
  pub offered_rate_bp : Option ℕ

-- `assertCents(value, field)`
unfoldable pub assert_cents : Text → Result ℕ
assert_cents value = if is_natural_text value then ok (natural_of value) else err validation_failed

is_label : Text → Bool
is_label s = leb 1 (length s) && leb (length s) 80

is_reference : Text → Bool
is_reference s = leb 1 (length (trim s)) && leb (length (trim s)) 160

trim_all : List Text → List Text
trim_all [] = []
trim_all (s ∷ ss) = trim s ∷ trim_all ss

-- `policyCheck(input)`: `loanPolicyCheckSchema.parse`, which trims the references
unfoldable pub policy_check : Check → Result Check
unfolding is_label is_reference trim_all
policy_check c =
    if is_label c.actual
      && is_label c.threshold
      && every is_reference c.evidence_refs
      && leb (length c.evidence_refs) 200
    then ok (record c { evidence_refs = trim_all c.evidence_refs })
    else err zod_error

unfoldable pub policy_checks_of : List Check → Result (List Check)
unfolding policy_check
policy_checks_of [] = ok []
policy_checks_of (c ∷ cs) = policy_check c >>= λ p. policy_checks_of cs >>= λ ps. ok (p ∷ ps)

unfoldable pub current_capital_ratio_basis_points : (capital_cents deposit_cents : Text) → Result ℕ
unfolding assert_cents
current_capital_ratio_basis_points capital_cents deposit_cents = do
  capital ← assert_cents capital_cents
  deposits ← assert_cents deposit_cents
  ok (if deposits == 0 then 10000 else min (capital * 10000 / deposits) 100000)

abbrev pub is_bank_active : BankStatus → Bool
is_bank_active active = true
is_bank_active _ = false

abbrev pub status_text : BankStatus → Text
status_text active = codes "active"
status_text lending_halted = codes "lending_halted"
status_text closed = codes "closed"

-- The six literals of `policyChecks`, in order.
abbrev pub raw_checks :
    PolicyInput → (final : ℤ) → (dti term exposure cap ratio minimum_ratio : ℕ) → List Check
raw_checks raw final dti term exposure cap ratio minimum_ratio =
    record {
      id = minimum_score;
      comparator = gte;
      actual = print_ℤ final;
      threshold = print 650;
      passed = leb_ℤ (pos 650) final;
      evidence_refs = raw.assessment_evidence_refs;
    }
    ∷ record {
      id = maximum_dti;
      comparator = lte;
      actual = print dti;
      threshold = print 5000;
      passed = leb dti 5000;
      evidence_refs = raw.assessment_evidence_refs;
    }
    ∷ record {
      id = maximum_term;
      comparator = lte;
      actual = print term;
      threshold = print 120;
      passed = leb term 120;
      evidence_refs = raw.assessment_evidence_refs;
    }
    ∷ record {
      id = borrower_exposure;
      comparator = lte;
      actual = print exposure;
      threshold = print cap;
      passed = leb exposure cap;
      evidence_refs = raw.debt_evidence_refs ++ raw.bank_evidence_refs;
    }
    ∷ record {
      id = bank_status_active;
      comparator = eq;
      actual = status_text raw.bank_status;
      threshold = codes "active";
      passed = is_bank_active raw.bank_status;
      evidence_refs = raw.bank_evidence_refs;
    }
    ∷ record {
      id = minimum_capital_ratio;
      comparator = gte;
      actual = print ratio;
      threshold = print minimum_ratio;
      passed = leb minimum_ratio ratio;
      evidence_refs = raw.bank_evidence_refs;
    }
    ∷ []

-- `Math.max(0, LOAN_RATE_ZERO_SPREAD_SCORE - finalScore) * LOAN_RATE_SPREAD_BP_PER_POINT`
abbrev pub risk_spread : ℤ → ℕ
risk_spread final = pos_part (pos 750 -ℤ final) * 5

-- The rate is offered on approval, and must not exceed 100000 basis points.
unfoldable pub offered_rate : Bool → ℕ → Result (Option ℕ)
offered_rate false rate = ok none
offered_rate true rate = if ltb 100000 rate then err validation_failed else ok (some rate)

unfoldable pub evaluate_loan_policy : PolicyInput → Result Evaluation
unfolding assert_cents policy_checks_of current_capital_ratio_basis_points offered_rate
evaluate_loan_policy raw = do
  score ← bounded raw.system_score 300 850
  throw_if (ltb 5 (magnitude raw.officer_adjustment)) validation_failed
  dti ← bounded raw.debt_to_income_bp 0 100000
  minimum_ratio ← bounded raw.bank_minimum_capital_ratio_bp 0 10000
  base_rate ← bounded raw.bank_base_lending_rate_bp 0 100000
  term ← bounded raw.term_months 1 360
  existing_debt ← assert_cents raw.existing_debt_cents
  requested_amount ← assert_cents raw.requested_amount_cents
  throw_if (requested_amount == 0) validation_failed
  exposure_cap ← assert_cents raw.bank_exposure_cap_cents
  ratio ← current_capital_ratio_basis_points raw.bank_capital_cents raw.bank_deposit_cents
  let final = pos score +ℤ raw.officer_adjustment
  checks ← policy_checks_of (
      raw_checks raw final dti term (existing_debt + requested_amount) exposure_cap ratio
        minimum_ratio)
  let approved = every (λ c. c.passed) checks
  offered ← offered_rate approved (base_rate + risk_spread final)
  ok (record {
    final_score = final;
    policy_checks = checks;
    approved = approved;
    offered_rate_bp = offered;
  })

pub data ApplicationStatus : Type 0 where
  submitted under_review approved rejected withdrawn : ApplicationStatus

-- `LOAN_APPLICATION_TRANSITIONS[current].includes(next)`
unfoldable pub may_become : ApplicationStatus → ApplicationStatus → Bool
may_become submitted under_review = true
may_become submitted withdrawn = true
may_become under_review approved = true
may_become under_review rejected = true
may_become under_review withdrawn = true
may_become _ _ = false

unfoldable pub transition_loan_application_status :
    ApplicationStatus → ApplicationStatus → Result ApplicationStatus
unfolding may_become
transition_loan_application_status current next =
    if may_become current next then ok next else err conflict
