-- ===== src/Credit/Circuit.antt =====
-- packages/engine/src/bank-circuit-breakers.ts: whether a bank may lend a requested amount.
pub mod Breakers
use worldsimulator.Prelude.{
  ℕ, ◌+◌, ◌*◌, ◌/◌, Bool, true, false, ◌&&◌, not, List, [], ◌∷◌, ◌++◌, leb, ◌==◌, if◌then◌else◌,
  min,
}
use worldsimulator.Prelude.Int.{ℤ}
use worldsimulator.Prelude.Decimal.{Text, is_natural_text, natural_of, print}
use worldsimulator.Prelude.Results.{
  validation_failed, Result, ok, err, ◌>>=◌, ◌>>◌, throw_if, bounded,
}
use worldsimulator.Credit.Policy.{BankStatus, active, lending_halted, closed}

pub data Breaker : Type 0 where
  bank_closed reserve_ratio capital_ratio borrower_exposure : Breaker

pub record CircuitInput : Type 0 where
  pub bank_status : BankStatus
  pub deposit_cents : Text
  pub reserve_cents : Text
  pub reserve_ratio_min_bp : ℤ
  pub effective_capital_cents : Text
  pub capital_ratio_min_bp : ℤ
  pub borrower_exposure_cents : Text
  pub borrower_exposure_cap_cents : Text
  pub requested_amount_cents : Text

pub record CircuitEvaluation : Type 0 where
  pub bank_status_before : BankStatus
  pub bank_status_after : BankStatus
  pub deposit_cents : Text
  pub projected_deposit_cents : Text
  pub reserve_cents : Text
  pub reserve_ratio_bp : ℕ
  pub projected_reserve_ratio_bp : ℕ
  pub reserve_ratio_min_bp : ℕ
  pub effective_capital_cents : Text
  pub capital_ratio_bp : ℕ
  pub projected_capital_ratio_bp : ℕ
  pub capital_ratio_min_bp : ℕ
  pub borrower_exposure_cents : Text
  pub projected_borrower_exposure_cents : Text
  pub borrower_exposure_cap_cents : Text
  pub requested_amount_cents : Text
  pub bank_open : Bool
  pub reserve_passed : Bool
  pub capital_passed : Bool
  pub exposure_passed : Bool
  pub systemic_passed : Bool
  pub allowed : Bool
  pub failed_breakers : List Breaker

-- `nonnegativeCents(value, field)`
unfoldable pub nonnegative_cents : Text → Result ℕ
nonnegative_cents value =
    if is_natural_text value then ok (natural_of value) else err validation_failed

unfoldable pub bank_ratio_basis_points : (numerator_cents deposit_cents : Text) → Result ℕ
unfolding nonnegative_cents
bank_ratio_basis_points numerator_cents deposit_cents = do
  numerator ← nonnegative_cents numerator_cents
  deposits ← nonnegative_cents deposit_cents
  ok (if deposits == 0 then 10000 else min (numerator * 10000 / deposits) 100000)

abbrev pub is_open : BankStatus → Bool
is_open closed = false
is_open _ = true

-- `if (!passed) failedBreakers.push(breaker)`
abbrev pub failed : Bool → Breaker → List Breaker
failed true breaker = []
failed false breaker = breaker ∷ []

abbrev pub status_after : (bank_open systemic_passed : Bool) → BankStatus
status_after false systemic = closed
status_after true true = active
status_after true false = lending_halted

unfoldable pub evaluate_bank_lending_circuit : CircuitInput → Result CircuitEvaluation
unfolding nonnegative_cents bank_ratio_basis_points
evaluate_bank_lending_circuit raw = do
  reserve_min ← bounded raw.reserve_ratio_min_bp 0 10000
  capital_min ← bounded raw.capital_ratio_min_bp 0 10000
  deposits ← nonnegative_cents raw.deposit_cents
  reserves ← nonnegative_cents raw.reserve_cents
  capital ← nonnegative_cents raw.effective_capital_cents
  exposure ← nonnegative_cents raw.borrower_exposure_cents
  exposure_cap ← nonnegative_cents raw.borrower_exposure_cap_cents
  request ← nonnegative_cents raw.requested_amount_cents
  throw_if (request == 0) validation_failed
  let projected_deposits = deposits + request
  let projected_exposure = exposure + request
  reserve_bp ← bank_ratio_basis_points (print reserves) (print deposits)
  projected_reserve_bp ← bank_ratio_basis_points (print reserves) (print projected_deposits)
  capital_bp ← bank_ratio_basis_points (print capital) (print deposits)
  projected_capital_bp ← bank_ratio_basis_points (print capital) (print projected_deposits)
  let bank_open = is_open raw.bank_status
  let reserve_passed = leb reserve_min projected_reserve_bp
  let capital_passed = leb capital_min projected_capital_bp
  let exposure_passed = leb projected_exposure exposure_cap
  let systemic_passed = bank_open && reserve_passed && capital_passed
  ok (record {
    bank_status_before = raw.bank_status;
    bank_status_after = status_after bank_open systemic_passed;
    deposit_cents = print deposits;
    projected_deposit_cents = print projected_deposits;
    reserve_cents = print reserves;
    reserve_ratio_bp = reserve_bp;
    projected_reserve_ratio_bp = projected_reserve_bp;
    reserve_ratio_min_bp = reserve_min;
    effective_capital_cents = print capital;
    capital_ratio_bp = capital_bp;
    projected_capital_ratio_bp = projected_capital_bp;
    capital_ratio_min_bp = capital_min;
    borrower_exposure_cents = print exposure;
    projected_borrower_exposure_cents = print projected_exposure;
    borrower_exposure_cap_cents = print exposure_cap;
    requested_amount_cents = print request;
    bank_open = bank_open;
    reserve_passed = reserve_passed;
    capital_passed = capital_passed;
    exposure_passed = exposure_passed;
    systemic_passed = systemic_passed;
    allowed = systemic_passed && exposure_passed;
    failed_breakers =
        failed bank_open bank_closed
        ++ failed reserve_passed reserve_ratio
        ++ failed capital_passed capital_ratio
        ++ failed exposure_passed borrower_exposure;
  })
