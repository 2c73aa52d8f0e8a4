-- ===== src/Amortization.antt =====
-- packages/engine/src/amortization.ts: equal-principal 30/360 loan schedules.
pub mod Schedule
use worldsimulator.Prelude.{
  ℕ, zero, suc, ◌+◌, ◌-◌, ◌*◌, ◌/◌, Bool, true, false, ◌&&◌, ◌||◌, not, List, [], ◌∷◌, ltb, ◌==◌,
  if◌then◌else◌,
}
use worldsimulator.Prelude.Int.{ℤ, pos, ◌+ℤ◌}
use worldsimulator.Prelude.Decimal.{
  Text, is_natural_text, is_positive_text, natural_of, print, print_ℤ,
}
use worldsimulator.Prelude.Results.{
  validation_failed, limit_exceeded, internal, Result, ok, err, ◌>>=◌, ◌>>◌, throw_if, max_safe,
  bounded, assert_safe_integer,
}
use worldsimulator.Money.{half_even, money, mul_div}

pub record Input : Type 0 where
  pub principal_cents : Text
  pub annual_rate_bp : ℤ
  pub term_months : ℤ
  pub disbursed_tick : ℤ

pub record Row : Type 0 where
  pub installment_number : ℕ
  pub due_tick : ℕ
  pub opening_principal_cents : Text
  pub principal_due_cents : Text
  pub interest_due_cents : Text
  pub total_due_cents : Text

abbrev pub thirty_360_interest_denominator : ℕ
thirty_360_interest_denominator = 10000 * 360

unfoldable pub interest_for_thirty_day_period : Text → ℤ → Result ℤ
interest_for_thirty_day_period opening annual_rate_bp = do
  throw_if (not (is_natural_text opening)) validation_failed
  rate ← bounded annual_rate_bp 0 100000
  amount ← money opening
  mul_div amount (pos (rate * 30)) (pos thirty_360_interest_denominator) half_even

-- What the loop reads and does not change.
pub record Terms : Type 0 where
  pub rate : ℤ
  pub term : ℕ
  pub disbursed : ℕ
  pub regular : ℕ

-- The loop from `index` on, with `left` rounds to go; it returns the rows and what is outstanding
-- at the end. At most `outstanding` is due in a round, so the subtraction does not stop at 0.
unfoldable pub schedule_rows : Terms → (left index outstanding : ℕ) → Result (List Row × ℕ)
schedule_rows t zero index outstanding = ok ([], outstanding)
schedule_rows t (suc left) index outstanding =
    let number = index + 1 in
    let due_tick = t.disbursed + number * 30 in
    let principal_due = if number == t.term then outstanding else t.regular in
    let rest = schedule_rows t left number (outstanding - principal_due) in
    throw_if (ltb max_safe due_tick) limit_exceeded
    >> (interest_for_thirty_day_period (print outstanding) t.rate >>= λ interest_due.
        rest >>= λ rows. ok (
          record {
            installment_number = number;
            due_tick = due_tick;
            opening_principal_cents = print outstanding;
            principal_due_cents = print principal_due;
            interest_due_cents = print_ℤ interest_due;
            total_due_cents = print_ℤ (pos principal_due +ℤ interest_due);
          }
              ∷ rows.0,
          rows.1,
        ))

-- `rows.reduce((sum, row) => sum + BigInt(row.principalDueCents), 0n)`
unfoldable pub principal_total : List Row → ℕ
principal_total [] = 0
principal_total (row ∷ rows) = natural_of row.principal_due_cents + principal_total rows

unfoldable pub generate_amortization_schedule : Input → Result (List Row)
unfolding schedule_rows principal_total
generate_amortization_schedule input = do
  throw_if (not (is_positive_text input.principal_cents)) validation_failed
  term ← bounded input.term_months 1 360
  disbursed ← assert_safe_integer input.disbursed_tick 0
  rate ← bounded input.annual_rate_bp 0 100000
  let principal = natural_of input.principal_cents
  let terms : Terms = record {
    rate = input.annual_rate_bp;
    term = term;
    disbursed = disbursed;
    regular = principal / term;
  }
  rows ← schedule_rows terms term 0 principal
  throw_if (not (rows.1 == 0) || not (principal_total rows.0 == principal)) internal
  ok rows.0
