-- ===== src/Credit/Collections/Repayment.antt =====
-- Paying a schedule off, and defaulting on it.
use worldsimulator.Prelude.{
  ℕ, ◌+◌, ◌*◌, ◌-◌, ◌≤◌, ◌<◌, ◌≡◌, ap, Bool, true, false, List, [], ◌∷◌, arith, ◌==◌, if◌then◌else◌,
  ◌↔◌, max,
}
use worldsimulator.Prelude.Int.{ℤ, pos, ◌-ℤ◌, ◌≤ℤ◌, int_laws, leb_ℤ}
use worldsimulator.Prelude.Decimal.{
  Text, print, print_ℤ, natural_of, is_natural_text, natural_of-print, is_natural_text-print,
  is_integer_text-print_ℤ, integer_of-print_ℤ,
}
use worldsimulator.Prelude.Results.{
  Result, ok, err, validation_failed, conflict, ◌>>=◌, bounded, bounded-pos, max_safe,
}
use worldsimulator.Amortization.{Row, generate_amortization_schedule}
use worldsimulator.Amortization.Schedule.{Pays, generate-Pays}
use worldsimulator.Credit.Collections.{
  Quote, nonnegative_cents, signed_cents, can_collect_loan_quote, repaying, paid_off, defaulted,
  loan_state_after_collection, loan_state_after_miss, apply_loan_default_credit_score_penalty,
}

-- The states of a loan from which the rows of a schedule are collected one after the other.
abbrev pub repay_all : Text → List Row → Result Text
repay_all outstanding [] = ok outstanding
repay_all outstanding (row ∷ rows) =
    loan_state_after_collection outstanding row.principal_due_cents >>= λ s.
    repay_all s.outstanding_principal_cents rows

collect_one :
    (outstanding : ℕ) (paid : Text)
    → is_natural_text paid ≡ true
    → natural_of paid ≤ outstanding
    → loan_state_after_collection (print outstanding) paid
      ≡ ok (record {
        outstanding_principal_cents = print (outstanding - natural_of paid);
        consecutive_misses = 0;
        status = if outstanding - natural_of paid == 0 then paid_off else repaying;
      })
unfolding loan_state_after_collection nonnegative_cents
collect_one outstanding paid h k =
    rw (is_natural_text-print outstanding, natural_of-print outstanding, h) (ground arith)

-- Collecting the rows of a schedule that pays off `outstanding`, in order, is never refused and
-- leaves exactly nothing.
pub repay_all-Pays :
    (disbursed rate index outstanding : ℕ) (rows : List Row)
    → Pays disbursed rate index outstanding rows
    → repay_all (print outstanding) rows ≡ ok (print 0)
repay_all-Pays disbursed rate index outstanding [] p = ap (λ n. ok (print n)) p
repay_all-Pays disbursed rate index outstanding (row ∷ rows) (_, _, _, digits, fits, _, _, later) =
    rw (collect_one outstanding row.principal_due_cents digits fits) (
      repay_all-Pays disbursed rate (index + 1) (outstanding - natural_of row.principal_due_cents)
        rows later)

-- A loan on valid terms gets a schedule, and collecting the rows of that schedule in order, with no
-- row missed, is never refused and pays the principal off exactly.
pub schedule_repays :
    (principal rate term disbursed : ℕ)
    → 0 < principal
    → 1 ≤ term
    → term ≤ 360
    → rate ≤ 100000
    → disbursed + term * 30 ≤ max_safe
    → (rows : List Row) × (generate_amortization_schedule (record {
      principal_cents = print principal;
      annual_rate_bp = pos rate;
      term_months = pos term;
      disbursed_tick = pos disbursed;
    })
        ≡ ok rows)
      × (repay_all (print principal) rows ≡ ok (print 0))
schedule_repays principal rate term disbursed p one most small safe =
    let (rows, e, _, _, pays) = generate-Pays principal rate term disbursed p one most small safe in
    (rows, e, repay_all-Pays disbursed rate 0 principal rows pays)

-- Of an account at or above its floor a total can be collected exactly when the balance stays at
-- or above the floor; an account below its floor is refused.
pub can_collect-print :
    (balance floor : ℤ) (total : ℕ) (q : Quote)
    → q.total_cents ≡ print total
    → (floor ≤ℤ balance
        → (b : Bool) × (can_collect_loan_quote (print_ℤ balance) (print_ℤ floor) q ≡ ok b)
          × ((b ≡ true) ↔ (floor ≤ℤ balance -ℤ pos total)))
      × (¬ (floor ≤ℤ balance)
          → can_collect_loan_quote (print_ℤ balance) (print_ℤ floor) q ≡ err conflict)
unfolding can_collect_loan_quote nonnegative_cents signed_cents
can_collect-print balance floor total q e =
    rw
      (
        is_integer_text-print_ℤ balance,
        is_integer_text-print_ℤ floor,
        integer_of-print_ℤ balance,
        integer_of-print_ℤ floor,
        e,
        is_natural_text-print total,
        natural_of-print total,
      )
      (λ h. (leb_ℤ (pos total) (balance -ℤ floor), ground arith, collectible), λ h. ground arith)
  where
    collectible : (leb_ℤ (pos total) (balance -ℤ floor) ≡ true) ↔ (floor ≤ℤ balance -ℤ pos total)
    collectible = grind int_laws

-- A miss adds one to the run of misses. The third in a row, and no earlier one, is a default; a
-- count at or beyond that is refused.
pub loan_state_after_miss_cases :
    (n : ℕ)
    → (n < 2
        → loan_state_after_miss (pos n)
          ≡ ok (record { consecutive_misses = n + 1; status = repaying; is_defaulted = false }))
      × (n ≡ 2
          → loan_state_after_miss (pos n)
            ≡ ok (record { consecutive_misses = 3; status = defaulted; is_defaulted = true }))
      × (2 < n → loan_state_after_miss (pos n) ≡ err validation_failed)
unfolding loan_state_after_miss bounded
loan_state_after_miss_cases n = (λ h. ground arith, λ h. ground arith, λ h. ground arith)

-- A default takes 100 points off a score of 300 to 850, and never leaves that range.
pub penalty_bounds :
    (score : ℕ)
    → 300 ≤ score
    → score ≤ 850
    → (after : ℕ) × (apply_loan_default_credit_score_penalty (pos score) ≡ ok after)
      × (300 ≤ after)
      × (after ≤ score)
      × (400 ≤ score → after + 100 ≡ score)
unfolding apply_loan_default_credit_score_penalty
penalty_bounds score low high = (
  max 300 (score - 100),
  rw (bounded-pos score 300 850 low high),
  omega arith,
  omega arith,
  λ h. omega arith,
)
