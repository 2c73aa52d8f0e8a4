-- ===== src/Credit/Collections.antt =====
-- packages/engine/src/loan-collections.ts: quotes over arrears, payments, misses and defaults.
pub mod Quotes
pub mod Repayment
use worldsimulator.Prelude.{
  ℕ, zero, suc, ◌+◌, ◌-◌, Bool, true, false, ◌&&◌, ◌||◌, not, List, [], ◌∷◌, Option, none, some,
  ltb, leb, ◌==◌, map, if◌then◌else◌, max,
}
use worldsimulator.Prelude.Int.{ℤ, pos, negsuc, ◌-ℤ◌, ltb_ℤ, leb_ℤ}
use worldsimulator.Prelude.Decimal.{
  Text, is_natural_text, is_integer_text, natural_of, integer_of, print,
}
use worldsimulator.Prelude.Texts.{codes, text_eq, is_id}
use worldsimulator.Prelude.Results.{
  validation_failed, conflict, zod_error, Result, ok, err, ◌>>=◌, ◌>>◌, throw_if, bounded, is_ok,
  assert_safe_integer,
}
use worldsimulator.Money.{is_empty}

pub data InstallmentStatus : Type 0 where
  due completed missed : InstallmentStatus

pub record Installment : Type 0 where
  pub id : Text
  pub run_id : Text
  pub loan_id : Text
  pub installment_number : ℤ
  pub due_tick : ℤ
  pub opening_principal_cents : Text
  pub principal_due_cents : Text
  pub interest_due_cents : Text
  pub total_due_cents : Text
  pub status : InstallmentStatus
  pub paid_tick : Option ℤ
  pub transaction_id : Option Text
  pub source_event_id : Text

abbrev pub is_completed : InstallmentStatus → Bool
is_completed completed = true
is_completed _ = false

abbrev is_some {ℓ} : {A : Type ℓ} → Option A → Bool
is_some none = false
is_some (some _) = true

abbrev same : Bool → Bool → Bool
same true b = b
same false b = not b

is_paid_tick : Option ℤ → Bool
is_paid_tick none = true
is_paid_tick (some z) = is_ok (assert_safe_integer z 0)

is_transaction_id : Option Text → Bool
is_transaction_id none = true
is_transaction_id (some id) = is_id (codes "txn_") id

-- The fields of `loanInstallmentSchema`, one by one.
has_fields : Installment → Bool
unfolding is_paid_tick is_transaction_id
has_fields i =
    is_id (codes "pay_") i.id
    && is_id (codes "run_") i.run_id
    && is_id (codes "loan_") i.loan_id
    && is_ok (bounded i.installment_number 1 360)
    && is_ok (assert_safe_integer i.due_tick 0)
    && is_natural_text i.opening_principal_cents
    && is_natural_text i.principal_due_cents
    && is_natural_text i.interest_due_cents
    && is_natural_text i.total_due_cents
    && is_paid_tick i.paid_tick
    && is_transaction_id i.transaction_id
    && is_id (codes "evt_") i.source_event_id

-- Its refinement, over the fields together.
is_consistent : Installment → Bool
is_consistent i =
    (natural_of i.total_due_cents
      == natural_of i.principal_due_cents + natural_of i.interest_due_cents)
    && same (is_completed i.status) (is_some i.paid_tick && is_some i.transaction_id)
    && (is_completed i.status || not (is_some i.paid_tick || is_some i.transaction_id))

-- `loanInstallmentSchema.parse`, over a list
unfoldable pub parse_installments : List Installment → Result (Unit {0})
unfolding has_fields is_consistent
parse_installments [] = ok tt
parse_installments (i ∷ rest) =
    if has_fields i && is_consistent i then parse_installments rest else err zod_error

pub record Quote : Type 0 where
  pub installment_ids : List Text
  pub principal_cents : Text
  pub interest_cents : Text
  pub total_cents : Text

-- The variables of the loop.
pub record Sums : Type 0 where
  pub seen : List Text
  pub previous_number : ℤ
  pub principal : ℕ
  pub interest : ℕ

abbrev pub has_id : Text → List Text → Bool
has_id id [] = false
has_id id (k ∷ ks) = if text_eq k id then true else has_id id ks

abbrev pub add_installment : Installment → Sums → Sums
add_installment i s = record {
  seen = i.id ∷ s.seen;
  previous_number = i.installment_number;
  principal = s.principal + natural_of i.principal_due_cents;
  interest = s.interest + natural_of i.interest_due_cents;
}

unfoldable pub sum_installments : Text → List Installment → Sums → Result Sums
sum_installments loan_id [] s = ok s
sum_installments loan_id (i ∷ rest) s = do
  throw_if (not (text_eq i.loan_id loan_id)) validation_failed
  throw_if (is_completed i.status) conflict
  throw_if (has_id i.id s.seen || leb_ℤ i.installment_number s.previous_number) validation_failed
  sum_installments loan_id rest (add_installment i s)

abbrev pub no_sums : Sums
no_sums = record { seen = []; previous_number = pos 0; principal = 0; interest = 0 }

unfoldable pub quote_loan_collection : List Installment → Result Quote
unfolding parse_installments sum_installments
quote_loan_collection [] = err validation_failed
quote_loan_collection (first ∷ rest) = do
  parse_installments (first ∷ rest)
  sums ← sum_installments first.loan_id (first ∷ rest) no_sums
  throw_if (sums.principal + sums.interest == 0) validation_failed
  ok (record {
    installment_ids = map (λ i. i.id) (first ∷ rest);
    principal_cents = print sums.principal;
    interest_cents = print sums.interest;
    total_cents = print (sums.principal + sums.interest);
  })

-- `nonnegativeCents(value, field)`
unfoldable pub nonnegative_cents : Text → Result ℕ
nonnegative_cents value =
    if is_natural_text value then ok (natural_of value) else err validation_failed

-- `signedCents(value, field)`
unfoldable pub signed_cents : Text → Result ℤ
signed_cents value = if is_integer_text value then ok (integer_of value) else err validation_failed

unfoldable pub can_collect_loan_quote : (balance_cents floor_cents : Text) → Quote → Result Bool
unfolding nonnegative_cents signed_cents
can_collect_loan_quote balance_cents floor_cents quote = do
  balance ← signed_cents balance_cents
  floor ← signed_cents floor_cents
  total ← nonnegative_cents quote.total_cents
  throw_if (ltb_ℤ balance floor) conflict
  ok (leb_ℤ (pos total) (balance -ℤ floor))

pub data LoanStatus : Type 0 where
  disbursed repaying paid_off defaulted written_off collected : LoanStatus

pub record CollectionState : Type 0 where
  pub outstanding_principal_cents : Text
  pub consecutive_misses : ℕ
  pub status : LoanStatus

unfoldable pub loan_state_after_collection :
    (outstanding_principal_cents principal_collected_cents : Text) → Result CollectionState
unfolding nonnegative_cents
loan_state_after_collection outstanding_cents collected_cents = do
  outstanding ← nonnegative_cents outstanding_cents
  paid ← nonnegative_cents collected_cents
  throw_if (ltb outstanding paid) conflict
  let next = outstanding - paid
  ok (record {
    outstanding_principal_cents = print next;
    consecutive_misses = 0;
    status = if next == 0 then paid_off else repaying;
  })

abbrev pub loan_default_consecutive_misses : ℕ
loan_default_consecutive_misses = 3

abbrev pub loan_default_credit_score_penalty_points : ℕ
loan_default_credit_score_penalty_points = 100

abbrev pub credit_score_floor : ℕ
credit_score_floor = 300

pub record MissState : Type 0 where
  pub consecutive_misses : ℕ
  pub status : LoanStatus
  pub is_defaulted : Bool

unfoldable pub loan_state_after_miss : ℤ → Result MissState
loan_state_after_miss current = do
  n ← bounded current 0 (loan_default_consecutive_misses - 1)
  let misses = n + 1
  let in_default = leb loan_default_consecutive_misses misses
  ok (record {
    consecutive_misses = misses;
    status = if in_default then defaulted else repaying;
    is_defaulted = in_default;
  })

-- `CREDIT_SCORE_FLOOR - penalty` may fall below 0 in the source, where `Math.max` undoes it, as the
-- truncated subtraction does here.
unfoldable pub apply_loan_default_credit_score_penalty : ℤ → Result ℕ
apply_loan_default_credit_score_penalty score = do
  n ← bounded score credit_score_floor 850
  ok (max credit_score_floor (n - loan_default_credit_score_penalty_points))
