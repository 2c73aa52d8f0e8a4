-- ===== src/Credit/Circuit/Breakers.antt =====
-- What the circuit breakers decide, as inequalities between amounts.
use native.Mathlib.Nat.{le-div_iff_mul-le, mul-le-mul_left}
use worldsimulator.Prelude.{
  ℕ, ◌+◌, ◌*◌, ◌/◌, ◌≤◌, ◌<◌, ◌≡◌, refl, ◌↔◌, ◌∙◌, ap, Bool, true, false, ◌&&◌, List, [], ◌∷◌, ◌++◌,
  arith, leb, ◌==◌, min, if◌then◌else◌, leb→le, le→leb, sym,
}
use worldsimulator.Prelude.Int.{pos}
use worldsimulator.Prelude.Decimal.{print, is_natural_text-print, natural_of-print}
use worldsimulator.Prelude.Results.{ok, ok-injective, bounded-pos}
use worldsimulator.Credit.Policy.{BankStatus, active, lending_halted, closed}
use worldsimulator.Credit.Circuit.{
  CircuitInput, CircuitEvaluation, nonnegative_cents, bank_ratio_basis_points, is_open,
  status_after, evaluate_bank_lending_circuit, failed, Breaker,
}

-- The books of a bank and a request, in cents and basis points.
pub record Position : Type 0 where
  pub status : BankStatus
  pub deposits : ℕ
  pub reserves : ℕ
  pub reserve_min : ℕ
  pub capital : ℕ
  pub capital_min : ℕ
  pub exposure : ℕ
  pub exposure_cap : ℕ

abbrev pub input_of : Position → ℕ → CircuitInput
input_of p request = record {
  bank_status = p.status;
  deposit_cents = print p.deposits;
  reserve_cents = print p.reserves;
  reserve_ratio_min_bp = pos p.reserve_min;
  effective_capital_cents = print p.capital;
  capital_ratio_min_bp = pos p.capital_min;
  borrower_exposure_cents = print p.exposure;
  borrower_exposure_cap_cents = print p.exposure_cap;
  requested_amount_cents = print request;
}

-- After the loan the reserves and the capital still cover their least shares of the deposits.
abbrev pub IsSound : Position → ℕ → Type 0
IsSound p request =
    (is_open p.status ≡ true)
    × (p.reserve_min * (p.deposits + request) ≤ p.reserves * 10000)
    × (p.capital_min * (p.deposits + request) ≤ p.capital * 10000)

abbrev pub MayLend : Position → ℕ → Type 0
MayLend p request = IsSound p request × (p.exposure + request ≤ p.exposure_cap)

abbrev ratio_of : (numerator deposits : ℕ) → ℕ
ratio_of numerator deposits =
    if deposits == 0 then 10000 else min (numerator * 10000 / deposits) 100000

cents-print : (n : ℕ) → nonnegative_cents (print n) ≡ ok n
unfolding nonnegative_cents
cents-print n = rw (is_natural_text-print n, natural_of-print n)

ratio-print : (n d : ℕ) → bank_ratio_basis_points (print n) (print d) ≡ ok (ratio_of n d)
unfolding bank_ratio_basis_points
ratio-print n d = rw (cents-print n, cents-print d)

-- The rounded and capped ratio reaches a minimum of at most 10000 exactly when the amounts do.
ratio_reaches :
    (n d least : ℕ)
    → 0 < d
    → least ≤ 10000
    → (leb least (ratio_of n d) ≡ true) ↔ (least * d ≤ n * 10000)
ratio_reaches n d least h small = (
  λ t. (le-div_iff_mul-le {k = d} {x = least} {y = n * 10000} h).0 (ground arith),
  λ t. let q = (le-div_iff_mul-le {k = d} {x = least} {y = n * 10000} h).1 t in ground arith,
)

-- What `evaluate` returns for a position, with every text read back.
evaluation_of : Position → ℕ → CircuitEvaluation
evaluation_of p request =
    let d = p.deposits + request in
    let bank_open = is_open p.status in
    let reserve_passed = leb p.reserve_min (ratio_of p.reserves d) in
    let capital_passed = leb p.capital_min (ratio_of p.capital d) in
    let exposure_passed = leb (p.exposure + request) p.exposure_cap in
    let systemic_passed = bank_open && reserve_passed && capital_passed in
    record {
      bank_status_before = p.status;
      bank_status_after = status_after bank_open systemic_passed;
      deposit_cents = print p.deposits;
      projected_deposit_cents = print d;
      reserve_cents = print p.reserves;
      reserve_ratio_bp = ratio_of p.reserves p.deposits;
      projected_reserve_ratio_bp = ratio_of p.reserves d;
      reserve_ratio_min_bp = p.reserve_min;
      effective_capital_cents = print p.capital;
      capital_ratio_bp = ratio_of p.capital p.deposits;
      projected_capital_ratio_bp = ratio_of p.capital d;
      capital_ratio_min_bp = p.capital_min;
      borrower_exposure_cents = print p.exposure;
      projected_borrower_exposure_cents = print (p.exposure + request);
      borrower_exposure_cap_cents = print p.exposure_cap;
      requested_amount_cents = print request;
      bank_open = bank_open;
      reserve_passed = reserve_passed;
      capital_passed = capital_passed;
      exposure_passed = exposure_passed;
      systemic_passed = systemic_passed;
      allowed = systemic_passed && exposure_passed;
      failed_breakers =
          failed bank_open Breaker.bank_closed
          ++ failed reserve_passed Breaker.reserve_ratio
          ++ failed capital_passed Breaker.capital_ratio
          ++ failed exposure_passed Breaker.borrower_exposure;
    }

evaluate-print :
    (p : Position) (request : ℕ)
    → 0 < request
    → p.reserve_min ≤ 10000
    → p.capital_min ≤ 10000
    → evaluate_bank_lending_circuit (input_of p request) ≡ ok (evaluation_of p request)
unfolding evaluate_bank_lending_circuit evaluation_of
evaluate-print p request h r c =
    rw
      (
        bounded-pos p.reserve_min 0 10000 (omega arith) r,
        bounded-pos p.capital_min 0 10000 (omega arith) c,
        cents-print p.deposits,
        cents-print p.reserves,
        cents-print p.capital,
        cents-print p.exposure,
        cents-print p.exposure_cap,
        cents-print request,
        ratio-print p.reserves p.deposits,
        ratio-print p.reserves (p.deposits + request),
        ratio-print p.capital p.deposits,
        ratio-print p.capital (p.deposits + request),
      )
      (rw (positive request h))
  where
    positive : (n : ℕ) → 0 < n → (n == 0) ≡ false
    positive n h = ground arith

-- The four tests together.
abbrev Passed : (bank_open reserve capital exposure : Bool) → Type 0
Passed o r c x = ((o ≡ true) × (r ≡ true) × (c ≡ true)) × (x ≡ true)

all-Passed : (o r c x : Bool) → (o && r && c) && x ≡ true → Passed o r c x
all-Passed o r c x t = ground arith

Passed-all : (o r c x : Bool) → Passed o r c x → (o && r && c) && x ≡ true
Passed-all o r c x t = ground arith

abbrev failures : (o r c x : Bool) → List Breaker
failures o r c x =
    failed o Breaker.bank_closed
    ++ failed r Breaker.reserve_ratio
    ++ failed c Breaker.capital_ratio
    ++ failed x Breaker.borrower_exposure

none_failed : (o r c x : Bool) → failures o r c x ≡ [] → Passed o r c x
none_failed true true true true t = ((refl, refl, refl), refl)
none_failed true true true false t = absurd (nonempty t)
  where
    nonempty : {b : Breaker} {bs : List Breaker} → b ∷ bs ≡ [] → ⊥
    nonempty e = cc
none_failed o r c x t = ground arith

failed_none : (o r c x : Bool) → Passed o r c x → failures o r c x ≡ []
failed_none o r c x t = ground arith

module _ (p : Position) (request : ℕ) (h : 0 < request) (r : p.reserve_min ≤ 10000)
    (c : p.capital_min ≤ 10000) where
  abbrev reserve_test : Bool
  reserve_test = leb p.reserve_min (ratio_of p.reserves (p.deposits + request))

  abbrev capital_test : Bool
  capital_test = leb p.capital_min (ratio_of p.capital (p.deposits + request))

  position-IsSound :
      ((is_open p.status ≡ true) × (reserve_test ≡ true) × (capital_test ≡ true))
      ↔ IsSound p request
  position-IsSound =
      let reserves =
        ratio_reaches p.reserves (p.deposits + request) p.reserve_min (omega arith) r in
      let capital = ratio_reaches p.capital (p.deposits + request) p.capital_min (omega arith) c in
      (λ t. (t.0, reserves.0 t.1, capital.0 t.2), λ s. (s.0, reserves.1 s.1, capital.1 s.2))

  position_reads :
      Passed
        (is_open p.status)
        reserve_test
        capital_test
        (leb (p.exposure + request) p.exposure_cap)
      ↔ MayLend p request
  position_reads = (
    λ t. (position-IsSound.0 t.0, leb→le (p.exposure + request) p.exposure_cap t.1),
    λ m. (position-IsSound.1 m.0, le→leb (p.exposure + request) p.exposure_cap m.1),
  )

sound_status :
    (o r c : Bool) {S : Type 0}
    → (S → (o ≡ true) × (r ≡ true) × (c ≡ true))
    → S
    → status_after o (o && r && c) ≡ active
sound_status o r c reads s = let t = reads s in ground arith

halted_status :
    (o r c : Bool)
    → o ≡ true
    → ¬ ((o ≡ true) × (r ≡ true) × (c ≡ true))
    → status_after o (o && r && c) ≡ lending_halted
halted_status o true true opened unsound = absurd (unsound (opened, refl, refl))
halted_status o r c opened unsound = ground arith

-- For a positive request and minimum ratios of at most 100% the circuit is evaluated. It allows the
-- loan exactly when the bank is open, the reserves and the capital keep their minimum shares of
-- the deposits that the loan creates, and the borrower stays within the cap; no breaker is
-- reported exactly then. The bank is closed if it was, else active if it stays sound, else halted.
pub evaluate_circuit_exact :
    (p : Position) (request : ℕ)
    → 0 < request
    → p.reserve_min ≤ 10000
    → p.capital_min ≤ 10000
    → (e : CircuitEvaluation) × (evaluate_bank_lending_circuit (input_of p request) ≡ ok e)
      × ((e.allowed ≡ true) ↔ MayLend p request)
      × ((e.failed_breakers ≡ []) ↔ MayLend p request)
      × (is_open p.status ≡ false → e.bank_status_after ≡ closed)
      × (IsSound p request → e.bank_status_after ≡ active)
      × (is_open p.status ≡ true → ¬ IsSound p request → e.bank_status_after ≡ lending_halted)
unfolding evaluation_of
evaluate_circuit_exact p request h r c =
    let reads = position_reads p request h r c in
    (
      evaluation_of p request,
      evaluate-print p request h r c,
      (λ t. reads.0 (all-Passed _ _ _ _ t), λ m. Passed-all _ _ _ _ (reads.1 m)),
      (λ t. reads.0 (none_failed _ _ _ _ t), λ m. failed_none _ _ _ _ (reads.1 m)),
      λ shut. rw shut,
      λ sound. sound_status _ _ _ (position-IsSound p request h r c).1 sound,
      λ opened unsound.
          halted_status _ _ _ opened (λ t. unsound ((position-IsSound p request h r c).0 t)),
    )

-- If a bank may lend an amount, it may lend any smaller positive amount in the same position.
pub smaller_request_allowed :
    (p : Position) (small large : ℕ) {e : CircuitEvaluation}
    → 0 < small
    → small ≤ large
    → p.reserve_min ≤ 10000
    → p.capital_min ≤ 10000
    → evaluate_bank_lending_circuit (input_of p large) ≡ ok e
    → e.allowed ≡ true
    → (e' : CircuitEvaluation) × (evaluate_bank_lending_circuit (input_of p small) ≡ ok e')
      × (e'.allowed ≡ true)
smaller_request_allowed p small large {e} h k r c ran yes_large =
    let (x, ran_x, verdict, _, _, _, _) = evaluate_circuit_exact p large (omega arith) r c in
    let (y, ran_y, verdict_y, _, _, _, _) = evaluate_circuit_exact p small h r c in
    let may = verdict.0 (ap (λ z. z.allowed) (ok-injective (sym ran_x ∙ ran)) ∙ yes_large) in
    (
      y,
      ran_y,
      verdict_y.1 (
        (
          may.0.0,
          shrink p.reserve_min p.deposits small large (p.reserves * 10000) k may.0.1,
          shrink p.capital_min p.deposits small large (p.capital * 10000) k may.0.2,
        ),
        omega arith,
      ),
    )
  where
    shrink : (least d a b n : ℕ) → a ≤ b → least * (d + b) ≤ n → least * (d + a) ≤ n
    shrink least d a b n k h = omega (arith, mul-le-mul_left least k)
