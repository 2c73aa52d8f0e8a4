-- ===== src/Credit/Scoring/Bounds.antt =====
-- What a score can be, what its points are for, and what its inputs must be.
use worldsimulator.Prelude.{
  ℕ, ◌+◌, ◌-◌, ◌*◌, ◌/◌, ◌≤◌, ◌<◌, ◌≡◌, refl, subst, leb, ◌||◌, ap, true, false, not, ◌==◌, arith,
  if◌then◌else◌, min, max, Bool-cases, inl, inr,
}
use worldsimulator.Prelude.Int.{ℤ, pos, negsuc, pos_part, eqb_ℤ}
use worldsimulator.Prelude.Decimal.{
  Text, natural_of, is_natural_text, print, natural_of-print, is_positive_text-print,
}
use worldsimulator.Prelude.Results.{
  ok, validation_failed, zod_error, >>=-eq-ok, throw_if-eq-ok, ok-injective, bounded-pos,
  assert_safe_integer, assert_safe_integer-eq-ok,
}
use worldsimulator.Money.Natural.{div_mod, mod_lt}
use worldsimulator.Credit.Scoring.{
  ScoreInputs, Breakdown, in_range, is_score_inputs, debt_to_income_points,
  debt_to_income_basis_points, credit_history_score_basis_points, principal_due_within_year,
  calculate_credit_score,
}

ceil_bounds : (n d : ℕ) → 0 < d → (n ≤ (n + d - 1) / d * d) × ((n + d - 1) / d * d < n + d)
ceil_bounds n d h = (
  omega (arith, div_mod (n + d - 1) d h, mod_lt (n + d - 1) d h),
  omega (arith, div_mod (n + d - 1) d h, mod_lt (n + d - 1) d h),
)

-- A year of a loan pays at most the principal, all of it when the term is at most twelve months,
-- and otherwise less than the principal by no less than the other months' equal parts.
pub principal_due_bounds :
    (amount term : ℕ)
    → 0 < amount
    → 1 ≤ term
    → term ≤ 360
    → (due : ℕ) × (principal_due_within_year (print amount) (pos term) ≡ ok due)
      × (term ≤ 12 → due ≡ amount)
      × (12 < term → due + amount / term * (term - 12) ≤ amount)
unfolding principal_due_within_year
principal_due_bounds amount term h one most = (
  (if min 12 term == term then amount else amount / term * min 12 term),
  rw (is_positive_text-print amount h, bounded-pos term 1 360 one most, natural_of-print amount),
  λ k. ground arith,
  λ k.
      let months : min 12 term ≡ 12 = omega arith in
      let longer : (12 == term) ≡ false = ground arith in
      rw (months, longer)
        (parts (amount / term) (term - 12) amount
          (omega (arith, ap (λ m. amount / term * m) (split term k), div_mod amount term one))),
)
  where
    split : (t : ℕ) → 12 < t → 12 + (t - 12) ≡ t
    split t k = omega arith

    parts : (q k n : ℕ) → q * (12 + k) ≤ n → q * 12 + q * k ≤ n
    parts q k n a = omega arith

dti_points : (bp : ℕ) → debt_to_income_points bp ≤ 200
unfolding debt_to_income_points
dti_points bp = ground arith

range_part : (low high : ℕ) (z : ℤ) → in_range low high z ≡ true → pos_part z ≤ high
range_part low high (pos n) e = ground arith
range_part low high (negsuc n) e = omega arith

ranges_of :
    (i : ScoreInputs)
    → is_score_inputs i ≡ true
    → (pos_part i.income_stability_bp ≤ 10000)
      × (pos_part i.history_score_bp ≤ 10000)
      × (in_range 0 100000 i.debt_to_income_bp ≡ true)
      × (in_range 0 10000 i.history_score_bp ≡ true)
unfolding is_score_inputs
ranges_of i e = (
  range_part 0 10000 i.income_stability_bp (ground arith),
  range_part 0 10000 i.history_score_bp (ground arith),
  ground arith,
  ground arith,
)

part_of_equal : (z : ℤ) (n : ℕ) → not (eqb_ℤ z (pos n)) ≡ false → n ≡ pos_part z
part_of_equal (pos m) n e = ground arith
part_of_equal (negsuc m) n e = absurd (ground arith)

-- `points` are `value` parts in `whole` of `most`, rounded down.
abbrev pub RoundsDown : (value most whole points : ℕ) → Type 0
RoundsDown value most whole points =
    (points * whole ≤ value * most) × (value * most < (points + 1) * whole)

part_of : (value most whole : ℕ) → 0 < whole → RoundsDown value most whole (value * most / whole)
part_of value most whole h =
    let split = div_mod (value * most) whole h in
    let next : (value * most / whole + 1) * whole ≡ value * most / whole * whole + whole =
      grind arith in
    (omega (arith, split), omega (arith, split, next, mod_lt (value * most) whole h))

-- What a debt ratio in basis points is worth: all points up to a fifth, none from three fifths, and
-- evenly less in between.
abbrev pub EarnsForDebt : (ratio points : ℕ) → Type 0
EarnsForDebt ratio points =
    (ratio ≤ 2000 → points ≡ 200)
    × (6000 ≤ ratio → points ≡ 0)
    × (2000 < ratio → ratio < 6000 → RoundsDown (6000 - ratio) 200 4000 points)

debt_to_income_points-EarnsForDebt : (bp : ℕ) → EarnsForDebt bp (debt_to_income_points bp)
unfolding debt_to_income_points
debt_to_income_points-EarnsForDebt bp = (
  λ low. ground arith,
  λ high. ground arith,
  λ above under.
      let over : leb bp 2000 ≡ false = ground arith in
      let less : leb 6000 bp ≡ false = ground arith in
      rw (over, less) (part_of (6000 - bp) 200 4000 (omega arith)),
)

-- The debt ratio of two amounts: the cap without income; else the debt in basis points of the income,
-- rounded up, or the cap where that would exceed it.
abbrev pub Compares : (debt income ratio : ℕ) → Type 0
Compares debt income ratio =
    (income ≡ 0 → ratio ≡ 100000)
    × (ratio < 100000 → (debt * 10000 ≤ ratio * income) × (ratio * income < debt * 10000 + income))
    × (0 < income → ratio ≡ 100000 → 100000 * income < debt * 10000 + income)

ratio_of-Compares :
    (debt income : ℕ)
    → Compares debt income
        (if income == 0 then 100000 else min ((debt * 10000 + income - 1) / income) 100000)
ratio_of-Compares debt income = elim (Bool-cases (income == 0)) [
  | inl idle ↦ rw idle (λ _. refl, λ k. absurd (omega arith), λ k _. absurd (ground arith))
  | inr earning ↦
      let (up, down) = ceil_bounds (debt * 10000) income (ground arith) in
      let q = (debt * 10000 + income - 1) / income in
      rw earning (
        λ idle. absurd (ground arith),
        λ k. let same : min q 100000 ≡ q = omega arith in rw same (up, down),
        λ _ k. let big : 100000 ≤ q = omega arith in reached q income (debt * 10000) big down,
      )
]
  where
    reached : (q d n : ℕ) → 100000 ≤ q → q * d < n + d → 100000 * d < n + d
    reached q d n big b = grind arith

ratio-Compares :
    (debt_service income : Text) {ratio : ℕ}
    → debt_to_income_basis_points debt_service income ≡ ok ratio
    → Compares (natural_of debt_service) (natural_of income) ratio
unfolding debt_to_income_basis_points
ratio-Compares debt_service income e =
    let (valid, done) =
      throw_if-eq-ok (not (is_natural_text debt_service) || not (is_natural_text income))
        validation_failed _ e in
    rw (← ok-injective done) (ratio_of-Compares (natural_of debt_service) (natural_of income))

-- The history in basis points: neutral without payments, else from a good base with a little for
-- each payment made, of which twenty count, and more off for each missed one and each default.
abbrev pub Remembers : (completed missed defaults history : ℕ) → Type 0
Remembers completed missed defaults history =
    (completed + missed + defaults ≡ 0 → history ≡ 6000)
    × (0 < completed + missed + defaults
        → history ≡ min 10000 (7000 + min completed 20 * 150 - (missed * 1200 + defaults * 3500)))

counts-Remembers :
    {c m d : ℤ} {c' m' d' h : ℕ}
    → c ≡ pos c'
    → m ≡ pos m'
    → d ≡ pos d'
    → (if c' + m' + d' == 0
        then 6000
        else max 0 (min 10000 (7000 + min c' 20 * 150 - m' * 1200 - d' * 3500)))
      ≡ h
    → Remembers (pos_part c) (pos_part m) (pos_part d) h
counts-Remembers completed missed defaulted e =
    rw (completed, missed, defaulted, ← e) (λ idle. ground arith, λ active. ground arith)

history-Remembers :
    (c m d : ℤ) {h : ℕ}
    → credit_history_score_basis_points c m d ≡ ok h
    → Remembers (pos_part c) (pos_part m) (pos_part d) h
unfolding credit_history_score_basis_points
history-Remembers c m d {h} e =
    let (c', counted, e₁) = >>=-eq-ok (assert_safe_integer c 0) _ e in
    let (m', missed, e₂) = >>=-eq-ok (assert_safe_integer m 0) _ e₁ in
    let (d', defaulted, e₃) = >>=-eq-ok (assert_safe_integer d 0) _ e₂ in
    counts-Remembers (assert_safe_integer-eq-ok c 0 counted).0
      (assert_safe_integer-eq-ok m 0 missed).0 (assert_safe_integer-eq-ok d 0 defaulted).0
      (ok-injective e₃)

-- The parts of a score, for what its inputs say.
abbrev pub Earns : ScoreInputs → Breakdown → Type 0
Earns inputs b =
    RoundsDown (pos_part inputs.income_stability_bp) 200 10000 b.income_stability_points
    × EarnsForDebt (pos_part inputs.debt_to_income_bp) b.debt_to_income_points_
    × RoundsDown (pos_part inputs.history_score_bp) 150 10000 b.history_points
    × Compares (natural_of inputs.annual_debt_service_cents) (natural_of inputs.annual_income_cents)
        (pos_part inputs.debt_to_income_bp)
    × Remembers (pos_part inputs.completed_payments) (pos_part inputs.missed_payments)
        (pos_part inputs.defaults) (pos_part inputs.history_score_bp)

-- A score that is returned is the sum of 300 points, at most 200 for the stability of the income, at
-- most 200 for the debt ratio and at most 150 for the history, so lies from 300 to 850. The points
-- for stability and history are their basis points of 200 and of 150, rounded down. Those for the
-- debt ratio are all 200 up to a ratio of 20%, none from 60%, and in between fall evenly. The ratio
-- is the debt service in basis points of the income, rounded up and capped at 100000, which it is
-- without income; the history is 6000 without payments and else what the counts of completed, missed
-- and defaulted payments give.
pub score_bounds :
    (inputs : ScoreInputs) {b : Breakdown}
    → calculate_credit_score inputs ≡ ok b
    → (b.base_points ≡ 300)
      × (b.income_stability_points ≤ 200)
      × (b.debt_to_income_points_ ≤ 200)
      × (b.history_points ≤ 150)
      × (b.total_points
          ≡ b.base_points + b.income_stability_points + b.debt_to_income_points_ + b.history_points)
      × (300 ≤ b.total_points)
      × (b.total_points ≤ 850)
      × Earns inputs b
unfolding calculate_credit_score
score_bounds inputs {b} e =
    let (valid, e₁) = throw_if-eq-ok (not (is_score_inputs inputs)) zod_error _ e in
    let (dti, d, e₂) =
      >>=-eq-ok
        (debt_to_income_basis_points inputs.annual_debt_service_cents inputs.annual_income_cents) _
        e₁ in
    let (dti_same, e₃) =
      throw_if-eq-ok (not (eqb_ℤ inputs.debt_to_income_bp (pos dti))) validation_failed _ e₂ in
    let (history, g, e₄) =
      >>=-eq-ok
        (credit_history_score_basis_points inputs.completed_payments inputs.missed_payments
          inputs.defaults)
        _ e₃ in
    let (history_same, e₅) =
      throw_if-eq-ok (not (eqb_ℤ inputs.history_score_bp (pos history))) validation_failed _ e₄ in
    let ranges = ranges_of inputs (ground arith) in
    let points = dti_points (pos_part inputs.debt_to_income_bp) in
    rw (← ok-injective e₅) (
      refl,
      omega (arith, ranges.0),
      points,
      omega (arith, ranges.1),
      refl,
      omega arith,
      omega (arith, ranges.0, ranges.1, points),
      (
        part_of (pos_part inputs.income_stability_bp) 200 10000 (omega arith),
        debt_to_income_points-EarnsForDebt (pos_part inputs.debt_to_income_bp),
        part_of (pos_part inputs.history_score_bp) 150 10000 (omega arith),
        subst
            (Compares (natural_of inputs.annual_debt_service_cents)
              (natural_of inputs.annual_income_cents))
            (part_of_equal inputs.debt_to_income_bp dti dti_same)
            (ratio-Compares inputs.annual_debt_service_cents inputs.annual_income_cents d),
        subst
            (Remembers (pos_part inputs.completed_payments) (pos_part inputs.missed_payments)
              (pos_part inputs.defaults))
            (part_of_equal inputs.history_score_bp history history_same)
            (history-Remembers inputs.completed_payments inputs.missed_payments inputs.defaults g),
      ),
    )
