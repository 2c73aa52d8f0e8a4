-- ===== src/Amortization/Schedule.antt =====
-- A schedule exhausts its principal, row by row.
use worldsimulator.Prelude.{
  ℕ, zero, suc, ◌+◌, ◌-◌, ◌*◌, ◌/◌, ◌≤◌, ◌<◌, ◌≡◌, refl, sym, ◌∙◌, ap, true, false, List, [], ◌∷◌,
  ltb, ◌==◌, arith, if◌then◌else◌, length, inl, inr, Bool-cases,
}
use worldsimulator.Prelude.Int.{pos, +ℤ-pos_pos, ◌+ℤ◌}
use worldsimulator.Prelude.Decimal.{
  print, print_ℤ, natural_of, is_natural_text, natural_of-print, is_natural_text-print,
  is_positive_text-print,
}
use worldsimulator.Prelude.Results.{ok, max_safe, bounded-pos, assert_safe_integer-pos}
use worldsimulator.Money.{half_even}
use worldsimulator.Money.Natural.{round_magnitude, mul_div-natural}
use worldsimulator.Money.Texts.{money-print}
use worldsimulator.Amortization.{
  Row, Terms, interest_for_thirty_day_period, schedule_rows, principal_total,
  generate_amortization_schedule,
}

-- The interest of 30 days on `opening`, to the nearest cent.
abbrev pub interest_of : (opening rate : ℕ) → ℕ
interest_of opening rate = round_magnitude half_even false (opening * (rate * 30)) 3600000

pub interest-print :
    (opening rate : ℕ)
    → rate ≤ 100000
    → interest_for_thirty_day_period (print opening) (pos rate)
      ≡ ok (pos (interest_of opening rate))
unfolding interest_for_thirty_day_period
interest-print opening rate h =
    rw
      (
        is_natural_text-print opening,
        bounded-pos rate 0 100000 (omega arith) h,
        money-print opening,
      )
      (mul_div-natural opening (rate * 30) 3600000 half_even (omega arith))

-- The rows from `index` on, with `outstanding` to go: consecutive numbers, a due date every 30
-- ticks, each row opening with what the one before left, and nothing left at the end.
abbrev pub Pays : (disbursed rate index outstanding : ℕ) → List Row → Type 0
Pays disbursed rate index outstanding [] = outstanding ≡ 0
Pays disbursed rate index outstanding (row ∷ rows) =
    (row.installment_number ≡ index + 1)
    × (row.due_tick ≡ disbursed + (index + 1) * 30)
    × (natural_of row.opening_principal_cents ≡ outstanding)
    × (is_natural_text row.principal_due_cents ≡ true)
    × (natural_of row.principal_due_cents ≤ outstanding)
    × (natural_of row.interest_due_cents ≡ interest_of outstanding rate)
    × (natural_of row.total_due_cents
        ≡ natural_of row.principal_due_cents + natural_of row.interest_due_cents)
    × Pays disbursed rate (index + 1) (outstanding - natural_of row.principal_due_cents) rows

print_ℤ-pos : (n : ℕ) → print_ℤ (pos n) ≡ print n
unfolding print_ℤ
print_ℤ-pos n = refl

sum_of_texts : (a b : ℕ) → a + b ≡ natural_of (print a) + natural_of (print b)
sum_of_texts a b = rw (natural_of-print a, natural_of-print b)

within : (n : ℕ) → n ≤ max_safe → ltb max_safe n ≡ false
within n h = ground arith

module _ (rate term disbursed regular : ℕ) (small : rate ≤ 100000)
    (safe : disbursed + term * 30 ≤ max_safe) where
  abbrev terms : Terms
  terms = record { rate = pos rate; term = term; disbursed = disbursed; regular = regular }

  abbrev due : (index outstanding : ℕ) → ℕ
  due index outstanding = if index + 1 == term then outstanding else regular

  abbrev row_of : (index outstanding : ℕ) → Row
  row_of index outstanding = record {
    installment_number = index + 1;
    due_tick = disbursed + (index + 1) * 30;
    opening_principal_cents = print outstanding;
    principal_due_cents = print (due index outstanding);
    interest_due_cents = print_ℤ (pos (interest_of outstanding rate));
    total_due_cents = print_ℤ (pos (due index outstanding) +ℤ pos (interest_of outstanding rate));
  }

  rows_step :
      (left index outstanding : ℕ) (rows : List Row) (end : ℕ)
      → index + suc left ≡ term
      → schedule_rows terms left (index + 1) (outstanding - due index outstanding) ≡ ok (rows, end)
      → schedule_rows terms (suc left) index outstanding ≡ ok (row_of index outstanding ∷ rows, end)
  unfolding schedule_rows
  rows_step left index outstanding rows end place e = rw (
    within (disbursed + (index + 1) * 30) (omega arith),
    interest-print outstanding rate small,
    e,
  )

  -- What is due is there to be paid, and enough is left for the rounds to come.
  due_bounds :
      (left index outstanding : ℕ)
      → index + suc left ≡ term
      → regular * suc left ≤ outstanding
      → (due index outstanding ≤ outstanding)
        × (regular * left ≤ outstanding - due index outstanding)
        × (left ≡ 0 → outstanding - due index outstanding ≡ 0)
  due_bounds left index outstanding place enough = elim (Bool-cases (index + 1 == term)) [
    | inl final ↦
        let none_left : left ≡ 0 = ground arith in
        rw (final, none_left) (omega arith, omega arith, λ e. omega arith)
    | inr more ↦ rw more (grind arith, grind arith, λ e. absurd (ground arith))
  ]

  row-Pays :
      (index outstanding : ℕ) (rows : List Row)
      → due index outstanding ≤ outstanding
      → Pays disbursed rate (index + 1) (outstanding - due index outstanding) rows
      → Pays disbursed rate index outstanding (row_of index outstanding ∷ rows)
  row-Pays index outstanding rows h p =
      let interest = interest_of outstanding rate in
      let now = due index outstanding in
      rw (+ℤ-pos_pos now interest, print_ℤ-pos, print_ℤ-pos)
        (
          refl,
          refl,
          natural_of-print outstanding,
          is_natural_text-print now,
          rw (natural_of-print now) h,
          natural_of-print interest,
          natural_of-print (now + interest) ∙ sum_of_texts now interest,
          rw (natural_of-print now) p,
        )

  rows_pay :
      (left index outstanding : ℕ)
      → index + left ≡ term
      → regular * left ≤ outstanding
      → (left ≡ 0 → outstanding ≡ 0)
      → (rows : List Row) × (schedule_rows terms left index outstanding ≡ ok (rows, 0))
        × (length rows ≡ left)
        × (principal_total rows ≡ outstanding)
        × Pays disbursed rate index outstanding rows
  unfolding principal_total
  rows_pay zero index outstanding place enough last =
      ([], unfold schedule_rows in rw (last refl), refl, sym (last refl), last refl)
  rows_pay (suc left) index outstanding place enough last =
      let now = due index outstanding in
      let bounds = due_bounds left index outstanding place enough in
      let (rows, e, n, s, p) =
        rows_pay left (index + 1) (outstanding - now) (omega arith) bounds.1 bounds.2 in
      (
        row_of index outstanding ∷ rows,
        rows_step left index outstanding rows 0 place e,
        ap suc n,
        rw (natural_of-print now, s) (omega (arith, bounds.0)),
        row-Pays index outstanding rows bounds.0 p,
      )

-- For a positive principal, a term of 1 to 360 months, a rate of at most 100000 basis points and a
-- safe maturity tick the schedule is returned: one row for each month, whose principal parts sum
-- to the principal exactly, each opening with what is outstanding and charging 30 days of interest
-- on it. So the final internal check never fails.
pub generate-Pays :
    (principal rate term disbursed : ℕ)
    → 0 < principal
    → 1 ≤ term
    → term ≤ 360
    → rate ≤ 100000
    → disbursed + term * 30 ≤ max_safe
    → (rows : List Row) × (generate_amortization_schedule (record {
      principal_cents = print principal;
      annual_rate_bp = pos rate;
      term_months = pos term;
      disbursed_tick = pos disbursed;
    })
        ≡ ok rows)
      × (length rows ≡ term)
      × (principal_total rows ≡ principal)
      × Pays disbursed rate 0 principal rows
unfolding generate_amortization_schedule
generate-Pays principal rate term disbursed p one most small safe =
    let (rows, e, n, s, pays) =
      rows_pay rate term disbursed (principal / term) small safe term 0 principal (omega arith)
        (grind arith) (λ z. absurd (omega arith)) in
    (
      rows,
      rw
          (
            is_positive_text-print principal p,
            bounded-pos term 1 360 one most,
            assert_safe_integer-pos disbursed 0 (omega arith) (omega arith),
            bounded-pos rate 0 100000 (omega arith) small,
            natural_of-print principal,
            e,
            s,
          )
          (ground arith),
      n,
      s,
      pays,
    )
