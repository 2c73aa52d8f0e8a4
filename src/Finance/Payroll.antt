-- ===== src/Finance/Payroll.antt =====
-- Yearly and monthly amounts paid in parts.
use worldsimulator.Prelude.{
  ℕ, zero, suc, ◌-◌, ◌*◌, ◌≤◌, ◌<◌, ◌≡◌, refl, sym, ◌∙◌, ap, false, List, [], ◌∷◌, map, arith,
  length, replicate, get_or, length-replicate, sum-replicate,
}
use worldsimulator.Prelude.Int.{ℤ, pos, ◌-ℤ◌, sum_ℤ, ltb_ℤ, leb_ℤ, -ℤ-pos_pos}
use worldsimulator.Prelude.Results.{ok, err, range_error, ok-injective}
use worldsimulator.Money.{half_even, allocate, allocate_natural}
use worldsimulator.Money.Natural.{round_magnitude, apply_rate_bp-natural, rounded_between}
use worldsimulator.Money.Allocation.{allocate_exact}
use worldsimulator.Finance.{part_at, payroll_gross_for_period, PayrollQuote, quote_payroll}

map-replicate : (n : ℕ) → map pos (replicate n 1) ≡ replicate n (pos 1)
map-replicate zero = refl
map-replicate (suc n) = ap (λ xs. pos 1 ∷ xs) (map-replicate n)

-- An amount split into equal parts: each index below their number has its part, the parts sum to
-- the amount exactly, and any index at or beyond their number is a range error.
pub part_at_exact :
    (total : ℤ) (n : ℕ)
    → 0 < n
    → (parts : List ℤ) × (length parts ≡ n)
      × (sum_ℤ parts ≡ total)
      × ((i : ℕ) → i < n → part_at total n (pos i) ≡ ok (get_or parts i (pos 0)))
      × ((i : ℕ) → n ≤ i → part_at total n (pos i) ≡ err range_error)
unfolding part_at
part_at_exact total n h =
    let (parts, e, s, l) =
      allocate_exact total (replicate n 1) (rw (sum-replicate n 1) (omega arith)) in
    let split : allocate total (replicate n (pos 1)) ≡ ok parts = rw (← map-replicate n) e in
    (parts, l ∙ length-replicate n 1, s, λ i k. rw split (ground arith), λ i k. ground arith)

get_or-map_pos : (xs : List ℕ) (i : ℕ) → get_or (map pos xs) i (pos 0) ≡ pos (get_or xs i 0)
get_or-map_pos [] i = refl
get_or-map_pos (x ∷ xs) zero = refl
get_or-map_pos (x ∷ xs) (suc i) = get_or-map_pos xs i

natural_part :
    (wage i : ℕ)
    → i < 24
    → part_at (pos wage) 24 (pos i) ≡ ok (pos (get_or (allocate_natural wage (replicate 24 1)) i 0))
unfolding part_at allocate
natural_part wage i k =
    rw (inside i k, below i, below wage)
      (ap ok (get_or-map_pos (allocate_natural wage (replicate 24 1)) i))
  where
    inside : (i : ℕ) → i < 24 → leb_ℤ (pos 24) (pos i) ≡ false
    inside i k = ground arith

    below : (i : ℕ) → ltb_ℤ (pos i) (pos 0) ≡ false
    below i = ground arith

withheld_bounds :
    (gross rate : ℕ)
    → rate ≤ 10000
    → (0 ≤ round_magnitude half_even false (gross * rate) 10000)
      × (round_magnitude half_even false (gross * rate) 10000 ≤ gross)
withheld_bounds gross rate h =
    rounded_between 0 gross (gross * rate) 10000 (omega arith) (omega arith) (grind arith)

abbrev quote_of : (gross rate : ℕ) → PayrollQuote
quote_of gross rate =
    let withheld = round_magnitude half_even false (gross * rate) 10000 in
    record {
      gross_cents = pos gross;
      withholding_cents = pos withheld;
      net_cents = pos gross -ℤ pos withheld;
    }

payroll_quoted :
    (wage rate gross i : ℕ)
    → rate ≤ 10000
    → part_at (pos wage) 24 (pos i) ≡ ok (pos gross)
    → quote_payroll (pos wage) (pos i) (pos rate) ≡ ok (quote_of gross rate)
unfolding quote_payroll payroll_gross_for_period
payroll_quoted wage rate gross i h e =
    rw (e, apply_rate_bp-natural gross rate half_even) (ground arith)

-- A yearly wage that is not negative is paid out exactly in 24 periods. For each of them and each
-- rate of 0 to 10000 basis points a quote is returned whose gross is the period's part; what is
-- withheld is not negative and at most the gross, and the net is the rest.
pub payroll_exact :
    (wage rate : ℕ)
    → rate ≤ 10000
    → (parts : List ℤ) × (length parts ≡ 24)
      × (sum_ℤ parts ≡ pos wage)
      × ((i : ℕ)
          → i < 24
          → (q : PayrollQuote) × (gross withheld : ℕ) × (quote_payroll (pos wage) (pos i) (pos rate)
              ≡ ok q)
            × (q.gross_cents ≡ get_or parts i (pos 0))
            × (q.gross_cents ≡ pos gross)
            × (q.withholding_cents ≡ pos withheld)
            × (withheld ≤ gross)
            × (q.net_cents ≡ pos (gross - withheld)))
payroll_exact wage rate h =
    let (parts, l, s, at, _) = part_at_exact (pos wage) 24 (omega arith) in
    (parts, l, s, λ i k. quoted i k (get_or parts i (pos 0)) (at i k))
  where
    quoted :
        (i : ℕ)
        → i < 24
        → (part : ℤ) → part_at (pos wage) 24 (pos i) ≡ ok part
        → (q : PayrollQuote) × (gross withheld : ℕ) × (quote_payroll (pos wage) (pos i) (pos rate)
            ≡ ok q)
          × (q.gross_cents ≡ part)
          × (q.gross_cents ≡ pos gross)
          × (q.withholding_cents ≡ pos withheld)
          × (withheld ≤ gross)
          × (q.net_cents ≡ pos (gross - withheld))
    quoted i k part e =
        let gross = get_or (allocate_natural wage (replicate 24 1)) i 0 in
        let same : part ≡ pos gross = ok-injective (sym e ∙ natural_part wage i k) in
        let (_, fits) = withheld_bounds gross rate h in
        (
          quote_of gross rate,
          gross,
          round_magnitude half_even false (gross * rate) 10000,
          payroll_quoted wage rate gross i h (natural_part wage i k),
          sym same,
          refl,
          refl,
          fits,
          -ℤ-pos_pos gross (round_magnitude half_even false (gross * rate) 10000) fits,
        )
