-- ===== src/Money/Natural.antt =====
-- `mulDiv` as a rounding of magnitudes: what the rule modules need of it, since most of their
-- amounts are not negative.
use worldsimulator.Prelude.{
  ℕ, suc, ◌*◌, ◌+◌, ◌/◌, ◌%◌, ◌≤◌, ◌<◌, ◌≡◌, arith, Bool, true, false, ltb, ◌==◌, if◌then◌else◌,
  ◌≢◌, inl, inr, Bool-cases, tests, subst, sym,
}
use worldsimulator.Prelude.Int.{
  ltb_ℤ, pos, negsuc, ◌+ℤ◌, ◌-ℤ◌, ◌*ℤ◌, neg, quot-pos_pos, rem-pos_pos, quot-neg_pos, rem-neg_pos,
  *ℤ-pos_pos, rem, neg-neg,
}
use worldsimulator.Prelude.Results.{ok}
use worldsimulator.Money.{
  RoundingMode, half_even, floor, ceil, round_quotient, divide_rounded, mul_div, apply_rate_bp,
}

-- Half-even rounding from the truncated quotient `q` and the remainder `m`.
abbrev pub half_magnitude : (q m d : ℕ) → ℕ
half_magnitude q m d =
    if ltb d (2 * m) then q + 1 else if ltb (2 * m) d then q else if q % 2 == 0 then q else q + 1

-- The magnitude of the rounded quotient of a product with magnitude `n`.
unfoldable pub round_magnitude : RoundingMode → Bool → (n d : ℕ) → ℕ
round_magnitude floor negative n d =
    if n % d == 0 then n / d else if negative then n / d + 1 else n / d
round_magnitude ceil negative n d =
    if n % d == 0 then n / d else if negative then n / d else n / d + 1
round_magnitude half_even negative n d = half_magnitude (n / d) (n % d) d

rem-two-pos : (q : ℕ) → rem (pos q) (pos 2) ≡ pos (q % 2)
rem-two-pos q = rem-pos_pos q 2 (omega arith)

rem-two-neg : (q : ℕ) → rem (neg (pos q)) (pos 2) ≡ neg (pos (q % 2))
unfolding neg rem
rem-two-neg q = ground arith

pub divide_rounded-pos :
    (mode : RoundingMode) (n d : ℕ)
    → 0 < d
    → divide_rounded mode (pos n) (pos d) ≡ pos (round_magnitude mode false n d)
unfolding divide_rounded round_quotient round_magnitude ◌+ℤ◌ ◌*ℤ◌
divide_rounded-pos floor n d h = rw (quot-pos_pos n d h, rem-pos_pos n d h) (ground arith)
divide_rounded-pos ceil n d h = rw (quot-pos_pos n d h, rem-pos_pos n d h) (ground arith)
divide_rounded-pos half_even n d h =
    rw (quot-pos_pos n d h, rem-pos_pos n d h) (ground (arith, rem-two-pos (n / d)))

below_zero : (n : ℕ) → ltb_ℤ (negsuc n) (pos 0) ≡ true
below_zero n = ground arith

-- The half-even `switch` case at a negative product, in terms of the magnitudes.
half_even-neg :
    (n q m d : ℕ)
    → m ≢ 0
    → round_quotient half_even (negsuc n) (neg (pos q)) (neg (pos m)) (pos d)
      ≡ neg (pos (half_magnitude q m d))
unfolding round_quotient
half_even-neg n q m d h =
    rw (below_zero n)
      (rw (neg-neg (pos m), *ℤ-pos_pos 2 m, rem-two-neg q) (unfold ◌-ℤ◌ neg in ground arith))

pub divide_rounded-neg :
    (mode : RoundingMode) (n d : ℕ)
    → 0 < d
    → divide_rounded mode (negsuc n) (pos d) ≡ neg (pos (round_magnitude mode true (suc n) d))
unfolding divide_rounded round_magnitude
divide_rounded-neg floor n d h =
    rw (quot-neg_pos n d h, rem-neg_pos n d h) (unfold round_quotient ◌-ℤ◌ neg in ground arith)
divide_rounded-neg ceil n d h =
    rw (quot-neg_pos n d h, rem-neg_pos n d h) (unfold round_quotient ◌-ℤ◌ neg in ground arith)
divide_rounded-neg half_even n d h =
    rw (quot-neg_pos n d h, rem-neg_pos n d h)
      (elim (Bool-cases (suc n % d == 0)) [
        | inl exact ↦ unfold neg in ground arith
        | inr inexact ↦
            rw (half_even-neg n (suc n / d) (suc n % d) d (ground arith))
              (unfold neg in ground arith)
      ])

-- `mulDiv` at natural numbers.
pub mul_div-natural :
    (a n d : ℕ) (mode : RoundingMode)
    → 0 < d
    → mul_div (pos a) (pos n) (pos d) mode ≡ ok (pos (round_magnitude mode false (a * n) d))
unfolding mul_div
mul_div-natural a n d mode h =
    rw (*ℤ-pos_pos a n) (ground (arith, divide_rounded-pos mode (a * n) d h))

-- What half-even rounding of `q * d + m` is held to, in magnitudes.
abbrev pub HalfEven : (n d r : ℕ) → Type 0
HalfEven n d r =
    (2 * (r * d) ≤ 2 * n + d)
    × (2 * n ≤ 2 * (r * d) + d)
    × (2 * (r * d) ≡ 2 * n + d → r % 2 ≡ 0)
    × (2 * n ≡ 2 * (r * d) + d → r % 2 ≡ 0)

half_magnitude-HalfEven : (q m d : ℕ) → m < d → HalfEven (q * d + m) d (half_magnitude q m d)
half_magnitude-HalfEven q m d h = elim (Bool-cases (ltb d (2 * m))) [
  | inl above ↦ rw above (omega tests)
  | inr rest ↦ rw rest (elim (Bool-cases (ltb (2 * m) d)) [
    | inl below ↦ rw below (omega tests)
    | inr tie ↦ rw tie (elim (Bool-cases (q % 2 == 0)) [
      | inl even ↦ rw even (ground arith)
      | inr odd ↦ rw odd (ground arith)
    ])
  ])
]

pub div_mod : (n d : ℕ) → 0 < d → n ≡ n / d * d + n % d
div_mod n d h = grind arith

pub mod_lt : (n d : ℕ) → 0 < d → n % d < d
mod_lt n d h = omega arith

pub round_magnitude-HalfEven :
    (negative : Bool) (n d : ℕ) → 0 < d → HalfEven n d (round_magnitude half_even negative n d)
unfolding round_magnitude
round_magnitude-HalfEven negative n d h =
    subst (λ k. HalfEven k d (half_magnitude (n / d) (n % d) d)) (sym (div_mod n d h))
      (half_magnitude-HalfEven (n / d) (n % d) d (mod_lt n d h))

-- Rounding away from zero, in magnitudes.
pub away_bounds :
    (n d : ℕ)
    → 0 < d
    → let r = (if n % d == 0 then n / d else n / d + 1) in (n ≤ r * d) × (r * d < n + d)
away_bounds n d h = elim (Bool-cases (n % d == 0)) [
  | inl exact ↦ rw exact (ground (arith, div_mod n d h))
  | inr inexact ↦ rw inexact (ground (arith, div_mod n d h, mod_lt n d h))
]

pub round_magnitude-floor : (n d : ℕ) → round_magnitude floor false n d ≡ n / d
unfolding round_magnitude
round_magnitude-floor n d = ground arith

-- Half-even rounding of `n / d` is between any two numbers that `n / d` is between.
pub rounded_between :
    (low high n d : ℕ)
    → 0 < d
    → low * d ≤ n
    → n ≤ high * d
    → (low ≤ round_magnitude half_even false n d) × (round_magnitude half_even false n d ≤ high)
rounded_between low high n d h a b =
    let (up, down, _, _) = round_magnitude-HalfEven false n d h in
    (
      lower (round_magnitude half_even false n d) low d h (omega arith),
      lower high (round_magnitude half_even false n d) d h (omega arith),
    )
  where
    lower : (r low d : ℕ) → 0 < d → 2 * (low * d) ≤ 2 * (r * d) + d → low ≤ r
    lower r low d h k = grind arith

-- `applyRateBp` at natural numbers.
pub apply_rate_bp-natural :
    (a rate : ℕ) (mode : RoundingMode)
    → apply_rate_bp (pos a) (pos rate) mode ≡ ok (pos (round_magnitude mode false (a * rate) 10000))
unfolding apply_rate_bp
apply_rate_bp-natural a rate mode = mul_div-natural a rate 10000 mode (omega arith)
