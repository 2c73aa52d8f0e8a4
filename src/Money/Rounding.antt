-- ===== src/Money/Rounding.antt =====
-- `mulDiv` rounds the exact quotient as its mode says, for every sign of the operands.
use worldsimulator.Prelude.{
  ℕ, suc, ◌*◌, ◌+◌, ◌≤◌, ◌<◌, ◌≡◌, ◌≢◌, refl, subst, zero, arith, Bool, true, false,
}
use worldsimulator.Prelude.Int.{
  ℤ, pos, negsuc, magnitude, ◌+ℤ◌, ◌-ℤ◌, ◌*ℤ◌, ◌≤ℤ◌, ◌<ℤ◌, neg, rem, int_laws, +ℤ-*ℤ, -ℤ-*ℤ, neg-*ℤ,
  *ℤ-pos_pos, rem-pos_pos, neg-pos_suc,
}
use worldsimulator.Prelude.Results.{ok, err, money_error}
use worldsimulator.Money.{RoundingMode, half_even, floor, ceil, divide_rounded, mul_div}
use worldsimulator.Money.Natural.{
  away_bounds, HalfEven, round_magnitude-HalfEven, round_magnitude, divide_rounded-pos,
  divide_rounded-neg,
}

-- What `r`, the rounding of `p / d`, is held to.
abbrev pub Rounds : RoundingMode → ℤ → ℕ → ℤ → Type 0
Rounds floor p d r = (r *ℤ pos d ≤ℤ p) × (p <ℤ (r +ℤ pos 1) *ℤ pos d)
Rounds ceil p d r = (p ≤ℤ r *ℤ pos d) × ((r -ℤ pos 1) *ℤ pos d <ℤ p)
Rounds half_even p d r =
    (2 * magnitude (p -ℤ r *ℤ pos d) ≤ d)
    × (2 * magnitude (p -ℤ r *ℤ pos d) ≡ d → rem r (pos 2) ≡ pos 0)

-- The same of the magnitudes.
abbrev RoundsMagnitude : RoundingMode → Bool → (n d r : ℕ) → Type 0
RoundsMagnitude floor false n d r = (r * d ≤ n) × (n < r * d + d)
RoundsMagnitude floor true n d r = (n ≤ r * d) × (r * d < n + d)
RoundsMagnitude ceil false n d r = (n ≤ r * d) × (r * d < n + d)
RoundsMagnitude ceil true n d r = (r * d ≤ n) × (n < r * d + d)
RoundsMagnitude half_even _ n d r = HalfEven n d r

round_magnitude-RoundsMagnitude :
    (mode : RoundingMode) (negative : Bool) (n d : ℕ)
    → 0 < d
    → RoundsMagnitude mode negative n d (round_magnitude mode negative n d)
unfolding round_magnitude
round_magnitude-RoundsMagnitude floor false n d h = ground arith
round_magnitude-RoundsMagnitude floor true n d h = away_bounds n d h
round_magnitude-RoundsMagnitude ceil false n d h = away_bounds n d h
round_magnitude-RoundsMagnitude ceil true n d h = ground arith
round_magnitude-RoundsMagnitude half_even negative n d h = round_magnitude-HalfEven negative n d h

-- Back to integers: `r` and `p` of one sign.
Rounds-pos :
    (mode : RoundingMode) (n d r : ℕ)
    → RoundsMagnitude mode false n d r
    → Rounds mode (pos n) d (pos r)
Rounds-pos floor n d r h = rw (+ℤ-*ℤ, *ℤ-pos_pos r d, *ℤ-pos_pos 1 d) (omega int_laws)
Rounds-pos ceil n d r h = rw (-ℤ-*ℤ, *ℤ-pos_pos r d, *ℤ-pos_pos 1 d) (omega int_laws)
Rounds-pos half_even n d r h =
    rw (*ℤ-pos_pos r d, rem-pos_pos r 2 (omega arith)) (unfold ◌-ℤ◌ in ground arith)

Rounds-neg :
    (mode : RoundingMode) (n d r : ℕ)
    → RoundsMagnitude mode true n d r
    → Rounds mode (neg (pos n)) d (neg (pos r))
Rounds-neg floor n d r h = rw (+ℤ-*ℤ, neg-*ℤ, *ℤ-pos_pos r d, *ℤ-pos_pos 1 d) (omega int_laws)
Rounds-neg ceil n d r h = rw (-ℤ-*ℤ, neg-*ℤ, *ℤ-pos_pos r d, *ℤ-pos_pos 1 d) (omega int_laws)
Rounds-neg half_even n d r h = rw (neg-*ℤ, *ℤ-pos_pos r d) (unfold ◌-ℤ◌ neg rem in ground arith)

divide_rounded-Rounds :
    (mode : RoundingMode) (p : ℤ) (d : ℕ) → 0 < d → Rounds mode p d (divide_rounded mode p (pos d))
divide_rounded-Rounds mode (pos n) d h =
    rw (divide_rounded-pos mode n d h)
      (Rounds-pos mode n d _ (round_magnitude-RoundsMagnitude mode false n d h))
divide_rounded-Rounds mode (negsuc n) d h = rw (divide_rounded-neg mode n d h) (
    subst (λ p. Rounds mode p d (neg (pos (round_magnitude mode true (suc n) d)))) (neg-pos_suc n)
      (Rounds-neg mode (suc n) d _ (round_magnitude-RoundsMagnitude mode true (suc n) d h)))

-- The numerator once a negative denominator has been turned round.
abbrev pub signed_num : (num den : ℤ) → ℤ
signed_num num (pos d) = num
signed_num num (negsuc d) = neg num

-- `mul_div` fails exactly at a zero denominator. At any other it returns the rounding, in its mode,
-- of the exact quotient: the floor, the ceiling, or the nearest integer with ties to even.
pub mul_div-Rounds :
    (amount num den : ℤ) (mode : RoundingMode)
    → (den ≡ pos 0 → mul_div amount num den mode ≡ err money_error)
      × (den ≢ pos 0
          → (r : ℤ) × (mul_div amount num den mode ≡ ok r)
            × Rounds mode (amount *ℤ signed_num num den) (magnitude den) r)
unfolding mul_div
mul_div-Rounds amount num (pos zero) mode = (λ e. refl, λ ne. absurd (ne refl))
mul_div-Rounds amount num (pos (suc d)) mode = (
  λ e. cc,
  λ ne. (
    divide_rounded mode (amount *ℤ num) (pos (suc d)),
    ground arith,
    divide_rounded-Rounds mode (amount *ℤ num) (suc d) (omega arith),
  ),
)
mul_div-Rounds amount num (negsuc d) mode = (
  λ e. cc,
  λ ne. (
    divide_rounded mode (amount *ℤ neg num) (pos (suc d)),
    unfold neg in ground arith,
    divide_rounded-Rounds mode (amount *ℤ neg num) (suc d) (omega arith),
  ),
)
