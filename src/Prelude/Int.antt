-- ===== src/Prelude/Int.antt =====
-- Integers over the native numbers, for `bigint` and for integral `number` values. Sums and orders
-- go through the two parts of an integer, which are numbers that `omega` reads.
use worldsimulator.Prelude.Tests.{ltb, leb, ◌==◌, if◌then◌else◌}
use Prim.Native.Nat.{ℕ, suc, ◌+◌, ◌-◌, ◌*◌, ◌/◌, ◌%◌, ◌≤◌, ◌<◌}
use mathlib.Core.Path.{◌≡◌, ap}
use mathlib.Core.Bool.{Bool}
use mathlib.Core.List.{List, [], ◌∷◌, map}
use native.Mathlib.Omega.{arith}

-- `negsuc n` is -(n + 1).
pub data ℤ : Type 0 where
  pos : ℕ → ℤ
  negsuc : ℕ → ℤ

abbrev pub pos_part : ℤ → ℕ
pos_part (pos n) = n
pos_part (negsuc n) = 0

abbrev pub neg_part : ℤ → ℕ
neg_part (pos n) = 0
neg_part (negsuc n) = suc n

-- The absolute value.
abbrev pub magnitude : ℤ → ℕ
magnitude (pos n) = n
magnitude (negsuc n) = suc n

-- a - b, as an integer.
abbrev pub sub_ℕ : ℕ → ℕ → ℤ
sub_ℕ a b = if leb b a then pos (a - b) else negsuc (b - a - 1)

infixl 65 ◌+ℤ◌ ◌-ℤ◌
infixl 70 ◌*ℤ◌
infix 50 ◌≤ℤ◌ ◌<ℤ◌
unfoldable pub ◌+ℤ◌ : ℤ → ℤ → ℤ
a +ℤ b = sub_ℕ (pos_part a + pos_part b) (neg_part a + neg_part b)

unfoldable pub ◌-ℤ◌ : ℤ → ℤ → ℤ
a -ℤ b = sub_ℕ (pos_part a + neg_part b) (neg_part a + pos_part b)

unfoldable pub ◌*ℤ◌ : ℤ → ℤ → ℤ
a *ℤ b =
    sub_ℕ (pos_part a * pos_part b + neg_part a * neg_part b)
      (pos_part a * neg_part b + neg_part a * pos_part b)

unfoldable pub neg : ℤ → ℤ
neg a = sub_ℕ (neg_part a) (pos_part a)

-- `a / b` and `a % b` on `bigint`: truncation toward zero, and the sign of the remainder is that of
-- the dividend. Every caller has checked that `b` is not zero.
unfoldable pub quot : ℤ → ℤ → ℤ
quot a b =
    sub_ℕ (pos_part a / pos_part b + neg_part a / neg_part b)
      (pos_part a / neg_part b + neg_part a / pos_part b)

unfoldable pub rem : ℤ → ℤ → ℤ
rem a b = sub_ℕ (pos_part a % magnitude b) (neg_part a % magnitude b)

abbrev pub ◌≤ℤ◌ : ℤ → ℤ → Type 0
a ≤ℤ b = pos_part a + neg_part b ≤ pos_part b + neg_part a

abbrev pub ◌<ℤ◌ : ℤ → ℤ → Type 0
a <ℤ b = suc (pos_part a + neg_part b) ≤ pos_part b + neg_part a

abbrev pub ltb_ℤ : ℤ → ℤ → Bool
ltb_ℤ a b = ltb (pos_part a + neg_part b) (pos_part b + neg_part a)

abbrev pub leb_ℤ : ℤ → ℤ → Bool
leb_ℤ a b = leb (pos_part a + neg_part b) (pos_part b + neg_part a)

abbrev pub eqb_ℤ : ℤ → ℤ → Bool
eqb_ℤ a b = (pos_part a + neg_part b) == (pos_part b + neg_part a)

abbrev pub sum_ℤ : List ℤ → ℤ
sum_ℤ [] = pos 0
sum_ℤ (x ∷ xs) = x +ℤ sum_ℤ xs

-- One lemma for each operation lets `omega` work with the operations shut, at any depth.
pub +ℤ_parts :
    (a b : ℤ)
    → pos_part (a +ℤ b) + neg_part a + neg_part b ≡ neg_part (a +ℤ b) + pos_part a + pos_part b
unfolding ◌+ℤ◌
+ℤ_parts a b = ground arith

pub -ℤ_parts :
    (a b : ℤ)
    → pos_part (a -ℤ b) + neg_part a + pos_part b ≡ neg_part (a -ℤ b) + pos_part a + neg_part b
unfolding ◌-ℤ◌
-ℤ_parts a b = ground arith

pub neg_parts : (a : ℤ) → pos_part (neg a) + pos_part a ≡ neg_part (neg a) + neg_part a
unfolding neg
neg_parts a = ground arith

pub eq_of_parts : (a b : ℤ) → pos_part a + neg_part b ≡ pos_part b + neg_part a → a ≡ b
eq_of_parts a b h = ground arith

pub ruleset int_laws = (arith, +ℤ_parts, -ℤ_parts, neg_parts, eq_of_parts)

pub *ℤ-pos_pos : (a b : ℕ) → pos a *ℤ pos b ≡ pos (a * b)
unfolding ◌*ℤ◌
*ℤ-pos_pos a b = ground arith

pub neg-neg : (a : ℤ) → neg (neg a) ≡ a
neg-neg a = omega int_laws

pub +ℤ-pos_pos : (a b : ℕ) → pos a +ℤ pos b ≡ pos (a + b)
+ℤ-pos_pos a b = omega int_laws

pub -ℤ-pos_pos : (a b : ℕ) → b ≤ a → pos a -ℤ pos b ≡ pos (a - b)
-ℤ-pos_pos a b h = omega int_laws

pub sum_ℤ-map-neg : (xs : List ℤ) → sum_ℤ (map neg xs) ≡ neg (sum_ℤ xs)
sum_ℤ-map-neg [] = omega int_laws
sum_ℤ-map-neg (x ∷ xs) = rw (sum_ℤ-map-neg xs) (omega int_laws)

-- Products by a natural number, and division of it.
pub *ℤ-pos_parts :
    (a : ℤ) (d : ℕ)
    → pos_part (a *ℤ pos d) + neg_part a * d ≡ neg_part (a *ℤ pos d) + pos_part a * d
unfolding ◌*ℤ◌
*ℤ-pos_parts a d = ground arith

pub +ℤ-*ℤ : (a b : ℤ) (d : ℕ) → (a +ℤ b) *ℤ pos d ≡ a *ℤ pos d +ℤ b *ℤ pos d
+ℤ-*ℤ a b d = omega (
  int_laws,
  *ℤ-pos_parts (a +ℤ b) d,
  *ℤ-pos_parts a d,
  *ℤ-pos_parts b d,
  ap (λ (t : ℕ). t * d) (+ℤ_parts a b),
)

pub -ℤ-*ℤ : (a b : ℤ) (d : ℕ) → (a -ℤ b) *ℤ pos d ≡ a *ℤ pos d -ℤ b *ℤ pos d
-ℤ-*ℤ a b d = omega (
  int_laws,
  *ℤ-pos_parts (a -ℤ b) d,
  *ℤ-pos_parts a d,
  *ℤ-pos_parts b d,
  ap (λ (t : ℕ). t * d) (-ℤ_parts a b),
)

pub neg-*ℤ : (a : ℤ) (d : ℕ) → neg a *ℤ pos d ≡ neg (a *ℤ pos d)
neg-*ℤ a d =
    omega (int_laws, *ℤ-pos_parts (neg a) d, *ℤ-pos_parts a d, ap (λ (t : ℕ). t * d) (neg_parts a))

zero_div : (d : ℕ) → 0 < d → (0 / d ≡ 0) × (0 % d ≡ 0)
zero_div d h = (omega arith, omega arith)

div_zero : (n : ℕ) → n / 0 ≡ 0
div_zero n = omega arith

pub quot-pos_pos : (n d : ℕ) → 0 < d → quot (pos n) (pos d) ≡ pos (n / d)
unfolding quot
quot-pos_pos n d h = rw ((zero_div d h).0, div_zero n) (ground arith)

pub rem-pos_pos : (n d : ℕ) → 0 < d → rem (pos n) (pos d) ≡ pos (n % d)
unfolding rem
rem-pos_pos n d h = rw ((zero_div d h).1) (ground arith)

pub quot-neg_pos : (n d : ℕ) → 0 < d → quot (negsuc n) (pos d) ≡ neg (pos (suc n / d))
unfolding quot neg
quot-neg_pos n d h = rw ((zero_div d h).0, div_zero (suc n)) (ground arith)

pub rem-neg_pos : (n d : ℕ) → 0 < d → rem (negsuc n) (pos d) ≡ neg (pos (suc n % d))
unfolding rem neg
rem-neg_pos n d h = rw ((zero_div d h).1) (ground arith)

pub neg-pos_suc : (n : ℕ) → neg (pos (suc n)) ≡ negsuc n
unfolding neg
neg-pos_suc n = ground arith
