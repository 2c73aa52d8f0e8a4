-- ===== src/Prelude/Decimal.antt =====
-- Decimal text as the program passes amounts through it: `BigInt(text)`, `value.toString()`, and
-- the regular expressions that guard them. A text is the list of its UTF-16 code units.
use worldsimulator.Prelude.Tests.{leb, ◌==◌, if◌then◌else◌, Bool-cases}
use worldsimulator.Prelude.Int.{ℤ, pos, negsuc, neg, neg-pos_suc}
use Prim.Native.Nat.{ℕ, zero, suc, ◌+◌, ◌-◌, ◌*◌, ◌/◌, ◌%◌, ◌<◌, ◌≤◌}
use mathlib.Core.Path.{◌≡◌, refl, ap, ◌∙◌}
use mathlib.Core.Logic.{inl, inr}
use mathlib.Core.Bool.{Bool, true, false, not, ◌&&◌}
use mathlib.Core.List.{List, [], ◌∷◌}
use native.Mathlib.Omega.{arith}

abbrev pub Text : Type 0
Text = List ℕ

abbrev is_digit : ℕ → Bool
is_digit c = leb b'0' c && leb c b'9'

-- `\d*`
pub all_digits : Text → Bool
all_digits [] = true
all_digits (c ∷ s) = is_digit c && all_digits s

-- `/^\d+$/`
unfoldable pub is_natural_text : Text → Bool
unfolding all_digits
is_natural_text [] = false
is_natural_text (c ∷ s) = all_digits (c ∷ s)

-- `/^[1-9]\d*$/`
unfoldable pub is_positive_text : Text → Bool
unfolding all_digits
is_positive_text [] = false
is_positive_text (c ∷ s) = not (c == b'0') && all_digits (c ∷ s)

-- `/^(0|[1-9]\d*)$/`
unfoldable pub is_canonical_text : Text → Bool
unfolding is_positive_text
is_canonical_text (c ∷ []) = is_digit c
is_canonical_text s = is_positive_text s

-- `/^-?\d+$/`
unfoldable pub is_integer_text : Text → Bool
unfolding is_natural_text
is_integer_text [] = false
is_integer_text (c ∷ s) = if c == b'-' then is_natural_text s else is_natural_text (c ∷ s)

digits_value : ℕ → Text → ℕ
digits_value acc [] = acc
digits_value acc (c ∷ s) = digits_value (acc * 10 + (c - b'0')) s

-- `BigInt(text)`, on a text that `is_natural_text` has let through
unfoldable pub natural_of : Text → ℕ
unfolding digits_value
natural_of s = digits_value 0 s

-- `BigInt(text)`, on a text that `is_integer_text` has let through
unfoldable pub integer_of : Text → ℤ
unfolding natural_of neg
integer_of [] = pos 0
integer_of (c ∷ s) = if c == b'-' then neg (pos (natural_of s)) else pos (natural_of (c ∷ s))

-- The digits of `n` in front of `out`; `fuel` bounds their number.
emit : ℕ → ℕ → Text → Text
emit zero n out = out
emit (suc fuel) n out =
    let here = (b'0' + n % 10) ∷ out in
    let rest = emit fuel (n / 10) here in if n / 10 == 0 then here else rest

-- `n.toString()`
unfoldable pub print : ℕ → Text
unfolding emit
print n = emit (suc n) n []

unfoldable pub print_ℤ : ℤ → Text
unfolding print
print_ℤ (pos n) = print n
print_ℤ (negsuc n) = b'-' ∷ print (suc n)

digits_value-emit :
    (fuel n : ℕ) (out : Text) → n < fuel → digits_value 0 (emit fuel n out) ≡ digits_value n out
unfolding emit digits_value
digits_value-emit zero n out h = elim h [ ]
digits_value-emit (suc fuel) n out h = elim (Bool-cases (n / 10 == 0)) [
  | inl last ↦ rw last (ground arith)
  | inr more ↦
      rw more
        (rw (digits_value-emit fuel (n / 10) ((b'0' + n % 10) ∷ out) (ground arith)) (ground arith))
]

-- The printed text reads back as the number.
pub natural_of-print : (n : ℕ) → natural_of (print n) ≡ n
unfolding natural_of print
natural_of-print n = digits_value-emit (suc n) n [] (omega arith) ∙ refl

-- What `emit` puts in front are digits, the first of them no zero.
abbrev Leads : ℕ → Text → Type 0
Leads n s = (is_natural_text s ≡ true) × (0 < n → is_positive_text s ≡ true)

emit-Leads :
    (fuel n : ℕ) (out : Text) → n < fuel → all_digits out ≡ true → Leads n (emit fuel n out)
unfolding emit all_digits is_natural_text is_positive_text
emit-Leads zero n out h d = elim h [ ]
emit-Leads (suc fuel) n out h d = elim (Bool-cases (n / 10 == 0)) [
  | inl last ↦ rw last (ground arith, λ p. ground arith)
  | inr more ↦ rw more (
      let rest = emit-Leads fuel (n / 10) ((b'0' + n % 10) ∷ out) (ground arith) (ground arith) in
      (rest.0, λ p. rest.1 (ground arith)))
]

pub is_natural_text-print : (n : ℕ) → is_natural_text (print n) ≡ true
unfolding print
is_natural_text-print n = (emit-Leads (suc n) n [] (omega arith) (unfold all_digits in refl)).0

pub is_positive_text-print : (n : ℕ) → 0 < n → is_positive_text (print n) ≡ true
unfolding print
is_positive_text-print n p = (emit-Leads (suc n) n [] (omega arith) (unfold all_digits in refl)).1 p

-- The first character of a printed natural number is no sign.
no_sign : (s : Text) → is_natural_text s ≡ true → is_integer_text s ≡ true
unfolding is_natural_text is_integer_text all_digits
no_sign [] h = cc
no_sign (c ∷ s) h = ground arith

no_sign_value : (s : Text) → is_natural_text s ≡ true → integer_of s ≡ pos (natural_of s)
unfolding is_natural_text integer_of all_digits
no_sign_value [] h = cc
no_sign_value (c ∷ s) h = ground arith

positive_is_canonical : (s : Text) → is_positive_text s ≡ true → is_canonical_text s ≡ true
unfolding is_positive_text is_canonical_text
positive_is_canonical [] e = cc
positive_is_canonical (c ∷ []) e = ground arith
positive_is_canonical (c ∷ d ∷ s) e = e

pub is_canonical_text-print : (n : ℕ) → is_canonical_text (print n) ≡ true
is_canonical_text-print zero = unfold is_canonical_text print in refl
is_canonical_text-print (suc n) =
    positive_is_canonical (print (suc n)) (is_positive_text-print (suc n) (omega arith))

pub is_integer_text-print_ℤ : (z : ℤ) → is_integer_text (print_ℤ z) ≡ true
unfolding print_ℤ
is_integer_text-print_ℤ (pos n) = no_sign (print n) (is_natural_text-print n)
is_integer_text-print_ℤ (negsuc n) = unfold is_integer_text in is_natural_text-print (suc n)

pub integer_of-print_ℤ : (z : ℤ) → integer_of (print_ℤ z) ≡ z
unfolding print_ℤ
integer_of-print_ℤ (pos n) =
    no_sign_value (print n) (is_natural_text-print n) ∙ ap pos (natural_of-print n)
integer_of-print_ℤ (negsuc n) =
    unfold integer_of in ap (λ k. neg (pos k)) (natural_of-print (suc n)) ∙ neg-pos_suc n

digits_value-grows : (acc : ℕ) (s : Text) → acc ≤ digits_value acc s
unfolding digits_value
digits_value-grows acc [] = omega arith
digits_value-grows acc (c ∷ s) = omega (arith, digits_value-grows (acc * 10 + (c - b'0')) s)

pub natural_of-positive : (s : Text) → is_positive_text s ≡ true → 0 < natural_of s
unfolding is_positive_text natural_of all_digits digits_value
natural_of-positive [] h = absurd (ground arith)
natural_of-positive (c ∷ s) h =
    let digit : 0 < c - b'0' = ground arith in
    omega (arith, digits_value-grows (0 * 10 + (c - b'0')) s, digit)
