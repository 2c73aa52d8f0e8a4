-- ===== src/Money.antt =====
-- packages/shared/src/money.ts: amounts in integer cents, division with an explicit rounding mode,
-- and the split of an amount by weights.
pub mod Natural
pub mod Rounding
pub mod Allocation
pub mod Texts
use worldsimulator.Prelude.{
  ℕ, zero, suc, ◌+◌, ◌-◌, ◌*◌, ◌/◌, ◌%◌, Bool, true, false, ◌&&◌, ◌||◌, not, List, [], ◌∷◌, ◌++◌,
  map, ltb, leb, ◌==◌, if◌then◌else◌, length, sum, replicate,
}
use worldsimulator.Prelude.Int.{
  ℤ, pos, negsuc, magnitude, ◌+ℤ◌, ◌-ℤ◌, ◌*ℤ◌, neg, quot, rem, ltb_ℤ, eqb_ℤ,
}
use worldsimulator.Prelude.Results.{Error, money_error, Result, ok, err, ◌>>=◌, ◌>>◌, throw_if}
use worldsimulator.Prelude.Decimal.{Text, is_integer_text, integer_of, print}
use worldsimulator.Prelude.Sort.{sort}

pub data RoundingMode : Type 0 where
  half_even floor ceil : RoundingMode

-- `money(value)` at a string
unfoldable pub money : Text → Result ℤ
money value = if is_integer_text value then ok (integer_of value) else err money_error

unfoldable pub add : ℤ → ℤ → ℤ
add left right = left +ℤ right

unfoldable pub sub : ℤ → ℤ → ℤ
sub left right = left -ℤ right

-- The `switch` of `mulDiv`, at a remainder that is not zero and a positive `den`.
unfoldable pub round_quotient : RoundingMode → (product quotient remainder den : ℤ) → ℤ
round_quotient floor product quotient remainder den =
    if ltb_ℤ product (pos 0) then quotient -ℤ pos 1 else quotient
round_quotient ceil product quotient remainder den =
    if ltb_ℤ product (pos 0) then quotient else quotient +ℤ pos 1
round_quotient half_even product quotient remainder den =
    let negative = ltb_ℤ product (pos 0) in
    let away = if negative then quotient -ℤ pos 1 else quotient +ℤ pos 1 in
    let twice_abs_remainder = pos 2 *ℤ (if negative then neg remainder else remainder) in
    if ltb_ℤ den twice_abs_remainder
    then away
    else if ltb_ℤ twice_abs_remainder den
    then quotient
    else if eqb_ℤ (rem quotient (pos 2)) (pos 0)
    then quotient
    else away

-- `mulDiv` behind its guards, where `den` is positive
unfoldable pub divide_rounded : RoundingMode → (product den : ℤ) → ℤ
unfolding round_quotient
divide_rounded mode product den =
    let quotient = quot product den in
    let remainder = rem product den in
    if eqb_ℤ remainder (pos 0) then quotient else round_quotient mode product quotient remainder den

unfoldable pub mul_div : (amount num den : ℤ) → RoundingMode → Result ℤ
unfolding divide_rounded
mul_div amount num den mode =
    if eqb_ℤ den (pos 0)
    then err money_error
    else if ltb_ℤ den (pos 0)
    then ok (divide_rounded mode (amount *ℤ neg num) (neg den))
    else ok (divide_rounded mode (amount *ℤ num) den)

unfoldable pub apply_rate_bp : (amount rate_bp : ℤ) → RoundingMode → Result ℤ
unfolding mul_div
apply_rate_bp amount rate_bp mode = mul_div amount rate_bp (pos 10000) mode

-- The weights as natural numbers, or the error of the first negative one.
unfoldable pub natural_weights : List ℤ → Result (List ℕ)
natural_weights [] = ok []
natural_weights (pos w ∷ ws) = natural_weights ws >>= λ rest. ok (w ∷ rest)
natural_weights (negsuc w ∷ ws) = err money_error

-- The `i`-th entry of `remainders`
pub record Remainder : Type 0 where
  pub index : ℕ
  pub remainder : ℕ

-- The loop that fills `parts` and `remainders`; `i` is the index of the first weight.
unfoldable pub floor_parts : (amount total : ℕ) → List ℕ → List ℕ
floor_parts amount total [] = []
floor_parts amount total (w ∷ ws) = (amount * w / total) ∷ floor_parts amount total ws

unfoldable pub remainders_from : (i amount total : ℕ) → List ℕ → List Remainder
remainders_from i amount total [] = []
remainders_from i amount total (w ∷ ws) =
    record { index = i; remainder = amount * w % total } ∷ remainders_from (i + 1) amount total ws

-- The comparator of `remainders.sort`: the larger remainder first, then the lower index.
unfoldable pub remainder_before : Remainder → Remainder → Bool
remainder_before a b =
    ltb b.remainder a.remainder || (a.remainder == b.remainder && ltb a.index b.index)

-- `parts[index] += 1`
unfoldable pub increment_at : ℕ → List ℕ → List ℕ
increment_at i [] = []
increment_at zero (p ∷ ps) = (p + 1) ∷ ps
increment_at (suc i) (p ∷ ps) = p ∷ increment_at i ps

-- The loop that hands out the leftover cents, one to each entry in order.
unfoldable pub hand_out : ℕ → List Remainder → List ℕ → List ℕ
unfolding increment_at
hand_out leftover [] parts = parts
hand_out zero (r ∷ rs) parts = parts
hand_out (suc leftover) (r ∷ rs) parts = hand_out leftover rs (increment_at r.index parts)

-- `allocate` at a nonnegative amount, behind its guards
unfoldable pub allocate_natural : ℕ → List ℕ → List ℕ
unfolding floor_parts remainders_from remainder_before hand_out sort
allocate_natural amount weights =
    let parts = floor_parts amount (sum weights) weights in
    hand_out (amount - sum parts)
      (sort remainder_before (remainders_from 0 amount (sum weights) weights)) parts

abbrev pub is_empty {ℓ} : {A : Type ℓ} → List A → Bool
is_empty [] = true
is_empty (_ ∷ _) = false

unfoldable pub allocate : ℤ → List ℤ → Result (List ℤ)
unfolding natural_weights allocate_natural neg
allocate amount weights = do
  throw_if (is_empty weights) money_error
  ws ← natural_weights weights
  throw_if (sum ws == 0) money_error
  let parts = map pos (allocate_natural (magnitude amount) ws)
  ok (if ltb_ℤ amount (pos 0) then map neg parts else parts)

-- `text.padStart(2, "0")`
unfoldable pub pad_two : Text → Text
pad_two [] = b'0' ∷ b'0' ∷ []
pad_two (c ∷ []) = b'0' ∷ c ∷ []
pad_two s = s

unfoldable pub format_money : ℤ → Text
unfolding print pad_two
format_money amount =
    let cents = magnitude amount in
    let shown = b'$' ∷ (print (cents / 100) ++ (b'.' ∷ pad_two (print (cents % 100)))) in
    if ltb_ℤ amount (pos 0) then b'-' ∷ shown else shown
