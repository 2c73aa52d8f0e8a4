-- ===== src/Prelude/BigInts.antt =====
-- `BigInt(text)`: white space around is ignored, no text is zero, the decimal digits can have a sign,
-- and a text of digits to another base starts with `0x`, `0o` or `0b`. All else throws a SyntaxError.
use worldsimulator.Prelude.Tests.{ltb, leb, ◌==◌, if◌then◌else◌}
use worldsimulator.Prelude.Int.{ℤ, pos, neg}
use worldsimulator.Prelude.Decimal.{Text}
use worldsimulator.Prelude.Texts.{trim}
use worldsimulator.Prelude.Results.{Result, ok, err, plain_error}
use Prim.Native.Nat.{ℕ, ◌+◌, ◌-◌, ◌*◌}
use mathlib.Core.Bool.{Bool, ◌&&◌, ◌||◌}
use mathlib.Core.List.{[], ◌∷◌}
use mathlib.Core.Option.{Option, none, some}

abbrev is_from : (first last c : ℕ) → Bool
is_from first last c = leb first c && leb c last

-- The value of a digit; 36 stands for what is none.
abbrev digit_of : ℕ → ℕ
digit_of c =
    if is_from b'0' b'9' c
    then c - b'0'
    else if is_from b'a' b'f' c
    then c - b'a' + 10
    else if is_from b'A' b'F' c
    then c - b'A' + 10
    else 36

digits_to : (radix acc : ℕ) → Text → Option ℕ
digits_to radix acc [] = some acc
digits_to radix acc (c ∷ s) =
    let rest = digits_to radix (acc * radix + digit_of c) s in
    if ltb (digit_of c) radix then rest else none

some_digits : (radix : ℕ) → Text → Option ℕ
unfolding digits_to
some_digits radix [] = none
some_digits radix (c ∷ s) = digits_to radix 0 (c ∷ s)

-- What follows a leading zero.
after_zero : Text → Option ℕ
unfolding some_digits digits_to
after_zero [] = some 0
after_zero (c ∷ s) =
    if c == b'x' || c == b'X'
    then some_digits 16 s
    else if c == b'o' || c == b'O'
    then some_digits 8 s
    else if c == b'b' || c == b'B'
    then some_digits 2 s
    else digits_to 10 0 (c ∷ s)

abbrev read_ok : (ℕ → ℤ) → Option ℕ → Result ℤ
read_ok sign none = err plain_error
read_ok sign (some n) = ok (sign n)

abbrev negative : ℕ → ℤ
negative n = neg (pos n)

literal : Text → Result ℤ
unfolding some_digits after_zero
literal [] = ok (pos 0)
literal (c ∷ s) =
    if c == b'-'
    then read_ok negative (some_digits 10 s)
    else if c == b'+'
    then read_ok pos (some_digits 10 s)
    else if c == b'0'
    then read_ok pos (after_zero s)
    else read_ok pos (some_digits 10 (c ∷ s))

unfoldable pub big_int : Text → Result ℤ
unfolding literal trim
big_int s = literal (trim s)
