-- ===== src/Money/Texts.antt =====
-- `money` at the texts that the program writes, and at all others.
use worldsimulator.Prelude.{ℕ, ◌≡◌, [], false, ap}
use worldsimulator.Prelude.Int.{ℤ, pos}
use worldsimulator.Prelude.Results.{ok, err, money_error}
use worldsimulator.Prelude.Decimal.{
  Text, print, print_ℤ, is_integer_text, is_integer_text-print_ℤ, integer_of-print_ℤ,
}
use worldsimulator.Money.{money}

-- An amount that was written by `toString` reads back as itself, whatever its sign. A text that is
-- not an optional sign and one or more digits is refused.
pub money-print_ℤ :
    (z : ℤ) (t : Text)
    → (money (print_ℤ z) ≡ ok z) × (is_integer_text t ≡ false → money t ≡ err money_error)
unfolding money
money-print_ℤ z t = (rw (is_integer_text-print_ℤ z) (ap ok (integer_of-print_ℤ z)), λ h. rw h)

pub money-print : (n : ℕ) → money (print n) ≡ ok (pos n)
money-print n = unfold print_ℤ in (money-print_ℤ (pos n) []).0
