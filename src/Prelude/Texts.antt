-- ===== src/Prelude/Texts.antt =====
-- Texts: equality, the order by code units, `trim`, and the id patterns of the schemas.
use worldsimulator.Prelude.Tests.{ltb, leb, ◌==◌, if◌then◌else◌}
use worldsimulator.Prelude.Lists.{length, every}
use worldsimulator.Prelude.Decimal.{Text}
use Prim.Native.Nat.{ℕ}
use mathlib.Core.Path.{◌≡◌, refl}
use mathlib.Core.Bool.{Bool, true, false, ◌&&◌, ◌||◌}
use mathlib.Core.List.{[], ◌∷◌, reverse}
use native.Mathlib.Omega.{arith}
use Prim.Native.Char.{code}
use Prim.Native.String.{String}

-- A text literal; the literals here are ASCII.
abbrev pub codes : String → Text
codes String.[] = []
codes (String.◌∷◌ c s) = code c ∷ codes s

-- `left === right`
unfoldable pub text_eq : Text → Text → Bool
text_eq [] [] = true
text_eq [] (d ∷ t) = false
text_eq (c ∷ s) [] = false
text_eq (c ∷ s) (d ∷ t) = (c == d) && text_eq s t

-- `left < right`: by code units, and a prefix comes first
unfoldable pub text_before : Text → Text → Bool
text_before [] [] = false
text_before [] (d ∷ t) = true
text_before (c ∷ s) [] = false
text_before (c ∷ s) (d ∷ t) = let rest = text_before s t in if c == d then rest else ltb c d

pub text_eq_refl : (s : Text) → text_eq s s ≡ true
unfolding text_eq
text_eq_refl [] = refl
text_eq_refl (c ∷ s) = ground (arith, text_eq_refl s)

pub text_eq→≡ : (s t : Text) → text_eq s t ≡ true → s ≡ t
unfolding text_eq
text_eq→≡ [] [] h = refl
text_eq→≡ [] (d ∷ t) h = cc
text_eq→≡ (c ∷ s) [] h = cc
text_eq→≡ (c ∷ s) (d ∷ t) h = ground (arith, text_eq→≡ s t)

pub text_eq-sym : (s t : Text) → text_eq s t ≡ text_eq t s
unfolding text_eq
text_eq-sym [] [] = refl
text_eq-sym [] (d ∷ t) = refl
text_eq-sym (c ∷ s) [] = refl
text_eq-sym (c ∷ s) (d ∷ t) = ground (arith, text_eq-sym s t)

pub text_before_asym : (s t : Text) → text_before s t ≡ true → text_before t s ≡ false
unfolding text_before
text_before_asym [] [] h = refl
text_before_asym [] (d ∷ t) h = refl
text_before_asym (c ∷ s) [] h = cc
text_before_asym (c ∷ s) (d ∷ t) h = ground (arith, text_before_asym s t)

pub text_before_irrefl : (s : Text) → text_before s s ≡ false
unfolding text_before
text_before_irrefl [] = refl
text_before_irrefl (c ∷ s) = ground (arith, text_before_irrefl s)

-- The white space and line terminators that `trim` removes.
is_space : ℕ → Bool
is_space c =
    (leb 9 c && leb c 13)
    || c == 32
    || c == 160
    || c == 0x1680
    || (leb 0x2000 c && leb c 0x200a)
    || c == 0x2028
    || c == 0x2029
    || c == 0x202f
    || c == 0x205f
    || c == 0x3000
    || c == 0xfeff

trim_start : Text → Text
trim_start [] = []
trim_start (c ∷ s) = let rest = trim_start s in if is_space c then rest else c ∷ s

unfoldable pub trim : Text → Text
unfolding trim_start is_space
trim s = reverse (trim_start (reverse (trim_start s)))

-- `[0-9a-z]`
is_id_char : ℕ → Bool
is_id_char c = (leb b'0' c && leb c b'9') || (leb b'a' c && leb c b'z')

-- `/^prefix[0-9a-z]{8}$/`
unfoldable pub is_id : Text → Text → Bool
unfolding is_id_char
is_id [] s = leb 8 (length s) && every is_id_char s
is_id (p ∷ ps) [] = false
is_id (p ∷ ps) (c ∷ s) = (p == c) && is_id ps s
