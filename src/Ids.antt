-- ===== src/Ids.antt =====
-- packages/shared/src/codec.ts, IdFactory: typed ids from one counter for each prefix.
pub mod Numerals
pub mod Distinctness
use worldsimulator.Prelude.{
  ℕ, zero, suc, ◌+◌, ◌-◌, ◌/◌, ◌%◌, Bool, true, false, ◌&&◌, ◌||◌, not, List, [], ◌∷◌, ◌++◌, Option,
  none, some, ltb, leb, ◌==◌, every, replicate, length, if◌then◌else◌,
}
use worldsimulator.Prelude.Decimal.{Text}
use worldsimulator.Prelude.Texts.{text_eq}
use worldsimulator.Prelude.Results.{Result, ok, err, codec_error, max_safe, ◌>>=◌, ◌>>◌, throw_if}

abbrev pub digit_36 : ℕ → ℕ
digit_36 d = if ltb d 10 then b'0' + d else b'a' + (d - 10)

-- The digits of `n` to the base 36 in front of `out`; `fuel` bounds their number.
unfoldable pub emit_36 : ℕ → ℕ → Text → Text
emit_36 zero n out = out
emit_36 (suc fuel) n out =
    let here = digit_36 (n % 36) ∷ out in
    let rest = emit_36 fuel (n / 36) here in if n / 36 == 0 then here else rest

-- `value.toString(36)`
unfoldable pub print_36 : ℕ → Text
unfolding emit_36
print_36 n = emit_36 (suc n) n []

-- `text.padStart(width, "0")`
unfoldable pub pad_start : ℕ → Text → Text
pad_start width s = replicate (width - length s) b'0' ++ s

unfoldable pub id_text : Text → ℕ → Text
unfolding print_36 pad_start
id_text prefix value = prefix ++ (b'_' ∷ pad_start 8 (print_36 value))

abbrev pub is_lower : ℕ → Bool
is_lower c = leb b'a' c && leb c b'z'

abbrev pub is_lower_or_digit : ℕ → Bool
is_lower_or_digit c = is_lower c || (leb b'0' c && leb c b'9')

-- `ID_PREFIX_PATTERN.test(prefix)`
unfoldable pub is_prefix : Text → Bool
is_prefix [] = false
is_prefix (c ∷ s) = is_lower c && every is_lower_or_digit s

-- `this.counters`: a map in insertion order.
abbrev pub Counters : Type 0
Counters = List (Text × ℕ)

unfoldable pub counter : Counters → Text → Option ℕ
counter [] prefix = none
counter (entry ∷ rest) prefix =
    let later = counter rest prefix in if text_eq entry.0 prefix then some entry.1 else later

unfoldable pub set_counter : Counters → Text → ℕ → Counters
set_counter [] prefix value = (prefix, value) ∷ []
set_counter (entry ∷ rest) prefix value =
    let later = set_counter rest prefix value in
    if text_eq entry.0 prefix then (entry.0, value) ∷ rest else entry ∷ later

-- `current ?? 0`
abbrev pub or_zero : Option ℕ → ℕ
or_zero none = 0
or_zero (some n) = n

unfoldable pub next : Counters → Text → Result (Counters × Text)
next counters prefix = do
  throw_if (not (is_prefix prefix)) codec_error
  let current = or_zero (counter counters prefix)
  throw_if (leb (max_safe - 1) current) codec_error
  ok (set_counter counters prefix (current + 1), id_text prefix (current + 1))

abbrev is_entry : Text × ℕ → Bool
is_entry entry = is_prefix entry.0 && ltb entry.1 max_safe

-- `IdFactory.restore(state)`: the entries of a plain object, whose keys differ.
unfoldable pub restore : Counters → Result Counters
restore state = if every is_entry state then ok state else err codec_error
