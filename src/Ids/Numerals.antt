-- ===== src/Ids/Numerals.antt =====
-- What the text of an id says: its prefix and its number can be read back.
use worldsimulator.Prelude.{
  ℕ, zero, suc, ◌+◌, ◌-◌, ◌*◌, ◌/◌, ◌%◌, ◌<◌, ◌≡◌, refl, ap, ◌∙◌, sym, true, [], ◌∷◌, ◌++◌, ltb,
  ◌==◌, every, replicate, length, if◌then◌else◌, arith, inl, inr, Bool-cases,
}
use worldsimulator.Prelude.Decimal.{Text}
use worldsimulator.Ids.{
  digit_36, emit_36, print_36, pad_start, id_text, is_prefix, is_lower_or_digit,
}

abbrev value_of : ℕ → ℕ
value_of c = if ltb c b'a' then c - b'0' else c - b'a' + 10

read_36 : ℕ → Text → ℕ
read_36 acc [] = acc
read_36 acc (c ∷ s) = read_36 (acc * 36 + value_of c) s

read_36-emit_36 :
    (fuel n : ℕ) (out : Text) → n < fuel → read_36 0 (emit_36 fuel n out) ≡ read_36 n out
unfolding emit_36 read_36
read_36-emit_36 zero n out h = elim h [ ]
read_36-emit_36 (suc fuel) n out h = elim (Bool-cases (n / 36 == 0)) [
  | inl last ↦ rw last (ground arith)
  | inr more ↦
      rw more
        (rw (read_36-emit_36 fuel (n / 36) (digit_36 (n % 36) ∷ out) (ground arith)) (ground arith))
]

read_36-zeros : (k : ℕ) (s : Text) → read_36 0 (replicate k b'0' ++ s) ≡ read_36 0 s
unfolding read_36
read_36-zeros zero s = refl
read_36-zeros (suc k) s = read_36-zeros k s

padded_value : (n : ℕ) → read_36 0 (pad_start 8 (print_36 n)) ≡ n
unfolding pad_start print_36
padded_value n =
    read_36-zeros (8 - length (print_36 n)) (print_36 n)
    ∙ read_36-emit_36 (suc n) n [] (omega arith)
    ∙ unfold read_36 in refl

-- No letter or digit is the separator, so that equal texts separate at the same place.
same_split :
    (p q s t : Text)
    → every is_lower_or_digit p ≡ true
    → every is_lower_or_digit q ≡ true
    → p ++ (b'_' ∷ s) ≡ q ++ (b'_' ∷ t)
    → (p ≡ q) × (s ≡ t)
same_split [] [] s t h k e = (refl, cc)
same_split [] (d ∷ q) s t h k e = absurd (ground arith)
same_split (c ∷ p) [] s t h k e = absurd (ground arith)
same_split (c ∷ p) (d ∷ q) s t h k e =
    let rest = same_split p q s t (ground arith) (ground arith) (cc) in
    let tails = rest.0 in (cc, rest.1)

is_prefix-every : (p : Text) → is_prefix p ≡ true → every is_lower_or_digit p ≡ true
unfolding is_prefix
is_prefix-every [] h = absurd (ground arith)
is_prefix-every (c ∷ p) h = ground arith

-- Ids with the same text have the same prefix and the same number.
pub id_text-injective :
    (p q : Text) (m n : ℕ)
    → is_prefix p ≡ true
    → is_prefix q ≡ true
    → id_text p m ≡ id_text q n
    → (p ≡ q) × (m ≡ n)
unfolding id_text
id_text-injective p q m n h k e =
    let parts = same_split p q _ _ (is_prefix-every p h) (is_prefix-every q k) e in
    (parts.0, sym (padded_value m) ∙ ap (read_36 0) parts.1 ∙ padded_value n)
