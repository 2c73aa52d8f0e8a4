-- ===== src/Ids/Distinctness.antt =====
-- Ids drawn one after the other from one factory that is not restored in between.
use worldsimulator.Prelude.{
  ℕ, ◌+◌, ◌-◌, not, leb, subst, ◌≤◌, ◌<◌, ◌≡◌, ◌≢◌, refl, sym, ap, ◌∙◌, true, false, List, [], ◌∷◌,
  ◌++◌, All, arith, inl, inr, Bool-cases,
}
use worldsimulator.Prelude.Decimal.{Text}
use worldsimulator.Prelude.Texts.{text_eq, text_eq_refl, text_eq→≡}
use worldsimulator.Prelude.Results.{
  Result, Result-cases, ok, err, codec_error, max_safe, throw_if-eq-ok, ok-injective,
}
use worldsimulator.Ids.{Counters, counter, set_counter, or_zero, next, id_text, is_prefix}
use worldsimulator.Ids.Numerals.{id_text-injective}

-- The counters after a call of `next` and the ids it gave: a call that throws leaves the counters as
-- they were and gives none.
abbrev pub kept : Counters → Result (Counters × Text) → Counters × List Text
kept counters (err error) = (counters, [])
kept counters (ok drawn) = (drawn.0, drawn.1 ∷ [])

-- One call of `next` for each prefix, in order.
unfoldable pub draw_each : Counters → List Text → Counters × List Text
draw_each counters [] = (counters, [])
draw_each counters (prefix ∷ prefixes) =
    let first = kept counters (next counters prefix) in
    let rest = draw_each first.0 prefixes in (rest.0, first.1 ++ rest.1)

abbrev pub Distinct : List Text → Type 0
Distinct [] = Unit
Distinct (s ∷ ss) = All (λ t. s ≢ t) ss × Distinct ss

abbrev value : Counters → Text → ℕ
value counters p = or_zero (counter counters p)

counter_set_same : (cs : Counters) (p : Text) (n : ℕ) → value (set_counter cs p n) p ≡ n
unfolding counter set_counter
counter_set_same [] p n = rw (text_eq_refl p)
counter_set_same (entry ∷ cs) p n = elim (Bool-cases (text_eq entry.0 p)) [
  | inl same ↦ rw (same, same)
  | inr other ↦ rw (other, other, counter_set_same cs p n)
]

counter_set_other :
    (cs : Counters) (p q : Text) (n : ℕ)
    → text_eq p q ≡ false
    → value (set_counter cs p n) q ≡ value cs q
unfolding counter set_counter
counter_set_other [] p q n h = rw h
counter_set_other (entry ∷ cs) p q n h = elim (Bool-cases (text_eq entry.0 p)) [
  | inl same ↦
      let here = text_eq→≡ entry.0 p same in
      let apart : text_eq entry.0 q ≡ false = rw here h in rw (same, apart)
  | inr other ↦ elim (Bool-cases (text_eq entry.0 q)) [
    | inl found ↦ rw (other, found)
    | inr skip ↦ rw (other, skip, counter_set_other cs p q n h)
  ]
]

-- Every counter is at least what it was.
counter_grows :
    (cs : Counters) (p q : Text) → value cs q ≤ value (set_counter cs p (value cs p + 1)) q
counter_grows cs p q = elim (Bool-cases (text_eq p q)) [
  | inl same ↦
      let e = text_eq→≡ p q same in
      rw (← e) (rw (counter_set_same cs p (value cs p + 1)) (omega arith))
  | inr other ↦ rw (counter_set_other cs p q (value cs p + 1) other) (omega arith)
]

-- What one draw does: the counter of the prefix goes up by one, and is the id's number.
abbrev Draws : Counters → Text → Counters → Text → Type 0
Draws cs p after id =
    (is_prefix p ≡ true)
    × (after ≡ set_counter cs p (value cs p + 1))
    × (id ≡ id_text p (value cs p + 1))

next-Draws :
    (cs : Counters) (p : Text) {r : Counters × Text} → next cs p ≡ ok r → Draws cs p r.0 r.1
unfolding next
next-Draws cs p e =
    let (valid, rest) = throw_if-eq-ok (not (is_prefix p)) codec_error _ e in
    let (low, done) = throw_if-eq-ok (leb (max_safe - 1) (value cs p)) codec_error _ rest in
    let r = ok-injective done in (ground arith, ap (λ s. s.0) (sym r), ap (λ s. s.1) (sym r))

-- An id that is above the counters.
abbrev IsLater : Counters → Text → Type 0
IsLater cs id = (p : Text) × (n : ℕ) × (is_prefix p ≡ true) × (id ≡ id_text p n) × (value cs p < n)

earlier :
    (cs : Counters) (p id : Text) → IsLater (set_counter cs p (value cs p + 1)) id → IsLater cs id
earlier cs p id (q, n, valid, named, above) =
    (q, n, valid, named, omega (arith, above, counter_grows cs p q))

earlier_all :
    (cs : Counters) (p : Text) (ids : List Text)
    → All (IsLater (set_counter cs p (value cs p + 1))) ids
    → All (IsLater cs) ids
earlier_all cs p [] h = tt
earlier_all cs p (id ∷ ids) h = (earlier cs p id h.0, earlier_all cs p ids h.1)

later_differs :
    (cs : Counters) (p id : Text)
    → is_prefix p ≡ true
    → IsLater (set_counter cs p (value cs p + 1)) id
    → id_text p (value cs p + 1) ≢ id
later_differs cs p id valid (q, n, valid', named, above) e =
    let same = id_text-injective p q (value cs p + 1) n valid valid' (e ∙ named) in
    let at_p = subst (λ t. value (set_counter cs p (value cs p + 1)) t < n) (sym same.0) above in
    omega (arith, at_p, counter_set_same cs p (value cs p + 1), same.1)

later_differ :
    (cs : Counters) (p : Text) (ids : List Text)
    → is_prefix p ≡ true
    → All (IsLater (set_counter cs p (value cs p + 1))) ids
    → All (λ id. id_text p (value cs p + 1) ≢ id) ids
later_differ cs p [] valid h = tt
later_differ cs p (id ∷ ids) valid h =
    (later_differs cs p id valid h.0, later_differ cs p ids valid h.1)

drawn :
    (cs : Counters) (prefixes : List Text)
    → All (IsLater cs) (draw_each cs prefixes).1 × Distinct (draw_each cs prefixes).1
unfolding draw_each
drawn cs [] = (tt, tt)
drawn cs (p ∷ ps) = elim (Result-cases (next cs p)) [
  | inl (first, one) ↦
      let (valid, after, named) = next-Draws cs p one in
      let (later, distinct) = drawn first.0 ps in
      let later' = subst (λ k. All (IsLater k) (draw_each first.0 ps).1) after later in
      rw (one, named)
        (
          (
            (p, value cs p + 1, valid, refl, omega arith),
            earlier_all cs p (draw_each first.0 ps).1 later',
          ),
          (later_differ cs p (draw_each first.0 ps).1 valid later', distinct),
        )
  | inr (error, none_drawn) ↦ rw none_drawn (drawn cs ps)
]

-- As long as a factory is not restored, the ids that it returns, from whatever counters and for
-- whatever prefixes, are different texts, also when some of its calls throw.
pub draw_each-Distinct :
    (counters : Counters) (prefixes : List Text) → Distinct (draw_each counters prefixes).1
draw_each-Distinct counters prefixes = (drawn counters prefixes).1
