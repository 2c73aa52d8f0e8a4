-- ===== src/Money/Allocation.antt =====
-- `allocate` splits an amount exactly, and each part is the floor of its share or one cent more.
use native.Mathlib.Nat.{le_of_mul-le-mul_right}
use worldsimulator.Prelude.{
  ℕ, zero, suc, ◌+◌, ◌-◌, ◌*◌, ◌/◌, ◌≤◌, ◌<◌, ◌≡◌, refl, ap, ◌∙◌, inl, inr, List, [], ◌∷◌, map,
  arith, ◌==◌, if◌then◌else◌, length, sum, ◌⊎◌, leb, ==_iff, All, length-map, get_or, Bool-cases,
}
use worldsimulator.Prelude.Int.{neg-pos_suc, ℤ, pos, negsuc, neg, sum_ℤ, sum_ℤ-map-neg, int_laws}
use worldsimulator.Prelude.Results.{ok, err, money_error}
use worldsimulator.Prelude.Sort.{sort, sum_of, sum_of-sort, length-sort, sort-All}
use worldsimulator.Money.Natural.{div_mod, mod_lt}
use worldsimulator.Money.{
  Remainder, natural_weights, floor_parts, remainders_from, remainder_before, increment_at,
  hand_out, allocate_natural, allocate,
}

pub length-increment_at : (i : ℕ) (ps : List ℕ) → length (increment_at i ps) ≡ length ps
unfolding increment_at
length-increment_at i [] = refl
length-increment_at zero (p ∷ ps) = refl
length-increment_at (suc i) (p ∷ ps) = ap suc (length-increment_at i ps)

sum-increment_at : (i : ℕ) (ps : List ℕ) → i < length ps → sum (increment_at i ps) ≡ suc (sum ps)
unfolding increment_at
sum-increment_at i [] h = elim h [ ]
sum-increment_at zero (p ∷ ps) h = omega arith
sum-increment_at (suc i) (p ∷ ps) h = omega (arith, sum-increment_at i ps (omega arith))

length-hand_out :
    (n : ℕ) (rs : List Remainder) (ps : List ℕ) → length (hand_out n rs ps) ≡ length ps
unfolding hand_out
length-hand_out n [] ps = refl
length-hand_out zero (r ∷ rs) ps = refl
length-hand_out (suc n) (r ∷ rs) ps =
    length-hand_out n rs (increment_at r.index ps) ∙ length-increment_at r.index ps

-- Every entry names a part.
abbrev InRange : ℕ → List Remainder → Type 0
InRange n = All (λ r. r.index < n)

sum-hand_out :
    (n : ℕ) (rs : List Remainder) (ps : List ℕ)
    → InRange (length ps) rs
    → n ≤ length rs
    → sum (hand_out n rs ps) ≡ n + sum ps
unfolding hand_out
sum-hand_out zero [] ps h k = omega arith
sum-hand_out (suc n) [] ps h k = absurd (omega arith)
sum-hand_out zero (r ∷ rs) ps h k = omega arith
sum-hand_out (suc n) (r ∷ rs) ps h k = omega (
  arith,
  sum-increment_at r.index ps h.0,
  sum-hand_out n rs (increment_at r.index ps) (rw (length-increment_at r.index ps) h.1)
      (omega arith),
)

length-remainders : (i a t : ℕ) (ws : List ℕ) → length (remainders_from i a t ws) ≡ length ws
unfolding remainders_from
length-remainders i a t [] = refl
length-remainders i a t (w ∷ ws) = ap suc (length-remainders (i + 1) a t ws)

length-floor_parts : (a t : ℕ) (ws : List ℕ) → length (floor_parts a t ws) ≡ length ws
unfolding floor_parts
length-floor_parts a t [] = refl
length-floor_parts a t (w ∷ ws) = ap suc (length-floor_parts a t ws)

remainders-InRange :
    (i a t n : ℕ) (ws : List ℕ) → i + length ws ≤ n → InRange n (remainders_from i a t ws)
unfolding remainders_from
remainders-InRange i a t n [] h = tt
remainders-InRange i a t n (w ∷ ws) h =
    (omega arith, remainders-InRange (i + 1) a t n ws (omega arith))

-- What the floors leave: less than one cent for each weight.
remainder_of : Remainder → ℕ
remainder_of r = r.remainder

shares_split :
    (i a t : ℕ) (ws : List ℕ)
    → 0 < t
    → a * sum ws ≡ sum (floor_parts a t ws) * t + sum_of remainder_of (remainders_from i a t ws)
unfolding floor_parts remainders_from remainder_of
shares_split i a t [] h = omega arith
shares_split i a t (w ∷ ws) h = grind (arith, div_mod (a * w) t h, shares_split (i + 1) a t ws h)

remainders_small :
    (i a t : ℕ) (ws : List ℕ)
    → 0 < t
    → sum_of remainder_of (remainders_from i a t ws) + length ws ≤ length ws * t
unfolding remainders_from remainder_of
remainders_small i a t [] h = omega arith
remainders_small i a t (w ∷ ws) h =
    omega (arith, mod_lt (a * w) t h, remainders_small (i + 1) a t ws h)

leftover_bounds :
    (a s r n t : ℕ) → 0 < t → a * t ≡ s * t + r → r + n ≤ n * t → (s ≤ a) × (a ≤ s + n)
leftover_bounds a s r n t h e k = (
  le_of_mul-le-mul_right {m = s} {n = a} {k = t} (omega arith) h,
  le_of_mul-le-mul_right {m = a} {n = s + n} {k = t} (omega arith) h,
)

module _ (a : ℕ) (ws : List ℕ) (positive : 0 < sum ws) where
  abbrev parts : List ℕ
  parts = floor_parts a (sum ws) ws

  floors_bounds : (sum parts ≤ a) × (a ≤ sum parts + length ws)
  floors_bounds =
      leftover_bounds a (sum parts) (sum_of remainder_of (remainders_from 0 a (sum ws) ws))
        (length ws) (sum ws) positive (shares_split 0 a (sum ws) ws positive)
        (remainders_small 0 a (sum ws) ws positive)

  pub sum-allocate_natural : sum (allocate_natural a ws) ≡ a
  unfolding allocate_natural
  sum-allocate_natural = omega (
    arith,
    floors_bounds,
    sum-hand_out (a - sum parts) (sort remainder_before (remainders_from 0 a (sum ws) ws)) parts
        (sort-All remainder_before (λ r. r.index < length parts) (remainders_from 0 a (sum ws) ws)
          (remainders-InRange 0 a (sum ws) (length parts) ws
            (omega (arith, length-floor_parts a (sum ws) ws))))
        (omega (
          arith,
          floors_bounds,
          length-sort remainder_before (remainders_from 0 a (sum ws) ws),
          length-remainders 0 a (sum ws) ws,
        )),
  )

  pub length-allocate_natural : length (allocate_natural a ws) ≡ length ws
  unfolding allocate_natural
  length-allocate_natural =
      length-hand_out (a - sum parts) (sort remainder_before (remainders_from 0 a (sum ws) ws))
        parts
      ∙ length-floor_parts a (sum ws) ws

-- The number of entries that name part `j`.
names : ℕ → Remainder → ℕ
names j r = if r.index == j then 1 else 0

nth-increment_at :
    (i j : ℕ) (ps : List ℕ)
    → (get_or ps j 0 ≤ get_or (increment_at i ps) j 0)
      × (get_or (increment_at i ps) j 0 ≤ get_or ps j 0 + (if i == j then 1 else 0))
unfolding increment_at
nth-increment_at i j [] = omega arith
nth-increment_at zero zero (p ∷ ps) = ground arith
nth-increment_at zero (suc j) (p ∷ ps) = ground arith
nth-increment_at (suc i) zero (p ∷ ps) = ground arith
nth-increment_at (suc i) (suc j) (p ∷ ps) = ground (arith, nth-increment_at i j ps)

nth-hand_out :
    (n j : ℕ) (rs : List Remainder) (ps : List ℕ)
    → (get_or ps j 0 ≤ get_or (hand_out n rs ps) j 0)
      × (get_or (hand_out n rs ps) j 0 ≤ get_or ps j 0 + sum_of (names j) rs)
unfolding hand_out names
nth-hand_out zero j [] ps = omega arith
nth-hand_out (suc n) j [] ps = omega arith
nth-hand_out zero j (r ∷ rs) ps = omega arith
nth-hand_out (suc n) j (r ∷ rs) ps =
    omega (arith, nth-increment_at r.index j ps, nth-hand_out n j rs (increment_at r.index ps))

names_once :
    (i j a t : ℕ) (ws : List ℕ)
    → sum_of (names j) (remainders_from i a t ws) ≤ (if leb i j then 1 else 0)
unfolding remainders_from names
names_once i j a t [] = omega arith
names_once i j a t (w ∷ ws) = ground (arith, names_once (i + 1) j a t ws)

names_at_most_once : (j a t : ℕ) (ws : List ℕ) → sum_of (names j) (remainders_from 0 a t ws) ≤ 1
names_at_most_once j a t ws = ground (arith, names_once 0 j a t ws)

nth-floor_parts :
    (j a t : ℕ) (ws : List ℕ) → 0 < t → get_or (floor_parts a t ws) j 0 ≡ a * get_or ws j 0 / t
unfolding floor_parts
nth-floor_parts j a t [] h = grind arith
nth-floor_parts zero a t (w ∷ ws) h = refl
nth-floor_parts (suc j) a t (w ∷ ws) h = nth-floor_parts j a t ws h

-- Each part of a nonnegative amount is the floor of its exact share, or one cent more.
pub allocate_natural_fair :
    (a : ℕ) (ws : List ℕ) (j : ℕ)
    → 0 < sum ws
    → (a * get_or ws j 0 / sum ws ≤ get_or (allocate_natural a ws) j 0)
      × (get_or (allocate_natural a ws) j 0 ≤ a * get_or ws j 0 / sum ws + 1)
unfolding allocate_natural
allocate_natural_fair a ws j h =
    let ps = floor_parts a (sum ws) ws in
    let rs = remainders_from 0 a (sum ws) ws in
    rw (← nth-floor_parts j a (sum ws) ws h) (
      omega (
        arith,
        nth-hand_out (a - sum ps) j (sort remainder_before rs) ps,
        sum_of-sort remainder_before (names j) rs,
        names_at_most_once j a (sum ws) ws,
      ))

natural_weights-map_pos : (ws : List ℕ) → natural_weights (map pos ws) ≡ ok ws
unfolding natural_weights
natural_weights-map_pos [] = refl
natural_weights-map_pos (w ∷ ws) = rw (natural_weights-map_pos ws)

sum_ℤ-map_pos : (xs : List ℕ) → sum_ℤ (map pos xs) ≡ pos (sum xs)
sum_ℤ-map_pos [] = refl
sum_ℤ-map_pos (x ∷ xs) = rw (sum_ℤ-map_pos xs) (omega int_laws)

-- At nonnegative weights with a positive total `allocate` returns one part for each weight, and the
-- parts add up to the amount exactly, whatever its sign.
pub allocate_exact :
    (amount : ℤ) (ws : List ℕ)
    → 0 < sum ws
    → (parts : List ℤ) × (allocate amount (map pos ws) ≡ ok parts)
      × (sum_ℤ parts ≡ amount)
      × (length parts ≡ length ws)
unfolding allocate
allocate_exact amount [] h = elim h [ ]
allocate_exact (pos a) (w ∷ ws) h =
    let ps = allocate_natural a (w ∷ ws) in
    (
      map pos ps,
      rw (natural_weights-map_pos ws) (ground arith),
      sum_ℤ-map_pos ps ∙ ap pos (sum-allocate_natural a (w ∷ ws) h),
      length-map pos ps ∙ length-allocate_natural a (w ∷ ws) h,
    )
allocate_exact (negsuc a) (w ∷ ws) h =
    let ps = allocate_natural (suc a) (w ∷ ws) in
    (
      map neg (map pos ps),
      rw (natural_weights-map_pos ws) (ground arith),
      sum_ℤ-map-neg (map pos ps)
          ∙ ap neg (sum_ℤ-map_pos ps ∙ ap pos (sum-allocate_natural (suc a) (w ∷ ws) h))
          ∙ neg-pos_suc a,
      length-map neg (map pos ps) ∙ length-map pos ps ∙ length-allocate_natural (suc a) (w ∷ ws) h,
    )

-- Some weight is negative.
abbrev pub HasNegative : List ℤ → Type 0
HasNegative [] = ⊥
HasNegative (pos w ∷ ws) = HasNegative ws
HasNegative (negsuc w ∷ ws) = Unit

natural_weights-cases :
    (weights : List ℤ)
    → ((HasNegative weights) × (natural_weights weights ≡ err money_error))
      ⊎ ((ws : List ℕ) × (weights ≡ map pos ws) × (natural_weights weights ≡ ok ws))
unfolding natural_weights
natural_weights-cases [] = inr ([], refl, refl)
natural_weights-cases (negsuc w ∷ ws) = inl (tt, refl)
natural_weights-cases (pos w ∷ ws) = elim (natural_weights-cases ws) [
  | inl (h, e) ↦ inl (h, rw e)
  | inr (vs, e, f) ↦ inr (w ∷ vs, rw e, rw f)
]

-- It throws, always a `MoneyError`, on an empty list, a negative weight or a zero total, and at no
-- other weights.
pub allocate_total :
    (amount : ℤ) (weights : List ℤ)
    → ((allocate amount weights ≡ err money_error)
        × ((weights ≡ []) ⊎ HasNegative weights ⊎ (sum_ℤ weights ≡ pos 0)))
      ⊎ ((parts : List ℤ) × (allocate amount weights ≡ ok parts) × (sum_ℤ parts ≡ amount))
unfolding allocate
allocate_total amount [] = inl (refl, inl refl)
allocate_total amount (w ∷ ws) = elim (natural_weights-cases (w ∷ ws)) [
  | inl (h, e) ↦ inl (rw e, inr (inl h))
  | inr (vs, e, f) ↦ elim (Bool-cases (sum vs == 0)) [
    | inl zero_total ↦ inl (
      rw f (rw zero_total),
      inr (inr (ap sum_ℤ e ∙ sum_ℤ-map_pos vs ∙ ap pos ((==_iff _ _).0 zero_total))),
    )
    | inr positive ↦ inr (
        let (ps, p, q, _) = allocate_exact amount vs (ground arith) in
        (ps, ap (allocate amount) e ∙ p, q))
  ]
]
