-- ===== src/Finance/Spending.antt =====
-- A household never spends what it does not have.
use worldsimulator.Prelude.{
  ◌≡◌, ◌≢◌, refl, true, List, [], ◌∷◌, arith, All, Bool-cases, inl, inr, ◌⊎◌,
}
use worldsimulator.Prelude.Int.{ℤ, pos, ◌+ℤ◌, ◌-ℤ◌, ◌≤ℤ◌, ◌<ℤ◌, ltb_ℤ, leb_ℤ, int_laws}
use worldsimulator.Finance.{
  is_utilities, ExpenseRequest, Expense, approved_of, allocate_household_spending,
}

abbrev pub approved_total : List Expense → ℤ
approved_total [] = pos 0
approved_total (x ∷ xs) = x.approved_cents +ℤ approved_total xs

abbrev pub IsRequest : ExpenseRequest → Type 0
IsRequest r = pos 0 ≤ℤ r.requested_cents

-- The expenses, in order, against what is left: none is negative or above what was asked for, and
-- what is cut has to be: the money does not reach. A utility bill is paid in full or not at all.
abbrev pub Spends : (remaining : ℤ) → List ExpenseRequest → List Expense → Type 0
Spends remaining [] [] = Unit
Spends remaining (r ∷ rs) (x ∷ xs) =
    (x.request ≡ r)
    × (pos 0 ≤ℤ x.approved_cents)
    × (x.approved_cents ≤ℤ r.requested_cents)
    × (x.approved_cents ≢ r.requested_cents → remaining <ℤ r.requested_cents)
    × (is_utilities r.category ≡ true
        → (x.approved_cents ≡ pos 0) ⊎ (x.approved_cents ≡ r.requested_cents))
    × Spends (remaining -ℤ x.approved_cents) rs xs
Spends remaining _ _ = ⊥

approved_bounds :
    (remaining : ℤ) (r : ExpenseRequest)
    → pos 0 ≤ℤ r.requested_cents
    → let a = approved_of remaining r in
      (pos 0 ≤ℤ a)
      × (a ≤ℤ r.requested_cents)
      × (a ≢ r.requested_cents → remaining <ℤ r.requested_cents)
      × (is_utilities r.category ≡ true → (a ≡ pos 0) ⊎ (a ≡ r.requested_cents))
      × (pos 0 ≤ℤ remaining → a ≤ℤ remaining)
      × (remaining <ℤ pos 0 → a ≡ pos 0)
unfolding approved_of
approved_bounds remaining r h = elim (Bool-cases (leb_ℤ r.requested_cents remaining)) [
  | inl fits ↦
      let full : approved_of remaining r ≡ r.requested_cents = ground arith in
      rw full (
        h,
        omega arith,
        λ no_. absurd (no_ refl),
        λ _. inr refl,
        λ _. ground arith,
        λ k. absurd (ground arith),
      )
  | inr short ↦ elim (Bool-cases (is_utilities r.category)) [
    | inl whole ↦
        let cut : approved_of remaining r ≡ pos 0 = ground arith in
        rw cut (omega arith, h, λ _. ground arith, λ _. inl refl, λ k. k, λ _. refl)
    | inr part ↦ elim (Bool-cases (ltb_ℤ remaining (pos 0))) [
      | inl negative ↦
          let cut : approved_of remaining r ≡ pos 0 = ground arith in
          rw cut (omega arith, h, λ _. ground arith, λ _. inl refl, λ k. k, λ _. refl)
      | inr some_ ↦
          let cut : approved_of remaining r ≡ remaining = ground arith in
          rw (cut, part)
            (
              ground arith,
              ground arith,
              λ _. ground arith,
              λ u. absurd (ground arith),
              λ _. omega arith,
              λ k. absurd (ground arith),
            )
    ]
  ]
]

-- Whatever is available and whatever is asked for, if no request is negative then the expenses are
-- for the requests in order, none is negative or above what was asked for, one is cut only when
-- the money left falls short of it, utilities are paid in full or not at all, and together they
-- cost at most what is available, and nothing if that is negative.
pub spending-Spends :
    (available : ℤ) (requests : List ExpenseRequest)
    → All IsRequest requests
    → let xs = allocate_household_spending available requests in
      Spends available requests xs
      × (pos 0 ≤ℤ available → approved_total xs ≤ℤ available)
      × (available <ℤ pos 0 → approved_total xs ≤ℤ pos 0)
unfolding allocate_household_spending
spending-Spends available [] h = (tt, λ k. k, λ _. omega arith)
spending-Spends available (r ∷ rs) h =
    let a = approved_of available r in
    let (low, high, cut, whole, left, none_left) = approved_bounds available r h.0 in
    let (s, fits, nothing) = spending-Spends (available -ℤ a) rs h.1 in
    (
      (refl, low, high, cut, whole, s),
      λ k. within available a _ (fits (difference_nonnegative available a (left k))),
      λ k. rest_nothing available a _ k (none_left k) nothing,
    )
  where
    difference_nonnegative : (x y : ℤ) → y ≤ℤ x → pos 0 ≤ℤ x -ℤ y
    difference_nonnegative x y k = grind int_laws

    within : (x y z : ℤ) → z ≤ℤ x -ℤ y → y +ℤ z ≤ℤ x
    within x y z k = grind int_laws

    rest_nothing :
        (x y z : ℤ) → x <ℤ pos 0 → y ≡ pos 0 → (x -ℤ y <ℤ pos 0 → z ≤ℤ pos 0) → y +ℤ z ≤ℤ pos 0
    rest_nothing x y z k e f =
        let g : z ≤ℤ pos 0 = f (rw e (grind int_laws)) in rw e (omega (int_laws, g))
