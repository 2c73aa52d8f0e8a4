-- ===== src/Insolvency/Waterfall.antt =====
-- Who is paid by a liquidation, and how much.
use worldsimulator.Prelude.{
  ◌≡◌, ◌≢◌, refl, sym, ◌∙◌, ap, subst, true, false, List, [], ◌∷◌, arith, inl, inr, Bool-cases,
  if◌then◌else◌, All,
}
use mathlib.Core.List.{Perm}
use worldsimulator.Prelude.Int.{
  ℤ, pos, pos_part, neg_part, ◌+ℤ◌, ◌-ℤ◌, ◌≤ℤ◌, ◌<ℤ◌, ltb_ℤ, leb_ℤ, int_laws,
}
use worldsimulator.Prelude.Decimal.{Text}
use worldsimulator.Prelude.Texts.{text_before, text_before_asym}
use worldsimulator.Prelude.Sort.{sort, IsSorted, sort-IsSorted, sort-Perm, sort-All}
use worldsimulator.Prelude.Results.{
  ok, validation_failed, >>=-eq-ok, throw_if-eq-ok, ok-injective, assert_safe_integer,
}
use worldsimulator.Insolvency.{
  Claim, Allocation, has_seen, check_claims, claim_before, pay_claims, allocate_creditor_waterfall,
}

abbrev pub amounts : List Claim → ℤ
amounts [] = pos 0
amounts (c ∷ cs) = c.amount_cents +ℤ amounts cs

abbrev pub recovered : List Allocation → ℤ
recovered [] = pos 0
recovered (a ∷ as') = a.recovered_cents +ℤ recovered as'

-- The claims, in order, against the pool that is left: each gets an allocation whose two parts are
-- not negative and sum to the claim, and is written off in part only if the pool is then empty.
abbrev pub Drains : (pool : ℤ) → List Claim → List Allocation → Type 0
Drains pool [] [] = Unit
Drains pool (c ∷ cs) (a ∷ as') =
    (a.claim_id ≡ c.id)
    × (a.recovered_cents +ℤ a.written_off_cents ≡ c.amount_cents)
    × (pos 0 ≤ℤ a.recovered_cents)
    × (pos 0 ≤ℤ a.written_off_cents)
    × (a.written_off_cents ≢ pos 0 → pool -ℤ a.recovered_cents ≡ pos 0)
    × Drains (pool -ℤ a.recovered_cents) cs as'
Drains pool _ _ = ⊥

abbrev IsPositive : Claim → Type 0
IsPositive c = pos 0 <ℤ c.amount_cents

abbrev pub least : ℤ → ℤ → ℤ
least a b = if ltb_ℤ b a then b else a

part_rest : (a r : ℤ) → r +ℤ (a -ℤ r) ≡ a
part_rest a r = grind int_laws

difference_self : (a : ℤ) → a -ℤ a ≡ pos 0
difference_self a = grind int_laws

difference_nonnegative : (a r : ℤ) → r ≤ℤ a → pos 0 ≤ℤ a -ℤ r
difference_nonnegative a r h = grind int_laws

least_step :
    (pool a rest : ℤ)
    → ltb_ℤ a pool ≡ true
    → pos 0 ≤ℤ rest
    → a +ℤ least (pool -ℤ a) rest ≡ least pool (a +ℤ rest)
least_step pool a rest h n = elim (Bool-cases (ltb_ℤ rest (pool -ℤ a))) [
  | inl fits ↦ let all : ltb_ℤ (a +ℤ rest) pool ≡ true = grind int_laws in rw (fits, all)
  | inr short ↦
      let none_left : ltb_ℤ (a +ℤ rest) pool ≡ false = grind int_laws in
      rw (short, none_left) (grind int_laws)
]

least_end :
    (pool a rest : ℤ)
    → ltb_ℤ a pool ≡ false
    → pos 0 ≤ℤ rest
    → pool +ℤ least (pos 0) rest ≡ least pool (a +ℤ rest)
least_end pool a rest h n =
    let nothing : ltb_ℤ rest (pos 0) ≡ false = ground arith in
    let none_left : ltb_ℤ (a +ℤ rest) pool ≡ false = grind int_laws in
    rw (nothing, none_left) (grind int_laws)

pay-Drains :
    (pool : ℤ) (cs : List Claim)
    → pos 0 ≤ℤ pool
    → All IsPositive cs
    → Drains pool cs (pay_claims pool cs)
      × (recovered (pay_claims pool cs) ≡ least pool (amounts cs))
      × (pos 0 ≤ℤ amounts cs)
unfolding pay_claims
pay-Drains pool [] h p = (tt, ground arith, omega arith)
pay-Drains pool (c ∷ cs) h p = elim (Bool-cases (ltb_ℤ c.amount_cents pool)) [
  | inl more ↦
      let (d, s, n) = pay-Drains (pool -ℤ c.amount_cents) cs (grind int_laws) p.1 in
      rw more (
        (
          refl,
          part_rest c.amount_cents c.amount_cents,
          omega (arith, p.0),
          difference_nonnegative c.amount_cents c.amount_cents (omega arith),
          λ e. absurd (e (difference_self c.amount_cents)),
          d,
        ),
        rw s (least_step pool c.amount_cents (amounts cs) more n),
        omega (int_laws, p.0, n),
      )
  | inr less ↦
      let (d, s, n) = pay-Drains (pool -ℤ pool) cs (rw (difference_self pool) (omega arith)) p.1 in
      rw less (
        (
          refl,
          part_rest c.amount_cents pool,
          h,
          difference_nonnegative c.amount_cents pool (ground arith),
          λ e. difference_self pool,
          d,
        ),
        rw (s, difference_self pool) (least_end pool c.amount_cents (amounts cs) less n),
        omega (int_laws, p.0, n),
      )
]

IsPositive-claims :
    (seen : List Text) (cs : List Claim) {u : Unit {0}}
    → check_claims seen cs ≡ ok u
    → All IsPositive cs
unfolding check_claims
IsPositive-claims seen [] e = tt
IsPositive-claims seen (c ∷ cs) {u} e =
    let (_, e₁) = throw_if-eq-ok (has_seen c.id seen) validation_failed _ e in
    let (_, _, e₂) = >>=-eq-ok (assert_safe_integer c.seniority 1) _ e₁ in
    let (_, _, e₃) = >>=-eq-ok (assert_safe_integer c.registered_tick 0) _ e₂ in
    let (positive, e₄) = throw_if-eq-ok (leb_ℤ c.amount_cents (pos 0)) validation_failed _ e₃ in
    (ground arith, IsPositive-claims (c.id ∷ seen) cs {u = u} e₄)

claim_before_asym : (a b : Claim) → claim_before a b ≡ true → claim_before b a ≡ false
unfolding claim_before
claim_before_asym a b e = ground (arith, text_before_asym a.id b.id)

-- The more senior claim first, then the one registered earlier, then the one with the smaller id.
abbrev pub IsServed : List Claim → Type 0
IsServed [] = Unit
IsServed (a ∷ []) = Unit
IsServed (a ∷ b ∷ rest) =
    (a.seniority ≤ℤ b.seniority)
    × (a.seniority ≡ b.seniority → a.registered_tick ≤ℤ b.registered_tick)
    × (a.seniority ≡ b.seniority
        → a.registered_tick ≡ b.registered_tick
        → text_before b.id a.id ≡ false)
    × IsServed (b ∷ rest)

served_first :
    (a b : Claim)
    → claim_before b a ≡ false
    → (a.seniority ≤ℤ b.seniority)
      × (a.seniority ≡ b.seniority → a.registered_tick ≤ℤ b.registered_tick)
      × (a.seniority ≡ b.seniority
          → a.registered_tick ≡ b.registered_tick
          → text_before b.id a.id ≡ false)
unfolding claim_before
served_first a b h = (
  ground arith,
  λ e. ground (arith, ap pos_part e, ap neg_part e),
  λ e k. ground (arith, ap pos_part e, ap neg_part e, ap pos_part k, ap neg_part k),
)

sorted-IsServed : (cs : List Claim) → IsSorted claim_before cs → IsServed cs
sorted-IsServed [] h = tt
sorted-IsServed (a ∷ []) h = tt
sorted-IsServed (a ∷ b ∷ rest) h =
    let (senior, earlier, smaller) = served_first a b h.0 in
    (senior, earlier, smaller, sorted-IsServed (b ∷ rest) h.1)

-- A waterfall that is returned serves each of the claims once, in order of seniority, then
-- registration, then id. Each claim is split into a recovered and a written-off part, neither
-- negative, and is written off in part only if it used the pool up; and together the claims
-- recover the lesser of the pool and their total.
pub waterfall-Drains :
    (pool : ℤ) (claims : List Claim) {as' : List Allocation}
    → allocate_creditor_waterfall pool claims ≡ ok as'
    → (ordered : List Claim) × Perm ordered claims
      × IsSorted claim_before ordered
      × IsServed ordered
      × Drains pool ordered as'
      × (recovered as' ≡ least pool (amounts ordered))
unfolding allocate_creditor_waterfall
waterfall-Drains pool claims {as'} e =
    let (nonnegative, e₁) = throw_if-eq-ok (ltb_ℤ pool (pos 0)) validation_failed _ e in
    let (_, checked, e₂) = >>=-eq-ok (check_claims [] claims) _ e₁ in
    let ordered = sort claim_before claims in
    let positive = sort-All claim_before IsPositive claims (IsPositive-claims [] claims checked) in
    let (d, s, _) = pay-Drains pool ordered (ground arith) positive in
    (
      ordered,
      sort-Perm claim_before claims,
      sort-IsSorted claim_before claim_before_asym claims,
      sorted-IsServed (sort claim_before claims)
          (sort-IsSorted claim_before claim_before_asym claims),
      subst (Drains pool ordered) (ok-injective e₂) d,
      ap recovered (sym (ok-injective e₂)) ∙ s,
    )
