-- ===== src/Labor/Fitness.antt =====
-- Who is fit for a job, and what a candidate scores, against the tests and the sums of the rules.
use worldsimulator.Prelude.{
  ℕ, ◌+◌, ◌-◌, ◌*◌, ◌/◌, ◌≤◌, ◌<◌, ◌≡◌, ◌≢◌, refl, ap, true, List, [], ◌∷◌, every, arith, inl, inr,
  Bool-cases, All, min,
}
use worldsimulator.Prelude.Int.{
  ℤ, pos, ◌+ℤ◌, ◌*ℤ◌, ◌≤ℤ◌, quot-pos_pos, *ℤ-pos_pos, -ℤ-pos_pos, eqb_ℤ, leb_ℤ,
}
use worldsimulator.Prelude.Decimal.{Text}
use worldsimulator.Prelude.Texts.{codes}
use worldsimulator.Money.Natural.{div_mod, mod_lt}
use worldsimulator.Labor.{
  JobRequirement, LaborCandidate, ScoredLaborCandidate, skill, meets_requirement, skill_score,
  clamp_premium, wage_premium_bp,
}

-- Who may take a job of some wage: not employed, content with the wage, and skilled enough.
abbrev pub Suits : (wage reservation : ℕ) → List JobRequirement → LaborCandidate → Type 0
Suits wage reservation requirements c =
    (c.employment_status ≢ codes "employed")
    × (reservation ≤ wage)
    × All (λ r. r.minimum ≤ℤ skill c.skills r.skill_code) requirements

-- The skills that a job asks for, by their weights.
abbrev pub weighted : List (Text × ℤ) → List JobRequirement → ℤ
weighted skills [] = pos 0
weighted skills (r ∷ rs) = skill skills r.skill_code *ℤ r.weight +ℤ weighted skills rs

-- The premium of a wage over a reservation that is no larger, in basis points: rounded down, and at
-- most 100000; without a reservation it is 10000.
abbrev pub Exceeds : (wage reservation premium : ℕ) → Type 0
Exceeds wage reservation premium =
    (reservation ≡ 0 → premium ≡ 10000)
    × (0 < reservation
        → (premium ≤ 100000)
          × (premium * reservation ≤ (wage - reservation) * 10000)
          × (premium < 100000 → (wage - reservation) * 10000 < premium * reservation + reservation))

-- A score: ten thousand times the weighted skills, and the premium.
abbrev pub IsWorth : (wage reservation : ℕ) → List JobRequirement → ScoredLaborCandidate → Type 0
IsWorth wage reservation requirements s =
    (premium : ℕ) × Exceeds wage reservation premium
    × (s.score ≡ weighted s.candidate.skills requirements *ℤ pos 10000 +ℤ pos premium)

pub skill_score-weighted :
    (skills : List (Text × ℤ)) (rs : List JobRequirement)
    → skill_score skills rs ≡ weighted skills rs
unfolding skill_score
skill_score-weighted skills [] = refl
skill_score-weighted skills (r ∷ rs) =
    ap (λ z. skill skills r.skill_code *ℤ r.weight +ℤ z) (skill_score-weighted skills rs)

pub every-All :
    (skills : List (Text × ℤ)) (rs : List JobRequirement)
    → every (meets_requirement skills) rs ≡ true
    → All (λ r. r.minimum ≤ℤ skill skills r.skill_code) rs
unfolding meets_requirement
every-All skills [] e = tt
every-All skills (r ∷ rs) e = (ground arith, every-All skills rs (ground arith))

pub All-every :
    (skills : List (Text × ℤ)) (rs : List JobRequirement)
    → All (λ r. r.minimum ≤ℤ skill skills r.skill_code) rs
    → every (meets_requirement skills) rs ≡ true
unfolding meets_requirement
All-every skills [] h = refl
All-every skills (r ∷ rs) h =
    let met : leb_ℤ r.minimum (skill skills r.skill_code) ≡ true = ground arith in
    rw met (All-every skills rs h.1)

times_le : (a b c : ℕ) → a ≤ b → a * c ≤ b * c
times_le a b c h = grind arith

capped_premium :
    (wage reservation : ℕ)
    → 0 < reservation
    → reservation ≤ wage
    → Exceeds wage reservation (min ((wage - reservation) * 10000 / reservation) 100000)
capped_premium wage reservation h le =
    let n = (wage - reservation) * 10000 in
    let q = n / reservation in
    let whole = div_mod n reservation h in
    let part = mod_lt n reservation h in
    (
      λ idle. absurd (omega arith),
      λ _. (
        omega arith,
        omega (arith, whole, times_le (min q 100000) q reservation (omega arith)),
        λ k. let same : min q 100000 ≡ q = omega arith in rw same (omega (arith, whole, part)),
      ),
    )

pub premium-Exceeds :
    (wage reservation : ℕ)
    → reservation ≤ wage
    → (premium : ℕ) × Exceeds wage reservation premium
      × (clamp_premium (wage_premium_bp (pos wage) (pos reservation)) ≡ pos premium)
unfolding wage_premium_bp clamp_premium
premium-Exceeds wage reservation le = elim (Bool-cases (eqb_ℤ (pos reservation) (pos 0))) [
  | inl idle ↦ (10000, (λ _. refl, λ some_left. absurd (ground arith)), rw idle refl)
  | inr asked ↦
      let positive : 0 < reservation = ground arith in
      (
        min ((wage - reservation) * 10000 / reservation) 100000,
        capped_premium wage reservation positive le,
        rw
            (
              asked,
              -ℤ-pos_pos wage reservation le,
              *ℤ-pos_pos (wage - reservation) 10000,
              quot-pos_pos ((wage - reservation) * 10000) reservation positive,
            )
            (ground arith),
      )
]
