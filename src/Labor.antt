-- ===== src/Labor.antt =====
-- packages/engine/src/labor-market.ts: who may take a job, in which order, and when a notice ends.
pub mod Fitness
pub mod Ranking
use worldsimulator.Prelude.{
  ℕ, ◌+◌, ◌*◌, Bool, true, false, not, ◌&&◌, ◌||◌, List, [], ◌∷◌, every, ltb, leb, ◌==◌,
  if◌then◌else◌,
}
use worldsimulator.Prelude.Int.{ℤ, pos, ◌+ℤ◌, ◌-ℤ◌, ◌*ℤ◌, quot, ltb_ℤ, leb_ℤ, eqb_ℤ}
use worldsimulator.Prelude.Decimal.{Text, is_natural_text, natural_of}
use worldsimulator.Prelude.BigInts.{big_int}
use worldsimulator.Prelude.Texts.{codes, text_eq, text_before}
use worldsimulator.Prelude.Sort.{sort}
use worldsimulator.Prelude.Results.{
  Result, ok, err, conflict, validation_failed, max_safe, ◌>>=◌, ◌>>◌, throw_if,
  assert_safe_integer, add_numbers,
}

abbrev pub default_minimum_annual_wage_cents : ℤ
default_minimum_annual_wage_cents = pos 3000000

pub record JobRequirement : Type 0 where
  pub skill_code : Text
  pub minimum : ℤ
  pub weight : ℤ

-- The fields of a job that the rules read.
pub record Job : Type 0 where
  pub id : Text
  pub annual_wage_cents : Text
  pub requirements : List JobRequirement

pub record LaborCandidate : Type 0 where
  pub agent_id : Text
  pub skills : List (Text × ℤ)
  pub reservation_wage_cents : Text
  pub employment_status : Text

pub record ScoredLaborCandidate : Type 0 where
  pub candidate : LaborCandidate
  pub score : ℤ

unfoldable pub assert_job_posting_allowed :
    (company_status annual_wage_cents : Text) → (minimum_wage_cents : ℤ) → Result (Unit {0})
unfolding big_int
assert_job_posting_allowed company_status annual_wage_cents minimum_wage_cents = do
  throw_if (not (text_eq company_status (codes "active"))) conflict
  wage ← big_int annual_wage_cents
  throw_if (ltb_ℤ wage minimum_wage_cents) validation_failed
  ok tt

-- `skills[code] ?? 0`
unfoldable pub skill : List (Text × ℤ) → Text → ℤ
skill [] code = pos 0
skill (entry ∷ rest) code =
    let later = skill rest code in if text_eq entry.0 code then entry.1 else later

unfoldable pub meets_requirement : List (Text × ℤ) → JobRequirement → Bool
meets_requirement skills requirement =
    leb_ℤ requirement.minimum (skill skills requirement.skill_code)

-- The conjunction skips what stands behind a part that is false.
unfoldable pub labor_candidate_eligible : Job → LaborCandidate → Result Bool
unfolding big_int meets_requirement
labor_candidate_eligible job candidate =
    let rest = big_int job.annual_wage_cents >>= λ wage.
    big_int candidate.reservation_wage_cents >>= λ reservation.
    ok (leb_ℤ reservation wage && every (meets_requirement candidate.skills) job.requirements) in
    if text_eq candidate.employment_status (codes "employed") then ok false else rest

unfoldable pub skill_score : List (Text × ℤ) → List JobRequirement → ℤ
skill_score skills [] = pos 0
skill_score skills (r ∷ rs) = skill skills r.skill_code *ℤ r.weight +ℤ skill_score skills rs

-- `Math.max(0, Math.min(100_000, n))`
unfoldable pub clamp_premium : ℤ → ℤ
clamp_premium n = if ltb_ℤ n (pos 0) then pos 0 else if ltb_ℤ (pos 100000) n then pos 100000 else n

unfoldable pub wage_premium_bp : (wage reservation : ℤ) → ℤ
wage_premium_bp wage reservation =
    if eqb_ℤ reservation (pos 0)
    then pos 10000
    else quot ((wage -ℤ reservation) *ℤ pos 10000) reservation

unfoldable pub score_labor_candidate : Job → LaborCandidate → Result ℤ
unfolding big_int
score_labor_candidate job candidate = do
  eligible ← labor_candidate_eligible job candidate
  throw_if (not eligible) conflict
  reservation ← big_int candidate.reservation_wage_cents
  wage ← big_int job.annual_wage_cents
  ok (
      skill_score candidate.skills job.requirements *ℤ pos 10000
      +ℤ clamp_premium (wage_premium_bp wage reservation))

-- `candidates.filter(…)`
unfoldable pub eligible_of : Job → List LaborCandidate → Result (List LaborCandidate)
eligible_of job [] = ok []
eligible_of job (c ∷ cs) = do
  eligible ← labor_candidate_eligible job c
  rest ← eligible_of job cs
  ok (if eligible then c ∷ rest else rest)

unfoldable pub score_all : Job → List LaborCandidate → Result (List ScoredLaborCandidate)
score_all job [] = ok []
score_all job (c ∷ cs) = do
  score ← score_labor_candidate job c
  rest ← score_all job cs
  ok (record { candidate = c; score = score } ∷ rest)

-- The comparator of `rankLaborCandidates` is negative.
unfoldable pub scored_before : ScoredLaborCandidate → ScoredLaborCandidate → Bool
scored_before a b =
    if eqb_ℤ a.score b.score
    then text_before a.candidate.agent_id b.candidate.agent_id
    else ltb_ℤ b.score a.score

unfoldable pub rank_labor_candidates :
    Job → List LaborCandidate → Result (List ScoredLaborCandidate)
rank_labor_candidates job candidates = do
  eligible ← eligible_of job candidates
  scored ← score_all job eligible
  ok (sort scored_before scored)

unfoldable pub notice_effective_tick : (initiated_tick notice_days : ℤ) → Result ℕ
notice_effective_tick initiated_tick notice_days = do
  tick ← assert_safe_integer initiated_tick 0
  days ← assert_safe_integer notice_days 0
  ok (add_numbers tick days)
