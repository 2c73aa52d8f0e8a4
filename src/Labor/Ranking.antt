-- ===== src/Labor/Ranking.antt =====
-- The ranking of the candidates for a job.
use mathlib.Core.List.{Perm, perm_middle}
use mathlib.Core.List.Perm
use worldsimulator.Prelude.{
  ℕ, ◌≤◌, ◌≡◌, refl, sym, ◌&&◌, ◌∙◌, ap, subst, Bool, true, false, List, [], ◌∷◌, ◌++◌, map, every,
  arith, inl, inr, ◌⊎◌, Bool-cases, All,
}
use worldsimulator.Prelude.Int.{ℤ, pos, pos_part, neg_part, ◌+ℤ◌, ◌*ℤ◌, ◌≤ℤ◌, eqb_ℤ, leb_ℤ}
use worldsimulator.Prelude.BigInts.{big_int}
use worldsimulator.Prelude.Texts.{
  codes, text_eq, text_eq→≡, text_eq_refl, text_before, text_before_asym,
}
use worldsimulator.Prelude.Sort.{sort, sort-Perm, sort-All, IsSorted, sort-IsSorted}
use worldsimulator.Prelude.Results.{ok}
use worldsimulator.Labor.{
  Job, LaborCandidate, ScoredLaborCandidate, meets_requirement, labor_candidate_eligible,
  score_labor_candidate, eligible_of, score_all, scored_before, rank_labor_candidates,
}
use worldsimulator.Labor.Fitness.{
  Suits, weighted, IsWorth, skill_score-weighted, every-All, All-every, premium-Exceeds,
}

-- What a ranking says of a candidate that it lists, and of one that it leaves out.
abbrev pub IsRanked : Job → (wage : ℕ) → ScoredLaborCandidate → Type 0
IsRanked job wage s =
    (reservation : ℕ) × (big_int s.candidate.reservation_wage_cents ≡ ok (pos reservation))
    × Suits wage reservation job.requirements s.candidate
    × IsWorth wage reservation job.requirements s

abbrev pub IsUnfit : Job → (wage : ℕ) → LaborCandidate → Type 0
IsUnfit job wage c =
    (reservation : ℕ) × (big_int c.reservation_wage_cents ≡ ok (pos reservation))
    × ¬ Suits wage reservation job.requirements c

-- The wage that a candidate asks for is a natural number.
abbrev pub AsksFor : LaborCandidate → Type 0
AsksFor c = (reservation : ℕ) × (big_int c.reservation_wage_cents ≡ ok (pos reservation))

abbrev pub candidate_of : ScoredLaborCandidate → LaborCandidate
candidate_of s = s.candidate

-- By falling score, and by agent id where scores are equal.
abbrev pub IsOrdered : List ScoredLaborCandidate → Type 0
IsOrdered [] = Unit
IsOrdered (a ∷ []) = Unit
IsOrdered (a ∷ b ∷ rest) =
    (b.score ≤ℤ a.score)
    × (b.score ≡ a.score → text_before b.candidate.agent_id a.candidate.agent_id ≡ false)
    × IsOrdered (b ∷ rest)

scored_before_asym :
    (a b : ScoredLaborCandidate) → scored_before a b ≡ true → scored_before b a ≡ false
unfolding scored_before
scored_before_asym a b h =
    ground (arith, text_before_asym a.candidate.agent_id b.candidate.agent_id)

not_before :
    (a b : ScoredLaborCandidate)
    → scored_before b a ≡ false
    → (b.score ≤ℤ a.score)
      × (b.score ≡ a.score → text_before b.candidate.agent_id a.candidate.agent_id ≡ false)
unfolding scored_before
not_before a b h = elim (Bool-cases (eqb_ℤ b.score a.score)) [
  | inl same ↦ (ground arith, λ _. rw same at h)
  | inr other ↦ (ground arith, λ e. absurd (ground (arith, ap pos_part e, ap neg_part e)))
]

sorted-IsOrdered :
    (ranked : List ScoredLaborCandidate) → IsSorted scored_before ranked → IsOrdered ranked
sorted-IsOrdered [] h = tt
sorted-IsOrdered (a ∷ []) h = tt
sorted-IsOrdered (a ∷ b ∷ rest) h =
    let (least, named) = not_before a b h.0 in (least, named, sorted-IsOrdered (b ∷ rest) h.1)

content :
    (wage reservation : ℕ) {skilled : Bool}
    → reservation ≤ wage
    → skilled ≡ true
    → leb_ℤ (pos reservation) (pos wage) && skilled ≡ true
content wage reservation h e =
    let low : leb_ℤ (pos reservation) (pos wage) ≡ true = ground arith in rw (low, e) refl

module _ (job : Job) (wage : ℕ) (paid : big_int job.annual_wage_cents ≡ ok (pos wage)) where
  -- A candidate is eligible and scored, or not eligible.
  eligible_cases :
      (c : LaborCandidate) (reservation : ℕ)
      → big_int c.reservation_wage_cents ≡ ok (pos reservation)
      → ((labor_candidate_eligible job c ≡ ok true) × Suits wage reservation job.requirements c)
        ⊎ ((labor_candidate_eligible job c ≡ ok false)
            × (¬ Suits wage reservation job.requirements c))
  unfolding labor_candidate_eligible
  eligible_cases c reservation asks =
      elim (Bool-cases (text_eq c.employment_status (codes "employed"))) [
        | inl busy ↦
            inr (rw busy refl, λ e. e.0 (text_eq→≡ c.employment_status (codes "employed") busy))
        | inr free ↦
            elim (Bool-cases (
              leb_ℤ (pos reservation) (pos wage)
              && every (meets_requirement c.skills) job.requirements)) [
                | inl fit ↦ inl (
                  rw (free, paid, asks) (ap ok fit),
                  (
                    λ e. false_true (
                        sym free
                        ∙ ap (λ t. text_eq t (codes "employed")) e
                        ∙ text_eq_refl (codes "employed")),
                    ground arith,
                    every-All c.skills job.requirements (ground arith),
                  ),
                )
                | inr unfit ↦ inr (
                  rw (free, paid, asks) (ap ok unfit),
                  λ e. false_true (
                      sym unfit
                      ∙ content wage reservation e.1 (All-every c.skills job.requirements e.2)),
                )
              ]
      ]
    where
      false_true : false ≡ true → ⊥
      false_true e = cc

  score-IsRanked :
      (c : LaborCandidate) (reservation : ℕ)
      → big_int c.reservation_wage_cents ≡ ok (pos reservation)
      → labor_candidate_eligible job c ≡ ok true
      → Suits wage reservation job.requirements c
      → (score : ℤ) × (score_labor_candidate job c ≡ ok score)
        × IsRanked job wage (record { candidate = c; score = score })
  unfolding score_labor_candidate
  score-IsRanked c reservation asks fit is =
      let (premium, right, clamped) = premium-Exceeds wage reservation is.1 in
      (
        weighted c.skills job.requirements *ℤ pos 10000 +ℤ pos premium,
        rw (fit, asks, paid, clamped, skill_score-weighted c.skills job.requirements) refl,
        (reservation, asks, is, (premium, right, refl)),
      )

  -- What the filter and the scores make of the candidates.
  abbrev Scans : List LaborCandidate → Type 0
  Scans cs =
      (eligible : List LaborCandidate) × (scored : List ScoredLaborCandidate) × (others : List
        LaborCandidate)
      × (eligible_of job cs ≡ ok eligible)
      × (score_all job eligible ≡ ok scored)
      × (map candidate_of scored ≡ eligible)
      × Perm (eligible ++ others) cs
      × All (IsRanked job wage) scored
      × All (IsUnfit job wage) others

  scan : (cs : List LaborCandidate) → All AsksFor cs → Scans cs
  unfolding eligible_of score_all
  scan [] h = ([], [], [], refl, refl, refl, Perm.refl _, tt, tt)
  scan (c ∷ cs) ((reservation, asks), h) =
      let (eligible, scored, others, filtered, all, same, perm, ranked, unfit) = scan cs h in
      elim (eligible_cases c reservation asks) [
        | inl (fit, is) ↦
            let (score, done, right) = score-IsRanked c reservation asks fit is in
            (
              c ∷ eligible,
              record { candidate = c; score = score } ∷ scored,
              others,
              rw (fit, filtered) refl,
              rw (done, all) refl,
              ap (λ xs. c ∷ xs) same,
              Perm.cons c perm,
              (right, ranked),
              unfit,
            )
        | inr (out, not_is) ↦ (
          eligible,
          scored,
          c ∷ others,
          rw (out, filtered) refl,
          all,
          same,
          Perm.trans (perm_middle eligible others) (Perm.cons c perm),
          ranked,
          ((reservation, asks, not_is), unfit),
        )
      ]

-- The ranking of the candidates for a job, and those that it leaves out.
pub record Ranks (job : Job) (wage : ℕ) (candidates : List LaborCandidate)
    (ranked : List ScoredLaborCandidate) : Type 0 where
  pub others : List LaborCandidate
  pub everyone : Perm (map candidate_of ranked ++ others) candidates
  pub scored : All (IsRanked job wage) ranked
  pub unfit : All (IsUnfit job wage) others
  pub ordered : IsOrdered ranked

-- Where the wage of the job and those that the candidates ask for are natural numbers, ranking
-- returns a list. Those listed and those left out are together, up to their order, the candidates.
-- Those listed are not employed, ask for no more than the wage and meet every requirement, and none
-- left out does all of this. The score of one listed is ten thousand times the sum of the skills by
-- their weights, and the premium of the wage over what was asked for, in basis points, rounded down
-- and at most 100000, or 10000 where nothing was. The list is by falling score, then by agent id.
pub rank-Ranks :
    (job : Job) (wage : ℕ) (candidates : List LaborCandidate)
    → big_int job.annual_wage_cents ≡ ok (pos wage)
    → All AsksFor candidates
    → (ranked : List ScoredLaborCandidate) × (rank_labor_candidates job candidates ≡ ok ranked)
      × Ranks job wage candidates ranked
unfolding rank_labor_candidates
rank-Ranks job wage candidates paid asks =
    let (eligible, scored, others, filtered, all, same, perm, ranked, unfit) =
      scan job wage paid candidates asks in
    (
      sort scored_before scored,
      rw (filtered, all) refl,
      record {
        others = others;
        everyone =
            Perm.trans
              (Perm.append_right others (
                subst (Perm (map candidate_of (sort scored_before scored))) same
                  (Perm.map candidate_of (sort-Perm scored_before scored))))
              perm;
        scored = sort-All scored_before (IsRanked job wage) scored ranked;
        unfit = unfit;
        ordered =
            sorted-IsOrdered (sort scored_before scored)
              (sort-IsSorted scored_before scored_before_asym scored);
      },
    )
