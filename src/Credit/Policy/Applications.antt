-- ===== src/Credit/Policy/Applications.antt =====
-- The life of a loan application.
use worldsimulator.Prelude.{
  ℕ, ◌+◌, ◌≤◌, ◌≡◌, ◌≢◌, refl, ◌↔◌, true, List, [], ◌∷◌, arith, length, Bool-cases, inl, inr, ap,
  sym, ◌∙◌, subst,
}
use worldsimulator.Prelude.Results.{Result, ok, err, conflict, ◌>>=◌, >>=-eq-ok, ok-injective}
use worldsimulator.Credit.Policy.{
  ApplicationStatus, submitted, under_review, approved, rejected, withdrawn, may_become,
  transition_loan_application_status,
}

-- The edges of the life cycle.
pub data Step : ApplicationStatus → ApplicationStatus → Type 0 where
  review : Step submitted under_review
  withdraw : Step submitted withdrawn
  approve : Step under_review approved
  reject : Step under_review rejected
  give_up : Step under_review withdrawn

ruleset edges = (review, withdraw, approve, reject, give_up)

pub data Reach (s : ApplicationStatus) : ApplicationStatus → Type 0 where
  here : Reach s s
  next : {t u : ApplicationStatus} → Reach s t → Step t u → Reach s u

may_become-Step : (s t : ApplicationStatus) → may_become s t ≡ true → Step s t
unfolding may_become
may_become-Step submitted under_review e = review
may_become-Step s t e = grind (arith, edges)

Step-may_become : {s t : ApplicationStatus} → Step s t → may_become s t ≡ true
unfolding may_become
Step-may_become review = refl
Step-may_become withdraw = refl
Step-may_become approve = refl
Step-may_become reject = refl
Step-may_become give_up = refl

-- A run of transitions as the callers make them, each from the state that the last one returned.
abbrev pub transition_all : ApplicationStatus → List ApplicationStatus → Result ApplicationStatus
transition_all s [] = ok s
transition_all s (t ∷ ts) = transition_loan_application_status s t >>= λ u. transition_all u ts

rank : ApplicationStatus → ℕ
rank submitted = 0
rank under_review = 1
rank approved = 2
rank rejected = 2
rank withdrawn = 2

Step-rank : {s t : ApplicationStatus} → Step s t → rank s + 1 ≤ rank t
unfolding rank
Step-rank review = omega arith
Step-rank withdraw = omega arith
Step-rank approve = omega arith
Step-rank reject = omega arith
Step-rank give_up = omega arith

rank-le : (s : ApplicationStatus) → rank s ≤ 2
unfolding rank
rank-le submitted = omega arith
rank-le _ = omega arith

-- A transition succeeds exactly on the edges of the life cycle, and then returns the status asked
-- for; every other pair of statuses is a conflict.
pub transition-Step :
    (s t : ApplicationStatus)
    → (transition_loan_application_status s t ≡ ok t ↔ Step s t)
      × (transition_loan_application_status s t ≢ ok t
          → transition_loan_application_status s t ≡ err conflict)
unfolding transition_loan_application_status
transition-Step s t = elim (Bool-cases (may_become s t)) [
  | inl e ↦ rw e ((λ _. may_become-Step s t e, λ _. refl), λ no. absurd (no refl))
  | inr e ↦
      rw e
        ((λ h. absurd (ground arith), λ st. absurd (grind (arith, Step-may_become st))), λ _. refl)
]

Step-taken :
    (s t u : ApplicationStatus) → transition_loan_application_status s t ≡ ok u → Step s u × (u ≡ t)
unfolding transition_loan_application_status
Step-taken s t u h = elim (Bool-cases (may_become s t)) [
  | inl e ↦
      let same : t ≡ u = ok-injective (sym (rw e refl) ∙ h) in
      (subst (Step s) same (may_become-Step s t e), sym same)
  | inr e ↦ absurd (ground arith)
]

run-rank :
    (s : ApplicationStatus) (ts : List ApplicationStatus) {r : ApplicationStatus}
    → transition_all s ts ≡ ok r
    → rank s + length ts ≤ rank r
run-rank s [] h = rw (ok-injective h) (omega arith)
run-rank s (t ∷ ts) h =
    let (u, e, rest) = >>=-eq-ok (transition_loan_application_status s t) _ h in
    omega (arith, Step-rank (Step-taken s t u e).0, run-rank u ts rest)

before_approved : {s : ApplicationStatus} → Step s approved → s ≡ under_review
before_approved approve = refl

submitted_is_no_review : submitted ≢ under_review
submitted_is_no_review e = absurd (ground arith)

-- From submission on at most two transitions succeed in a row, and the ones that end in approval
-- are the review and then the approval, nothing else.
pub transition_all-length :
    (ts : List ApplicationStatus) {r : ApplicationStatus}
    → transition_all submitted ts ≡ ok r
    → (length ts ≤ 2) × (r ≡ approved → ts ≡ under_review ∷ approved ∷ [])
transition_all-length ts {r} h = (
  unfold rank in omega (arith, run-rank submitted ts h, rank-le r),
  λ e. approved_by ts (h ∙ ap ok e),
)
  where
    approved_by :
        (ts : List ApplicationStatus)
        → transition_all submitted ts ≡ ok approved
        → ts ≡ under_review ∷ approved ∷ []
    approved_by [] h = absurd (ground arith)
    approved_by (t ∷ []) h =
        let (u, e, rest) = >>=-eq-ok (transition_loan_application_status submitted t) _ h in
        let st = (Step-taken submitted t u e).0 in
        absurd
          (submitted_is_no_review (before_approved (subst (Step submitted) (ok-injective rest) st)))
    approved_by (t ∷ t2 ∷ []) h =
        let (u, e, rest) = >>=-eq-ok (transition_loan_application_status submitted t) _ h in
        let (st, same) = Step-taken submitted t u e in
        let (u2, e2, rest2) = >>=-eq-ok (transition_loan_application_status u t2) _ rest in
        let (st2, same2) = Step-taken u t2 u2 e2 in
        let end : t2 ≡ approved = sym same2 ∙ ok-injective rest2 in
        let middle : t ≡ under_review =
          sym same ∙ before_approved (subst (Step u) (ok-injective rest2) st2) in
        rw (middle, end) refl
    approved_by (t ∷ t2 ∷ t3 ∷ ts) h =
        absurd (unfold rank in omega (arith, run-rank submitted (t ∷ t2 ∷ t3 ∷ ts) h))
