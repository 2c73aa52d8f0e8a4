-- ===== src/Budget/Limits.antt =====
-- Which calls the controller lets through, and how the flags of the run follow its cost.
use worldsimulator.Prelude.{
  ℕ, ◌+◌, ◌*◌, ◌<◌, ◌≡◌, ◌⊎◌, refl, sym, ap, subst, ◌∙◌, Bool, true, false, not, ◌&&◌, ◌||◌, Option,
  none, some, if◌then◌else◌, arith, inl, inr,
}
use worldsimulator.Prelude.Decimal.{Text}
use worldsimulator.Prelude.Results.{Result, ok, >>=-eq-ok, ok-injective}
use worldsimulator.Budget.{
  Authorization, allow, block, LlmRequest, LlmUsage, Controller, Receipt, Tier, llm_disabled,
  module_frozen, agent_quarantined, run_cost_exhausted, agent_daily_tokens_exhausted, token_count,
  reached, ceiling_microcents, is_quarantined, agent_tokens, charge_agent, charge_run, spend,
  record_success, price_of, llm_cost_microcents, or_zero,
}

abbrev pub is_allowed : Authorization → Bool
is_allowed (allow _ _ _ _) = true
is_allowed (block _ _) = false

-- What a request must meet to be let through.
abbrev pub MayCall : Controller → LlmRequest → (tick : ℕ) → Type 0
MayCall c request tick =
    (c.llm_enabled ≡ true)
    × (c.frozen_modules request.module_id ≡ false)
    × (is_quarantined c request.agent_id tick ≡ false)
    × (c.cost_microcents < ceiling_microcents c)
    × (agent_tokens c request.agent_id tick < c.per_agent_daily_tokens)

-- The ladder of tests in `authorize`.
abbrev ladder : (off frozen quarantined spent used : Bool) → Tier → Authorization → Authorization
ladder off frozen quarantined spent used tier allowed =
    if off
    then block tier llm_disabled
    else if frozen
    then block tier module_frozen
    else if quarantined
    then block tier agent_quarantined
    else if spent
    then block tier run_cost_exhausted
    else if used
    then block tier agent_daily_tokens_exhausted
    else allowed

-- The flags of the run say whether its cost has reached four fifths of the ceiling, and all of it.
abbrev pub IsTracked : Controller → Type 0
IsTracked c =
    (c.warning_emitted ≡ reached c.cost_microcents (ceiling_microcents c) 8000)
    × (c.exhausted_emitted ≡ reached c.cost_microcents (ceiling_microcents c) 10000)
    × (c.auto_pause_requested ≡ c.exhausted_emitted)

-- A flag that is raised when it was not yet.
raised :
    (flag now before : Bool)
    → flag ≡ before
    → (before ≡ true → now ≡ true)
    → (flag || (not flag && now)) ≡ now
raised true now before e k = sym (k (sym e))
raised false now before e k = refl

reached-grows :
    (cost more ceiling bp : ℕ)
    → reached cost ceiling bp ≡ true
    → reached (cost + more) ceiling bp ≡ true
unfolding reached
reached-grows cost more ceiling bp h = ground arith

or_same : (a b : Bool) (x : Bool) → a ≡ b → (a || x) ≡ (b || x)
or_same a b x e = rw e refl

-- The run's flags after a charge, when they were right before it.
charge_run-IsTracked :
    (c : Controller) (cost : ℕ)
    → (c.warning_emitted ≡ reached cost (ceiling_microcents c) 8000)
    → (c.exhausted_emitted ≡ reached cost (ceiling_microcents c) 10000)
    → c.auto_pause_requested ≡ c.exhausted_emitted
    → (more : ℕ) → c.cost_microcents ≡ cost + more
    → IsTracked (charge_run c).0
unfolding charge_run
charge_run-IsTracked c cost w e a more spent = (
  raised c.warning_emitted (reached c.cost_microcents (ceiling_microcents c) 8000) _ w (λ h.
      subst (λ k. reached k (ceiling_microcents c) 8000 ≡ true) (sym spent)
        (reached-grows cost more (ceiling_microcents c) 8000 h)),
  raised c.exhausted_emitted (reached c.cost_microcents (ceiling_microcents c) 10000) _ e (λ h.
      subst (λ k. reached k (ceiling_microcents c) 10000 ≡ true) (sym spent)
        (reached-grows cost more (ceiling_microcents c) 10000 h)),
  or_same c.auto_pause_requested c.exhausted_emitted _ a,
)

either :
    {A : Type 0} (test : Bool) (x y : Result A) {r : A}
    → (if test then x else y) ≡ ok r
    → (x ≡ ok r) ⊎ (y ≡ ok r)
either true x y h = inl h
either false x y h = inr h

-- The agent's part leaves the run's cost and flags.
abbrev SameRun : Controller → Controller → Type 0
SameRun c after =
    (after.cost_microcents ≡ c.cost_microcents)
    × (after.run_cost_ceiling_cents ≡ c.run_cost_ceiling_cents)
    × (after.warning_emitted ≡ c.warning_emitted)
    × (after.exhausted_emitted ≡ c.exhausted_emitted)
    × (after.auto_pause_requested ≡ c.auto_pause_requested)

charge_agent-SameRun :
    (c : Controller) (agent : Option Text) (tick input cached output : ℕ)
    → SameRun c (charge_agent c agent tick input cached output).0
unfolding charge_agent
charge_agent-SameRun c none tick input cached output = (refl, refl, refl, refl, refl)
charge_agent-SameRun c (some agent) tick input cached output = (refl, refl, refl, refl, refl)

-- Recording a call, cached or not, keeps the flags of the run true to its cost: a pause is asked for
-- exactly from when the ceiling is reached.
pub record_success-IsTracked :
    (c : Controller) (request : LlmRequest) (usage : LlmUsage) (tick : ℕ) {after : Controller}
    {receipt : Receipt}
    → IsTracked c
    → record_success c request usage tick ≡ ok (after, receipt)
    → IsTracked after
unfolding record_success
record_success-IsTracked c request usage tick {after} tracked h = elim (either usage.cached _ _ h) [
  | inl hit ↦ subst IsTracked (ap (λ r. r.0) (ok-injective hit)) tracked
  | inr miss ↦
      let (price, priced, h1) = >>=-eq-ok (price_of c.prices usage.model) _ miss in
      let (cost, costed, h2) =
        >>=-eq-ok
          (llm_cost_microcents usage.input_tokens usage.output_tokens price
            (or_zero usage.cached_input_tokens))
          _ h1 in
      let (input, one, h3) = >>=-eq-ok (token_count usage.input_tokens) _ h2 in
      let (output, two, h4) = >>=-eq-ok (token_count usage.output_tokens) _ h3 in
      let (cached, three, done) =
        >>=-eq-ok (token_count (or_zero usage.cached_input_tokens)) _ h4 in
      let spent = spend c input cached output cost in
      let (charged, warns, exhausts) =
        charge_agent spent request.agent_id tick input cached output in
      let (same_cost, same_ceiling, w, e, a) =
        charge_agent-SameRun spent request.agent_id tick input cached output in
      let bp = λ (k : ℕ). ap (λ m. reached c.cost_microcents (m * 1000000) k) (sym same_ceiling) in
      subst IsTracked (ap (λ r. r.0) (ok-injective done)) (
        charge_run-IsTracked charged c.cost_microcents (w ∙ tracked.0 ∙ bp 8000)
          (e ∙ tracked.1 ∙ bp 10000) (a ∙ tracked.2 ∙ sym e) cost same_cost)
]
