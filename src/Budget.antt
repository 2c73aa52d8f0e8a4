-- ===== src/Budget.antt =====
-- packages/engine/src/llm-budget.ts: what a call of a language model costs, and whether it may be made.
pub mod Limits
use worldsimulator.Prelude.{
  ℕ, ◌+◌, ◌-◌, ◌*◌, Bool, true, false, not, ◌&&◌, ◌||◌, List, [], ◌∷◌, ◌++◌, Option, none, some,
  ltb, leb, ◌==◌, if◌then◌else◌,
}
use worldsimulator.Prelude.Int.{ℤ, pos, negsuc, ltb_ℤ}
use worldsimulator.Prelude.Decimal.{Text}
use worldsimulator.Prelude.Texts.{text_eq}
use worldsimulator.Prelude.Results.{
  Result, ok, err, range_error, max_safe, ◌>>=◌, ◌>>◌, throw_if, add_numbers,
}

pub data LlmModuleId : Type 0 where
  agent_decisions conversations news : LlmModuleId

pub data BlockReason : Type 0 where
  llm_disabled module_frozen agent_quarantined agent_daily_tokens_exhausted run_cost_exhausted :
      BlockReason

pub data WarningReason : Type 0 where
  agent_daily_tokens_warning run_cost_warning : WarningReason

pub data Tier : Type 0 where
  tier_two tier_three : Tier

pub data Authorization : Type 0 where
  allow :
      (requested_tier effective_tier : Tier)
      → (authorized_run_tick : ℕ) → (degradation_reason : Option WarningReason) → Authorization
  block : (requested_tier : Tier) → BlockReason → Authorization

-- The fields of a request that the controller reads.
pub record LlmRequest : Type 0 where
  pub tick : ℤ
  pub module_id : LlmModuleId
  pub agent_id : Option Text
  pub tier : Tier
  pub request_hash : Text

pub record LlmModelPrice : Type 0 where
  pub input_microcents_per_token : ℤ
  pub cached_input_microcents_per_token : Option ℤ
  pub output_microcents_per_token : ℤ

pub record LlmUsage : Type 0 where
  pub cached : Bool
  pub input_tokens : ℤ
  pub cached_input_tokens : Option ℤ
  pub output_tokens : ℤ
  pub model : Text

pub record AgentDayUsage : Type 0 where
  pub input_tokens : ℕ
  pub cached_input_tokens : ℕ
  pub output_tokens : ℕ
  pub warning_emitted : Bool
  pub exhausted_emitted : Bool

pub data BudgetEvent : Type 0 where
  usage_recorded budget_warn budget_auto_pause agent_warning agent_exhausted auto_pause_requested :
      BudgetEvent

-- The controller. An event is kept by its type; `agent_days` maps an agent and a tick to its usage.
pub record Controller : Type 0 where
  pub run_cost_ceiling_cents : ℕ
  pub per_agent_daily_tokens : ℕ
  pub prices : List (Text × LlmModelPrice)
  pub frozen_modules : LlmModuleId → Bool
  pub quarantines : List (Text × ℕ)
  pub agent_days : List (Text × ℕ × AgentDayUsage)
  pub input_tokens : ℕ
  pub cached_input_tokens : ℕ
  pub output_tokens : ℕ
  pub cost_microcents : ℕ
  pub warning_emitted : Bool
  pub exhausted_emitted : Bool
  pub auto_pause_requested : Bool
  pub llm_enabled : Bool
  pub events : List BudgetEvent

pub record Receipt : Type 0 where
  pub charged : Bool
  pub cost_microcents : ℕ
  pub run_cost_microcents : ℕ
  pub warning_emitted : Bool
  pub exhausted_emitted : Bool
  pub auto_pause_requested : Bool

abbrev pub or_zero : Option ℤ → ℤ
or_zero none = pos 0
or_zero (some z) = z

-- A safe integer that is not negative, or a `RangeError`.
unfoldable pub token_count : ℤ → Result ℕ
token_count (pos n) = if ltb max_safe n then err range_error else ok n
token_count (negsuc _) = err range_error

abbrev natural_price : ℤ → Result ℕ
natural_price (pos n) = ok n
natural_price (negsuc _) = err range_error

abbrev is_none {ℓ} : {A : Type ℓ} → Option A → Bool
is_none none = true
is_none (some _) = false

unfoldable pub llm_cost_microcents :
    (input_tokens output_tokens : ℤ) → LlmModelPrice → (cached_input_tokens : ℤ) → Result ℕ
unfolding token_count
llm_cost_microcents input_tokens output_tokens price cached_input_tokens = do
  input ← token_count input_tokens
  output ← token_count output_tokens
  cached ← token_count cached_input_tokens
  throw_if (ltb input cached) range_error
  input_price ← natural_price price.input_microcents_per_token
  output_price ← natural_price price.output_microcents_per_token
  cached_price ← natural_price (or_zero price.cached_input_microcents_per_token)
  throw_if (ltb 0 cached && is_none price.cached_input_microcents_per_token) range_error
  ok ((input - cached) * input_price + cached * cached_price + output * output_price)

unfoldable pub reached : (numerator denominator basis_points : ℕ) → Bool
reached numerator denominator basis_points = leb (denominator * basis_points) (numerator * 10000)

abbrev pub ceiling_microcents : Controller → ℕ
ceiling_microcents c = c.run_cost_ceiling_cents * 1000000

unfoldable pub quarantine_of : List (Text × ℕ) → Text → Option ℕ
quarantine_of [] agent = none
quarantine_of (entry ∷ rest) agent =
    let later = quarantine_of rest agent in if text_eq entry.0 agent then some entry.1 else later

abbrev pub no_usage : AgentDayUsage
no_usage = record {
  input_tokens = 0;
  cached_input_tokens = 0;
  output_tokens = 0;
  warning_emitted = false;
  exhausted_emitted = false;
}

-- `this.agentDays.get(key) ?? { … }`
unfoldable pub usage_of : List (Text × ℕ × AgentDayUsage) → Text → ℕ → AgentDayUsage
usage_of [] agent tick = no_usage
usage_of (entry ∷ rest) agent tick =
    let later = usage_of rest agent tick in
    if text_eq entry.0 agent && entry.1 == tick then entry.2 else later

unfoldable pub set_usage :
    List (Text × ℕ × AgentDayUsage) → Text → ℕ → AgentDayUsage → List (Text × ℕ × AgentDayUsage)
set_usage [] agent tick usage = (agent, tick, usage) ∷ []
set_usage (entry ∷ rest) agent tick usage =
    let later = set_usage rest agent tick usage in
    if text_eq entry.0 agent && entry.1 == tick then (agent, tick, usage) ∷ rest else entry ∷ later

abbrev until_reaches : Option ℕ → ℕ → Bool
until_reaches none tick = false
until_reaches (some until) tick = leb tick until

unfoldable pub is_quarantined : Controller → Option Text → ℕ → Bool
is_quarantined c none tick = false
is_quarantined c (some agent) tick = until_reaches (quarantine_of c.quarantines agent) tick

unfoldable pub agent_tokens : Controller → Option Text → ℕ → ℕ
agent_tokens c none tick = 0
agent_tokens c (some agent) tick =
    let usage = usage_of c.agent_days agent tick in
    add_numbers usage.input_tokens usage.output_tokens

-- Why a request is warned of, if it is.
unfoldable pub degradation : Controller → (tokens : ℕ) → Option WarningReason
degradation c tokens =
    if reached c.cost_microcents (ceiling_microcents c) 8000
    then some run_cost_warning
    else if reached tokens c.per_agent_daily_tokens 8000
    then some agent_daily_tokens_warning
    else none

abbrev pub allow_at : (requested : Tier) → ℕ → Option WarningReason → Authorization
allow_at tier_three tick (some reason) = allow tier_three tier_two tick (some reason)
allow_at tier tick reason = allow tier tier tick none

unfoldable pub authorize : Controller → LlmRequest → Result Authorization
authorize c request = do
  tick ← token_count request.tick
  let tokens = agent_tokens c request.agent_id tick
  ok (
      if not c.llm_enabled
      then block request.tier llm_disabled
      else if c.frozen_modules request.module_id
      then block request.tier module_frozen
      else if is_quarantined c request.agent_id tick
      then block request.tier agent_quarantined
      else if reached c.cost_microcents (ceiling_microcents c) 10000
      then block request.tier run_cost_exhausted
      else if leb c.per_agent_daily_tokens tokens
      then block request.tier agent_daily_tokens_exhausted
      else allow_at request.tier tick (degradation c tokens))

unfoldable pub price_of : List (Text × LlmModelPrice) → Text → Result LlmModelPrice
price_of [] model = err range_error
price_of (entry ∷ rest) model =
    let later = price_of rest model in if text_eq entry.0 model then ok entry.1 else later

-- The event, if the test holds.
abbrev pub emit_if : Bool → BudgetEvent → List BudgetEvent
emit_if true event = event ∷ []
emit_if false event = []

-- The usage of the agent's day after a call, and whether it now warns and is now exhausted.
unfoldable pub day_after :
    (daily_tokens : ℕ) → AgentDayUsage → (input cached output : ℕ) → AgentDayUsage × Bool × Bool
day_after daily_tokens usage input cached output =
    let input_tokens = add_numbers usage.input_tokens input in
    let output_tokens = add_numbers usage.output_tokens output in
    let tokens = add_numbers input_tokens output_tokens in
    let warns = not usage.warning_emitted && reached tokens daily_tokens 8000 in
    let exhausts = not usage.exhausted_emitted && leb daily_tokens tokens in
    (
      record {
        input_tokens = input_tokens;
        cached_input_tokens = add_numbers usage.cached_input_tokens cached;
        output_tokens = output_tokens;
        warning_emitted = usage.warning_emitted || warns;
        exhausted_emitted = usage.exhausted_emitted || exhausts;
      },
      warns,
      exhausts,
    )

-- The agent's part of `recordSuccess`.
unfoldable pub charge_agent :
    Controller → Option Text → (tick input cached output : ℕ) → Controller × Bool × Bool
charge_agent c none tick input cached output = (c, false, false)
charge_agent c (some agent) tick input cached output =
    let (usage, warns, exhausts) =
      day_after c.per_agent_daily_tokens (usage_of c.agent_days agent tick) input cached output in
    (
      record c {
        agent_days = set_usage c.agent_days agent tick usage;
        events = c.events ++ emit_if warns agent_warning ++ emit_if exhausts agent_exhausted;
      },
      warns,
      exhausts,
    )

-- The run's part of it.
unfoldable pub charge_run : Controller → Controller × Bool × Bool
charge_run c =
    let ceiling = ceiling_microcents c in
    let warns = not c.warning_emitted && reached c.cost_microcents ceiling 8000 in
    let exhausts = not c.exhausted_emitted && reached c.cost_microcents ceiling 10000 in
    (
      record c {
        warning_emitted = c.warning_emitted || warns;
        exhausted_emitted = c.exhausted_emitted || exhausts;
        auto_pause_requested = c.auto_pause_requested || exhausts;
        events =
            c.events
            ++ emit_if warns budget_warn
            ++ emit_if exhausts budget_auto_pause
            ++ emit_if exhausts auto_pause_requested;
      },
      warns,
      exhausts,
    )

abbrev pub spend : Controller → (input cached output cost : ℕ) → Controller
spend c input cached output cost = record c {
  input_tokens = add_numbers c.input_tokens input;
  cached_input_tokens = add_numbers c.cached_input_tokens cached;
  output_tokens = add_numbers c.output_tokens output;
  cost_microcents = c.cost_microcents + cost;
  events = c.events ++ (usage_recorded ∷ []);
}

-- `tick` is the tick of the request, which `authorize` has read.
unfoldable pub record_success :
    Controller → LlmRequest → LlmUsage → (tick : ℕ) → Result (Controller × Receipt)
record_success c request usage tick =
    if usage.cached
    then ok (
      c,
      record {
        charged = false;
        cost_microcents = 0;
        run_cost_microcents = c.cost_microcents;
        warning_emitted = false;
        exhausted_emitted = false;
        auto_pause_requested = false;
      },
    )
    else do
      price ← price_of c.prices usage.model
      cost ←
          llm_cost_microcents usage.input_tokens usage.output_tokens price
            (or_zero usage.cached_input_tokens)
      input ← token_count usage.input_tokens
      output ← token_count usage.output_tokens
      cached ← token_count (or_zero usage.cached_input_tokens)
      let (charged, agent_warns, agent_exhausts) =
          charge_agent (spend c input cached output cost) request.agent_id tick input cached output
      let (after, run_warns, run_exhausts) = charge_run charged
      ok (
        after,
        record {
          charged = true;
          cost_microcents = cost;
          run_cost_microcents = after.cost_microcents;
          warning_emitted = run_warns || agent_warns;
          exhausted_emitted = run_exhausts || agent_exhausts;
          auto_pause_requested = run_exhausts;
        },
      )
