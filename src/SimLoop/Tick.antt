-- ===== src/SimLoop/Tick.antt =====
-- packages/engine/src/sim-loop.ts: `tick()` and `advance()` of a loop without a tick committer.
use worldsimulator.Prelude.{
  ℕ, zero, suc, ◌+◌, ◌-◌, Bool, true, false, List, [], ◌∷◌, ◌++◌, Option, none, some, length, every,
  ltb, if◌then◌else◌,
}
use worldsimulator.Prelude.Int.{ℤ, pos, negsuc}
use worldsimulator.Prelude.Decimal.{Text}
use worldsimulator.Prelude.Texts.{codes, text_before}
use worldsimulator.Prelude.Sort.{sort}
use worldsimulator.Prelude.Results.{
  Error, Result, ok, err, validation_failed, max_safe, ◌>>=◌, add_numbers,
}
use worldsimulator.Ledger.Types.{ActorRef, system}
use worldsimulator.Ids.{Counters, next, restore}
use worldsimulator.Events.{EventEnvelope, validate_event_envelope}
use worldsimulator.Events.Log.{InMemoryEventLog, append_batch}
use worldsimulator.SimLoop.{PhaseName, phases, PhaseHandler, Handlers}
use worldsimulator.SimLoop.Calendar.{sim_date_for_tick}

pub data IndicatorValue : Type 0 where
  number_value : ℤ → IndicatorValue
  text_value : Text → IndicatorValue

pub record WorkCounts : Type 0 where
  pub transactions : ℕ
  pub decisions : ℕ
  pub llm_calls : ℕ

pub data WorkKind : Type 0 where
  transactions_kind decisions_kind llm_calls_kind : WorkKind

abbrev pub Indicators : Type 0
Indicators = List (Text × IndicatorValue)

-- The payload of `simulation.tick.completed`.
pub record TickDigest : Type 0 where
  pub tick : ℕ
  pub indicators : Indicators
  pub events : ℕ
  pub counts : WorkCounts
  pub duration_ms : ℕ

-- The payloads of the loop's own two events, and those that the handlers emit.
pub data Payload (V : Type 0) : Type 0 where
  tick_started : ℕ → Payload V
  tick_completed : TickDigest → Payload V
  emitted : V → Payload V

abbrev emitted_option : {V : Type 0} → Option V → Option (Payload V)
emitted_option none = none
emitted_option (some v) = some (emitted v)

-- The canonical copy of a payload: those of the loop's own events are plain data, and stay.
unfoldable pub canonical_payload : {V : Type 0} → (V → Option V) → Payload V → Option (Payload V)
canonical_payload canonical (tick_started tick) = some (tick_started tick)
canonical_payload canonical (tick_completed digest) = some (tick_completed digest)
canonical_payload canonical (emitted v) = emitted_option (canonical v)

pub record EmitOptions : Type 0 where
  pub actor : Option ActorRef
  pub schema_version : Option ℤ
  pub correlation_id : Option Text
  pub causation_id : Option Text

-- A handler at work: each call on its `TickContext` hands the result to the rest of the handler.
-- What it does to the stores of its module is not seen by the loop.
pub data Work (V : Type 0) : Type 0 where
  returns : Work V
  throws : Error → Work V
  emits : Text → V → EmitOptions → (EventEnvelope (Payload V) → Work V) → Work V
  counts : WorkKind → ℤ → Work V → Work V
  sets_digest_indicators : Indicators → Work V → Work V
  draws_id : Text → (Text → Work V) → Work V

pub record TickContext : Type 0 where
  pub simulation_id : Text
  pub run_id : Text
  pub tick : ℕ
  pub sim_date : Text
  pub phase : PhaseName

pub record SimLoop (H V : Type 0) : Type 0 where
  pub simulation_id : Text
  pub run_id : Text
  pub log : InMemoryEventLog (Payload V)
  pub ids : Counters
  pub handlers : Handlers H
  pub current_tick_value : ℕ
  pub next_seq : ℕ

-- What changes inside a tick.
pub record Pending (V : Type 0) : Type 0 where
  pub pending_events : List (EventEnvelope (Payload V))
  pub ids : Counters
  pub next_seq : ℕ
  pub work_counts : WorkCounts
  pub digest_indicators : Indicators

-- `this.ids.serialize()`
unfoldable pub serialize : Counters → Counters
serialize counters = sort (λ a b. text_before a.0 b.0) counters

abbrev pub or_default {ℓ} : {A : Type ℓ} → Option A → A → A
or_default none a = a
or_default (some b) a = b

-- `options?.causationId ? { causationId } : {}`
abbrev if_nonempty : Option Text → Option Text
if_nonempty none = none
if_nonempty (some s) = if ltb 0 (length s) then some s else none

abbrev pub no_options : EmitOptions
no_options = record {
  actor = none;
  schema_version = none;
  correlation_id = none;
  causation_id = none;
}

abbrev add_count : WorkCounts → WorkKind → ℕ → WorkCounts
add_count w transactions_kind n = record w { transactions = add_numbers w.transactions n }
add_count w decisions_kind n = record w { decisions = add_numbers w.decisions n }
add_count w llm_calls_kind n = record w { llm_calls = add_numbers w.llm_calls n }

-- `count(kind, amount)`
unfoldable pub count_work : WorkCounts → WorkKind → ℤ → Result WorkCounts
count_work w kind (pos n) =
    if ltb max_safe n then err validation_failed else ok (add_count w kind n)
count_work w kind (negsuc n) = err validation_failed

abbrev is_indicator : IndicatorValue → Bool
is_indicator (number_value n) = true
is_indicator (text_value s) = ltb 0 (length s)

-- `setDigestIndicators(indicators)`, on an object whose keys differ
unfoldable pub validate_indicators : Indicators → Result Indicators
validate_indicators indicators =
    let sorted = sort (λ a b. text_before a.0 b.0) indicators in
    if every (λ entry. is_indicator entry.1) sorted then ok sorted else err validation_failed

-- The envelope that `emitEvent` builds.
abbrev pub envelope_of :
    {H V : Type 0}
    → (wall_clock : ℕ → Text) → SimLoop H V
    → (tick : ℕ) → (sim_date type : Text) → Payload V
    → EmitOptions
    → (seq : ℕ) → (event_id : Text) → EventEnvelope (Payload V)
envelope_of wall_clock loop tick sim_date type payload options seq event_id = record {
  event_id = event_id;
  type = type;
  schema_version = or_default options.schema_version (pos 1);
  simulation_id = loop.simulation_id;
  run_id = loop.run_id;
  seq = pos seq;
  tick = pos tick;
  sim_date = sim_date;
  wall_time = wall_clock seq;
  actor = or_default options.actor (record { kind = system; id = codes "engine" });
  correlation_id = or_default options.correlation_id event_id;
  causation_id = if_nonempty options.causation_id;
  payload = payload;
  validated = false;
}

abbrev pub pending_at_start : {H V : Type 0} → SimLoop H V → Pending V
pending_at_start loop = record {
  pending_events = [];
  ids = loop.ids;
  next_seq = loop.next_seq;
  work_counts = record { transactions = 0; decisions = 0; llm_calls = 0 };
  digest_indicators = [];
}

abbrev pub digest_of : {V : Type 0} → (tick seq_at_start : ℕ) → Pending V → TickDigest
digest_of tick seq_at_start p = record {
  tick = tick;
  indicators = p.digest_indicators;
  events = p.next_seq - seq_at_start + 1;
  counts = p.work_counts;
  duration_ms = 0;
}

pub data Ticked (H V : Type 0) : Type 0 where
  ticked : SimLoop H V → Ticked H V
  failed : Error → SimLoop H V → Ticked H V

-- `catch`: the ids go back to the snapshot, and an error in that takes the place of the first.
abbrev pub rolled_back : {H V : Type 0} → SimLoop H V → Error → Result Counters → Ticked H V
rolled_back loop error (ok ids) = failed error (record loop { ids = ids })
rolled_back loop error (err worse) = failed worse loop

abbrev pub ticked_or : {H V : Type 0} → SimLoop H V → Result (SimLoop H V) → Ticked H V
ticked_or loop (ok after) = ticked after
ticked_or loop (err error) = rolled_back loop error (restore (serialize loop.ids))

abbrev pub and_then : {H V : Type 0} → Ticked H V → (SimLoop H V → Ticked H V) → Ticked H V
and_then (ticked loop) next = next loop
and_then (failed error loop) next = failed error loop

module _ {H V : Type 0} (canonical : V → Option V) (wall_clock : ℕ → Text)
    (run : H → TickContext → Work V) where
  -- `emitEvent`: the event is validated, and the bus hands it to the sink, which keeps it.
  unfoldable pub emit_event :
      SimLoop H V
      → (tick : ℕ) → (sim_date type : Text) → Payload V
      → EmitOptions
      → Pending V
      → Result (Pending V × EventEnvelope (Payload V))
  emit_event loop tick sim_date type payload options p = do
    drawn ← next p.ids (codes "evt")
    validated ←
        validate_event_envelope (canonical_payload canonical)
          (envelope_of wall_clock loop tick sim_date type payload options p.next_seq drawn.1)
    ok (
      record p {
        pending_events = p.pending_events ++ (validated ∷ []);
        ids = drawn.0;
        next_seq = p.next_seq + 1;
      },
      validated,
    )

  -- `handler.run(ctx)`
  unfoldable pub run_handler : SimLoop H V → TickContext → Work V → Pending V → Result (Pending V)
  run_handler loop ctx returns p = ok p
  run_handler loop ctx (throws error) p = err error
  run_handler loop ctx (emits type v options rest) p = do
    event ← emit_event loop ctx.tick ctx.sim_date type (emitted v) options p
    run_handler loop ctx (rest event.1) event.0
  run_handler loop ctx (counts kind amount rest) p = do
    w ← count_work p.work_counts kind amount
    run_handler loop ctx rest (record p { work_counts = w })
  run_handler loop ctx (sets_digest_indicators indicators rest) p = do
    i ← validate_indicators indicators
    run_handler loop ctx rest (record p { digest_indicators = i })
  run_handler loop ctx (draws_id prefix rest) p = do
    drawn ← next p.ids prefix
    run_handler loop ctx (rest drawn.1) (record p { ids = drawn.0 })

  unfoldable pub run_handlers :
      SimLoop H V → TickContext → List (PhaseHandler H) → Pending V → Result (Pending V)
  run_handlers loop ctx [] p = ok p
  run_handlers loop ctx (h ∷ hs) p = do
    after ← run_handler loop ctx (run h.handler ctx) p
    run_handlers loop ctx hs after

  unfoldable pub run_phases :
      SimLoop H V → (tick : ℕ) → (sim_date : Text) → List PhaseName → Pending V → Result (Pending V)
  run_phases loop tick sim_date [] p = ok p
  run_phases loop tick sim_date (phase ∷ rest) p = do
    after ←
        run_handlers loop
          (record {
            simulation_id = loop.simulation_id;
            run_id = loop.run_id;
            tick = tick;
            sim_date = sim_date;
            phase = phase;
          })
          (loop.handlers phase) p
    run_phases loop tick sim_date rest after

  -- `executeTick`, up to the batch
  unfoldable pub execute_tick : SimLoop H V → (tick : ℕ) → (sim_date : Text) → Result (Pending V)
  execute_tick loop tick sim_date = do
    started ←
        emit_event loop tick sim_date (codes "simulation.tick.started") (tick_started tick)
          no_options (pending_at_start loop)
    worked ← run_phases loop tick sim_date phases started.0
    completed ←
        emit_event loop tick sim_date (codes "simulation.tick.completed")
          (tick_completed (digest_of tick loop.next_seq worked)) no_options worked
    ok completed.0

  -- The `try` block: the loop after a tick that is committed.
  unfoldable pub committed : SimLoop H V → Result (SimLoop H V)
  committed loop = do
    let tick = loop.current_tick_value + 1
    sim_date ← sim_date_for_tick (pos tick)
    p ← execute_tick loop tick sim_date
    log ← append_batch (canonical_payload canonical) loop.log p.pending_events
    ok (record loop { log = log; ids = p.ids; next_seq = p.next_seq; current_tick_value = tick })

  unfoldable pub tick : SimLoop H V → Ticked H V
  tick loop = ticked_or loop (committed loop)

  -- `for (let i = 0; i < ticks; i++) this.tick()`
  unfoldable pub tick_times : ℕ → SimLoop H V → Ticked H V
  tick_times zero loop = ticked loop
  tick_times (suc n) loop = and_then (tick loop) (tick_times n)

  unfoldable pub advance : ℤ → SimLoop H V → Ticked H V
  advance (pos ticks) loop =
      if ltb ticks 1 then failed validation_failed loop else tick_times ticks loop
  advance (negsuc _) loop = failed validation_failed loop
