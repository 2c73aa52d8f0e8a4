-- ===== src/Tests/EngineRuns.antt =====
-- The event log, the bus, the tick and the ids on concrete inputs.
use worldsimulator.Prelude.{
  ℕ, zero, suc, ◌+◌, ◌≡◌, refl, true, false, List, [], ◌∷◌, none, some, All, arith,
}
use worldsimulator.Prelude.Int.{pos}
use worldsimulator.Prelude.Decimal.{Text}
use worldsimulator.Prelude.Texts.{codes, is_id, text_eq}
use worldsimulator.Prelude.Results.{ok, err, schema_invalid}
use worldsimulator.Ledger.Types.{system}
use worldsimulator.Ids.{
  Counters, counter, set_counter, next, id_text, print_36, emit_36, pad_start, is_prefix,
}
use worldsimulator.Ids.Distinctness.{draw_each, Distinct, draw_each-Distinct}
use worldsimulator.Events.{
  EventEnvelope, validate_event_envelope, is_envelope, is_type_name, is_type_rest,
}
use worldsimulator.Events.Log.{InMemoryEventLog, check_batch, append_batch}
use worldsimulator.Events.Gapless.{IsLog, append_batch-IsLog}
use worldsimulator.Events.Batches.{append_each, append_each-append_batch}
use worldsimulator.Events.Bus.{
  EventBus, Action, publishes, Effect, Outcome, returned, publish, drain, dispatch, call_all, call,
  act_all, handlers_of,
}
use worldsimulator.Events.Delivery.{PublishesBelow, bus_after, IsIdle, publish_delivers}
use worldsimulator.SimLoop.{decisions, Handlers, register_phase}
use worldsimulator.SimLoop.Tick.{
  Work, returns, emits, counts, transactions_kind, TickContext, SimLoop, no_options, tick, advance,
}
use worldsimulator.SimLoop.Commits.{IsLoop, TickEnds, Advances, tick_ends, advance-Advances}

abbrev prefixes : List Text
prefixes = codes "evt" ∷ codes "obl" ∷ codes "Evt" ∷ codes "evt" ∷ []

abbrev drawn : List Text
drawn = codes "evt_00000001" ∷ codes "obl_00000001" ∷ codes "evt_00000002" ∷ []

abbrev counted : Counters
counted = (codes "evt", 2) ∷ (codes "obl", 1) ∷ []

draws : draw_each [] prefixes ≡ (counted, drawn)
unfolding draw_each next counter set_counter is_prefix id_text print_36 emit_36 pad_start text_eq
draws = refl

draw_each-Distinct_example : Distinct (draw_each [] prefixes).1
draw_each-Distinct_example = draw_each-Distinct [] prefixes

abbrev event : ℕ → Text → EventEnvelope ℕ
event seq id = record {
  event_id = id;
  type = codes "bank.opened";
  schema_version = pos 1;
  simulation_id = codes "sim";
  run_id = codes "run";
  seq = pos seq;
  tick = pos 1;
  sim_date = codes "Y0001-M01-D01";
  wall_time = codes "now";
  actor = record { kind = system; id = codes "engine" };
  correlation_id = id;
  causation_id = none;
  payload = 7;
  validated = true;
}

abbrev first : EventEnvelope ℕ
first = event 0 (codes "evt_00000001")

abbrev second : EventEnvelope ℕ
second = event 1 (codes "evt_00000002")

abbrev empty_log : {P : Type 0} → InMemoryEventLog P
empty_log = record { events = []; event_ids = [] }

abbrev log_of_two : InMemoryEventLog ℕ
log_of_two = record {
  events = first ∷ second ∷ [];
  event_ids = codes "evt_00000001" ∷ codes "evt_00000002" ∷ [];
}

appends : append_batch some empty_log (first ∷ second ∷ []) ≡ ok log_of_two
unfolding append_batch check_batch validate_event_envelope text_eq
appends = refl

append_batch-IsLog_example : IsLog log_of_two
append_batch-IsLog_example =
    append_batch-IsLog some empty_log (first ∷ second ∷ []) {after = log_of_two}
      (record { indexed = refl; numbered = tt; distinct = tt; one_run = tt }) appends

-- An event that is not yet validated is refused when it breaks the schema.
refused :
    validate_event_envelope some (record first { type = codes "Bank"; validated = false })
    ≡ err schema_invalid
unfolding validate_event_envelope is_envelope is_type_name is_type_rest is_id
refused = refl

abbrev answer_to : ℕ → List (Action ℕ ℕ)
answer_to zero = []
answer_to (suc n) = publishes (record first { payload = n }) ∷ []

-- A handler that answers every event but the last with the next one down.
abbrev answer : ℕ → EventEnvelope ℕ → ℕ → Effect ℕ ℕ ℕ
answer handler e seen = record { state = suc seen; actions = answer_to e.payload; failure = none }

abbrev rank : EventEnvelope ℕ → ℕ
rank e = e.payload

answers_fall : (n : ℕ) → All (PublishesBelow rank n) (answer_to n)
answers_fall zero = tt
answers_fall (suc n) = (omega arith, tt)

abbrev bus : EventBus ℕ ℕ
bus = record {
  by_type = (codes "bank.opened", 0 ∷ []) ∷ [];
  wildcard = 1 ∷ [];
  queue = [];
  draining = false;
  sink = none;
}

publish_delivers_example :
    (fuel : ℕ) × (o : Outcome ℕ ℕ ℕ) × ((extra : ℕ)
      → publish answer (fuel + extra) bus 0 first ≡ some o)
    × IsIdle answer rank (bus_after answer rank o)
publish_delivers_example =
    publish_delivers answer rank (λ h e s. answers_fall e.payload) bus 0 first (refl, refl)

-- Two events with the payloads 2 and 1 and 0 reach one typed handler.
delivered :
    publish answer 9 (record bus { wildcard = [] }) 0 (record first { payload = 2 })
    ≡ some (returned (record bus { wildcard = [] }) 3)
unfolding publish drain dispatch call_all call act_all handlers_of text_eq
delivered = refl

abbrev works : ℕ → TickContext → Work ℕ
works n ctx =
    counts transactions_kind (pos 2) (emits (codes "labor.paid") n no_options (λ e. returns))

abbrev no_handlers : Handlers ℕ
no_handlers _ = []

abbrev sim_loop : SimLoop ℕ ℕ
sim_loop = record {
  simulation_id = codes "sim";
  run_id = codes "run";
  log = empty_log;
  ids = [];
  handlers =
      register_phase no_handlers decisions
        (record { module_name = codes "M07"; order = pos 1; handler = 5 });
  current_tick_value = 0;
  next_seq = 0;
}

abbrev clock : ℕ → Text
clock seq = codes "now"

empty-IsLoop : IsLoop sim_loop
empty-IsLoop = (record { indexed = refl; numbered = tt; distinct = tt; one_run = tt }, refl)

tick_ends_example : TickEnds sim_loop (tick some clock works sim_loop)
tick_ends_example = tick_ends some clock works sim_loop empty-IsLoop

advance-Advances_example :
    Advances some clock works 2 sim_loop (advance some clock works (pos 2) sim_loop)
advance-Advances_example = advance-Advances some clock works 2 sim_loop (omega arith) empty-IsLoop

append_each-append_batch_example :
    append_each some empty_log (first ∷ second ∷ [])
    ≡ append_batch some empty_log (first ∷ second ∷ [])
append_each-append_batch_example = append_each-append_batch some empty_log (first ∷ second ∷ [])
