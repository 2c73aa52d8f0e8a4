-- ===== src/Events/Log.antt =====
-- packages/engine/src/event-log.ts: the append-only log.
use worldsimulator.Prelude.{
  ℕ, ◌+◌, Bool, true, false, not, ◌&&◌, ◌||◌, List, [], ◌∷◌, ◌++◌, map, Option, none, some, length,
  filter,
}
use worldsimulator.Prelude.Int.{ℤ, pos, eqb_ℤ, leb_ℤ}
use worldsimulator.Prelude.Decimal.{Text}
use worldsimulator.Prelude.Texts.{text_eq}
use worldsimulator.Prelude.Results.{Result, ok, conflict, ◌>>=◌, ◌>>◌, throw_if}
use worldsimulator.Events.{EventEnvelope, validate_event_envelope}

-- `eventIds` keeps the order of insertion.
pub record InMemoryEventLog (P : Type 0) : Type 0 where
  pub events : List (EventEnvelope P)
  pub event_ids : List Text

abbrev pub has : List Text → Text → Bool
has [] id = false
has (known ∷ ids) id = text_eq known id || has ids id

-- `events[0]?.simulationId` and `events[0]?.runId`
abbrev pub origin : {P : Type 0} → List (EventEnvelope P) → Option (Text × Text)
origin [] = none
origin (e ∷ _) = some (e.simulation_id, e.run_id)

abbrev pub or_else {ℓ} : {A : Type ℓ} → Option A → Option A → Option A
or_else none b = b
or_else (some a) b = some a

abbrev pub comes_from : Option (Text × Text) → (simulation_id run_id : Text) → Bool
comes_from none simulation_id run_id = false
comes_from (some from) simulation_id run_id = text_eq simulation_id from.0 && text_eq run_id from.1

-- The loop of `appendBatch`: what it has stored at its end.
unfoldable pub check_batch :
    {P : Type 0}
    → (canonical : P → Option P) → (expected : Option (Text × Text)) → (expected_seq : ℕ)
    → (pending_ids : List Text) → List (EventEnvelope P)
    → Result (List (EventEnvelope P))
check_batch canonical expected expected_seq pending_ids [] = ok []
check_batch canonical expected expected_seq pending_ids (event ∷ events) = do
  immutable ← validate_event_envelope canonical event
  throw_if (not (eqb_ℤ event.seq (pos expected_seq))) conflict
  throw_if (not (comes_from expected event.simulation_id event.run_id)) conflict
  throw_if (has pending_ids event.event_id) conflict
  let ids = pending_ids ++ (event.event_id ∷ [])
  stored ← check_batch canonical expected (expected_seq + 1) ids events
  ok (immutable ∷ stored)

unfoldable pub append_batch :
    {P : Type 0}
    → (canonical : P → Option P) → InMemoryEventLog P
    → List (EventEnvelope P)
    → Result (InMemoryEventLog P)
append_batch canonical log events = do
  let expected = or_else (origin log.events) (origin events)
  stored ← check_batch canonical expected (length log.events) log.event_ids events
  ok (record {
    events = log.events ++ stored;
    event_ids = log.event_ids ++ map (λ e. e.event_id) stored;
  })

unfoldable pub append :
    {P : Type 0}
    → (canonical : P → Option P) → InMemoryEventLog P
    → EventEnvelope P
    → Result (InMemoryEventLog P)
append canonical log event = append_batch canonical log (event ∷ [])

pub record EventFilter : Type 0 where
  pub type : Option Text
  pub from_seq : Option ℤ
  pub to_seq : Option ℤ
  pub tick : Option ℤ

abbrev pub unless_given {ℓ} : {A : Type ℓ} → Option A → (A → Bool) → Bool
unless_given none test = true
unless_given (some a) test = test a

unfoldable pub fits : {P : Type 0} → EventFilter → EventEnvelope P → Bool
fits f event =
    unless_given f.type (text_eq event.type)
    && unless_given f.from_seq (λ from. leb_ℤ from event.seq)
    && unless_given f.to_seq (λ to. leb_ℤ event.seq to)
    && unless_given f.tick (eqb_ℤ event.tick)

unfoldable pub list :
    {P : Type 0} → InMemoryEventLog P → Option EventFilter → List (EventEnvelope P)
list log none = log.events
list log (some f) = filter (fits f) log.events

unfoldable pub count : {P : Type 0} → InMemoryEventLog P → ℕ
count log = length log.events
