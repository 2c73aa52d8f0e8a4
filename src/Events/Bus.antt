-- ===== src/Events/Bus.antt =====
-- packages/engine/src/bus.ts: the event bus.
use worldsimulator.Prelude.{
  ℕ, zero, suc, Bool, true, false, List, [], ◌∷◌, ◌++◌, Option, none, some, if◌then◌else◌,
}
use worldsimulator.Prelude.Decimal.{Text}
use worldsimulator.Prelude.Texts.{codes, text_eq}
use worldsimulator.Prelude.Results.{Error, Result, ok, err, plain_error}
use worldsimulator.Events.{EventEnvelope}

-- The handlers are named by `H`; what a handler does is a parameter of `publish`. `by_type` is a map
-- in insertion order.
pub record EventBus (H P : Type 0) : Type 0 where
  pub by_type : List (Text × List H)
  pub wildcard : List H
  pub queue : List (EventEnvelope P)
  pub draining : Bool
  pub sink : Option H

-- What a handler may ask of the bus while it runs.
pub data Action (H P : Type 0) : Type 0 where
  publishes : EventEnvelope P → Action H P
  subscribes : Text → H → Action H P

-- A run of a handler: the state of the modules that it leaves, what it asked of the bus, in order,
-- and the error that it ended with, if it threw.
pub record Effect (H P S : Type 0) : Type 0 where
  pub state : S
  pub actions : List (Action H P)
  pub failure : Option Error

pub data Outcome (H P S : Type 0) : Type 0 where
  returned : EventBus H P → S → Outcome H P S
  thrown : Error → EventBus H P → S → Outcome H P S

abbrev sink_once : {H P : Type 0} → EventBus H P → Option H → H → Result (EventBus H P)
sink_once bus none handler = ok (record bus { sink = some handler })
sink_once bus (some _) handler = err plain_error

unfoldable pub set_sink : {H P : Type 0} → EventBus H P → H → Result (EventBus H P)
set_sink bus handler = sink_once bus bus.sink handler

-- `this.byType.get(type)`, where no list is the empty one
unfoldable pub handlers_of : {H : Type 0} → List (Text × List H) → Text → List H
handlers_of [] type = []
handlers_of (entry ∷ rest) type =
    let later = handlers_of rest type in if text_eq entry.0 type then entry.1 else later

unfoldable pub add_handler : {H : Type 0} → List (Text × List H) → Text → H → List (Text × List H)
add_handler [] type handler = (type, handler ∷ []) ∷ []
add_handler (entry ∷ rest) type handler =
    let later = add_handler rest type handler in
    if text_eq entry.0 type then (entry.0, entry.1 ++ (handler ∷ [])) ∷ rest else entry ∷ later

unfoldable pub subscribe : {H P : Type 0} → EventBus H P → Text → H → EventBus H P
subscribe bus type handler =
    if text_eq type (codes "*")
    then record bus { wildcard = bus.wildcard ++ (handler ∷ []) }
    else record bus { by_type = add_handler bus.by_type type handler }

abbrev pub enqueue : {H P : Type 0} → EventBus H P → EventEnvelope P → EventBus H P
enqueue bus event = record bus { queue = bus.queue ++ (event ∷ []) }

-- While the bus drains, `publish` only enqueues.
unfoldable pub act_all : {H P : Type 0} → EventBus H P → List (Action H P) → EventBus H P
act_all bus [] = bus
act_all bus (publishes event ∷ actions) = act_all (enqueue bus event) actions
act_all bus (subscribes type handler ∷ actions) = act_all (subscribe bus type handler) actions

abbrev pub ends : {H P S : Type 0} → Option Error → EventBus H P → S → Outcome H P S
ends none bus state = returned bus state
ends (some error) bus state = thrown error bus state

abbrev pub proceed :
    {H P S : Type 0} → Outcome H P S → (EventBus H P → S → Outcome H P S) → Outcome H P S
proceed (returned bus state) next = next bus state
proceed (thrown error bus state) next = thrown error bus state

abbrev pub option_list {ℓ} : {A : Type ℓ} → Option A → List A
option_list none = []
option_list (some a) = a ∷ []

module _ {H P S : Type 0} (run : H → EventEnvelope P → S → Effect H P S) where
  unfoldable pub call : EventBus H P → S → EventEnvelope P → H → Outcome H P S
  call bus state event handler =
      let effect = run handler event state in
      ends effect.failure (act_all bus effect.actions) effect.state

  -- `for (const handler of handlers) handler(event)`
  unfoldable pub call_all : List H → EventBus H P → S → EventEnvelope P → Outcome H P S
  call_all [] bus state event = returned bus state
  call_all (handler ∷ handlers) bus state event =
      proceed (call bus state event handler) (λ bus' state'. call_all handlers bus' state' event)

  -- One turn of the loop, behind `queue.shift()`. Each list of handlers is read when its turn comes.
  unfoldable pub dispatch : EventBus H P → S → EventEnvelope P → Outcome H P S
  dispatch bus state event =
      proceed (call_all (option_list bus.sink) bus state event) (λ bus' state'.
        proceed (call_all (handlers_of bus'.by_type event.type) bus' state' event)
          (λ bus'' state''. call_all bus''.wildcard bus'' state'' event))

  -- `catch` and `finally`
  abbrev pub settle : Outcome H P S → Outcome H P S
  settle (returned bus state) = returned (record bus { draining = false }) state
  settle (thrown error bus state) = thrown error (record bus { queue = []; draining = false }) state

  abbrev pub continue :
      Outcome H P S → (EventBus H P → S → Option (Outcome H P S)) → Option (Outcome H P S)
  continue (returned bus state) loop = loop bus state
  continue (thrown error bus state) loop = some (thrown error bus state)

  abbrev pub shift :
      List (EventEnvelope P)
      → EventBus H P
      → S
      → (EventBus H P → S → Option (Outcome H P S))
      → Option (Outcome H P S)
  shift [] bus state loop = some (returned bus state)
  shift (next ∷ queue) bus state loop =
      continue (dispatch (record bus { queue = queue }) state next) loop

  -- `for (;;)` on at most `fuel` events; there is no outcome if that is not enough.
  unfoldable pub drain : ℕ → EventBus H P → S → Option (Outcome H P S)
  drain zero bus state = none
  drain (suc fuel) bus state = shift bus.queue bus state (drain fuel)

  abbrev pub settled : Option (Outcome H P S) → Option (Outcome H P S)
  settled none = none
  settled (some outcome) = some (settle outcome)

  unfoldable pub publish : ℕ → EventBus H P → S → EventEnvelope P → Option (Outcome H P S)
  publish fuel bus state event =
      if bus.draining
      then some (returned (enqueue bus event) state)
      else settled (drain fuel (record (enqueue bus event) { draining = true }) state)
