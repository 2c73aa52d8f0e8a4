-- ===== src/Events/Delivery.antt =====
-- That publishing comes to an end, and how it leaves the bus.
use mathlib.Core.Option.{some-injective}
use worldsimulator.Prelude.{
  ℕ, zero, suc, ◌+◌, ◌≤◌, ◌<◌, ◌≡◌, refl, sym, ap, subst, ◌∙◌, true, false, List, [], ◌∷◌, ◌++◌,
  Option, none, some, All, arith, All-append, All-map_imp, inl, inr, Bool-cases,
}
use worldsimulator.Prelude.Decimal.{Text}
use mathlib.Core.List.{append-nil, append_assoc}
use worldsimulator.Prelude.Texts.{codes, text_eq}
use worldsimulator.Prelude.Results.{Error}
use worldsimulator.Events.{EventEnvelope}
use worldsimulator.Events.Bus.{
  EventBus, Action, publishes, subscribes, Effect, Outcome, returned, thrown, enqueue, subscribe,
  act_all, ends, proceed, call, call_all, dispatch, settle, continue, shift, drain, publish,
}

-- An action that publishes nothing of rank `n` or more.
abbrev pub PublishesBelow : {H P : Type 0} → (EventEnvelope P → ℕ) → ℕ → Action H P → Type 0
PublishesBelow rank n (publishes event) = rank event < n
PublishesBelow rank n (subscribes type handler) = Unit

-- The queue is what it was, and behind it events below `n`.
abbrev Extends :
    {P : Type 0} → (EventEnvelope P → ℕ) → ℕ → (before after : List (EventEnvelope P)) → Type 0
Extends {P = P} rank n before after =
    (new : List (EventEnvelope P)) × (after ≡ before ++ new) × All (λ e. rank e < n) new

abbrev Continues :
    {H P S : Type 0} → (EventEnvelope P → ℕ) → ℕ → List (EventEnvelope P) → Outcome H P S → Type 0
Continues rank n before (returned bus state) = Extends rank n before bus.queue
Continues rank n before (thrown error bus state) = Unit

subscribe-queue :
    {H P : Type 0} (bus : EventBus H P) (type : Text) (handler : H)
    → (subscribe bus type handler).queue ≡ bus.queue
unfolding subscribe
subscribe-queue bus type handler = elim (Bool-cases (text_eq type (codes "*"))) [
  | inl every ↦ rw every refl
  | inr one ↦ rw one refl
]

module _ {P : Type 0} (rank : EventEnvelope P → ℕ) where
  Extends-trans :
      (n : ℕ) (a b c : List (EventEnvelope P))
      → Extends rank n a b
      → Extends rank n b c
      → Extends rank n a c
  Extends-trans n a b c (x, e, h) (y, f, k) =
      (x ++ y, f ∙ ap (λ q. q ++ y) e ∙ append_assoc a x y, All-append _ x y h k)

  Extends-refl : (n : ℕ) (a : List (EventEnvelope P)) → Extends rank n a a
  Extends-refl n a = ([], sym (append-nil a), tt)

  act_all-Extends :
      {H : Type 0} (n : ℕ) (bus : EventBus H P) (actions : List (Action H P))
      → All (PublishesBelow rank n) actions
      → Extends rank n bus.queue (act_all bus actions).queue
  unfolding act_all
  act_all-Extends n bus [] h = Extends-refl n bus.queue
  act_all-Extends n bus (publishes event ∷ actions) h =
      let rest = act_all-Extends n (enqueue bus event) actions h.1 in
      Extends-trans n bus.queue (bus.queue ++ (event ∷ [])) _ (event ∷ [], refl, (h.0, tt)) rest
  act_all-Extends n bus (subscribes type handler ∷ actions) h =
      let rest = act_all-Extends n (subscribe bus type handler) actions h.1 in
      subst (λ q. Extends rank n q (act_all (subscribe bus type handler) actions).queue)
        (subscribe-queue bus type handler) rest

module _ {H P S : Type 0} (run : H → EventEnvelope P → S → Effect H P S)
    (rank : EventEnvelope P → ℕ) where
  ends-Continues :
      (n : ℕ) (q : List (EventEnvelope P)) (failure : Option Error) (bus : EventBus H P) (state : S)
      → Extends rank n q bus.queue
      → Continues rank n q (ends failure bus state)
  ends-Continues n q none bus state h = h
  ends-Continues n q (some e) bus state h = tt

  proceed-Continues :
      (n : ℕ) (q : List (EventEnvelope P)) (o : Outcome H P S)
      (next : EventBus H P → S → Outcome H P S)
      → Continues rank n q o
      → ((bus : EventBus H P) (state : S)
          → Extends rank n q bus.queue
          → Continues rank n q (next bus state))
      → Continues rank n q (proceed o next)
  proceed-Continues n q (returned bus state) next h k = k bus state h
  proceed-Continues n q (thrown e bus state) next h k = tt

  module _
      (falls : (h : H) (e : EventEnvelope P) (s : S)
        → All (PublishesBelow rank (rank e)) (run h e s).actions) where
    call_all-Continues :
        (handlers : List H) (q : List (EventEnvelope P)) (bus : EventBus H P) (state : S)
        (event : EventEnvelope P)
        → Extends rank (rank event) q bus.queue
        → Continues rank (rank event) q (call_all run handlers bus state event)
    unfolding call_all call
    call_all-Continues [] q bus state event h = h
    call_all-Continues (handler ∷ handlers) q bus state event h =
        let effect = run handler event state in
        let one =
          act_all-Extends rank (rank event) bus effect.actions (falls handler event state) in
        proceed-Continues (rank event) q _ _
          (ends-Continues (rank event) q effect.failure (act_all bus effect.actions) effect.state
            (Extends-trans rank (rank event) q bus.queue _ h one))
          (λ bus' state' k. call_all-Continues handlers q bus' state' event k)

    dispatch-Continues :
        (bus : EventBus H P) (state : S) (event : EventEnvelope P)
        → Continues rank (rank event) bus.queue (dispatch run bus state event)
    unfolding dispatch
    dispatch-Continues bus state event =
        proceed-Continues (rank event) bus.queue _ _
          (call_all-Continues _ bus.queue bus state event
            (Extends-refl rank (rank event) bus.queue))
          (λ bus' state' h.
            proceed-Continues (rank event) bus.queue _ _
              (call_all-Continues _ bus.queue bus' state' event h)
              (λ bus'' state'' k. call_all-Continues _ bus.queue bus'' state'' event k))

    abbrev Ends : EventBus H P → S → Type 0
    Ends bus state = (fuel : ℕ) × (o : Outcome H P S) × (drain run fuel bus state ≡ some o)

    after_front :
        (n r : ℕ) (q new : List (EventEnvelope P)) (o : Outcome H P S)
        → n ≤ r
        → Continues rank n (q ++ new) o
        → All (λ e. rank e < r) new
        → ((more : List (EventEnvelope P)) (bus : EventBus H P) (state : S)
            → bus.queue ≡ q ++ more
            → All (λ e. rank e < r) more
            → Ends bus state)
        → (fuel : ℕ) × (final : Outcome H P S) × (continue run o (drain run fuel) ≡ some final)
    after_front n r q new (returned bus state) le (pubs, e, low) h rec =
        rec (new ++ pubs) bus state (e ∙ append_assoc q new pubs)
          (All-append _ new pubs h (All-map_imp _ _ pubs (λ x k. omega (arith, k, le)) low))
    after_front n r q new (thrown error bus state) le c h rec = (0, thrown error bus state, refl)

    drain-cons :
        (fuel : ℕ) (bus : EventBus H P) (state : S) (event : EventEnvelope P)
        (q : List (EventEnvelope P)) {o : Outcome H P S}
        → bus.queue ≡ event ∷ q
        → continue run (dispatch run (record bus { queue = q }) state event) (drain run fuel)
          ≡ some o
        → drain run (suc fuel) bus state ≡ some o
    unfolding drain
    drain-cons fuel bus state event q e h = rw e h

    none_below :
        (bus : EventBus H P) (state : S) (q : List (EventEnvelope P))
        → bus.queue ≡ q
        → All (λ e. rank e < 0) q
        → Ends bus state
    unfolding drain
    none_below bus state [] e h = (1, returned bus state, rw e refl)
    none_below bus state (event ∷ q) e h = absurd (omega (arith, h.0))

    front :
        (r : ℕ)
        → ((bus : EventBus H P) (state : S) → All (λ e. rank e < r) bus.queue → Ends bus state)
        → (q new : List (EventEnvelope P)) (bus : EventBus H P) (state : S) → bus.queue ≡ q ++ new
        → All (λ e. rank e < suc r) q
        → All (λ e. rank e < r) new
        → Ends bus state
    front r low [] new bus state e h k = low bus state (subst (All (λ x. rank x < r)) (sym e) k)
    front r low (event ∷ q) new bus state e h k =
        let turn = dispatch run (record bus { queue = q ++ new }) state event in
        let (fuel, final, done) =
          after_front (rank event) r q new turn (omega (arith, h.0))
            (dispatch-Continues (record bus { queue = q ++ new }) state event) k
            (λ more bus' state' e' k'. front r low q more bus' state' e' h.1 k') in
        (suc fuel, final, drain-cons fuel bus state event (q ++ new) e done)

    drain-Ends :
        (r : ℕ) (bus : EventBus H P) (state : S) → All (λ e. rank e < r) bus.queue → Ends bus state
    drain-Ends zero bus state h = none_below bus state bus.queue refl h
    drain-Ends (suc r) bus state h =
        front r (drain-Ends r) bus.queue [] bus state (sym (append-nil bus.queue)) h tt

  abbrev Loop : Type 0
  Loop = EventBus H P → S → Option (Outcome H P S)

  -- Whatever ends the loop with `narrow` ends it with `wide`.
  abbrev Within : Loop → Loop → Type 0
  Within narrow wide =
      (bus : EventBus H P) (state : S) (o : Outcome H P S)
      → narrow bus state ≡ some o
      → wide bus state ≡ some o

  continue-Within :
      (turn : Outcome H P S) (narrow wide : Loop) (o : Outcome H P S)
      → Within narrow wide
      → continue run turn narrow ≡ some o
      → continue run turn wide ≡ some o
  continue-Within (returned bus state) narrow wide o w h = w bus state o h
  continue-Within (thrown error bus state) narrow wide o w h = h

  shift-Within :
      (q : List (EventEnvelope P)) (bus : EventBus H P) (state : S) (narrow wide : Loop)
      (o : Outcome H P S)
      → Within narrow wide
      → shift run q bus state narrow ≡ some o
      → shift run q bus state wide ≡ some o
  shift-Within [] bus state narrow wide o w h = h
  shift-Within (event ∷ q) bus state narrow wide o w h =
      continue-Within (dispatch run (record bus { queue = q }) state event) narrow wide o w h

  drain-Within : (fuel extra : ℕ) → Within (drain run fuel) (drain run (fuel + extra))
  unfolding drain
  drain-Within zero extra bus state o h = absurd (ground arith)
  drain-Within (suc fuel) extra bus state o h =
      let more : suc fuel + extra ≡ suc (fuel + extra) = omega arith in
      rw more (
        shift-Within bus.queue bus state (drain run fuel) (drain run (fuel + extra)) o
          (drain-Within fuel extra) h)

  abbrev pub bus_after : Outcome H P S → EventBus H P
  bus_after (returned bus state) = bus
  bus_after (thrown error bus state) = bus

  abbrev Emptied : Outcome H P S → Type 0
  Emptied (returned bus state) = bus.queue ≡ []
  Emptied (thrown error bus state) = Unit

  -- A loop that returns only with an empty queue.
  abbrev Empties : Loop → Type 0
  Empties loop =
      (bus : EventBus H P) (state : S) (o : Outcome H P S) → loop bus state ≡ some o → Emptied o

  continue-Empties :
      (turn : Outcome H P S) (loop : Loop) (o : Outcome H P S)
      → Empties loop
      → continue run turn loop ≡ some o
      → Emptied o
  continue-Empties (returned bus state) loop o w h = w bus state o h
  continue-Empties (thrown error bus state) loop o w h = subst Emptied (some-injective _ _ h) tt

  shift-Empties :
      (q : List (EventEnvelope P)) (bus : EventBus H P) (state : S) (loop : Loop)
      (o : Outcome H P S)
      → bus.queue ≡ q
      → Empties loop
      → shift run q bus state loop ≡ some o
      → Emptied o
  shift-Empties [] bus state loop o e w h = subst Emptied (some-injective _ _ h) e
  shift-Empties (event ∷ q) bus state loop o e w h =
      continue-Empties (dispatch run (record bus { queue = q }) state event) loop o w h

  drain-Empties : (fuel : ℕ) → Empties (drain run fuel)
  unfolding drain
  drain-Empties zero bus state o h = absurd (ground arith)
  drain-Empties (suc fuel) bus state o h =
      shift-Empties bus.queue bus state (drain run fuel) o refl (drain-Empties fuel) h

  abbrev pub IsIdle : EventBus H P → Type 0
  IsIdle bus = (bus.draining ≡ false) × (bus.queue ≡ [])

  settle-IsIdle : (o : Outcome H P S) → Emptied o → IsIdle (bus_after (settle run o))
  settle-IsIdle (returned bus state) h = (refl, h)
  settle-IsIdle (thrown error bus state) h = (refl, refl)

  -- On an idle bus, if handlers publish only events of a lower rank than the one they handle:
  -- publishing an event comes to an end, with the same outcome for any more fuel, and leaves the bus
  -- idle again, also when a handler throws.
  pub publish_delivers :
      ((h : H) (e : EventEnvelope P) (s : S)
        → All (PublishesBelow rank (rank e)) (run h e s).actions)
      → (bus : EventBus H P) (state : S) (event : EventEnvelope P) → IsIdle bus
      → (fuel : ℕ) × (o : Outcome H P S) × ((extra : ℕ)
          → publish run (fuel + extra) bus state event ≡ some o)
        × IsIdle (bus_after o)
  unfolding publish
  publish_delivers falls bus state event (still, empty) =
      let queued = record (enqueue bus event) { draining = true } in
      let (fuel, o, done) =
        drain-Ends falls (suc (rank event)) queued state (rw empty (omega arith, tt)) in
      (
        fuel,
        settle run o,
        (λ extra. rw (still, drain-Within fuel extra queued state o done) refl),
        settle-IsIdle o (drain-Empties fuel queued state o done),
      )
