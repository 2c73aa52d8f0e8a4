-- ===== src/SimLoop/Steps.antt =====
-- What a tick adds to the log, and what it leaves when it fails.
use worldsimulator.Prelude.{
  ℕ, ◌+◌, ◌≡◌, refl, sym, ap, subst, ◌∙◌, Bool, true, false, List, [], ◌∷◌, ◌++◌, Option, none,
  some, length, All, All-append, if◌then◌else◌, length-append, arith,
}
use mathlib.Core.List.{append-nil, append_assoc}
use worldsimulator.Prelude.Int.{pos}
use worldsimulator.Prelude.Decimal.{Text}
use worldsimulator.Prelude.Texts.{codes}
use worldsimulator.Prelude.Results.{ok, err, schema_invalid, >>=-eq-ok, ok-injective}
use worldsimulator.Ids.{next}
use worldsimulator.Events.{EventEnvelope, validate_event_envelope, with_payload, is_envelope}
use worldsimulator.SimLoop.{PhaseName, PhaseHandler}
use worldsimulator.SimLoop.Tick.{
  Payload, Work, returns, throws, emits, counts, sets_digest_indicators, draws_id, EmitOptions,
  TickContext, SimLoop, Pending, emitted, envelope_of, emit_event, run_handler, run_handlers,
  run_phases, canonical_payload, count_work, validate_indicators,
}

-- A validated event of a tick.
abbrev pub IsOf : {V : Type 0} → ℕ → EventEnvelope (Payload V) → Type 0
IsOf tick e = (e.tick ≡ pos tick) × (e.validated ≡ true)

-- The events of a tick that are pending after some work were pending before it, or were emitted by
-- it, each of them under the next number and at the same tick.
abbrev pub Adds : {V : Type 0} → ℕ → Pending V → Pending V → Type 0
Adds {V = V} tick before after =
    (new : List (EventEnvelope (Payload V))) × (after.pending_events ≡ before.pending_events ++ new)
    × (after.next_seq ≡ before.next_seq + length new)
    × All (IsOf tick) new

Adds-refl : {V : Type 0} (tick : ℕ) (p : Pending V) → Adds tick p p
Adds-refl tick p = ([], sym (append-nil p.pending_events), omega arith, tt)

pub Adds-trans :
    {V : Type 0} (tick : ℕ) (p q r : Pending V) → Adds tick p q → Adds tick q r → Adds tick p r
Adds-trans tick p q r (x, e, n, h) (y, f, m, k) = (
  x ++ y,
  f ∙ ap (λ z. z ++ y) e ∙ append_assoc p.pending_events x y,
  omega (arith, n, m, length-append x y),
  All-append (IsOf tick) x y h k,
)

-- What validation keeps of an event that it has not seen yet.
abbrev Validates : {Q : Type 0} → (Q → Option Q) → EventEnvelope Q → EventEnvelope Q → Type 0
Validates canonical e v =
    (v.tick ≡ e.tick) × (v.validated ≡ true) × (canonical e.payload ≡ some v.payload)

with_payload-Validates :
    {Q : Type 0} (canonical : Q → Option Q) (e : EventEnvelope Q) (q : Option Q)
    {v : EventEnvelope Q}
    → canonical e.payload ≡ q
    → with_payload e q ≡ ok v
    → Validates canonical e v
with_payload-Validates canonical e none c h = absurd (ground arith)
with_payload-Validates canonical e (some q) c h = rw (← ok-injective h) (refl, refl, c)

branches-Validates :
    {Q : Type 0} (canonical : Q → Option Q) (e : EventEnvelope Q) (known valid : Bool)
    {v : EventEnvelope Q}
    → known ≡ false
    → (if known
        then ok e
        else if valid
        then with_payload e (canonical e.payload)
        else err schema_invalid)
      ≡ ok v
    → Validates canonical e v
branches-Validates canonical e true valid f k = absurd (ground arith)
branches-Validates canonical e false true f k =
    with_payload-Validates canonical e (canonical e.payload) refl k
branches-Validates canonical e false false f k = absurd (ground arith)

validate-Validates :
    {Q : Type 0} (canonical : Q → Option Q) (e : EventEnvelope Q) {v : EventEnvelope Q}
    → e.validated ≡ false
    → validate_event_envelope canonical e ≡ ok v
    → Validates canonical e v
unfolding validate_event_envelope
validate-Validates canonical e fresh h =
    branches-Validates canonical e e.validated (is_envelope e) fresh h

-- An emitted event, and what its validation kept.
abbrev pub Emits :
    {V : Type 0}
    → (V → Option V)
    → ℕ
    → Payload V
    → Pending V
    → Pending V × EventEnvelope (Payload V)
    → Type 0
Emits canonical tick payload p r =
    (r.0.pending_events ≡ p.pending_events ++ (r.1 ∷ []))
    × (r.0.next_seq ≡ p.next_seq + 1)
    × IsOf tick r.1
    × (canonical_payload canonical payload ≡ some r.1.payload)

module _ {H V : Type 0} (canonical : V → Option V) (wall_clock : ℕ → Text)
    (run : H → TickContext → Work V) where
  pub emit_event-Emits :
      (loop : SimLoop H V) (tick : ℕ) (sim_date type : Text) (payload : Payload V)
      (options : EmitOptions) (p : Pending V) {r : Pending V × EventEnvelope (Payload V)}
      → emit_event canonical wall_clock run loop tick sim_date type payload options p ≡ ok r
      → Emits canonical tick payload p r
  unfolding emit_event
  emit_event-Emits loop tick sim_date type payload options p h =
      let (drawn, one, rest) = >>=-eq-ok (next p.ids (codes "evt")) _ h in
      let (v, valid, done) =
        >>=-eq-ok
          (validate_event_envelope (canonical_payload canonical)
            (envelope_of wall_clock loop tick sim_date type payload options p.next_seq drawn.1))
          _ rest in
      let kept = validate-Validates (canonical_payload canonical) _ refl valid in
      rw (← ok-injective done) (refl, refl, (kept.0, kept.1), kept.2)

  pub Emits-Adds :
      (tick : ℕ) (payload : Payload V) (p : Pending V) (r : Pending V × EventEnvelope (Payload V))
      → Emits canonical tick payload p r
      → Adds tick p r.0
  Emits-Adds tick payload p r (e, n, t, _) = (r.1 ∷ [], e, n, (t, tt))

  run_handler-Adds :
      (loop : SimLoop H V) (ctx : TickContext) (work : Work V) (p : Pending V) {after : Pending V}
      → run_handler canonical wall_clock run loop ctx work p ≡ ok after
      → Adds ctx.tick p after
  unfolding run_handler
  run_handler-Adds loop ctx returns p h =
      subst (Adds ctx.tick p) (ok-injective h) (Adds-refl ctx.tick p)
  run_handler-Adds loop ctx (throws error) p h = absurd (ground arith)
  run_handler-Adds loop ctx (emits type v options rest) p {after} h =
      let (event, one, more) =
        >>=-eq-ok
          (emit_event canonical wall_clock run loop ctx.tick ctx.sim_date type (emitted v) options
            p)
          _ h in
      let e = emit_event-Emits loop ctx.tick ctx.sim_date type (emitted v) options p one in
      Adds-trans ctx.tick p event.0 after (Emits-Adds ctx.tick (emitted v) p event e)
        (run_handler-Adds loop ctx (rest event.1) event.0 more)
  run_handler-Adds loop ctx (counts kind amount rest) p {after} h =
      let (w, one, more) = >>=-eq-ok (count_work p.work_counts kind amount) _ h in
      run_handler-Adds loop ctx rest (record p { work_counts = w }) more
  run_handler-Adds loop ctx (sets_digest_indicators indicators rest) p {after} h =
      let (i, one, more) = >>=-eq-ok (validate_indicators indicators) _ h in
      run_handler-Adds loop ctx rest (record p { digest_indicators = i }) more
  run_handler-Adds loop ctx (draws_id prefix rest) p {after} h =
      let (drawn, one, more) = >>=-eq-ok (next p.ids prefix) _ h in
      run_handler-Adds loop ctx (rest drawn.1) (record p { ids = drawn.0 }) more

  run_handlers-Adds :
      (loop : SimLoop H V) (ctx : TickContext) (hs : List (PhaseHandler H)) (p : Pending V)
      {after : Pending V}
      → run_handlers canonical wall_clock run loop ctx hs p ≡ ok after
      → Adds ctx.tick p after
  unfolding run_handlers
  run_handlers-Adds loop ctx [] p h =
      subst (Adds ctx.tick p) (ok-injective h) (Adds-refl ctx.tick p)
  run_handlers-Adds loop ctx (handler ∷ hs) p {after} h =
      let (q, one, more) =
        >>=-eq-ok (run_handler canonical wall_clock run loop ctx (run handler.handler ctx) p) _ h in
      Adds-trans ctx.tick p q after (run_handler-Adds loop ctx (run handler.handler ctx) p one)
        (run_handlers-Adds loop ctx hs q more)

  abbrev context : SimLoop H V → ℕ → Text → PhaseName → TickContext
  context loop tick sim_date phase = record {
    simulation_id = loop.simulation_id;
    run_id = loop.run_id;
    tick = tick;
    sim_date = sim_date;
    phase = phase;
  }

  pub run_phases-Adds :
      (loop : SimLoop H V) (tick : ℕ) (sim_date : Text) (ps : List PhaseName) (p : Pending V)
      {after : Pending V}
      → run_phases canonical wall_clock run loop tick sim_date ps p ≡ ok after
      → Adds tick p after
  unfolding run_phases
  run_phases-Adds loop tick sim_date [] p h =
      subst (Adds tick p) (ok-injective h) (Adds-refl tick p)
  run_phases-Adds loop tick sim_date (phase ∷ ps) p {after} h =
      let ctx = context loop tick sim_date phase in
      let (q, one, more) =
        >>=-eq-ok (run_handlers canonical wall_clock run loop ctx (loop.handlers phase) p) _ h in
      Adds-trans tick p q after (run_handlers-Adds loop ctx (loop.handlers phase) p one)
        (run_phases-Adds loop tick sim_date ps q more)
