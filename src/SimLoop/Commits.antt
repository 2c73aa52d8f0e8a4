-- ===== src/SimLoop/Commits.antt =====
-- A committed tick, and a failed one.
use worldsimulator.Prelude.{
  ℕ, zero, suc, ltb, ◌+◌, ◌≡◌, refl, ap, subst, ◌∙◌, true, false, List, [], ◌∷◌, ◌++◌, Option, some,
  length, All, All-append, All-map_imp, ◌<◌, length-append, arith,
}
use worldsimulator.Prelude.Int.{pos}
use worldsimulator.Prelude.Decimal.{Text}
use worldsimulator.Prelude.Texts.{codes}
use worldsimulator.Prelude.Results.{Error, Result, ok, err, >>=-eq-ok, ok-injective}
use worldsimulator.Events.{EventEnvelope}
use worldsimulator.Events.Log.{append_batch}
use worldsimulator.Events.Gapless.{IsLog, append_batch-IsLog}
use worldsimulator.Events.Again.{append_batch_again}
use worldsimulator.Ids.{Counters, restore}
use worldsimulator.Prelude.Sort.{sort_again, sort-IsSorted}
use worldsimulator.Prelude.Texts.{text_before, text_before_asym}
use worldsimulator.SimLoop.{phases}
use worldsimulator.SimLoop.Calendar.{sim_date_for_tick}
use worldsimulator.SimLoop.Tick.{
  Payload, tick_started, tick_completed, TickDigest, Work, TickContext, SimLoop, Pending,
  no_options, pending_at_start, digest_of, emit_event, run_phases, execute_tick, committed,
  canonical_payload, Ticked, ticked, failed, tick, serialize, rolled_back, tick_times, advance,
  ticked_or, and_then,
}
use worldsimulator.SimLoop.Steps.{IsOf, emit_event-Emits, run_phases-Adds}

started_kept :
    {V : Type 0} (canonical : V → Option V) (n : ℕ) {q : Payload V}
    → canonical_payload canonical (tick_started n) ≡ some q
    → q ≡ tick_started n
unfolding canonical_payload
started_kept canonical n h = cc

completed_kept :
    {V : Type 0} (canonical : V → Option V) (digest : TickDigest) {q : Payload V}
    → canonical_payload canonical (tick_completed digest) ≡ some q
    → q ≡ tick_completed digest
unfolding canonical_payload
completed_kept canonical digest h = cc

-- The pending events of a whole tick: the start, what the phases emitted, and a digest whose count of
-- events is their number; all at the tick, and as many as the sequence went up.
pub record Executed {V : Type 0} (tick seq : ℕ) (p : Pending V) : Type 0 where
  pub first : EventEnvelope (Payload V)
  pub middle : List (EventEnvelope (Payload V))
  pub last : EventEnvelope (Payload V)
  pub digest : TickDigest
  pub in_order : p.pending_events ≡ first ∷ (middle ++ (last ∷ []))
  pub starts : first.payload ≡ tick_started tick
  pub completes : last.payload ≡ tick_completed digest
  pub counted : digest.events ≡ length p.pending_events
  pub advanced : p.next_seq ≡ seq + length p.pending_events
  pub at_tick : All (IsOf tick) p.pending_events

module _ {H V : Type 0} (canonical : V → Option V) (wall_clock : ℕ → Text)
    (run : H → TickContext → Work V) where
  execute_tick-Executed :
      (loop : SimLoop H V) (n : ℕ) (sim_date : Text) {p : Pending V}
      → execute_tick canonical wall_clock run loop n sim_date ≡ ok p
      → Executed n loop.next_seq p
  unfolding execute_tick
  execute_tick-Executed loop n sim_date {p} h =
      let (started, one, rest) =
        >>=-eq-ok
          (emit_event canonical wall_clock run loop n sim_date (codes "simulation.tick.started")
            (tick_started n) no_options (pending_at_start loop))
          _ h in
      let (worked, two, rest2) =
        >>=-eq-ok (run_phases canonical wall_clock run loop n sim_date phases started.0) _ rest in
      let digest = digest_of n loop.next_seq worked in
      let (completed, three, done) =
        >>=-eq-ok
          (emit_event canonical wall_clock run loop n sim_date (codes "simulation.tick.completed")
            (tick_completed digest) no_options worked)
          _ rest2 in
      let (e1, n1, t1, c1) =
        emit_event-Emits canonical wall_clock run loop n sim_date (codes "simulation.tick.started")
          (tick_started n) no_options (pending_at_start loop) one in
      let (middle, e2, n2, t2) =
        run_phases-Adds canonical wall_clock run loop n sim_date phases started.0 two in
      let (e3, n3, t3, c3) =
        emit_event-Emits canonical wall_clock run loop n sim_date
          (codes "simulation.tick.completed") (tick_completed digest) no_options worked three in
      let events = e3 ∙ ap (λ q. q ++ (completed.1 ∷ [])) (e2 ∙ ap (λ q. q ++ middle) e1) in
      let long = length-append middle (completed.1 ∷ []) in
      subst (Executed n loop.next_seq) (ok-injective done) (record {
        first = started.1;
        middle = middle;
        last = completed.1;
        digest = digest;
        in_order = events;
        starts = started_kept canonical n c1;
        completes = completed_kept canonical digest c3;
        counted = rw events (omega (arith, long, n1, n2));
        advanced = rw events (omega (arith, long, n1, n2, n3));
        at_tick = rw events (t1, All-append _ middle (completed.1 ∷ []) t2 (t3, tt));
      })

-- The log of a loop is gapless, and the loop goes on where it ends.
abbrev pub IsLoop : {H V : Type 0} → SimLoop H V → Type 0
IsLoop loop = IsLog loop.log × (loop.next_seq ≡ length loop.log.events)

-- The events that a tick appends: the first says that it starts, the last is a digest of it that
-- counts them, and all of them are at the tick.
pub record IsTick {V : Type 0} (tick : ℕ) (batch : List (EventEnvelope (Payload V))) : Type 0 where
  pub first : EventEnvelope (Payload V)
  pub middle : List (EventEnvelope (Payload V))
  pub last : EventEnvelope (Payload V)
  pub digest : TickDigest
  pub in_order : batch ≡ first ∷ (middle ++ (last ∷ []))
  pub starts : first.payload ≡ tick_started tick
  pub completes : last.payload ≡ tick_completed digest
  pub counted : digest.events ≡ length batch
  pub at_tick : All (λ e. e.tick ≡ pos tick) batch

-- What a tick that is committed does to a loop.
pub record Commits {H V : Type 0} (before after : SimLoop H V) : Type 0 where
  pub batch : List (EventEnvelope (Payload V))
  pub appended : after.log.events ≡ before.log.events ++ batch
  pub tick_up : after.current_tick_value ≡ before.current_tick_value + 1
  pub is_tick : IsTick after.current_tick_value batch
  pub stays_loop : IsLoop after

-- What a tick that fails leaves: the ids with the same counters, and all else as it was.
abbrev pub RollsBack : {H V : Type 0} → SimLoop H V → SimLoop H V → Type 0
RollsBack before after =
    (serialize after.ids ≡ serialize before.ids) × (record before { ids = after.ids } ≡ after)

abbrev pub TickEnds : {H V : Type 0} → SimLoop H V → Ticked H V → Type 0
TickEnds before (ticked after) = Commits before after
TickEnds before (failed error after) = RollsBack before after

serialize_again : (ids : Counters) → serialize (serialize ids) ≡ serialize ids
unfolding serialize
serialize_again ids =
    sort_again _ _
      (sort-IsSorted (λ a b. text_before a.0 b.0) (λ a b. text_before_asym a.0 b.0) ids)

restore-ok : (state : Counters) {ids : Counters} → restore state ≡ ok ids → ids ≡ state
unfolding restore
restore-ok state h = ground arith

rolled_back-RollsBack :
    {H V : Type 0} (loop : SimLoop H V) (error : Error) (restored : Result Counters)
    → restore (serialize loop.ids) ≡ restored
    → TickEnds loop (rolled_back loop error restored)
rolled_back-RollsBack loop error (err worse) h = (refl, refl)
rolled_back-RollsBack loop error (ok ids) h =
    (ap serialize (restore-ok (serialize loop.ids) h) ∙ serialize_again loop.ids, refl)

module _ {H V : Type 0} (canonical : V → Option V) (wall_clock : ℕ → Text)
    (run : H → TickContext → Work V) where
  committed-Commits :
      (loop : SimLoop H V) {after : SimLoop H V}
      → IsLoop loop
      → committed canonical wall_clock run loop ≡ ok after
      → Commits loop after
  unfolding committed append_batch
  committed-Commits loop {after} well h =
      let n = loop.current_tick_value + 1 in
      let (sim_date, dated, h1) = >>=-eq-ok (sim_date_for_tick (pos n)) _ h in
      let (p, executed, h2) =
        >>=-eq-ok (execute_tick canonical wall_clock run loop n sim_date) _ h1 in
      let (log, logged, done) =
        >>=-eq-ok (append_batch (canonical_payload canonical) loop.log p.pending_events) _ h2 in
      let ran = execute_tick-Executed canonical wall_clock run loop n sim_date executed in
      let gapless =
        append_batch-IsLog (canonical_payload canonical) loop.log p.pending_events well.0 logged in
      let valid =
        All-map_imp (IsOf n) (λ e. e.validated ≡ true) p.pending_events (λ e k. k.1) ran.at_tick in
      let whole =
        append_batch_again (canonical_payload canonical) loop.log p.pending_events valid logged in
      let long = length-append loop.log.events p.pending_events in
      let seq = ran.advanced in
      subst (Commits loop) (ok-injective done) (record {
        batch = p.pending_events;
        appended = whole;
        tick_up = refl;
        is_tick = record {
          first = ran.first;
          middle = ran.middle;
          last = ran.last;
          digest = ran.digest;
          in_order = ran.in_order;
          starts = ran.starts;
          completes = ran.completes;
          counted = ran.counted;
          at_tick =
              All-map_imp (IsOf n) (λ e. e.tick ≡ pos n) p.pending_events (λ e k. k.0) ran.at_tick;
        };
        stays_loop = (gapless, rw whole (omega (arith, long, seq, well.1)));
      })

  ticked_or-ends :
      (loop : SimLoop H V) (result : Result (SimLoop H V))
      → IsLoop loop
      → committed canonical wall_clock run loop ≡ result
      → TickEnds loop (ticked_or loop result)
  ticked_or-ends loop (ok after) well h = committed-Commits loop well h
  ticked_or-ends loop (err error) well h =
      rolled_back-RollsBack loop error (restore (serialize loop.ids)) refl

  -- On a loop whose log is gapless, and whatever of the modelled calls its handlers make: a tick either commits, which
  -- appends one batch of events from the start of the tick to a digest that counts them, moves the
  -- current tick up by one and keeps the log gapless; or it fails and leaves the log, the current
  -- tick and the next number as they were, and the ids with the same counters.
  pub tick_ends :
      (loop : SimLoop H V) → IsLoop loop → TickEnds loop (tick canonical wall_clock run loop)
  unfolding tick
  tick_ends loop well = ticked_or-ends loop (committed canonical wall_clock run loop) well refl

  -- `after` is reached from `before` by `n` ticks, each of which commits.
  abbrev pub Reaches : ℕ → SimLoop H V → SimLoop H V → Type 0
  Reaches zero before after = after ≡ before
  Reaches (suc n) before after =
      (next : SimLoop H V) × (tick canonical wall_clock run before ≡ ticked next)
      × Commits before next
      × Reaches n next after

  -- Either all `n` ticks commit, or some first ones do and the one after them fails.
  abbrev pub Advances : ℕ → SimLoop H V → Ticked H V → Type 0
  Advances n before (ticked after) =
      Reaches n before after
      × IsLoop after
      × (after.current_tick_value ≡ before.current_tick_value + n)
  Advances n before (failed error after) =
      (k : ℕ) × (last : SimLoop H V) × (k < n)
      × Reaches k before last
      × (tick canonical wall_clock run last ≡ failed error after)
      × RollsBack last after
      × IsLoop after
      × (after.current_tick_value ≡ before.current_tick_value + k)

  one_more :
      (n : ℕ) (loop : SimLoop H V) (first : Ticked H V)
      → tick canonical wall_clock run loop ≡ first
      → IsLoop loop
      → TickEnds loop first
      → ((next : SimLoop H V)
          → IsLoop next
          → Advances n next (tick_times canonical wall_clock run n next))
      → Advances (suc n) loop (and_then first (tick_times canonical wall_clock run n))
  one_more n loop (ticked next) done well ends rest =
      later (tick_times canonical wall_clock run n next) (rest next ends.stays_loop)
    where
      later : (end : Ticked H V) → Advances n next end → Advances (suc n) loop end
      later (ticked after) h = ((next, done, ends, h.0), h.1, omega (arith, h.2, ends.tick_up))
      later (failed error after) (k, last, some_left, reach, fails, back, well', at) = (
        suc k,
        last,
        omega (arith, some_left),
        (next, done, ends, reach),
        fails,
        back,
        well',
        omega (arith, at, ends.tick_up),
      )
  one_more n loop (failed error after) done well ends rest =
      let now : loop.current_tick_value ≡ after.current_tick_value =
        ap (λ l. l.current_tick_value) ends.1 in
      (0, loop, omega arith, refl, done, ends, subst IsLoop ends.1 well, omega (arith, now))

  tick_times-Advances :
      (n : ℕ) (loop : SimLoop H V)
      → IsLoop loop
      → Advances n loop (tick_times canonical wall_clock run n loop)
  unfolding tick_times
  tick_times-Advances zero loop well = (refl, well, omega arith)
  tick_times-Advances (suc n) loop well =
      one_more n loop (tick canonical wall_clock run loop) refl well (tick_ends loop well)
        (tick_times-Advances n)

  -- Advancing by `n` ticks, `n` positive, from a loop whose log is gapless ends with such a loop.
  -- Either `n` ticks ran one after the other and each committed, and the current tick is `n` later;
  -- or some number `k` below `n` of ticks did so, the tick after them failed with the error returned
  -- and was rolled back, and the current tick is `k` later.
  pub advance-Advances :
      (n : ℕ) (loop : SimLoop H V)
      → 0 < n
      → IsLoop loop
      → Advances n loop (advance canonical wall_clock run (pos n) loop)
  unfolding advance
  advance-Advances n loop some_ticks well =
      let go : ltb n 1 ≡ false = ground arith in rw go (tick_times-Advances n loop well)
