-- ===== src/Events/Again.antt =====
-- An event that has been validated is stored as it is.
use worldsimulator.Prelude.{
  ℕ, ◌+◌, ◌≡◌, sym, ap, ◌∙◌, Bool, true, false, not, List, [], ◌∷◌, ◌++◌, Option, All, length,
  if◌then◌else◌, arith,
}
use worldsimulator.Prelude.Int.{pos, eqb_ℤ}
use worldsimulator.Prelude.Decimal.{Text}
use worldsimulator.Prelude.Results.{
  ok, err, conflict, schema_invalid, >>=-eq-ok, throw_if-eq-ok, ok-injective,
}
use worldsimulator.Events.{EventEnvelope, validate_event_envelope, is_envelope, with_payload}
use worldsimulator.Events.Log.{
  InMemoryEventLog, has, comes_from, check_batch, append_batch, origin, or_else,
}
use worldsimulator.Events.Gapless.{check_batch-nil}

branches_again :
    {P : Type 0} (known valid : Bool) (e : EventEnvelope P) (p : Option P) {v : EventEnvelope P}
    → known ≡ true
    → (if known then ok e else if valid then with_payload e p else err schema_invalid) ≡ ok v
    → v ≡ e
branches_again true valid e p k h = sym (ok-injective h)
branches_again false valid e p k h = absurd (ground arith)

validate_again :
    {P : Type 0} (canonical : P → Option P) (e : EventEnvelope P) {v : EventEnvelope P}
    → e.validated ≡ true
    → validate_event_envelope canonical e ≡ ok v
    → v ≡ e
unfolding validate_event_envelope
validate_again canonical e k h =
    branches_again e.validated (is_envelope e) e (canonical e.payload) k h

check_batch_one :
    {P : Type 0} (canonical : P → Option P) (from : Option (Text × Text)) (n : ℕ) (ids : List Text)
    (e : EventEnvelope P) (es : List (EventEnvelope P)) {stored : List (EventEnvelope P)}
    → check_batch canonical from n ids (e ∷ es) ≡ ok stored
    → (v : EventEnvelope P) × (rest : List (EventEnvelope P)) × (validate_event_envelope canonical e
        ≡ ok v)
      × (check_batch canonical from (n + 1) (ids ++ (e.event_id ∷ [])) es ≡ ok rest)
      × (stored ≡ v ∷ rest)
unfolding check_batch
check_batch_one canonical from n ids e es h =
    let (v, valid, h1) = >>=-eq-ok (validate_event_envelope canonical e) _ h in
    let h2 = (throw_if-eq-ok (not (eqb_ℤ e.seq (pos n))) conflict _ h1).1 in
    let h3 = (throw_if-eq-ok (not (comes_from from e.simulation_id e.run_id)) conflict _ h2).1 in
    let h4 = (throw_if-eq-ok (has ids e.event_id) conflict _ h3).1 in
    let (rest, more, done) =
      >>=-eq-ok (check_batch canonical from (n + 1) (ids ++ (e.event_id ∷ [])) es) _ h4 in
    (v, rest, valid, more, sym (ok-injective done))

pub check_batch_again :
    {P : Type 0} (canonical : P → Option P) (from : Option (Text × Text)) (n : ℕ) (ids : List Text)
    (es : List (EventEnvelope P)) {stored : List (EventEnvelope P)}
    → All (λ e. e.validated ≡ true) es
    → check_batch canonical from n ids es ≡ ok stored
    → stored ≡ es
check_batch_again canonical from n ids [] a h = sym (check_batch-nil canonical from n ids h)
check_batch_again canonical from n ids (e ∷ es) a h =
    let (v, rest, valid, more, done) = check_batch_one canonical from n ids e es h in
    done
    ∙ ap (λ x. x ∷ rest) (validate_again canonical e a.0 valid)
    ∙ ap (λ t. e ∷ t)
        (check_batch_again canonical from (n + 1) (ids ++ (e.event_id ∷ [])) es a.1 more)

-- A batch of validated events is stored as it is.
pub append_batch_again :
    {P : Type 0} (canonical : P → Option P) (log : InMemoryEventLog P)
    (batch : List (EventEnvelope P)) {after : InMemoryEventLog P}
    → All (λ e. e.validated ≡ true) batch
    → append_batch canonical log batch ≡ ok after
    → after.events ≡ log.events ++ batch
unfolding append_batch
append_batch_again canonical log batch a h =
    let from = or_else (origin log.events) (origin batch) in
    let (stored, checked, done) =
      >>=-eq-ok (check_batch canonical from (length log.events) log.event_ids batch) _ h in
    ap (λ l. l.events) (sym (ok-injective done))
    ∙ ap (λ s. log.events ++ s)
        (check_batch_again canonical from (length log.events) log.event_ids batch a checked)
