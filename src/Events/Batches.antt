-- ===== src/Events/Batches.antt =====
-- A batch and its events one at a time.
use worldsimulator.Prelude.{
  ℕ, ◌+◌, ◌≡◌, ◌⊎◌, inl, inr, refl, sym, ap, ◌∙◌, Bool, true, false, not, List, [], ◌∷◌, ◌++◌, map,
  Option, none, some, length, length-append,
}
use worldsimulator.Prelude.Int.{pos, eqb_ℤ}
use worldsimulator.Prelude.Decimal.{Text}
use worldsimulator.Prelude.Results.{Error, Result, ok, err, conflict, ◌>>=◌, ◌>>◌, throw_if}
use worldsimulator.Events.{EventEnvelope, validate_event_envelope}
use worldsimulator.Events.Log.{
  InMemoryEventLog, has, origin, or_else, comes_from, check_batch, append_batch, append,
}
use worldsimulator.Events.Gapless.{check_batch-Accepts, check_batch-nil, same_origin}
use mathlib.Core.List.{append-nil, append_assoc, map-append}

-- `append` for each event in order
unfoldable pub append_each :
    {P : Type 0}
    → (canonical : P → Option P) → InMemoryEventLog P
    → List (EventEnvelope P)
    → Result (InMemoryEventLog P)
append_each canonical log [] = ok log
append_each canonical log (event ∷ events) = do
  after ← append canonical log event
  append_each canonical after events

-- The checks of one event, before what is stored behind it is known.
split_guards :
    {E : Type 0} (r : Result E) (a b c : Bool) (k : Result (List E))
    → (r >>= λ v.
        throw_if a conflict
        >> (throw_if b conflict >> (throw_if c conflict >> (k >>= λ t. ok (v ∷ t)))))
      ≡ ((r >>= λ v.
            throw_if a conflict
            >> (throw_if b conflict >> (throw_if c conflict >> (ok [] >>= λ t. ok (v ∷ t)))))
          >>= λ s. k >>= λ t. ok (s ++ t))
split_guards (err e) a b c k = refl
split_guards (ok v) true b c k = refl
split_guards (ok v) false true c k = refl
split_guards (ok v) false false true k = refl
split_guards (ok v) false false false k = refl

check_batch_cons :
    {P : Type 0} (canonical : P → Option P) (from : Option (Text × Text)) (n : ℕ) (ids : List Text)
    (e : EventEnvelope P) (es : List (EventEnvelope P))
    → check_batch canonical from n ids (e ∷ es) ≡ (
        check_batch canonical from n ids (e ∷ []) >>= λ s.
        check_batch canonical from (n + 1) (ids ++ (e.event_id ∷ [])) es >>= λ t. ok (s ++ t))
unfolding check_batch
check_batch_cons canonical from n ids e es =
    split_guards (validate_event_envelope canonical e) (not (eqb_ℤ e.seq (pos n)))
      (not (comes_from from e.simulation_id e.run_id)) (has ids e.event_id)
      (check_batch canonical from (n + 1) (ids ++ (e.event_id ∷ [])) es)

Result-cases : {E : Type 0} (r : Result E) → ((e : Error) × (r ≡ err e)) ⊎ ((a : E) × (r ≡ ok a))
Result-cases (err e) = inl (e, refl)
Result-cases (ok a) = inr (a, refl)

>>=_cong :
    {A B : Type 0} (r : Result A) {f g : A → Result B} → ((a : A) → f a ≡ g a) → r >>= f ≡ r >>= g
>>=_cong (err e) h = refl
>>=_cong (ok a) h = h a

or_else-some :
    {A : Type 0} (o : Option A) (a : A) (b : Option A)
    → or_else (or_else o (some a)) b ≡ or_else o (some a)
or_else-some none a b = refl
or_else-some (some c) a b = refl

bind_bind :
    {A B C : Type 0} (r : Result A) (f : A → B) (g : B → C)
    → r >>= (λ a. ok (g (f a))) ≡ (r >>= (λ a. ok (f a))) >>= (λ b. ok (g b))
bind_bind (err e) f g = refl
bind_bind (ok a) f g = refl

abbrev grown : {P : Type 0} → InMemoryEventLog P → List (EventEnvelope P) → InMemoryEventLog P
grown log stored = record {
  events = log.events ++ stored;
  event_ids = log.event_ids ++ map (λ e. e.event_id) stored;
}

grown-grown :
    {P : Type 0} (log : InMemoryEventLog P) (s t : List (EventEnvelope P))
    → grown (grown log s) t ≡ grown log (s ++ t)
grown-grown log s t = cc (
  append_assoc log.events s t,
  append_assoc log.event_ids (map (λ e. e.event_id) s) (map (λ e. e.event_id) t),
  map-append (λ e. e.event_id) s t,
)

-- The events that follow an accepted one are checked as the rest of its batch.
after_one :
    {P : Type 0} (canonical : P → Option P) (log : InMemoryEventLog P) (e : EventEnvelope P)
    (es s : List (EventEnvelope P))
    → check_batch canonical
        (or_else (origin log.events) (origin (e ∷ [])))
        (length log.events)
        log.event_ids
        (e ∷ [])
      ≡ ok s
    → append_batch canonical (grown log s) es ≡ (
        check_batch canonical
          (or_else (origin log.events) (origin (e ∷ es)))
          (length log.events + 1)
          (log.event_ids ++ (e.event_id ∷ []))
          es
        >>= λ t. ok (grown log (s ++ t)))
unfolding append_batch
after_one canonical log e es s h =
    let from = or_else (origin log.events) (origin (e ∷ [])) in
    let (v, rest, is, keeps, number, run, fresh, more) =
      check_batch-Accepts canonical from (length log.events) log.event_ids e [] h in
    let nil =
      check_batch-nil canonical from (length log.events + 1) (log.event_ids ++ (e.event_id ∷ []))
        more in
    let one : s ≡ v ∷ [] = is ∙ ap (λ r. v ∷ r) (sym nil) in
    let origins = same_origin canonical log.events (e ∷ []) (length log.events) log.event_ids h in
    let known : or_else (origin (log.events ++ s)) (origin es) ≡ from =
      rw (← origins) (or_else-some (origin log.events) (e.simulation_id, e.run_id) (origin es)) in
    let long : length (log.events ++ s) ≡ length log.events + 1 =
      rw one (length-append log.events (v ∷ [])) in
    let named : log.event_ids ++ map (λ x. x.event_id) s ≡ log.event_ids ++ (e.event_id ∷ []) =
      rw (one, keeps.0) refl in
    >>=_cong
      (check_batch canonical (or_else (origin (log.events ++ s)) (origin es))
        (length (log.events ++ s)) (log.event_ids ++ map (λ x. x.event_id) s) es)
      (λ t. ap ok (grown-grown log s t))
    ∙ rw (known, long, named) refl

append_step :
    {P : Type 0} (canonical : P → Option P) (log : InMemoryEventLog P) (e : EventEnvelope P)
    (es : List (EventEnvelope P))
    → (append canonical log e >>= λ after. append_batch canonical after es)
      ≡ append_batch canonical log (e ∷ es)
unfolding append_batch append
append_step canonical log e es =
    let from = or_else (origin log.events) (origin (e ∷ [])) in
    let n = length log.events in
    let whole = check_batch_cons canonical from n log.event_ids e es in
    elim (Result-cases (check_batch canonical from n log.event_ids (e ∷ []))) [
      | inl (thrown, failed) ↦ rw (whole, failed) refl
      | inr (s, stored) ↦
          let then = after_one canonical log e es s stored in
          rw (whole, stored, then)
            (bind_bind (check_batch canonical from (n + 1) (log.event_ids ++ (e.event_id ∷ [])) es)
              (λ t. s ++ t) (grown log))
    ]

-- A batch is appended exactly as its events are one at a time: with the same log, or the same error.
pub append_each-append_batch :
    {P : Type 0} (canonical : P → Option P) (log : InMemoryEventLog P)
    (events : List (EventEnvelope P))
    → append_each canonical log events ≡ append_batch canonical log events
unfolding append_each
append_each-append_batch canonical log [] =
    unfold append_batch check_batch in cc (append-nil log.events, append-nil log.event_ids)
append_each-append_batch canonical log (e ∷ es) =
    >>=_cong (append canonical log e) (λ after. append_each-append_batch canonical after es)
    ∙ append_step canonical log e es
