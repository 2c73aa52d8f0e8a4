-- ===== src/Events/Gapless.antt =====
-- What the log keeps true of its events.
use worldsimulator.Prelude.{
  ℕ, suc, ◌+◌, ◌≡◌, ◌≢◌, refl, sym, ap, subst, ◌∙◌, Bool, true, false, not, ◌||◌, List, [], ◌∷◌,
  ◌++◌, map, Option, none, some, length, All, All-append, if◌then◌else◌, arith,
}
use worldsimulator.Prelude.Int.{ℤ, pos, eqb_ℤ}
use worldsimulator.Prelude.Decimal.{Text}
use worldsimulator.Prelude.Texts.{text_eq, text_eq_refl}
use worldsimulator.Prelude.Results.{
  ok, err, conflict, schema_invalid, >>=-eq-ok, throw_if-eq-ok, ok-injective,
}
use worldsimulator.Events.{EventEnvelope, validate_event_envelope, is_envelope, with_payload}
use worldsimulator.Events.Log.{
  InMemoryEventLog, has, origin, or_else, comes_from, check_batch, append_batch,
}
use worldsimulator.Ids.Distinctness.{Distinct}
use mathlib.Core.List.{append-nil, append_assoc, map-append}

-- What validation leaves as it is.
abbrev pub Keeps : {P : Type 0} → EventEnvelope P → EventEnvelope P → Type 0
Keeps e v =
    (v.event_id ≡ e.event_id)
    × (v.seq ≡ e.seq)
    × (v.simulation_id ≡ e.simulation_id)
    × (v.run_id ≡ e.run_id)

with_payload-Keeps :
    {P : Type 0} (e : EventEnvelope P) (p : Option P) {v : EventEnvelope P}
    → with_payload e p ≡ ok v
    → Keeps e v
with_payload-Keeps e none h = absurd (ground arith)
with_payload-Keeps e (some p) h = rw (← ok-injective h) (refl, refl, refl, refl)

branches-Keeps :
    {P : Type 0} (known valid : Bool) (e : EventEnvelope P) (p : Option P) {v : EventEnvelope P}
    → (if known then ok e else if valid then with_payload e p else err schema_invalid) ≡ ok v
    → Keeps e v
branches-Keeps true valid e p h = rw (← ok-injective h) (refl, refl, refl, refl)
branches-Keeps false true e p h = with_payload-Keeps e p h
branches-Keeps false false e p h = absurd (ground arith)

validate-Keeps :
    {P : Type 0} (canonical : P → Option P) (e : EventEnvelope P) {v : EventEnvelope P}
    → validate_event_envelope canonical e ≡ ok v
    → Keeps e v
unfolding validate_event_envelope
validate-Keeps canonical e h = branches-Keeps e.validated (is_envelope e) e (canonical e.payload) h

-- Numbered one after the other, from `n`.
abbrev pub Numbered : {P : Type 0} → ℕ → List (EventEnvelope P) → Type 0
Numbered n [] = Unit
Numbered n (e ∷ es) = (e.seq ≡ pos n) × Numbered (suc n) es

abbrev pub ids_of : {P : Type 0} → List (EventEnvelope P) → List Text
ids_of es = map (λ e. e.event_id) es

abbrev pub IsFrom : {P : Type 0} → Option (Text × Text) → EventEnvelope P → Type 0
IsFrom from e = comes_from from e.simulation_id e.run_id ≡ true

-- The set of ids is that of the events, which are numbered from 0 without a gap, have ids of their
-- own, and are of one simulation and run.
pub record IsLog {P : Type 0} (log : InMemoryEventLog P) : Type 0 where
  pub indexed : log.event_ids ≡ ids_of log.events
  pub numbered : Numbered 0 log.events
  pub distinct : Distinct (ids_of log.events)
  pub one_run : All (IsFrom (origin log.events)) log.events

-- What the loop has checked when it stored an event.
abbrev pub Accepts :
    {P : Type 0}
    → (P → Option P)
    → Option (Text × Text)
    → ℕ
    → List Text
    → EventEnvelope P
    → List (EventEnvelope P)
    → List (EventEnvelope P)
    → Type 0
Accepts {P = P} canonical from n ids e es stored =
    (v : EventEnvelope P) × (rest : List (EventEnvelope P)) × (stored ≡ v ∷ rest)
    × Keeps e v
    × (e.seq ≡ pos n)
    × IsFrom from e
    × (has ids e.event_id ≡ false)
    × (check_batch canonical from (n + 1) (ids ++ (e.event_id ∷ [])) es ≡ ok rest)

not-true : (b : Bool) → not b ≡ false → b ≡ true
not-true b h = ground arith

eqb→≡ : (z : ℤ) (n : ℕ) → eqb_ℤ z (pos n) ≡ true → z ≡ pos n
eqb→≡ z n h = ground arith

pub check_batch-Accepts :
    {P : Type 0} (canonical : P → Option P) (from : Option (Text × Text)) (n : ℕ) (ids : List Text)
    (e : EventEnvelope P) (es : List (EventEnvelope P)) {stored : List (EventEnvelope P)}
    → check_batch canonical from n ids (e ∷ es) ≡ ok stored
    → Accepts canonical from n ids e es stored
unfolding check_batch
check_batch-Accepts canonical from n ids e es h =
    let (v, valid, h1) = >>=-eq-ok (validate_event_envelope canonical e) _ h in
    let (number, h2) = throw_if-eq-ok (not (eqb_ℤ e.seq (pos n))) conflict _ h1 in
    let (run, h3) = throw_if-eq-ok (not (comes_from from e.simulation_id e.run_id)) conflict _ h2 in
    let (fresh, h4) = throw_if-eq-ok (has ids e.event_id) conflict _ h3 in
    let (rest, more, done) =
      >>=-eq-ok (check_batch canonical from (n + 1) (ids ++ (e.event_id ∷ [])) es) _ h4 in
    (
      v,
      rest,
      sym (ok-injective done),
      validate-Keeps canonical e valid,
      eqb→≡ e.seq n (not-true (eqb_ℤ e.seq (pos n)) number),
      not-true (comes_from from e.simulation_id e.run_id) run,
      fresh,
      more,
    )

pub check_batch-nil :
    {P : Type 0} (canonical : P → Option P) (from : Option (Text × Text)) (n : ℕ) (ids : List Text)
    {stored : List (EventEnvelope P)}
    → check_batch canonical from n ids [] ≡ ok stored
    → [] ≡ stored
unfolding check_batch
check_batch-nil canonical from n ids h = ok-injective h

check_batch-Numbered :
    {P : Type 0} (canonical : P → Option P) (from : Option (Text × Text)) (n : ℕ) (ids : List Text)
    (es : List (EventEnvelope P)) {stored : List (EventEnvelope P)}
    → check_batch canonical from n ids es ≡ ok stored
    → Numbered n stored × All (IsFrom from) stored
check_batch-Numbered canonical from n ids [] h =
    rw (← check_batch-nil canonical from n ids h) (tt, tt)
check_batch-Numbered canonical from n ids (e ∷ es) h =
    let (v, rest, is, keeps, number, run, fresh, more) =
      check_batch-Accepts canonical from n ids e es h in
    let later = check_batch-Numbered canonical from (n + 1) (ids ++ (e.event_id ∷ [])) es more in
    let step : n + 1 ≡ suc n = omega arith in
    rw is (
      (keeps.1 ∙ number, subst (λ k. Numbered k rest) step later.0),
      (rw (keeps.2, keeps.3) run, later.1),
    )

Numbered-append :
    {P : Type 0} (n : ℕ) (xs ys : List (EventEnvelope P))
    → Numbered n xs
    → Numbered (n + length xs) ys
    → Numbered n (xs ++ ys)
Numbered-append n [] ys h k = subst (λ m. Numbered m ys) (omega arith) k
Numbered-append n (x ∷ xs) ys h k =
    (h.0, Numbered-append (suc n) xs ys h.1 (subst (λ m. Numbered m ys) (omega arith) k))

or_false : (a b : Bool) → (a || b) ≡ false → (a ≡ false) × (b ≡ false)
or_false a b h = ground arith

no_true : true ≡ false → ⊥
no_true e = cc

differ : (s t : Text) → text_eq s t ≡ false → s ≡ t → ⊥
differ s t h e = absurd (no_true (sym (text_eq_refl t) ∙ ap (λ u. text_eq u t) (sym e) ∙ h))

has-differs : (ids : List Text) (id : Text) → has ids id ≡ false → All (λ known. known ≢ id) ids
has-differs [] id h = tt
has-differs (known ∷ ids) id h = (
  (λ e. absurd (differ known id (or_false (text_eq known id) (has ids id) h).0 e)),
  has-differs ids id (or_false (text_eq known id) (has ids id) h).1,
)

All-snoc {ℓ κ} :
    {A : Type ℓ} (P : A → Type κ) (xs : List A) (a : A) → All P xs → P a → All P (xs ++ (a ∷ []))
All-snoc P [] a h p = (p, tt)
All-snoc P (x ∷ xs) a h p = (h.0, All-snoc P xs a h.1 p)

Distinct-snoc :
    (ids : List Text) (id : Text)
    → Distinct ids
    → All (λ known. known ≢ id) ids
    → Distinct (ids ++ (id ∷ []))
Distinct-snoc [] id h k = (tt, tt)
Distinct-snoc (known ∷ ids) id h k =
    (All-snoc (λ t. known ≢ t) ids id h.0 k.0, Distinct-snoc ids id h.1 k.1)

check_batch-Distinct :
    {P : Type 0} (canonical : P → Option P) (from : Option (Text × Text)) (n : ℕ) (ids : List Text)
    (es : List (EventEnvelope P)) {stored : List (EventEnvelope P)}
    → check_batch canonical from n ids es ≡ ok stored
    → Distinct ids
    → Distinct (ids ++ ids_of stored)
check_batch-Distinct canonical from n ids [] h d =
    rw (← check_batch-nil canonical from n ids h) (subst Distinct (sym (append-nil ids)) d)
check_batch-Distinct canonical from n ids (e ∷ es) h d =
    let (v, rest, is, keeps, number, run, fresh, more) =
      check_batch-Accepts canonical from n ids e es h in
    let longer = Distinct-snoc ids e.event_id d (has-differs ids e.event_id fresh) in
    let all =
      check_batch-Distinct canonical from (n + 1) (ids ++ (e.event_id ∷ [])) es more longer in
    rw (is, keeps.0) (subst Distinct (append_assoc ids (e.event_id ∷ []) (ids_of rest)) all)

-- A batch is of the run of the log that it makes.
pub same_origin :
    {P : Type 0} (canonical : P → Option P) (events batch : List (EventEnvelope P)) (n : ℕ)
    (ids : List Text) {stored : List (EventEnvelope P)}
    → check_batch canonical (or_else (origin events) (origin batch)) n ids batch ≡ ok stored
    → or_else (origin events) (origin batch) ≡ origin (events ++ stored)
same_origin canonical (e ∷ es) batch n ids h = refl
same_origin canonical [] [] n ids h = rw (← check_batch-nil canonical none n ids h) refl
same_origin canonical [] (b ∷ bs) n ids h =
    let (v, rest, is, keeps, number, run, fresh, more) =
      check_batch-Accepts canonical (some (b.simulation_id, b.run_id)) n ids b bs h in
    rw (is, keeps.2, keeps.3) refl

still-IsFrom :
    {P : Type 0} (events : List (EventEnvelope P)) (other : Option (Text × Text))
    → All (IsFrom (origin events)) events
    → All (IsFrom (or_else (origin events) other)) events
still-IsFrom [] other h = tt
still-IsFrom (e ∷ es) other h = h

-- Whatever a log accepts, its events stay numbered from 0 without a gap, with ids that differ from
-- each other, and of one simulation and run.
pub append_batch-IsLog :
    {P : Type 0} (canonical : P → Option P) (log : InMemoryEventLog P)
    (batch : List (EventEnvelope P)) {after : InMemoryEventLog P}
    → IsLog log
    → append_batch canonical log batch ≡ ok after
    → IsLog after
unfolding append_batch
append_batch-IsLog canonical log batch well h =
    let from = or_else (origin log.events) (origin batch) in
    let (stored, checked, done) =
      >>=-eq-ok (check_batch canonical from (length log.events) log.event_ids batch) _ h in
    let parts =
      check_batch-Numbered canonical from (length log.events) log.event_ids batch checked in
    let distinct =
      check_batch-Distinct canonical from (length log.events) log.event_ids batch checked
        (subst Distinct (sym well.indexed) well.distinct) in
    let run =
      All-append (IsFrom from) log.events stored
        (still-IsFrom log.events (origin batch) well.one_run) parts.1 in
    let same = same_origin canonical log.events batch (length log.events) log.event_ids checked in
    rw (← ok-injective done) (record {
      indexed = rw well.indexed (sym (map-append (λ e. e.event_id) log.events stored));
      numbered =
          Numbered-append 0 log.events stored well.numbered
            (subst (λ m. Numbered m stored) (omega arith) parts.0);
      distinct = rw (map-append (λ e. e.event_id) log.events stored) (rw well.indexed at distinct);
      one_run = subst (λ o. All (IsFrom o) (log.events ++ stored)) same run;
    })
