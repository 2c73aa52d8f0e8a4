-- ===== src/Events.antt =====
-- packages/shared/src/envelope.ts and packages/engine/src/event-log.ts: event envelopes and their
-- validation.
pub mod Log
pub mod Gapless
pub mod Again
pub mod Batches
pub mod Bus
pub mod Delivery
use worldsimulator.Prelude.{
  ℕ, Bool, true, false, ◌&&◌, ◌||◌, List, [], ◌∷◌, Option, none, some, ltb, leb, ◌==◌, length,
  every, if◌then◌else◌,
}
use worldsimulator.Prelude.Int.{ℤ, pos, negsuc}
use worldsimulator.Prelude.Decimal.{Text}
use worldsimulator.Prelude.Texts.{codes, is_id}
use worldsimulator.Prelude.Results.{Result, ok, err, schema_invalid, max_safe}
use worldsimulator.Ledger.Types.{ActorRef}

-- An envelope over the payloads `P`. The field `validated` says whether the object is a member of
-- the weak set `validatedEvents`.
pub record EventEnvelope (P : Type 0) : Type 0 where
  pub event_id : Text
  pub type : Text
  pub schema_version : ℤ
  pub simulation_id : Text
  pub run_id : Text
  pub seq : ℤ
  pub tick : ℤ
  pub sim_date : Text
  pub wall_time : Text
  pub actor : ActorRef
  pub correlation_id : Text
  pub causation_id : Option Text
  pub payload : P
  pub validated : Bool

abbrev nonempty : Text → Bool
nonempty s = ltb 0 (length s)

abbrev optional_nonempty : Option Text → Bool
optional_nonempty none = true
optional_nonempty (some s) = nonempty s

-- `z.number().int().min(minimum)`, which holds an integer to the safe ones
abbrev is_int_from : ℕ → ℤ → Bool
is_int_from minimum (pos n) = leb minimum n && leb n max_safe
is_int_from minimum (negsuc n) = false

abbrev is_lower : ℕ → Bool
is_lower c = leb b'a' c && leb c b'z'

abbrev is_digit : ℕ → Bool
is_digit c = leb b'0' c && leb c b'9'

-- `TYPE_NAME_PATTERN` on what is left of a name, at the start of a segment or inside one
unfoldable pub is_type_rest : (at_start : Bool) → Text → Bool
is_type_rest true [] = false
is_type_rest false [] = true
is_type_rest true (c ∷ s) = is_lower c && is_type_rest false s
is_type_rest false (c ∷ s) =
    let next = is_type_rest true s in
    let same = is_type_rest false s in
    if c == b'.' then next else (is_lower c || is_digit c || c == b'_') && same

unfoldable pub is_type_name : Text → Bool
unfolding is_type_rest
is_type_name s = is_type_rest true s

-- `M(0[1-9]|1[0-2])`
abbrev is_month : ℕ → ℕ → Bool
is_month a b = (a == b'0' && leb b'1' b && leb b b'9') || (a == b'1' && leb b'0' b && leb b b'2')

-- `D(0[1-9]|[12]\d|30)`
abbrev is_day : ℕ → ℕ → Bool
is_day a b =
    (a == b'0' && leb b'1' b && leb b b'9')
    || ((a == b'1' || a == b'2') && is_digit b)
    || (a == b'3' && b == b'0')

-- `SIM_DATE_PATTERN`
unfoldable pub is_sim_date : Text → Bool
is_sim_date (y ∷ a ∷ b ∷ c ∷ d ∷ dash ∷ m ∷ e ∷ f ∷ dash' ∷ day ∷ g ∷ h ∷ []) =
    y == b'Y'
    && every is_digit (a ∷ b ∷ c ∷ d ∷ [])
    && dash == b'-'
    && m == b'M'
    && is_month e f
    && dash' == b'-'
    && day == b'D'
    && is_day g h
is_sim_date _ = false

-- `eventEnvelopeSchema.safeParse(event).success`
unfoldable pub is_envelope : {P : Type 0} → EventEnvelope P → Bool
is_envelope e =
    is_id (codes "evt_") e.event_id
    && is_type_name e.type
    && is_int_from 1 e.schema_version
    && nonempty e.simulation_id
    && nonempty e.run_id
    && is_int_from 0 e.seq
    && is_int_from 0 e.tick
    && is_sim_date e.sim_date
    && nonempty e.wall_time
    && nonempty e.actor.id
    && nonempty e.correlation_id
    && optional_nonempty e.causation_id

-- The copy of the event that `canonicalParse(canonicalStringify(event))` makes: its payload is what
-- `canonical` returns, and there is none if that throws or the payload is undefined.
abbrev pub with_payload : {P : Type 0} → EventEnvelope P → Option P → Result (EventEnvelope P)
with_payload e none = err schema_invalid
with_payload e (some p) = ok (record e { payload = p; validated = true })

-- `validateEventEnvelope(event)`
unfoldable pub validate_event_envelope :
    {P : Type 0} → (canonical : P → Option P) → EventEnvelope P → Result (EventEnvelope P)
validate_event_envelope canonical e =
    if e.validated
    then ok e
    else if is_envelope e
    then with_payload e (canonical e.payload)
    else err schema_invalid
