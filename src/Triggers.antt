-- ===== src/Triggers.antt =====
-- packages/engine/src/trigger-evaluator.ts: from the signals of a tick to the agents that it wakes.
pub mod Groups
pub mod Conservation
use worldsimulator.Prelude.{
  ℕ, ◌+◌, Bool, true, false, not, ◌&&◌, ◌||◌, List, [], ◌∷◌, ◌++◌, map, Option, none, some, ltb,
  leb, ◌==◌, length, every, if◌then◌else◌,
}
use worldsimulator.Prelude.Int.{ℤ, pos, negsuc, ltb_ℤ, leb_ℤ, eqb_ℤ}
use worldsimulator.Prelude.Decimal.{Text, is_integer_text}
use worldsimulator.Prelude.Texts.{codes, is_id, text_eq, text_before}
use worldsimulator.Prelude.Sort.{sort}
use worldsimulator.Prelude.Results.{
  Result, ok, err, validation_failed, max_safe, ◌>>=◌, ◌>>◌, throw_if, assert_safe_integer, bounded,
}

pub data TriggerPayload : Type 0 where
  schedule : (task_ref : Text) → (due_tick : ℤ) → TriggerPayload
  message : (message_id : Text) → (conversation_id : Option Text) → TriggerPayload
  stress : (balance_cents : Text) → (buffer_days : ℤ) → TriggerPayload
  news : (story_id : Text) → (relevance_score : ℤ) → TriggerPayload
  goal : (goal_id goal_kind : Text) → TriggerPayload
  policy : (policy_id change_kind : Text) → TriggerPayload
  company : (company_id event_kind : Text) → TriggerPayload
  market : (market_id : Text) → (security_id : Option Text) → (movement_bp : ℤ) → TriggerPayload

pub record TriggerSignal : Type 0 where
  pub agent_id : Text
  pub source_event_id : Text
  pub tick : ℤ
  pub priority : ℤ
  pub payload : TriggerPayload

-- An unknown value: of the shape of a signal, or not, and then known by its fingerprint only.
pub data TriggerInput : Type 0 where
  shaped : TriggerSignal → TriggerInput
  unshaped : Text → TriggerInput

-- `TRIGGER_ORDER.get(kind)`
abbrev pub kind_order : TriggerPayload → ℕ
kind_order (schedule _ _) = 0
kind_order (message _ _) = 1
kind_order (stress _ _) = 2
kind_order (news _ _) = 3
kind_order (goal _ _) = 4
kind_order (policy _ _) = 5
kind_order (company _ _) = 6
kind_order (market _ _ _) = 7

abbrev is_tick : ℤ → Bool
is_tick (pos n) = leb n max_safe
is_tick (negsuc _) = false

abbrev is_between : (minimum maximum : ℤ) → ℤ → Bool
is_between minimum maximum z = leb_ℤ minimum z && leb_ℤ z maximum

abbrev is_label : ℕ → Text → Bool
is_label maximum s = leb 1 (length s) && leb (length s) maximum

abbrev is_optional_label : Option Text → Bool
is_optional_label none = true
is_optional_label (some s) = is_label 80 s

abbrev is_lower : ℕ → Bool
is_lower c = leb b'a' c && leb c b'z'

abbrev is_kind_char : ℕ → Bool
is_kind_char c = is_lower c || (leb b'0' c && leb c b'9') || c == b'_'

-- `/^[a-z][a-z0-9_]*$/`
abbrev is_kind : Text → Bool
is_kind [] = false
is_kind (c ∷ s) = is_lower c && every is_kind_char s

unfoldable pub is_payload : TriggerPayload → Bool
is_payload (schedule task_ref due_tick) = is_label 160 task_ref && is_tick due_tick
is_payload (message id conversation) = is_label 80 id && is_optional_label conversation
is_payload (stress balance days) = is_integer_text balance && is_between (pos 0) (pos 365) days
is_payload (news story relevance) = is_label 80 story && is_between (pos 0) (pos 100) relevance
is_payload (goal id kind) = is_label 80 id && is_kind kind
is_payload (policy id kind) = is_label 80 id && is_kind kind
is_payload (company id kind) = is_label 80 id && is_kind kind
is_payload (market id security movement) =
    is_label 80 id && is_optional_label security && is_between (negsuc 9999) (pos 10000) movement

-- `triggerSignalSchema.safeParse(signal).success`
unfoldable pub is_signal : TriggerSignal → Bool
is_signal s =
    is_id (codes "agt_") s.agent_id
    && is_id (codes "evt_") s.source_event_id
    && is_tick s.tick
    && is_between (pos 0) (pos 100) s.priority
    && is_payload s.payload

pub data DropReason : Type 0 where
  invalid unknown_agent not_due stale duplicate per_agent_cap : DropReason

abbrev pub reason_text : DropReason → Text
reason_text invalid = codes "invalid"
reason_text unknown_agent = codes "unknown_agent"
reason_text not_due = codes "not_due"
reason_text stale = codes "stale"
reason_text duplicate = codes "duplicate"
reason_text per_agent_cap = codes "per_agent_cap"

pub record TriggerDrop : Type 0 where
  pub reason : DropReason
  pub signal : TriggerInput

pub record WakeSetEntry : Type 0 where
  pub agent_id : Text
  pub triggers : List TriggerSignal

pub record WakeSet : Type 0 where
  pub tick : ℕ
  pub entries : List WakeSetEntry
  pub dropped : List TriggerDrop
  pub input_count : ℕ

abbrev inactive_by : TriggerPayload → (signal_tick tick : ℤ) → Option DropReason
inactive_by (schedule _ due_tick) signal_tick tick =
    if ltb_ℤ tick signal_tick || ltb_ℤ tick due_tick then some not_due else none
inactive_by _ signal_tick tick =
    if ltb_ℤ signal_tick tick
    then some stale
    else if ltb_ℤ tick signal_tick
    then some not_due
    else none

unfoldable pub active_at_tick : TriggerSignal → ℤ → Option DropReason
active_at_tick s tick = inactive_by s.payload s.tick tick

abbrev pub has_agent : List Text → Text → Bool
has_agent [] id = false
has_agent (known ∷ ids) id = text_eq known id || has_agent ids id

-- `knownAgentIds !== undefined && !knownAgentIds.has(id)`
abbrev is_unknown : Option (List Text) → Text → Bool
is_unknown none id = false
is_unknown (some ids) id = not (has_agent ids id)

-- Why the first loop drops an input, if it does.
unfoldable pub rejection : ℤ → Option (List Text) → TriggerSignal → Option DropReason
unfolding is_signal active_at_tick
rejection tick known s =
    if not (is_signal s)
    then some invalid
    else if is_unknown known s.agent_id
    then some unknown_agent
    else active_at_tick s tick

-- What a loop has kept, and what it has dropped, both in order.
pub record Sifted (A : Type 0) : Type 0 where
  pub kept : A
  pub dropped : List TriggerDrop

abbrev pub keep_or_drop :
    Option DropReason → TriggerSignal → Sifted (List TriggerSignal) → Sifted (List TriggerSignal)
keep_or_drop none s rest = record rest { kept = s ∷ rest.kept }
keep_or_drop (some reason) s rest = record rest {
  dropped = record { reason = reason; signal = shaped s } ∷ rest.dropped;
}

unfoldable pub sift : ℤ → Option (List Text) → List TriggerInput → Sifted (List TriggerSignal)
sift tick known [] = record { kept = []; dropped = [] }
sift tick known (unshaped text ∷ inputs) =
    let rest = sift tick known inputs in
    record rest { dropped = record { reason = invalid; signal = unshaped text } ∷ rest.dropped }
sift tick known (shaped s ∷ inputs) =
    keep_or_drop (rejection tick known s) s (sift tick known inputs)

-- `triggerIdentity(left) === triggerIdentity(right)`: neither an agent id nor a kind has a bar.
unfoldable pub same_trigger : TriggerSignal → TriggerSignal → Bool
same_trigger a b =
    text_eq a.agent_id b.agent_id
    && kind_order a.payload == kind_order b.payload
    && text_eq a.source_event_id b.source_event_id

abbrev pub is_repeated : List TriggerSignal → TriggerSignal → Bool
is_repeated [] s = false
is_repeated (seen ∷ more) s = same_trigger seen s || is_repeated more s

-- The second loop: `identities` is the signals that it has kept.
unfoldable pub deduplicate :
    (identities : List TriggerSignal) → List TriggerSignal → Sifted (List TriggerSignal)
deduplicate identities [] = record { kept = []; dropped = [] }
deduplicate identities (s ∷ signals) =
    let seen = is_repeated identities s in
    keep_or_drop (if seen then some duplicate else none) s
      (deduplicate (if seen then identities else s ∷ identities) signals)

abbrev pub behind : WakeSetEntry → Option (List WakeSetEntry) → Option (List WakeSetEntry)
behind entry none = none
behind entry (some entries) = some (entry ∷ entries)

-- `byAgent`, and a signal added to the group of its agent, unless that is full.
unfoldable pub add_trigger :
    (limit : ℕ) → List WakeSetEntry → TriggerSignal → Option (List WakeSetEntry)
add_trigger limit [] s = some (record { agent_id = s.agent_id; triggers = s ∷ [] } ∷ [])
add_trigger limit (entry ∷ entries) s =
    let later = add_trigger limit entries s in
    if text_eq entry.agent_id s.agent_id
    then if leb limit (length entry.triggers)
      then none
      else some (record entry { triggers = entry.triggers ++ (s ∷ []) } ∷ entries)
    else behind entry later

abbrev pub group_or_drop :
    TriggerSignal
    → Option (List WakeSetEntry)
    → (entries : List WakeSetEntry) → (List WakeSetEntry → Sifted (List WakeSetEntry))
    → Sifted (List WakeSetEntry)
group_or_drop s none entries rest =
    let after = rest entries in
    record after { dropped = record { reason = per_agent_cap; signal = shaped s } ∷ after.dropped }
group_or_drop s (some grown) entries rest = rest grown

-- The third loop.
unfoldable pub group_by_agent :
    (limit : ℕ) → List TriggerSignal → List WakeSetEntry → Sifted (List WakeSetEntry)
group_by_agent limit [] entries = record { kept = entries; dropped = [] }
group_by_agent limit (s ∷ signals) entries =
    group_or_drop s (add_trigger limit entries s) entries (group_by_agent limit signals)

-- `new TriggerEvaluator({ maxTriggersPerAgentPerTick })`
unfoldable pub max_triggers : Option ℤ → Result ℕ
max_triggers none = ok 3
max_triggers (some most) = bounded most 1 32

-- `canonical` is the canonical text of a signal, and `fingerprint` that of an input.
module _ (canonical : TriggerSignal → Text) (fingerprint : TriggerInput → Text) where
  unfoldable pub signal_before : TriggerSignal → TriggerSignal → Bool
  signal_before a b =
      if eqb_ℤ a.priority b.priority
      then if kind_order a.payload == kind_order b.payload
        then if text_eq a.source_event_id b.source_event_id
          then text_before (canonical a) (canonical b)
          else text_before a.source_event_id b.source_event_id
        else ltb (kind_order a.payload) (kind_order b.payload)
      else ltb_ℤ b.priority a.priority

  unfoldable pub candidate_before : TriggerSignal → TriggerSignal → Bool
  candidate_before a b =
      if text_eq a.agent_id b.agent_id then signal_before a b else text_before a.agent_id b.agent_id

  unfoldable pub drop_before : TriggerDrop → TriggerDrop → Bool
  drop_before a b =
      if text_eq (reason_text a.reason) (reason_text b.reason)
      then text_before (fingerprint a.signal) (fingerprint b.signal)
      else text_before (reason_text a.reason) (reason_text b.reason)

  abbrev pub entry_before : WakeSetEntry → WakeSetEntry → Bool
  entry_before a b = text_before a.agent_id b.agent_id

  abbrev pub sort_triggers : WakeSetEntry → WakeSetEntry
  sort_triggers entry = record entry { triggers = sort signal_before entry.triggers }

  -- The hash of the result is left out.
  unfoldable pub evaluate_triggers :
      (limit : ℕ) → (tick : ℤ) → List TriggerInput → Option (List Text) → Result WakeSet
  evaluate_triggers limit tick signals known = do
    now ← assert_safe_integer tick 0
    let sifted = sift (pos now) known signals
    let unique = deduplicate [] (sort candidate_before sifted.kept)
    let grouped = group_by_agent limit unique.kept []
    ok (record {
      tick = now;
      entries = map sort_triggers (sort entry_before grouped.kept);
      dropped = sort drop_before (sifted.dropped ++ unique.dropped ++ grouped.dropped);
      input_count = length signals;
    })
