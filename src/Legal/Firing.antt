-- ===== src/Legal/Firing.antt =====
-- packages/engine/src/legal-contracts.ts: the obligations of a contract.
use worldsimulator.Prelude.{
  Bool, true, false, not, ◌&&◌, ◌||◌, List, [], ◌∷◌, map, Option, none, some, filter, if◌then◌else◌,
}
use worldsimulator.Prelude.Int.{ℤ, ◌+ℤ◌, ltb_ℤ, leb_ℤ, eqb_ℤ}
use worldsimulator.Prelude.Decimal.{Text}
use worldsimulator.Prelude.Texts.{codes, text_eq, text_before}
use worldsimulator.Prelude.Sort.{sort}
use worldsimulator.Prelude.Results.{Result, ok, err, conflict, not_found, ◌>>=◌, ◌>>◌, throw_if}
use worldsimulator.Legal.{
  LegalContractStatus, active, ObligationStatus, pending, fired, done, ParamValue, number_param,
  LegalObligation, LegalContract,
}
use worldsimulator.Legal.Schema.{parse_contract}

abbrev is_active : LegalContractStatus → Bool
is_active active = true
is_active _ = false

abbrev pub is_pending : ObligationStatus → Bool
is_pending pending = true
is_pending _ = false

abbrev pub is_fired : ObligationStatus → Bool
is_fired fired = true
is_fired _ = false

-- `left.dueTick - right.dueTick || (left.id < right.id ? -1 : …)` is negative
unfoldable pub obligation_before : LegalObligation → LegalObligation → Bool
obligation_before a b =
    if eqb_ℤ a.due_tick b.due_tick then text_before a.id b.id else ltb_ℤ a.due_tick b.due_tick

abbrev pub is_due : ℤ → LegalObligation → Bool
is_due tick o = is_pending o.status && leb_ℤ o.due_tick tick

unfoldable pub due_legal_obligations : LegalContract → ℤ → List LegalObligation
due_legal_obligations c tick =
    if is_active c.status then sort obligation_before (filter (is_due tick) c.obligations) else []

-- `params["endTick"]`
unfoldable pub param : List (Text × ParamValue) → Text → Option ParamValue
param [] key = none
param (entry ∷ rest) key =
    let later = param rest key in if text_eq entry.0 key then some entry.1 else later

-- `typeof endTick === "number" && nextDueTick > endTick`
abbrev pub is_past : Option ParamValue → ℤ → Bool
is_past (some (number_param end_tick)) next_due = ltb_ℤ end_tick next_due
is_past _ next_due = false

abbrev pub fire_by : LegalObligation → (recurrence : Option ℤ) → ℤ → LegalObligation
fire_by o none tick = record o { status = fired; fired_tick = some tick }
fire_by o (some recurrence) tick =
    let next_due = o.due_tick +ℤ recurrence in
    if is_past (param o.params (codes "endTick")) next_due
    then record o { status = done; fired_tick = some tick; completed_tick = some tick }
    else record o { due_tick = next_due; fired_tick = some tick }

-- What `fireLegalObligation` does to the obligation of the given id.
unfoldable pub fire_obligation : ℤ → LegalObligation → Result LegalObligation
fire_obligation tick o =
    if not (is_pending o.status) || ltb_ℤ tick o.due_tick
    then err conflict
    else ok (fire_by o o.recurrence_ticks tick)

-- What `completeLegalObligation` does to it.
unfoldable pub complete_obligation : ℤ → LegalObligation → Result LegalObligation
complete_obligation tick o =
    if is_fired o.status
    then ok (record o { status = done; completed_tick = some tick })
    else err conflict

-- `contract.obligations.map(…)`, whose callback changes those of the given id.
unfoldable pub change_all :
    (LegalObligation → Result LegalObligation)
    → Text
    → List LegalObligation
    → Result (List LegalObligation)
change_all change id [] = ok []
change_all change id (o ∷ os) = do
  first ← if text_eq o.id id then change o else ok o
  rest ← change_all change id os
  ok (first ∷ rest)

abbrev pub has_obligation : Text → List LegalObligation → Bool
has_obligation id [] = false
has_obligation id (o ∷ os) = text_eq o.id id || has_obligation id os

unfoldable pub change_obligation :
    (LegalObligation → Result LegalObligation) → LegalContract → Text → Result LegalContract
change_obligation change c id = do
  obligations ← change_all change id c.obligations
  throw_if (not (has_obligation id c.obligations)) not_found
  parse_contract (record c { obligations = obligations })

unfoldable pub fire_legal_obligation : LegalContract → Text → ℤ → Result LegalContract
fire_legal_obligation c id tick = change_obligation (fire_obligation tick) c id

unfoldable pub complete_legal_obligation : LegalContract → Text → ℤ → Result LegalContract
complete_legal_obligation c id tick = change_obligation (complete_obligation tick) c id

abbrev fired_before : Option ℤ → ℤ → Bool
fired_before none tick = false
fired_before (some at') tick = ltb_ℤ at' tick

abbrev is_null : Option ℤ → Bool
is_null none = true
is_null (some _) = false

abbrev pub is_overdue : ℤ → LegalObligation → Bool
is_overdue tick o = is_fired o.status && fired_before o.fired_tick tick && is_null o.completed_tick

unfoldable pub overdue_obligation_ids : LegalContract → ℤ → List Text
overdue_obligation_ids c tick =
    if is_active c.status
    then sort text_before (map (λ o. o.id) (filter (is_overdue tick) c.obligations))
    else []
