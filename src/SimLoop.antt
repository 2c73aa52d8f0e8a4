-- ===== src/SimLoop.antt =====
-- packages/engine/src/sim-loop.ts: the calendar, the phases and the tick.
pub mod Calendar
pub mod Tick
pub mod Steps
pub mod Commits
use worldsimulator.Prelude.{ℕ, Bool, true, false, ◌||◌, List, [], ◌∷◌, ◌++◌, ◌==◌, if◌then◌else◌}
use worldsimulator.Prelude.Int.{ℤ, ltb_ℤ, eqb_ℤ}
use worldsimulator.Prelude.Decimal.{Text}
use worldsimulator.Prelude.Texts.{text_before}
use worldsimulator.Prelude.Sort.{sort}

pub data PhaseName : Type 0 where
  obligations perception decisions collect execute clearing settlement news metrics commit :
      PhaseName

abbrev pub phases : List PhaseName
phases =
    obligations ∷ perception ∷ decisions ∷ collect ∷ execute ∷ clearing ∷ settlement ∷ news
    ∷ metrics ∷ commit ∷ []

abbrev pub phase_index : PhaseName → ℕ
phase_index obligations = 0
phase_index perception = 1
phase_index decisions = 2
phase_index collect = 3
phase_index execute = 4
phase_index clearing = 5
phase_index settlement = 6
phase_index news = 7
phase_index metrics = 8
phase_index commit = 9

-- A handler; what it does is a parameter of the tick, by the name `handler`.
pub record PhaseHandler (H : Type 0) : Type 0 where
  pub module_name : Text
  pub order : ℤ
  pub handler : H

-- `a.order - b.order || (a.module < b.module ? -1 : …)` is negative
unfoldable pub handler_before : {H : Type 0} → PhaseHandler H → PhaseHandler H → Bool
handler_before a b =
    if eqb_ℤ a.order b.order then text_before a.module_name b.module_name else ltb_ℤ a.order b.order

-- `this.handlers`: the handlers of a phase, none where the map has no list
abbrev pub Handlers : Type 0 → Type 0
Handlers H = PhaseName → List (PhaseHandler H)

unfoldable pub register_phase : {H : Type 0} → Handlers H → PhaseName → PhaseHandler H → Handlers H
register_phase handlers phase handler name =
    if phase_index name == phase_index phase
    then sort handler_before (handlers phase ++ (handler ∷ []))
    else handlers name
