-- ===== src/RunLifecycle.antt =====
-- packages/engine/src/run-lifecycle.ts: the status of a run and the commands that change it.
pub mod Histories
use worldsimulator.Prelude.{Bool, true, false, if◌then◌else◌, Option, none, some}
use worldsimulator.Prelude.Results.{Result, ok, err, conflict}

pub data RunStatus : Type 0 where
  created running paused completed failed stopped : RunStatus

pub data RunCommand : Type 0 where
  start pause resume stop complete fail : RunCommand

-- `transitions[current]?.[command]`
unfoldable pub transitions : RunStatus → RunCommand → Option RunStatus
transitions created start = some running
transitions running pause = some paused
transitions running stop = some stopped
transitions running complete = some completed
transitions running fail = some failed
transitions paused resume = some running
transitions paused stop = some stopped
transitions paused complete = some completed
transitions _ _ = none

abbrev pub or_conflict : Option RunStatus → Result RunStatus
or_conflict none = err conflict
or_conflict (some next) = ok next

unfoldable pub transition_run_status : RunStatus → RunCommand → Result RunStatus
unfolding transitions
transition_run_status current command = or_conflict (transitions current command)

abbrev pub is_paused : RunStatus → Bool
is_paused paused = true
is_paused _ = false

unfoldable pub assert_can_advance : RunStatus → Result (Unit {0})
assert_can_advance status = if is_paused status then ok tt else err conflict

unfoldable pub is_terminal_run_status : RunStatus → Bool
is_terminal_run_status completed = true
is_terminal_run_status failed = true
is_terminal_run_status stopped = true
is_terminal_run_status _ = false
