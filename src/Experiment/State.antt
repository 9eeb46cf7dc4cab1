-- ===== src/Experiment/State.antt =====
-- `ExperimentState` of src/blink_dashboard/experiment.py, its string values, and the state sets.
use blink_battery_benchmark.Common.{Bool, true, false}
use blink_battery_benchmark.Text.{Text, codes}

pub data ExperimentState : Type 0 where
  not_started running_snapshot running_stream recovery : ExperimentState
  completed stopped_low_battery stopped_manual stopped_error : ExperimentState

-- `.value` of the string enumeration
unfoldable pub value : ExperimentState → Text
value not_started = codes "not_started"
value running_snapshot = codes "running_snapshot"
value running_stream = codes "running_stream"
value recovery = codes "recovery"
value completed = codes "completed"
value stopped_low_battery = codes "stopped_low_battery"
value stopped_manual = codes "stopped_manual"
value stopped_error = codes "stopped_error"

-- `ACTIVE_STATES`
abbrev pub is_active : ExperimentState → Bool
is_active running_snapshot = true
is_active running_stream = true
is_active _ = false

-- the two states whose recovery timer runs
abbrev pub is_recovering : ExperimentState → Bool
is_recovering recovery = true
is_recovering stopped_low_battery = true
is_recovering _ = false

-- `RESUMABLE_STATES`
abbrev pub is_resumable : ExperimentState → Bool
is_resumable running_snapshot = true
is_resumable running_stream = true
is_resumable recovery = true
is_resumable stopped_low_battery = true
is_resumable _ = false

abbrev pub is_stream : ExperimentState → Bool
is_stream running_stream = true
is_stream _ = false

abbrev pub is_low : ExperimentState → Bool
is_low stopped_low_battery = true
is_low _ = false
