-- ===== src/Experiment/Status.antt =====
-- `get_status` and the constructor of `ExperimentRunner`, in src/blink_dashboard/experiment.py.
pub mod Laws
use blink_battery_benchmark.Common.{
  ℕ, ◌-◌, Bool, true, false, not, ◌&&◌, ◌||◌, Option, none, some, List, [], ◌∷◌, leb, ltb,
  if◌then◌else◌,
}
use blink_battery_benchmark.Text.{Text, codes}
use blink_battery_benchmark.Action.{
  Action, Done, Result, ok, err, pure, raise, gets, lift, when, ◌>>=◌, ◌>>◌, continue, bad_config,
}
use blink_battery_benchmark.Storage.Types.{Time, RunRecord, Store}
use blink_battery_benchmark.Storage.Runs.{latest_run, create_run}
use blink_battery_benchmark.Config.Types.{
  ExperimentConfig, ExperimentTestConfig, Kind, test, test_duration,
}
use blink_battery_benchmark.Experiment.State.{
  ExperimentState, not_started, stopped_manual, is_active, is_recovering,
}
use blink_battery_benchmark.Experiment.World.{Instant, World, M}
use blink_battery_benchmark.Experiment.Battery.{low_states}
use blink_battery_benchmark.Experiment.Outage.{stream_is_receiving, stream_outage_duration}
use blink_battery_benchmark.Experiment.Phases.{elapsed_active}
use blink_battery_benchmark.Experiment.Controls.{is_running}

pub record ExperimentStatus : Type 0 where
  pub run : RunRecord
  pub test_name : Text
  pub test_kind : Kind
  pub active_elapsed_seconds : Time
  pub active_remaining_seconds : Option Time
  pub recovery_remaining_seconds : Option Time
  pub runner_active : Bool
  pub stream_receiving : Bool
  pub stream_outage_seconds : Option Time
  pub stream_fatal_outage_seconds : Time

abbrev pub is_stopped_manual : ExperimentState → Bool
is_stopped_manual stopped_manual = true
is_stopped_manual _ = false

-- `max(0.0, duration - elapsed)` is the truncated difference
abbrev pub remaining : ExperimentState → Time → Time → Option Time
remaining st duration elapsed =
    if is_active st || is_stopped_manual st then some (duration - elapsed) else none

abbrev pub recovery_remaining : ExperimentState → Option Time → Time → Option Time
recovery_remaining st none now = none
recovery_remaining st (some deadline) now = if is_recovering st then some (deadline - now) else none

-- Reading the status may begin an outage, through `_stream_outage_duration`. The run in the status is
-- the one from after that call.
unfoldable pub get_status : ExperimentConfig → Instant → M ExperimentStatus
get_status c t = do
  w ← gets (λ w. w)
  test ← lift (test c w.run.current_test_number)
  duration ← lift (test_duration c w.run.current_test_number)
  outage ← stream_outage_duration c t t.mono
  run ← gets (λ w. w.run)
  pure (record {
    run = run;
    test_name = test.name;
    test_kind = test.kind;
    active_elapsed_seconds = elapsed_active w t.mono;
    active_remaining_seconds = remaining w.run.state duration (elapsed_active w t.mono);
    recovery_remaining_seconds = recovery_remaining w.run.state w.run.phase_deadline_at_utc t.utc;
    runner_active = is_running w.runner_task;
    stream_receiving = stream_is_receiving c w t.mono;
    stream_outage_seconds = outage;
    stream_fatal_outage_seconds = c.fatal_outage_seconds;
  })

abbrev pub first_run : Option RunRecord → Time → Action Store RunRecord
first_run (some r) now = pure r
first_run none now = create_run not_started now

abbrev pub is_empty : List Text → Bool
is_empty [] = true
is_empty (s ∷ ss) = false

abbrev pub world_with : Store → RunRecord → World
world_with s r = record {
  store = s;
  run = r;
  runner_task = none;
  generation = 0;
  active_anchor = none;
  phase_id = none;
  last_battery = none;
  last_measurement_at = none;
  outage_started = none;
  stream_outage_started = none;
  last_stream_bytes_at = none;
  pending_stream_valid_seconds = 0;
  pending_stream_errors = [];
  stream_stop_event = none;
  pending_stream_bytes = 0;
  pending_stream_reconnects = 0;
  stopped_streams = [];
}

abbrev pub run_in : Result RunRecord × Store → Result World
run_in (ok r, s) = ok (world_with s r)
run_in (err e, s) = err e

-- the constructor, on a store, as the world that it leaves
unfoldable pub construct : ExperimentConfig → List Text → Time → Store → Result World
construct c low_battery_states now s =
    if leb c.stream_data_timeout_seconds 0
    then err (bad_config (codes "stream_data_timeout_seconds must be greater than zero"))
    else if ltb c.fatal_outage_seconds c.stream_data_timeout_seconds
    then err (bad_config (codes "stream_data_timeout_seconds cannot exceed fatal_outage_seconds"))
    else if is_empty (low_states low_battery_states)
    then err (bad_config (codes "low_battery_states cannot be empty"))
    else run_in (first_run (latest_run s) now s)
