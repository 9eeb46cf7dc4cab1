-- ===== src/Examples/Runs.antt =====
-- Concrete configurations, stages and worlds.
use blink_battery_benchmark.Common.{refl, false, none, some, [], ◌∷◌}
use blink_battery_benchmark.Text.{codes}
use blink_battery_benchmark.Storage.Types.{Time, RunRecord, Store, low_battery}
use blink_battery_benchmark.Storage.Runs.{new_run, find_run}
use blink_battery_benchmark.Storage.Phases.{new_phase}
use blink_battery_benchmark.Storage.Phases.Laws.{holds_open}
use blink_battery_benchmark.Config.Types.{ExperimentTestConfig, ExperimentConfig, snapshot, stream}
use blink_battery_benchmark.Experiment.State.{
  not_started, running_snapshot, running_stream, stopped_low_battery,
}
use blink_battery_benchmark.Experiment.World.{Instant, World}
use blink_battery_benchmark.Experiment.Invariant.{IsStandard, IsValid}

abbrev pub snapshots : Time → ExperimentTestConfig
snapshots i = record {
  name = codes "Snapshots";
  kind = snapshot;
  snapshot_interval_seconds = some i;
}

abbrev pub live : ExperimentTestConfig
live = record { name = codes "Stream"; kind = stream; snapshot_interval_seconds = none }

abbrev pub config : ExperimentConfig
config = record {
  test_duration_seconds = 43200;
  recovery_duration_seconds = 43200;
  battery_poll_seconds = 300;
  measurement_interval_seconds = 300;
  stream_checkpoint_seconds = 5;
  stream_data_timeout_seconds = 20;
  fatal_outage_seconds = 3600;
  development_mode = false;
  tests = snapshots 300 ∷ snapshots 60 ∷ snapshots 30 ∷ live ∷ [];
}

pub standard : IsStandard config
standard = record {
  first = snapshots 300;
  second = snapshots 60;
  third = snapshots 30;
  last = live;
  all = refl;
  snapshots = (refl, refl, refl);
  streams = refl;
}

abbrev pub now : Instant
now = record { utc = 100000; mono = 700 }

abbrev pub resume_time : Instant
resume_time = record { utc = 200000; mono = 900 }

-- a run with an open phase, and the store that holds both
abbrev pub store_of : RunRecord → Store
store_of r = record {
  runs = r ∷ [];
  last_run_id = 1;
  phases =
      new_phase 1 (record {
        run_id = 1;
        phase_kind = codes "active";
        name = codes "Test 1";
        started_at_utc = 90000;
        test_number = some 1;
        active_elapsed_at_start = some 0;
        details = some false;
      })
      ∷ [];
  last_phase_id = 1;
  measurements = [];
  last_measurement_id = 0;
  events = [];
  last_event_id = 0;
}

abbrev pub world_of : RunRecord → World
world_of r = record {
  store = store_of r;
  run = r;
  runner_task = some (record { generation = 0; done = false });
  generation = 0;
  active_anchor = some 600;
  phase_id = some 1;
  last_battery = none;
  last_measurement_at = none;
  outage_started = some 100;
  stream_outage_started = none;
  last_stream_bytes_at = some 695;
  pending_stream_valid_seconds = 40;
  pending_stream_errors = [];
  stream_stop_event = none;
  pending_stream_bytes = 4096;
  pending_stream_reconnects = 1;
  stopped_streams = [];
}

abbrev pub active_world : World
active_world =
    world_of (record (new_run 1 running_snapshot 90000) { active_elapsed_seconds = 43150 })

abbrev pub new_world : World
new_world = world_of (new_run 1 not_started 90000)

abbrev pub stream_world : World
stream_world = world_of (record (new_run 1 running_stream 90000) {
  current_test_number = 4;
  active_elapsed_seconds = 50;
})

abbrev pub low_world : World
low_world = world_of (record (new_run 1 stopped_low_battery 90000) {
  current_test_number = 2;
  phase_deadline_at_utc = some 99000;
  stop_reason = some low_battery;
})

pub active_world-IsValid : IsValid active_world
unfolding find_run holds_open
active_world-IsValid = record { synced = refl; row = refl; phase = refl; ids = refl }

pub new_world-IsValid : IsValid new_world
unfolding find_run holds_open
new_world-IsValid = record { synced = refl; row = refl; phase = refl; ids = refl }

pub stream_world-IsValid : IsValid stream_world
unfolding find_run holds_open
stream_world-IsValid = record { synced = refl; row = refl; phase = refl; ids = refl }

pub low_world-IsValid : IsValid low_world
unfolding find_run holds_open
low_world-IsValid = record { synced = refl; row = refl; phase = refl; ids = refl }
