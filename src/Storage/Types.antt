-- ===== src/Storage/Types.antt =====
-- The rows and arguments of src/blink_dashboard/storage.py. A timestamp is its instant, a number of
-- microseconds since the epoch (what `datetime` resolves); a duration is in microseconds too.
use blink_battery_benchmark.Common.{ℕ, Bool, Option, List}
use blink_battery_benchmark.Text.{Text}
use blink_battery_benchmark.Experiment.State.{ExperimentState}

abbrev pub Time : Type 0
Time = ℕ

-- The strings that the program writes to `stop_reason`; `manual s` is "manual:" and the value of `s`.
pub data StopReason : Type 0 where
  manual : ExperimentState → StopReason
  restarted low_battery error completed_after_low_battery : StopReason

pub record RunRecord : Type 0 where
  pub id : ℕ
  pub state : ExperimentState
  pub current_test_number : ℕ
  pub phase_started_at_utc : Option Time
  pub phase_deadline_at_utc : Option Time
  pub active_elapsed_seconds : Time
  pub stop_reason : Option StopReason
  pub latest_error : Option Text
  pub snapshots_attempted : ℕ
  pub snapshots_succeeded : ℕ
  pub snapshots_failed : ℕ
  pub snapshot_timeouts : ℕ
  pub stream_bytes : ℕ
  pub stream_reconnects : ℕ
  pub stream_outage_seconds : Time
  pub stream_outage_active : Bool
  pub stream_outage_checkpoint_at_utc : Option Time
  pub created_at_utc : Time
  pub updated_at_utc : Time
  pub completed_at_utc : Option Time

-- A raw value of Blink's, which the program stores and never computes with.
pub data Raw : Type 0 where
  number : ℕ → Raw
  text : Text → Raw

pub record BatteryReading : Type 0 where
  pub observed_at_utc : Time
  pub battery_level_raw : Option Raw
  pub battery_state : Option Text
  pub battery_voltage_raw : Option Raw
  pub battery_voltage_volts : Option Raw
  pub blink_battery_check_time : Option Time
  pub camera_status : Option Text

pub record Measurement : Type 0 where
  pub observed_at_utc : Time
  pub observed_at_local : Time
  pub state : ExperimentState
  pub test_number : Option ℕ
  pub test_name : Option Text
  pub snapshot_interval_seconds : Option Time
  pub battery_level_raw : Option Raw
  pub battery_state : Option Text
  pub battery_voltage_raw : Option Raw
  pub battery_voltage_volts : Option Raw
  pub blink_battery_check_time : Option Time
  pub camera_status : Option Text
  pub snapshots_attempted : ℕ
  pub snapshots_succeeded : ℕ
  pub snapshots_failed : ℕ
  pub snapshot_timeouts : ℕ
  pub stream_bytes : ℕ
  pub stream_reconnects : ℕ
  pub latest_error : Option Text

-- The columns that `update_run` may change, one constructor for each of `_RUN_UPDATE_FIELDS`.
pub data Change : Type 0 where
  set_state : ExperimentState → Change
  set_current_test_number : ℕ → Change
  set_phase_started_at_utc set_phase_deadline_at_utc : Option Time → Change
  set_active_elapsed_seconds : Time → Change
  set_stop_reason : Option StopReason → Change
  set_latest_error : Option Text → Change
  set_snapshots_attempted set_snapshots_succeeded set_snapshots_failed : ℕ → Change
  set_snapshot_timeouts set_stream_bytes set_stream_reconnects : ℕ → Change
  set_stream_outage_seconds : Time → Change
  set_stream_outage_active : Bool → Change
  set_stream_outage_checkpoint_at_utc set_completed_at_utc : Option Time → Change

pub record PhaseRow : Type 0 where
  pub id : ℕ
  pub run_id : ℕ
  pub test_number : Option ℕ
  pub phase_kind : Text
  pub name : Text
  pub started_at_utc : Time
  pub ended_at_utc : Option Time
  pub outcome : Option Text
  pub active_elapsed_at_start : Option Time
  -- the one document that the program stores here is `{"resumed": …}`
  pub details : Option Bool

pub record MeasurementRow : Type 0 where
  pub id : ℕ
  pub run_id : ℕ
  pub measurement : Measurement

pub data Level : Type 0 where
  info warning error : Level

pub record EventRow : Type 0 where
  pub id : ℕ
  pub run_id : Option ℕ
  pub observed_at_utc : Time
  pub level : Level
  pub category : Text
  pub test_number : Option ℕ
  pub message : Text
  pub details : Option Bool

-- The four tables, newest row first, each with the last id that `AUTOINCREMENT` gave out.
pub record Store : Type 0 where
  pub runs : List RunRecord
  pub last_run_id : ℕ
  pub phases : List PhaseRow
  pub last_phase_id : ℕ
  pub measurements : List MeasurementRow
  pub last_measurement_id : ℕ
  pub events : List EventRow
  pub last_event_id : ℕ
