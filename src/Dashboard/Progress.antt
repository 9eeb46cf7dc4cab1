-- ===== src/Dashboard/Progress.antt =====
-- `DashboardApplication.status` in src/blink_dashboard/app.py: what the page is told of the experiment.
-- A percentage is the pair of the two durations whose ratio it is.
pub mod Laws
use blink_battery_benchmark.Common.{
  ℕ, ◌+◌, ◌-◌, ◌*◌, Bool, true, false, ◌||◌, Option, none, some, List, leb, min, max, length,
  if◌then◌else◌,
}
use blink_battery_benchmark.Text.{Text, codes, text_eq}
use blink_battery_benchmark.Action.{gets, pure, ◌>>=◌, continue}
use blink_battery_benchmark.Storage.Types.{Time, RunRecord, StopReason, BatteryReading}
use blink_battery_benchmark.Config.Types.{ExperimentConfig, Kind}
use blink_battery_benchmark.Config.Toml.{Number, plus, minus}
use blink_battery_benchmark.Experiment.State.{
  ExperimentState, running_snapshot, running_stream, recovery, stopped_low_battery, stopped_manual,
  completed, is_recovering, is_stream,
}
use blink_battery_benchmark.Experiment.World.{Instant, World, M}
use blink_battery_benchmark.Experiment.Status.{ExperimentStatus, get_status}
use blink_battery_benchmark.Dashboard.Controls.{Offered, offered}
use blink_battery_benchmark.Media.{Consumer, is_fresh}

-- `value or 0`
abbrev pub or_zero : Option Time → Time
or_zero none = 0
or_zero (some t) = t

-- `total_duration`, of `tests` stages with a recovery between any two
unfoldable pub total_duration : ExperimentConfig → Time
total_duration c =
    length c.tests * c.test_duration_seconds + (length c.tests - 1) * c.recovery_duration_seconds

-- the time before a stage
abbrev pub before_stage : ExperimentConfig → ℕ → Time
before_stage c index = index * (c.test_duration_seconds + c.recovery_duration_seconds)

-- `completed_before`, for a stage's index and the two durations of the status. Where the time left
-- exceeds all, the source's value is negative, and `max(0, …)` makes it 0 too.
unfoldable pub completed_before : ExperimentConfig → ExperimentState → ℕ → Time → Option Time → Time
unfolding total_duration
completed_before c running_snapshot index elapsed left = before_stage c index + elapsed
completed_before c running_stream index elapsed left = before_stage c index + elapsed
completed_before c stopped_manual index elapsed left = before_stage c index + elapsed
completed_before c recovery index elapsed left =
    before_stage c index + c.test_duration_seconds + c.recovery_duration_seconds - or_zero left
completed_before c stopped_low_battery index elapsed left =
    before_stage c index + c.test_duration_seconds + c.recovery_duration_seconds - or_zero left
completed_before c completed index elapsed left = total_duration c
completed_before c _ index elapsed left = before_stage c index

-- `overall_progress_percent`, as the part of `total_duration` that it stands for
unfoldable pub progress : ExperimentConfig → ExperimentState → ℕ → Time → Option Time → Time
unfolding total_duration completed_before
progress c completed index elapsed left = total_duration c
progress c st index elapsed left = min (total_duration c) (completed_before c st index elapsed left)

abbrev pub shown_remaining : ExperimentState → Option Time → Option Time → Option Time
shown_remaining st recovery_left active_left =
    if is_recovering st then recovery_left else active_left

-- `a - b`
abbrev pub difference : Time → Time → Number
difference a b = if leb b a then plus (a - b) else minus (b - a - 1)

abbrev pub shown_elapsed : ExperimentConfig → ExperimentState → Option Time → Time → Number
shown_elapsed c st none elapsed = plus elapsed
shown_elapsed c st (some left) elapsed =
    if is_recovering st then difference c.recovery_duration_seconds left else plus elapsed

-- the adapter's `/` response, as far as `status` reads it
pub record Health : Type 0 where
  pub status : Option Text
  pub authentication_ready : Option Bool

abbrev pub adapter_ready : Option Text → Bool
adapter_ready none = false
adapter_ready (some status) = text_eq status (codes "ok") || text_eq status (codes "degraded")

abbrev pub or_ready : Option Bool → Bool → Bool
or_ready none ready = ready
or_ready (some b) ready = b

-- `auth_ready`
unfoldable pub auth_ready : Health → Bool
unfolding text_eq
auth_ready h = or_ready h.authentication_ready (adapter_ready h.status)

-- `last_adapter_health` after a request: kept where it failed
abbrev pub latest_health : Health → Option Health → Health
latest_health kept none = kept
latest_health kept (some h) = h

-- the response, without the battery reading, the files of the media and the adapter's own JSON
pub record Payload : Type 0 where
  pub state : ExperimentState
  pub test_index : ℕ
  pub test_number : ℕ
  pub test_name : Text
  pub test_kind : Kind
  pub test_count : ℕ
  pub phase_started_at_utc : Option Time
  pub phase_elapsed_seconds : Number
  pub phase_remaining_seconds : Option Time
  pub overall_progress : Time
  pub overall_total : Time
  pub snapshot_attempt_count : ℕ
  pub successful_snapshot_count : ℕ
  pub failed_snapshot_count : ℕ
  pub snapshot_timeout_count : ℕ
  pub received_stream_bytes : ℕ
  pub stream_reconnect_count : ℕ
  pub receiving : Bool
  pub outage_seconds : Option Time
  pub fatal_outage_seconds : Time
  pub data_timeout_seconds : Time
  pub shows_stream : Bool
  pub controls : Offered
  pub stop_reason : Option StopReason
  pub latest_error : Option Text
  pub auth_ready : Bool

unfoldable pub payload : ExperimentConfig → Health → ExperimentStatus → Payload
payload c h s =
    let left =
      shown_remaining s.run.state s.recovery_remaining_seconds s.active_remaining_seconds in
    let index = s.run.current_test_number - 1 in
    record {
      state = s.run.state;
      test_index = index;
      test_number = s.run.current_test_number;
      test_name = s.test_name;
      test_kind = s.test_kind;
      test_count = length c.tests;
      phase_started_at_utc = s.run.phase_started_at_utc;
      phase_elapsed_seconds = shown_elapsed c s.run.state left s.active_elapsed_seconds;
      phase_remaining_seconds = left;
      overall_progress =
          progress c s.run.state index s.active_elapsed_seconds s.recovery_remaining_seconds;
      overall_total = total_duration c;
      snapshot_attempt_count = s.run.snapshots_attempted;
      successful_snapshot_count = s.run.snapshots_succeeded;
      failed_snapshot_count = s.run.snapshots_failed;
      snapshot_timeout_count = s.run.snapshot_timeouts;
      received_stream_bytes = s.run.stream_bytes;
      stream_reconnect_count = s.run.stream_reconnects;
      receiving = s.stream_receiving;
      outage_seconds = s.stream_outage_seconds;
      fatal_outage_seconds = s.stream_fatal_outage_seconds;
      data_timeout_seconds = c.stream_data_timeout_seconds;
      shows_stream = is_stream s.run.state;
      controls = offered s.run.state;
      stop_reason = s.run.stop_reason;
      latest_error = s.run.latest_error;
      auth_ready = auth_ready h;
    }

-- `status`, with what the request for the adapter's health gave
unfoldable pub status : ExperimentConfig → Health → Option Health → Instant → M Payload
unfolding payload
status c kept answer t = do s ← get_status c t; pure (payload c (latest_health kept answer) s)

-- `hls_freshness_window`, in microseconds
abbrev pub hls_freshness_window : Time → ℕ → Time
hls_freshness_window segment list_size = max 30_000_000 (segment * list_size * 2)

-- `media.ready`, on the size of the manifest and the consumer
unfoldable pub media_ready : Option ℕ → Consumer → Time → Time → ℕ → Bool
unfolding is_fresh
media_ready manifest consumer now segment list_size =
    is_fresh manifest consumer now (hls_freshness_window segment list_size)
