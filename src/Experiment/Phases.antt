-- ===== src/Experiment/Phases.antt =====
-- Checkpoints, measurements and the beginning of a phase in src/blink_dashboard/experiment.py.
use blink_battery_benchmark.Common.{
  ◌+◌, ◌-◌, Bool, not, ◌||◌, Option, none, some, [], ◌∷◌, ◌==◌, if◌then◌else◌,
}
use blink_battery_benchmark.Text.{codes}
use blink_battery_benchmark.Action.{Done, pure, gets, lift, modify, when, ◌>>=◌, ◌>>◌}
use blink_battery_benchmark.Storage.Types.{
  Time, BatteryReading, Measurement, set_active_elapsed_seconds, set_stream_bytes,
  set_stream_reconnects, set_phase_started_at_utc, set_phase_deadline_at_utc,
}
use blink_battery_benchmark.Storage.Phases.{begin_phase}
use blink_battery_benchmark.Storage.Records.{add_measurement}
use blink_battery_benchmark.Config.Types.{
  ExperimentConfig, ExperimentTestConfig, Kind, snapshot, stream, kind_text, test,
}
use blink_battery_benchmark.Experiment.State.{ExperimentState, running_stream, is_stream, is_low}
use blink_battery_benchmark.Experiment.World.{Instant, World, M, on_store, update}
use blink_battery_benchmark.Experiment.Outage.{
  reset_stream_tracking_locked, restore_or_start_stream_outage_locked,
  checkpoint_stream_outage_locked,
}

unfoldable pub flush_stream_bytes_locked : Instant → M Done
flush_stream_bytes_locked t = do
  w ← gets (λ w. w)
  when (not (w.pending_stream_bytes == 0) || not (w.pending_stream_reconnects == 0)) (do
    update t (
        set_stream_bytes (w.run.stream_bytes + w.pending_stream_bytes)
        ∷ set_stream_reconnects (w.run.stream_reconnects + w.pending_stream_reconnects)
        ∷ [])
    modify (λ w. record w { pending_stream_bytes = 0; pending_stream_reconnects = 0 }))

unfoldable pub checkpoint_stream : Instant → M Done
checkpoint_stream t = do
  w ← gets (λ w. w)
  let elapsed = w.run.active_elapsed_seconds + w.pending_stream_valid_seconds
  modify (λ w. record w { pending_stream_valid_seconds = 0 })
  flush_stream_bytes_locked t
  checkpoint_stream_outage_locked t
  update t (set_active_elapsed_seconds elapsed ∷ [])

unfoldable pub checkpoint_snapshot : Instant → Option Time → M Done
checkpoint_snapshot t none = pure tt
checkpoint_snapshot t (some anchor) = do
  w ← gets (λ w. w)
  let elapsed = w.run.active_elapsed_seconds + (t.mono - anchor)
  modify (λ w. record w { active_anchor = some t.mono })
  flush_stream_bytes_locked t
  update t (set_active_elapsed_seconds elapsed ∷ [])

unfoldable pub checkpoint_active_locked : Instant → M Done
unfolding checkpoint_stream checkpoint_snapshot
checkpoint_active_locked t = do
  w ← gets (λ w. w)
  (if is_stream w.run.state then checkpoint_stream t else checkpoint_snapshot t w.active_anchor)

-- `battery.… if battery else None`
abbrev pub from_battery {ℓ} :
    {A : Type ℓ} → (BatteryReading → Option A) → Option BatteryReading → Option A
from_battery field none = none
from_battery field (some b) = field b

abbrev pub measurement_of : Time → ExperimentTestConfig → World → Measurement
measurement_of now test w = record {
  observed_at_utc = now;
  observed_at_local = now;
  state = w.run.state;
  test_number = some w.run.current_test_number;
  test_name = some test.name;
  snapshot_interval_seconds = test.snapshot_interval_seconds;
  battery_level_raw = from_battery (λ b. b.battery_level_raw) w.last_battery;
  battery_state = from_battery (λ b. b.battery_state) w.last_battery;
  battery_voltage_raw = from_battery (λ b. b.battery_voltage_raw) w.last_battery;
  battery_voltage_volts = from_battery (λ b. b.battery_voltage_volts) w.last_battery;
  blink_battery_check_time = from_battery (λ b. b.blink_battery_check_time) w.last_battery;
  camera_status = from_battery (λ b. b.camera_status) w.last_battery;
  snapshots_attempted = w.run.snapshots_attempted;
  snapshots_succeeded = w.run.snapshots_succeeded;
  snapshots_failed = w.run.snapshots_failed;
  snapshot_timeouts = w.run.snapshot_timeouts;
  stream_bytes = w.run.stream_bytes + w.pending_stream_bytes;
  stream_reconnects = w.run.stream_reconnects;
  latest_error = w.run.latest_error;
}

module _ (c : ExperimentConfig) (t : Instant) where
  unfoldable pub record_measurement_locked : M Done
  record_measurement_locked = do
    w ← gets (λ w. w)
    test ← lift (test c w.run.current_test_number)
    on_store (add_measurement w.run.id (measurement_of t.utc test w))
    modify (λ w. record w { last_measurement_at = some t.mono })

  abbrev pub anchor_or_outage : Kind → Bool → M Done
  anchor_or_outage stream account_closed_outage = do
    reset_stream_tracking_locked
    restore_or_start_stream_outage_locked t account_closed_outage
    modify (λ w. record w { active_anchor = none })
  anchor_or_outage snapshot _ = modify (λ w. record w { active_anchor = some t.mono })

  unfoldable pub begin_active_locked : Bool → Bool → M Done
  begin_active_locked resumed account_closed_outage = do
    n ← gets (λ w. w.run.current_test_number)
    test ← lift (test c n)
    anchor_or_outage test.kind account_closed_outage
    update t (set_phase_started_at_utc (some t.utc) ∷ set_phase_deadline_at_utc none ∷ [])
    w ← gets (λ w. w)
    id ← on_store (
        begin_phase (record {
          run_id = w.run.id;
          phase_kind = kind_text test.kind;
          name = test.name;
          started_at_utc = t.utc;
          test_number = some w.run.current_test_number;
          active_elapsed_at_start = some w.run.active_elapsed_seconds;
          details = some resumed;
        }))
    modify (λ w. record w { phase_id = some id })

  unfoldable pub begin_recovery_phase_locked : Bool → M Done
  begin_recovery_phase_locked resumed = do
    modify (λ w. record w { active_anchor = none })
    w ← gets (λ w. w)
    id ← on_store (
        begin_phase (record {
          run_id = w.run.id;
          phase_kind = codes "recovery";
          name = if is_low w.run.state then codes "Low-battery recovery" else codes "Recovery";
          started_at_utc = t.utc;
          test_number = some w.run.current_test_number;
          active_elapsed_at_start = none;
          details = some resumed;
        }))
    modify (λ w. record w { phase_id = some id })

-- `_active_state`
unfoldable pub active_state : Kind → ExperimentState
active_state stream = running_stream
active_state snapshot = ExperimentState.running_snapshot

-- `_elapsed_active`
unfoldable pub elapsed_active : World → Time → Time
elapsed_active w now =
    if is_stream w.run.state
    then w.run.active_elapsed_seconds + w.pending_stream_valid_seconds
    else elim w.active_anchor [
      | none ↦ w.run.active_elapsed_seconds
      | some anchor ↦ w.run.active_elapsed_seconds + (now - anchor)
    ]
