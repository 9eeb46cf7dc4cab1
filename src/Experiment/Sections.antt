-- ===== src/Experiment/Sections.antt =====
-- The sections of the runner task in src/blink_dashboard/experiment.py: what it does under the lock
-- after each awaited call, guarded by the generation that it was started for.
pub mod Laws
pub mod Recovery
pub mod Stale
use blink_battery_benchmark.Common.{
  ℕ, ◌+◌, ◌-◌, Bool, true, false, not, ◌&&◌, ◌||◌, Option, none, some, List, [], ◌∷◌, ◌++◌, ltb,
  leb, ◌==◌, if◌then◌else◌,
}
use blink_battery_benchmark.Text.{Text, codes, text_eq}
use blink_battery_benchmark.Action.{
  Done, Result, ok, err, Error, pure, gets, modify, when, ◌>>=◌, ◌>>◌, continue,
}
use blink_battery_benchmark.Storage.Types.{
  Time, BatteryReading, RunRecord, warning, set_latest_error, set_snapshots_attempted,
  set_snapshots_succeeded, set_snapshots_failed, set_snapshot_timeouts, set_stream_reconnects,
}
use blink_battery_benchmark.Config.Types.{ExperimentConfig}
use blink_battery_benchmark.Experiment.State.{ExperimentState, recovery, is_active, is_resumable}
use blink_battery_benchmark.Experiment.Battery.{is_low_reading}
use blink_battery_benchmark.Experiment.World.{
  Instant, World, M, update, end_phase_locked, record_event_locked,
}
use blink_battery_benchmark.Experiment.Phases.{
  record_measurement_locked, checkpoint_active_locked, flush_stream_bytes_locked,
}
use blink_battery_benchmark.Experiment.Outage.{
  note_stream_bytes, note_stream_error, start_stream_outage, stream_outage_is_fatal,
}
use blink_battery_benchmark.Experiment.Transitions.{
  finish_active_locked, transition_low_battery_locked, transition_low_during_recovery_locked,
  advance_after_recovery_locked, transition_error_locked, note_success_locked, note_failure_locked,
}
use blink_battery_benchmark.Experiment.Controls.{Outcome, returned, raised}

-- `generation != self._generation`
abbrev pub is_stale : ℕ → World → Bool
is_stale generation w = not (w.generation == generation)

-- `getattr(exc, "category", None) == "snapshot_timeout"`
abbrev pub is_timeout : Option Text → Bool
is_timeout none = false
is_timeout (some category) = text_eq category (codes "snapshot_timeout")

abbrev pub is_recovery : ExperimentState → Bool
is_recovery recovery = true
is_recovery _ = false

-- `c` is the configuration, `low` the set of low battery states, and `limit_text` how the outage
-- limit is printed.
module _ (c : ExperimentConfig) (low : List Text) (limit_text : Text) (t : Instant) where
  -- `_capture_snapshot` up to its await; false if the runner is stale
  unfoldable pub capture_attempt : ℕ → M Bool
  capture_attempt generation = do
    w ← gets (λ w. w)
    (if is_stale generation w then pure false else (do
      update t (set_snapshots_attempted (w.run.snapshots_attempted + 1) ∷ [])
      pure true))

  abbrev pub capture_failed : Bool → Text → M Done
  capture_failed timed_out exc = do
    r ← gets (λ w. w.run)
    update t (
        set_latest_error (some exc)
        ∷ (if timed_out
            then set_snapshot_timeouts (r.snapshot_timeouts + 1)
            else set_snapshots_failed (r.snapshots_failed + 1))
        ∷ [])
    record_event_locked t warning (codes "snapshot") (
        codes "Snapshot "
        ++ ((if timed_out then codes "timed out" else codes "failed") ++ (codes ": " ++ exc)))
    note_failure_locked c t limit_text exc
    pure tt

  abbrev pub capture_succeeded : M Done
  capture_succeeded = do
    r ← gets (λ w. w.run)
    update t (set_snapshots_succeeded (r.snapshots_succeeded + 1) ∷ set_latest_error none ∷ [])
    note_success_locked c t

  abbrev pub capture_end : Outcome Done → M Done
  capture_end (raised category exc) = capture_failed (is_timeout category) exc
  capture_end (returned _) = capture_succeeded

  -- `_capture_snapshot` after its await
  unfoldable pub capture_outcome : ℕ → Outcome Done → M Done
  capture_outcome generation outcome = do
    w ← gets (λ w. w)
    when (not (is_stale generation w)) (capture_end outcome)

  abbrev pub battery_failed : Text → M Bool
  battery_failed exc = do
    update t (set_latest_error (some exc) ∷ [])
    record_event_locked t warning (codes "battery") (codes "Battery refresh failed: " ++ exc)
    fatal ← note_failure_locked c t limit_text exc
    record_measurement_locked c t
    pure fatal

  abbrev pub battery_read : BatteryReading → M Bool
  battery_read reading = do
    modify (λ w. record w { last_battery = some reading })
    note_success_locked c t
    st ← gets (λ w. w.run.state)
    (if is_low_reading low reading && is_active st
        then (do transition_low_battery_locked c t reading; pure true)
        else (do record_measurement_locked c t; pure false))

  abbrev pub battery_end : Outcome BatteryReading → M Bool
  battery_end (raised _ exc) = battery_failed exc
  battery_end (returned reading) = battery_read reading

  -- `_poll_battery` after its await, and `_consume_stream_battery_task` on a task that was not
  -- cancelled; true if the runner has to leave its loop
  unfoldable pub poll_battery : ℕ → Outcome BatteryReading → M Bool
  poll_battery generation outcome = do
    w ← gets (λ w. w)
    (if is_stale generation w then pure true else battery_end outcome)

  abbrev pub recovery_failed : Text → M Bool
  recovery_failed exc = do
    update t (set_latest_error (some exc) ∷ [])
    record_event_locked t warning (codes "battery")
        (codes "Recovery battery refresh failed: " ++ exc)
    record_measurement_locked c t
    pure false

  abbrev pub recovery_read : Time → BatteryReading → M Bool
  recovery_read deadline reading = do
    modify (λ w. record w { last_battery = some reading })
    note_success_locked c t
    record_measurement_locked c t
    st ← gets (λ w. w.run.state)
    (if is_low_reading low reading && is_recovery st
        then (do transition_low_during_recovery_locked c t reading; pure true)
        else if leb deadline t.utc && not (is_low_reading low reading)
        then (do
          end_phase_locked t (codes "completed")
          advance_after_recovery_locked c t
          pure true)
        else pure false)

  abbrev pub recovery_end : Time → Outcome BatteryReading → M Bool
  recovery_end deadline (raised _ exc) = recovery_failed exc
  recovery_end deadline (returned reading) = recovery_read deadline reading

  -- The part of `_run_recovery` after its await, for the deadline read before it; true if the
  -- recovery loop returns.
  unfoldable pub recovery_poll : ℕ → Time → Outcome BatteryReading → M Bool
  recovery_poll generation deadline outcome = do
    w ← gets (λ w. w)
    (if is_stale generation w then pure true else recovery_end deadline outcome)

  -- `_run_recovery` on a run with no deadline
  unfoldable pub recovery_without_deadline : M Done
  recovery_without_deadline = transition_error_locked c t (codes "recovery deadline is missing")

  -- the section that ends an active test whose time is up
  unfoldable pub finish_section : ℕ → M Done
  finish_section generation = do
    w ← gets (λ w. w)
    when (not (is_stale generation w)) (finish_active_locked c t)

  -- the checkpoint of the snapshot loop; false if the runner is stale
  unfoldable pub checkpoint_section : ℕ → M Bool
  checkpoint_section generation = do
    w ← gets (λ w. w)
    (if is_stale generation w then pure false else (do checkpoint_active_locked t; pure true))

  -- the measurement of the snapshot loop
  unfoldable pub measurement_section : ℕ → M Bool
  measurement_section generation = do
    w ← gets (λ w. w)
    (if is_stale generation w
        then pure false
        else (do checkpoint_active_locked t; record_measurement_locked c t; pure true))

  -- the callbacks of `_run_stream`
  unfoldable pub on_bytes : ℕ → ℕ → M Done
  on_bytes generation count = do
    w ← gets (λ w. w)
    when (ltb 0 count && not (is_stale generation w)) (note_stream_bytes c t count)

  unfoldable pub on_reconnect : ℕ → M Done
  on_reconnect generation = do
    w ← gets (λ w. w)
    when (not (is_stale generation w))
        (modify λ w. record w { pending_stream_reconnects = w.pending_stream_reconnects + 1 })

  unfoldable pub on_error : ℕ → Text → Text → M Done
  on_error generation category message = do
    w ← gets (λ w. w)
    when (not (is_stale generation w)) (note_stream_error t category message)

  -- the `except Exception` of `_runner_entry`; `describe` prints an exception
  unfoldable pub runner_failed : (Error → Text) → ℕ → Error → M Done
  runner_failed describe generation exc = do
    w ← gets (λ w. w)
    when (not (is_stale generation w))
        (transition_error_locked c t (codes "experiment runner failed: " ++ describe exc))
