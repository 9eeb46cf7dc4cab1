-- ===== src/Experiment/Transitions.antt =====
-- The state transitions of src/blink_dashboard/experiment.py that a runner makes on its own.
pub mod Laws
use blink_battery_benchmark.Common.{
  ℕ, ◌+◌, ◌-◌, Bool, true, false, Option, none, some, List, [], ◌∷◌, ◌++◌, leb, if◌then◌else◌,
  length,
}
use blink_battery_benchmark.Text.{Text, codes}
use blink_battery_benchmark.Action.{
  Done, Result, ok, err, pure, gets, lift, modify, when, ◌>>=◌, ◌>>◌, continue,
}
use blink_battery_benchmark.Storage.Types.{
  Time, BatteryReading, RunRecord, StopReason, low_battery, completed_after_low_battery, warning,
  set_state, set_current_test_number, set_phase_started_at_utc, set_phase_deadline_at_utc,
  set_active_elapsed_seconds, set_stop_reason, set_latest_error, set_completed_at_utc,
}
use blink_battery_benchmark.Storage.Types
use blink_battery_benchmark.Config.Types.{ExperimentConfig, Kind, test}
use blink_battery_benchmark.Experiment.State.{
  ExperimentState, completed, recovery, stopped_low_battery, stopped_error, is_active,
}
use blink_battery_benchmark.Experiment.World.{
  Instant, World, M, update, end_phase_locked, record_event_locked,
}
use blink_battery_benchmark.Experiment.Phases.{
  checkpoint_active_locked, record_measurement_locked, begin_active_locked,
  begin_recovery_phase_locked, active_state,
}

abbrev pub clear_anchor : M Done
clear_anchor = modify (λ w. record w { active_anchor = none })

-- `reading.battery_state` in an f-string
abbrev pub shown : Option Text → Text
shown none = codes "None"
shown (some s) = s

-- the stop reason of a run that completes after recovery
abbrev pub after_low : Option StopReason → Option StopReason
after_low (some low_battery) = some completed_after_low_battery
after_low _ = none

module _ (c : ExperimentConfig) (t : Instant) where
  abbrev pub finish_last : M Done
  finish_last = update t (
      set_state completed
      ∷ set_active_elapsed_seconds 0
      ∷ set_phase_started_at_utc none
      ∷ set_completed_at_utc (some t.utc)
      ∷ set_stop_reason none
      ∷ [])

  abbrev pub finish_into_recovery : M Done
  finish_into_recovery = do
    update t (
        set_state recovery
        ∷ set_active_elapsed_seconds 0
        ∷ set_phase_started_at_utc (some t.utc)
        ∷ set_phase_deadline_at_utc (some (t.utc + c.recovery_duration_seconds))
        ∷ set_stop_reason none
        ∷ [])
    begin_recovery_phase_locked c t false

  unfoldable pub finish_active_locked : M Done
  finish_active_locked = do
    checkpoint_active_locked t
    clear_anchor
    end_phase_locked t (codes "completed")
    n ← gets (λ w. w.run.current_test_number)
    (if leb (length c.tests) n then finish_last else finish_into_recovery)
    record_measurement_locked c t

  unfoldable pub transition_low_battery_locked : BatteryReading → M Done
  transition_low_battery_locked reading = do
    checkpoint_active_locked t
    clear_anchor
    end_phase_locked t (codes "aborted_low_battery")
    update t (
        set_state stopped_low_battery
        ∷ set_active_elapsed_seconds 0
        ∷ set_phase_started_at_utc (some t.utc)
        ∷ set_phase_deadline_at_utc (some (t.utc + c.recovery_duration_seconds))
        ∷ set_stop_reason (some low_battery)
        ∷ set_latest_error none
        ∷ [])
    record_event_locked t warning (codes "battery")
        (codes "Low battery reported (" ++ (shown reading.battery_state ++ codes ")"))
    begin_recovery_phase_locked c t false
    record_measurement_locked c t

  unfoldable pub transition_low_during_recovery_locked : BatteryReading → M Done
  transition_low_during_recovery_locked reading = do
    end_phase_locked t (codes "low_battery_detected")
    update t (
        set_state stopped_low_battery
        ∷ set_phase_started_at_utc (some t.utc)
        ∷ set_phase_deadline_at_utc (some (t.utc + c.recovery_duration_seconds))
        ∷ set_stop_reason (some low_battery)
        ∷ set_latest_error none
        ∷ [])
    record_event_locked t warning (codes "battery") (
        codes "Low battery reported during recovery ("
        ++ (shown reading.battery_state ++ codes ")"))
    begin_recovery_phase_locked c t false
    record_measurement_locked c t

  abbrev pub complete_after_recovery : Option StopReason → M Done
  complete_after_recovery reason = update t (
      set_state completed
      ∷ set_phase_started_at_utc none
      ∷ set_phase_deadline_at_utc none
      ∷ set_completed_at_utc (some t.utc)
      ∷ set_stop_reason (after_low reason)
      ∷ [])

  abbrev pub begin_next_test : ℕ → M Done
  begin_next_test next_number = do
    next_test ← lift (test c next_number)
    update t (
        set_state (active_state next_test.kind)
        ∷ set_current_test_number next_number
        ∷ set_active_elapsed_seconds 0
        ∷ set_phase_started_at_utc (some t.utc)
        ∷ set_phase_deadline_at_utc none
        ∷ set_stop_reason none
        ∷ set_latest_error none
        ∷ [])
    begin_active_locked c t false false

  unfoldable pub advance_after_recovery_locked : M Done
  advance_after_recovery_locked = do
    r ← gets (λ w. w.run)
    (if leb (length c.tests) r.current_test_number
        then complete_after_recovery r.stop_reason
        else begin_next_test (r.current_test_number + 1))

  unfoldable pub transition_error_locked : Text → M Done
  transition_error_locked message = do
    st ← gets (λ w. w.run.state)
    when (is_active st) (do checkpoint_active_locked t; clear_anchor)
    end_phase_locked t (codes "error")
    update t (
        set_state stopped_error
        ∷ set_phase_started_at_utc none
        ∷ set_phase_deadline_at_utc none
        ∷ set_stop_reason (some StopReason.error)
        ∷ set_latest_error (some message)
        ∷ [])
    record_event_locked t Types.Level.error (codes "experiment") message
    record_measurement_locked c t

  -- `_note_success_locked`
  unfoldable pub note_success_locked : M Done
  note_success_locked = modify (λ w. record w { outage_started = none })

  -- The message that an outage ends the run with; the text of the limit is a parameter.
  abbrev pub note_failure : Text → Text → Option Time → M Bool
  note_failure limit_text message none = do
    modify (λ w. record w { outage_started = some t.mono })
    pure false
  note_failure limit_text message (some started) = do
    (if leb c.fatal_outage_seconds (t.mono - started)
        then (do
          transition_error_locked
              (codes "Critical adapter outage exceeded " ++ (limit_text ++ (codes ": " ++ message)))
          pure true)
        else pure false)

  -- True if the failure ended the run.
  unfoldable pub note_failure_locked : Text → Text → M Bool
  note_failure_locked limit_text message = do
    outage_started ← gets (λ w. w.outage_started)
    note_failure limit_text message outage_started
