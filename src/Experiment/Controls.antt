-- ===== src/Experiment/Controls.antt =====
-- The controls of `ExperimentRunner` in src/blink_dashboard/experiment.py: each is one section under
-- the lock, but `continue_after_low_battery`, which reads the battery between two sections.
pub mod Laws
pub mod Resume
pub mod Lifecycle
pub mod Initialize
use blink_battery_benchmark.Common.{
  ℕ, ◌+◌, Bool, true, false, not, ◌&&◌, ◌||◌, Option, none, some, List, [], ◌∷◌, ◌++◌, ltb, leb,
  ◌==◌, if◌then◌else◌, is_some,
}
use blink_battery_benchmark.Text.{Text, codes}
use blink_battery_benchmark.Action.{
  Done, Result, ok, err, pure, raise, gets, lift, modify, when, ◌>>=◌, ◌>>◌, continue,
  invalid_transition, bad_interval,
}
use blink_battery_benchmark.Storage.Types.{
  Time, BatteryReading, RunRecord, PhaseRow, StopReason, manual, restarted, low_battery, info,
  Store, set_state, set_phase_started_at_utc, set_phase_deadline_at_utc, set_stop_reason,
  set_latest_error,
}
use blink_battery_benchmark.Storage.Runs.{latest_run, create_run}
use blink_battery_benchmark.Storage.Phases.{open_phase, end_phase}
use blink_battery_benchmark.Config.Types.{ExperimentConfig, test}
use blink_battery_benchmark.Experiment.State.{
  ExperimentState, not_started, running_snapshot, stopped_low_battery, stopped_manual, recovery,
  completed, value, is_active, is_recovering, is_resumable, is_low,
}
use blink_battery_benchmark.Experiment.Battery.{is_low_reading}
use blink_battery_benchmark.Experiment.World.{
  Instant, RunnerTask, World, M, on_store, update, end_phase_locked, record_event_locked,
}
use blink_battery_benchmark.Experiment.Outage.{reset_stream_tracking_locked}
use blink_battery_benchmark.Experiment.Phases.{
  checkpoint_active_locked, record_measurement_locked, begin_active_locked,
  begin_recovery_phase_locked, active_state,
}
use blink_battery_benchmark.Experiment.Transitions.{clear_anchor, advance_after_recovery_locked}

-- How an awaited call of the backend ends: with a value, or with an exception's category and text.
pub data Outcome (A : Type 0) : Type 0 where
  returned : A → Outcome A
  raised : Option Text → Text → Outcome A

abbrev pub is_running : Option RunnerTask → Bool
is_running none = false
is_running (some task) = not task.done

unfoldable pub start_runner_locked : M Done
start_runner_locked = do
  w ← gets (λ w. w)
  when (not (is_running w.runner_task)) (
      modify
        λ w. record w { runner_task = some (record { generation = w.generation; done = false }) })

abbrev pub set_event : Option ℕ → List ℕ → List ℕ
set_event none ids = ids
set_event (some id) ids = id ∷ ids

-- The detached task is cancelled by the caller, and its generation is no longer the current one.
unfoldable pub detach_runner_locked : M (Option RunnerTask)
detach_runner_locked = do
  task ← gets (λ w. w.runner_task)
  modify λ w. record w {
    generation = w.generation + 1;
    runner_task = none;
    stopped_streams = set_event w.stream_stop_event w.stopped_streams;
    stream_stop_event = none;
  }
  pure task

-- the state that a stopped run was stopped in, if its `stop_reason` names one
abbrev pub origin : Option StopReason → Option ExperimentState
origin (some (manual st)) = some st
origin _ = none

abbrev pub is_settled : ExperimentState → Bool
is_settled completed = true
is_settled stopped_manual = true
is_settled _ = false

module _ (c : ExperimentConfig) (t : Instant) where
  abbrev pub close_interrupted : Option PhaseRow → M Done
  close_interrupted none = pure tt
  close_interrupted (some phase) = on_store (end_phase phase.id t.utc (codes "interrupted") none)

  unfoldable pub initialize : M RunRecord
  initialize = do
    w ← gets (λ w. w)
    close_interrupted (open_phase w.run.id w.store)
    (if is_active w.run.state
        then begin_active_locked c t true true
        else when (is_recovering w.run.state) (begin_recovery_phase_locked c t true))
    when (is_resumable w.run.state) start_runner_locked
    gets (λ w. w.run)

  abbrev pub enter_active : Bool → M Done
  enter_active resumed = do
    n ← gets (λ w. w.run.current_test_number)
    test ← lift (test c n)
    update t (
        set_state (active_state test.kind)
        ∷ set_stop_reason none
        ∷ set_phase_deadline_at_utc none
        ∷ (if resumed then [] else set_latest_error none ∷ []))
    begin_active_locked c t resumed false

  abbrev pub resume_recovery : ExperimentState → M Done
  resume_recovery st = do
    update t (set_state st ∷ set_stop_reason (if is_low st then some low_battery else none) ∷ [])
    begin_recovery_phase_locked c t true

  abbrev pub resume_stopped : Option ExperimentState → Bool → M Done
  resume_stopped none has_deadline = enter_active true
  resume_stopped (some st) has_deadline =
      if is_recovering st && has_deadline then resume_recovery st else enter_active true

  abbrev pub start_from : ExperimentState → RunRecord → M Done
  start_from not_started r = enter_active false
  start_from stopped_manual r =
      resume_stopped (origin r.stop_reason) (is_some r.phase_deadline_at_utc)
  start_from st r = raise (invalid_transition (codes "cannot start while state is " ++ value st))

  unfoldable pub start : M RunRecord
  start = do
    r ← gets (λ w. w.run)
    start_from r.state r
    record_measurement_locked c t
    start_runner_locked
    gets (λ w. w.run)

  unfoldable pub stop : M RunRecord
  stop = do
    r ← gets (λ w. w.run)
    when (not (is_active r.state) && not (is_recovering r.state))
        (raise (invalid_transition (codes "cannot stop while state is " ++ value r.state)))
    detach_runner_locked
    when (is_active r.state) (do checkpoint_active_locked t; clear_anchor)
    end_phase_locked t (codes "manual_stop")
    deadline ← gets (λ w. w.run.phase_deadline_at_utc)
    update t (
        set_state stopped_manual
        ∷ set_phase_started_at_utc none
        ∷ set_phase_deadline_at_utc (if is_recovering r.state then deadline else none)
        ∷ set_stop_reason (some (manual r.state))
        ∷ [])
    record_event_locked t info (codes "experiment") (codes "Experiment stopped manually")
    record_measurement_locked c t
    gets (λ w. w.run)

  abbrev pub close_old_run : ExperimentState → M Done
  close_old_run old_state = do
    when (is_active old_state) (checkpoint_active_locked t)
    end_phase_locked t (codes "restarted")
    update t (
        set_state stopped_manual
        ∷ set_stop_reason (some restarted)
        ∷ set_phase_started_at_utc none
        ∷ set_phase_deadline_at_utc none
        ∷ [])

  unfoldable pub restart : M RunRecord
  restart = do
    detach_runner_locked
    old_state ← gets (λ w. w.run.state)
    when (not (is_settled old_state)) (close_old_run old_state)
    r ← on_store (create_run not_started t.utc)
    modify (λ w. record w { run = r })
    update t (set_state running_snapshot ∷ [])
    modify (λ w. record w { active_anchor = none; last_battery = none; outage_started = none })
    reset_stream_tracking_locked
    begin_active_locked c t false false
    record_measurement_locked c t
    start_runner_locked
    gets (λ w. w.run)

  -- the first section of `continue_after_low_battery`: the run and generation to come back to
  unfoldable pub continue_check : M (ℕ × ℕ)
  continue_check = do
    w ← gets (λ w. w)
    when (not (is_low w.run.state))
        (raise (invalid_transition (codes "low-battery continuation is not currently available")))
    pure (w.run.id, w.generation)

  -- the second section, once the reading was found not to be low
  unfoldable pub continue_apply : ℕ → ℕ → BatteryReading → M RunRecord
  continue_apply run_id generation reading = do
    w ← gets (λ w. w)
    when (not (w.run.id == run_id) || not (w.generation == generation))
        (raise (invalid_transition (codes "experiment state changed during battery verification")))
    modify (λ w. record w { last_battery = some reading })
    detach_runner_locked
    end_phase_locked t (codes "continued_early")
    advance_after_recovery_locked c t
    record_measurement_locked c t
    st ← gets (λ w. w.run.state)
    when (is_active st) start_runner_locked
    gets (λ w. w.run)

  -- what follows the awaited reading
  unfoldable pub continue_outcome : List Text → ℕ → ℕ → Outcome BatteryReading → M RunRecord
  continue_outcome low run_id generation (raised _ _) =
      raise (invalid_transition (codes "battery state could not be freshly verified"))
  continue_outcome low run_id generation (returned reading) =
      if is_low_reading low reading
      then raise (invalid_transition (codes "battery is still reported low"))
      else continue_apply run_id generation reading

  unfoldable pub shutdown : M Done
  shutdown = do
    detach_runner_locked
    st ← gets (λ w. w.run.state)
    when (is_active st) (do
      checkpoint_active_locked t
      clear_anchor
      end_phase_locked t (codes "paused_shutdown")
      update t (set_phase_started_at_utc none ∷ []))
