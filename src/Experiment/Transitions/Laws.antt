-- ===== src/Experiment/Transitions/Laws.antt =====
-- Each transition returns in a valid world, keeps it valid, and moves the run as it should.
use blink_battery_benchmark.Common.{
  ℕ, ◌+◌, ◌-◌, ◌≡◌, refl, Bool, true, false, Option, none, some, [], ◌∷◌, ◌++◌, leb, ◌==◌,
  if◌then◌else◌, is_some, arith, Bool-cases, inl, inr, length, ap, ◌≢◌,
}
use blink_battery_benchmark.Text.{Text, codes, is_blank}
use blink_battery_benchmark.Action.{Done, ◌>>◌}
use blink_battery_benchmark.Storage.Types.{
  Time, BatteryReading, RunRecord, StopReason, low_battery, warning, set_state,
  set_current_test_number, set_phase_started_at_utc, set_phase_deadline_at_utc,
  set_active_elapsed_seconds, set_stop_reason, set_latest_error, set_completed_at_utc,
}
use blink_battery_benchmark.Storage.Types
use blink_battery_benchmark.Config.Types.{ExperimentConfig}
use blink_battery_benchmark.Experiment.State.{
  running_snapshot, running_stream, completed, recovery, stopped_low_battery, stopped_error,
  is_active,
}
use blink_battery_benchmark.Experiment.World.{
  Instant, World, update, end_phase_locked, record_event_locked,
}
use blink_battery_benchmark.Experiment.Phases.{record_measurement_locked, active_state}
use blink_battery_benchmark.Experiment.Transitions.{
  shown, after_low, finish_last, finish_into_recovery, finish_active_locked,
  transition_low_battery_locked, transition_low_during_recovery_locked, begin_next_test,
  advance_after_recovery_locked, transition_error_locked, note_failure, note_failure_locked,
}
use blink_battery_benchmark.Experiment.Invariant.{
  counters, IsValid, Returns, Returns-bind, Returns-pure, Returns-mono, IsStandard, test-IsStandard,
}
use blink_battery_benchmark.Experiment.Invariant.Steps.{
  update-Returns, end_phase_locked-Returns, record_event_locked-Returns,
}
use blink_battery_benchmark.Experiment.Invariant.Checkpoints.{checkpoint_active_locked-Returns}
use blink_battery_benchmark.Experiment.Invariant.Phases.{
  record_measurement_locked-Returns, begin_recovery_phase_locked-Returns,
  begin_active_locked-Returns,
}

-- what every transition leaves alone
pub record Moved (w w' : World) : Type 0 where
  pub valid : IsValid w'
  pub id : w'.run.id ≡ w.run.id
  pub counts : counters w'.run ≡ counters w.run
  pub generation : w'.generation ≡ w.generation
  pub task : w'.runner_task ≡ w.runner_task

-- what a checkpoint with the anchor dropped leaves
record Checked (w w' : World) : Type 0 where
  valid : IsValid w'
  id : w'.run.id ≡ w.run.id
  number : w'.run.current_test_number ≡ w.run.current_test_number
  counts : counters w'.run ≡ counters w.run
  generation : w'.generation ≡ w.generation
  task : w'.runner_task ≡ w.runner_task

-- A finished test: the last one completes the run, any other begins a recovery of the full length,
-- and the active time starts again from 0.
pub record Finished (c : ExperimentConfig) (t : Instant) (w w' : World) : Type 0 where
  pub moved : Moved w w'
  pub number : w'.run.current_test_number ≡ w.run.current_test_number
  pub elapsed : w'.run.active_elapsed_seconds ≡ 0
  pub stop_reason : w'.run.stop_reason ≡ none
  pub ended :
      w.run.current_test_number ≡ 4
      → (w'.run.state ≡ completed) × (w'.run.completed_at_utc ≡ some t.utc) × (w'.phase_id ≡ none)
  pub recovers :
      w.run.current_test_number ≢ 4
      → (w'.run.state ≡ recovery)
        × (w'.run.phase_deadline_at_utc ≡ some (t.utc + c.recovery_duration_seconds))
        × (is_some w'.phase_id ≡ true)

-- A run stopped for its battery, with a recovery of the full length before it.
pub record Low (c : ExperimentConfig) (t : Instant) (w w' : World) : Type 0 where
  pub moved : Moved w w'
  pub number : w'.run.current_test_number ≡ w.run.current_test_number
  pub state : w'.run.state ≡ stopped_low_battery
  pub deadline : w'.run.phase_deadline_at_utc ≡ some (t.utc + c.recovery_duration_seconds)
  pub stop_reason : w'.run.stop_reason ≡ some low_battery
  pub held : is_some w'.phase_id ≡ true

-- A run stopped for an error.
pub record Failed (message : Text) (t : Instant) (w w' : World) : Type 0 where
  pub moved : Moved w w'
  pub number : w'.run.current_test_number ≡ w.run.current_test_number
  pub state : w'.run.state ≡ stopped_error
  pub deadline : w'.run.phase_deadline_at_utc ≡ none
  pub latest_error : w'.run.latest_error ≡ some message
  pub released : w'.phase_id ≡ none

-- After a recovery the run completes if its stage was the last, or begins the next stage from 0.
pub record Advanced (t : Instant) (w w' : World) : Type 0 where
  pub moved : Moved w w'
  pub ended :
      w.run.current_test_number ≡ 4
      → (w'.run.state ≡ completed)
        × (w'.run.current_test_number ≡ 4)
        × (w'.run.completed_at_utc ≡ some t.utc)
        × (w'.run.stop_reason ≡ after_low w.run.stop_reason)
  pub begins :
      w.run.current_test_number ≢ 4
      → (w'.run.current_test_number ≡ w.run.current_test_number + 1)
        × (w'.run.state
            ≡ (if w.run.current_test_number == 3 then running_stream else running_snapshot))
        × (w'.run.active_elapsed_seconds ≡ 0)
        × (w'.run.phase_deadline_at_utc ≡ none)
        × (is_some w'.phase_id ≡ true)

-- A failure begins an outage, goes on with it, or ends the run: the last exactly when the outage has
-- lasted the limit.
pub record Noted (c : ExperimentConfig) (t : Instant) (fatal : Bool) (w w' : World) : Type 0 where
  pub moved : Moved w w'
  pub number : w'.run.current_test_number ≡ w.run.current_test_number
  pub stops : fatal ≡ true → w'.run.state ≡ stopped_error
  pub goes_on : fatal ≡ false → w'.run ≡ w.run
  pub begins :
      fatal ≡ false
      → w'.outage_started ≡ elim w.outage_started [ none ↦ some t.mono | some s ↦ some s ]
  pub exactly :
      fatal
      ≡ elim w.outage_started [ none ↦ false | some s ↦ leb c.fatal_outage_seconds (t.mono - s) ]

module _ (c : ExperimentConfig) (std : IsStandard c) (t : Instant) where
  finish_branch :
      (n : ℕ) (w : World)
      → IsValid w
      → w.run.current_test_number ≡ n
      → w.phase_id ≡ none
      → Returns
          (λ (_ : Done) w'. Finished c t w w')
          ((if leb (length c.tests) n then finish_last c t else finish_into_recovery c t) w)
  finish_branch n w v e p = elim (Bool-cases (leb (length c.tests) n)) [
    | inl at_end ↦ rw at_end (
        Returns-mono (update-Returns t (set_state completed) _ w v (ground arith))
          (λ _ w' h. let l : length c.tests ≡ 4 = ap length std.all in ground arith))
    | inr before ↦ rw before (
        Returns-bind (update-Returns t (set_state recovery) _ w v (ground arith)) λ _ w₁ u.
          Returns-mono (begin_recovery_phase_locked-Returns c std t false w₁ u.0)
            (λ _ w' h. let l : length c.tests ≡ 4 = ap length std.all in ground arith))
  ]

  -- For a standard configuration and a valid world: finishing a test returns in a valid world,
  -- keeps the run, its stage, its counters, the generation and the runner task, sets the active
  -- time to 0 and clears `stop_reason`; in stage 4 the run is completed now with no held phase,
  -- and in any other stage it recovers with a held phase and a deadline one recovery length from
  -- now.
  pub finish_active_locked-Returns :
      (w : World)
      → IsValid w
      → Returns (λ (_ : Done) w'. Finished c t w w') (finish_active_locked c t w)
  unfolding finish_active_locked
  finish_active_locked-Returns w v = Returns-bind (checkpoint_active_locked-Returns t w v) λ _ w₁ k.
      Returns-bind
        (end_phase_locked-Returns t (codes "completed") (record w₁ { active_anchor = none })
          (ground arith))
        λ _ w₂ e.
          Returns-bind (finish_branch w₂.run.current_test_number w₂ e.0 refl (ground arith))
            λ _ w₃ f.
              Returns-mono (record_measurement_locked-Returns c std t w₃ f.moved.valid)
                (λ _ w' m. (ground arith))

  -- A low battery in an active test ends as `Low` says, and the active time is given up.
  pub transition_low_battery_locked-Returns :
      (reading : BatteryReading) (w : World)
      → IsValid w
      → Returns
          (λ (_ : Done) w'. Low c t w w' × (w'.run.active_elapsed_seconds ≡ 0))
          (transition_low_battery_locked c t reading w)
  unfolding transition_low_battery_locked is_blank
  transition_low_battery_locked-Returns reading w v =
      Returns-bind (checkpoint_active_locked-Returns t w v) λ _ w₁ k.
        Returns-bind
          (end_phase_locked-Returns t (codes "aborted_low_battery")
            (record w₁ { active_anchor = none }) (ground arith))
          λ _ w₂ e.
            Returns-bind (update-Returns t (set_state stopped_low_battery) _ w₂ e.0 (ground arith))
              λ _ w₃ u.
                Returns-bind
                  (record_event_locked-Returns t warning (codes "battery")
                    (codes "Low battery reported (" ++ (shown reading.battery_state ++ codes ")"))
                    w₃ u.0 refl)
                  λ _ w₄ r.
                    Returns-bind (begin_recovery_phase_locked-Returns c std t false w₄ r.0)
                      λ _ w₅ b.
                        Returns-mono (record_measurement_locked-Returns c std t w₅ b.0)
                          (λ _ w' m. ground arith)

  -- A low battery in a recovery ends as `Low` says.
  pub transition_low_during_recovery_locked-Returns :
      (reading : BatteryReading) (w : World)
      → IsValid w
      → Returns
          (λ (_ : Done) w'. Low c t w w')
          (transition_low_during_recovery_locked c t reading w)
  unfolding transition_low_during_recovery_locked is_blank
  transition_low_during_recovery_locked-Returns reading w v =
      Returns-bind (end_phase_locked-Returns t (codes "low_battery_detected") w v) λ _ w₂ e.
        Returns-bind (update-Returns t (set_state stopped_low_battery) _ w₂ e.0 (ground arith))
          λ _ w₃ u.
            Returns-bind
              (record_event_locked-Returns t warning (codes "battery")
                (codes "Low battery reported during recovery ("
                  ++ (shown reading.battery_state ++ codes ")"))
                w₃ u.0 refl)
              λ _ w₄ r.
                Returns-bind (begin_recovery_phase_locked-Returns c std t false w₄ r.0) λ _ w₅ b.
                  Returns-mono (record_measurement_locked-Returns c std t w₅ b.0)
                    (λ _ w' m. ground arith)

  error_tail :
      (message : Text) (w : World)
      → IsValid w
      → is_blank message ≡ false
      → Returns
          (λ (_ : Done) w'. Failed message t w w')
          ((do
            end_phase_locked t (codes "error")
            update t (
                set_state stopped_error
                ∷ set_phase_started_at_utc none
                ∷ set_phase_deadline_at_utc none
                ∷ set_stop_reason (some StopReason.error)
                ∷ set_latest_error (some message)
                ∷ [])
            record_event_locked t Types.Level.error (codes "experiment") message
            record_measurement_locked c t)
            w)
  error_tail message w v h = Returns-bind (end_phase_locked-Returns t (codes "error") w v) λ _ w₂ e.
      Returns-bind (update-Returns t (set_state stopped_error) _ w₂ e.0 (ground arith)) λ _ w₃ u.
        Returns-bind
          (record_event_locked-Returns t Types.Level.error (codes "experiment") message w₃ u.0 h)
          λ _ w₄ r.
            Returns-mono (record_measurement_locked-Returns c std t w₄ r.0) (λ _ w' m. ground arith)

  -- For a standard configuration, a valid world and a message that is not blank: the error
  -- transition returns in a valid world with the same run, stage, counters, generation and runner
  -- task; the run is stopped for an error with the message in its row, no deadline and no held
  -- phase.
  pub transition_error_locked-Returns :
      (message : Text) (w : World)
      → IsValid w
      → is_blank message ≡ false
      → Returns (λ (_ : Done) w'. Failed message t w w') (transition_error_locked c t message w)
  unfolding transition_error_locked
  transition_error_locked-Returns message w v h = elim (Bool-cases (is_active w.run.state)) [
    | inl active ↦ rw active (
        Returns-bind
          (Returns-bind (checkpoint_active_locked-Returns t w v)
            λ _ w₁ k. Returns-pure {Q = λ _ w₂. Checked w w₂} tt _ (ground arith))
          λ _ w₂ k. Returns-mono (error_tail message w₂ k.valid h) (λ _ w' f. ground arith))
    | inr idle ↦ rw idle (error_tail message w v h)
  ]

  begin_next_test-Returns :
      (w : World)
      → IsValid w
      → w.run.current_test_number ≢ 4
      → Returns
          (λ (_ : Done) w'. Advanced t w w')
          (begin_next_test c t (w.run.current_test_number + 1) w)
  unfolding active_state
  begin_next_test-Returns w v ne =
      let n = w.run.current_test_number in
      let (x, e, k) = test-IsStandard c (n + 1) std (ground arith) in
      rw e (
        Returns-bind (update-Returns t (set_state (active_state x.kind)) _ w v (ground arith))
          λ _ w₁ u.
            Returns-mono (begin_active_locked-Returns c std t false false w₁ u.0 (ground arith))
              (λ _ w' b. ground arith))

  pub advance_after_recovery_locked-Returns :
      (w : World)
      → IsValid w
      → Returns (λ (_ : Done) w'. Advanced t w w') (advance_after_recovery_locked c t w)
  unfolding advance_after_recovery_locked
  advance_after_recovery_locked-Returns w v =
      let l : length c.tests ≡ 4 = ap length std.all in
      elim (Bool-cases (leb (length c.tests) w.run.current_test_number)) [
        | inl at_end ↦ rw at_end (
            Returns-mono (update-Returns t (set_state completed) _ w v (ground arith))
              (λ _ w' h. ground arith))
        | inr before ↦ rw before (begin_next_test-Returns w v (ground arith))
      ]

  note_failure-Returns :
      (limit_text message : Text) (started : Option Time) (w : World)
      → IsValid w
      → w.outage_started ≡ started
      → Returns (λ fatal w'. Noted c t fatal w w') (note_failure c t limit_text message started w)
  unfolding is_blank
  note_failure-Returns limit_text message none w v o = Returns-pure false _ (ground arith)
  note_failure-Returns limit_text message (some s) w v o =
      elim (Bool-cases (leb c.fatal_outage_seconds (t.mono - s))) [
        | inl over ↦ rw over (
            Returns-bind
              (transition_error_locked-Returns
                (codes "Critical adapter outage exceeded "
                  ++ (limit_text ++ (codes ": " ++ message)))
                w v refl)
              λ _ w' f. Returns-pure true _ (ground arith))
        | inr within ↦ rw within (Returns-pure false _ (ground arith))
      ]

  -- For a standard configuration and a valid world: noting a failure returns in a valid world with
  -- the same run, stage, counters, generation and runner task; the result is true exactly when an
  -- outage was running and has lasted the limit, and then the run is stopped for an error;
  -- otherwise the run is as it was, and the outage runs on from where it began, or from now if
  -- there was none.
  pub note_failure_locked-Returns :
      (limit_text message : Text) (w : World)
      → IsValid w
      → Returns (λ fatal w'. Noted c t fatal w w') (note_failure_locked c t limit_text message w)
  unfolding note_failure_locked
  note_failure_locked-Returns limit_text message w v =
      note_failure-Returns limit_text message w.outage_started w v refl
