-- ===== src/Experiment/Controls/Resume.antt =====
-- What `start` does in a valid world, and that it takes up a run where `stop` left it.
use blink_battery_benchmark.Common.{
  ℕ, ◌≡◌, ◌≢◌, refl, Bool, true, false, ◌&&◌, ◌||◌, Option, none, some, [], ◌∷◌, ◌++◌, ◌==◌,
  if◌then◌else◌, is_some, arith, Bool-cases, inl, inr, ◌⊎◌,
}
use blink_battery_benchmark.Text.{codes}
use blink_battery_benchmark.Action.{Done, err, ◌>>◌, invalid_transition}
use blink_battery_benchmark.Storage.Types.{
  RunRecord, set_state, set_phase_deadline_at_utc, set_stop_reason, set_latest_error,
}
use blink_battery_benchmark.Config.Types.{ExperimentConfig, ExperimentTestConfig, snapshot, stream}
use blink_battery_benchmark.Experiment.State.{
  ExperimentState, not_started, running_snapshot, running_stream, stopped_manual, value, is_active,
  is_recovering,
}
use blink_battery_benchmark.Experiment.World.{Instant, World, update}
use blink_battery_benchmark.Experiment.Phases.{elapsed_active, active_state, begin_active_locked}
use blink_battery_benchmark.Experiment.Controls.{
  is_running, start_runner_locked, origin, enter_active, resume_recovery, resume_stopped,
  start_from, start, stop,
}
use blink_battery_benchmark.Experiment.Controls.Laws.{stop-Returns}
use blink_battery_benchmark.Experiment.Invariant.{
  IsValid, Returns, Returns-bind, Returns-pure, Returns-mono, IsStandard, test-IsStandard,
}
use blink_battery_benchmark.Experiment.Invariant.Steps.{update-Returns}
use blink_battery_benchmark.Experiment.Invariant.Phases.{
  record_measurement_locked-Returns, begin_active_locked-Returns,
  begin_recovery_phase_locked-Returns,
}

-- the running state of a stage
abbrev pub stage_state : ℕ → ExperimentState
stage_state n = if n == 4 then running_stream else running_snapshot

-- the state that a run stopped by hand goes on in
abbrev pub resumed_state : Option ExperimentState → Bool → ℕ → ExperimentState
resumed_state none has_deadline n = stage_state n
resumed_state (some st) has_deadline n =
    if is_recovering st && has_deadline then st else stage_state n

-- the state that `start` enters
abbrev pub started_state : RunRecord → ExperimentState → ExperimentState
started_state r stopped_manual =
    resumed_state (origin r.stop_reason) (is_some r.phase_deadline_at_utc) r.current_test_number
started_state r _ = stage_state r.current_test_number

-- A run that was entered: its stage, active time and identity are what they were.
pub record Entered (st : ExperimentState) (w w' : World) : Type 0 where
  pub valid : IsValid w'
  pub id : w'.run.id ≡ w.run.id
  pub state : w'.run.state ≡ st
  pub number : w'.run.current_test_number ≡ w.run.current_test_number
  pub elapsed : w'.run.active_elapsed_seconds ≡ w.run.active_elapsed_seconds
  pub deadline :
      w'.run.phase_deadline_at_utc
      ≡ (if is_recovering st then w.run.phase_deadline_at_utc else none)
  pub held : is_some w'.phase_id ≡ true
  pub generation : w'.generation ≡ w.generation

module _ (c : ExperimentConfig) (std : IsStandard c) (t : Instant) where
  enter_active-Returns :
      (resumed : Bool) (w : World)
      → IsValid w
      → Returns
          (λ (_ : Done) w'. Entered (stage_state w.run.current_test_number) w w')
          (enter_active c t resumed w)
  unfolding active_state
  enter_active-Returns resumed w v =
      let (x, e, k) = test-IsStandard c w.run.current_test_number std (ground arith) in
      rw e (go x k resumed)
    where
      go :
          (x : ExperimentTestConfig)
          → x.kind ≡ (if w.run.current_test_number == 4 then stream else snapshot)
          → (b : Bool)
          → Returns
              (λ (_ : Done) w'. Entered (stage_state w.run.current_test_number) w w')
              ((do
                update t (
                    set_state (active_state x.kind)
                    ∷ set_stop_reason none
                    ∷ set_phase_deadline_at_utc none
                    ∷ (if b then [] else set_latest_error none ∷ []))
                begin_active_locked c t b false)
                w)
      go x k true =
          Returns-bind (update-Returns t (set_state (active_state x.kind)) _ w v (ground arith))
            λ _ w₁ u.
              Returns-mono (begin_active_locked-Returns c std t true false w₁ u.0 (ground arith))
                (λ _ w' b. ground arith)
      go x k false =
          Returns-bind (update-Returns t (set_state (active_state x.kind)) _ w v (ground arith))
            λ _ w₁ u.
              Returns-mono (begin_active_locked-Returns c std t false false w₁ u.0 (ground arith))
                (λ _ w' b. ground arith)

  resume_recovery-Returns :
      (st : ExperimentState) (w : World)
      → IsValid w
      → is_recovering st ≡ true
      → is_some w.run.phase_deadline_at_utc ≡ true
      → Returns (λ (_ : Done) w'. Entered st w w') (resume_recovery c t st w)
  resume_recovery-Returns st w v s d =
      Returns-bind (update-Returns t (set_state st) _ w v (ground arith)) λ _ w₁ u.
        Returns-mono (begin_recovery_phase_locked-Returns c std t true w₁ u.0)
          (λ _ w' b. ground arith)

  resume_stopped-Returns :
      (o : Option ExperimentState) (w : World)
      → IsValid w
      → Returns
          (λ (_ : Done) w'.
            Entered
              (resumed_state o (is_some w.run.phase_deadline_at_utc) w.run.current_test_number)
              w
              w')
          (resume_stopped c t o (is_some w.run.phase_deadline_at_utc) w)
  resume_stopped-Returns none w v = enter_active-Returns true w v
  resume_stopped-Returns (some st) w v =
      elim (Bool-cases (is_recovering st && is_some w.run.phase_deadline_at_utc)) [
        | inl back ↦ rw back (resume_recovery-Returns st w v (ground arith) (ground arith))
        | inr on ↦ rw on (enter_active-Returns true w v)
      ]

  start_from-Returns :
      (st : ExperimentState) (w : World)
      → IsValid w
      → w.run.state ≡ st
      → (st ≡ not_started) ⊎ (st ≡ stopped_manual)
      → Returns (λ (_ : Done) w'. Entered (started_state w.run st) w w') (start_from c t st w.run w)
  start_from-Returns not_started w v e h = enter_active-Returns false w v
  start_from-Returns stopped_manual w v e h = resume_stopped-Returns (origin w.run.stop_reason) w v
  start_from-Returns _ w v e h = absurd (ground arith)

  pub runner-Returns :
      (w : World)
      → IsValid w
      → Returns
          (λ (_ : Done) w'.
            IsValid w'
            × (w'.run ≡ w.run)
            × (w'.phase_id ≡ w.phase_id)
            × (w'.generation ≡ w.generation)
            × (is_running w'.runner_task ≡ true))
          (start_runner_locked w)
  unfolding start_runner_locked
  runner-Returns w v = elim (Bool-cases (is_running w.runner_task)) [
    | inl on ↦ rw on (Returns-pure tt _ (ground arith))
    | inr off ↦ rw off (Returns-pure tt _ (ground arith))
  ]

  -- For a standard configuration, a valid world and a run that is new or was stopped by hand:
  -- `start` returns the run it leaves, in a valid world, with the same run and stage, the state
  -- that is due, the active time as it was, a held phase and a live runner task.
  pub start-Returns :
      (w : World)
      → IsValid w
      → (w.run.state ≡ not_started) ⊎ (w.run.state ≡ stopped_manual)
      → Returns
          (λ r w'.
            (r ≡ w'.run)
            × Entered (started_state w.run w.run.state) w w'
            × (is_running w'.runner_task ≡ true))
          (start c t w)
  unfolding start
  start-Returns w v s = Returns-bind (start_from-Returns w.run.state w v refl s) λ _ w₁ e.
      Returns-bind (record_measurement_locked-Returns c std t w₁ e.valid) λ _ w₂ m.
        Returns-bind (runner-Returns w₂ m.valid)
          λ _ w₃ r. Returns-pure w₃.run w₃ (refl, ground arith, r.4)

  start_from_refused :
      (st : ExperimentState) (w : World)
      → st ≢ not_started
      → st ≢ stopped_manual
      → start_from c t st w.run w
        ≡ (err (invalid_transition (codes "cannot start while state is " ++ value st)), w)
  start_from_refused not_started w a b = absurd (a refl)
  start_from_refused stopped_manual w a b = absurd (b refl)
  start_from_refused _ w a b = refl

  -- `start` in any other state raises and changes nothing.
  pub start_refused :
      (w : World)
      → w.run.state ≢ not_started
      → w.run.state ≢ stopped_manual
      → start c t w
        ≡ (err (invalid_transition (codes "cannot start while state is " ++ value w.run.state)), w)
  unfolding start
  start_refused w a b = rw (start_from_refused w.run.state w a b)

-- For a standard configuration, a valid world and an active or recovering state: `stop` at one
-- instant and then `start` at any other return, in a valid world, to the same run, state and
-- stage, with the active time of the moment of the stop if a test ran and with the same deadline
-- if a recovery ran, and a runner task is alive.
pub start-stop :
    (c : ExperimentConfig) (std : IsStandard c) (stop_at start_at : Instant) (w : World)
    → IsValid w
    → is_active w.run.state || is_recovering w.run.state ≡ true
    → Returns
        (λ _ w'.
          IsValid w'
          × (w'.run.id ≡ w.run.id)
          × (w'.run.state ≡ w.run.state)
          × (w'.run.current_test_number ≡ w.run.current_test_number)
          × (is_active w.run.state ≡ true
              → w'.run.active_elapsed_seconds ≡ elapsed_active w stop_at.mono)
          × (is_recovering w.run.state ≡ true
              → w'.run.phase_deadline_at_utc ≡ w.run.phase_deadline_at_utc)
          × (is_running w'.runner_task ≡ true))
        ((stop c stop_at >> start c start_at) w)
start-stop c std stop_at start_at w v s = Returns-bind (stop-Returns c std stop_at w v s) λ _ w₁ st.
    Returns-mono (start-Returns c std start_at w₁ st.1.valid (inr st.1.state))
      (λ _ w' e. ground arith)
