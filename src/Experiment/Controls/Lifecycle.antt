-- ===== src/Experiment/Controls/Lifecycle.antt =====
-- What `restart`, `continue_after_low_battery` and `shutdown` do in a valid world.
use blink_battery_benchmark.Common.{
  ℕ, ◌+◌, ◌≡◌, ◌≢◌, refl, true, false, not, ◌||◌, none, some, [], ◌∷◌, ◌==◌, is_some, arith,
  Bool-cases, inl, inr, ==_refl, Option-cases,
}
use blink_battery_benchmark.Text.{codes}
use blink_battery_benchmark.Action.{Done, ◌>>◌, when}
use blink_battery_benchmark.Storage.Types.{
  BatteryReading, restarted, set_state, set_phase_started_at_utc, set_phase_deadline_at_utc,
  set_stop_reason,
}
use blink_battery_benchmark.Storage.Runs.{new_run, find_run}
use blink_battery_benchmark.Storage.Runs.Laws.{create_run_lem}
use blink_battery_benchmark.Config.Types.{ExperimentConfig}
use blink_battery_benchmark.Experiment.State.{
  not_started, running_snapshot, stopped_manual, completed, is_active,
}
use blink_battery_benchmark.Experiment.World.{Instant, World, update, end_phase_locked}
use blink_battery_benchmark.Experiment.Outage.{reset_stream_tracking_locked}
use blink_battery_benchmark.Experiment.Phases.{elapsed_active}
use blink_battery_benchmark.Experiment.Transitions.Laws.{advance_after_recovery_locked-Returns}
use blink_battery_benchmark.Experiment.Controls.{
  is_running, start_runner_locked, detach_runner_locked, is_settled, close_old_run, restart,
  continue_apply, shutdown,
}
use blink_battery_benchmark.Experiment.Controls.Resume.{runner-Returns}
use blink_battery_benchmark.Experiment.Invariant.{
  counters, IsValid, Returns, Returns-bind, Returns-pure, Returns-mono, IsStandard,
}
use blink_battery_benchmark.Experiment.Invariant.Steps.{update-Returns, end_phase_locked-Returns}
use blink_battery_benchmark.Experiment.Invariant.Checkpoints.{checkpoint_active_locked-Returns}
use blink_battery_benchmark.Experiment.Invariant.Phases.{
  record_measurement_locked-Returns, begin_active_locked-Returns,
}

-- A fresh run at the first stage.
pub record Restarted (w w' : World) : Type 0 where
  pub valid : IsValid w'
  pub id : w'.run.id ≡ w.store.last_run_id + 1
  pub state : w'.run.state ≡ running_snapshot
  pub number : w'.run.current_test_number ≡ 1
  pub elapsed : w'.run.active_elapsed_seconds ≡ 0
  pub counts : counters w'.run ≡ (0, 0, 0, 0)
  pub generation : w'.generation ≡ w.generation + 1
  pub held : is_some w'.phase_id ≡ true
  pub running : is_running w'.runner_task ≡ true

record Closed (w w' : World) : Type 0 where
  valid : IsValid w'
  generation : w'.generation ≡ w.generation
  task : w'.runner_task ≡ w.runner_task
  last_run_id : w'.store.last_run_id ≡ w.store.last_run_id

module _ (c : ExperimentConfig) (std : IsStandard c) (t : Instant) where
  close_tail :
      (w : World)
      → IsValid w
      → Returns
          (λ (_ : Done) w'. Closed w w')
          ((do
            end_phase_locked t (codes "restarted")
            update t (
                set_state stopped_manual
                ∷ set_stop_reason (some restarted)
                ∷ set_phase_started_at_utc none
                ∷ set_phase_deadline_at_utc none
                ∷ []))
            w)
  close_tail w v = Returns-bind (end_phase_locked-Returns t (codes "restarted") w v) λ _ w₁ e.
      elim (Option-cases w.phase_id) [
        | inl n ↦
            Returns-mono (update-Returns t (set_state stopped_manual) _ w₁ e.0 (ground arith))
              (λ _ w' u. ground arith)
        | inr s ↦
            Returns-mono (update-Returns t (set_state stopped_manual) _ w₁ e.0 (ground arith))
              (λ _ w' u. ground arith)
      ]

  -- For a standard configuration and a valid world: `shutdown` returns in a valid world with the
  -- same state, the generation one higher and no runner task; if a test was active, all of its
  -- active time is in the row, and neither a phase nor its start is left.
  pub shutdown-Returns :
      (w : World)
      → IsValid w
      → Returns
          (λ (_ : Done) w'.
            IsValid w'
            × (w'.run.state ≡ w.run.state)
            × (w'.generation ≡ w.generation + 1)
            × (w'.runner_task ≡ none)
            × (is_active w.run.state ≡ true
                → (w'.run.active_elapsed_seconds ≡ elapsed_active w t.mono)
                  × (w'.phase_id ≡ none)
                  × (w'.run.phase_started_at_utc ≡ none)))
          (shutdown c t w)
  unfolding shutdown detach_runner_locked elapsed_active
  shutdown-Returns w v = elim (Bool-cases (is_active w.run.state)) [
    | inl active ↦ rw active (
        Returns-bind (checkpoint_active_locked-Returns t w₀ (ground arith)) λ _ w₁ k.
          Returns-bind
            (end_phase_locked-Returns t (codes "paused_shutdown")
              (record w₁ { active_anchor = none }) (ground arith))
            λ _ w₂ e.
              Returns-mono
                (update-Returns t (set_phase_started_at_utc none) [] w₂ e.0 (ground arith))
                (λ _ w' u. elim (Option-cases w₁.phase_id) [
                  | inl n ↦ ground arith
                  | inr n ↦ ground arith
                ]))
    | inr idle ↦ rw idle (Returns-pure tt w₀ (ground arith))
  ]
    where
      w₀ : World
      w₀ = (detach_runner_locked w).1

  close_old_run-Returns :
      (w : World)
      → IsValid w
      → Returns
          (λ (_ : Done) w'. Closed w w')
          (when (not (is_settled w.run.state)) (close_old_run c t w.run.state) w)
  close_old_run-Returns w v = elim (Bool-cases (not (is_settled w.run.state))) [
    | inr done ↦ rw done (Returns-pure {Q = λ _ w'. Closed w w'} tt w (ground arith))
    | inl open_run ↦ rw open_run (elim (Bool-cases (is_active w.run.state)) [
      | inr idle ↦ rw idle (close_tail w v)
      | inl active ↦ rw active (
          Returns-bind (checkpoint_active_locked-Returns t w v)
            λ _ w₁ k. Returns-mono (close_tail w₁ k.kept.valid) (λ _ w' h. ground arith))
    ])
  ]

  -- For a standard configuration and a valid world: `restart` returns the run it leaves, in a
  -- valid world: a run with a new id in the first stage, running snapshots from active time 0 with
  -- all snapshot counters at 0, with the generation one higher, a held phase and a live runner
  -- task.
  pub restart-Returns :
      (w : World) → IsValid w → Returns (λ r w'. (r ≡ w'.run) × Restarted w w') (restart c t w)
  unfolding restart detach_runner_locked reset_stream_tracking_locked
  restart-Returns w v =
      Returns-bind (close_old_run-Returns (detach_runner_locked w).1 (ground arith)) λ _ w₁ k.
        rw (create_run_lem not_started t.utc w₁.store) (
          Returns-bind
            (update-Returns t (set_state running_snapshot) [] (fresh w₁) (fresh-IsValid w₁ k.valid)
              refl)
            λ _ w₂ u.
              Returns-bind
                (begin_active_locked-Returns c std t false false
                  (record w₂ {
                    active_anchor = none;
                    last_battery = none;
                    outage_started = none;
                    stream_outage_started = none;
                    last_stream_bytes_at = none;
                    pending_stream_valid_seconds = 0;
                    pending_stream_errors = [];
                  })
                  (ground arith) (ground arith))
                λ _ w₃ b.
                  Returns-bind (record_measurement_locked-Returns c std t w₃ b.valid) λ _ w₄ m.
                    Returns-bind (runner-Returns c std t w₄ m.valid)
                      λ _ w₅ r. Returns-pure w₅.run w₅ (refl, ground arith))
    where
      fresh : World → World
      fresh w = record w {
        store = record w.store {
          runs = new_run (w.store.last_run_id + 1) not_started t.utc ∷ w.store.runs;
          last_run_id = w.store.last_run_id + 1;
        };
        run = new_run (w.store.last_run_id + 1) not_started t.utc;
      }

      fresh-IsValid : (w : World) → IsValid w → IsValid (fresh w)
      fresh-IsValid w v = record {
        synced = unfold find_run in rw (==_refl (w.store.last_run_id + 1));
        row = refl;
        phase = v.phase;
        ids = v.ids;
      }

  -- For a standard configuration and a valid world whose run and generation are the ones that were
  -- checked, whatever state its runner has brought it to since: continuing after a low battery
  -- returns the run it leaves, in a valid world, with the generation one higher; after stage 4 the
  -- run is completed, and otherwise the next stage is active from 0, also where the stage was
  -- active and is left unfinished.
  pub continue_apply-Returns :
      (run_id generation : ℕ) (reading : BatteryReading) (w : World)
      → IsValid w
      → w.run.id ≡ run_id
      → w.generation ≡ generation
      → Returns
          (λ r w'.
            (r ≡ w'.run)
            × IsValid w'
            × (w'.generation ≡ w.generation + 1)
            × (w.run.current_test_number ≡ 4 → w'.run.state ≡ completed)
            × (w.run.current_test_number ≢ 4
                → (w'.run.current_test_number ≡ w.run.current_test_number + 1)
                  × (w'.run.active_elapsed_seconds ≡ 0)
                  × (is_active w'.run.state ≡ true)))
          (continue_apply c t run_id generation reading w)
  unfolding continue_apply detach_runner_locked
  continue_apply-Returns run_id generation reading w v i g =
      let same : not (w.run.id == run_id) || not (w.generation == generation) ≡ false =
        ground arith in
      rw same (
        Returns-bind (end_phase_locked-Returns t (codes "continued_early") w₀ (ground arith))
          λ _ w₁ e.
            let k : (w₁.run ≡ w.run) × (w₁.generation ≡ w.generation + 1) =
              elim (Option-cases w.phase_id) [ inl n ↦ ground arith | inr n ↦ ground arith ] in
            Returns-bind (advance_after_recovery_locked-Returns c std t w₁ e.0) λ _ w₂ a.
              Returns-bind (record_measurement_locked-Returns c std t w₂ a.moved.valid) λ _ w₃ m.
                Returns-bind (maybe_runner w₃ m.valid) λ _ w₄ r.
                  Returns-pure w₄.run w₄
                    (refl, r.0, ground arith, λ l. ground arith, λ l. ground arith))
    where
      w₀ : World
      w₀ = (detach_runner_locked (record w { last_battery = some reading })).1

      maybe_runner :
          (w : World)
          → IsValid w
          → Returns
              (λ (_ : Done) w'. IsValid w' × (w'.run ≡ w.run) × (w'.generation ≡ w.generation))
              (when (is_active w.run.state) start_runner_locked w)
      maybe_runner w v = elim (Bool-cases (is_active w.run.state)) [
        | inl on ↦ rw on (Returns-mono (runner-Returns c std t w v) (λ _ w' r. ground arith))
        | inr off ↦ rw off (Returns-pure tt w (ground arith))
      ]
