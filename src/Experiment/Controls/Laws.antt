-- ===== src/Experiment/Controls/Laws.antt =====
-- What the controls do in a valid world, on every branch.
use blink_battery_benchmark.Common.{
  ◌+◌, ◌≡◌, refl, true, false, not, ◌&&◌, ◌||◌, none, some, ◌++◌, if◌then◌else◌, arith, Bool-cases,
  inl, inr,
}
use blink_battery_benchmark.Text.{codes, is_blank}
use blink_battery_benchmark.Action.{Done, err, ◌>>◌, when, invalid_transition}
use blink_battery_benchmark.Storage.Types.{manual, info, set_state}
use blink_battery_benchmark.Config.Types.{ExperimentConfig}
use blink_battery_benchmark.Experiment.State.{stopped_manual, value, is_active, is_recovering}
use blink_battery_benchmark.Experiment.World.{Instant, World}
use blink_battery_benchmark.Experiment.Phases.{elapsed_active, checkpoint_active_locked}
use blink_battery_benchmark.Experiment.Transitions.{clear_anchor}
use blink_battery_benchmark.Experiment.Controls.{detach_runner_locked, stop}
use blink_battery_benchmark.Experiment.Invariant.{
  IsValid, Returns, Returns-bind, Returns-pure, IsStandard,
}
use blink_battery_benchmark.Experiment.Invariant.Steps.{
  update-Returns, end_phase_locked-Returns, record_event_locked-Returns,
}
use blink_battery_benchmark.Experiment.Invariant.Checkpoints.{checkpoint_active_locked-Returns}
use blink_battery_benchmark.Experiment.Invariant.Phases.{record_measurement_locked-Returns}

-- A run stopped by hand: where it was is written down, with its active time and its deadline.
pub record Stopped (t : Instant) (w w' : World) : Type 0 where
  pub valid : IsValid w'
  pub id : w'.run.id ≡ w.run.id
  pub state : w'.run.state ≡ stopped_manual
  pub stop_reason : w'.run.stop_reason ≡ some (manual w.run.state)
  pub number : w'.run.current_test_number ≡ w.run.current_test_number
  pub elapsed :
      w'.run.active_elapsed_seconds
      ≡ (if is_active w.run.state then elapsed_active w t.mono else w.run.active_elapsed_seconds)
  pub deadline :
      w'.run.phase_deadline_at_utc
      ≡ (if is_recovering w.run.state then w.run.phase_deadline_at_utc else none)
  pub generation : w'.generation ≡ w.generation + 1
  pub task : w'.runner_task ≡ none
  pub phase_id : w'.phase_id ≡ none

-- the part of `stop` and `shutdown` that a checkpoint makes, with the anchor dropped
pub record Settled (t : Instant) (w w' : World) : Type 0 where
  pub valid : IsValid w'
  pub id : w'.run.id ≡ w.run.id
  pub state : w'.run.state ≡ w.run.state
  pub number : w'.run.current_test_number ≡ w.run.current_test_number
  pub elapsed :
      w'.run.active_elapsed_seconds
      ≡ (if is_active w.run.state then elapsed_active w t.mono else w.run.active_elapsed_seconds)
  pub deadline : w'.run.phase_deadline_at_utc ≡ w.run.phase_deadline_at_utc
  pub stop_reason : w'.run.stop_reason ≡ w.run.stop_reason
  pub generation : w'.generation ≡ w.generation
  pub task : w'.runner_task ≡ w.runner_task

pub settle_active :
    (t : Instant) (w : World)
    → IsValid w
    → Returns
        (λ (_ : Done) w'. Settled t w w')
        (when (is_active w.run.state) (do checkpoint_active_locked t; clear_anchor) w)
settle_active t w v = elim (Bool-cases (is_active w.run.state)) [
  | inl active ↦ rw active (
      Returns-bind (checkpoint_active_locked-Returns t w v)
        λ _ w₁ k. Returns-pure {Q = λ _ w'. Settled t w w'} tt _ (ground arith))
  | inr idle ↦ rw idle (Returns-pure {Q = λ _ w'. Settled t w w'} tt w (ground arith))
]

module _ (c : ExperimentConfig) (std : IsStandard c) (t : Instant) where
  -- For a standard configuration, a valid world and an active or recovering state: `stop` returns
  -- the run it leaves, in a valid world: stopped by hand with the old state in `stop_reason`, with
  -- the same stage, with all active time written down, the deadline kept exactly if a recovery
  -- ran, the generation one higher, no runner task and no held phase.
  pub stop-Returns :
      (w : World)
      → IsValid w
      → is_active w.run.state || is_recovering w.run.state ≡ true
      → Returns (λ r w'. (r ≡ w'.run) × Stopped t w w') (stop c t w)
  unfolding stop detach_runner_locked elapsed_active is_blank
  stop-Returns w v s =
      let allowed : not (is_active w.run.state) && not (is_recovering w.run.state) ≡ false =
        ground arith in
      rw allowed (
        Returns-bind (settle_active t w₀ (ground arith)) λ _ w₁ k.
          Returns-bind (end_phase_locked-Returns t (codes "manual_stop") w₁ k.valid) λ _ w₂ e.
            Returns-bind (update-Returns t (set_state stopped_manual) _ w₂ e.0 (ground arith))
              λ _ w₃ u.
                Returns-bind
                  (record_event_locked-Returns t info (codes "experiment")
                    (codes "Experiment stopped manually") w₃ u.0 refl)
                  λ _ w₄ r.
                    Returns-bind (record_measurement_locked-Returns c std t w₄ r.0)
                      λ _ w₅ m. Returns-pure w₅.run w₅ (refl, ground arith))
    where
      w₀ : World
      w₀ = (detach_runner_locked w).1

  -- In a state that is neither active nor recovering, `stop` raises with that state in the message
  -- and changes nothing.
  pub stop_refused :
      (w : World)
      → is_active w.run.state || is_recovering w.run.state ≡ false
      → stop c t w
        ≡ (err (invalid_transition (codes "cannot stop while state is " ++ value w.run.state)), w)
  unfolding stop
  stop_refused w s =
      let refused : not (is_active w.run.state) && not (is_recovering w.run.state) ≡ true =
        ground arith in
      rw refused
