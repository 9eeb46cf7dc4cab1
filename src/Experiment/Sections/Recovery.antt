-- ===== src/Experiment/Sections/Recovery.antt =====
-- What a poll of the recovery loop does, and the sections that end, checkpoint or fail a test.
use blink_battery_benchmark.Common.{
  ℕ, ◌≡◌, refl, Bool, true, false, not, ◌&&◌, none, some, List, [], ◌++◌, leb, arith, Bool-cases,
  inl, inr,
}
use blink_battery_benchmark.Text.{Text, codes, is_blank}
use blink_battery_benchmark.Action.{Done, Error}
use blink_battery_benchmark.Storage.Types.{Time, BatteryReading, warning, set_latest_error}
use blink_battery_benchmark.Config.Types.{ExperimentConfig}
use blink_battery_benchmark.Experiment.State.{recovery}
use blink_battery_benchmark.Experiment.Battery.{is_low_reading}
use blink_battery_benchmark.Experiment.World.{Instant, World}
use blink_battery_benchmark.Experiment.Transitions.{note_success_locked}
use blink_battery_benchmark.Experiment.Transitions.Laws.{
  Finished, Low, Failed, Advanced, finish_active_locked-Returns,
  transition_low_during_recovery_locked-Returns, transition_error_locked-Returns,
  advance_after_recovery_locked-Returns,
}
use blink_battery_benchmark.Experiment.Controls.{Outcome, returned, raised}
use blink_battery_benchmark.Experiment.Sections.{
  is_stale, is_recovery, recovery_failed, recovery_read, recovery_poll, finish_section,
  checkpoint_section, measurement_section, runner_failed,
}
use blink_battery_benchmark.Experiment.Invariant.{
  IsValid, Returns, Returns-bind, Returns-pure, Returns-mono, IsStandard,
}
use blink_battery_benchmark.Experiment.Invariant.Steps.{
  update-Returns, end_phase_locked-Returns, record_event_locked-Returns,
}
use blink_battery_benchmark.Experiment.Invariant.Checkpoints.{
  Checkpointed, checkpoint_active_locked-Returns,
}
use blink_battery_benchmark.Experiment.Invariant.Phases.{record_measurement_locked-Returns}

-- How a reading moves a recovery on: it waits, it becomes a low-battery recovery, or it is over.
pub data Recovered (c : ExperimentConfig) (t : Instant) (low : List Text) (deadline : Time)
    (reading : BatteryReading) (leave : Bool) (w w' : World) : Type 0 where
  waits :
      leave ≡ false
      → w'.run.state ≡ w.run.state
      → w'.run.phase_deadline_at_utc ≡ w.run.phase_deadline_at_utc
      → leb deadline t.utc && not (is_low_reading low reading) ≡ false
      → Recovered c t low deadline reading leave w w'
  turns_low :
      leave ≡ true
      → is_low_reading low reading ≡ true
      → w.run.state ≡ recovery
      → Low c t w w'
      → Recovered c t low deadline reading leave w w'
  is_over :
      leave ≡ true
      → leb deadline t.utc ≡ true
      → is_low_reading low reading ≡ false
      → Advanced t w w'
      → Recovered c t low deadline reading leave w w'

module _ (c : ExperimentConfig) (std : IsStandard c) (low : List Text) (limit_text : Text)
    (t : Instant) where
  recovery_failed-Returns :
      (exc : Text) (w : World)
      → IsValid w
      → Returns
          (λ leave w'. (leave ≡ false) × IsValid w' × (w'.run.state ≡ w.run.state))
          (recovery_failed c low limit_text t exc w)
  unfolding is_blank
  recovery_failed-Returns exc w v =
      Returns-bind (update-Returns t (set_latest_error (some exc)) [] w v v.row) λ _ w₁ u.
        Returns-bind
          (record_event_locked-Returns t warning (codes "battery")
            (codes "Recovery battery refresh failed: " ++ exc) w₁ u.0 refl)
          λ _ w₂ r.
            Returns-bind (record_measurement_locked-Returns c std t w₂ r.0)
              λ _ w₃ m. Returns-pure false _ (ground arith)

  -- For a standard configuration and a valid world: a reading during a recovery returns in a valid
  -- world, and one of three things holds: the loop goes on with state and deadline as they were,
  -- and the deadline is not past or the reading is low; or the reading is low, the state was the
  -- plain recovery and the run is now stopped for its battery with a new deadline; or the deadline
  -- is past, the reading is not low and the run has advanced, to completed after stage 4 or else
  -- to the next stage.
  pub recovery_read-Returns :
      (deadline : Time) (reading : BatteryReading) (w : World)
      → IsValid w
      → Returns
          (λ leave w'. IsValid w' × Recovered c t low deadline reading leave w w')
          (recovery_read c low limit_text t deadline reading w)
  unfolding note_success_locked
  recovery_read-Returns deadline reading w v =
      Returns-bind (record_measurement_locked-Returns c std t w₀ (ground arith)) λ _ w₁ m.
        elim (Bool-cases (is_low_reading low reading && is_recovery w₁.run.state)) [
          | inl turns ↦ rw turns (
              Returns-bind
                (transition_low_during_recovery_locked-Returns c std t reading w₁ m.valid)
                λ _ w₂ l. Returns-pure true _ (
                  l.moved.valid,
                  Recovered.turns_low refl (ground arith) (ground arith) (ground arith),
                ))
          | inr other ↦
              rw other (elim (Bool-cases (leb deadline t.utc && not (is_low_reading low reading))) [
                | inl over ↦ rw over (
                    Returns-bind (end_phase_locked-Returns t (codes "completed") w₁ m.valid)
                      λ _ w₂ e.
                        Returns-bind (advance_after_recovery_locked-Returns c std t w₂ e.0)
                          λ _ w₃ a. Returns-pure true _ (
                            a.moved.valid,
                            Recovered.is_over refl (ground arith) (ground arith) (ground arith),
                          ))
                | inr early ↦ rw early (
                    Returns-pure false _
                      (m.valid, Recovered.waits refl (ground arith) (ground arith) early))
              ])
        ]
    where
      w₀ : World
      w₀ = record w { last_battery = some reading; outage_started = none }

  -- A poll of the recovery loop, with a reading or without one, for a runner that is not stale.
  pub recovery_poll-Returns :
      (generation : ℕ) (deadline : Time) (outcome : Outcome BatteryReading) (w : World)
      → IsValid w
      → is_stale generation w ≡ false
      → Returns
          (λ leave w'. IsValid w')
          (recovery_poll c low limit_text t generation deadline outcome w)
  unfolding recovery_poll
  recovery_poll-Returns generation deadline (returned reading) w v fresh =
      rw fresh (Returns-mono (recovery_read-Returns deadline reading w v) (λ _ _ h. h.0))
  recovery_poll-Returns generation deadline (raised _ exc) w v fresh =
      rw fresh (Returns-mono (recovery_failed-Returns exc w v) (λ _ _ h. h.1))

  pub finish_section-Returns :
      (generation : ℕ) (w : World)
      → IsValid w
      → is_stale generation w ≡ false
      → Returns
          (λ (_ : Done) w'. Finished c t w w')
          (finish_section c low limit_text t generation w)
  unfolding finish_section
  finish_section-Returns generation w v fresh = rw fresh (finish_active_locked-Returns c std t w v)

  pub checkpoint_section-Returns :
      (generation : ℕ) (w : World)
      → IsValid w
      → is_stale generation w ≡ false
      → Returns
          (λ go w'. (go ≡ true) × Checkpointed t w w')
          (checkpoint_section c low limit_text t generation w)
  unfolding checkpoint_section
  checkpoint_section-Returns generation w v fresh = rw fresh (
      Returns-bind (checkpoint_active_locked-Returns t w v)
        λ _ w' k. Returns-pure true w' (refl, k))

  pub measurement_section-Returns :
      (generation : ℕ) (w : World)
      → IsValid w
      → is_stale generation w ≡ false
      → Returns
          (λ go w'. (go ≡ true) × IsValid w')
          (measurement_section c low limit_text t generation w)
  unfolding measurement_section
  measurement_section-Returns generation w v fresh = rw fresh (
      Returns-bind (checkpoint_active_locked-Returns t w v) λ _ w₁ k.
        Returns-bind (record_measurement_locked-Returns c std t w₁ k.kept.valid)
          λ _ w₂ m. Returns-pure true w₂ (refl, m.valid))

  -- A runner that fails stops the run, with the exception in the message.
  pub runner_failed-Returns :
      (describe : Error → Text) (generation : ℕ) (exc : Error) (w : World)
      → IsValid w
      → is_stale generation w ≡ false
      → Returns
          (λ (_ : Done) w'. Failed (codes "experiment runner failed: " ++ describe exc) t w w')
          (runner_failed c low limit_text t describe generation exc w)
  unfolding runner_failed is_blank
  runner_failed-Returns describe generation exc w v fresh =
      rw fresh (transition_error_locked-Returns c std t _ w v refl)
