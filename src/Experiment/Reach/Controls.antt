-- ===== src/Experiment/Reach/Controls.antt =====
-- The controls leave a valid world, whether they return or raise.
use blink_battery_benchmark.Common.{
  ℕ, ◌≡◌, refl, true, false, not, ◌||◌, Option, List, arith, Bool-cases, inl, inr, ◌==◌, ◌⊎◌, ◌≢◌,
}
use blink_battery_benchmark.Text.{Text}
use blink_battery_benchmark.Action.{Result, ok}
use blink_battery_benchmark.Storage.Types.{Time, BatteryReading}
use blink_battery_benchmark.Config.Types.{ExperimentConfig}
use blink_battery_benchmark.Experiment.State.{
  ExperimentState, running_snapshot, running_stream, recovery, completed, stopped_low_battery,
  stopped_error, not_started, stopped_manual, is_active, is_recovering,
}
use blink_battery_benchmark.Experiment.World.{Instant, World}
use blink_battery_benchmark.Experiment.Controls.{start, stop, continue_apply}
use blink_battery_benchmark.Experiment.Controls.Laws.{stop-Returns, stop_refused}
use blink_battery_benchmark.Experiment.Controls.Resume.{start-Returns, start_refused}
use blink_battery_benchmark.Experiment.Controls.Lifecycle.{continue_apply-Returns}
use blink_battery_benchmark.Experiment.Sections.{is_stale}
use blink_battery_benchmark.Experiment.Invariant.{IsStandard, IsValid}
use blink_battery_benchmark.Experiment.Invariant.Leaves.{
  Leaves, Leaves-of_Returns, Leaves-pure, Leaves-raise,
}

pub startable :
    (st : ExperimentState)
    → ((st ≡ not_started) ⊎ (st ≡ stopped_manual)) ⊎ ((st ≢ not_started) × (st ≢ stopped_manual))
startable not_started = inl (inl refl)
startable stopped_manual = inl (inr refl)
startable running_snapshot = inr (ground arith)
startable running_stream = inr (ground arith)
startable recovery = inr (ground arith)
startable completed = inr (ground arith)
startable stopped_low_battery = inr (ground arith)
startable stopped_error = inr (ground arith)

module _ (c : ExperimentConfig) (std : IsStandard c) (low : List Text) (limit_text : Text)
    (describe : Text → Text → Text) (seconds_text : Option Time → Text) (t : Instant) where
  -- by whether the runner of a section is stale: then nothing is written
  pub guarded :
      {A : Type 0} (generation : ℕ) (w : World) (a : A) (r : Result A × World)
      → IsValid w
      → (is_stale generation w ≡ true → r ≡ (ok a, w))
      → (is_stale generation w ≡ false → Leaves r)
      → Leaves r
  guarded generation w a r v stale fresh = elim (Bool-cases (is_stale generation w)) [
    | inl old ↦ rw (stale old) (Leaves-pure a w v)
    | inr now ↦ fresh now
  ]

  pub start-Leaves : (w : World) → IsValid w → Leaves (start c t w)
  start-Leaves w v = elim (startable w.run.state) [
    | inl s ↦ Leaves-of_Returns (start-Returns c std t w v s) (λ _ _ h. h.1.valid)
    | inr n ↦ rw (start_refused c std t w n.0 n.1) (Leaves-raise w v)
  ]

  pub stop-Leaves : (w : World) → IsValid w → Leaves (stop c t w)
  stop-Leaves w v = elim (Bool-cases (is_active w.run.state || is_recovering w.run.state)) [
    | inl s ↦ Leaves-of_Returns (stop-Returns c std t w v s) (λ _ _ h. h.1.valid)
    | inr n ↦ rw (stop_refused c std t w n) (Leaves-raise w v)
  ]

  pub continue_apply-Leaves :
      (run_id generation : ℕ) (reading : BatteryReading) (w : World)
      → IsValid w
      → Leaves (continue_apply c t run_id generation reading w)
  unfolding continue_apply
  continue_apply-Leaves run_id generation reading w v =
      elim (Bool-cases (not (w.run.id == run_id) || not (w.generation == generation))) [
        | inl moved ↦ rw moved (Leaves-raise w v)
        | inr same ↦
            Leaves-of_Returns
              (continue_apply-Returns c std t run_id generation reading w v (ground arith)
                (ground arith))
              (λ _ _ h. h.1)
      ]
