-- ===== src/Experiment/Sections/Stale.antt =====
-- The guards of the sections against a runner of an earlier generation.
use blink_battery_benchmark.Common.{ℕ, ◌≡◌, true, false, ltb, Bool-cases, inl, inr, List}
use blink_battery_benchmark.Text.{Text}
use blink_battery_benchmark.Action.{Done, Error, ok}
use blink_battery_benchmark.Storage.Types.{Time, BatteryReading}
use blink_battery_benchmark.Config.Types.{ExperimentConfig}
use blink_battery_benchmark.Experiment.World.{Instant, World}
use blink_battery_benchmark.Experiment.Controls.{Outcome}
use blink_battery_benchmark.Experiment.Sections.{
  is_stale, capture_attempt, capture_outcome, poll_battery, recovery_poll, finish_section,
  checkpoint_section, measurement_section, on_bytes, on_reconnect, on_error, runner_failed,
}

-- Once the generation has moved on, each section named here that the old runner calls changes nothing
-- and does not raise, for any outcome of its call, and tells its loop to leave.
pub stale_sections :
    (c : ExperimentConfig) (low : List Text) (limit_text : Text) (t : Instant) (generation : ℕ)
    (w : World)
    → is_stale generation w ≡ true
    → (capture_attempt c low limit_text t generation w ≡ (ok false, w))
      × ((o : Outcome Done) → capture_outcome c low limit_text t generation o w ≡ (ok tt, w))
      × ((o : Outcome BatteryReading)
          → poll_battery c low limit_text t generation o w ≡ (ok true, w))
      × ((d : Time) (o : Outcome BatteryReading)
          → recovery_poll c low limit_text t generation d o w ≡ (ok true, w))
      × (finish_section c low limit_text t generation w ≡ (ok tt, w))
      × (checkpoint_section c low limit_text t generation w ≡ (ok false, w))
      × (measurement_section c low limit_text t generation w ≡ (ok false, w))
      × ((n : ℕ) → on_bytes c low limit_text t generation n w ≡ (ok tt, w))
      × (on_reconnect c low limit_text t generation w ≡ (ok tt, w))
      × ((k m : Text) → on_error c low limit_text t generation k m w ≡ (ok tt, w))
      × ((d : Error → Text) (e : Error)
          → runner_failed c low limit_text t d generation e w ≡ (ok tt, w))
unfolding capture_attempt capture_outcome poll_battery recovery_poll finish_section
    checkpoint_section measurement_section on_bytes on_reconnect on_error runner_failed
stale_sections c low limit_text t generation w h = (
  rw h,
  λ o. rw h,
  λ o. rw h,
  λ d o. rw h,
  rw h,
  rw h,
  rw h,
  λ n. elim (Bool-cases (ltb 0 n)) [ inl p ↦ rw (p, h) | inr p ↦ rw p ],
  rw h,
  λ k m. rw h,
  λ d e. rw h,
)
