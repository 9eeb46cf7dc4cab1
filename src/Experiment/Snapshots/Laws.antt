-- ===== src/Experiment/Snapshots/Laws.antt =====
-- A round of the snapshot loop in a valid world.
use blink_battery_benchmark.Common.{
  ℕ, ◌+◌, ◌≤◌, ◌<◌, ◌≡◌, refl, true, false, ◌&&◌, some, List, leb, if◌then◌else◌, arith, Bool-cases,
  inl, inr,
}
use blink_battery_benchmark.Text.{Text}
use blink_battery_benchmark.Action.{ok}
use blink_battery_benchmark.Storage.Types.{Time}
use blink_battery_benchmark.Config.Types.{ExperimentConfig, test_duration}
use blink_battery_benchmark.Experiment.World.{Instant, World}
use blink_battery_benchmark.Experiment.Phases.{elapsed_active}
use blink_battery_benchmark.Experiment.Schedule.Laws.{advance_deadline-past}
use blink_battery_benchmark.Experiment.Sections.{is_stale}
use blink_battery_benchmark.Experiment.Sections.Recovery.{
  finish_section-Returns, checkpoint_section-Returns, measurement_section-Returns,
}
use blink_battery_benchmark.Experiment.Transitions.Laws.{Finished}
use blink_battery_benchmark.Experiment.Invariant.{
  IsValid, Returns, Returns-bind, Returns-pure, IsStandard, test-IsStandard,
}
use blink_battery_benchmark.Experiment.Snapshots.{
  SnapshotLoop, leaves, polls, goes_on, snapshot_top, snapshot_checkpoint, snapshot_measure,
  snapshot_delay, snapshot_rest,
}

-- a stage of a standard configuration lasts the configured time
pub test_duration-IsStandard :
    (c : ExperimentConfig) (n : ℕ)
    → IsStandard c
    → (leb 1 n && leb n 4) ≡ true
    → test_duration c n ≡ ok c.test_duration_seconds
unfolding test_duration
test_duration-IsStandard c n std h = let (x, e, k) = test-IsStandard c n std h in rw e refl

module _ (c : ExperimentConfig) (std : IsStandard c) (low : List Text) (limit_text : Text)
    (t : Instant) where
  -- For a standard configuration, a valid world and a runner of the current generation, in every
  -- state of the run, a stop for an error too: the top of the snapshot loop finishes the test and
  -- leaves if the active time has reached the duration, and otherwise changes nothing and polls
  -- the battery exactly if that is due.
  pub snapshot_top-Returns :
      (generation : ℕ) (loop : SnapshotLoop) (w : World)
      → IsValid w
      → is_stale generation w ≡ false
      → Returns
          (λ top w'.
            (c.test_duration_seconds ≤ elapsed_active w t.mono → (top ≡ leaves) × Finished c t w w')
            × (elapsed_active w t.mono < c.test_duration_seconds
                → (w' ≡ w) × (top ≡ (if leb loop.next_battery t.mono then polls else goes_on))))
          (snapshot_top c low limit_text t generation loop w)
  unfolding snapshot_top
  snapshot_top-Returns generation loop w v fresh =
      let d = test_duration-IsStandard c w.run.current_test_number std (ground arith) in
      elim (Bool-cases (leb c.test_duration_seconds (elapsed_active w t.mono))) [
        | inl over ↦
            rw (fresh, d, over)
              (Returns-bind (finish_section-Returns c std low limit_text t generation w v fresh)
                λ _ w₁ f. Returns-pure leaves w₁ (λ _. (refl, f), λ l. ground arith))
        | inr early ↦ rw (fresh, d, early) (Returns-pure _ w (λ l. ground arith, λ _. (refl, refl)))
      ]

  checkpoint-Returns :
      (generation : ℕ) (loop : SnapshotLoop) (w : World)
      → 0 < c.stream_checkpoint_seconds
      → IsValid w
      → is_stale generation w ≡ false
      → Returns
          (λ o w'.
            IsValid w'
            × (is_stale generation w' ≡ false)
            × ((l : SnapshotLoop) × (o ≡ some l) × (t.mono < l.next_checkpoint)))
          (snapshot_checkpoint c low limit_text t generation loop w)
  unfolding snapshot_checkpoint
  checkpoint-Returns generation loop w p v fresh =
      elim (Bool-cases (leb loop.next_checkpoint t.mono)) [
        | inl over ↦
            let a =
              advance_deadline-past t.mono loop.next_checkpoint c.stream_checkpoint_seconds p in
            rw over (
              Returns-bind (checkpoint_section-Returns c std low limit_text t generation w v fresh)
                λ go w₁ k.
                  rw k.0 (Returns-pure _ w₁ (k.1.kept.valid, ground arith, (_, refl, a.0))))
        | inr early ↦ rw early (Returns-pure _ w (v, fresh, (loop, refl, ground arith)))
      ]

  measure-Returns :
      (generation : ℕ) (loop : SnapshotLoop) (w : World)
      → 0 < c.measurement_interval_seconds
      → IsValid w
      → is_stale generation w ≡ false
      → Returns
          (λ o w'.
            IsValid w'
            × ((l : SnapshotLoop) × (o ≡ some l)
                × (t.mono < l.next_measurement)
                × (l.next_checkpoint ≡ loop.next_checkpoint)))
          (snapshot_measure c low limit_text t generation loop w)
  unfolding snapshot_measure
  measure-Returns generation loop w p v fresh =
      elim (Bool-cases (leb loop.next_measurement t.mono)) [
        | inl over ↦
            let a =
              advance_deadline-past t.mono loop.next_measurement c.measurement_interval_seconds p in
            rw over (
              Returns-bind (measurement_section-Returns c std low limit_text t generation w v fresh)
                λ go w₁ k. rw k.0 (Returns-pure _ w₁ (k.1, (_, refl, a.0, refl))))
        | inr early ↦ rw early (Returns-pure _ w (v, (loop, refl, ground arith, refl)))
      ]

  -- For a standard configuration with intervals above 0, a valid world and a runner of the current
  -- generation: the end of a round of the snapshot loop returns in a valid world with the
  -- variables of the loop and a delay; the next checkpoint and the next measurement lie past the
  -- clock, and the delay ends at neither of them late.
  pub snapshot_rest-Returns :
      (generation : ℕ) (loop : SnapshotLoop) (w : World)
      → 0 < c.stream_checkpoint_seconds
      → 0 < c.measurement_interval_seconds
      → IsValid w
      → is_stale generation w ≡ false
      → Returns
          (λ o w'.
            IsValid w'
            × ((l : SnapshotLoop) × (delay : Time) × (o ≡ some (l, delay))
                × (t.mono < l.next_checkpoint)
                × (t.mono < l.next_measurement)
                × (t.mono + delay ≤ l.next_checkpoint)
                × (t.mono + delay ≤ l.next_measurement)))
          (snapshot_rest c low limit_text t generation loop w)
  unfolding snapshot_rest snapshot_delay
  snapshot_rest-Returns generation loop w p q v fresh =
      Returns-bind (checkpoint-Returns generation loop w p v fresh) λ o₁ w₁ k.
        let (l₁, e₁, past₁) = k.2 in
        rw e₁ (
          Returns-bind (measure-Returns generation l₁ w₁ q k.0 k.1) λ o₂ w₂ m.
            let (l₂, e₂, past₂, same) = m.1 in
            let d = test_duration-IsStandard c w₂.run.current_test_number std (ground arith) in
            rw (e₂, d)
              (Returns-pure _ w₂
                (m.0, (l₂, _, refl, omega arith, past₂, omega arith, omega arith))))
