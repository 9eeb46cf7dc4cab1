-- ===== src/Experiment/Reach/Progress.antt =====
-- A run that the sections of src/blink_dashboard/experiment.py drive through the stages that are left.
use blink_battery_benchmark.Common.{
  ℕ, zero, suc, ◌+◌, ◌≤◌, ◌≡◌, ◌≢◌, Bool, false, none, some, List, arith, subst, ◌∙◌,
}
use blink_battery_benchmark.Text.{Text}
use blink_battery_benchmark.Action.{Done, gets, ◌>>=◌, ◌>>◌}
use blink_battery_benchmark.Storage.Types.{Time, BatteryReading}
use blink_battery_benchmark.Config.Types.{ExperimentConfig}
use blink_battery_benchmark.Experiment.State.{completed}
use blink_battery_benchmark.Experiment.Battery.{is_low_reading}
use blink_battery_benchmark.Experiment.World.{Instant, World, M}
use blink_battery_benchmark.Experiment.Controls.{returned}
use blink_battery_benchmark.Experiment.Sections.{is_stale, finish_section, recovery_poll}
use blink_battery_benchmark.Experiment.Sections.Recovery.{
  Recovered, waits, turns_low, is_over, finish_section-Returns, recovery_read-Returns,
}
use blink_battery_benchmark.Experiment.Invariant.{
  IsStandard, IsValid, Returns, Returns-bind, Returns-mono,
}

abbrev deadline_of : World → Time
deadline_of w = elim w.run.phase_deadline_at_utc [ none ↦ 0 | some d ↦ d ]

module _ (c : ExperimentConfig) (low : List Text) (limit_text : Text) (times : ℕ → Instant)
    (reading : BatteryReading) (generation : ℕ) where
  -- the end of a test, then for each stage that is left a poll of the recovery and the end of its test
  unfoldable pub drive : ℕ → ℕ → M Done
  drive zero i = finish_section c low limit_text (times i) generation
  drive (suc left) i = do
    finish_section c low limit_text (times i) generation
    deadline ← gets deadline_of
    recovery_poll c low limit_text (times (i + 1)) generation deadline (returned reading)
    drive left (i + 2)

-- What one recovery of a driven run leaves: the next stage, active.
record Resumed (w w' : World) : Type 0 where
  valid : IsValid w'
  id : w'.run.id ≡ w.run.id
  number : w'.run.current_test_number ≡ w.run.current_test_number + 1
  generation : w'.generation ≡ w.generation

module _ (c : ExperimentConfig) (std : IsStandard c) (low : List Text) (limit_text : Text) where
  Recovered-Resumed :
      (t : Instant) (deadline : Time) (reading : BatteryReading) (leave : Bool) (w w' : World)
      → deadline ≤ t.utc
      → is_low_reading low reading ≡ false
      → w.run.current_test_number ≢ 4
      → IsValid w'
      → Recovered c t low deadline reading leave w w'
      → Resumed w w'
  Recovered-Resumed t deadline reading leave w w' d full ne v (waits _ _ _ early) = ground arith
  Recovered-Resumed t deadline reading leave w w' d full ne v (turns_low _ l _ _) = ground arith
  Recovered-Resumed t deadline reading leave w w' d full ne v (is_over _ _ _ a) = ground arith

  recovery-Resumed :
      (t : Instant) (deadline : Time) (reading : BatteryReading) (generation : ℕ) (w : World)
      → IsValid w
      → is_stale generation w ≡ false
      → deadline ≤ t.utc
      → is_low_reading low reading ≡ false
      → w.run.current_test_number ≢ 4
      → Returns
          (λ (_ : Bool) w'. Resumed w w')
          (recovery_poll c low limit_text t generation deadline (returned reading) w)
  unfolding recovery_poll
  recovery-Resumed t deadline reading generation w v fresh past full ne = rw fresh (
      Returns-mono (recovery_read-Returns c std low limit_text t deadline reading w v)
        (λ leave w' h. Recovered-Resumed t deadline reading leave w w' past full ne h.0 h.1))

  -- For a standard configuration and a valid world in which `left` stages follow the current one:
  -- if the times at hand are at least a recovery's length apart, one after the other, and the
  -- reading is not low, then ending the current test, and polling and ending each test that is
  -- left, returns in a valid world with the same run completed in stage 4.
  pub drive-completed :
      (times : ℕ → Instant) (reading : BatteryReading) (left i : ℕ) (w : World)
      → IsValid w
      → w.run.current_test_number + left ≡ 4
      → is_low_reading low reading ≡ false
      → ((j : ℕ) → (times j).utc + c.recovery_duration_seconds ≤ (times (j + 1)).utc)
      → Returns
          (λ (_ : Done) w'.
            IsValid w'
            × (w'.run.id ≡ w.run.id)
            × (w'.run.state ≡ completed)
            × (w'.run.current_test_number ≡ 4))
          (drive c low limit_text times reading w.generation left i w)
  unfolding drive
  drive-completed times reading zero i w v n full spaced =
      Returns-mono
        (finish_section-Returns c std low limit_text (times i) w.generation w v (ground arith))
        (λ _ w' f. ground arith)
  drive-completed times reading (suc left) i w v n full spaced =
      Returns-bind
        (finish_section-Returns c std low limit_text (times i) w.generation w v (ground arith))
        λ _ w₁ f.
          let r = f.recovers (ground arith) in
          let late = spaced i in
          let past : deadline_of w₁ ≤ (times (i + 1)).utc = ground arith in
          Returns-bind
            (recovery-Resumed (times (i + 1)) (deadline_of w₁) reading w.generation w₁ f.moved.valid
              (ground arith) past full (ground arith))
            λ _ w₂ s.
              Returns-mono
                (subst
                  (λ g.
                    Returns
                      (λ (_ : Done) w'.
                        IsValid w'
                        × (w'.run.id ≡ w₂.run.id)
                        × (w'.run.state ≡ completed)
                        × (w'.run.current_test_number ≡ 4))
                      (drive c low limit_text times reading g left (i + 2) w₂))
                  (s.generation ∙ f.moved.generation)
                  (drive-completed times reading left (i + 2) w₂ s.valid (ground arith) full
                    spaced))
                (λ _ w' h. ground arith)
