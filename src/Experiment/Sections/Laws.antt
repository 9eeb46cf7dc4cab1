-- ===== src/Experiment/Sections/Laws.antt =====
-- Every section of the runner task returns in a valid world and keeps it valid; a stale one changes
-- nothing.
use blink_battery_benchmark.Common.{
  ℕ, ◌+◌, ◌≡◌, refl, Bool, true, false, ◌&&◌, Option, none, some, List, [], ◌++◌, if◌then◌else◌,
  arith, Bool-cases, inl, inr, ◌⊎◌,
}
use blink_battery_benchmark.Text.{Text, codes, is_blank}
use blink_battery_benchmark.Action.{Done}
use blink_battery_benchmark.Storage.Types.{
  BatteryReading, warning, set_latest_error, set_snapshots_attempted, set_snapshots_succeeded,
}
use blink_battery_benchmark.Config.Types.{ExperimentConfig}
use blink_battery_benchmark.Experiment.State.{stopped_low_battery, stopped_error, is_active}
use blink_battery_benchmark.Experiment.Battery.{is_low_reading}
use blink_battery_benchmark.Experiment.World.{Instant, World}
use blink_battery_benchmark.Experiment.Transitions.{note_success_locked}
use blink_battery_benchmark.Experiment.Transitions.Laws.{
  Moved, Low, transition_low_battery_locked-Returns, note_failure_locked-Returns,
}
use blink_battery_benchmark.Experiment.Controls.{Outcome, returned, raised}
use blink_battery_benchmark.Experiment.Sections.{
  is_stale, is_timeout, capture_attempt, capture_failed, capture_succeeded, capture_outcome,
  battery_failed, battery_read, poll_battery,
}
use blink_battery_benchmark.Experiment.Invariant.{
  counters, IsValid, Returns, Returns-bind, Returns-pure, IsStandard,
}
use blink_battery_benchmark.Experiment.Invariant.Steps.{update-Returns, record_event_locked-Returns}
use blink_battery_benchmark.Experiment.Invariant.Phases.{record_measurement_locked-Returns}

-- the counters after the one that the outcome belongs to has gone up
abbrev pub counted : Outcome Done → ℕ × ℕ × ℕ × ℕ → ℕ × ℕ × ℕ × ℕ
counted (returned _) (a, s, f, t) = (a, s + 1, f, t)
counted (raised category _) (a, s, f, t) =
    if is_timeout category then (a, s, f, t + 1) else (a, s, f + 1, t)

-- Exactly one of the three results is counted.
pub record Captured (outcome : Outcome Done) (w w' : World) : Type 0 where
  pub valid : IsValid w'
  pub generation : w'.generation ≡ w.generation
  pub number : w'.run.current_test_number ≡ w.run.current_test_number
  pub counts : counters w'.run ≡ counted outcome (counters w.run)
  pub state : (w'.run.state ≡ w.run.state) ⊎ (w'.run.state ≡ stopped_error)

-- What a battery poll does: a low reading stops an active test, a failure stops it after the limit.
pub record Polled (low : List Text) (outcome : Outcome BatteryReading) (leave : Bool) (w w' : World)
    : Type 0 where
  pub moved : Moved w w'
  pub number : w'.run.current_test_number ≡ w.run.current_test_number
  pub leaves : leave ≡ true → (w'.run.state ≡ stopped_low_battery) ⊎ (w'.run.state ≡ stopped_error)
  pub stays : leave ≡ false → w'.run.state ≡ w.run.state

module _ (c : ExperimentConfig) (std : IsStandard c) (low : List Text) (limit_text : Text)
    (t : Instant) where
  -- For a standard configuration, a valid world and a runner of the current generation: the
  -- section before a capture returns true in a valid world with the same state and generation,
  -- with one more attempt counted and the other three counters as they were.
  pub capture_attempt-Returns :
      (generation : ℕ) (w : World)
      → IsValid w
      → is_stale generation w ≡ false
      → Returns
          (λ go w'.
            (go ≡ true)
            × IsValid w'
            × (w'.run.state ≡ w.run.state)
            × (w'.run.snapshots_attempted ≡ w.run.snapshots_attempted + 1)
            × (w'.run.snapshots_succeeded ≡ w.run.snapshots_succeeded)
            × (w'.run.snapshots_failed ≡ w.run.snapshots_failed)
            × (w'.run.snapshot_timeouts ≡ w.run.snapshot_timeouts)
            × (w'.generation ≡ w.generation))
          (capture_attempt c low limit_text t generation w)
  unfolding capture_attempt
  capture_attempt-Returns generation w v fresh = rw fresh (
      Returns-bind
        (update-Returns t (set_snapshots_attempted (w.run.snapshots_attempted + 1)) [] w v v.row)
        λ _ w' u. Returns-pure true _ (ground arith))

  capture_failed-Returns :
      (category : Option Text) (exc : Text) (w : World)
      → IsValid w
      → Returns
          (λ (_ : Done) w'. Captured (raised category exc) w w')
          (capture_failed c low limit_text t (is_timeout category) exc w)
  unfolding is_blank
  capture_failed-Returns category exc w v = go (is_timeout category) refl
    where
      go :
          (b : Bool)
          → is_timeout category ≡ b
          → Returns
              (λ (_ : Done) w'. Captured (raised category exc) w w')
              (capture_failed c low limit_text t b exc w)
      go true e =
          Returns-bind (update-Returns t (set_latest_error (some exc)) _ w v (v.row)) λ _ w₁ u.
            Returns-bind
              (record_event_locked-Returns t warning (codes "snapshot")
                (codes "Snapshot " ++ (codes "timed out" ++ (codes ": " ++ exc))) w₁ u.0 refl)
              λ _ w₂ r.
                Returns-bind (note_failure_locked-Returns c std t limit_text exc w₂ r.0)
                  λ fatal w₃ n.
                    Returns-pure tt _
                      (elim (Bool-cases fatal) [ inl f ↦ ground arith | inr f ↦ ground arith ])
      go false e =
          Returns-bind (update-Returns t (set_latest_error (some exc)) _ w v (v.row)) λ _ w₁ u.
            Returns-bind
              (record_event_locked-Returns t warning (codes "snapshot")
                (codes "Snapshot " ++ (codes "failed" ++ (codes ": " ++ exc))) w₁ u.0 refl)
              λ _ w₂ r.
                Returns-bind (note_failure_locked-Returns c std t limit_text exc w₂ r.0)
                  λ fatal w₃ n.
                    Returns-pure tt _
                      (elim (Bool-cases fatal) [ inl f ↦ ground arith | inr f ↦ ground arith ])

  capture_succeeded-Returns :
      (w : World)
      → IsValid w
      → Returns
          (λ (_ : Done) w'. Captured (returned tt) w w')
          (capture_succeeded c low limit_text t w)
  unfolding note_success_locked
  capture_succeeded-Returns w v =
      Returns-bind
        (update-Returns t (set_snapshots_succeeded (w.run.snapshots_succeeded + 1)) _ w v v.row)
        λ _ w₁ u. Returns-pure tt _ (ground arith)

  -- For a standard configuration, a valid world and a runner of the current generation: the end of
  -- a capture returns in a valid world with the same generation and stage; exactly one counter
  -- rises by one, by how the capture ended, and the state is as it was or stopped for an error.
  pub capture_outcome-Returns :
      (generation : ℕ) (outcome : Outcome Done) (w : World)
      → IsValid w
      → is_stale generation w ≡ false
      → Returns
          (λ (_ : Done) w'. Captured outcome w w')
          (capture_outcome c low limit_text t generation outcome w)
  unfolding capture_outcome
  capture_outcome-Returns generation (returned tt) w v fresh =
      rw fresh (capture_succeeded-Returns w v)
  capture_outcome-Returns generation (raised category exc) w v fresh =
      rw fresh (capture_failed-Returns category exc w v)

  battery_failed-Returns :
      (category : Option Text) (exc : Text) (w : World)
      → IsValid w
      → Returns
          (λ leave w'. Polled low (raised category exc) leave w w')
          (battery_failed c low limit_text t exc w)
  unfolding is_blank
  battery_failed-Returns category exc w v =
      Returns-bind (update-Returns t (set_latest_error (some exc)) [] w v v.row) λ _ w₁ u.
        Returns-bind
          (record_event_locked-Returns t warning (codes "battery")
            (codes "Battery refresh failed: " ++ exc) w₁ u.0 refl)
          λ _ w₂ r.
            Returns-bind (note_failure_locked-Returns c std t limit_text exc w₂ r.0) λ fatal w₃ n.
              Returns-bind (record_measurement_locked-Returns c std t w₃ n.moved.valid) λ _ w₄ m.
                Returns-pure fatal _
                  (elim (Bool-cases fatal) [ inl f ↦ ground arith | inr f ↦ ground arith ])

  battery_read-Returns :
      (reading : BatteryReading) (w : World)
      → IsValid w
      → Returns
          (λ leave w'. Polled low (returned reading) leave w w')
          (battery_read c low limit_text t reading w)
  unfolding note_success_locked
  battery_read-Returns reading w v =
      elim (Bool-cases (is_low_reading low reading && is_active w.run.state)) [
        | inl stops ↦ rw stops (
            Returns-bind
              (transition_low_battery_locked-Returns c std t reading
                (record w { last_battery = some reading; outage_started = none }) (ground arith))
              λ _ w₁ l. Returns-pure true _ (ground arith))
        | inr goes ↦ rw goes (
            Returns-bind
              (record_measurement_locked-Returns c std t
                (record w { last_battery = some reading; outage_started = none }) (ground arith))
              λ _ w₁ m. Returns-pure false _ (ground arith))
      ]

  -- For a standard configuration, a valid world and a runner of the current generation: a battery
  -- poll, with a reading or without one, returns in a valid world with the same run, stage,
  -- counters, generation and runner task; if the loop is told to leave the run is stopped for its
  -- battery or for an error, and otherwise its state is as it was.
  pub poll_battery-Returns :
      (generation : ℕ) (outcome : Outcome BatteryReading) (w : World)
      → IsValid w
      → is_stale generation w ≡ false
      → Returns
          (λ leave w'. Polled low outcome leave w w')
          (poll_battery c low limit_text t generation outcome w)
  unfolding poll_battery
  poll_battery-Returns generation (returned reading) w v fresh =
      rw fresh (battery_read-Returns reading w v)
  poll_battery-Returns generation (raised category exc) w v fresh =
      rw fresh (battery_failed-Returns category exc w v)

  -- For a standard configuration, a valid world, a runner of the current generation and an active
  -- state: a poll that gives a low reading returns true, in a valid world with the same run,
  -- stage, counters, generation and runner task; the run is stopped for its battery with a
  -- deadline one recovery length from now and a held phase.
  pub poll_battery-Low :
      (generation : ℕ) (reading : BatteryReading) (w : World)
      → IsValid w
      → is_stale generation w ≡ false
      → is_low_reading low reading ≡ true
      → is_active w.run.state ≡ true
      → Returns
          (λ leave w'. (leave ≡ true) × Low c t w w')
          (poll_battery c low limit_text t generation (returned reading) w)
  unfolding poll_battery note_success_locked
  poll_battery-Low generation reading w v fresh l a =
      rw (fresh, l, a)
        (Returns-bind
          (transition_low_battery_locked-Returns c std t reading
            (record w { last_battery = some reading; outage_started = none }) (ground arith))
          λ _ w₁ h. Returns-pure true _ (refl, ground arith))
