-- ===== src/Experiment/Streams/Laws.antt =====
-- The stream loop in a valid world.
use blink_battery_benchmark.Common.{
  ℕ, ◌+◌, ◌≡◌, refl, Bool, true, false, Option, none, some, ◌++◌, arith, Bool-cases, inl, inr,
}
use blink_battery_benchmark.Text.{Text, codes, is_blank}
use blink_battery_benchmark.Storage.Types.{Time, set_stream_reconnects, warning}
use blink_battery_benchmark.Config.Types.{ExperimentConfig}
use blink_battery_benchmark.Experiment.State.{stopped_error}
use blink_battery_benchmark.Experiment.World.{Instant, World}
use blink_battery_benchmark.Experiment.Outage.Laws.{
  start_stream_outage-Returns, stream_outage_is_fatal-Returns,
}
use blink_battery_benchmark.Experiment.Transitions.Laws.{transition_error_locked-Returns}
use blink_battery_benchmark.Experiment.Sections.{is_stale}
use blink_battery_benchmark.Experiment.Invariant.{
  IsValid, Returns, Returns-bind, Returns-pure, Returns-mono, IsStandard,
}
use blink_battery_benchmark.Experiment.Invariant.Steps.{update-Returns, record_event_locked-Returns}
use blink_battery_benchmark.Experiment.Invariant.Checkpoints.{flush_stream_bytes_locked-Returns}
use blink_battery_benchmark.Experiment.Streams.{disconnected, end_if_lost, stream_ended}

disconnected-is_blank :
    (c : ExperimentConfig) (describe : Text → Text → Text) (seconds_text : Option Time → Text)
    (limit_text : Text) (t : Instant) (exc : Option Text)
    → is_blank (disconnected c describe seconds_text limit_text t exc) ≡ false
unfolding is_blank
disconnected-is_blank c describe seconds_text limit_text t none = refl
disconnected-is_blank c describe seconds_text limit_text t (some exc) = refl

module _ (c : ExperimentConfig) (std : IsStandard c) (describe : Text → Text → Text)
    (seconds_text : Option Time → Text) (limit_text : Text) (t : Instant) where
  end_if_lost-Returns :
      (message : Text) (fatal : Bool) (w : World)
      → IsValid w
      → Returns
          (λ leave w'.
            (leave ≡ fatal)
            × IsValid w'
            × (fatal ≡ true → w'.run.state ≡ stopped_error)
            × (fatal ≡ false → w' ≡ w))
          (end_if_lost c describe seconds_text limit_text t message fatal w)
  unfolding is_blank
  end_if_lost-Returns message false w v = Returns-pure false w (ground arith)
  end_if_lost-Returns message true w v =
      Returns-bind
        (transition_error_locked-Returns c std t
          (codes "Continuous stream outage exceeded " ++ (limit_text ++ (codes "s: " ++ message))) w
          v refl)
        λ _ w₁ f. Returns-pure true w₁ (ground arith)

  -- For a standard configuration, a valid world and a runner of the current generation: the
  -- section for a stream that ended returns in a valid world; if the loop is told to leave the run
  -- is stopped for an error, and otherwise its state is as it was, an outage is active and the
  -- reconnects are the written and the pending ones and one more.
  pub stream_ended-Returns :
      (generation : ℕ) (exc : Option Text) (w : World)
      → IsValid w
      → is_stale generation w ≡ false
      → Returns
          (λ leave w'.
            IsValid w'
            × (leave ≡ true → w'.run.state ≡ stopped_error)
            × (leave ≡ false
                → (w'.run.state ≡ w.run.state)
                  × (w'.run.stream_outage_active ≡ true)
                  × (w'.run.stream_reconnects
                      ≡ w.run.stream_reconnects + w.pending_stream_reconnects + 1)))
          (stream_ended c describe seconds_text limit_text t generation exc w)
  unfolding stream_ended
  stream_ended-Returns generation exc w v fresh =
      let message = disconnected c describe seconds_text limit_text t exc in
      rw fresh (
        Returns-bind (flush_stream_bytes_locked-Returns t w v) λ _ w₁ f.
          Returns-bind
            (update-Returns t (set_stream_reconnects (w₁.run.stream_reconnects + 1)) _ w₁
              f.kept.valid (ground arith))
            λ _ w₂ u.
              Returns-bind
                (record_event_locked-Returns t warning (codes "stream") message w₂ u.0
                  (disconnected-is_blank c describe seconds_text limit_text t exc))
                λ _ w₃ r. Returns-bind (start_stream_outage-Returns t t.mono w₃ r.0) λ _ w₄ s.
                  Returns-bind (stream_outage_is_fatal-Returns c t t.mono w₄ s.0.valid)
                    λ fatal w₅ d.
                      Returns-mono (end_if_lost-Returns message fatal w₅ d.0.valid) (λ _ w' e.
                        elim (Bool-cases fatal) [ inl y ↦ ground arith | inr n ↦ ground arith ]))
