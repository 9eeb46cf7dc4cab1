-- ===== src/Experiment/Reach/Streams.antt =====
-- The sections of the stream loop and its callbacks leave a valid world.
use blink_battery_benchmark.Common.{
  ℕ, refl, Bool, true, false, not, ◌&&◌, Option, some, List, [], ◌∷◌, ◌++◌, arith, Bool-cases, inl,
  inr, ltb, leb,
}
use blink_battery_benchmark.Text.{Text, codes, is_blank}
use blink_battery_benchmark.Storage.Types.{Time, warning, set_latest_error}
use blink_battery_benchmark.Storage.Records.Laws.{add_event_blank}
use blink_battery_benchmark.Config.Types.{ExperimentConfig}
use blink_battery_benchmark.Experiment.World.{Instant, World, record_event_locked}
use blink_battery_benchmark.Experiment.Outage.{
  note_stream_error, or_now, flush_errors, flush_stream_errors_locked, refresh_stream_outage,
}
use blink_battery_benchmark.Experiment.Outage.Laws.{
  start_stream_outage-Returns, note_stream_bytes-Returns, refresh_outage-Returns,
  stream_outage_duration-Returns, stream_outage_is_fatal-Returns,
}
use blink_battery_benchmark.Experiment.Phases.{elapsed_active}
use blink_battery_benchmark.Experiment.Transitions.Laws.{
  transition_error_locked-Returns, finish_active_locked-Returns,
}
use blink_battery_benchmark.Experiment.Sections.{is_stale, on_bytes, on_reconnect, on_error}
use blink_battery_benchmark.Experiment.Streams.{
  stream_top, stream_over, stream_checkpoint, stream_measure, stream_ended, fatal_section,
  end_if_fatal, finish_stream,
}
use blink_battery_benchmark.Experiment.Streams.Laws.{stream_ended-Returns}
use blink_battery_benchmark.Experiment.Snapshots.Laws.{test_duration-IsStandard}
use blink_battery_benchmark.Experiment.Invariant.{
  IsStandard, IsValid, Returns, Returns-bind, Returns-pure,
}
use blink_battery_benchmark.Experiment.Invariant.Steps.{
  event_args, update-Returns, record_event_locked-Returns,
}
use blink_battery_benchmark.Experiment.Invariant.Checkpoints.{
  flush_stream_bytes_locked-Returns, checkpoint_active_locked-Returns,
}
use blink_battery_benchmark.Experiment.Invariant.Phases.{record_measurement_locked-Returns}
use blink_battery_benchmark.Experiment.Invariant.Leaves.{
  Leaves, Leaves-of_Returns, Leaves-pure, Leaves-raise, Leaves-bind,
}

-- An event is written or refused, and the world is valid either way.
record_event_locked-Leaves :
    (t : Instant) (category message : Text) (w : World)
    → IsValid w
    → Leaves (record_event_locked t warning category message w)
unfolding record_event_locked
record_event_locked-Leaves t category message w v = elim (Bool-cases (is_blank message)) [
  | inl blank ↦
      rw (add_event_blank (event_args t warning category message w.run) w.store blank)
        (Leaves-raise _ (record { synced = v.synced; row = v.row; phase = v.phase; ids = v.ids }))
  | inr text ↦
      Leaves-of_Returns (record_event_locked-Returns t warning category message w v text)
        (λ _ _ h. h.0)
]

module _ (describe : Text → Text → Text) (t : Instant) where
  flush_errors-Leaves :
      (errors : List (Text × Text)) (w : World)
      → IsValid w
      → Leaves (flush_errors describe t errors w)
  unfolding flush_errors
  flush_errors-Leaves [] w v = Leaves-pure tt w v
  flush_errors-Leaves ((category, message) ∷ errors) w v =
      Leaves-bind
        (Leaves-of_Returns
          (update-Returns t (set_latest_error (some (describe category message))) [] w v v.row)
          (λ _ _ h. h.0))
        λ _ w₁ v₁.
          Leaves-bind (record_event_locked-Leaves t category message w₁ v₁)
            λ _ w₂ v₂. flush_errors-Leaves errors w₂ v₂

  flush_stream_errors_locked-Leaves :
      (w : World) → IsValid w → Leaves (flush_stream_errors_locked describe t w)
  unfolding flush_stream_errors_locked
  flush_stream_errors_locked-Leaves w v =
      Leaves-bind (flush_errors-Leaves w.pending_stream_errors w v) λ _ w₁ v₁.
        Leaves-pure tt _
          (record { synced = v₁.synced; row = v₁.row; phase = v₁.phase; ids = v₁.ids })

module _ (c : ExperimentConfig) (std : IsStandard c) (low : List Text) (limit_text : Text)
    (describe : Text → Text → Text) (seconds_text : Option Time → Text) (t : Instant) where
  end_if_fatal-Returns :
      (generation : ℕ) (fatal : Bool) (w : World)
      → IsValid w
      → Returns
          (λ (_ : Bool) w'. IsValid w')
          (end_if_fatal c describe seconds_text limit_text t generation fatal w)
  unfolding is_blank
  end_if_fatal-Returns generation false w v = Returns-pure false w v
  end_if_fatal-Returns generation true w v =
      Returns-bind (stream_outage_duration-Returns c t t.mono w v) λ outage w₁ k.
        Returns-bind
          (transition_error_locked-Returns c std t
            (codes "Continuous stream outage exceeded "
              ++ (limit_text
                  ++ (codes "s (" ++ (seconds_text outage ++ codes "s without stream data)"))))
            (record w₁ { stopped_streams = generation ∷ w₁.stopped_streams }) (ground arith) refl)
          λ _ w₂ f. Returns-pure true w₂ f.moved.valid

  pub fatal_section-Leaves :
      (generation : ℕ) (w : World)
      → IsValid w
      → Leaves (fatal_section c describe seconds_text limit_text t generation w)
  fatal_section-Leaves generation w v = elim (Bool-cases (is_stale generation w)) [
    | inl old ↦ rw old (Leaves-pure _ w v)
    | inr now ↦ rw now (
        Leaves-bind (flush_stream_errors_locked-Leaves describe t w v) λ _ w₁ v₁.
          Leaves-bind
            (Leaves-of_Returns (stream_outage_is_fatal-Returns c t t.mono w₁ v₁)
              (λ _ _ h. h.0.valid))
            λ fatal w₂ v₂.
              Leaves-of_Returns (end_if_fatal-Returns generation fatal w₂ v₂) (λ _ _ h. h))
  ]

  pub stream_top-Leaves :
      (generation : ℕ) (w : World)
      → IsValid w
      → Leaves (stream_top c describe seconds_text limit_text t generation w)
  unfolding stream_top refresh_stream_outage
  stream_top-Leaves generation w v = elim (Bool-cases (is_stale generation w)) [
    | inl old ↦ rw old (Leaves-pure _ w v)
    | inr now ↦ rw now (
        Leaves-bind
          (Leaves-of_Returns (refresh_outage-Returns c t t.mono w.last_stream_bytes_at w v)
            (λ _ _ h. h.0.valid))
          λ _ w₁ v₁. fatal_section-Leaves generation w₁ v₁)
  ]

  pub finish_stream-Leaves :
      (generation : ℕ) (w : World)
      → IsValid w
      → Leaves (finish_stream c describe seconds_text limit_text t generation w)
  finish_stream-Leaves generation w v = elim (Bool-cases (is_stale generation w)) [
    | inl old ↦ rw old (Leaves-pure _ w v)
    | inr now ↦ rw now (
        Leaves-bind
          (Leaves-of_Returns (flush_stream_bytes_locked-Returns t w v) (λ _ _ h. h.kept.valid))
          λ _ w₁ v₁.
            Leaves-of_Returns (finish_active_locked-Returns c std t w₁ v₁) (λ _ _ h. h.moved.valid))
  ]

  pub stream_over-Leaves :
      (generation : ℕ) (w : World)
      → IsValid w
      → Leaves (stream_over c describe seconds_text limit_text t generation w)
  unfolding stream_over
  stream_over-Leaves generation w v =
      let d = test_duration-IsStandard c w.run.current_test_number std (ground arith) in
      elim (Bool-cases (leb c.test_duration_seconds (elapsed_active w t.mono))) [
        | inl over ↦
            rw (d, over)
              (Leaves-bind
                (finish_stream-Leaves generation
                  (record w { stopped_streams = generation ∷ w.stopped_streams }) (ground arith))
                λ _ w₁ v₁. Leaves-pure _ w₁ v₁)
        | inr early ↦ rw (d, early) (Leaves-pure _ w v)
      ]

  pub stream_checkpoint-Leaves :
      (generation : ℕ) (w : World)
      → IsValid w
      → Leaves (stream_checkpoint c describe seconds_text limit_text t generation w)
  unfolding stream_checkpoint
  stream_checkpoint-Leaves generation w v = elim (Bool-cases (is_stale generation w)) [
    | inl old ↦ rw old (Leaves-pure _ w v)
    | inr now ↦ rw now (
        Leaves-bind
          (Leaves-of_Returns (flush_stream_bytes_locked-Returns t w v) (λ _ _ h. h.kept.valid))
          λ _ w₁ v₁.
            Leaves-bind
              (Leaves-of_Returns (checkpoint_active_locked-Returns t w₁ v₁) (λ _ _ h. h.kept.valid))
              λ _ w₂ v₂. Leaves-pure _ w₂ v₂)
  ]

  pub stream_measure-Leaves :
      (generation : ℕ) (w : World)
      → IsValid w
      → Leaves (stream_measure c describe seconds_text limit_text t generation w)
  unfolding stream_measure
  stream_measure-Leaves generation w v = elim (Bool-cases (is_stale generation w)) [
    | inl old ↦ rw old (Leaves-pure _ w v)
    | inr now ↦ rw now (
        Leaves-bind
          (Leaves-of_Returns (flush_stream_bytes_locked-Returns t w v) (λ _ _ h. h.kept.valid))
          λ _ w₁ v₁.
            Leaves-bind
              (Leaves-of_Returns (record_measurement_locked-Returns c std t w₁ v₁)
                (λ _ _ h. h.valid))
              λ _ w₂ v₂. Leaves-pure _ w₂ v₂)
  ]

  pub on_error-Leaves :
      (generation : ℕ) (category message : Text) (w : World)
      → IsValid w
      → Leaves (on_error c low limit_text t generation category message w)
  unfolding on_error note_stream_error
  on_error-Leaves generation category message w v = elim (Bool-cases (is_stale generation w)) [
    | inl old ↦ rw old (Leaves-pure _ w v)
    | inr now ↦ rw now (
        Leaves-bind
          (Leaves-of_Returns
            (start_stream_outage-Returns t (or_now w.last_stream_bytes_at t.mono) w v)
            (λ _ _ h. h.0.valid))
          λ _ w₁ v₁. Leaves-pure _ _ (ground arith))
  ]

  pub on_bytes-Leaves :
      (generation count : ℕ) (w : World)
      → IsValid w
      → Leaves (on_bytes c low limit_text t generation count w)
  unfolding on_bytes
  on_bytes-Leaves generation count w v =
      elim (Bool-cases (ltb 0 count && not (is_stale generation w))) [
        | inl now ↦ rw now (
            Leaves-of_Returns (note_stream_bytes-Returns c t count w v (ground arith))
              (λ _ _ h. h.0.valid))
        | inr none_ ↦ rw none_ (Leaves-pure _ w v)
      ]

  pub on_reconnect-Leaves :
      (generation : ℕ) (w : World)
      → IsValid w
      → Leaves (on_reconnect c low limit_text t generation w)
  unfolding on_reconnect
  on_reconnect-Leaves generation w v = elim (Bool-cases (is_stale generation w)) [
    | inl old ↦ rw old (Leaves-pure _ w v)
    | inr now ↦ rw now (Leaves-pure _ _ (ground arith))
  ]

  pub stream_ended-Leaves :
      (generation : ℕ) (exc : Option Text) (w : World)
      → IsValid w
      → Leaves (stream_ended c describe seconds_text limit_text t generation exc w)
  stream_ended-Leaves generation exc w v = elim (Bool-cases (is_stale generation w)) [
    | inl old ↦ unfold stream_ended in rw old (Leaves-pure _ w v)
    | inr now ↦
        Leaves-of_Returns
          (stream_ended-Returns c std describe seconds_text limit_text t generation exc w v now)
          (λ _ _ h. h.0)
  ]
