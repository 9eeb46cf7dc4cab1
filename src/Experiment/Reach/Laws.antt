-- ===== src/Experiment/Reach/Laws.antt =====
-- The invariant over every sequence of calls.
use blink_battery_benchmark.Common.{ℕ, Option, List, refl, Bool-cases, inl, inr}
use blink_battery_benchmark.Text.{Text, codes, is_blank}
use blink_battery_benchmark.Action.{Error}
use blink_battery_benchmark.Storage.Types.{Time, BatteryReading}
use blink_battery_benchmark.Config.Types.{ExperimentConfig}
use blink_battery_benchmark.Experiment.State.{is_low}
use blink_battery_benchmark.Experiment.Battery.{is_low_reading}
use blink_battery_benchmark.Experiment.World.{Instant, World}
use blink_battery_benchmark.Experiment.Controls.{
  Outcome, returned, raised, continue_check, continue_outcome,
}
use blink_battery_benchmark.Experiment.Controls.Lifecycle.{restart-Returns, shutdown-Returns}
use blink_battery_benchmark.Experiment.Controls.Initialize.{initialize-Returns}
use blink_battery_benchmark.Experiment.Sections.Laws.{
  capture_attempt-Returns, capture_outcome-Returns, poll_battery-Returns,
}
use blink_battery_benchmark.Experiment.Sections.Recovery.{
  recovery_poll-Returns, finish_section-Returns, checkpoint_section-Returns,
  measurement_section-Returns, runner_failed-Returns,
}
use blink_battery_benchmark.Experiment.Sections.{recovery_without_deadline}
use blink_battery_benchmark.Experiment.Transitions.Laws.{transition_error_locked-Returns}
use blink_battery_benchmark.Experiment.Sections.Stale.{stale_sections}
use blink_battery_benchmark.Experiment.Streams.{stream_begin}
use blink_battery_benchmark.Experiment.Status.Laws.{get_status-Returns, construct-IsValid}
use blink_battery_benchmark.Experiment.Invariant.{IsStandard, IsValid}
use blink_battery_benchmark.Experiment.Invariant.Leaves.{Leaves-of_Returns}
use blink_battery_benchmark.Experiment.Reach.{Call, perform, Reach}
use blink_battery_benchmark.Experiment.Reach.Streams.{
  stream_top-Leaves, stream_over-Leaves, stream_checkpoint-Leaves, stream_measure-Leaves,
  on_error-Leaves, on_bytes-Leaves, on_reconnect-Leaves, stream_ended-Leaves,
}
use blink_battery_benchmark.Experiment.Reach.Controls.{
  guarded, start-Leaves, stop-Leaves, continue_apply-Leaves,
}
use blink_battery_benchmark.Experiment.Reach.{
  start_call, stop_call, restart_call, check_call, shutdown_call, status_call, continue_call,
  attempt_call, finish_call, checkpoint_call, measure_call, reconnect_call, captured_call,
  polled_call, recovery_call, bytes_call, error_call, failed_call, stream_begin_call,
  stream_top_call, stream_over_call, stream_checkpoint_call, stream_measure_call, stream_ended_call,
  no_deadline_call, boots, calls,
}

module _ (c : ExperimentConfig) (std : IsStandard c) (low : List Text) (limit_text : Text)
    (describe : Text → Text → Text) (seconds_text : Option Time → Text)
    (describe_error : Error → Text) where
  continue_outcome-IsValid :
      (run_id generation : ℕ) (o : Outcome BatteryReading) (t : Instant) (w : World)
      → IsValid w
      → IsValid (continue_outcome c t low run_id generation o w).1
  unfolding continue_outcome
  continue_outcome-IsValid run_id generation (raised _ _) t w v = v
  continue_outcome-IsValid run_id generation (returned reading) t w v =
      elim (Bool-cases (is_low_reading low reading)) [
        | inl l ↦ rw l v
        | inr n ↦ rw n (
            (continue_apply-Leaves c std low limit_text describe seconds_text t run_id generation
              reading w v).valid)
      ]

  continue_check-IsValid : (t : Instant) (w : World) → IsValid w → IsValid (continue_check c t w).1
  unfolding continue_check
  continue_check-IsValid t w v = elim (Bool-cases (is_low w.run.state)) [
    | inl l ↦ rw l v
    | inr n ↦ rw n v
  ]

  recovery_without_deadline-IsValid :
      (t : Instant) (w : World)
      → IsValid w
      → IsValid (recovery_without_deadline c low limit_text t w).1
  unfolding recovery_without_deadline is_blank
  recovery_without_deadline-IsValid t w v =
      (Leaves-of_Returns
        (transition_error_locked-Returns c std t (codes "recovery deadline is missing") w v refl)
        (λ _ _ h. h.moved.valid)).valid

  -- Each call keeps the invariant.
  pub perform-IsValid :
      (call : Call) (t : Instant) (w : World)
      → IsValid w
      → IsValid (perform c low limit_text describe seconds_text describe_error call t w)
  unfolding perform stream_begin
  perform-IsValid start_call t w v =
      (start-Leaves c std low limit_text describe seconds_text t w v).valid
  perform-IsValid stop_call t w v =
      (stop-Leaves c std low limit_text describe seconds_text t w v).valid
  perform-IsValid restart_call t w v =
      (Leaves-of_Returns (restart-Returns c std t w v) (λ _ _ h. h.1.valid)).valid
  perform-IsValid check_call t w v = continue_check-IsValid t w v
  perform-IsValid shutdown_call t w v =
      (Leaves-of_Returns (shutdown-Returns c std t w v) (λ _ _ h. h.0)).valid
  perform-IsValid status_call t w v =
      (Leaves-of_Returns (get_status-Returns c std t w v) (λ _ _ h. h.0.valid)).valid
  perform-IsValid (continue_call run_id g o) t w v = continue_outcome-IsValid run_id g o t w v
  perform-IsValid (attempt_call g) t w v =
      (guarded c std low limit_text describe seconds_text t g w _ _ v
        (λ s. (stale_sections c low limit_text t g w s).0)
        (λ f.
          Leaves-of_Returns (capture_attempt-Returns c std low limit_text t g w v f)
            (λ _ _ h. h.1))).valid
  perform-IsValid (finish_call g) t w v =
      (guarded c std low limit_text describe seconds_text t g w _ _ v
        (λ s. (stale_sections c low limit_text t g w s).4)
        (λ f.
          Leaves-of_Returns (finish_section-Returns c std low limit_text t g w v f)
            (λ _ _ h. h.moved.valid))).valid
  perform-IsValid (checkpoint_call g) t w v =
      (guarded c std low limit_text describe seconds_text t g w _ _ v
        (λ s. (stale_sections c low limit_text t g w s).5)
        (λ f.
          Leaves-of_Returns (checkpoint_section-Returns c std low limit_text t g w v f)
            (λ _ _ h. h.1.kept.valid))).valid
  perform-IsValid (measure_call g) t w v =
      (guarded c std low limit_text describe seconds_text t g w _ _ v
        (λ s. (stale_sections c low limit_text t g w s).6)
        (λ f.
          Leaves-of_Returns (measurement_section-Returns c std low limit_text t g w v f)
            (λ _ _ h. h.1))).valid
  perform-IsValid (reconnect_call g) t w v =
      (on_reconnect-Leaves c std low limit_text describe seconds_text t g w v).valid
  perform-IsValid (captured_call g o) t w v =
      (guarded c std low limit_text describe seconds_text t g w _ _ v
        (λ s. (stale_sections c low limit_text t g w s).1 o)
        (λ f.
          Leaves-of_Returns (capture_outcome-Returns c std low limit_text t g o w v f)
            (λ _ _ h. h.valid))).valid
  perform-IsValid (polled_call g o) t w v =
      (guarded c std low limit_text describe seconds_text t g w _ _ v
        (λ s. (stale_sections c low limit_text t g w s).2 o)
        (λ f.
          Leaves-of_Returns (poll_battery-Returns c std low limit_text t g o w v f)
            (λ _ _ h. h.moved.valid))).valid
  perform-IsValid (recovery_call g d o) t w v =
      (guarded c std low limit_text describe seconds_text t g w _ _ v
        (λ s. (stale_sections c low limit_text t g w s).3 d o)
        (λ f.
          Leaves-of_Returns (recovery_poll-Returns c std low limit_text t g d o w v f)
            (λ _ _ h. h))).valid
  perform-IsValid (bytes_call g n) t w v =
      (on_bytes-Leaves c std low limit_text describe seconds_text t g n w v).valid
  perform-IsValid (error_call g category message) t w v =
      (on_error-Leaves c std low limit_text describe seconds_text t g category message w v).valid
  perform-IsValid (failed_call g e) t w v =
      (guarded c std low limit_text describe seconds_text t g w _ _ v
        (λ s. (stale_sections c low limit_text t g w s).10 describe_error e)
        (λ f.
          Leaves-of_Returns (runner_failed-Returns c std low limit_text t describe_error g e w v f)
            (λ _ _ h. h.moved.valid))).valid
  perform-IsValid (stream_begin_call g) t w v = record {
    synced = v.synced;
    row = v.row;
    phase = v.phase;
    ids = v.ids;
  }
  perform-IsValid (stream_top_call g) t w v =
      (stream_top-Leaves c std low limit_text describe seconds_text t g w v).valid
  perform-IsValid (stream_over_call g) t w v =
      (stream_over-Leaves c std low limit_text describe seconds_text t g w v).valid
  perform-IsValid (stream_checkpoint_call g) t w v =
      (stream_checkpoint-Leaves c std low limit_text describe seconds_text t g w v).valid
  perform-IsValid (stream_measure_call g) t w v =
      (stream_measure-Leaves c std low limit_text describe seconds_text t g w v).valid
  perform-IsValid (stream_ended_call g exc) t w v =
      (stream_ended-Leaves c std low limit_text describe seconds_text t g exc w v).valid
  perform-IsValid no_deadline_call t w v = recovery_without_deadline-IsValid t w v

  -- For a standard configuration: a runner that is constructed over a history whose runs fit their
  -- stages, initialized, and then called in any order (its controls, the sections of its task,
  -- their outcomes, with any generations and at any instants) is in a valid world after each call,
  -- whether the call returned or raised.
  pub Reach-IsValid :
      (w : World) → Reach c low limit_text describe seconds_text describe_error w → IsValid w
  Reach-IsValid _ (boots names now s t w f d e) =
      let k = construct-IsValid c names now s w f d e in
      (Leaves-of_Returns (initialize-Returns c std t w k.0 k.3) (λ _ _ h. h.1.valid)).valid
  Reach-IsValid _ (calls call t w r) = perform-IsValid call t w (Reach-IsValid w r)
