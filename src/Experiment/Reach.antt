-- ===== src/Experiment/Reach.antt =====
-- Everything that can happen to a runner of src/blink_dashboard/experiment.py after it is constructed:
-- its controls and the sections of its task, in any order, at any instants and with any outcomes.
pub mod Streams
pub mod Controls
pub mod Laws
pub mod Progress
use blink_battery_benchmark.Common.{ℕ, Bool, Option, List, ◌≡◌, true, every, none}
use blink_battery_benchmark.Text.{Text}
use blink_battery_benchmark.Action.{Done, Error, Result, ok}
use blink_battery_benchmark.Storage.Types.{Time, BatteryReading, Store}
use blink_battery_benchmark.Config.Types.{ExperimentConfig}
use blink_battery_benchmark.Experiment.World.{Instant, World}
use blink_battery_benchmark.Experiment.Controls.{
  Outcome, initialize, start, stop, restart, continue_check, continue_outcome, shutdown,
}
use blink_battery_benchmark.Experiment.Sections.{
  capture_attempt, capture_outcome, poll_battery, recovery_poll, finish_section, checkpoint_section,
  measurement_section, on_bytes, on_reconnect, on_error, runner_failed, recovery_without_deadline,
}
use blink_battery_benchmark.Experiment.Streams.{
  stream_begin, stream_top, stream_over, stream_checkpoint, stream_measure, stream_ended,
}
use blink_battery_benchmark.Experiment.Status.{get_status, construct}
use blink_battery_benchmark.Experiment.Invariant.{row_fits, descends}

-- The calls that change a world; a section carries the generation of its runner.
pub data Call : Type 0 where
  start_call stop_call restart_call check_call shutdown_call status_call : Call
  continue_call : ℕ → ℕ → Outcome BatteryReading → Call
  attempt_call finish_call checkpoint_call measure_call reconnect_call : ℕ → Call
  captured_call : ℕ → Outcome Done → Call
  polled_call : ℕ → Outcome BatteryReading → Call
  recovery_call : ℕ → Time → Outcome BatteryReading → Call
  bytes_call : ℕ → ℕ → Call
  error_call : ℕ → Text → Text → Call
  failed_call : ℕ → Error → Call
  stream_begin_call stream_top_call stream_over_call : ℕ → Call
  stream_checkpoint_call stream_measure_call : ℕ → Call
  stream_ended_call : ℕ → Option Text → Call
  no_deadline_call : Call

module _ (c : ExperimentConfig) (low : List Text) (limit_text : Text)
    (describe : Text → Text → Text) (seconds_text : Option Time → Text)
    (describe_error : Error → Text) where
  -- the world after a call, whether it returned or raised
  unfoldable pub perform : Call → Instant → World → World
  perform start_call t w = (start c t w).1
  perform stop_call t w = (stop c t w).1
  perform restart_call t w = (restart c t w).1
  perform check_call t w = (continue_check c t w).1
  perform shutdown_call t w = (shutdown c t w).1
  perform status_call t w = (get_status c t w).1
  perform (continue_call run_id g o) t w = (continue_outcome c t low run_id g o w).1
  perform (attempt_call g) t w = (capture_attempt c low limit_text t g w).1
  perform (finish_call g) t w = (finish_section c low limit_text t g w).1
  perform (checkpoint_call g) t w = (checkpoint_section c low limit_text t g w).1
  perform (measure_call g) t w = (measurement_section c low limit_text t g w).1
  perform (reconnect_call g) t w = (on_reconnect c low limit_text t g w).1
  perform (captured_call g o) t w = (capture_outcome c low limit_text t g o w).1
  perform (polled_call g o) t w = (poll_battery c low limit_text t g o w).1
  perform (recovery_call g d o) t w = (recovery_poll c low limit_text t g d o w).1
  perform (bytes_call g n) t w = (on_bytes c low limit_text t g n w).1
  perform (error_call g category message) t w = (on_error c low limit_text t g category message w).1
  perform (failed_call g e) t w = (runner_failed c low limit_text t describe_error g e w).1
  perform (stream_begin_call g) t w = (stream_begin c describe seconds_text limit_text t g w).1
  perform (stream_top_call g) t w = (stream_top c describe seconds_text limit_text t g w).1
  perform (stream_over_call g) t w = (stream_over c describe seconds_text limit_text t g w).1
  perform (stream_checkpoint_call g) t w =
      (stream_checkpoint c describe seconds_text limit_text t g w).1
  perform (stream_measure_call g) t w = (stream_measure c describe seconds_text limit_text t g w).1
  perform (stream_ended_call g exc) t w =
      (stream_ended c describe seconds_text limit_text t g exc w).1
  perform no_deadline_call t w = (recovery_without_deadline c low limit_text t w).1

  -- a runner that is constructed over a stored history, then initialized, then called
  pub data Reach : World → Type 0 where
    boots :
        (names : List Text) (now : Time) (s : Store) (t : Instant) (w : World)
        → every row_fits s.runs ≡ true
        → descends s.last_phase_id s.phases ≡ true
        → construct c names now s ≡ ok w
        → Reach (initialize c t w).1
    calls : (call : Call) (t : Instant) (w : World) → Reach w → Reach (perform call t w)
