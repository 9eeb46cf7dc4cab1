-- ===== src/Experiment/Streams.antt =====
-- `_run_stream` in src/blink_dashboard/experiment.py: the loop cut at its awaits. The battery task and
-- the stream task are the backend's; `poll_battery` is the section that reads a finished poll.
pub mod Laws
use blink_battery_benchmark.Common.{
  ℕ, ◌+◌, ◌-◌, Bool, true, false, not, Option, none, some, List, [], ◌∷◌, ◌++◌, leb, min,
  if◌then◌else◌,
}
use blink_battery_benchmark.Text.{Text, codes}
use blink_battery_benchmark.Action.{
  Done, Result, pure, gets, lift, modify, when, ◌>>=◌, ◌>>◌, continue,
}
use blink_battery_benchmark.Storage.Types.{Time, warning, set_latest_error, set_stream_reconnects}
use blink_battery_benchmark.Config.Types.{ExperimentConfig, test_duration}
use blink_battery_benchmark.Experiment.World.{Instant, World, M, update, record_event_locked}
use blink_battery_benchmark.Experiment.Outage.{
  refresh_stream_outage, stream_outage_is_fatal, stream_outage_duration, start_stream_outage,
  flush_stream_errors_locked,
}
use blink_battery_benchmark.Experiment.Phases.{
  elapsed_active, flush_stream_bytes_locked, checkpoint_active_locked, record_measurement_locked,
}
use blink_battery_benchmark.Experiment.Transitions.{transition_error_locked, finish_active_locked}
use blink_battery_benchmark.Experiment.Schedule.{advance_deadline}
use blink_battery_benchmark.Experiment.Sections.{is_stale}

-- the variables of the loop that the backend does not own
pub record StreamLoop : Type 0 where
  pub next_battery : Time
  pub next_checkpoint : Time
  pub next_measurement : Time

-- `describe` prints a pending error, `seconds_text` the length of an outage and `limit_text` its limit.
module _ (c : ExperimentConfig) (describe : Text → Text → Text) (seconds_text : Option Time → Text)
    (limit_text : Text) (t : Instant) where
  -- the lines before the loop, with the stop event of this runner
  unfoldable pub stream_begin : ℕ → M StreamLoop
  stream_begin generation = do
    modify (λ w. record w { stream_stop_event = some generation })
    pure (record {
      next_battery = t.mono;
      next_checkpoint = t.mono + c.stream_checkpoint_seconds;
      next_measurement = t.mono + c.measurement_interval_seconds;
    })

  -- `stop_event.set()`, on the event of this runner
  abbrev pub set_stop_event : ℕ → M Done
  set_stop_event generation =
      modify (λ w. record w { stopped_streams = generation ∷ w.stopped_streams })

  abbrev pub end_if_fatal : ℕ → Bool → M Bool
  end_if_fatal generation false = pure false
  end_if_fatal generation true = do
    outage ← stream_outage_duration c t t.mono
    set_stop_event generation
    transition_error_locked c t (
        codes "Continuous stream outage exceeded "
        ++ (limit_text ++ (codes "s (" ++ (seconds_text outage ++ codes "s without stream data)"))))
    pure true

  abbrev pub fatal_section : ℕ → M Bool
  fatal_section generation = do
    w ← gets (λ w. w)
    (if is_stale generation w then pure true else (do
      flush_stream_errors_locked describe t
      fatal ← stream_outage_is_fatal c t t.mono
      end_if_fatal generation fatal))

  -- the loop's condition and the first section of a round; true if the loop returns
  unfoldable pub stream_top : ℕ → M Bool
  stream_top generation = do
    w ← gets (λ w. w)
    (if is_stale generation w
        then pure true
        else (do refresh_stream_outage c t t.mono; fatal_section generation))

  abbrev pub finish_stream : ℕ → M Done
  finish_stream generation = do
    w ← gets (λ w. w)
    when (not (is_stale generation w)) (do flush_stream_bytes_locked t; finish_active_locked c t)

  -- the end of a test whose time is up; true if the loop returns
  unfoldable pub stream_over : ℕ → M Bool
  stream_over generation = do
    w ← gets (λ w. w)
    duration ← lift (test_duration c w.run.current_test_number)
    (if leb duration (elapsed_active w t.mono)
        then (do set_stop_event generation; finish_stream generation; pure true)
        else pure false)

  -- the section of a checkpoint that is due; false if the runner is stale
  unfoldable pub stream_checkpoint : ℕ → M Bool
  stream_checkpoint generation = do
    w ← gets (λ w. w)
    (if is_stale generation w
        then pure false
        else (do flush_stream_bytes_locked t; checkpoint_active_locked t; pure true))

  unfoldable pub stream_measure : ℕ → M Bool
  stream_measure generation = do
    w ← gets (λ w. w)
    (if is_stale generation w
        then pure false
        else (do flush_stream_bytes_locked t; record_measurement_locked c t; pure true))

  abbrev pub disconnected : Option Text → Text
  disconnected none = codes "Stream disconnected"
  disconnected (some exc) = codes "Stream disconnected: " ++ exc

  abbrev pub end_if_lost : Text → Bool → M Bool
  end_if_lost message false = pure false
  end_if_lost message true = do
    transition_error_locked c t
        (codes "Continuous stream outage exceeded " ++ (limit_text ++ (codes "s: " ++ message)))
    pure true

  abbrev pub lose_stream : Text → M Bool
  lose_stream message = do
    flush_stream_bytes_locked t
    w ← gets (λ w. w)
    update t
        (set_stream_reconnects (w.run.stream_reconnects + 1) ∷ set_latest_error (some message) ∷ [])
    record_event_locked t warning (codes "stream") message
    start_stream_outage t t.mono
    fatal ← stream_outage_is_fatal c t t.mono
    end_if_lost message fatal

  -- The section for a stream task that has ended, with the text of its exception; true if the loop
  -- returns. `_start_stream_outage` checks again what its caller checks.
  unfoldable pub stream_ended : ℕ → Option Text → M Bool
  stream_ended generation exc = do
    w ← gets (λ w. w)
    (if is_stale generation w then pure true else lose_stream (disconnected exc))
