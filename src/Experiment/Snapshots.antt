-- ===== src/Experiment/Snapshots.antt =====
-- `_run_snapshot` and the choice in `_runner_entry`, in src/blink_dashboard/experiment.py: the loop
-- cut at its awaits, which are the battery poll, the capture and the sleep.
pub mod Laws
use blink_battery_benchmark.Common.{
  ℕ, ◌+◌, ◌-◌, Bool, true, false, not, Option, none, some, List, [], ◌∷◌, leb, ◌==◌, min,
  if◌then◌else◌,
}
use blink_battery_benchmark.Text.{Text}
use blink_battery_benchmark.Action.{
  Done, Result, ok, err, pure, gets, lift, modify, when, ◌>>=◌, ◌>>◌, continue,
}
use blink_battery_benchmark.Storage.Types.{Time}
use blink_battery_benchmark.Config.Types.{ExperimentConfig, test_duration, snapshot_interval}
use blink_battery_benchmark.Experiment.State.{
  ExperimentState, running_snapshot, running_stream, recovery, stopped_low_battery,
}
use blink_battery_benchmark.Experiment.World.{Instant, World, M}
use blink_battery_benchmark.Experiment.Phases.{elapsed_active}
use blink_battery_benchmark.Experiment.Schedule.{
  SnapshotSchedule, new_schedule, due, advance_after_attempt, advance_deadline,
}
use blink_battery_benchmark.Experiment.Sections.{
  is_stale, capture_attempt, finish_section, checkpoint_section, measurement_section,
}

-- the method that `_runner_entry` calls next
pub data RunnerCall : Type 0 where
  run_snapshot run_stream run_recovery returns : RunnerCall

abbrev pub call_for : ExperimentState → RunnerCall
call_for running_snapshot = run_snapshot
call_for running_stream = run_stream
call_for recovery = run_recovery
call_for stopped_low_battery = run_recovery
call_for _ = returns

unfoldable pub runner_entry : ℕ → World → RunnerCall
runner_entry generation w = if is_stale generation w then returns else call_for w.run.state

-- the variables of the loop
pub record SnapshotLoop : Type 0 where
  pub schedule : SnapshotSchedule
  pub next_battery : Time
  pub next_checkpoint : Time
  pub next_measurement : Time

-- what the top of the loop comes to
pub data Top : Type 0 where
  leaves polls goes_on : Top

module _ (c : ExperimentConfig) (low : List Text) (limit_text : Text) (t : Instant) where
  abbrev pub loop_of : Result SnapshotSchedule → Result SnapshotLoop
  loop_of (err e) = err e
  loop_of (ok schedule) = ok (record {
    schedule = schedule;
    next_battery = t.mono;
    next_checkpoint = t.mono + c.stream_checkpoint_seconds;
    next_measurement = t.mono + c.measurement_interval_seconds;
  })

  abbrev pub schedule_of : Result Time → Result SnapshotSchedule
  schedule_of (err e) = err e
  schedule_of (ok interval) = new_schedule interval t.mono

  -- the lines before the loop
  unfoldable pub snapshot_begin : World → Result SnapshotLoop
  snapshot_begin w = loop_of (schedule_of (snapshot_interval c w.run.current_test_number))

  -- the loop's condition, the end of the test, and whether the battery is due
  unfoldable pub snapshot_top : ℕ → SnapshotLoop → M Top
  snapshot_top generation loop = do
    w ← gets (λ w. w)
    (if is_stale generation w then pure leaves else (do
      duration ← lift (test_duration c w.run.current_test_number)
      (if leb duration (elapsed_active w t.mono)
          then (do finish_section c low limit_text t generation; pure leaves)
          else pure (if leb loop.next_battery t.mono then polls else goes_on))))

  -- the line after a poll that the loop outlives
  unfoldable pub snapshot_polled : SnapshotLoop → SnapshotLoop
  snapshot_polled loop = record loop {
    next_battery = advance_deadline t.mono loop.next_battery c.battery_poll_seconds;
  }

  -- `none` if no capture is due, and else whether the attempt was counted and the camera is asked
  unfoldable pub snapshot_due : ℕ → SnapshotLoop → M (Option Bool)
  snapshot_due generation loop =
      if due loop.schedule t.mono
      then (do asked ← capture_attempt c low limit_text t generation; pure (some asked))
      else pure none

  unfoldable pub snapshot_captured : SnapshotLoop → SnapshotLoop
  snapshot_captured loop = record loop { schedule = advance_after_attempt loop.schedule t.mono }

  -- `none` if the loop returned
  unfoldable pub snapshot_checkpoint : ℕ → SnapshotLoop → M (Option SnapshotLoop)
  snapshot_checkpoint generation loop =
      if leb loop.next_checkpoint t.mono
      then (do
        go ← checkpoint_section c low limit_text t generation
        pure (
            if go
            then some (record loop {
              next_checkpoint =
                  advance_deadline t.mono loop.next_checkpoint c.stream_checkpoint_seconds;
            })
            else none))
      else pure (some loop)

  unfoldable pub snapshot_measure : ℕ → SnapshotLoop → M (Option SnapshotLoop)
  snapshot_measure generation loop =
      if leb loop.next_measurement t.mono
      then (do
        go ← measurement_section c low limit_text t generation
        pure (
            if go
            then some (record loop {
              next_measurement =
                  advance_deadline t.mono loop.next_measurement c.measurement_interval_seconds;
            })
            else none))
      else pure (some loop)

  -- how long the loop sleeps; `max(0.0, a - b)` is the truncated difference
  unfoldable pub snapshot_delay : SnapshotLoop → Time → Time → Time
  snapshot_delay loop duration elapsed = min (loop.schedule.next_deadline - t.mono) (
      min (loop.next_battery - t.mono) (
        min (loop.next_checkpoint - t.mono)
          (min (loop.next_measurement - t.mono) (duration - elapsed))))

  abbrev pub and_then :
      {A : Type 0} → Option SnapshotLoop → (SnapshotLoop → M (Option A)) → M (Option A)
  and_then none k = pure none
  and_then (some loop) k = k loop

  abbrev pub with_delay : SnapshotLoop → M (Option (SnapshotLoop × Time))
  with_delay loop = do
    w ← gets (λ w. w)
    duration ← lift (test_duration c w.run.current_test_number)
    pure (some (loop, snapshot_delay loop duration (elapsed_active w t.mono)))

  -- from the capture to the sleep
  unfoldable pub snapshot_rest : ℕ → SnapshotLoop → M (Option (SnapshotLoop × Time))
  snapshot_rest generation loop = do
    kept ← snapshot_checkpoint generation loop
    and_then kept (λ l. do measured ← snapshot_measure generation l; and_then measured with_delay)
