-- ===== src/Experiment/Recovery.antt =====
-- The loops of `_run_recovery` and `_run_stream` between their sections, in
-- src/blink_dashboard/experiment.py: what is due, and how long they sleep.
pub mod Laws
use blink_battery_benchmark.Common.{
  ℕ, ◌-◌, Bool, true, false, not, ◌&&◌, Option, none, some, leb, ◌==◌, min, if◌then◌else◌,
}
use blink_battery_benchmark.Text.{Text}
use blink_battery_benchmark.Action.{Done, pure}
use blink_battery_benchmark.Storage.Types.{Time, BatteryReading}
use blink_battery_benchmark.Config.Types.{ExperimentConfig}
use blink_battery_benchmark.Experiment.World.{Instant, World, M}
use blink_battery_benchmark.Experiment.Schedule.{advance_deadline}
use blink_battery_benchmark.Experiment.Controls.{Outcome}
use blink_battery_benchmark.Experiment.Sections.{is_stale, poll_battery}
use blink_battery_benchmark.Common.{List}

-- what the top of the recovery loop comes to, with the deadline that it has read
pub data RecoveryTop : Type 0 where
  is_over no_deadline : RecoveryTop
  polls waits : Time → RecoveryTop

abbrev pub top_of : Option Time → Bool → RecoveryTop
top_of none due = no_deadline
top_of (some deadline) due = if due then polls deadline else waits deadline

-- the condition of the loop, the deadline, and whether the battery is due
unfoldable pub recovery_top : ℕ → Time → Instant → World → RecoveryTop
recovery_top generation next_battery t w =
    if is_stale generation w
    then is_over
    else top_of w.run.phase_deadline_at_utc (leb next_battery t.mono)

-- `next_battery` after a poll that the loop outlives
unfoldable pub recovery_polled : ExperimentConfig → Instant → Time → Time
recovery_polled c t next_battery = advance_deadline t.mono next_battery c.battery_poll_seconds

-- the time that the recovery loop sleeps
unfoldable pub recovery_delay : Time → Time → Instant → Time
recovery_delay next_battery deadline t =
    let until_poll = next_battery - t.mono in
    let until_deadline = deadline - t.utc in
    if until_deadline == 0 then until_poll else min until_poll until_deadline

-- the battery task of the stream loop: cancelled, or done
pub data BatteryTask : Type 0 where
  task_cancelled : BatteryTask
  task_done : Outcome BatteryReading → BatteryTask

-- `_consume_stream_battery_task`
unfoldable pub consume_stream_battery_task :
    ExperimentConfig → List Text → Text → Instant → ℕ → BatteryTask → M Bool
consume_stream_battery_task c low limit_text t generation task_cancelled = pure true
consume_stream_battery_task c low limit_text t generation (task_done outcome) =
    poll_battery c low limit_text t generation outcome

-- whether the stream loop starts a battery task, and when the next is due
unfoldable pub stream_battery_due : Bool → Time → Instant → Bool
stream_battery_due has_task next_battery t = not has_task && leb next_battery t.mono

-- the longest sleep of the stream loop, 0.25 seconds
abbrev pub longest_sleep : Time
longest_sleep = 250_000

-- the time that the stream loop sleeps
unfoldable pub stream_delay : Bool → Time → Time → Time → Instant → Time
stream_delay has_task next_battery next_checkpoint next_measurement t = min longest_sleep (
    min (if has_task then longest_sleep else next_battery - t.mono)
      (min (next_checkpoint - t.mono) (next_measurement - t.mono)))
