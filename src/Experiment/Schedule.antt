-- ===== src/Experiment/Schedule.antt =====
-- Deadlines in src/blink_dashboard/experiment.py: `SnapshotSchedule` and `_advance_deadline`.
pub mod Laws
use blink_battery_benchmark.Common.{ℕ, ◌+◌, ◌-◌, ◌*◌, ◌/◌, Bool, ltb, leb, if◌then◌else◌, max, ◌==◌}
use blink_battery_benchmark.Action.{Result, ok, err, bad_interval}
use blink_battery_benchmark.Storage.Types.{Time}

-- `max(1, math.floor((now - deadline) / interval) + 1)`; a clock before the deadline gives a floor
-- below 0, hence 1
unfoldable pub missed_steps : Time → Time → Time → ℕ
missed_steps now deadline interval =
    if ltb now deadline then 1 else max 1 ((now - deadline) / interval + 1)

unfoldable pub advance_deadline : Time → Time → Time → Time
unfolding missed_steps
advance_deadline now deadline interval = deadline + missed_steps now deadline interval * interval

pub record SnapshotSchedule : Type 0 where
  pub interval_seconds : Time
  pub next_deadline : Time

unfoldable pub new_schedule : Time → Time → Result SnapshotSchedule
new_schedule interval_seconds anchor =
    if leb interval_seconds 0
    then err bad_interval
    else ok (record { interval_seconds = interval_seconds; next_deadline = anchor })

unfoldable pub due : SnapshotSchedule → Time → Bool
due s now = leb s.next_deadline now

unfoldable pub advance_after_attempt : SnapshotSchedule → Time → SnapshotSchedule
unfolding missed_steps
advance_after_attempt s now = record s {
  next_deadline =
      s.next_deadline + missed_steps now s.next_deadline s.interval_seconds * s.interval_seconds;
}
