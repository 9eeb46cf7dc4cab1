-- ===== src/Experiment/Recovery/Laws.antt =====
-- The loops of the recovery and the stream neither spin nor oversleep.
use blink_battery_benchmark.Common.{◌+◌, ◌≤◌, ◌<◌, leb, arith, if◌then◌else◌}
use blink_battery_benchmark.Storage.Types.{Time}
use blink_battery_benchmark.Config.Types.{ExperimentConfig}
use blink_battery_benchmark.Experiment.World.{Instant}
use blink_battery_benchmark.Experiment.Schedule.Laws.{advance_deadline-past}
use blink_battery_benchmark.Experiment.Recovery.{recovery_polled, recovery_delay}

-- For a poll interval above 0: after a poll, the recovery loop sleeps for some time, which ends no
-- later than the next poll is due, and no later than the deadline if that lies ahead.
pub recovery_delay_bounds :
    (c : ExperimentConfig) (next_battery deadline : Time) (t : Instant)
    → 0 < c.battery_poll_seconds
    → let next = recovery_polled c t next_battery in
      let delay = recovery_delay next deadline t in
      (0 < delay)
      × (t.mono + delay ≤ next)
      × (t.utc + delay ≤ (if leb deadline t.utc then t.utc + next else deadline))
unfolding recovery_polled recovery_delay
recovery_delay_bounds c next_battery deadline t p =
    ground (arith, advance_deadline-past t.mono next_battery c.battery_poll_seconds p)
