-- ===== src/Examples/Loops.antt =====
-- Deadlines, the snapshot loop and outages, at concrete times.
use blink_battery_benchmark.Examples.Runs.{
  config, standard, now, active_world, stream_world, active_world-IsValid, stream_world-IsValid,
}
use blink_battery_benchmark.Examples.Inputs.{
  low_names, limit, full_reading, offline, rounds, joined, outage_text, told, days, spaced,
  full_reading-is_full, booted, booted-Reach,
}
use blink_battery_benchmark.Common.{
  ◌+◌, ◌≤◌, ◌<◌, ◌≡◌, refl, true, false, some, leb, if◌then◌else◌, arith,
}
use blink_battery_benchmark.Text.{codes}
use blink_battery_benchmark.Action.{Done}
use blink_battery_benchmark.Storage.Types.{Time}
use blink_battery_benchmark.Experiment.State.{completed, stopped_error}
use blink_battery_benchmark.Experiment.Battery.{normalize_battery_state}
use blink_battery_benchmark.Experiment.Phases.{elapsed_active}
use blink_battery_benchmark.Experiment.Invariant.{IsValid, Returns}
use blink_battery_benchmark.Experiment.Transitions.Laws.{Finished}
use blink_battery_benchmark.Experiment.Snapshots.{
  SnapshotLoop, leaves, polls, goes_on, snapshot_top, snapshot_rest,
}
use blink_battery_benchmark.Experiment.Snapshots.Laws.{snapshot_top-Returns, snapshot_rest-Returns}
use blink_battery_benchmark.Experiment.Streams.{stream_ended}
use blink_battery_benchmark.Experiment.Streams.Laws.{stream_ended-Returns}
use blink_battery_benchmark.Config.Build.{normalize_state}
use blink_battery_benchmark.Experiment.Battery.{nonempty}
use blink_battery_benchmark.Experiment.Battery.Laws.{normalize_battery_state-normalize_state}
use blink_battery_benchmark.Experiment.Reach.Laws.{Reach-IsValid}
use blink_battery_benchmark.Experiment.Reach.Progress.{drive, drive-completed}
use blink_battery_benchmark.Experiment.Recovery.{recovery_polled, recovery_delay}
use blink_battery_benchmark.Experiment.Recovery.Laws.{recovery_delay_bounds}

Reach-IsValid_example : IsValid booted
Reach-IsValid_example =
    Reach-IsValid config standard low_names limit joined outage_text told booted booted-Reach

drive-completed_example :
    Returns
      (λ (_ : Done) w'.
        IsValid w'
        × (w'.run.id ≡ active_world.run.id)
        × (w'.run.state ≡ completed)
        × (w'.run.current_test_number ≡ 4))
      (drive config low_names limit days full_reading active_world.generation 3 0 active_world)
drive-completed_example =
    drive-completed config standard low_names limit days full_reading 3 0 active_world
      active_world-IsValid refl full_reading-is_full spaced

snapshot_top-Returns_example :
    Returns
      (λ top w'.
        (config.test_duration_seconds ≤ elapsed_active active_world now.mono
          → (top ≡ leaves) × Finished config now active_world w')
        × (elapsed_active active_world now.mono < config.test_duration_seconds
            → (w' ≡ active_world)
              × (top ≡ (if leb rounds.next_battery now.mono then polls else goes_on))))
      (snapshot_top config low_names limit now 0 rounds active_world)
snapshot_top-Returns_example =
    snapshot_top-Returns config standard low_names limit now 0 rounds active_world
      active_world-IsValid refl

snapshot_rest-Returns_example :
    Returns
      (λ o w'.
        IsValid w'
        × ((l : SnapshotLoop) × (delay : Time) × (o ≡ some (l, delay))
            × (now.mono < l.next_checkpoint)
            × (now.mono < l.next_measurement)
            × (now.mono + delay ≤ l.next_checkpoint)
            × (now.mono + delay ≤ l.next_measurement)))
      (snapshot_rest config low_names limit now 0 rounds active_world)
snapshot_rest-Returns_example =
    snapshot_rest-Returns config standard low_names limit now 0 rounds active_world (omega arith)
      (omega arith) active_world-IsValid refl

stream_ended-Returns_example :
    Returns
      (λ leave w'.
        IsValid w'
        × (leave ≡ true → w'.run.state ≡ stopped_error)
        × (leave ≡ false
            → (w'.run.state ≡ stream_world.run.state)
              × (w'.run.stream_outage_active ≡ true)
              × (w'.run.stream_reconnects
                  ≡ stream_world.run.stream_reconnects + stream_world.pending_stream_reconnects
                    + 1)))
      (stream_ended config joined outage_text limit now 0 (some offline) stream_world)
stream_ended-Returns_example =
    stream_ended-Returns config standard joined outage_text limit now 0 (some offline) stream_world
      stream_world-IsValid refl

normalize_battery_state-normalize_state_example :
    normalize_battery_state (some (codes " Needs-Replacement "))
    ≡ nonempty (normalize_state (codes " Needs-Replacement "))
normalize_battery_state-normalize_state_example =
    normalize_battery_state-normalize_state (codes " Needs-Replacement ")

recovery_delay_bounds_example :
    let next = recovery_polled config now 650 in
    let delay = recovery_delay next 99000 now in
    (0 < delay)
    × (now.mono + delay ≤ next)
    × (now.utc + delay ≤ (if leb 99000 now.utc then now.utc + next else 99000))
recovery_delay_bounds_example = recovery_delay_bounds config 650 99000 now (omega arith)
