-- ===== src/Examples/Polls.antt =====
-- The sections of the runner task, at concrete runs.
use blink_battery_benchmark.Examples.Runs.{
  config, standard, now, active_world, low_world, active_world-IsValid, low_world-IsValid,
}
use blink_battery_benchmark.Examples.Inputs.{
  low_names, limit, full_reading, low_reading, low_reading-is_low, offline,
}
use blink_battery_benchmark.Common.{◌≡◌, refl, true, none, some}
use blink_battery_benchmark.Text.{codes}
use blink_battery_benchmark.Action.{Done}
use blink_battery_benchmark.Experiment.Invariant.{IsValid, Returns}
use blink_battery_benchmark.Experiment.Transitions.Laws.{Low}
use blink_battery_benchmark.Experiment.Controls.{returned, raised}
use blink_battery_benchmark.Experiment.Sections.{capture_outcome, poll_battery, recovery_read}
use blink_battery_benchmark.Experiment.Sections.Laws.{
  Captured, capture_outcome-Returns, poll_battery-Returns, poll_battery-Low, Polled,
}
use blink_battery_benchmark.Experiment.Sections.Recovery.{Recovered, recovery_read-Returns}

poll_battery-Low_example :
    Returns
      (λ leave w'. (leave ≡ true) × Low config now active_world w')
      (poll_battery config low_names limit now 0 (returned low_reading) active_world)
poll_battery-Low_example =
    poll_battery-Low config standard low_names limit now 0 low_reading active_world
      active_world-IsValid refl low_reading-is_low refl

recovery_read-Returns_example :
    Returns
      (λ leave w'.
        IsValid w' × Recovered config now low_names 99000 full_reading leave low_world w')
      (recovery_read config low_names limit now 99000 full_reading low_world)
recovery_read-Returns_example =
    recovery_read-Returns config standard low_names limit now 99000 full_reading low_world
      low_world-IsValid

capture_outcome-Returns_example :
    Returns
      (λ (_ : Done) w'. Captured (raised (some (codes "snapshot_timeout")) offline) active_world w')
      (capture_outcome config low_names limit now 0
        (raised (some (codes "snapshot_timeout")) offline)
        active_world)
capture_outcome-Returns_example =
    capture_outcome-Returns config standard low_names limit now 0
      (raised (some (codes "snapshot_timeout")) offline) active_world active_world-IsValid refl

poll_battery-Returns_example :
    Returns
      (λ leave w'. Polled low_names (raised none offline) leave active_world w')
      (poll_battery config low_names limit now 0 (raised none offline) active_world)
poll_battery-Returns_example =
    poll_battery-Returns config standard low_names limit now 0 (raised none offline) active_world
      active_world-IsValid refl
