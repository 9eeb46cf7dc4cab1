-- ===== src/Examples/Moves.antt =====
-- Checkpoints and transitions, at concrete runs.
use blink_battery_benchmark.Examples.Runs.{
  config, standard, now, active_world, stream_world, active_world-IsValid, stream_world-IsValid,
}
use blink_battery_benchmark.Examples.Inputs.{limit, offline}
use blink_battery_benchmark.Action.{Done}
use blink_battery_benchmark.Experiment.Phases.{checkpoint_active_locked}
use blink_battery_benchmark.Experiment.Invariant.{Returns}
use blink_battery_benchmark.Experiment.Invariant.Checkpoints.{
  Checkpointed, checkpoint_active_locked-Returns,
}
use blink_battery_benchmark.Experiment.Transitions.{finish_active_locked, note_failure_locked}
use blink_battery_benchmark.Experiment.Transitions.Laws.{
  Finished, Noted, finish_active_locked-Returns, note_failure_locked-Returns,
}

finish_active_locked-Returns_example :
    Returns
      (λ (_ : Done) w'. Finished config now active_world w')
      (finish_active_locked config now active_world)
finish_active_locked-Returns_example =
    finish_active_locked-Returns config standard now active_world active_world-IsValid

checkpoint_active_locked-Returns_example :
    Returns
      (λ (_ : Done) w'. Checkpointed now stream_world w')
      (checkpoint_active_locked now stream_world)
checkpoint_active_locked-Returns_example =
    checkpoint_active_locked-Returns now stream_world stream_world-IsValid

note_failure_locked-Returns_example :
    Returns
      (λ fatal w'. Noted config now fatal active_world w')
      (note_failure_locked config now limit offline active_world)
note_failure_locked-Returns_example =
    note_failure_locked-Returns config standard now limit offline active_world active_world-IsValid
