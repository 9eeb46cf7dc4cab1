-- ===== src/Examples/Controls.antt =====
-- The controls of a run, at concrete runs.
use blink_battery_benchmark.Examples.Runs.{
  config, standard, now, resume_time, active_world, stream_world, low_world, active_world-IsValid,
  stream_world-IsValid, low_world-IsValid,
}
use blink_battery_benchmark.Examples.Inputs.{full_reading, fresh_world, fresh_world-IsValid}
use blink_battery_benchmark.Common.{◌+◌, ◌≡◌, ◌≢◌, refl, true, none}
use blink_battery_benchmark.Action.{Done, ◌>>◌}
use blink_battery_benchmark.Experiment.State.{completed, is_active, is_recovering}
use blink_battery_benchmark.Experiment.Phases.{elapsed_active}
use blink_battery_benchmark.Experiment.Invariant.{IsValid, Returns}
use blink_battery_benchmark.Experiment.Controls.{
  is_running, start, stop, restart, continue_apply, shutdown,
}
use blink_battery_benchmark.Experiment.Controls.Laws.{Stopped, stop-Returns}
use blink_battery_benchmark.Experiment.Controls.Resume.{start-stop}
use blink_battery_benchmark.Experiment.Controls.Lifecycle.{
  Restarted, restart-Returns, shutdown-Returns, continue_apply-Returns,
}
use blink_battery_benchmark.Experiment.Controls.{initialize}
use blink_battery_benchmark.Experiment.Controls.Initialize.{Initialized, initialize-Returns}

start-stop_example :
    Returns
      (λ _ w'.
        IsValid w'
        × (w'.run.id ≡ active_world.run.id)
        × (w'.run.state ≡ active_world.run.state)
        × (w'.run.current_test_number ≡ active_world.run.current_test_number)
        × (is_active active_world.run.state ≡ true
            → w'.run.active_elapsed_seconds ≡ elapsed_active active_world now.mono)
        × (is_recovering active_world.run.state ≡ true
            → w'.run.phase_deadline_at_utc ≡ active_world.run.phase_deadline_at_utc)
        × (is_running w'.runner_task ≡ true))
      ((stop config now >> start config resume_time) active_world)
start-stop_example =
    start-stop config standard now resume_time active_world active_world-IsValid refl

stop-Returns_example :
    Returns (λ r w'. (r ≡ w'.run) × Stopped now active_world w') (stop config now active_world)
stop-Returns_example = stop-Returns config standard now active_world active_world-IsValid refl

continue_apply-Returns_example :
    Returns
      (λ r w'.
        (r ≡ w'.run)
        × IsValid w'
        × (w'.generation ≡ low_world.generation + 1)
        × (low_world.run.current_test_number ≡ 4 → w'.run.state ≡ completed)
        × (low_world.run.current_test_number ≢ 4
            → (w'.run.current_test_number ≡ low_world.run.current_test_number + 1)
              × (w'.run.active_elapsed_seconds ≡ 0)
              × (is_active w'.run.state ≡ true)))
      (continue_apply config now 1 0 full_reading low_world)
continue_apply-Returns_example =
    continue_apply-Returns config standard now 1 0 full_reading low_world low_world-IsValid refl
      refl

initialize-Returns_example :
    Returns (λ r w'. (r ≡ w'.run) × Initialized fresh_world w') (initialize config now fresh_world)
initialize-Returns_example =
    initialize-Returns config standard now fresh_world fresh_world-IsValid refl

restart-Returns_example :
    Returns (λ r w'. (r ≡ w'.run) × Restarted stream_world w') (restart config now stream_world)
restart-Returns_example = restart-Returns config standard now stream_world stream_world-IsValid

shutdown-Returns_example :
    Returns
      (λ (_ : Done) w'.
        IsValid w'
        × (w'.run.state ≡ active_world.run.state)
        × (w'.generation ≡ active_world.generation + 1)
        × (w'.runner_task ≡ none)
        × (is_active active_world.run.state ≡ true
            → (w'.run.active_elapsed_seconds ≡ elapsed_active active_world now.mono)
              × (w'.phase_id ≡ none)
              × (w'.run.phase_started_at_utc ≡ none)))
      (shutdown config now active_world)
shutdown-Returns_example = shutdown-Returns config standard now active_world active_world-IsValid
