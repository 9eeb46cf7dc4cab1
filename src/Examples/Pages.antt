-- ===== src/Examples/Pages.antt =====
-- The HTTP application, at concrete requests.
use blink_battery_benchmark.Examples.Runs.{
  config, standard, now, active_world, active_world-IsValid,
}
use blink_battery_benchmark.Examples.Inputs.{low_names, limit}
use blink_battery_benchmark.Examples.Requests.{
  json_request, json_request-is_json, pillow, shown_bytes, body_bytes, shot,
}
use blink_battery_benchmark.Examples.Logins.{handler}
use blink_battery_benchmark.Common.{◌+◌, ◌≡◌, refl, true, none, some, List, arith}
use blink_battery_benchmark.Text.{codes, text_eq}
use blink_battery_benchmark.Action.{Done}
use blink_battery_benchmark.Experiment.State.{running_snapshot, running_stream, recovery, completed}
use blink_battery_benchmark.Experiment.Invariant.{IsValid, Returns, counters}
use blink_battery_benchmark.Experiment.Controls.{start, stop, restart}
use blink_battery_benchmark.Experiment.Sections.{capture_outcome}
use blink_battery_benchmark.Experiment.Controls.{continue_check}
use blink_battery_benchmark.Dashboard.Web.{security_headers, access_control}
use blink_battery_benchmark.Dashboard.Web.Laws.{
  status_of, verdict, verdict_status, verdict_state, access_control-lan,
}
use blink_battery_benchmark.Dashboard.Controls.{offered, control}
use blink_battery_benchmark.Dashboard.Controls.Laws.{accepted, is_ok, control-offered}
use blink_battery_benchmark.Dashboard.Progress.{progress}
use blink_battery_benchmark.Dashboard.Progress.Laws.{spent, progress-spent}
use blink_battery_benchmark.Dashboard.Backend.{capture_snapshot, delivered, over_http}
use blink_battery_benchmark.Dashboard.Backend.Pictures.{tally, expected_capture}
use blink_battery_benchmark.Dashboard.Backend.Laws.{snapshot-Returns}
use blink_battery_benchmark.Adapter.Operations.{adapter_snapshot, handle_snapshot}

access_control-lan_example :
    let served =
      security_headers (access_control true (some (codes "secret")) handler) json_request 4 in
    let v = verdict (codes "secret") json_request in
    (status_of served.0 ≡ verdict_status v (status_of (handler json_request 4).0))
    × (served.1 ≡ verdict_state v (handler json_request 4).1 4)
unfolding text_eq
access_control-lan_example = access_control-lan (some (codes "secret")) handler json_request 4 refl

control-offered_example :
    (status_of (control (start config now) json_request active_world).0
      ≡ accepted (offered active_world.run.state).start)
    × (status_of (control (stop config now) json_request active_world).0
        ≡ accepted (offered active_world.run.state).stop)
    × (status_of (control (restart config now) json_request active_world).0 ≡ some 202)
    × (is_ok (continue_check config now active_world).0 ≡ (offered active_world.run.state).go_on)
control-offered_example =
    control-offered config standard now json_request active_world active_world-IsValid
      json_request-is_json

progress-spent_example :
    (progress config running_snapshot 1 40000 none ≡ spent config 1 + 40000)
    × (progress config recovery 1 7 (some 500) + 500 ≡ spent config (1 + 1))
    × (progress config running_stream (1 + 1) 30 none ≡ spent config (1 + 1) + 30)
    × (progress config completed 1 7 none ≡ spent config 3 + config.test_duration_seconds)
progress-spent_example =
    progress-spent config running_snapshot running_stream 3 1 40000 30 500 7 none refl refl refl
      (omega arith) (omega arith) (omega arith) (omega arith)

snapshot-Returns_example :
    Returns
      (λ (_ : Done) w'.
        IsValid w'
        × (counters w'.run
            ≡ tally (expected_capture pillow none delivered shot) (counters active_world.run)))
      (capture_outcome config low_names limit now 0
        (capture_snapshot pillow shown_bytes none
          (over_http body_bytes delivered (handle_snapshot (adapter_snapshot 50 none shot).0)))
        active_world)
snapshot-Returns_example =
    snapshot-Returns pillow none shown_bytes body_bytes config standard low_names limit now
      delivered 50 none shot 0 active_world active_world-IsValid refl
