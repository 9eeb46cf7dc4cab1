-- ===== src/Dashboard/Controls.antt =====
-- The experiment's controls over HTTP in src/blink_dashboard/app.py: `_control`, and the flags of
-- `status` that tell the page which of them it may offer.
pub mod Laws
use blink_battery_benchmark.Common.{
  ℕ, Bool, true, false, not, Option, none, some, List, [], ◌∷◌, if◌then◌else◌,
}
use blink_battery_benchmark.Text.{Text, codes, text_eq}
use blink_battery_benchmark.Action.{
  Error, invalid_transition, Result, ok, err, modify, ◌>>=◌, ◌>>◌, continue,
}
use blink_battery_benchmark.Storage.Types.{RunRecord, BatteryReading}
use blink_battery_benchmark.Config.Types.{ExperimentConfig}
use blink_battery_benchmark.Experiment.State.{
  ExperimentState, not_started, running_snapshot, running_stream, recovery, stopped_low_battery,
  stopped_manual,
}
use blink_battery_benchmark.Experiment.World.{Instant, World, M}
use blink_battery_benchmark.Experiment.Controls.{
  Outcome, start, stop, restart, continue_check, continue_outcome,
}
use blink_battery_benchmark.Dashboard.Web.{
  Request, Response, Answer, answered, crashed, Handler, response,
}

-- the `controls` of `status`
pub record Offered : Type 0 where
  pub start : Bool
  pub stop : Bool
  pub restart : Bool
  pub go_on : Bool

abbrev pub offers_start : ExperimentState → Bool
offers_start not_started = true
offers_start stopped_manual = true
offers_start _ = false

abbrev pub offers_stop : ExperimentState → Bool
offers_stop running_snapshot = true
offers_stop running_stream = true
offers_stop recovery = true
offers_stop stopped_low_battery = true
offers_stop _ = false

abbrev pub offers_restart : ExperimentState → Bool
offers_restart not_started = false
offers_restart _ = true

abbrev pub offers_continue : ExperimentState → Bool
offers_continue stopped_low_battery = true
offers_continue _ = false

unfoldable pub offered : ExperimentState → Offered
offered st = record {
  start = offers_start st;
  stop = offers_stop st;
  restart = offers_restart st;
  go_on = offers_continue st;
}

-- `continue_after_low_battery` over its await: `between` is what other tasks do to the world while the
-- battery is read.
unfoldable pub continue_after_low_battery :
    ExperimentConfig
    → List Text
    → Instant
    → Instant
    → (World → World)
    → Outcome BatteryReading
    → M RunRecord
continue_after_low_battery c low t₁ t₂ between outcome = do
  (run_id, generation) ← continue_check c t₁
  modify between
  continue_outcome c t₂ low run_id generation outcome

-- how the handler answers for a method's result: what is not an `InvalidTransition` is raised on
abbrev pub answer_of : Result RunRecord → Answer
answer_of (ok run) = answered (response 202 none)
answer_of (err (invalid_transition detail)) =
    answered (response 409 (some (codes "invalid_transition")))
answer_of (err e) = crashed e

-- `_control`, for the method's action
unfoldable pub control : M RunRecord → Handler World
unfolding text_eq
control method request w =
    if not (text_eq request.content_type (codes "application/json"))
    then (answered (response 415 (some (codes "unsupported_media_type"))), w)
    else (answer_of (method w).0, (method w).1)
