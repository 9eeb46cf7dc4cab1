-- ===== src/Dashboard/Controls/Laws.antt =====
-- The controls that the status offers are the ones that the runner accepts.
use blink_battery_benchmark.Common.{
  ℕ, ◌≡◌, refl, Bool, true, false, ◌||◌, Option, some, arith, Bool-cases, inl, inr, if◌then◌else◌,
}
use blink_battery_benchmark.Text.{codes, text_eq}
use blink_battery_benchmark.Action.{Result, ok, err}
use blink_battery_benchmark.Storage.Types.{RunRecord}
use blink_battery_benchmark.Config.Types.{ExperimentConfig}
use blink_battery_benchmark.Experiment.State.{is_active, is_recovering, is_low}
use blink_battery_benchmark.Experiment.World.{Instant, World}
use blink_battery_benchmark.Experiment.Controls.{start, stop, restart, continue_check}
use blink_battery_benchmark.Experiment.Controls.Laws.{stop-Returns, stop_refused}
use blink_battery_benchmark.Experiment.Controls.Resume.{start-Returns, start_refused}
use blink_battery_benchmark.Experiment.Controls.Lifecycle.{restart-Returns}
use blink_battery_benchmark.Experiment.Reach.Controls.{startable}
use blink_battery_benchmark.Experiment.Invariant.{IsStandard, IsValid, Returns}
use blink_battery_benchmark.Dashboard.Web.{Request}
use blink_battery_benchmark.Dashboard.Web.Laws.{status_of}
use blink_battery_benchmark.Dashboard.Controls.{
  offered, offers_start, offers_stop, control, answer_of,
}

-- the status of a control that is accepted or not
abbrev pub accepted : Bool → Option ℕ
accepted b = if b then some 202 else some 409

abbrev pub is_ok {ℓ} : {A : Type ℓ} → Result A → Bool
is_ok (ok a) = true
is_ok (err e) = false

Returns-accepted {ℓ} :
    {Q : RunRecord → World → Type ℓ} {r : Result RunRecord × World}
    → Returns Q r
    → status_of (answer_of r.0) ≡ some 202
Returns-accepted h = rw h.returns refl

module _ (c : ExperimentConfig) (std : IsStandard c) (t : Instant) where
  start-accepted :
      (w : World)
      → IsValid w
      → status_of (answer_of (start c t w).0) ≡ accepted (offers_start w.run.state)
  start-accepted w v = elim (startable w.run.state) [
    | inl s ↦
        let b : offers_start w.run.state ≡ true = ground arith in
        rw b (Returns-accepted (start-Returns c std t w v s))
    | inr n ↦
        let b : offers_start w.run.state ≡ false = ground arith in
        rw (start_refused c std t w n.0 n.1, b) refl
  ]

  stop-accepted :
      (w : World)
      → IsValid w
      → status_of (answer_of (stop c t w).0) ≡ accepted (offers_stop w.run.state)
  stop-accepted w v = elim (Bool-cases (is_active w.run.state || is_recovering w.run.state)) [
    | inl s ↦
        let b : offers_stop w.run.state ≡ true = ground arith in
        rw b (Returns-accepted (stop-Returns c std t w v s))
    | inr n ↦
        let b : offers_stop w.run.state ≡ false = ground arith in
        rw (stop_refused c std t w n, b) refl
  ]

  -- For a standard configuration, a valid world and a JSON request: `start` and `stop` over HTTP
  -- are answered with 202 exactly if the status offers them and else with 409, `restart` with 202,
  -- and the check of `continue` returns exactly if the status offers it.
  pub control-offered :
      (request : Request) (w : World)
      → IsValid w
      → text_eq request.content_type (codes "application/json") ≡ true
      → (status_of (control (start c t) request w).0 ≡ accepted (offered w.run.state).start)
        × (status_of (control (stop c t) request w).0 ≡ accepted (offered w.run.state).stop)
        × (status_of (control (restart c t) request w).0 ≡ some 202)
        × (is_ok (continue_check c t w).0 ≡ (offered w.run.state).go_on)
  unfolding control offered continue_check
  control-offered request w v j = (
    rw j (start-accepted w v),
    rw j (stop-accepted w v),
    rw j (Returns-accepted (restart-Returns c std t w v)),
    elim (Bool-cases (is_low w.run.state)) [
      | inl l ↦ rw l (ground arith)
      | inr n ↦ rw n (ground arith)
    ],
  )
