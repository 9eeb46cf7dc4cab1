-- ===== src/Experiment/Status/Laws.antt =====
-- What `get_status` reports, and that a runner begins in a valid world.
use blink_battery_benchmark.Common.{
  ◌+◌, ◌≡◌, refl, true, none, some, List, [], ◌∷◌, leb, ltb, every, subst, ap, arith, Bool-cases,
  inl, inr, ==_refl, is_some,
}
use blink_battery_benchmark.Text.{Text}
use blink_battery_benchmark.Action.{ok, err}
use blink_battery_benchmark.Storage.Types.{Time, RunRecord, Store}
use blink_battery_benchmark.Storage.Runs.{latest_run, create_run, find_run, get_run}
use blink_battery_benchmark.Storage.Runs.Laws.{create_run_lem}
use blink_battery_benchmark.Config.Types.{ExperimentConfig}
use blink_battery_benchmark.Experiment.State.{not_started, is_stream}
use blink_battery_benchmark.Experiment.World.{Instant, World}
use blink_battery_benchmark.Experiment.Battery.{low_states}
use blink_battery_benchmark.Experiment.Outage.Laws.{Tracked, stream_outage_duration-Returns}
use blink_battery_benchmark.Experiment.Phases.{elapsed_active}
use blink_battery_benchmark.Experiment.Controls.{is_running}
use blink_battery_benchmark.Experiment.Snapshots.Laws.{test_duration-IsStandard}
use blink_battery_benchmark.Experiment.Invariant.{
  row_fits, descends, IsStandard, IsValid, Returns, Returns-bind, Returns-pure, test-IsStandard,
}
use blink_battery_benchmark.Experiment.Status.{
  remaining, get_status, first_run, is_empty, run_in, construct, world_with,
}

-- For a standard configuration and a valid world: `get_status` returns in a valid world with the
-- run, state, stage, active time, counters, generation, runner task and held phase as they were;
-- the status holds the run it leaves, the active time, the time that is left of the test if it is
-- active or was stopped by hand, whether the runner task is alive, and the length of an outage
-- exactly in the stream state.
pub get_status-Returns :
    (c : ExperimentConfig) (std : IsStandard c) (t : Instant) (w : World)
    → IsValid w
    → Returns
        (λ s w'.
          Tracked w w'
          × (s.run ≡ w'.run)
          × (s.active_elapsed_seconds ≡ elapsed_active w t.mono)
          × (s.active_remaining_seconds
              ≡ remaining w.run.state c.test_duration_seconds (elapsed_active w t.mono))
          × (s.runner_active ≡ is_running w.runner_task)
          × (is_some s.stream_outage_seconds ≡ is_stream w.run.state))
        (get_status c t w)
unfolding get_status
get_status-Returns c std t w v =
    let (x, e, _) = test-IsStandard c w.run.current_test_number std (ground arith) in
    let d = test_duration-IsStandard c w.run.current_test_number std (ground arith) in
    rw (e, d)
      (Returns-bind (stream_outage_duration-Returns c t t.mono w v)
        λ o w₁ k. Returns-pure _ w₁ (k.0, refl, refl, refl, refl, k.1))

world_with-fits :
    (r : RunRecord) (s : Store) (w : World)
    → get_run r.id s ≡ some r
    → row_fits r ≡ true
    → descends s.last_phase_id s.phases ≡ true
    → ok (world_with s r) ≡ ok w
    → IsValid w × (w.generation ≡ 0) × (w.runner_task ≡ none) × (w.phase_id ≡ none)
world_with-fits r s w f x d h =
    subst (λ v. IsValid v × (v.generation ≡ 0) × (v.runner_task ≡ none) × (v.phase_id ≡ none))
      (ap (λ v. elim v [ ok a ↦ a | err e ↦ w ]) h)
      (record { synced = f; row = x; phase = refl; ids = d }, refl, refl, refl)

run_in-fits :
    (rs : List RunRecord) (now : Time) (s : Store) (w : World)
    → s.runs ≡ rs
    → every row_fits rs ≡ true
    → descends s.last_phase_id s.phases ≡ true
    → run_in (first_run (latest_run s) now s) ≡ ok w
    → IsValid w × (w.generation ≡ 0) × (w.runner_task ≡ none) × (w.phase_id ≡ none)
unfolding latest_run find_run
run_in-fits [] now s w e f d h =
    let h₁ : run_in (create_run not_started now s) ≡ ok w =
      subst (λ rs. run_in (first_run (elim rs [ [] ↦ none | r ∷ _ ↦ some r ]) now s) ≡ ok w) e h in
    let h₂ = subst (λ v. run_in v ≡ ok w) (create_run_lem not_started now s) h₁ in
    world_with-fits _ _ w (rw (==_refl (s.last_run_id + 1)) refl) refl d h₂
run_in-fits (r ∷ rs) now s w e f d h =
    let h₁ =
      subst (λ rs. run_in (first_run (elim rs [ [] ↦ none | r ∷ _ ↦ some r ]) now s) ≡ ok w) e h in
    world_with-fits r s w (rw (e, ==_refl r.id) refl) (ground arith) d h₁

-- For a store in which every run fits its stage and the phase ids fall below the counter: a runner
-- that is constructed begins in a valid world, with generation 0, no task and no held phase.
pub construct-IsValid :
    (c : ExperimentConfig) (names : List Text) (now : Time) (s : Store) (w : World)
    → every row_fits s.runs ≡ true
    → descends s.last_phase_id s.phases ≡ true
    → construct c names now s ≡ ok w
    → IsValid w × (w.generation ≡ 0) × (w.runner_task ≡ none) × (w.phase_id ≡ none)
unfolding construct latest_run
construct-IsValid c names now s w f d h = elim (Bool-cases (leb c.stream_data_timeout_seconds 0)) [
  | inl e ↦ ground arith
  | inr e₁ ↦ elim (Bool-cases (ltb c.fatal_outage_seconds c.stream_data_timeout_seconds)) [
    | inl e ↦ ground arith
    | inr e₂ ↦ elim (Bool-cases (is_empty (low_states names))) [
      | inl e ↦ ground arith
      | inr e₃ ↦
          let chosen : run_in (first_run (latest_run s) now s) ≡ ok w = ground arith in
          run_in-fits s.runs now s w refl f d chosen
    ]
  ]
]
