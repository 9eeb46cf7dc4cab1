-- ===== src/Experiment/Controls/Initialize.antt =====
-- What `initialize` does with the world that a runner is constructed in.
use blink_battery_benchmark.Common.{
  ℕ, ◌-◌, ◌≤◌, ◌≡◌, refl, true, false, ◌&&◌, Option, none, some, List, [], ◌∷◌, ◌==◌, if◌then◌else◌,
  is_some, arith, Bool-cases, inl, inr, ap, ◌∙◌, subst, ==_refl,
}
use blink_battery_benchmark.Text.{codes}
use blink_battery_benchmark.Action.{Done, when}
use blink_battery_benchmark.Storage.Types.{PhaseRow}
use blink_battery_benchmark.Storage.Phases.{is_open, find_open, open_phase}
use blink_battery_benchmark.Storage.Phases.Laws.{holds_open, end_phase-with_end}
use blink_battery_benchmark.Config.Types.{ExperimentConfig}
use blink_battery_benchmark.Experiment.State.{
  ExperimentState, is_active, is_recovering, is_resumable,
}
use blink_battery_benchmark.Experiment.World.{Instant, World}
use blink_battery_benchmark.Experiment.Phases.{begin_active_locked, begin_recovery_phase_locked}
use blink_battery_benchmark.Experiment.Controls.{
  is_running, start_runner_locked, close_interrupted, initialize,
}
use blink_battery_benchmark.Experiment.Controls.Resume.{runner-Returns}
use blink_battery_benchmark.Experiment.Invariant.{
  descends, counters, IsStandard, IsValid, Returns, Returns-bind, Returns-pure, Returns-mono,
  Returns-when,
}
use blink_battery_benchmark.Experiment.Invariant.Steps.{descends-put_end}
use blink_battery_benchmark.Experiment.Invariant.Phases.{
  begin_active_locked-Returns, begin_recovery_phase_locked-Returns,
}

-- the newest open phase of a run is open under its id, since no other row has that id
find_open-holds_open :
    (run_id bound : ℕ) (ps : List PhaseRow) (p : PhaseRow)
    → descends bound ps ≡ true
    → find_open run_id ps ≡ some p
    → (holds_open p.id ps ≡ true) × (p.id ≤ bound)
unfolding find_open holds_open
find_open-holds_open run_id bound [] p d h = ground arith
find_open-holds_open run_id bound (q ∷ qs) p d h =
    elim (Bool-cases (q.run_id == run_id && is_open q)) [
      | inl here ↦
          let same : q ≡ p = ground arith in
          subst (λ z. (holds_open z.id (q ∷ qs) ≡ true) × (z.id ≤ bound)) same
            (rw (==_refl q.id) (ground arith))
      | inr there ↦
          let ih = find_open-holds_open run_id (q.id - 1) qs p (ground arith) (ground arith) in
          let apart : (q.id == p.id) ≡ false = ground arith in rw apart (ih.0, ground arith)
    ]

-- What `initialize` does: the run and its stage are as they were, and an automatic state goes on.
pub record Initialized (w w' : World) : Type 0 where
  pub valid : IsValid w'
  pub id : w'.run.id ≡ w.run.id
  pub state : w'.run.state ≡ w.run.state
  pub number : w'.run.current_test_number ≡ w.run.current_test_number
  pub elapsed : w'.run.active_elapsed_seconds ≡ w.run.active_elapsed_seconds
  pub deadline :
      is_recovering w.run.state ≡ true → w'.run.phase_deadline_at_utc ≡ w.run.phase_deadline_at_utc
  pub counts : counters w'.run ≡ counters w.run
  pub generation : w'.generation ≡ w.generation
  pub running :
      is_resumable w.run.state ≡ true
      → (is_running w'.runner_task ≡ true) × (is_some w'.phase_id ≡ true)
  pub idle : is_resumable w.run.state ≡ false → (w'.run ≡ w.run) × (w'.runner_task ≡ w.runner_task)

-- the middle of `initialize`: the phase of an automatic state
record Entered (w w' : World) : Type 0 where
  valid : IsValid w'
  id : w'.run.id ≡ w.run.id
  state : w'.run.state ≡ w.run.state
  number : w'.run.current_test_number ≡ w.run.current_test_number
  elapsed : w'.run.active_elapsed_seconds ≡ w.run.active_elapsed_seconds
  deadline :
      is_recovering w.run.state ≡ true → w'.run.phase_deadline_at_utc ≡ w.run.phase_deadline_at_utc
  counts : counters w'.run ≡ counters w.run
  generation : w'.generation ≡ w.generation
  task : w'.runner_task ≡ w.runner_task
  held : is_resumable w.run.state ≡ true → is_some w'.phase_id ≡ true
  idle : is_resumable w.run.state ≡ false → w'.run ≡ w.run

module _ (c : ExperimentConfig) (std : IsStandard c) (t : Instant) where
  close_interrupted-Returns :
      (o : Option PhaseRow) (w : World)
      → IsValid w
      → w.phase_id ≡ none
      → open_phase w.run.id w.store ≡ o
      → Returns
          (λ (_ : Done) w'.
            IsValid w'
            × (w'.run ≡ w.run)
            × (w'.generation ≡ w.generation)
            × (w'.runner_task ≡ w.runner_task))
          (close_interrupted c t o w)
  unfolding open_phase
  close_interrupted-Returns none w v n e = Returns-pure tt w (v, refl, refl, refl)
  close_interrupted-Returns (some p) w v n e =
      let f = find_open-holds_open w.run.id w.store.last_phase_id w.store.phases p v.ids e in
      rw (end_phase-with_end p.id t.utc (codes "interrupted") none w.store f.0) (
        Returns-pure tt _ (
          record {
            synced = v.synced;
            row = v.row;
            phase = rw n refl;
            ids =
                descends-put_end p.id t.utc (codes "interrupted") none w.store.last_phase_id
                  w.store.phases
                ∙ v.ids;
          },
          refl,
          refl,
          refl,
        ))

  enter-Returns :
      (st : ExperimentState) (w : World)
      → IsValid w
      → w.run.state ≡ st
      → Returns
          (λ (_ : Done) w'. Entered w w')
          ((if is_active st
              then begin_active_locked c t true true
              else when (is_recovering st) (begin_recovery_phase_locked c t true))
            w)
  enter-Returns st w v same = elim (Bool-cases (is_active st)) [
    | inl active ↦ rw active (
        Returns-mono (begin_active_locked-Returns c std t true true w v (ground arith))
          (λ _ w' b. ground arith))
    | inr other ↦ rw other (
        Returns-when (is_recovering st) _ w
          (λ recovers.
            Returns-mono (begin_recovery_phase_locked-Returns c std t true w v)
              (λ _ w' b. ground arith))
          (λ idle. ground arith))
  ]

  maybe_runner :
      (w w₂ : World)
      → IsValid w₂
      → Returns
          (λ (_ : Done) w'.
            IsValid w'
            × (w'.run ≡ w₂.run)
            × (w'.phase_id ≡ w₂.phase_id)
            × (w'.generation ≡ w₂.generation)
            × (is_resumable w.run.state ≡ true → is_running w'.runner_task ≡ true)
            × (is_resumable w.run.state ≡ false → w'.runner_task ≡ w₂.runner_task))
          (when (is_resumable w.run.state) start_runner_locked w₂)
  maybe_runner w w₂ v =
      Returns-when (is_resumable w.run.state) _ w₂
        (λ on. Returns-mono (runner-Returns c std t w₂ v) (λ _ w' r. ground arith))
        (λ off. ground arith)

  -- For a standard configuration and a valid world with no held phase: `initialize` returns the
  -- run it leaves, in a valid world, with the same run, state, stage, active time, counters and
  -- generation, and with the same deadline if it recovers; where the run has to go on, a phase is
  -- held and a runner task is alive, and otherwise the run and the task are as they were.
  pub initialize-Returns :
      (w : World)
      → IsValid w
      → w.phase_id ≡ none
      → Returns (λ r w'. (r ≡ w'.run) × Initialized w w') (initialize c t w)
  unfolding initialize
  initialize-Returns w v n =
      Returns-bind (close_interrupted-Returns (open_phase w.run.id w.store) w v n refl) λ _ w₁ k.
        Returns-bind (enter-Returns w.run.state w₁ k.0 (ap (λ r. r.state) k.1)) λ _ w₂ e.
          Returns-bind (maybe_runner w w₂ e.valid)
            λ _ w₃ r. Returns-pure w₃.run w₃ (refl, ground arith)
