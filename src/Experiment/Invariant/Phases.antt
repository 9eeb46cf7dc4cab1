-- ===== src/Experiment/Invariant/Phases.antt =====
-- Measurements and the beginning of a phase return, in a standard configuration.
use blink_battery_benchmark.Common.{
  ◌+◌, ◌≡◌, refl, Bool, true, false, none, some, [], ◌∷◌, if◌then◌else◌, is_some, arith,
}
use blink_battery_benchmark.Action.{Done}
use blink_battery_benchmark.Storage.Types.{
  set_phase_started_at_utc, set_phase_deadline_at_utc, set_stream_outage_seconds,
  set_stream_outage_active, set_stream_outage_checkpoint_at_utc,
}
use blink_battery_benchmark.Storage.Phases.{PhaseStart, begin_phase}
use blink_battery_benchmark.Storage.Records.{add_measurement}
use blink_battery_benchmark.Config.Types.{
  ExperimentConfig, ExperimentTestConfig, Kind, snapshot, stream, kind_text,
}
use blink_battery_benchmark.Experiment.State.{is_recovering}
use blink_battery_benchmark.Experiment.World.{Instant, World}
use blink_battery_benchmark.Experiment.World.Laws.{updated}
use blink_battery_benchmark.Experiment.Outage.{
  reset_stream_tracking_locked, restore_or_start_stream_outage_locked, closed_seconds,
}
use blink_battery_benchmark.Experiment.Phases.{
  record_measurement_locked, anchor_or_outage, begin_active_locked, begin_recovery_phase_locked,
}
use blink_battery_benchmark.Experiment.Invariant.{
  counters, IsValid, Returns, Returns-bind, Returns-pure, Returns-mono, IsStandard, test-IsStandard,
}
use blink_battery_benchmark.Experiment.Invariant.Steps.{
  update-Returns, phase_begun, phase_begun-IsValid,
}

-- What a measurement leaves alone: all but its own table and its time.
pub record SameRun (w w' : World) : Type 0 where
  pub valid : IsValid w'
  pub run : w'.run ≡ w.run
  pub phase_id : w'.phase_id ≡ w.phase_id
  pub generation : w'.generation ≡ w.generation
  pub task : w'.runner_task ≡ w.runner_task
  pub anchor : w'.active_anchor ≡ w.active_anchor
  pub battery : w'.last_battery ≡ w.last_battery
  pub runs : w'.store.runs ≡ w.store.runs
  pub last_run_id : w'.store.last_run_id ≡ w.store.last_run_id
  pub phases : w'.store.phases ≡ w.store.phases

-- What the beginning of an active phase does.
pub record Begun (t : Instant) (w w' : World) : Type 0 where
  pub valid : IsValid w'
  pub id : w'.run.id ≡ w.run.id
  pub state : w'.run.state ≡ w.run.state
  pub number : w'.run.current_test_number ≡ w.run.current_test_number
  pub elapsed : w'.run.active_elapsed_seconds ≡ w.run.active_elapsed_seconds
  pub started : w'.run.phase_started_at_utc ≡ some t.utc
  pub deadline : w'.run.phase_deadline_at_utc ≡ none
  pub stop_reason : w'.run.stop_reason ≡ w.run.stop_reason
  pub latest_error : w'.run.latest_error ≡ w.run.latest_error
  pub counts : counters w'.run ≡ counters w.run
  pub held : is_some w'.phase_id ≡ true
  pub generation : w'.generation ≡ w.generation
  pub task : w'.runner_task ≡ w.runner_task
  pub battery : w'.last_battery ≡ w.last_battery
  pub last_run_id : w'.store.last_run_id ≡ w.store.last_run_id

-- the world after `_restore_or_start_stream_outage_locked` and the reset before it, for the run
abbrev Restored : Instant → World → World → Type 0
Restored t w w' =
    IsValid w'
    × (w'.run.id ≡ w.run.id)
    × (w'.run.state ≡ w.run.state)
    × (w'.run.current_test_number ≡ w.run.current_test_number)
    × (w'.run.active_elapsed_seconds ≡ w.run.active_elapsed_seconds)
    × (w'.run.phase_deadline_at_utc ≡ w.run.phase_deadline_at_utc)
    × (w'.run.stop_reason ≡ w.run.stop_reason)
    × (w'.run.latest_error ≡ w.run.latest_error)
    × (counters w'.run ≡ counters w.run)
    × (w'.generation ≡ w.generation)
    × (w'.runner_task ≡ w.runner_task)
    × (w'.last_battery ≡ w.last_battery)
    × (w'.store.last_run_id ≡ w.store.last_run_id)

module _ (c : ExperimentConfig) (std : IsStandard c) (t : Instant) where
  -- Recording a measurement returns.
  pub record_measurement_locked-Returns :
      (w : World)
      → IsValid w
      → Returns (λ (_ : Done) w'. SameRun w w') (record_measurement_locked c t w)
  unfolding record_measurement_locked add_measurement
  record_measurement_locked-Returns w v =
      let (x, e, _) = test-IsStandard c w.run.current_test_number std (ground arith) in
      rw e (Returns-pure tt _ (ground arith))

  -- Beginning a recovery phase returns and holds the phase.
  pub begin_recovery_phase_locked-Returns :
      (resumed : Bool) (w : World)
      → IsValid w
      → Returns
          (λ (_ : Done) w'.
            IsValid w'
            × (w'.run ≡ w.run)
            × (is_some w'.phase_id ≡ true)
            × (w'.active_anchor ≡ none)
            × (w'.generation ≡ w.generation)
            × (w'.runner_task ≡ w.runner_task)
            × (w'.last_battery ≡ w.last_battery))
          (begin_recovery_phase_locked c t resumed w)
  unfolding begin_recovery_phase_locked begin_phase
  begin_recovery_phase_locked-Returns resumed w v =
      let v₀ : IsValid (record w { active_anchor = none }) = ground arith in
      let begun =
        λ (p : PhaseStart). phase_begun-IsValid p (record w { active_anchor = none }) v₀ in
      Returns-pure tt _ (begun _, refl, refl, refl, refl, refl, refl)

  restore-Returns :
      (account : Bool) (w : World)
      → IsValid w
      → Returns
          (λ (_ : Done) w'. Restored t w w')
          (restore_or_start_stream_outage_locked t account w)
  unfolding restore_or_start_stream_outage_locked
  restore-Returns account w v =
      Returns-mono
        (update-Returns t
          (set_stream_outage_seconds (
            if w.run.stream_outage_active
            then w.run.stream_outage_seconds
              + closed_seconds account w.run.stream_outage_checkpoint_at_utc t.utc
            else 0))
          (set_stream_outage_active true ∷ set_stream_outage_checkpoint_at_utc (some t.utc) ∷ [])
          (record w { stream_outage_started = some t.mono })
          (record { synced = v.synced; row = v.row; phase = v.phase; ids = v.ids }) v.row)
        (λ _ w' h. ground arith)

  anchor_or_outage-Returns :
      (k : Kind) (account : Bool) (w : World)
      → IsValid w
      → Returns (λ (_ : Done) w'. Restored t w w') (anchor_or_outage c t k account w)
  unfolding reset_stream_tracking_locked
  anchor_or_outage-Returns snapshot account w v = Returns-pure tt _ (ground arith)
  anchor_or_outage-Returns stream account w v =
      Returns-bind
        (restore-Returns account
          (record w {
            stream_outage_started = none;
            last_stream_bytes_at = none;
            pending_stream_valid_seconds = 0;
            pending_stream_errors = [];
          })
          (record { synced = v.synced; row = v.row; phase = v.phase; ids = v.ids }))
        λ _ w' h. Returns-pure tt _ (ground arith)

  -- Beginning an active phase returns, in a state whose recovery timer does not run.
  pub begin_active_locked-Returns :
      (resumed account : Bool) (w : World)
      → IsValid w
      → is_recovering w.run.state ≡ false
      → Returns (λ (_ : Done) w'. Begun t w w') (begin_active_locked c t resumed account w)
  unfolding begin_active_locked begin_phase
  begin_active_locked-Returns resumed account w v s =
      let (x, e, _) = test-IsStandard c w.run.current_test_number std (ground arith) in
      rw e (
        Returns-bind (anchor_or_outage-Returns x.kind account w v) λ _ w₁ h.
          Returns-bind
            (update-Returns t (set_phase_started_at_utc (some t.utc))
              (set_phase_deadline_at_utc none ∷ []) w₁ h.0 (ground arith))
            λ _ w₂ u. Returns-pure tt _ (begun x w₁ w₂ h u))
    where
      begun :
          (x : ExperimentTestConfig) (w₁ w₂ : World)
          → Restored t w w₁
          → IsValid w₂
            × (w₂
                ≡ updated t
                    (set_phase_started_at_utc (some t.utc) ∷ set_phase_deadline_at_utc none ∷ [])
                    w₁)
          → Begun t w (
              phase_begun
                (record {
                  run_id = w₂.run.id;
                  phase_kind = kind_text x.kind;
                  name = x.name;
                  started_at_utc = t.utc;
                  test_number = some w₂.run.current_test_number;
                  active_elapsed_at_start = some w₂.run.active_elapsed_seconds;
                  details = some resumed;
                })
                w₂)
      begun x w₁ w₂ h u = ground (
        arith,
        phase_begun-IsValid
            (record {
              run_id = w₂.run.id;
              phase_kind = kind_text x.kind;
              name = x.name;
              started_at_utc = t.utc;
              test_number = some w₂.run.current_test_number;
              active_elapsed_at_start = some w₂.run.active_elapsed_seconds;
              details = some resumed;
            })
            w₂ u.0,
      )
