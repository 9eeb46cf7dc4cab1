-- ===== src/Experiment/Invariant/Checkpoints.antt =====
-- Checkpoints return, keep the invariant and the stage, and lose no stream byte and no active time.
use blink_battery_benchmark.Common.{
  ◌+◌, ◌-◌, ◌≡◌, refl, Bool, true, false, not, ◌||◌, Option, none, some, [], ◌∷◌, ◌==◌, arith,
  Bool-cases, inl, inr,
}
use blink_battery_benchmark.Action.{Done}
use blink_battery_benchmark.Storage.Types.{
  Time, set_active_elapsed_seconds, set_stream_bytes, set_stream_reconnects,
  set_stream_outage_seconds, set_stream_outage_active, set_stream_outage_checkpoint_at_utc,
}
use blink_battery_benchmark.Experiment.State.{is_stream}
use blink_battery_benchmark.Experiment.World.{Instant, World}
use blink_battery_benchmark.Experiment.Outage.{
  checkpoint_outage, checkpoint_stream_outage_locked, pending_outage,
}
use blink_battery_benchmark.Experiment.Phases.{
  flush_stream_bytes_locked, checkpoint_stream, checkpoint_snapshot, checkpoint_active_locked,
  elapsed_active,
}
use blink_battery_benchmark.Experiment.Invariant.{
  counters, IsValid, Returns, Returns-bind, Returns-pure, Returns-mono,
}
use blink_battery_benchmark.Experiment.Invariant.Steps.{update-Returns}

-- What a checkpoint leaves alone: the stage and everything that the state machine decides by.
pub record Kept (w w' : World) : Type 0 where
  pub valid : IsValid w'
  pub id : w'.run.id ≡ w.run.id
  pub state : w'.run.state ≡ w.run.state
  pub number : w'.run.current_test_number ≡ w.run.current_test_number
  pub deadline : w'.run.phase_deadline_at_utc ≡ w.run.phase_deadline_at_utc
  pub stop_reason : w'.run.stop_reason ≡ w.run.stop_reason
  pub phase_id : w'.phase_id ≡ w.phase_id
  pub generation : w'.generation ≡ w.generation
  pub task : w'.runner_task ≡ w.runner_task
  pub counts : counters w'.run ≡ counters w.run
  pub last_run_id : w'.store.last_run_id ≡ w.store.last_run_id
  pub bytes :
      w'.run.stream_bytes + w'.pending_stream_bytes ≡ w.run.stream_bytes + w.pending_stream_bytes
  pub reconnects :
      w'.run.stream_reconnects + w'.pending_stream_reconnects
      ≡ w.run.stream_reconnects + w.pending_stream_reconnects

pub record Flushed (w w' : World) : Type 0 where
  pub kept : Kept w w'
  pub elapsed : w'.run.active_elapsed_seconds ≡ w.run.active_elapsed_seconds
  pub valid_seconds : w'.pending_stream_valid_seconds ≡ w.pending_stream_valid_seconds
  pub anchor : w'.active_anchor ≡ w.active_anchor
  pub outage : w'.run.stream_outage_seconds ≡ w.run.stream_outage_seconds
  pub outage_active : w'.run.stream_outage_active ≡ w.run.stream_outage_active
  pub outage_started : w'.stream_outage_started ≡ w.stream_outage_started
  pub written : (w'.pending_stream_bytes ≡ 0) × (w'.pending_stream_reconnects ≡ 0)

-- In a valid world: a flush returns in a valid world with nothing pending, keeps the sums of
-- written and pending bytes and of written and pending reconnects, and leaves the rest of the run,
-- the active time and the outage as they were.
pub flush_stream_bytes_locked-Returns :
    (t : Instant) (w : World)
    → IsValid w
    → Returns (λ (_ : Done) w'. Flushed w w') (flush_stream_bytes_locked t w)
unfolding flush_stream_bytes_locked
flush_stream_bytes_locked-Returns t w v =
    elim (Bool-cases
      (not (w.pending_stream_bytes == 0) || not (w.pending_stream_reconnects == 0))) [
        | inl some_pending ↦ rw some_pending (
            Returns-bind
              (update-Returns t (set_stream_bytes (w.run.stream_bytes + w.pending_stream_bytes))
                (set_stream_reconnects (w.run.stream_reconnects + w.pending_stream_reconnects) ∷ [])
                w v v.row)
              (λ a w' h. Returns-pure tt _ (ground arith)))
        | inr none_pending ↦ rw none_pending (Returns-pure tt w (ground arith))
      ]

-- An outage checkpoint moves time from the clock into the row: the outage that it stands for, seen
-- at this instant, is the same before and after.
pub record OutageWritten (t : Instant) (w w' : World) : Type 0 where
  pub kept : Kept w w'
  pub elapsed : w'.run.active_elapsed_seconds ≡ w.run.active_elapsed_seconds
  pub valid_seconds : w'.pending_stream_valid_seconds ≡ w.pending_stream_valid_seconds
  pub anchor : w'.active_anchor ≡ w.active_anchor
  pub active : w'.run.stream_outage_active ≡ w.run.stream_outage_active
  pub outage :
      w.run.stream_outage_active ≡ true
      → w'.run.stream_outage_seconds + pending_outage w'.stream_outage_started t.mono
        ≡ w.run.stream_outage_seconds + pending_outage w.stream_outage_started t.mono
  pub bytes : w'.pending_stream_bytes ≡ w.pending_stream_bytes

checkpoint_outage-Returns :
    (t : Instant) (w : World) (b : Bool) (o : Option Time)
    → IsValid w
    → w.run.stream_outage_active ≡ b
    → w.stream_outage_started ≡ o
    → Returns
        (λ (_ : Done) w'. OutageWritten t w w')
        (checkpoint_outage t b o w.run.stream_outage_seconds w)
checkpoint_outage-Returns t w true (some s) v hb ho =
    Returns-mono
      (update-Returns t (set_stream_outage_seconds (w.run.stream_outage_seconds + (t.mono - s)))
        (set_stream_outage_active true ∷ set_stream_outage_checkpoint_at_utc (some t.utc) ∷ [])
        (record w { stream_outage_started = some t.mono })
        (record { synced = v.synced; row = v.row; phase = v.phase; ids = v.ids }) v.row)
      (λ _ w' h. ground arith)
checkpoint_outage-Returns t w true none v hb ho = Returns-pure tt w (ground arith)
checkpoint_outage-Returns t w false o v hb ho = Returns-pure tt w (ground arith)

pub checkpoint_stream_outage_locked-Returns :
    (t : Instant) (w : World)
    → IsValid w
    → Returns (λ (_ : Done) w'. OutageWritten t w w') (checkpoint_stream_outage_locked t w)
unfolding checkpoint_stream_outage_locked
checkpoint_stream_outage_locked-Returns t w v =
    checkpoint_outage-Returns t w w.run.stream_outage_active w.stream_outage_started v refl refl

-- A checkpoint of an active test.
pub record Checkpointed (t : Instant) (w w' : World) : Type 0 where
  pub kept : Kept w w'
  -- the active time that a reader sees now is what it was
  pub seen : elapsed_active w' t.mono ≡ elapsed_active w t.mono
  -- and all of it is in the row
  pub durable : w'.run.active_elapsed_seconds ≡ elapsed_active w t.mono

checkpoint_stream-Returns :
    (t : Instant) (w : World)
    → IsValid w
    → is_stream w.run.state ≡ true
    → Returns (λ (_ : Done) w'. Checkpointed t w w') (checkpoint_stream t w)
unfolding checkpoint_stream elapsed_active
checkpoint_stream-Returns t w v s =
    Returns-bind (flush_stream_bytes_locked-Returns t w₀ v₀) λ _ w₁ f.
      Returns-bind (checkpoint_stream_outage_locked-Returns t w₁ f.kept.valid) λ _ w₂ o.
        Returns-mono
          (update-Returns t
            (set_active_elapsed_seconds
              (w.run.active_elapsed_seconds + w.pending_stream_valid_seconds))
            [] w₂ o.kept.valid o.kept.valid.row)
          (λ _ w' h. ground arith)
  where
    w₀ : World
    w₀ = record w { pending_stream_valid_seconds = 0 }

    v₀ : IsValid w₀
    v₀ = record { synced = v.synced; row = v.row; phase = v.phase; ids = v.ids }

checkpoint_snapshot-Returns :
    (t : Instant) (w : World) (anchor : Option Time)
    → IsValid w
    → is_stream w.run.state ≡ false
    → w.active_anchor ≡ anchor
    → Returns (λ (_ : Done) w'. Checkpointed t w w') (checkpoint_snapshot t anchor w)
unfolding checkpoint_snapshot elapsed_active
checkpoint_snapshot-Returns t w none v s a = Returns-pure tt w (ground arith)
checkpoint_snapshot-Returns t w (some start) v s a =
    Returns-bind (flush_stream_bytes_locked-Returns t w₀ v₀) λ _ w₁ f.
      Returns-mono
        (update-Returns t
          (set_active_elapsed_seconds (w.run.active_elapsed_seconds + (t.mono - start))) [] w₁
          f.kept.valid f.kept.valid.row)
        (λ _ w' h. ground arith)
  where
    w₀ : World
    w₀ = record w { active_anchor = some t.mono }

    v₀ : IsValid w₀
    v₀ = record { synced = v.synced; row = v.row; phase = v.phase; ids = v.ids }

-- In a valid world: a checkpoint returns in a valid world; the active time that a reader sees at
-- this instant is the same before and after, and all of it is in the row; it leaves the run,
-- state, stage, deadline, stop reason, held phase, generation, runner task and snapshot counters,
-- and the sums of written and pending bytes and reconnects.
pub checkpoint_active_locked-Returns :
    (t : Instant) (w : World)
    → IsValid w
    → Returns (λ (_ : Done) w'. Checkpointed t w w') (checkpoint_active_locked t w)
unfolding checkpoint_active_locked
checkpoint_active_locked-Returns t w v = elim (Bool-cases (is_stream w.run.state)) [
  | inl s ↦ rw s (checkpoint_stream-Returns t w v s)
  | inr s ↦ rw s (checkpoint_snapshot-Returns t w w.active_anchor v s refl)
]
