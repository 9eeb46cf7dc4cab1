-- ===== src/Experiment/Outage/Laws.antt =====
-- Stream outages: what begins them, what ends them, and what a receipt of bytes adds.
use blink_battery_benchmark.Common.{
  ℕ, ◌+◌, ◌-◌, ◌≤◌, ◌<◌, ◌≡◌, Bool, true, false, not, ◌||◌, Option, none, some, ltb, if◌then◌else◌,
  arith, is_some, Bool-cases, inl, inr, refl,
}
use blink_battery_benchmark.Action.{Done}
use blink_battery_benchmark.Storage.Types.{Time, set_stream_outage_seconds}
use blink_battery_benchmark.Config.Types.{ExperimentConfig}
use blink_battery_benchmark.Experiment.State.{is_stream}
use blink_battery_benchmark.Experiment.World.{Instant, World}
use blink_battery_benchmark.Experiment.Outage.{
  start_stream_outage, clear_stream_outage_on_receipt, is_set, valid_gap, note_stream_bytes,
  refresh_outage, refresh_stream_outage, outage_duration, stream_outage_duration,
  stream_outage_is_fatal, reaches,
}
use blink_battery_benchmark.Experiment.Invariant.{
  counters, IsValid, Returns, Returns-bind, Returns-pure, Returns-mono, Returns-when,
}
use blink_battery_benchmark.Experiment.Invariant.Steps.{update-Returns}

-- what an outage's beginning or end leaves alone
pub record Tracked (w w' : World) : Type 0 where
  pub valid : IsValid w'
  pub id : w'.run.id ≡ w.run.id
  pub state : w'.run.state ≡ w.run.state
  pub number : w'.run.current_test_number ≡ w.run.current_test_number
  pub elapsed : w'.run.active_elapsed_seconds ≡ w.run.active_elapsed_seconds
  pub counts : counters w'.run ≡ counters w.run
  pub generation : w'.generation ≡ w.generation
  pub task : w'.runner_task ≡ w.runner_task
  pub phase_id : w'.phase_id ≡ w.phase_id
  pub anchor : w'.active_anchor ≡ w.active_anchor
  pub reconnects : w'.run.stream_reconnects ≡ w.run.stream_reconnects
  pub errors : w'.pending_stream_errors ≡ w.pending_stream_errors

-- In a valid world: starting an outage returns in a valid world with the run, state, stage, active
-- time, counters, generation, runner task and held phase as they were; an outage is active, with
-- its written length kept if one was active before, and otherwise with the time since the given
-- start.
pub start_stream_outage-Returns :
    (t : Instant) (started_at : Time) (w : World)
    → IsValid w
    → Returns
        (λ (_ : Done) w'.
          Tracked w w'
          × (w'.run.stream_outage_active ≡ true)
          × (w'.pending_stream_valid_seconds ≡ w.pending_stream_valid_seconds)
          × (w'.last_stream_bytes_at ≡ w.last_stream_bytes_at)
          × (w'.run.stream_outage_seconds ≡ (
              if w.run.stream_outage_active
              then w.run.stream_outage_seconds
              else t.mono - started_at)))
        (start_stream_outage t started_at w)
unfolding start_stream_outage
start_stream_outage-Returns t started_at w v =
    Returns-when (not w.run.stream_outage_active) _ w
      (λ off.
        Returns-mono
          (update-Returns t (set_stream_outage_seconds (t.mono - started_at)) _
            (record w { stream_outage_started = some t.mono }) (ground arith) (ground arith))
          (λ _ w' u. ground arith))
      (λ on. ground arith)

-- A receipt clears the outage, running or held, and keeps the rest.
record Cleared (w w' : World) : Type 0 where
  tracked : Tracked w w'
  active : w'.run.stream_outage_active ≡ false
  valid_seconds : w'.pending_stream_valid_seconds ≡ w.pending_stream_valid_seconds
  last : w'.last_stream_bytes_at ≡ w.last_stream_bytes_at
  bytes : w'.pending_stream_bytes ≡ w.pending_stream_bytes

clear_stream_outage_on_receipt-Returns :
    (t : Instant) (w : World)
    → IsValid w
    → Returns (λ (_ : Done) w'. Cleared w w') (clear_stream_outage_on_receipt t w)
unfolding clear_stream_outage_on_receipt
clear_stream_outage_on_receipt-Returns t w v =
    Returns-when (w.run.stream_outage_active || is_set w.stream_outage_started) _ w
      (λ on.
        Returns-mono
          (update-Returns t (set_stream_outage_seconds 0) _
            (record w { stream_outage_started = none }) (ground arith) (ground arith))
          (λ _ w' u. ground arith))
      (λ off. ground arith)

valid_gap-le :
    (c : ExperimentConfig) (b : Bool) (o : Option Time) (now : Time)
    → valid_gap c b o now ≤ c.stream_data_timeout_seconds
valid_gap-le c b none now = omega arith
valid_gap-le c b (some last) now = ground arith

-- In a valid world, for a count above 0: a receipt of bytes returns in a valid world with the run,
-- state, stage, written active time, counters, generation, runner task and held phase as they
-- were; no outage is active, the count is added to the pending bytes, the receipt is noted, and
-- the pending active time grows by the gap since the last receipt if no outage was active and the
-- gap is within the timeout, and by 0 otherwise, so never by more than the timeout.
pub note_stream_bytes-Returns :
    (c : ExperimentConfig) (t : Instant) (count : ℕ) (w : World)
    → IsValid w
    → 0 < count
    → Returns
        (λ (_ : Done) w'.
          Tracked w w'
          × (w'.run.stream_outage_active ≡ false)
          × (w'.pending_stream_bytes ≡ w.pending_stream_bytes + count)
          × (w'.last_stream_bytes_at ≡ some t.mono)
          × (w'.pending_stream_valid_seconds
              ≡ w.pending_stream_valid_seconds
                + valid_gap c w.run.stream_outage_active w.last_stream_bytes_at t.mono)
          × (w'.pending_stream_valid_seconds
              ≤ w.pending_stream_valid_seconds + c.stream_data_timeout_seconds))
        (note_stream_bytes c t count w)
unfolding note_stream_bytes
note_stream_bytes-Returns c t count w v p =
    Returns-when (ltb 0 count) _ w
      (λ _.
        Returns-bind (clear_stream_outage_on_receipt-Returns t (noted w) (ground arith)) λ _ w₁ k.
          Returns-pure tt _ (
            let g = valid_gap-le c w.run.stream_outage_active w.last_stream_bytes_at t.mono in
            ground arith))
      (λ z. ground arith)
  where
    noted : World → World
    noted w = record w {
      pending_stream_valid_seconds =
          w.pending_stream_valid_seconds
          + valid_gap c w.run.stream_outage_active w.last_stream_bytes_at t.mono;
      last_stream_bytes_at = some t.mono;
    }

pub refresh_outage-Returns :
    (c : ExperimentConfig) (t : Instant) (current : Time) (o : Option Time) (w : World)
    → IsValid w
    → Returns
        (λ (_ : Done) w'.
          Tracked w w' × (w.run.stream_outage_active ≡ true → w'.run.stream_outage_active ≡ true))
        (refresh_outage c t current o w)
refresh_outage-Returns c t current none w v =
    Returns-mono (start_stream_outage-Returns t current w v) (λ _ _ h. (h.0, λ _. h.1))
refresh_outage-Returns c t current (some last) w v =
    Returns-when (ltb c.stream_data_timeout_seconds (current - last)) _ w
      (λ late. Returns-mono (start_stream_outage-Returns t last w v) (λ _ _ h. (h.0, λ _. h.1)))
      (λ early. ground arith)

-- The length of an outage is read in a valid world and exactly in the stream state.
pub stream_outage_duration-Returns :
    (c : ExperimentConfig) (t : Instant) (current : Time) (w : World)
    → IsValid w
    → Returns
        (λ o w'.
          Tracked w w'
          × (is_some o ≡ is_stream w.run.state)
          × (w.run.stream_outage_active ≡ true → w'.run.stream_outage_active ≡ true))
        (stream_outage_duration c t current w)
unfolding stream_outage_duration refresh_stream_outage
stream_outage_duration-Returns c t current w v = elim (Bool-cases (is_stream w.run.state)) [
  | inl s ↦ rw s (
      Returns-bind (refresh_outage-Returns c t current w.last_stream_bytes_at w v) λ _ w₁ k.
        Returns-pure (outage_duration current w₁) w₁ (
          k.0,
          elim (Bool-cases w₁.run.stream_outage_active) [ inl a ↦ rw a refl | inr a ↦ rw a refl ],
          k.1,
        ))
  | inr s ↦ rw s (Returns-pure none w (ground arith))
]

-- Asking whether an outage is fatal keeps one that is active.
pub stream_outage_is_fatal-Returns :
    (c : ExperimentConfig) (t : Instant) (current : Time) (w : World)
    → IsValid w
    → Returns
        (λ (fatal : Bool) w'.
          Tracked w w' × (w.run.stream_outage_active ≡ true → w'.run.stream_outage_active ≡ true))
        (stream_outage_is_fatal c t current w)
unfolding stream_outage_is_fatal
stream_outage_is_fatal-Returns c t current w v =
    Returns-bind (stream_outage_duration-Returns c t current w v)
      λ o w₁ k. Returns-pure (reaches c.fatal_outage_seconds o) w₁ (k.0, k.2)
