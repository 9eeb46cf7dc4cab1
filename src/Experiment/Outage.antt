-- ===== src/Experiment/Outage.antt =====
-- Stream receipts and outages in src/blink_dashboard/experiment.py. `max(0.0, a - b)` of the source
-- is the truncated difference of two clock readings.
pub mod Laws
use blink_battery_benchmark.Common.{
  ℕ, ◌+◌, ◌-◌, Bool, true, false, not, ◌&&◌, ◌||◌, Option, none, some, List, [], ◌∷◌, ◌++◌, leb,
  ltb, ◌==◌, if◌then◌else◌,
}
use blink_battery_benchmark.Text.{Text}
use blink_battery_benchmark.Action.{
  Done, Result, ok, pure, gets, modify, when, ◌>>=◌, ◌>>◌, continue,
}
use blink_battery_benchmark.Storage.Types.{
  Time, set_stream_outage_seconds, set_stream_outage_active, set_stream_outage_checkpoint_at_utc,
  set_latest_error, warning,
}
use blink_battery_benchmark.Config.Types.{ExperimentConfig}
use blink_battery_benchmark.Experiment.State.{is_stream}
use blink_battery_benchmark.Experiment.World.{Instant, World, M, update, record_event_locked}

unfoldable pub reset_stream_tracking_locked : M Done
reset_stream_tracking_locked = modify λ w. record w {
  stream_outage_started = none;
  last_stream_bytes_at = none;
  pending_stream_valid_seconds = 0;
  pending_stream_errors = [];
}

-- the downtime since the last checkpoint, when a crash is to be accounted for
abbrev pub closed_seconds : Bool → Option Time → Time → Time
closed_seconds true (some checkpoint) now = now - checkpoint
closed_seconds _ _ now = 0

unfoldable pub restore_or_start_stream_outage_locked : Instant → Bool → M Done
restore_or_start_stream_outage_locked t account_closed = do
  w ← gets (λ w. w)
  let seconds =
      if w.run.stream_outage_active
      then w.run.stream_outage_seconds
        + closed_seconds account_closed w.run.stream_outage_checkpoint_at_utc t.utc
      else 0
  modify (λ w. record w { stream_outage_started = some t.mono })
  update t (
      set_stream_outage_seconds seconds
      ∷ set_stream_outage_active true
      ∷ set_stream_outage_checkpoint_at_utc (some t.utc)
      ∷ [])

unfoldable pub start_stream_outage : Instant → Time → M Done
start_stream_outage t started_at = do
  w ← gets (λ w. w)
  when (not w.run.stream_outage_active) (do
    modify (λ w. record w { stream_outage_started = some t.mono })
    update t (
        set_stream_outage_seconds (t.mono - started_at)
        ∷ set_stream_outage_active true
        ∷ set_stream_outage_checkpoint_at_utc (some t.utc)
        ∷ []))

abbrev pub checkpoint_outage : Instant → Bool → Option Time → Time → M Done
checkpoint_outage t true (some started) seconds = do
  modify (λ w. record w { stream_outage_started = some t.mono })
  update t (
      set_stream_outage_seconds (seconds + (t.mono - started))
      ∷ set_stream_outage_active true
      ∷ set_stream_outage_checkpoint_at_utc (some t.utc)
      ∷ [])
checkpoint_outage t _ _ seconds = pure tt

unfoldable pub checkpoint_stream_outage_locked : Instant → M Done
checkpoint_stream_outage_locked t = do
  w ← gets (λ w. w)
  checkpoint_outage t w.run.stream_outage_active w.stream_outage_started w.run.stream_outage_seconds

abbrev pub is_set : Option Time → Bool
is_set none = false
is_set (some _) = true

unfoldable pub clear_stream_outage_on_receipt : Instant → M Done
clear_stream_outage_on_receipt t = do
  w ← gets (λ w. w)
  when (w.run.stream_outage_active || is_set w.stream_outage_started) (do
    modify (λ w. record w { stream_outage_started = none })
    update t (
        set_stream_outage_seconds 0
        ∷ set_stream_outage_active false
        ∷ set_stream_outage_checkpoint_at_utc none
        ∷ []))

-- the interval since the last receipt, if it counts as stream time
abbrev pub valid_gap : ExperimentConfig → Bool → Option Time → Time → Time
valid_gap c outage none now = 0
valid_gap c outage (some last) now =
    if not outage && leb (now - last) c.stream_data_timeout_seconds then now - last else 0

unfoldable pub note_stream_bytes : ExperimentConfig → Instant → ℕ → M Done
note_stream_bytes c t count = when (ltb 0 count) (do
  modify λ w. record w {
    pending_stream_valid_seconds =
        w.pending_stream_valid_seconds
        + valid_gap c w.run.stream_outage_active w.last_stream_bytes_at t.mono;
    last_stream_bytes_at = some t.mono;
  }
  clear_stream_outage_on_receipt t
  modify (λ w. record w { pending_stream_bytes = w.pending_stream_bytes + count }))

abbrev pub or_now : Option Time → Time → Time
or_now none now = now
or_now (some t) now = t

unfoldable pub note_stream_error : Instant → Text → Text → M Done
note_stream_error t category message = do
  w ← gets (λ w. w)
  start_stream_outage t (or_now w.last_stream_bytes_at t.mono)
  modify
      λ w. record w { pending_stream_errors = w.pending_stream_errors ++ (category, message) ∷ [] }

-- `_stream_is_receiving(now)`
unfoldable pub stream_is_receiving : ExperimentConfig → World → Time → Bool
stream_is_receiving c w now = is_stream w.run.state && elim w.last_stream_bytes_at [
  | none ↦ false
  | some last ↦ leb (now - last) c.stream_data_timeout_seconds && not w.run.stream_outage_active
]

abbrev pub refresh_outage : ExperimentConfig → Instant → Time → Option Time → M Done
refresh_outage c t current none = start_stream_outage t current
refresh_outage c t current (some last) =
    when (ltb c.stream_data_timeout_seconds (current - last)) (start_stream_outage t last)

-- `current` is the reading that the caller passes, or the clock's
unfoldable pub refresh_stream_outage : ExperimentConfig → Instant → Time → M Done
refresh_stream_outage c t current = do
  w ← gets (λ w. w)
  refresh_outage c t current w.last_stream_bytes_at

-- the outage that has not been written yet
abbrev pub pending_outage : Option Time → Time → Time
pending_outage none current = 0
pending_outage (some started) current = current - started

abbrev pub outage_duration : Time → World → Option Time
outage_duration current w =
    if w.run.stream_outage_active
    then some (w.run.stream_outage_seconds + pending_outage w.stream_outage_started current)
    else some 0

unfoldable pub stream_outage_duration : ExperimentConfig → Instant → Time → M (Option Time)
stream_outage_duration c t current = do
  w ← gets (λ w. w)
  (if is_stream w.run.state
      then (do refresh_stream_outage c t current; gets (outage_duration current))
      else pure none)

abbrev pub reaches : Time → Option Time → Bool
reaches limit none = false
reaches limit (some d) = leb limit d

unfoldable pub stream_outage_is_fatal : ExperimentConfig → Instant → Time → M Bool
stream_outage_is_fatal c t current = do
  duration ← stream_outage_duration c t current
  pure (reaches c.fatal_outage_seconds duration)

-- The text of a pending error: `category.replace('_', ' ').title()`, a colon and the message. The
-- title is a parameter, since nothing depends on it.
module _ (describe : Text → Text → Text) where
  unfoldable pub flush_errors : Instant → List (Text × Text) → M Done
  flush_errors t [] = pure tt
  flush_errors t ((category, message) ∷ errors) = do
    update t (set_latest_error (some (describe category message)) ∷ [])
    record_event_locked t warning category message
    flush_errors t errors

  unfoldable pub flush_stream_errors_locked : Instant → M Done
  unfolding flush_errors
  flush_stream_errors_locked t = do
    w ← gets (λ w. w)
    flush_errors t w.pending_stream_errors
    modify (λ w. record w { pending_stream_errors = [] })
