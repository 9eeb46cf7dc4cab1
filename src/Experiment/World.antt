-- ===== src/Experiment/World.antt =====
-- The state of `ExperimentRunner` in src/blink_dashboard/experiment.py beside the database that it
-- writes to, and the small steps that its methods are made of. A method that does not await runs
-- at one instant; each await hands the next part a new one.
pub mod Laws
use blink_battery_benchmark.Common.{
  ℕ, Bool, true, false, Option, none, some, List, [], ◌∷◌, is_some,
}
use blink_battery_benchmark.Text.{Text, codes}
use blink_battery_benchmark.Action.{
  Action, Done, Result, ok, err, pure, gets, lift, modify, ◌>>=◌, ◌>>◌,
}
use blink_battery_benchmark.Storage.Types.{
  Time, RunRecord, BatteryReading, Measurement, Change, Level, Store,
}
use blink_battery_benchmark.Storage.Runs.{update_run}
use blink_battery_benchmark.Storage.Phases.{PhaseStart, begin_phase, end_phase}
use blink_battery_benchmark.Storage.Records.{EventArgs, add_measurement, add_event}
use blink_battery_benchmark.Config.Types.{ExperimentConfig, test}

-- one reading of both clocks, `now()` and `monotonic()`
pub record Instant : Type 0 where
  pub utc : Time
  pub mono : Time

-- the background task, with the generation that it was started for
pub record RunnerTask : Type 0 where
  pub generation : ℕ
  pub done : Bool

pub record World : Type 0 where
  pub store : Store
  pub run : RunRecord
  pub runner_task : Option RunnerTask
  pub generation : ℕ
  pub active_anchor : Option Time
  pub phase_id : Option ℕ
  pub last_battery : Option BatteryReading
  pub last_measurement_at : Option Time
  pub outage_started : Option Time
  pub stream_outage_started : Option Time
  pub last_stream_bytes_at : Option Time
  pub pending_stream_valid_seconds : Time
  pub pending_stream_errors : List (Text × Text)
  -- the generation whose stop event is held
  pub stream_stop_event : Option ℕ
  pub pending_stream_bytes : ℕ
  pub pending_stream_reconnects : ℕ
  -- the generations whose stop event has been set
  pub stopped_streams : List ℕ

abbrev pub M : Type 0 → Type 0
M A = Action World A

-- a call of the storage
abbrev pub on_store : {A : Type 0} → Action Store A → M A
on_store m w = ((m w.store).0, record w { store = (m w.store).1 })

-- `self._run = self.storage.update_run(self._run.id, …, now=self.clock.now())`
unfoldable pub update : Instant → List Change → M Done
update t cs = do
  w ← gets (λ w. w)
  r ← on_store (update_run w.run.id t.utc cs)
  modify (λ w. record w { run = r })

-- `_end_phase_locked`
abbrev pub end_open : Instant → Text → Option ℕ → M Done
end_open t outcome none = pure tt
end_open t outcome (some p) = on_store (end_phase p t.utc outcome none)

unfoldable pub end_phase_locked : Instant → Text → M Done
end_phase_locked t outcome = do
  phase_id ← gets (λ w. w.phase_id)
  modify (λ w. record w { phase_id = none })
  end_open t outcome phase_id

-- `_record_event_locked`
unfoldable pub record_event_locked : Instant → Level → Text → Text → M Done
record_event_locked t level category message = do
  w ← gets (λ w. w)
  on_store (
      add_event (record {
        level = level;
        category = category;
        message = message;
        run_id = some w.run.id;
        test_number = some w.run.current_test_number;
        observed_at_utc = t.utc;
        details = none;
      }))
  pure tt
