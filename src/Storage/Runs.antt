-- ===== src/Storage/Runs.antt =====
-- The `runs` table of src/blink_dashboard/storage.py: creation, lookup and update of a run.
pub mod Laws
use blink_battery_benchmark.Common.{
  ℕ, ◌+◌, Bool, ◌&&◌, Option, none, some, List, [], ◌∷◌, reverse, leb, ◌==◌, if◌then◌else◌, false,
}
use blink_battery_benchmark.Action.{
  Action, Result, ok, err, no_such_run, check_failed, missing_row, ◌>>=◌, ◌>>◌, continue, settle,
  transaction,
}
use blink_battery_benchmark.Experiment.State.{ExperimentState}
use blink_battery_benchmark.Storage.Types.{
  Time, RunRecord, Store, Change, set_state, set_current_test_number, set_phase_started_at_utc,
  set_phase_deadline_at_utc, set_active_elapsed_seconds, set_stop_reason, set_latest_error,
  set_snapshots_attempted, set_snapshots_succeeded, set_snapshots_failed, set_snapshot_timeouts,
  set_stream_bytes, set_stream_reconnects, set_stream_outage_seconds, set_stream_outage_active,
  set_stream_outage_checkpoint_at_utc, set_completed_at_utc,
}

-- `SELECT * FROM runs WHERE id = ?`; `id` is the primary key
unfoldable pub find_run : ℕ → List RunRecord → Option RunRecord
find_run id [] = none
find_run id (r ∷ rs) = if r.id == id then some r else find_run id rs

abbrev pub get_run : ℕ → Store → Option RunRecord
get_run id s = find_run id s.runs

-- `ORDER BY id DESC LIMIT 1`: ids grow, so the newest row has the greatest
unfoldable pub latest_run : Store → Option RunRecord
latest_run s = elim s.runs [ [] ↦ none | r ∷ _ ↦ some r ]

unfoldable pub list_runs : Store → List RunRecord
list_runs s = reverse s.runs

-- the columns that the INSERT leaves out have the defaults of the schema
abbrev pub new_run : ℕ → ExperimentState → Time → RunRecord
new_run id st now = record {
  id = id;
  state = st;
  current_test_number = 1;
  phase_started_at_utc = none;
  phase_deadline_at_utc = none;
  active_elapsed_seconds = 0;
  stop_reason = none;
  latest_error = none;
  snapshots_attempted = 0;
  snapshots_succeeded = 0;
  snapshots_failed = 0;
  snapshot_timeouts = 0;
  stream_bytes = 0;
  stream_reconnects = 0;
  stream_outage_seconds = 0;
  stream_outage_active = false;
  stream_outage_checkpoint_at_utc = none;
  created_at_utc = now;
  updated_at_utc = now;
  completed_at_utc = none;
}

abbrev pub or_missing : Option RunRecord → Result RunRecord
or_missing none = err missing_row
or_missing (some r) = ok r

insert_run : ExperimentState → Time → Action Store ℕ
insert_run st now s =
    let id = s.last_run_id + 1 in
    (ok id, record s { runs = new_run id st now ∷ s.runs; last_run_id = id })

unfoldable pub create_run : ExperimentState → Time → Action Store RunRecord
unfolding insert_run find_run
create_run st now = do id ← transaction (insert_run st now); λ s. (or_missing (get_run id s), s)

abbrev pub apply_change : Change → RunRecord → RunRecord
apply_change (set_state x) r = record r { state = x }
apply_change (set_current_test_number x) r = record r { current_test_number = x }
apply_change (set_phase_started_at_utc x) r = record r { phase_started_at_utc = x }
apply_change (set_phase_deadline_at_utc x) r = record r { phase_deadline_at_utc = x }
apply_change (set_active_elapsed_seconds x) r = record r { active_elapsed_seconds = x }
apply_change (set_stop_reason x) r = record r { stop_reason = x }
apply_change (set_latest_error x) r = record r { latest_error = x }
apply_change (set_snapshots_attempted x) r = record r { snapshots_attempted = x }
apply_change (set_snapshots_succeeded x) r = record r { snapshots_succeeded = x }
apply_change (set_snapshots_failed x) r = record r { snapshots_failed = x }
apply_change (set_snapshot_timeouts x) r = record r { snapshot_timeouts = x }
apply_change (set_stream_bytes x) r = record r { stream_bytes = x }
apply_change (set_stream_reconnects x) r = record r { stream_reconnects = x }
apply_change (set_stream_outage_seconds x) r = record r { stream_outage_seconds = x }
apply_change (set_stream_outage_active x) r = record r { stream_outage_active = x }
apply_change (set_stream_outage_checkpoint_at_utc x) r = record r {
  stream_outage_checkpoint_at_utc = x;
}
apply_change (set_completed_at_utc x) r = record r { completed_at_utc = x }

abbrev pub apply_changes : List Change → RunRecord → RunRecord
apply_changes [] r = r
apply_changes (c ∷ cs) r = apply_changes cs (apply_change c r)

-- `updated_at_utc` is written with every change
abbrev pub changed : List Change → Time → RunRecord → RunRecord
changed cs now r = record (apply_changes cs r) { updated_at_utc = now }

-- the CHECK clause on the test number; those on durations hold of any natural number
abbrev pub passes_checks : RunRecord → Bool
passes_checks r = leb 1 r.current_test_number && leb r.current_test_number 4

-- `UPDATE runs SET … WHERE id = ?` on a primary key, refused by a CHECK or if no row was hit
update_rows : ℕ → List Change → Time → List RunRecord → Result (List RunRecord)
update_rows id cs now [] = err (no_such_run id)
update_rows id cs now (r ∷ rs) =
    let rest = update_rows id cs now rs in
    if r.id == id
    then if passes_checks (changed cs now r) then ok (changed cs now r ∷ rs) else err check_failed
    else elim rest [ ok rs' ↦ ok (r ∷ rs') | err e ↦ err e ]

write_rows : Result (List RunRecord) → Action Store (Unit {0})
write_rows (ok rs) s = (ok tt, record s { runs = rs })
write_rows (err e) s = (err e, s)

abbrev or_no_run : ℕ → Option RunRecord → Result RunRecord
or_no_run id none = err (no_such_run id)
or_no_run id (some r) = ok r

unfoldable pub update_run : ℕ → Time → List Change → Action Store RunRecord
unfolding update_rows write_rows find_run
update_run id now [] s = (or_no_run id (get_run id s), s)
update_run id now (c ∷ cs) s =
    (do
      transaction (λ t. write_rows (update_rows id (c ∷ cs) now t.runs) t)
      λ t. (or_missing (get_run id t), t))
      s
