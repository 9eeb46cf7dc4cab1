-- ===== src/Storage/Phases.antt =====
-- The `phases` table of src/blink_dashboard/storage.py: a phase is begun once and ended once.
pub mod Laws
use blink_battery_benchmark.Common.{
  ℕ, ◌+◌, Bool, true, false, ◌&&◌, Option, none, some, List, [], ◌∷◌, reverse, ◌==◌, if◌then◌else◌,
  is_some, not, keep,
}
use blink_battery_benchmark.Text.{Text}
use blink_battery_benchmark.Action.{
  Action, Result, ok, err, no_open_phase, ◌>>=◌, continue, settle, transaction,
}
use blink_battery_benchmark.Storage.Types.{Time, PhaseRow, Store}

-- the arguments of `begin_phase`
pub record PhaseStart : Type 0 where
  pub run_id : ℕ
  pub phase_kind : Text
  pub name : Text
  pub started_at_utc : Time
  pub test_number : Option ℕ
  pub active_elapsed_at_start : Option Time
  pub details : Option Bool

abbrev pub new_phase : ℕ → PhaseStart → PhaseRow
new_phase id p = record {
  id = id;
  run_id = p.run_id;
  test_number = p.test_number;
  phase_kind = p.phase_kind;
  name = p.name;
  started_at_utc = p.started_at_utc;
  ended_at_utc = none;
  outcome = none;
  active_elapsed_at_start = p.active_elapsed_at_start;
  details = p.details;
}

unfoldable pub begin_phase : PhaseStart → Action Store ℕ
begin_phase p = transaction λ s.
    let id = s.last_phase_id + 1 in
    (ok id, record s { phases = new_phase id p ∷ s.phases; last_phase_id = id })

abbrev pub is_open : PhaseRow → Bool
is_open p = not (is_some p.ended_at_utc)

-- `COALESCE(?, details_json)`
abbrev coalesce : Option Bool → Option Bool → Option Bool
coalesce none old = old
coalesce (some new) old = some new

abbrev pub ended : Time → Text → Option Bool → PhaseRow → PhaseRow
ended t outcome details p = record p {
  ended_at_utc = some t;
  outcome = some outcome;
  details = coalesce details p.details;
}

-- `UPDATE phases SET … WHERE id = ? AND ended_at_utc IS NULL`, refused if no row was hit
end_rows : ℕ → Time → Text → Option Bool → List PhaseRow → Result (List PhaseRow)
end_rows id t outcome details [] = err (no_open_phase id)
end_rows id t outcome details (p ∷ ps) =
    let rest = end_rows id t outcome details ps in
    if p.id == id
    then if is_open p then ok (ended t outcome details p ∷ ps) else err (no_open_phase id)
    else elim rest [ ok ps' ↦ ok (p ∷ ps') | err e ↦ err e ]

write_phases : Result (List PhaseRow) → Action Store (Unit {0})
write_phases (ok ps) s = (ok tt, record s { phases = ps })
write_phases (err e) s = (err e, s)

unfoldable pub end_phase : ℕ → Time → Text → Option Bool → Action Store (Unit {0})
unfolding end_rows write_phases
end_phase id t outcome details =
    transaction (λ s. write_phases (end_rows id t outcome details s.phases) s)

unfoldable pub find_open : ℕ → List PhaseRow → Option PhaseRow
find_open run_id [] = none
find_open run_id (p ∷ ps) = if p.run_id == run_id && is_open p then some p else find_open run_id ps

-- `WHERE run_id = ? AND ended_at_utc IS NULL ORDER BY id DESC LIMIT 1`
unfoldable pub open_phase : ℕ → Store → Option PhaseRow
unfolding find_open
open_phase run_id s = find_open run_id s.phases

unfoldable pub list_phases : ℕ → Store → List PhaseRow
list_phases run_id s = reverse (keep (λ p. p.run_id == run_id) s.phases)
