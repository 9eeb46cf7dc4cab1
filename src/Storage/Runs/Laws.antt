-- ===== src/Storage/Runs/Laws.antt =====
-- What `update_run` and `create_run` do to the table: one row changes, and it is the row returned.
use blink_battery_benchmark.Common.{
  ℕ, ◌+◌, ◌≡◌, ◌≢◌, refl, true, some, List, [], ◌∷◌, ◌==◌, if◌then◌else◌, arith, ◌∙◌, Bool-cases,
  inl, inr, subst, sym, ==_refl,
}
use blink_battery_benchmark.Action.{ok}
use blink_battery_benchmark.Experiment.State.{ExperimentState}
use blink_battery_benchmark.Storage.Types.{Time, RunRecord, Store, Change}
use blink_battery_benchmark.Storage.Runs.{
  find_run, get_run, new_run, create_run, apply_change, apply_changes, changed, passes_checks,
  update_rows, update_run,
}

-- the table with the row of `r`'s id replaced by `r`
unfoldable pub put_row : RunRecord → List RunRecord → List RunRecord
put_row r [] = []
put_row r (x ∷ xs) = if x.id == r.id then r ∷ xs else x ∷ put_row r xs

abbrev pub saved : RunRecord → Store → Store
saved r s = record s { runs = put_row r s.runs }

pub find_run_id :
    (id : ℕ) (rs : List RunRecord) (r : RunRecord) → find_run id rs ≡ some r → r.id ≡ id
unfolding find_run
find_run_id id [] r h = ground arith
find_run_id id (x ∷ xs) r h = ground (arith, find_run_id id xs r)

-- A saved row is the row that is found.
pub find_run-put_row_self :
    (r : RunRecord) (rs : List RunRecord) (old : RunRecord)
    → find_run r.id rs ≡ some old
    → find_run r.id (put_row r rs) ≡ some r
unfolding find_run put_row
find_run-put_row_self r [] old h = ground arith
find_run-put_row_self r (x ∷ xs) old h = ground (arith, find_run-put_row_self r xs old)

-- Saving one run leaves the rows of the others.
pub find_run-put_row_ne :
    (r : RunRecord) (id : ℕ) (rs : List RunRecord)
    → r.id ≢ id
    → find_run id (put_row r rs) ≡ find_run id rs
unfolding find_run put_row
find_run-put_row_ne r id [] h = refl
find_run-put_row_ne r id (x ∷ xs) h = ground (arith, find_run-put_row_ne r id xs h)

id-apply_change : (c : Change) (r : RunRecord) → (apply_change c r).id ≡ r.id
id-apply_change c r = ground arith

pub id-apply_changes : (cs : List Change) (r : RunRecord) → (apply_changes cs r).id ≡ r.id
id-apply_changes [] r = refl
id-apply_changes (c ∷ cs) r = id-apply_changes cs (apply_change c r) ∙ id-apply_change c r

update_rows-put_row :
    (id : ℕ) (cs : List Change) (now : Time) (rs : List RunRecord) (r : RunRecord)
    → find_run id rs ≡ some r
    → passes_checks (changed cs now r) ≡ true
    → update_rows id cs now rs ≡ ok (put_row (changed cs now r) rs)
unfolding find_run put_row update_rows
update_rows-put_row id cs now [] r h p = ground arith
update_rows-put_row id cs now (x ∷ xs) r h p = elim (Bool-cases (x.id == id)) [
  | inl here ↦ let same : x ≡ r = ground arith in rw (same) (ground (arith, id-apply_changes cs r))
  | inr there ↦
      ground (arith, id-apply_changes cs r, find_run_id id xs r, update_rows-put_row id cs now xs r)
]

-- For a run that is in the store, and changes after which its row passes the CHECK clauses: an
-- update returns the changed row, and puts it in the place of the old one and leaves every other
-- row and table.
pub update_run-saved :
    (id : ℕ) (now : Time) (c : Change) (cs : List Change) (s : Store) (r : RunRecord)
    → get_run id s ≡ some r
    → passes_checks (changed (c ∷ cs) now r) ≡ true
    → update_run id now (c ∷ cs) s ≡ (ok (changed (c ∷ cs) now r), saved (changed (c ∷ cs) now r) s)
unfolding update_run
update_run-saved id now c cs s r h p =
    rw (update_rows-put_row id (c ∷ cs) now s.runs r h p) (rw (found) refl)
  where
    found : find_run id (put_row (changed (c ∷ cs) now r) s.runs) ≡ some (changed (c ∷ cs) now r)
    found =
        let q = changed (c ∷ cs) now r in
        let e : q.id ≡ id = id-apply_changes (c ∷ cs) r ∙ find_run_id id s.runs r h in
        subst (λ i. find_run i (put_row q s.runs) ≡ some q) e
          (find_run-put_row_self q s.runs r (subst (λ i. find_run i s.runs ≡ some r) (sym e) h))

-- A created run is the row that is found, and the earlier rows are still there.
pub create_run_lem :
    (st : ExperimentState) (now : Time) (s : Store)
    → create_run st now s ≡ (
      ok (new_run (s.last_run_id + 1) st now),
      record s {
        runs = new_run (s.last_run_id + 1) st now ∷ s.runs;
        last_run_id = s.last_run_id + 1;
      },
    )
unfolding create_run
create_run_lem st now s = rw (==_refl (s.last_run_id + 1))
