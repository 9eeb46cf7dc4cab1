-- ===== src/Storage/Phases/Laws.antt =====
-- What `begin_phase` and `end_phase` do to the table: a phase that is begun is open, and an open
-- phase is ended once.
use blink_battery_benchmark.Common.{
  ℕ, ◌+◌, ◌≡◌, refl, Bool, true, false, Option, List, [], ◌∷◌, ◌==◌, if◌then◌else◌, arith, ==_refl,
}
use blink_battery_benchmark.Text.{Text}
use blink_battery_benchmark.Action.{ok}
use blink_battery_benchmark.Storage.Types.{Time, PhaseRow, Store}
use blink_battery_benchmark.Storage.Phases.{
  PhaseStart, new_phase, begin_phase, is_open, ended, end_rows, end_phase,
}

-- the phase with this id is in the table and has not ended
unfoldable pub holds_open : ℕ → List PhaseRow → Bool
holds_open id [] = false
holds_open id (p ∷ ps) = if p.id == id then is_open p else holds_open id ps

-- the table with the phase of this id ended
unfoldable pub put_end : ℕ → Time → Text → Option Bool → List PhaseRow → List PhaseRow
put_end id t outcome details [] = []
put_end id t outcome details (p ∷ ps) =
    if p.id == id then ended t outcome details p ∷ ps else p ∷ put_end id t outcome details ps

abbrev pub with_end : ℕ → Time → Text → Option Bool → Store → Store
with_end id t outcome details s = record s { phases = put_end id t outcome details s.phases }

abbrev pub with_phase : PhaseStart → Store → Store
with_phase p s = record s {
  phases = new_phase (s.last_phase_id + 1) p ∷ s.phases;
  last_phase_id = s.last_phase_id + 1;
}

end_rows-put_end :
    (id : ℕ) (t : Time) (outcome : Text) (details : Option Bool) (ps : List PhaseRow)
    → holds_open id ps ≡ true
    → end_rows id t outcome details ps ≡ ok (put_end id t outcome details ps)
unfolding holds_open put_end end_rows
end_rows-put_end id t outcome details [] h = ground arith
end_rows-put_end id t outcome details (p ∷ ps) h =
    ground (arith, end_rows-put_end id t outcome details ps)

-- If the phase with this id is open: `end_phase` returns, writes the end, the outcome and the
-- details to that row, and leaves every other row and table.
pub end_phase-with_end :
    (id : ℕ) (t : Time) (outcome : Text) (details : Option Bool) (s : Store)
    → holds_open id s.phases ≡ true
    → end_phase id t outcome details s ≡ (ok tt, with_end id t outcome details s)
unfolding end_phase
end_phase-with_end id t outcome details s h = rw (end_rows-put_end id t outcome details s.phases h)

pub begin_phase-with_phase :
    (p : PhaseStart) (s : Store) → begin_phase p s ≡ (ok (s.last_phase_id + 1), with_phase p s)
unfolding begin_phase
begin_phase-with_phase p s = refl

-- A phase that was just begun is open.
pub holds_open-new_phase :
    (id : ℕ) (p : PhaseStart) (ps : List PhaseRow) → holds_open id (new_phase id p ∷ ps) ≡ true
unfolding holds_open
holds_open-new_phase id p ps = rw (==_refl id)

-- A phase that was ended is not open, and cannot be ended again.
pub holds_open-put_end :
    (id : ℕ) (t : Time) (outcome : Text) (details : Option Bool) (ps : List PhaseRow)
    → holds_open id (put_end id t outcome details ps) ≡ false
unfolding holds_open put_end
holds_open-put_end id t outcome details [] = refl
holds_open-put_end id t outcome details (p ∷ ps) =
    ground (arith, holds_open-put_end id t outcome details ps)
