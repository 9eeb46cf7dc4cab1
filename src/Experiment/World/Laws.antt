-- ===== src/Experiment/World/Laws.antt =====
-- What the small steps do in a world whose run is the row that the database holds.
use blink_battery_benchmark.Common.{◌≡◌, true, some, List, ◌∷◌}
use blink_battery_benchmark.Action.{ok}
use blink_battery_benchmark.Storage.Types.{Change}
use blink_battery_benchmark.Storage.Runs.{get_run, changed, passes_checks}
use blink_battery_benchmark.Storage.Runs.Laws.{saved, update_run-saved}
use blink_battery_benchmark.Experiment.World.{Instant, World, update}

-- The run in memory is the row in the database.
abbrev pub Synced : World → Type 0
Synced w = get_run w.run.id w.store ≡ some w.run

abbrev pub updated : Instant → List Change → World → World
updated t cs w = let r = changed cs t.utc w.run in record w { run = r; store = saved r w.store }

pub update-updated :
    (t : Instant) (c : Change) (cs : List Change) (w : World)
    → Synced w
    → passes_checks (changed (c ∷ cs) t.utc w.run) ≡ true
    → update t (c ∷ cs) w ≡ (ok tt, updated t (c ∷ cs) w)
unfolding update
update-updated t c cs w h p = rw (update_run-saved w.run.id t.utc c cs w.store w.run h p)
