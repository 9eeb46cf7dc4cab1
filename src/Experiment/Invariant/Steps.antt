-- ===== src/Experiment/Invariant/Steps.antt =====
-- The small steps keep the invariant, and what each of them writes.
use blink_battery_benchmark.Common.{
  ℕ, ◌+◌, ◌-◌, ◌≡◌, refl, Bool, true, false, ◌&&◌, Option, none, some, List, [], ◌∷◌, leb, arith,
}
use blink_battery_benchmark.Text.{Text, is_blank}
use blink_battery_benchmark.Action.{Done}
use blink_battery_benchmark.Storage.Types.{Time, RunRecord, PhaseRow, Change, Level}
use blink_battery_benchmark.Storage.Runs.{get_run, changed, passes_checks}
use blink_battery_benchmark.Storage.Runs.Laws.{find_run-put_row_self, id-apply_changes}
use blink_battery_benchmark.Storage.Phases.{PhaseStart, new_phase}
use blink_battery_benchmark.Storage.Phases.Laws.{
  put_end, with_end, with_phase, end_phase-with_end, holds_open-new_phase,
}
use blink_battery_benchmark.Storage.Records.{EventArgs}
use blink_battery_benchmark.Storage.Records.Laws.{with_event, add_event-with_event}
use blink_battery_benchmark.Experiment.World.{
  Instant, World, update, end_open, end_phase_locked, record_event_locked,
}
use blink_battery_benchmark.Experiment.World.Laws.{updated, update-updated}
use blink_battery_benchmark.Experiment.Invariant.{row_fits, phase_fits, descends, IsValid, Returns}
use blink_battery_benchmark.Common.{subst, sym, ◌∙◌}

checks_of_row_fits : (r : RunRecord) → row_fits r ≡ true → passes_checks r ≡ true
checks_of_row_fits r h = ground arith

updated-IsValid :
    (t : Instant) (cs : List Change) (w : World)
    → IsValid w
    → row_fits (changed cs t.utc w.run) ≡ true
    → IsValid (updated t cs w)
updated-IsValid t cs w v h = record {
  synced =
      let q = changed cs t.utc w.run in
      find_run-put_row_self q w.store.runs w.run
        (subst (λ i. get_run i w.store ≡ some w.run) (sym (id-apply_changes cs w.run)) v.synced);
  row = h;
  phase = v.phase;
  ids = v.ids;
}

pub update-Returns :
    (t : Instant) (c : Change) (cs : List Change) (w : World)
    → IsValid w
    → row_fits (changed (c ∷ cs) t.utc w.run) ≡ true
    → Returns (λ _ w'. IsValid w' × (w' ≡ updated t (c ∷ cs) w)) (update t (c ∷ cs) w)
update-Returns t c cs w v h = record {
  value = tt;
  after = updated t (c ∷ cs) w;
  returns = update-updated t c cs w v.synced (checks_of_row_fits (changed (c ∷ cs) t.utc w.run) h);
  holds = (updated-IsValid t (c ∷ cs) w v h, refl);
}

pub descends-put_end :
    (id : ℕ) (t : Time) (outcome : Text) (d : Option Bool) (bound : ℕ) (ps : List PhaseRow)
    → descends bound (put_end id t outcome d ps) ≡ descends bound ps
unfolding put_end
descends-put_end id t outcome d bound [] = refl
descends-put_end id t outcome d bound (p ∷ ps) =
    ground (arith, descends-put_end id t outcome d (p.id - 1) ps)

-- the world after the phase that it holds was ended
abbrev pub phase_ended : Instant → Text → Option ℕ → World → World
phase_ended t outcome none w = record w { phase_id = none }
phase_ended t outcome (some p) w = record w {
  phase_id = none;
  store = with_end p t.utc outcome none w.store;
}

end_open-Returns :
    (t : Instant) (outcome : Text) (p : Option ℕ) (w : World)
    → IsValid w
    → phase_fits p w.store.phases ≡ true
    → Returns
        (λ (_ : Done) w'. IsValid w' × (w' ≡ phase_ended t outcome p w))
        (end_open t outcome p (record w { phase_id = none }))
end_open-Returns t outcome none w v h = record {
  value = tt;
  after = phase_ended t outcome none w;
  returns = refl;
  holds = (record { synced = v.synced; row = v.row; phase = refl; ids = v.ids }, refl);
}
end_open-Returns t outcome (some p) w v h = record {
  value = tt;
  after = phase_ended t outcome (some p) w;
  returns = rw (end_phase-with_end p t.utc outcome none w.store h);
  holds = (
    record {
      synced = v.synced;
      row = v.row;
      phase = refl;
      ids = descends-put_end p t.utc outcome none w.store.last_phase_id w.store.phases ∙ v.ids;
    },
    refl,
  );
}

-- Ending the phase that is held returns.
pub end_phase_locked-Returns :
    (t : Instant) (outcome : Text) (w : World)
    → IsValid w
    → Returns
        (λ (_ : Done) w'. IsValid w' × (w' ≡ phase_ended t outcome w.phase_id w))
        (end_phase_locked t outcome w)
unfolding end_phase_locked
end_phase_locked-Returns t outcome w v = end_open-Returns t outcome w.phase_id w v v.phase

descends-new_phase :
    (p : PhaseStart) (n : ℕ) (ps : List PhaseRow)
    → descends n ps ≡ true
    → descends (n + 1) (new_phase (n + 1) p ∷ ps) ≡ true
descends-new_phase p n ps h =
    let e : n + 1 - 1 ≡ n = omega arith in
    let f : (leb 1 (n + 1) && leb (n + 1) (n + 1)) ≡ true = ground arith in rw (f, e) h

-- the world after a phase was begun and is held
abbrev pub phase_begun : PhaseStart → World → World
phase_begun p w = record w {
  store = with_phase p w.store;
  phase_id = some (w.store.last_phase_id + 1);
}

pub phase_begun-IsValid : (p : PhaseStart) (w : World) → IsValid w → IsValid (phase_begun p w)
phase_begun-IsValid p w v = record {
  synced = v.synced;
  row = v.row;
  phase = holds_open-new_phase (w.store.last_phase_id + 1) p w.store.phases;
  ids = descends-new_phase p w.store.last_phase_id w.store.phases v.ids;
}

-- the arguments of `add_event` in `_record_event_locked`
abbrev pub event_args : Instant → Level → Text → Text → RunRecord → EventArgs
event_args t level category message r = record {
  level = level;
  category = category;
  message = message;
  run_id = some r.id;
  test_number = some r.current_test_number;
  observed_at_utc = t.utc;
  details = none;
}

abbrev pub event_added : Instant → Level → Text → Text → World → World
event_added t level category message w = record w {
  store = with_event (event_args t level category message w.run) w.store;
}

-- Recording an event with a message that is not blank returns.
pub record_event_locked-Returns :
    (t : Instant) (level : Level) (category message : Text) (w : World)
    → IsValid w
    → is_blank message ≡ false
    → Returns
        (λ (_ : Done) w'. IsValid w' × (w' ≡ event_added t level category message w))
        (record_event_locked t level category message w)
unfolding record_event_locked
record_event_locked-Returns t level category message w v h = record {
  value = tt;
  after = event_added t level category message w;
  returns = rw (add_event-with_event (event_args t level category message w.run) w.store h);
  holds = (record { synced = v.synced; row = v.row; phase = v.phase; ids = v.ids }, refl);
}
