-- ===== src/Experiment/Invariant.antt =====
-- What holds of a runner's world between any two steps, and how it is carried through a method.
pub mod Steps
pub mod Leaves
pub mod Checkpoints
pub mod Phases
use blink_battery_benchmark.Common.{
  ℕ, zero, suc, arith, ◌-◌, ◌≡◌, refl, Bool, true, false, not, ◌&&◌, ◌||◌, Option, none, some, List,
  [], ◌∷◌, leb, ◌==◌, if◌then◌else◌, is_some,
}
use blink_battery_benchmark.Action.{when, Done, Result, ok, err, continue, ◌>>=◌, ◌>>◌}
use blink_battery_benchmark.Storage.Types.{RunRecord, PhaseRow, Store}
use blink_battery_benchmark.Storage.Runs.{get_run, passes_checks}
use blink_battery_benchmark.Storage.Phases.Laws.{holds_open}
use blink_battery_benchmark.Config.Types.{
  ExperimentConfig, ExperimentTestConfig, Kind, snapshot, stream, test,
}
use blink_battery_benchmark.Experiment.State.{
  ExperimentState, running_snapshot, running_stream, is_recovering,
}
use blink_battery_benchmark.Experiment.World.{World, M}
use blink_battery_benchmark.Experiment.World.Laws.{Synced}

-- The four stages that a configuration has: three snapshot tests and one stream test.
pub record IsStandard (c : ExperimentConfig) : Type 0 where
  pub first : ExperimentTestConfig
  pub second : ExperimentTestConfig
  pub third : ExperimentTestConfig
  pub last : ExperimentTestConfig
  pub all : c.tests ≡ first ∷ second ∷ third ∷ last ∷ []
  pub snapshots : (first.kind ≡ snapshot) × (second.kind ≡ snapshot) × (third.kind ≡ snapshot)
  pub streams : last.kind ≡ stream

-- a running state fits the stage: snapshots in the first three, the stream in the fourth
abbrev pub stage_fits : ExperimentState → ℕ → Bool
stage_fits running_snapshot n = leb n 3
stage_fits running_stream n = n == 4
stage_fits _ n = true

-- a stage between 1 and 4 that fits the state, and a deadline while a recovery timer runs
abbrev pub row_fits : RunRecord → Bool
row_fits r =
    passes_checks r
    && (stage_fits r.state r.current_test_number
        && (not (is_recovering r.state) || is_some r.phase_deadline_at_utc))

-- the phase that the runner holds is open in the table
abbrev pub phase_fits : Option ℕ → List PhaseRow → Bool
phase_fits none ps = true
phase_fits (some p) ps = holds_open p ps

-- phase ids fall from the newest row on, and none is above the counter
abbrev pub descends : ℕ → List PhaseRow → Bool
descends bound [] = true
descends bound (p ∷ ps) = (leb 1 p.id && leb p.id bound) && descends (p.id - 1) ps

pub record IsValid (w : World) : Type 0 where
  pub synced : get_run w.run.id w.store ≡ some w.run
  pub row : row_fits w.run ≡ true
  pub phase : phase_fits w.phase_id w.store.phases ≡ true
  pub ids : descends w.store.last_phase_id w.store.phases ≡ true

-- the four snapshot counters
abbrev pub counters : RunRecord → ℕ × ℕ × ℕ × ℕ
counters r = (r.snapshots_attempted, r.snapshots_succeeded, r.snapshots_failed, r.snapshot_timeouts)

-- The call returns a value and a world, and they satisfy `Q`.
pub record Returns {ℓ} {A : Type 0} (Q : A → World → Type ℓ) (r : Result A × World) : Type ℓ where
  pub value : A
  pub after : World
  pub returns : r ≡ (ok value, after)
  pub holds : Q value after

-- A call that returns, then the rest of the block.
pub Returns-bind {ℓ κ} :
    {A B : Type 0} {P : A → World → Type ℓ} {Q : B → World → Type κ} {r : Result A × World}
    {f : A → M B}
    → Returns P r
    → ((a : A) (w' : World) → P a w' → Returns Q (f a w'))
    → Returns Q (continue r.0 f r.1)
Returns-bind h k = rw h.returns (k h.value h.after h.holds)

pub Returns-pure {ℓ} :
    {A : Type 0} {Q : A → World → Type ℓ} (a : A) (w : World) → Q a w → Returns Q (ok a, w)
Returns-pure a w h = record { value = a; after = w; returns = refl; holds = h }

pub Returns-mono {ℓ κ} :
    {A : Type 0} {P : A → World → Type ℓ} {Q : A → World → Type κ} {r : Result A × World}
    → Returns P r
    → ((a : A) (w' : World) → P a w' → Q a w')
    → Returns Q r
Returns-mono h k = record {
  value = h.value;
  after = h.after;
  returns = h.returns;
  holds = k h.value h.after h.holds;
}

-- A guarded call, by whether its guard holds.
pub Returns-when {ℓ} :
    {Q : Done → World → Type ℓ} (b : Bool) (m : M Done) (w : World)
    → (b ≡ true → Returns Q (m w))
    → (b ≡ false → Q tt w)
    → Returns Q (when b m w)
Returns-when true m w h k = h refl
Returns-when false m w h k = Returns-pure tt _ (k refl)

-- Every stage of a standard configuration exists, and the fourth alone is a stream.
pub test-IsStandard :
    (c : ExperimentConfig) (n : ℕ)
    → IsStandard c
    → (leb 1 n && leb n 4) ≡ true
    → (x : ExperimentTestConfig) × (test c n ≡ ok x)
      × (x.kind ≡ (if n == 4 then stream else snapshot))
unfolding test
test-IsStandard c zero s h = ground arith
test-IsStandard c (suc zero) s h = (s.first, ground arith, ground arith)
test-IsStandard c (suc (suc zero)) s h = (s.second, ground arith, ground arith)
test-IsStandard c (suc (suc (suc zero))) s h = (s.third, ground arith, ground arith)
test-IsStandard c (suc (suc (suc (suc zero)))) s h = (s.last, ground arith, ground arith)
test-IsStandard c (suc (suc (suc (suc (suc n))))) s h = ground arith
