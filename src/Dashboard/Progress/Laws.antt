-- ===== src/Dashboard/Progress/Laws.antt =====
-- The progress that the page shows stays in its range, and grows along the experiment.
use blink_battery_benchmark.Common.{
  ℕ, zero, suc, length, ◌*◌, ◌-◌, ◌+◌, ◌≤◌, ◌≡◌, refl, true, Option, none, some, min, arith,
}
use blink_battery_benchmark.Storage.Types.{Time}
use blink_battery_benchmark.Config.Types.{ExperimentConfig}
use blink_battery_benchmark.Experiment.State.{
  ExperimentState, not_started, running_snapshot, running_stream, recovery, completed,
  stopped_low_battery, stopped_manual, stopped_error, is_active,
}
use blink_battery_benchmark.Dashboard.Progress.{
  total_duration, before_stage, completed_before, progress,
}

progress-le-total :
    (c : ExperimentConfig) (st : ExperimentState) (index : ℕ) (elapsed : Time) (left : Option Time)
    → progress c st index elapsed left ≤ total_duration c
unfolding progress
progress-le-total c completed index elapsed left = omega arith
progress-le-total c not_started index elapsed left = omega arith
progress-le-total c running_snapshot index elapsed left = omega arith
progress-le-total c running_stream index elapsed left = omega arith
progress-le-total c recovery index elapsed left = omega arith
progress-le-total c stopped_low_battery index elapsed left = omega arith
progress-le-total c stopped_manual index elapsed left = omega arith
progress-le-total c stopped_error index elapsed left = omega arith

progress_active :
    (c : ExperimentConfig) (st : ExperimentState) (index : ℕ) (elapsed : Time) (left : Option Time)
    → is_active st ≡ true
    → progress c st index elapsed left ≡ min (total_duration c) (before_stage c index + elapsed)
unfolding progress completed_before
progress_active c running_snapshot index elapsed left h = refl
progress_active c running_stream index elapsed left h = refl
progress_active c not_started index elapsed left h = cc
progress_active c recovery index elapsed left h = cc
progress_active c completed index elapsed left h = cc
progress_active c stopped_low_battery index elapsed left h = cc
progress_active c stopped_manual index elapsed left h = cc
progress_active c stopped_error index elapsed left h = cc

before_stage_suc :
    (c : ExperimentConfig) (index : ℕ)
    → before_stage c (index + 1)
      ≡ before_stage c index + (c.test_duration_seconds + c.recovery_duration_seconds)
before_stage_suc c index = grind arith

-- The time that an experiment takes up to the start of its stage k, one stage after the other.
abbrev pub spent : ExperimentConfig → ℕ → Time
spent c zero = 0
spent c (suc k) = spent c k + c.test_duration_seconds + c.recovery_duration_seconds

before_stage-spent : (c : ExperimentConfig) (k : ℕ) → before_stage c k ≡ spent c k
before_stage-spent c zero = grind arith
before_stage-spent c (suc k) = let ih = before_stage-spent c k in grind arith

spent_le : (c : ExperimentConfig) (k m : ℕ) → k ≤ m → spent c k ≤ spent c m
spent_le c zero m h = omega arith
spent_le c (suc k) zero h = omega arith
spent_le c (suc k) (suc m) h = omega (arith, spent_le c k m)

total_of :
    (c : ExperimentConfig) (m n : ℕ)
    → n ≡ suc m
    → n * c.test_duration_seconds + (n - 1) * c.recovery_duration_seconds
      ≡ spent c m + c.test_duration_seconds
total_of c m n e =
    let one : n - 1 ≡ m = omega arith in
    let ih = before_stage-spent c m in rw (one, e) (grind arith)

total_duration-spent :
    (c : ExperimentConfig) (m : ℕ)
    → length c.tests ≡ suc m
    → total_duration c ≡ spent c m + c.test_duration_seconds
unfolding total_duration
total_duration-spent c m e = total_of c m (length c.tests) e

-- For active states, an elapsed time within the test's length and a recovery's remaining time
-- within its length: the progress shown in a test is at most that in its recovery, which is at
-- most that at the next test's start; it does not jump at either change; and it is never above
-- that of a completed run.
pub progress_monotone :
    (c : ExperimentConfig) (st next : ExperimentState) (index : ℕ) (elapsed left later : Time)
    (old : Option Time)
    → is_active st ≡ true
    → is_active next ≡ true
    → elapsed ≤ c.test_duration_seconds
    → left ≤ c.recovery_duration_seconds
    → (progress c st index elapsed old ≤ progress c recovery index later (some left))
      × (progress c recovery index later (some left) ≤ progress c next (index + 1) 0 none)
      × (progress c st index c.test_duration_seconds old
          ≡ progress c recovery index later (some c.recovery_duration_seconds))
      × (progress c recovery index later (some 0) ≡ progress c next (index + 1) 0 none)
      × (progress c next index elapsed old ≤ progress c completed index later none)
unfolding progress completed_before
progress_monotone c st next index elapsed left later old a b e l =
    let first = progress_active c st index elapsed old a in
    let full = progress_active c st index c.test_duration_seconds old a in
    let begun = progress_active c next (index + 1) 0 none b in
    rw (first, full, begun, before_stage_suc c index)
      (
        omega arith,
        omega arith,
        omega arith,
        omega arith,
        progress-le-total c next index elapsed old,
      )

-- For active states, an experiment of m + 1 stages, a stage that another one follows, elapsed
-- times within a test's length and a recovery's remaining time within its length: in the stage's
-- test the progress is the time that the stages before it take, with their recoveries, and the
-- elapsed time; in the recovery it lacks the remaining time to what the next stage starts from; in
-- the next stage it is that and the elapsed time; and a completed run's is the time of all the
-- stages.
pub progress-spent :
    (c : ExperimentConfig) (st next : ExperimentState) (m index : ℕ) (elapsed later left any : Time)
    (old : Option Time)
    → is_active st ≡ true
    → is_active next ≡ true
    → length c.tests ≡ suc m
    → index + 1 ≤ m
    → elapsed ≤ c.test_duration_seconds
    → later ≤ c.test_duration_seconds
    → left ≤ c.recovery_duration_seconds
    → (progress c st index elapsed old ≡ spent c index + elapsed)
      × (progress c recovery index any (some left) + left ≡ spent c (index + 1))
      × (progress c next (index + 1) later old ≡ spent c (index + 1) + later)
      × (progress c completed index any old ≡ spent c m + c.test_duration_seconds)
unfolding progress completed_before
progress-spent c st next m index elapsed later left any old a b n i e l r =
    let total = total_duration-spent c m n in
    let first = progress_active c st index elapsed old a in
    let begun = progress_active c next (index + 1) later old b in
    let here = before_stage-spent c index in
    let there = before_stage-spent c (index + 1) in
    let grows = spent_le c (index + 1) m i in
    rw (first, begun, total, here, there)
      (omega (arith, grows), omega (arith, grows), omega (arith, grows), refl)
