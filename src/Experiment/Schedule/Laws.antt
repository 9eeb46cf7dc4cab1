-- ===== src/Experiment/Schedule/Laws.antt =====
-- How far `_advance_deadline` and `SnapshotSchedule.advance_after_attempt` move a deadline.
use blink_battery_benchmark.Common.{
  ◌+◌, ◌-◌, ◌*◌, ◌/◌, ◌≤◌, ◌<◌, ◌≡◌, ltb, arith, Bool-cases, inl, inr, max,
}
use native.Mathlib.Nat.{div-add-mod', mod-lt, add-mul}
use blink_battery_benchmark.Storage.Types.{Time}
use blink_battery_benchmark.Experiment.Schedule.{missed_steps, advance_deadline}

-- For an interval above 0: the advanced deadline lies past the clock, at least one interval after
-- the old deadline, at most one interval after the later of the clock and the old deadline, and a
-- whole number of intervals after the old deadline.
pub advance_deadline-past :
    (now deadline interval : Time)
    → 0 < interval
    → (now < advance_deadline now deadline interval)
      × (deadline + interval ≤ advance_deadline now deadline interval)
      × (advance_deadline now deadline interval ≤ max now deadline + interval)
      × (advance_deadline now deadline interval
          ≡ deadline + missed_steps now deadline interval * interval)
unfolding advance_deadline missed_steps
advance_deadline-past now deadline interval h = elim (Bool-cases (ltb now deadline)) [
  | inl before ↦ rw before (ground arith)
  | inr after ↦
      let d = div-add-mod' (now - deadline) interval in
      let m = mod-lt (now - deadline) h in
      let q = (now - deadline) / interval in
      let l = add-mul q 1 interval in
      let m1 : max 1 (q + 1) ≡ q + 1 = omega arith in rw after (rw (m1, l) (omega arith))
]
