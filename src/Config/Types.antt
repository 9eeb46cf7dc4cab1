-- ===== src/Config/Types.antt =====
-- The configuration of an experiment in src/blink_dashboard/config.py. Durations are in
-- microseconds; a stage is counted from 1.
use blink_battery_benchmark.Common.{ℕ, zero, suc, Bool, Option, none, some, List, get_elem?}
use blink_battery_benchmark.Text.{Text, codes}
use blink_battery_benchmark.Action.{Result, ok, err, bad_test_number, not_snapshot_test}
use blink_battery_benchmark.Storage.Types.{Time}

pub data Kind : Type 0 where
  snapshot stream : Kind

-- the string of `kind`
abbrev pub kind_text : Kind → Text
kind_text snapshot = codes "snapshot"
kind_text stream = codes "stream"

pub record ExperimentTestConfig : Type 0 where
  pub name : Text
  pub kind : Kind
  pub snapshot_interval_seconds : Option Time

pub record ExperimentConfig : Type 0 where
  pub test_duration_seconds : Time
  pub recovery_duration_seconds : Time
  pub battery_poll_seconds : Time
  pub measurement_interval_seconds : Time
  pub stream_checkpoint_seconds : Time
  pub stream_data_timeout_seconds : Time
  pub fatal_outage_seconds : Time
  pub development_mode : Bool
  pub tests : List ExperimentTestConfig

abbrev some_test : Option ExperimentTestConfig → Result ExperimentTestConfig
some_test none = err bad_test_number
some_test (some t) = ok t

-- `tests[test_number - 1]`, in the range that is checked first
abbrev pub find_test : List ExperimentTestConfig → ℕ → Result ExperimentTestConfig
find_test ts zero = err bad_test_number
find_test ts (suc n) = some_test (get_elem? ts n)

unfoldable pub test : ExperimentConfig → ℕ → Result ExperimentTestConfig
test c n = find_test c.tests n

abbrev first_ok : Result ExperimentTestConfig → Time → Result Time
first_ok (ok _) t = ok t
first_ok (err e) _ = err e

unfoldable pub test_duration : ExperimentConfig → ℕ → Result Time
unfolding test
test_duration c n = first_ok (test c n) c.test_duration_seconds

abbrev interval_of : Kind → Option Time → Result Time
interval_of snapshot (some i) = ok i
interval_of _ _ = err not_snapshot_test

abbrev interval_or_raise : Result ExperimentTestConfig → Result Time
interval_or_raise (ok t) = interval_of t.kind t.snapshot_interval_seconds
interval_or_raise (err e) = err e

unfoldable pub snapshot_interval : ExperimentConfig → ℕ → Result Time
unfolding test
snapshot_interval c n = interval_or_raise (test c n)
