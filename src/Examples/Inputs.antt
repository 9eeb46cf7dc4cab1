-- ===== src/Examples/Inputs.antt =====
-- Readings, files and a runner at work.
use blink_battery_benchmark.Examples.Runs.{config, now, resume_time, store_of, active_world}
use blink_battery_benchmark.Common.{
  ℕ, ◌+◌, ◌*◌, ◌≤◌, ◌≡◌, refl, Bool, true, false, Option, none, some, List, [], ◌∷◌, ◌++◌, arith,
}
use blink_battery_benchmark.Text.{
  Text, codes, text_eq, is_blank, strip, casefold, replace, contains,
}
use blink_battery_benchmark.Action.{Error, ok}
use blink_battery_benchmark.Storage.Types.{Time, BatteryReading}
use blink_battery_benchmark.Storage.Runs.{find_run}
use blink_battery_benchmark.Config.Types.{ExperimentTestConfig, ExperimentConfig, snapshot, stream}
use blink_battery_benchmark.Config.Toml.{
  Number, Float, finite, infinity, minus_infinity, nan, plus, Toml, str, num, bool, array, table,
  nil, item, Table, end, field, get, keys,
}
use blink_battery_benchmark.Config.Build.{
  build_experiment, duration, positive, build_tests, build_all, build_test, only_known, kind_of,
}
use blink_battery_benchmark.Config.Build.Laws.{Checked}
use blink_battery_benchmark.Experiment.World.{Instant, World}
use blink_battery_benchmark.Experiment.Battery.{is_low_reading, normalize_battery_state}
use blink_battery_benchmark.Experiment.Invariant.{IsValid}
use blink_battery_benchmark.Experiment.Snapshots.{SnapshotLoop}
use blink_battery_benchmark.Experiment.Status.{world_with, construct}
use blink_battery_benchmark.Experiment.Battery.{low_states}
use blink_battery_benchmark.Storage.Runs.{latest_run}
use blink_battery_benchmark.Experiment.Controls.{initialize}
use blink_battery_benchmark.Experiment.Reach.{perform, stop_call, Reach, boots, calls}
use blink_battery_benchmark.Config.Sections.Laws.{is_finite}

abbrev pub low_names : List Text
low_names = codes "low" ∷ codes "replace" ∷ []

abbrev pub limit : Text
limit = codes "3600"

abbrev pub reading_of : Text → BatteryReading
reading_of s = record {
  observed_at_utc = 100000;
  battery_level_raw = none;
  battery_state = some s;
  battery_voltage_raw = none;
  battery_voltage_volts = none;
  blink_battery_check_time = none;
  camera_status = none;
}

abbrev pub full_reading : BatteryReading
full_reading = reading_of (codes "ok")

abbrev pub low_reading : BatteryReading
low_reading = reading_of (codes " LOW ")

pub low_reading-is_low : is_low_reading low_names low_reading ≡ true
unfolding is_low_reading normalize_battery_state strip casefold replace contains text_eq
low_reading-is_low = refl

abbrev pub offline : Text
offline = codes "camera offline"

pub offline-is_blank : is_blank offline ≡ false
unfolding is_blank
offline-is_blank = refl

abbrev pub rounds : SnapshotLoop
rounds = record {
  schedule = record { interval_seconds = 300; next_deadline = 750 };
  next_battery = 800;
  next_checkpoint = 690;
  next_measurement = 650;
}

abbrev pub numbers : Toml → Option Float
numbers (num n) = some (finite n)
numbers _ = none

pub numbers-is_finite : (v : Toml) (f : Float) → numbers v ≡ some f → is_finite f ≡ true
numbers-is_finite (num n) (finite m) h = refl
numbers-is_finite (num n) infinity h = ground arith
numbers-is_finite (num n) minus_infinity h = ground arith
numbers-is_finite (num n) nan h = ground arith
numbers-is_finite (str s) f h = ground arith
numbers-is_finite (bool b) f h = ground arith
numbers-is_finite (array xs) f h = ground arith
numbers-is_finite (table t) f h = ground arith

-- `int` of a number
abbrev pub whole_numbers : Toml → Option Number
whole_numbers (num n) = some n
whole_numbers _ = none

abbrev pub texts : Toml → Text
texts (str s) = s
texts _ = []

abbrev pub truths : Toml → Bool
truths _ = true

abbrev pub test_table : Text → Table → Toml
test_table kind rest =
    table (field (codes "name") (str (codes " A test ")) (field (codes "kind") (str kind) rest))

abbrev pub interval : ℕ → Table
interval n = field (codes "snapshot_interval_seconds") (num (plus n)) end

abbrev pub settings : Table
settings = field (codes "test_duration_seconds") (num (plus 600)) (
    field (codes "tests")
      (array (
        item (test_table (codes "snapshot") (interval 300)) (
          item (test_table (codes "Snapshot") (interval 60)) (
            item (test_table (codes "snapshot") (interval 30))
              (item (test_table (codes "STREAM") end) nil)))))
      end)

abbrev pub trial : Time → ExperimentTestConfig
trial i = record { name = codes "A test"; kind = snapshot; snapshot_interval_seconds = some i }

abbrev pub built : ExperimentConfig
built = record config {
  test_duration_seconds = 600;
  tests =
      trial 300
      ∷ trial 60
      ∷ trial 30
      ∷ (record { name = codes "A test"; kind = stream; snapshot_interval_seconds = none })
      ∷ [];
}

pub config-Checked : Checked config
config-Checked = record {
  stages = refl;
  intervals = refl;
  test = omega arith;
  recovery = omega arith;
  battery = omega arith;
  measurement = omega arith;
  checkpoint = omega arith;
  timeout = omega arith;
  outage = omega arith;
}

pub settings-built : build_experiment numbers texts truths config settings ≡ ok built
unfolding build_experiment duration positive get build_tests build_all build_test only_known kind_of
    strip casefold contains text_eq keys
settings-built = refl

abbrev pub joined : Text → Text → Text
joined category message = category ++ (codes ": " ++ message)

abbrev pub outage_text : Option Time → Text
outage_text _ = codes "outage"

pub constructed :
    construct config low_names 100000 (store_of active_world.run)
    ≡ ok (world_with (store_of active_world.run) active_world.run)
unfolding construct latest_run low_states normalize_battery_state strip casefold replace
constructed = refl

abbrev pub told : Error → Text
told _ = codes "error"

abbrev pub days : ℕ → Instant
days j = record { utc = 100000 + j * 43200; mono = 700 + j * 43200 }

pub spaced : (j : ℕ) → (days j).utc + config.recovery_duration_seconds ≤ (days (j + 1)).utc
spaced j = omega arith

pub full_reading-is_full : is_low_reading low_names full_reading ≡ false
unfolding is_low_reading normalize_battery_state strip casefold replace contains text_eq
full_reading-is_full = refl

abbrev pub fresh_world : World
fresh_world = record active_world { phase_id = none }

pub fresh_world-IsValid : IsValid fresh_world
unfolding find_run
fresh_world-IsValid = record { synced = refl; row = refl; phase = refl; ids = refl }

abbrev pub booted : World
booted =
    perform config low_names limit joined outage_text told stop_call resume_time
      (initialize config now (world_with (store_of active_world.run) active_world.run)).1

pub booted-Reach : Reach config low_names limit joined outage_text told booted
booted-Reach =
    calls stop_call resume_time _
      (boots low_names 100000 (store_of active_world.run) now _ refl refl constructed)
