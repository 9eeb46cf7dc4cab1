-- ===== src/Config/Build.antt =====
-- The checks of `_build_config` in src/blink_dashboard/config.py on the experiment's settings. `float`,
-- `str` and `bool` of Python are arguments: `float_of` (`none` if it raises), `str_of` and `is_true`.
pub mod Laws
use blink_battery_benchmark.Common.{
  ℕ, zero, suc, ◌+◌, Bool, true, false, not, ◌&&◌, ◌||◌, Option, none, some, List, [], ◌∷◌, ◌++◌,
  leb, ltb, ◌==◌, if◌then◌else◌, is_some,
}
use blink_battery_benchmark.Text.{Text, codes, text_eq, strip, casefold, contains, replace}
use blink_battery_benchmark.Action.{Result, ok, err, bad_config}
use blink_battery_benchmark.Storage.Types.{Time}
use blink_battery_benchmark.Config.Types.{
  Kind, snapshot, stream, kind_text, ExperimentTestConfig, ExperimentConfig,
}
use blink_battery_benchmark.Config.Toml.{
  Number, Float, finite, infinity, minus_infinity, nan, plus, minus, Toml, str, table, array, Items,
  nil, item, Table, end, field, get, keys,
}

-- a step on the value of a result
infixl 5 ◌>>=◌ ◌>>◌
abbrev pub ◌>>=◌ : {A B : Type 0} → Result A → (A → Result B) → Result B
ok a >>= f = f a
err e >>= f = err e

abbrev pub ◌>>◌ : {A B : Type 0} → Result A → Result B → Result B
m >> k = m >>= λ _. k

abbrev pub check : Bool → Text → Result (Unit {0})
check true message = ok tt
check false message = err (bad_config message)

abbrev pub all_in : List Text → List Text → Bool
all_in known [] = true
all_in known (k ∷ ks) = contains k known && all_in known ks

-- `_only_known`, with the section in the message
unfoldable pub only_known : Text → Table → List Text → Result (Unit {0})
unfolding keys contains
only_known section values known =
    check (all_in known (keys values)) (codes "Unknown configuration setting(s): " ++ section)

-- `result <= 0`, which is false for nan
abbrev pub is_at_most_zero : Float → Bool
is_at_most_zero (finite (minus n)) = true
is_at_most_zero (finite (plus n)) = n == 0
is_at_most_zero infinity = false
is_at_most_zero minus_infinity = true
is_at_most_zero nan = false

abbrev pub above_zero : Text → Option Float → Result Float
above_zero name none = err (bad_config name)
above_zero name (some result) =
    if is_at_most_zero result
    then err (bad_config (name ++ codes " must be greater than zero"))
    else ok result

-- The durations of the model are finite: a setting that is infinite or nan, which the source takes,
-- is outside the model, and the load ends here.
abbrev pub finite_duration : Text → Float → Result Time
finite_duration name (finite (plus n)) = ok n
finite_duration name _ = err (bad_config (name ++ codes " is not finite"))

-- the two kinds that a name in the file may have
unfoldable pub kind_of : Text → Option Kind
unfolding text_eq
kind_of s =
    if text_eq s (codes "snapshot")
    then some snapshot
    else if text_eq s (codes "stream")
    then some stream
    else none

abbrev pub is_nonempty : Text → Bool
is_nonempty [] = false
is_nonempty (c ∷ s) = true

abbrev pub text_of : (Toml → Text) → Option Toml → Text
text_of str_of none = []
text_of str_of (some v) = str_of v

-- `_port`, for the integer that `int` gave
unfoldable pub port : Text → Number → Result ℕ
port name (minus n) = err (bad_config (name ++ codes " must be between 1 and 65535"))
port name (plus n) =
    if leb 1 n && leb n 65535
    then ok n
    else err (bad_config (name ++ codes " must be between 1 and 65535"))

-- `_normalize_state`, on the text that `str` gave
unfoldable pub normalize_state : Text → Text
unfolding strip casefold replace
normalize_state value = replace b'-' b'_' (replace b' ' b'_' (casefold (strip value)))

-- the states of `low_battery_states` that are not empty once normalized
abbrev pub some_states : List Text → List Text
some_states [] = []
some_states (value ∷ values) =
    let rest = some_states values in
    if is_nonempty (normalize_state value) then normalize_state value ∷ rest else rest

abbrev pub has_state : List Text → Bool
has_state [] = false
has_state (s ∷ ss) = true

-- the `low_battery_states` block of `_build_config`
unfoldable pub build_low_states : List Text → Result (List Text)
unfolding normalize_state
build_low_states values = do
  check (has_state (some_states values)) (codes "blink.low_battery_states cannot be empty")
  ok (some_states values)

abbrev pub four_kinds : Kind → Kind → Kind → Kind → Bool
four_kinds snapshot snapshot snapshot stream = true
four_kinds _ _ _ _ = false

-- three snapshot tests, then one stream test
abbrev pub has_four_stages : List ExperimentTestConfig → Bool
has_four_stages (a ∷ b ∷ c ∷ d ∷ []) = four_kinds a.kind b.kind c.kind d.kind
has_four_stages _ = false

module _ (float_of : Toml → Option Float) (str_of : Toml → Text) (is_true : Toml → Bool) where
  -- `_positive`
  unfoldable pub positive : Text → Toml → Result Float
  positive name value = above_zero name (float_of value)

  abbrev pub positive_duration : Text → Toml → Result Time
  positive_duration name value = positive name value >>= finite_duration name

  -- the interval that a test of a kind may have, or must have
  abbrev pub build_interval : Kind → Option Toml → Result (Option Time)
  build_interval snapshot none = err (bad_config (codes "snapshot requires an interval"))
  build_interval snapshot (some v) = do
    i ← positive_duration (codes "snapshot_interval_seconds") v
    ok (some i)
  build_interval stream none = ok none
  build_interval stream (some v) = err (bad_config (codes "stream cannot define snapshot interval"))

  abbrev pub build_named : Text → Option Kind → Option Toml → Result ExperimentTestConfig
  build_named [] k v = err (bad_config (codes "requires name and snapshot/stream kind"))
  build_named (c ∷ s) none v = err (bad_config (codes "requires name and snapshot/stream kind"))
  build_named (c ∷ s) (some k) v = do
    i ← build_interval k v
    ok (record { name = c ∷ s; kind = k; snapshot_interval_seconds = i })

  -- the body of the loop over `experiment.tests`
  unfoldable pub build_test : Toml → Result ExperimentTestConfig
  unfolding only_known get strip casefold kind_of
  build_test (table values) = do
    only_known (codes "experiment.tests") values
        (codes "name" ∷ codes "kind" ∷ codes "snapshot_interval_seconds" ∷ [])
    build_named (strip (text_of str_of (get (codes "name") values)))
        (kind_of (casefold (strip (text_of str_of (get (codes "kind") values)))))
        (get (codes "snapshot_interval_seconds") values)
  build_test _ = err (bad_config (codes "must be a table"))

  unfoldable pub build_all : Items → Result (List ExperimentTestConfig)
  unfolding build_test
  build_all nil = ok []
  build_all (item v vs) = do t ← build_test v; ts ← build_all vs; ok (t ∷ ts)

  -- the `tests_data` block of `_build_config`
  unfoldable pub build_tests : Items → Result (List ExperimentTestConfig)
  unfolding build_all
  build_tests tests_data = do
    tests ← build_all tests_data
    check (has_four_stages tests)
        (codes "experiment.tests must be three snapshot tests followed by one stream test")
    ok tests

  abbrev pub duration_or : Text → Option Toml → Time → Result Time
  duration_or name none default = ok default
  duration_or name (some v) default = positive_duration name v

  -- a duration of the file, or the default
  unfoldable pub duration : Table → Text → Time → Result Time
  unfolding get
  duration data_ key default = duration_or (codes "experiment." ++ key) (get key data_) default

  abbrev pub tests_or : Option Toml → List ExperimentTestConfig → Result (List ExperimentTestConfig)
  tests_or none default = ok default
  tests_or (some (array vs)) default = build_tests vs
  tests_or (some _) default = err (bad_config (codes "experiment.tests"))

  abbrev pub mode_or : Option Toml → Bool → Bool
  mode_or none default = default
  mode_or (some v) default = is_true v

  -- The experiment's part of `_build_config`, over the defaults; the settings' names were checked.
  unfoldable pub build_experiment : ExperimentConfig → Table → Result ExperimentConfig
  unfolding duration build_tests get
  build_experiment defaults data_ = do
    test ← duration data_ (codes "test_duration_seconds") defaults.test_duration_seconds
    recovery ← duration data_ (codes "recovery_duration_seconds") defaults.recovery_duration_seconds
    battery ← duration data_ (codes "battery_poll_seconds") defaults.battery_poll_seconds
    measurement ←
        duration data_ (codes "measurement_interval_seconds") defaults.measurement_interval_seconds
    checkpoint ←
        duration data_ (codes "stream_checkpoint_seconds") defaults.stream_checkpoint_seconds
    timeout ←
        duration data_ (codes "stream_data_timeout_seconds") defaults.stream_data_timeout_seconds
    outage ← duration data_ (codes "fatal_outage_seconds") defaults.fatal_outage_seconds
    check (leb timeout outage) (
        codes
          "experiment.stream_data_timeout_seconds cannot exceed experiment.fatal_outage_seconds")
    tests ← tests_or (get (codes "tests") data_) defaults.tests
    ok (record {
      test_duration_seconds = test;
      recovery_duration_seconds = recovery;
      battery_poll_seconds = battery;
      measurement_interval_seconds = measurement;
      stream_checkpoint_seconds = checkpoint;
      stream_data_timeout_seconds = timeout;
      fatal_outage_seconds = outage;
      development_mode = mode_or (get (codes "development_mode") data_) defaults.development_mode;
      tests = tests;
    })
