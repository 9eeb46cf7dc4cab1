-- ===== src/Experiment/Battery.antt =====
-- Battery states in src/blink_dashboard/experiment.py: their normal form, and which of them are low.
pub mod Laws
use blink_battery_benchmark.Common.{Bool, false, Option, none, some, List, [], ◌∷◌}
use blink_battery_benchmark.Text.{Text, strip, casefold, replace, contains}
use blink_battery_benchmark.Storage.Types.{BatteryReading}
use blink_battery_benchmark.Config.Types.{ExperimentConfig}

abbrev pub nonempty : Text → Option Text
nonempty [] = none
nonempty (c ∷ s) = some (c ∷ s)

unfoldable pub normalize_battery_state : Option Text → Option Text
normalize_battery_state none = none
normalize_battery_state (some value) =
    nonempty (replace b' ' b'_' (replace b'-' b'_' (casefold (strip value))))

abbrev pub add_some : Option Text → List Text → List Text
add_some none ts = ts
add_some (some t) ts = t ∷ ts

-- the set that the constructor builds from its argument
unfoldable pub low_states : List Text → List Text
unfolding normalize_battery_state
low_states [] = []
low_states (item ∷ items) = add_some (normalize_battery_state (some item)) (low_states items)

abbrev pub is_in : List Text → Option Text → Bool
is_in states none = false
is_in states (some s) = contains s states

-- `_is_low`
unfoldable pub is_low_reading : List Text → BatteryReading → Bool
unfolding normalize_battery_state
is_low_reading states reading = is_in states (normalize_battery_state reading.battery_state)
