-- ===== src/Experiment/Battery/Laws.antt =====
-- The two normal forms of a battery state, of the runner and of the configuration.
use blink_battery_benchmark.Common.{◌≡◌, refl, arith, some, [], ◌∷◌}
use blink_battery_benchmark.Text.{Text, strip, casefold, replace}
use blink_battery_benchmark.Config.Build.{normalize_state}
use blink_battery_benchmark.Experiment.Battery.{nonempty, normalize_battery_state}

replace_comm :
    (s : Text) → replace b' ' b'_' (replace b'-' b'_' s) ≡ replace b'-' b'_' (replace b' ' b'_' s)
unfolding replace
replace_comm [] = refl
replace_comm (c ∷ s) = let h = replace_comm s in ground arith

-- The runner's normal form of a battery state is the one of the configuration, or none if that is
-- empty, although the two replace blanks and dashes in the other order.
pub normalize_battery_state-normalize_state :
    (value : Text) → normalize_battery_state (some value) ≡ nonempty (normalize_state value)
unfolding normalize_battery_state normalize_state
normalize_battery_state-normalize_state value = rw (replace_comm (casefold (strip value))) refl
