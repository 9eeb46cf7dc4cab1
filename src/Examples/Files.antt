-- ===== src/Examples/Files.antt =====
-- The configuration and the tables, at concrete ones.
use blink_battery_benchmark.Examples.Runs.{store_of, active_world}
use blink_battery_benchmark.Examples.Inputs.{interval, settings}
use blink_battery_benchmark.Common.{◌≡◌, refl, true, not, some}
use blink_battery_benchmark.Text.{codes, contains}
use blink_battery_benchmark.Config.Toml.{table, end, field, get, keys}
use blink_battery_benchmark.Config.Merge.{merge}
use blink_battery_benchmark.Config.Merge.Laws.{merged, get-merge}
use blink_battery_benchmark.Storage.Timestamps.{date_of, second_text, to_timestamp}
use blink_battery_benchmark.Storage.Records.Laws.{is_just_after, list_measurements-whole_second}
use blink_battery_benchmark.Common.{every}
use blink_battery_benchmark.Storage.Records.{list_measurements}

get-merge_example :
    get (codes "experiment") (
      merge
        (field (codes "experiment") (table settings) end)
        (field (codes "experiment") (table (interval 9)) end))
    ≡ merged
        (get (codes "experiment") (field (codes "experiment") (table (interval 9)) end))
        (get (codes "experiment") (field (codes "experiment") (table settings) end))
unfolding contains keys
get-merge_example =
    get-merge (codes "experiment") (field (codes "experiment") (table settings) end)
      (field (codes "experiment") (table (interval 9)) end) refl

list_measurements-whole_second_example :
    every
      (λ m. not (is_just_after 3000000 m.measurement.observed_at_utc))
      (list_measurements 1 (some 3000000) 10 (store_of active_world.run))
    ≡ true
list_measurements-whole_second_example =
    list_measurements-whole_second 1 3000000 10 (store_of active_world.run) refl

leap_day-to_timestamp : to_timestamp 1_709_164_800_000_250 ≡ codes "2024-02-29T00:00:00.000250Z"
unfolding to_timestamp second_text date_of
leap_day-to_timestamp = refl

last_second-to_timestamp : to_timestamp 1_735_689_599_000_000 ≡ codes "2024-12-31T23:59:59Z"
unfolding to_timestamp second_text date_of
last_second-to_timestamp = refl
