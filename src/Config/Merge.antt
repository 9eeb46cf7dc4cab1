-- ===== src/Config/Merge.antt =====
-- `_merge` in src/blink_dashboard/config.py: the local file over the committed one.
pub mod Laws
use blink_battery_benchmark.Common.{Option, none, some}
use blink_battery_benchmark.Config.Toml.{Toml, Table, table, end, field, get, set}

-- `merge_value` is the value that a key gets: tables are merged, and anything else replaces what was
-- there.
unfoldable mutual
  unfolding get set

  pub merge_value : Toml → Option Toml → Toml
  merge_value (table override) (some (table base)) = table (merge base override)
  merge_value value _ = value

  pub merge : Table → Table → Table
  merge base end = base
  merge base (field key value rest) = merge (set key (merge_value value (get key base)) base) rest
