-- ===== src/Dashboard/Queries/Laws.antt =====
-- The pages that the queries return are bounded, and hold rows of the current run alone.
use blink_battery_benchmark.Common.{
  ℕ, ◌&&◌, if◌then◌else◌, Option, none, some, List, leb, ◌==◌, keep,
}
use blink_battery_benchmark.Text.{Text}
use blink_battery_benchmark.Storage.Types.{Time, MeasurementRow, Store}
use blink_battery_benchmark.Storage.Records.{sort_by, earlier}
use blink_battery_benchmark.Storage.Timestamps.Laws.{is_since}
use blink_battery_benchmark.Config.Toml.{Number, plus, minus}
use blink_battery_benchmark.Experiment.World.{World}
use blink_battery_benchmark.Dashboard.Queries.{measurements}

-- the rows of a run from a start on
abbrev pub matching : ℕ → Option Time → Store → List MeasurementRow
matching run_id start s = keep (λ m. m.run_id == run_id && is_since start m) s.measurements

-- the same, sorted as the query does
abbrev sorted_rows : ℕ → Option Time → Store → List MeasurementRow
sorted_rows run_id start s = sort_by earlier (matching run_id start s)

-- the number of rows that a limit asks for: 5000 if none is given, and otherwise the nearest to it of
-- 1 to 100000
abbrev pub nearest : Number → ℕ
nearest (minus k) = 1
nearest (plus k) = if k == 0 then 1 else if leb k 100_000 then k else 100_000

abbrev pub asked_limit : (Text → Option Number) → Option Text → Option ℕ
asked_limit parse_int none = some 5000
asked_limit parse_int (some text) = elim (parse_int text) [
  | none ↦ none
  | some k ↦ some (nearest k)
]
