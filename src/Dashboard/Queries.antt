-- ===== src/Dashboard/Queries.antt =====
-- The queries of src/blink_dashboard/app.py. `parse_int` is `int` on a text (`none` if it raises
-- ValueError), and `parse_time` is `_utc_datetime` on one.
pub mod Laws
use blink_battery_benchmark.Common.{
  ℕ, Bool, true, false, not, ◌&&◌, Option, none, some, List, [], ◌∷◌, ◌++◌, leb, ◌==◌, min, max,
  length, keep, map, if◌then◌else◌,
}
use blink_battery_benchmark.Text.{Text, codes}
use blink_battery_benchmark.Action.{Result, ok, err}
use blink_battery_benchmark.Storage.Types.{
  Time, MeasurementRow, PhaseRow, EventRow, Level, info, warning, error,
}
use blink_battery_benchmark.Storage.Phases.{list_phases}
use blink_battery_benchmark.Storage.Records.{list_measurements, list_events}
use blink_battery_benchmark.Config.Types.{ExperimentConfig, ExperimentTestConfig, test}
use blink_battery_benchmark.Config.Toml.{Number, plus, minus}
use blink_battery_benchmark.Experiment.World.{World}

-- a page of rows, or `web.HTTPBadRequest`
pub data Query (A : Type 0) : Type 0 where
  page : A → Query A
  bad_request : Text → Query A

abbrev pub then_page : {A B : Type 0} → Query A → (A → Query B) → Query B
then_page (page a) f = f a
then_page (bad_request text) f = bad_request text

abbrev pub clamp : ℕ → Number → ℕ
clamp maximum (minus n) = 1
clamp maximum (plus n) = max 1 (min maximum n)

pub record Measurements : Type 0 where
  pub measurements : List MeasurementRow
  pub phases : List PhaseRow
  pub truncated : Bool

pub record ErrorRow : Type 0 where
  pub event : EventRow
  pub test_name : Option Text

abbrev pub is_trouble : Level → Bool
is_trouble info = false
is_trouble warning = true
is_trouble error = true

abbrev pub name_of : Result ExperimentTestConfig → Option Text
name_of (ok t) = some t.name
name_of (err e) = none

-- the name of a stage that the configuration has; any other number raises in `test`
abbrev pub stage_name : ExperimentConfig → Option ℕ → Option Text
stage_name c none = none
stage_name c (some n) = name_of (test c n)

module _ (parse_int : Text → Option Number) (parse_time : Text → Option Time) where
  abbrev pub parsed : Text → ℕ → Option Number → Query ℕ
  parsed name maximum none = bad_request (name ++ codes " must be an integer")
  parsed name maximum (some value) = page (clamp maximum value)

  -- `_bounded_int`
  unfoldable pub bounded_int : Option Text → Text → ℕ → ℕ → Query ℕ
  bounded_int none name default maximum = page (clamp maximum (plus default))
  bounded_int (some value) name default maximum = parsed name maximum (parse_int value)

  abbrev pub start_time : Option Time → Query (Option Time)
  start_time none = bad_request (codes "start must be an ISO-8601 timestamp")
  start_time (some t) = page (some t)

  abbrev pub query_time : Option Text → Query (Option Time)
  query_time none = page none
  query_time (some []) = page none
  query_time (some (c ∷ s)) = start_time (parse_time (c ∷ s))

  -- `_measurements`
  unfoldable pub measurements : Option Text → Option Text → World → Query Measurements
  unfolding bounded_int
  measurements limit start w = then_page (bounded_int limit (codes "limit") 5000 100_000) λ n.
      then_page (query_time start) λ since.
        let points = list_measurements w.run.id since n w.store in
        page (record {
          measurements = points;
          phases = list_phases w.run.id w.store;
          truncated = length points == n;
        })

  -- `_errors`
  unfoldable pub errors : ExperimentConfig → Option Text → World → Query (List ErrorRow)
  unfolding bounded_int
  errors c limit w = then_page (bounded_int limit (codes "limit") 50 200) λ n. page (
      map (λ e. record { event = e; test_name = stage_name c e.test_number })
        (keep (λ e. is_trouble e.level) (list_events w.run.id n w.store)))
