-- ===== src/Storage/Records.antt =====
-- The `measurements` and `events` tables of src/blink_dashboard/storage.py, and their queries.
pub mod Laws
pub mod Order
use blink_battery_benchmark.Common.{
  ℕ, ◌+◌, Bool, true, false, not, ◌&&◌, ◌||◌, Option, none, some, List, [], ◌∷◌, leb, ◌==◌,
  if◌then◌else◌, keep, take, min,
}
use blink_battery_benchmark.Text.{Text, is_blank, text_eq}
use blink_battery_benchmark.Action.{Action, Result, ok, err, empty_message, settle, transaction}
use blink_battery_benchmark.Storage.Timestamps.{to_timestamp, text_lt}
use blink_battery_benchmark.Storage.Types.{
  Time, Measurement, MeasurementRow, Level, EventRow, Store,
}

unfoldable pub add_measurement : ℕ → Measurement → Action Store ℕ
add_measurement run_id m = transaction λ s.
    let id = s.last_measurement_id + 1 in
    let row : MeasurementRow = record { id = id; run_id = run_id; measurement = m } in
    (ok id, record s { measurements = row ∷ s.measurements; last_measurement_id = id })

-- the arguments of `add_event`
pub record EventArgs : Type 0 where
  pub level : Level
  pub category : Text
  pub message : Text
  pub run_id : Option ℕ
  pub test_number : Option ℕ
  pub observed_at_utc : Time
  pub details : Option Bool

abbrev pub new_event : ℕ → EventArgs → EventRow
new_event id e = record {
  id = id;
  run_id = e.run_id;
  observed_at_utc = e.observed_at_utc;
  level = e.level;
  category = e.category;
  test_number = e.test_number;
  message = e.message;
  details = e.details;
}

insert_event : EventArgs → Action Store ℕ
insert_event e s =
    let id = s.last_event_id + 1 in
    (ok id, record s { events = new_event id e ∷ s.events; last_event_id = id })

unfoldable pub add_event : EventArgs → Action Store ℕ
unfolding insert_event
add_event e s =
    if is_blank e.message then (err empty_message, s) else transaction (insert_event e) s

module _ {ℓ} {A : Type ℓ} (before : A → A → Bool) where
  unfoldable pub insert_by : A → List A → List A
  insert_by x [] = x ∷ []
  insert_by x (y ∷ ys) = if before x y then x ∷ y ∷ ys else y ∷ insert_by x ys

  unfoldable pub sort_by : List A → List A
  unfolding insert_by
  sort_by [] = []
  sort_by (x ∷ xs) = insert_by x (sort_by xs)

-- the order of two rows by their texts, then their ids
abbrev pub stamped_before : Text × ℕ → Text × ℕ → Bool
stamped_before (s, i) (t, j) = text_lt s t || (text_eq s t && leb i j)

-- `ORDER BY observed_at_utc, id`
abbrev pub earlier : MeasurementRow → MeasurementRow → Bool
earlier a b =
    stamped_before (to_timestamp a.measurement.observed_at_utc, a.id)
      (to_timestamp b.measurement.observed_at_utc, b.id)

-- `observed_at_utc >= ?`, when a start is given
abbrev pub from_start : Option Time → Time → Bool
from_start none t = true
from_start (some start) t = not (text_lt (to_timestamp t) (to_timestamp start))

unfoldable pub list_measurements : ℕ → Option Time → ℕ → Store → List MeasurementRow
unfolding sort_by to_timestamp text_lt text_eq
list_measurements run_id start limit s =
    if limit == 0
    then []
    else take (min limit 100_000) (
        sort_by earlier (
          keep (λ m. m.run_id == run_id && from_start start m.measurement.observed_at_utc)
            s.measurements))

abbrev pub is_of_run : ℕ → Option ℕ → Bool
is_of_run run_id none = false
is_of_run run_id (some i) = i == run_id

-- `ORDER BY observed_at_utc DESC, id DESC`
abbrev pub later : EventRow → EventRow → Bool
later a b =
    stamped_before (to_timestamp b.observed_at_utc, b.id) (to_timestamp a.observed_at_utc, a.id)

unfoldable pub list_events : ℕ → ℕ → Store → List EventRow
unfolding sort_by to_timestamp text_lt text_eq
list_events run_id limit s =
    if limit == 0
    then []
    else take (min limit 200) (sort_by later (keep (λ e. is_of_run run_id e.run_id) s.events))
