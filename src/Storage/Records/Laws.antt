-- ===== src/Storage/Records/Laws.antt =====
-- What `add_measurement` and `add_event` do to their tables.
use blink_battery_benchmark.Common.{
  ℕ, ◌+◌, ◌≡◌, refl, Bool, true, false, not, ◌&&◌, [], ◌∷◌, ◌++◌, ◌/◌, ◌%◌, ◌≢◌, ◌==◌, some, every,
  keep, min, arith, Bool-cases, inl, inr,
}
use blink_battery_benchmark.Text.{Text, is_blank}
use blink_battery_benchmark.Action.{ok, err, empty_message}
use blink_battery_benchmark.Storage.Types.{Measurement, MeasurementRow, Store, Time}
use blink_battery_benchmark.Storage.Timestamps.{second_text, to_timestamp, text_lt}
use blink_battery_benchmark.Storage.Records.{
  EventArgs, new_event, insert_event, add_event, add_measurement, from_start, earlier, sort_by,
  list_measurements,
}
use blink_battery_benchmark.Storage.Records.Order.{every-take, every-keep, every-sort_by}

abbrev pub with_measurement : ℕ → Measurement → Store → Store
with_measurement run_id m s = record s {
  measurements =
      record { id = s.last_measurement_id + 1; run_id = run_id; measurement = m } ∷ s.measurements;
  last_measurement_id = s.last_measurement_id + 1;
}

abbrev pub with_event : EventArgs → Store → Store
with_event e s = record s {
  events = new_event (s.last_event_id + 1) e ∷ s.events;
  last_event_id = s.last_event_id + 1;
}

pub add_measurement-with_measurement :
    (run_id : ℕ) (m : Measurement) (s : Store)
    → add_measurement run_id m s ≡ (ok (s.last_measurement_id + 1), with_measurement run_id m s)
unfolding add_measurement
add_measurement-with_measurement run_id m s = refl

pub add_event-with_event :
    (e : EventArgs) (s : Store)
    → is_blank e.message ≡ false
    → add_event e s ≡ (ok (s.last_event_id + 1), with_event e s)
unfolding add_event insert_event
add_event-with_event e s h = rw h

pub add_event_blank :
    (e : EventArgs) (s : Store) → is_blank e.message ≡ true → add_event e s ≡ (err empty_message, s)
unfolding add_event
add_event_blank e s h = rw h

-- A common beginning does not matter for the order of texts.
text_lt-append : (p s t : Text) → text_lt (p ++ s) (p ++ t) ≡ text_lt s t
unfolding text_lt
text_lt-append [] s t = refl
text_lt-append (c ∷ p) s t = ground (arith, text_lt-append p s t)

-- within a second, any fraction sorts before the whole one
to_timestamp_whole :
    (start t : Time)
    → start / 1_000_000 ≡ t / 1_000_000
    → start % 1_000_000 ≡ 0
    → t % 1_000_000 ≢ 0
    → text_lt (to_timestamp t) (to_timestamp start) ≡ true
unfolding to_timestamp text_lt
to_timestamp_whole start t e z p =
    let part : (t % 1_000_000 == 0) ≡ false = ground arith in
    rw (e, z, text_lt-append (second_text (t / 1_000_000)) _ (b'Z' ∷ []), part) refl

-- a measurement within the second of a start, but after it
abbrev pub is_just_after : Time → Time → Bool
is_just_after start t = start / 1_000_000 == t / 1_000_000 && not (t % 1_000_000 == 0)

from_start-not_after :
    (start : Time) (run_id : ℕ) (m : MeasurementRow)
    → start % 1_000_000 ≡ 0
    → m.run_id == run_id && from_start (some start) m.measurement.observed_at_utc ≡ true
    → not (is_just_after start m.measurement.observed_at_utc) ≡ true
from_start-not_after start run_id m z h =
    ground (arith, to_timestamp_whole start m.measurement.observed_at_utc)

-- For a start on a whole second: no measurement that is later than it but within the same second
-- is in the list, whatever the store holds and whatever the run and the limit are.
pub list_measurements-whole_second :
    (run_id start limit : ℕ) (s : Store)
    → start % 1_000_000 ≡ 0
    → every
        (λ m. not (is_just_after start m.measurement.observed_at_utc))
        (list_measurements run_id (some start) limit s)
      ≡ true
unfolding list_measurements
list_measurements-whole_second run_id start limit s z =
    let right = λ (m : MeasurementRow). not (is_just_after start m.measurement.observed_at_utc) in
    let asked = λ (m : MeasurementRow).
      m.run_id == run_id && from_start (some start) m.measurement.observed_at_utc in
    let rows = keep asked s.measurements in
    elim (Bool-cases (limit == 0)) [
      | inl off ↦ rw off refl
      | inr on ↦ rw on (
          every-take right (min limit 100_000) (sort_by earlier rows) (
            every-sort_by earlier right rows (
              every-keep right asked s.measurements
                (λ m h. from_start-not_after start run_id m z h))))
    ]
