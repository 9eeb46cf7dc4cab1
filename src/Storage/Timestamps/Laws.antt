-- ===== src/Storage/Timestamps/Laws.antt =====
-- The order of the stored texts, and of rows by it.
use blink_battery_benchmark.Common.{
  ◌≡◌, refl, Bool, true, false, not, ◌&&◌, ◌||◌, Option, none, some, [], ◌∷◌, leb, arith,
}
use blink_battery_benchmark.Text.{Text, text_eq, text_eq_sym}
use blink_battery_benchmark.Storage.Types.{Time, MeasurementRow}
use blink_battery_benchmark.Storage.Timestamps.{to_timestamp, text_lt}
use blink_battery_benchmark.Storage.Records.{earlier, from_start}

text_lt_total : (s t : Text) → not (text_lt t s) ≡ text_lt s t || text_eq s t
unfolding text_lt text_eq
text_lt_total [] [] = refl
text_lt_total [] (d ∷ t) = refl
text_lt_total (c ∷ s) [] = refl
text_lt_total (c ∷ s) (d ∷ t) = ground (arith, text_lt_total s t)

text_lt-text_eq : (s t : Text) → text_lt s t && text_eq s t ≡ false
unfolding text_lt text_eq
text_lt-text_eq [] [] = refl
text_lt-text_eq [] (d ∷ t) = refl
text_lt-text_eq (c ∷ s) [] = refl
text_lt-text_eq (c ∷ s) (d ∷ t) = ground (arith, text_lt-text_eq s t)

-- the stored text of a row's instant
abbrev pub stamp : MeasurementRow → Text
stamp m = to_timestamp m.measurement.observed_at_utc

-- The text of the second is not before that of the first, and of two rows with the same text the
-- first has the smaller number.
abbrev pub in_order : MeasurementRow → MeasurementRow → Bool
in_order a b =
    not (text_lt (stamp b) (stamp a)) && (not (text_eq (stamp a) (stamp b)) || leb a.id b.id)

-- a row whose text is that of a start, or after it
abbrev pub is_since : Option Time → MeasurementRow → Bool
is_since none m = true
is_since (some start) m =
    text_lt (to_timestamp start) (stamp m) || text_eq (to_timestamp start) (stamp m)

pub earlier-in_order : (a b : MeasurementRow) → earlier a b ≡ true → in_order a b ≡ true
earlier-in_order a b h =
    ground (arith, text_lt_total (stamp a) (stamp b), text_lt-text_eq (stamp a) (stamp b))

pub earlier_not-in_order : (a b : MeasurementRow) → earlier a b ≡ false → in_order b a ≡ true
earlier_not-in_order a b h = ground (arith, text_eq_sym (stamp a) (stamp b))

pub from_start-is_since :
    (start : Option Time) (m : MeasurementRow)
    → from_start start m.measurement.observed_at_utc ≡ is_since start m
from_start-is_since none m = refl
from_start-is_since (some start) m = text_lt_total (to_timestamp start) (stamp m)
