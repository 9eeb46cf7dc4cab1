-- ===== src/Storage/Timestamps.antt =====
-- `to_timestamp` of src/blink_dashboard/storage.py: the text of an instant in UTC, as the columns hold
-- it, and the order of texts, which is SQLite's. An instant is one that `datetime` has, before the
-- year 10000.
pub mod Laws
use blink_battery_benchmark.Common.{
  ℕ, ◌+◌, ◌-◌, ◌*◌, ◌/◌, ◌%◌, Bool, true, false, ◌&&◌, ◌||◌, List, [], ◌∷◌, ◌++◌, leb, ltb, ◌==◌,
  if◌then◌else◌,
}
use blink_battery_benchmark.Text.{Text}
use blink_battery_benchmark.Storage.Types.{Time}

-- the calendar date of a day, counted from 1970-01-01
pub record Date : Type 0 where
  pub year : ℕ
  pub month : ℕ
  pub day : ℕ

-- In the proleptic Gregorian calendar, with years that begin in March: an era is 400 years.
unfoldable pub date_of : ℕ → Date
date_of days =
    let z = days + 719_468 in
    let day_of_era = z % 146_097 in
    let year_of_era =
      (day_of_era - day_of_era / 1460 + day_of_era / 36_524 - day_of_era / 146_096) / 365 in
    let day_of_year = day_of_era - (365 * year_of_era + year_of_era / 4 - year_of_era / 100) in
    let shifted = (5 * day_of_year + 2) / 153 in
    let year = year_of_era + z / 146_097 * 400 in
    record {
      year = if leb 10 shifted then year + 1 else year;
      month = if leb 10 shifted then shifted - 9 else shifted + 3;
      day = day_of_year - (153 * shifted + 2) / 5 + 1;
    }

abbrev digit : ℕ → ℕ
digit n = 48 + n % 10

abbrev two_digits : ℕ → Text
two_digits n = digit (n / 10) ∷ digit n ∷ []

-- "YYYY-MM-DD"
abbrev date_text : Date → Text
date_text d =
    two_digits (d.year / 100)
    ++ (two_digits (d.year % 100) ++ b'-' ∷ (two_digits d.month ++ b'-' ∷ two_digits d.day))

-- "HH:MM:SS", of the seconds of a day
abbrev clock_text : ℕ → Text
clock_text s =
    two_digits (s / 3600) ++ b':' ∷ (two_digits (s / 60 % 60) ++ b':' ∷ two_digits (s % 60))

-- the text of an instant up to its second
unfoldable pub second_text : ℕ → Text
unfolding date_of
second_text s = date_text (date_of (s / 86_400)) ++ b'T' ∷ clock_text (s % 86_400)

-- `isoformat` leaves out a fraction that is zero
abbrev pub fraction_text : ℕ → Text
fraction_text micro =
    if micro == 0
    then b'Z' ∷ []
    else b'.'
      ∷ (two_digits (micro / 10_000)
          ++ (two_digits (micro / 100 % 100) ++ (two_digits (micro % 100) ++ b'Z' ∷ [])))

-- `to_timestamp`, of an instant that is given and has a time zone
unfoldable pub to_timestamp : Time → Text
unfolding second_text
to_timestamp t = second_text (t / 1_000_000) ++ fraction_text (t % 1_000_000)

-- `s < t`, by code points
unfoldable pub text_lt : Text → Text → Bool
text_lt s [] = false
text_lt [] (d ∷ t) = true
text_lt (c ∷ s) (d ∷ t) = ltb c d || (c == d && text_lt s t)
