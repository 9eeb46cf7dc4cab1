-- ===== src/Dashboard/Backend/Pictures.antt =====
-- The picture that a shot yields, told independently of the code.
use blink_battery_benchmark.Common.{
  ℕ, ◌+◌, ◌≡◌, refl, arith, leb, length, reverse, Bool, true, false, not, ◌&&◌, Option, none, some,
  [], ◌∷◌, ◌==◌, is_some, if◌then◌else◌,
}
use blink_battery_benchmark.Text.{Bytes, Text, codes, text_eq, starts_with}
use blink_battery_benchmark.Adapter.Operations.{Awaited, gave, broke, Shot}
use blink_battery_benchmark.Dashboard.Backend.{
  Inspected, image, unknown, verify_jpeg, decode_error, Transport, delivered, overdue, broken,
}

-- An independent account of the picture that a shot yields: the camera takes it, Blink refreshes, and
-- the first of the cache and the thumbnail that is not empty is it.
abbrev pub not_empty : Option Bytes → Option Bytes
not_empty (some (b ∷ bs)) = some (b ∷ bs)
not_empty _ = none

abbrev pub from_thumbnail : Option Text → Awaited (ℕ × Bytes) → Option Bytes
from_thumbnail (some (c ∷ s)) (gave (status, bytes)) =
    if status == 200 then not_empty (some bytes) else none
from_thumbnail _ _ = none

abbrev pub or_picture : Option Bytes → Option Bytes → Option Bytes
or_picture none other = other
or_picture (some bytes) other = some bytes

abbrev pub first_picture : Option Bytes → Option Text → Awaited (ℕ × Bytes) → Option Bytes
first_picture cached thumbnail call = or_picture (not_empty cached) (from_thumbnail thumbnail call)

abbrev pub is_true : Awaited Bool → Bool
is_true (gave b) = b
is_true broke = false

-- Pillow takes the bytes for a JPEG that verifies.
abbrev pub shows_jpeg : Inspected → Bool
shows_jpeg (image (some format) true) = text_eq format (codes "JPEG")
shows_jpeg _ = false

decode_error-shows_jpeg : (i : Inspected) → not (is_some (decode_error i)) ≡ shows_jpeg i
decode_error-shows_jpeg unknown = refl
decode_error-shows_jpeg (image none true) = refl
decode_error-shows_jpeg (image none false) = refl
decode_error-shows_jpeg (image (some format) true) = ground arith
decode_error-shows_jpeg (image (some format) false) = ground arith

-- what a capture is counted as
pub data Capture : Type 0 where
  succeeds fails is_late : Capture

-- the counters after a capture
abbrev pub tally : Capture → ℕ × ℕ × ℕ × ℕ → ℕ × ℕ × ℕ × ℕ
tally succeeds (a, s, f, t) = (a, s + 1, f, t)
tally fails (a, s, f, t) = (a, s, f + 1, t)
tally is_late (a, s, f, t) = (a, s, f, t + 1)

abbrev pub result_of : Bool → Capture
result_of true = succeeds
result_of false = fails

module _ (inspect : Bytes → Inspected) where
  -- A JPEG has its two markers, and Pillow takes it for one.
  abbrev pub is_jpeg : Option Bytes → Bool
  is_jpeg none = false
  is_jpeg (some bytes) =
      leb 4 (length bytes)
      && (starts_with (0xff ∷ 0xd8 ∷ []) bytes && starts_with (0xd9 ∷ 0xff ∷ []) (reverse bytes))
      && shows_jpeg (inspect bytes)

  pub verify_jpeg-is_jpeg :
      (bytes : Bytes) → not (is_some (verify_jpeg inspect bytes)) ≡ is_jpeg (some bytes)
  unfolding verify_jpeg
  verify_jpeg-is_jpeg bytes = ground (arith, decode_error-shows_jpeg (inspect bytes))

  -- with the error of writing the file, if there is one
  module _ (write : Option Text) where
    abbrev pub is_kept : Option Bytes → Bool
    is_kept picture = is_jpeg picture && not (is_some write)

    -- what a shot is to be counted as
    abbrev pub expected_capture : Transport → Shot → Capture
    expected_capture overdue shot = is_late
    expected_capture (broken text) shot = fails
    expected_capture delivered shot = result_of (
        is_true shot.taken
        && is_true shot.refreshed
        && is_kept (first_picture shot.cached shot.thumbnail shot.fetched))
