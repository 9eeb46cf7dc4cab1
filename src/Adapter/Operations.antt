-- ===== src/Adapter/Operations.antt =====
-- The operations of `BlinkAdapter` on the camera and their HTTP handlers, in
-- src/blink_dashboard/blink_adapter.py. What Blinkpy does comes in as values. A step takes the time
-- of `utc_now` and the time of the last contact, and gives the new one.
use blink_battery_benchmark.Common.{
  ℕ, Bool, true, false, ◌&&◌, Option, none, some, List, [], ◌∷◌, ◌==◌, if◌then◌else◌,
}
use blink_battery_benchmark.Text.{Bytes, Text, starts_with, codes, contains, casefold}
use blink_battery_benchmark.Storage.Types.{Time, Raw}

-- `AdapterUnavailable`, or a value
pub data Reply (A : Type 0) : Type 0 where
  got : A → Reply A
  unavailable : Text → Reply A

-- how an awaited call ends: with a value, or with an exception
pub data Awaited (A : Type 0) : Type 0 where
  gave : A → Awaited A
  broke : Awaited A

-- what the camera does for one snapshot: whether `snap_picture` is not refused, whether `refresh`
-- gives `True`, and what the caches and the thumbnail's request give
pub record Shot : Type 0 where
  pub taken : Awaited Bool
  pub refreshed : Awaited Bool
  pub cached : Option Bytes
  pub thumbnail : Option Text
  pub fetched : Awaited (ℕ × Bytes)

abbrev pub is_some_bytes : Bytes → Bool
is_some_bytes [] = false
is_some_bytes (b ∷ bs) = true

abbrev pub failed_shot : Text
failed_shot = codes "Fresh Blink snapshot failed."

abbrev pub no_image : Text
no_image = codes "Blink returned no snapshot image."

module _ (now : Time) (last : Option Time) where
  -- `_refresh`, and what comes after it: `text` is that of the broad handler
  abbrev pub refresh {ℓ} : {A : Type ℓ} → Awaited Bool → (Text → A) → Text → A → A
  refresh broke fail text next = fail text
  refresh (gave true) fail text next = next
  refresh (gave false) fail text next = fail (codes "Blink did not complete a fresh refresh.")

  abbrev pub fetched_image : Awaited (ℕ × Bytes) → Reply Bytes × Option Time
  fetched_image broke = (unavailable failed_shot, some now)
  fetched_image (gave (status, image)) =
      if status == 200 && is_some_bytes image
      then (got image, some now)
      else (unavailable no_image, some now)

  -- an empty value is as good as none
  abbrev pub thumbnail_image : Option Text → Awaited (ℕ × Bytes) → Reply Bytes × Option Time
  thumbnail_image none call = (unavailable no_image, some now)
  thumbnail_image (some []) call = (unavailable no_image, some now)
  thumbnail_image (some (c ∷ s)) call = fetched_image call

  abbrev pub cached_image :
      Option Bytes → Option Text → Awaited (ℕ × Bytes) → Reply Bytes × Option Time
  cached_image none thumbnail call = thumbnail_image thumbnail call
  cached_image (some []) thumbnail call = thumbnail_image thumbnail call
  cached_image (some (b ∷ bs)) thumbnail call = (got (b ∷ bs), some now)

  abbrev pub after_taken : Awaited Bool → Shot → Reply Bytes × Option Time
  after_taken broke shot = (unavailable failed_shot, last)
  after_taken (gave false) shot = (unavailable (codes "Blink rejected the snapshot request."), last)
  after_taken (gave true) shot =
      refresh shot.refreshed (λ text. (unavailable text, last)) failed_shot
        (cached_image shot.cached shot.thumbnail shot.fetched)

  unfoldable pub adapter_snapshot : Shot → Reply Bytes × Option Time
  adapter_snapshot shot = after_taken shot.taken shot

-- the attributes of the camera that `battery` reads
pub record BatteryFields : Type 0 where
  pub battery_level_raw : Option Raw
  pub battery_state : Option Text
  pub battery_voltage_raw : Option Raw
  pub blink_battery_check_time : Option Time
  pub camera_status : Option Text

-- the response's JSON, without the camera's name
pub record BatteryPayload : Type 0 where
  pub observed_at_utc : Time
  pub fields : BatteryFields
  pub battery_voltage_volts : Option Raw

-- `volts` is `raw_voltage / 100` where that is a number, and else `none`
module _ (volts : Option Raw → Option Raw) (now : Time) (last : Option Time) where
  unfoldable pub battery : Awaited Bool → BatteryFields → Reply BatteryPayload × Option Time
  battery call fields =
      refresh now last call (λ text. (unavailable text, last))
        (codes "Fresh Blink battery refresh failed.")
        (
          got (record {
            observed_at_utc = now;
            fields = fields;
            battery_voltage_volts = volts fields.battery_voltage_raw;
          }),
          some now,
        )

-- a handler's response: its status, with a body or the error's name
pub data Served (A : Type 0) : Type 0 where
  served : A → Served A
  refused_503 : Text → Served A

-- `_handle_snapshot`
unfoldable pub handle_snapshot : Reply Bytes → Served Bytes
handle_snapshot (got image) = served image
handle_snapshot (unavailable text) = refused_503 (codes "snapshot_unavailable")

-- `_handle_battery`
unfoldable pub handle_battery : Reply BatteryPayload → Served BatteryPayload
handle_battery (got payload) = served payload
handle_battery (unavailable text) = refused_503 (codes "battery_unavailable")

abbrev pub loopback_hosts : List Text
loopback_hosts = codes "127.0.0.1" ∷ codes "::1" ∷ codes "localhost" ∷ []

-- `_require_loopback`: whether it returns
unfoldable pub require_loopback : Text → Bool
unfolding casefold contains
require_loopback host = contains (casefold host) loopback_hosts

-- the value of `server` in the response of `_request_liveview`
abbrev pub live_server : Option Text → Reply Text
live_server none = unavailable (codes "Blink live-view response contained no server.")
live_server (some []) = unavailable (codes "Blink live-view response contained no server.")
live_server (some (c ∷ s)) =
    if starts_with (codes "immis://") (c ∷ s)
    then got (c ∷ s)
    else unavailable (codes "Blink returned an unsupported live-view protocol.")

abbrev pub live_response : Awaited (Option Text) → Reply Text
live_response broke = unavailable (codes "Blink live-view request failed.")
live_response (gave server) = live_server server

-- a failed refresh is caught by the broad handler too
unfoldable pub request_liveview : Awaited Bool → Awaited (Option Text) → Reply Text
request_liveview (gave true) response = live_response response
request_liveview _ response = unavailable (codes "Blink live-view request failed.")
