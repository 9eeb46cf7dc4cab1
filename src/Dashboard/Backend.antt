-- ===== src/Dashboard/Backend.antt =====
-- The way of a snapshot and of a battery reading to the experiment: `BlinkAdapterClient` of
-- src/blink_dashboard/clients.py, the JPEG test of src/blink_dashboard/media.py, and
-- `LocalExperimentBackend` of src/blink_dashboard/app.py.
pub mod Pictures
pub mod Laws
pub mod Battery
use blink_battery_benchmark.Common.{
  ℕ, Bool, true, false, not, ◌&&◌, ◌||◌, Option, none, some, List, [], ◌∷◌, ltb, length, ◌==◌, take,
  reverse, if◌then◌else◌, is_some, suc,
}
use blink_battery_benchmark.Text.{Bytes, Text, starts_with, codes, text_eq}
use blink_battery_benchmark.Action.{Done}
use blink_battery_benchmark.Storage.Types.{Time, Raw, BatteryReading}
use blink_battery_benchmark.Experiment.Controls.{Outcome, returned, raised}
use blink_battery_benchmark.Dashboard.Progress.{Health}
use blink_battery_benchmark.Adapter.Operations.{
  BatteryFields, BatteryPayload, Served, served, refused_503,
}

-- an HTTP request to the adapter: its reply, or the exception that ends it
pub data Fetch (A : Type 0) : Type 0 where
  replied : ℕ → A → Fetch A
  timed_out : Fetch A
  fetch_failed : Text → Fetch A

-- a client's method: a value, or `AdapterRequestError` with its category and message
pub data Requested (A : Type 0) : Type 0 where
  obtained : A → Requested A
  request_error : Text → Text → Requested A

-- `text` is how an error's body is shown
module _ (shown : Bytes → Text) where
  -- `BlinkAdapterClient.snapshot`
  unfoldable pub request_snapshot : Fetch Bytes → Requested Bytes
  request_snapshot (replied status body) =
      if status == 200
      then obtained body
      else request_error (codes "snapshot_failure") (take 300 (shown body))
  request_snapshot timed_out =
      request_error (codes "snapshot_timeout") (codes "snapshot request timed out")
  request_snapshot (fetch_failed text) = request_error (codes "snapshot_failure") text

abbrev pub or_text : Option Text → Text → Text
or_text none text = text
or_text (some message) text = message

-- The JSON of the adapter's reply, in which any key may be missing; `error` is that of a failure.
pub record BatteryReply : Type 0 where
  pub observed_at_utc : Option Time
  pub fields : BatteryFields
  pub battery_voltage_volts : Option Raw
  pub error : Option Text

-- `BlinkAdapterClient.battery`
unfoldable pub request_battery : Fetch BatteryReply → Requested BatteryReply
request_battery (replied status reply) =
    if status == 200
    then obtained reply
    else request_error (codes "battery_endpoint_failure")
        (or_text reply.error (codes "battery refresh failed"))
request_battery timed_out =
    request_error (codes "battery_endpoint_failure") (codes "battery request timed out")
request_battery (fetch_failed text) = request_error (codes "battery_endpoint_failure") text

-- what Pillow finds in some bytes: nothing that it knows, or an image of a format, and whether its
-- `verify` returns
pub data Inspected : Type 0 where
  unknown : Inspected
  image : Option Text → Bool → Inspected

-- `payload.startswith(b"\xff\xd8") and payload.endswith(b"\xff\xd9")`
abbrev pub has_markers : Bytes → Bool
has_markers payload =
    starts_with (0xff ∷ 0xd8 ∷ []) payload && starts_with (0xd9 ∷ 0xff ∷ []) (reverse payload)

abbrev pub is_jpeg_format : Option Text → Bool
is_jpeg_format none = false
is_jpeg_format (some format) = text_eq format (codes "JPEG")

-- the text of the `ValueError`, if there is one
abbrev pub decode_error : Inspected → Option Text
decode_error unknown = some (codes "response is not a decodable JPEG")
decode_error (image format verifies) =
    if not (is_jpeg_format format)
    then some (codes "expected JPEG")
    else if verifies
    then none
    else some (codes "response is not a decodable JPEG")

module _ (inspect : Bytes → Inspected) where
  -- `verify_jpeg`
  unfoldable pub verify_jpeg : Bytes → Option Text
  unfolding text_eq starts_with
  verify_jpeg payload =
      if ltb (length payload) 4 || not (has_markers payload)
      then some (codes "response does not contain complete JPEG markers")
      else decode_error (inspect payload)

  -- `atomic_write_jpeg`, from the test's error and the error that writing or replacing the file has
  abbrev pub atomic_write_jpeg : Option Text → Option Text → Outcome Done
  atomic_write_jpeg none none = returned tt
  atomic_write_jpeg none (some text) = raised none text
  atomic_write_jpeg (some text) write = raised none text

  abbrev pub captured : Option Text → Requested Bytes → Outcome Done
  captured write (request_error category text) = raised (some category) text
  captured write (obtained payload) = atomic_write_jpeg (verify_jpeg payload) write

  -- `LocalExperimentBackend.capture_snapshot`
  unfoldable pub capture_snapshot : (Bytes → Text) → Option Text → Fetch Bytes → Outcome Done
  unfolding request_snapshot verify_jpeg
  capture_snapshot shown write fetch = captured write (request_snapshot shown fetch)

abbrev pub observed_or_now : Option Time → Time → Time
observed_or_now none now = now
observed_or_now (some t) now = t

abbrev pub battery_outcome : Time → Requested BatteryReply → Outcome BatteryReading
battery_outcome now (request_error category text) = raised (some category) text
battery_outcome now (obtained reply) = returned (record {
  observed_at_utc = observed_or_now reply.observed_at_utc now;
  battery_level_raw = reply.fields.battery_level_raw;
  battery_state = reply.fields.battery_state;
  battery_voltage_raw = reply.fields.battery_voltage_raw;
  battery_voltage_volts = reply.battery_voltage_volts;
  blink_battery_check_time = reply.fields.blink_battery_check_time;
  camera_status = reply.fields.camera_status;
})

-- `LocalExperimentBackend.read_battery`
unfoldable pub read_battery : Time → Fetch BatteryReply → Outcome BatteryReading
unfolding request_battery
read_battery now fetch = battery_outcome now (request_battery fetch)

-- what becomes of the adapter's response on its way
pub data Transport : Type 0 where
  delivered overdue : Transport
  broken : Text → Transport

-- how a response of the adapter's handler reaches the client: `body` is the JSON of an error
abbrev pub over_http : (Text → Bytes) → Transport → Served Bytes → Fetch Bytes
over_http body delivered (served bytes) = replied 200 bytes
over_http body delivered (refused_503 error) = replied 503 (body error)
over_http body overdue response = timed_out
over_http body (broken text) response = fetch_failed text

-- the same for the battery's JSON
abbrev pub battery_over_http : Served BatteryPayload → Fetch BatteryReply
battery_over_http (served payload) = replied 200 (record {
  observed_at_utc = some payload.observed_at_utc;
  fields = payload.fields;
  battery_voltage_volts = payload.battery_voltage_volts;
  error = none;
})
battery_over_http (refused_503 error) = replied 503 (record {
  observed_at_utc = none;
  fields = record {
    battery_level_raw = none;
    battery_state = none;
    battery_voltage_raw = none;
    blink_battery_check_time = none;
    camera_status = none;
  };
  battery_voltage_volts = none;
  error = some error;
})

-- the JSON of the adapter's health, with its `error` if it failed
pub record HealthReply : Type 0 where
  pub health : Health
  pub error : Option Text

-- `BlinkAdapterClient.health`; a timeout is shown as its text
unfoldable pub request_health : Text → Fetch HealthReply → Requested Health
request_health timeout_text (replied status reply) =
    if status == 200
    then obtained reply.health
    else request_error (codes "adapter_health") (or_text reply.error (codes "adapter is not ready"))
request_health timeout_text timed_out = request_error (codes "adapter_health") timeout_text
request_health timeout_text (fetch_failed text) = request_error (codes "adapter_health") text

-- A client and its session: a session counts in the order of creation, and `closed` records those
-- that the client closed.
pub record Client : Type 0 where
  pub session : Option ℕ
  pub owns_session : Bool
  pub opened : ℕ
  pub closed : List ℕ

-- `BlinkAdapterClient.start`
unfoldable pub start_client : Client → Client
start_client client =
    if is_some client.session
    then client
    else record client { session = some client.opened; opened = suc client.opened }

abbrev pub close_session : Bool → Option ℕ → List ℕ → List ℕ
close_session true (some session) closed = session ∷ closed
close_session _ session closed = closed

-- `BlinkAdapterClient.close`
unfoldable pub close_client : Client → Client
close_client client = record client {
  session = none;
  closed = close_session client.owns_session client.session client.closed;
}
