-- ===== src/Examples/Requests.antt =====
-- Requests, replies and devices.
use blink_battery_benchmark.Common.{◌-◌, ◌≡◌, refl, true, Option, none, some, [], ◌∷◌}
use blink_battery_benchmark.Text.{Text, codes, text_eq}
use blink_battery_benchmark.Storage.Types.{Time}
use blink_battery_benchmark.Config.Toml.{Number, plus}
use blink_battery_benchmark.Text.{Bytes}
use blink_battery_benchmark.Dashboard.Web.{Request}
use blink_battery_benchmark.Dashboard.Backend.{Inspected, image}
use blink_battery_benchmark.Adapter.Operations.{Shot, gave}
use blink_battery_benchmark.Adapter.Clients.{Adapter, connected, enter, leave, started}
use blink_battery_benchmark.Adapter.Clients.Traces.{ClientReach, here, next, enters, leaves_by}

abbrev pub json_request : Request
json_request = record {
  path = codes "/api/experiment/stop";
  method = codes "POST";
  scheme = codes "http";
  host = codes "localhost";
  content_type = codes "application/json";
  origin = some (codes "http://localhost");
  query_token = none;
  cookie_token = some (codes "secret");
  query_limit = none;
  query_start = none;
}

pub json_request-is_json : text_eq json_request.content_type (codes "application/json") ≡ true
unfolding text_eq
json_request-is_json = refl

abbrev pub integers : Text → Option Number
integers (c ∷ []) = some (plus (c - 48))
integers _ = none

abbrev pub instants : Text → Option Time
instants _ = none

abbrev pub pillow : Bytes → Inspected
pillow _ = image (some (codes "JPEG")) true

abbrev pub shown_bytes : Bytes → Text
shown_bytes b = b

abbrev pub body_bytes : Text → Bytes
body_bytes t = t

abbrev pub shot : Shot
shot = record {
  taken = gave true;
  refreshed = gave true;
  cached = some [];
  thumbnail = some (codes "/thumbnail");
  fetched = gave (200, 0xff ∷ 0xd8 ∷ 0 ∷ 0xff ∷ 0xd9 ∷ []);
}

abbrev pub busy : Adapter
busy = leave true 4 (enter 5 connected (enter 4 connected started).1).1

pub busy-Reach : ClientReach started busy
busy-Reach =
    next (next (next here (enters _ 4 connected)) (enters _ 5 connected)) (leaves_by _ true 4)
