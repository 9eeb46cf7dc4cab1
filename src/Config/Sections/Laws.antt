-- ===== src/Config/Sections/Laws.antt =====
-- A configuration that is loaded is in its ranges, whatever the two files hold.
use blink_battery_benchmark.Common.{false, ℕ, ◌≤◌, ◌<◌, ◌≡◌, Bool, true, Option}
use blink_battery_benchmark.Text.{Text}
use blink_battery_benchmark.Config.Toml.{Number, Float, finite, Toml, Table}
use blink_battery_benchmark.Config.Build.{has_state}
use blink_battery_benchmark.Config.Build.Laws.{Checked}
use blink_battery_benchmark.Config.Defaults.{ServerConfig, BlinkConfig, MediaConfig, AppConfig}
use blink_battery_benchmark.Config.Sections.{Sections}

-- the ranges of a whole configuration
pub record InRange (a : AppConfig) : Type 0 where
  pub dashboard_port : (1 ≤ a.server.dashboard_port) × (a.server.dashboard_port ≤ 65535)
  pub stream_port : (1 ≤ a.blink.stream_port) × (a.blink.stream_port ≤ 65535)
  pub request : 0 < a.blink.request_timeout_seconds
  pub battery : 0 < a.blink.battery_timeout_seconds
  pub connect : 0 < a.blink.stream_connect_timeout_seconds
  pub reconnect : 0 < a.blink.stream_reconnect_seconds
  pub states : has_state a.blink.low_battery_states ≡ true
  pub segment : 0 < a.media.hls_segment_seconds
  pub size : 0 < a.media.hls_list_size
  pub experiment : Checked a.experiment

abbrev IsPort : ℕ → Type 0
IsPort n = (1 ≤ n) × (n ≤ 65535)

abbrev pub is_finite : Float → Bool
is_finite (finite n) = true
is_finite _ = false

module _ (float_of : Toml → Option Float) (int_of : Toml → Option Number) (str_of : Toml → Text)
    (is_true : Toml → Bool) (dict_of : Toml → Option Table) (resolve : Toml → Option Text) where
  record ServerInRange (s : ServerConfig) : Type 0 where
    is_port : IsPort s.dashboard_port

  record BlinkInRange (b : BlinkConfig) : Type 0 where
    is_port : IsPort b.stream_port
    request : 0 < b.request_timeout_seconds
    battery : 0 < b.battery_timeout_seconds
    connect : 0 < b.stream_connect_timeout_seconds
    reconnect : 0 < b.stream_reconnect_seconds
    states : has_state b.low_battery_states ≡ true

  record MediaInRange (m : MediaConfig) : Type 0 where
    segment : 0 < m.hls_segment_seconds
    size : 0 < m.hls_list_size
