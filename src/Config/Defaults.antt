-- ===== src/Config/Defaults.antt =====
-- The classes of src/blink_dashboard/config.py with their defaults; durations are in microseconds.
use blink_battery_benchmark.Common.{ℕ, false, none, some, List, [], ◌∷◌}
use blink_battery_benchmark.Text.{Text, codes}
use blink_battery_benchmark.Storage.Types.{Time}
use blink_battery_benchmark.Config.Types.{snapshot, stream, ExperimentTestConfig, ExperimentConfig}
use blink_battery_benchmark.Config.Toml.{Toml, str, bool}

-- The settings that the source does not convert are the file's values.
pub record ServerConfig : Type 0 where
  pub dashboard_host : Toml
  pub dashboard_port : ℕ
  pub allow_lan : Toml

pub record BlinkConfig : Type 0 where
  pub http_base_url : Toml
  pub stream_host : Toml
  pub stream_port : ℕ
  pub request_timeout_seconds : Time
  pub battery_timeout_seconds : Time
  pub stream_connect_timeout_seconds : Time
  pub stream_reconnect_seconds : Time
  pub low_battery_states : List Text

pub record PathsConfig : Type 0 where
  pub runtime_dir : Text
  pub database : Text
  pub latest_jpeg : Text
  pub hls_dir : Text
  pub private_dir : Text
  pub log_file : Text

pub record MediaConfig : Type 0 where
  pub ffmpeg_executable : Toml
  pub hls_segment_seconds : Time
  pub hls_list_size : ℕ

pub record AppConfig : Type 0 where
  pub server : ServerConfig
  pub blink : BlinkConfig
  pub experiment : ExperimentConfig
  pub paths : PathsConfig
  pub media : MediaConfig

abbrev pub default_server : ServerConfig
default_server = record {
  dashboard_host = str (codes "127.0.0.1");
  dashboard_port = 8090;
  allow_lan = bool false;
}

abbrev pub default_blink : BlinkConfig
default_blink = record {
  http_base_url = str (codes "http://127.0.0.1:8080");
  stream_host = str (codes "127.0.0.1");
  stream_port = 5000;
  request_timeout_seconds = 120_000_000;
  battery_timeout_seconds = 30_000_000;
  stream_connect_timeout_seconds = 10_000_000;
  stream_reconnect_seconds = 2_000_000;
  low_battery_states =
      codes "low" ∷ codes "replace" ∷ codes "replace_battery" ∷ codes "needs_replacement" ∷ [];
}

-- the fields of the sections' classes
abbrev pub server_fields : List Text
server_fields = codes "dashboard_host" ∷ codes "dashboard_port" ∷ codes "allow_lan" ∷ []

abbrev pub blink_fields : List Text
blink_fields =
    codes "http_base_url"
    ∷ codes "stream_host"
    ∷ codes "stream_port"
    ∷ codes "request_timeout_seconds"
    ∷ codes "battery_timeout_seconds"
    ∷ codes "stream_connect_timeout_seconds"
    ∷ codes "stream_reconnect_seconds"
    ∷ codes "low_battery_states"
    ∷ []

abbrev pub experiment_fields : List Text
experiment_fields =
    codes "test_duration_seconds"
    ∷ codes "recovery_duration_seconds"
    ∷ codes "battery_poll_seconds"
    ∷ codes "measurement_interval_seconds"
    ∷ codes "stream_checkpoint_seconds"
    ∷ codes "stream_data_timeout_seconds"
    ∷ codes "fatal_outage_seconds"
    ∷ codes "development_mode"
    ∷ codes "tests"
    ∷ []

abbrev pub paths_fields : List Text
paths_fields =
    codes "runtime_dir"
    ∷ codes "database"
    ∷ codes "latest_jpeg"
    ∷ codes "hls_dir"
    ∷ codes "private_dir"
    ∷ codes "log_file"
    ∷ []

abbrev pub media_fields : List Text
media_fields = codes "ffmpeg_executable" ∷ codes "hls_segment_seconds" ∷ codes "hls_list_size" ∷ []

-- `_default_tests`
abbrev pub default_tests : List ExperimentTestConfig
default_tests =
    (record {
      name = codes "Snapshot every 300 seconds";
      kind = snapshot;
      snapshot_interval_seconds = some 300_000_000;
    })
    ∷ (record {
      name = codes "Snapshot every 60 seconds";
      kind = snapshot;
      snapshot_interval_seconds = some 60_000_000;
    })
    ∷ (record {
      name = codes "Snapshot every 30 seconds";
      kind = snapshot;
      snapshot_interval_seconds = some 30_000_000;
    })
    ∷ (record {
      name = codes "Continuous live stream";
      kind = stream;
      snapshot_interval_seconds = none;
    })
    ∷ []

abbrev pub default_experiment : ExperimentConfig
default_experiment = record {
  test_duration_seconds = 43_200_000_000;
  recovery_duration_seconds = 43_200_000_000;
  battery_poll_seconds = 300_000_000;
  measurement_interval_seconds = 300_000_000;
  stream_checkpoint_seconds = 5_000_000;
  stream_data_timeout_seconds = 20_000_000;
  fatal_outage_seconds = 3_600_000_000;
  development_mode = false;
  tests = default_tests;
}

abbrev pub default_media : MediaConfig
default_media = record {
  ffmpeg_executable = str (codes "ffmpeg");
  hls_segment_seconds = 2_000_000;
  hls_list_size = 6;
}
