-- ===== src/Config/Sections.antt =====
-- `_build_config` and `load_config` of src/blink_dashboard/config.py, with all sections. Beside the
-- conversions of Config.Build, `int_of` is Python's `int`, `dict_of` its `dict` on a section, and
-- `resolve` the path below the project's root; each is `none` if it raises. The source checks the
-- sections in the order of a set, which is fixed here.
pub mod Laws
use blink_battery_benchmark.Common.{
  ℕ, zero, suc, Bool, true, false, Option, none, some, List, [], ◌∷◌, ◌++◌, map,
}
use blink_battery_benchmark.Text.{Text, codes}
use blink_battery_benchmark.Action.{Result, ok, err, bad_config}
use blink_battery_benchmark.Storage.Types.{Time}
use blink_battery_benchmark.Config.Types.{snapshot, stream, ExperimentTestConfig, ExperimentConfig}
use blink_battery_benchmark.Config.Toml.{
  Number, Float, plus, minus, Toml, str, num, bool, array, table, Items, nil, item, Table, end,
  field, get, keys,
}
use blink_battery_benchmark.Config.Merge.{merge}
use blink_battery_benchmark.Config.Defaults.{
  ServerConfig, BlinkConfig, PathsConfig, MediaConfig, AppConfig, default_server, default_blink,
  server_fields, blink_fields, experiment_fields, paths_fields, media_fields, default_tests,
  default_experiment, default_media,
}
use blink_battery_benchmark.Config.Build.{
  ◌>>=◌, ◌>>◌, only_known, positive, port, build_low_states, duration_or, build_experiment,
}

abbrev pub or_value : Option Toml → Toml → Toml
or_value none default = default
or_value (some v) default = v

abbrev pub texts_of : (Toml → Text) → Items → List Text
texts_of str_of nil = []
texts_of str_of (item v vs) = str_of v ∷ texts_of str_of vs

-- `for value in …`: an array's items, a text's characters or a table's keys
abbrev pub iterated : (Toml → Text) → Toml → Result (List Text)
iterated str_of (array vs) = ok (texts_of str_of vs)
iterated str_of (str s) = ok (map (λ c. c ∷ []) s)
iterated str_of (table t) = ok (keys t)
iterated str_of _ = err (bad_config (codes "blink.low_battery_states"))

abbrev pub from_option {ℓ} : {A : Type ℓ} → Text → Option A → Result A
from_option message none = err (bad_config message)
from_option message (some a) = ok a

-- `hls_list_size`, for the integer that `int` gave
unfoldable pub list_size : Number → Result ℕ
list_size (minus n) = err (bad_config (codes "media.hls_list_size must be greater than zero"))
list_size (plus zero) = err (bad_config (codes "media.hls_list_size must be greater than zero"))
list_size (plus (suc n)) = ok (suc n)

-- `_read_toml`, of a file that can be read if it is there
abbrev pub read_toml : Option Table → Table
read_toml none = end
read_toml (some t) = t

-- `raw`: the sections of a file
pub record Sections : Type 0 where
  pub server : Table
  pub blink : Table
  pub experiment : Table
  pub paths : Table
  pub media : Table

module _ (float_of : Toml → Option Float) (int_of : Toml → Option Number) (str_of : Toml → Text)
    (is_true : Toml → Bool) (dict_of : Toml → Option Table) (resolve : Toml → Option Text) where
  abbrev pub port_or : Text → Option Toml → ℕ → Result ℕ
  port_or name none default = ok default
  port_or name (some v) default = from_option name (int_of v) >>= port name

  unfoldable pub build_server : Table → Result ServerConfig
  unfolding get port
  build_server data_ = do
    number ←
        port_or (codes "server.dashboard_port") (get (codes "dashboard_port") data_)
          default_server.dashboard_port
    ok (record {
      dashboard_host = or_value (get (codes "dashboard_host") data_) default_server.dashboard_host;
      dashboard_port = number;
      allow_lan = or_value (get (codes "allow_lan") data_) default_server.allow_lan;
    })

  abbrev pub states_or : Option Toml → List Text → Result (List Text)
  states_or none default = ok default
  states_or (some v) default = iterated str_of v >>= build_low_states

  -- a duration of the section `blink`, or the default
  abbrev pub blink_duration : Table → Text → Time → Result Time
  blink_duration data_ key default =
      duration_or float_of str_of is_true (codes "blink." ++ key) (get key data_) default

  unfoldable pub build_blink : Table → Result BlinkConfig
  unfolding get port build_low_states
  build_blink data_ = do
    number ←
        port_or (codes "blink.stream_port") (get (codes "stream_port") data_)
          default_blink.stream_port
    request ←
        blink_duration data_ (codes "request_timeout_seconds") default_blink.request_timeout_seconds
    battery ←
        blink_duration data_ (codes "battery_timeout_seconds") default_blink.battery_timeout_seconds
    connect ←
        blink_duration data_ (codes "stream_connect_timeout_seconds")
          default_blink.stream_connect_timeout_seconds
    reconnect ←
        blink_duration data_ (codes "stream_reconnect_seconds")
          default_blink.stream_reconnect_seconds
    states ← states_or (get (codes "low_battery_states") data_) default_blink.low_battery_states
    ok (record {
      http_base_url = or_value (get (codes "http_base_url") data_) default_blink.http_base_url;
      stream_host = or_value (get (codes "stream_host") data_) default_blink.stream_host;
      stream_port = number;
      request_timeout_seconds = request;
      battery_timeout_seconds = battery;
      stream_connect_timeout_seconds = connect;
      stream_reconnect_seconds = reconnect;
      low_battery_states = states;
    })

  abbrev pub path_or : Table → Text → Text → Result Text
  path_or data_ key default = from_option key (resolve (or_value (get key data_) (str default)))

  unfoldable pub build_paths : Table → Result PathsConfig
  unfolding get
  build_paths data_ = do
    runtime ← path_or data_ (codes "runtime_dir") (codes "runtime")
    database ← path_or data_ (codes "database") (codes "runtime/data/experiment.db")
    jpeg ← path_or data_ (codes "latest_jpeg") (codes "runtime/data/latest.jpg")
    hls ← path_or data_ (codes "hls_dir") (codes "runtime/data/hls")
    private ← path_or data_ (codes "private_dir") (codes "runtime/private")
    log ← path_or data_ (codes "log_file") (codes "runtime/logs/application.log")
    ok (record {
      runtime_dir = runtime;
      database = database;
      latest_jpeg = jpeg;
      hls_dir = hls;
      private_dir = private;
      log_file = log;
    })

  abbrev pub size_or : Option Toml → ℕ → Result ℕ
  size_or none default = ok default
  size_or (some v) default = from_option (codes "media.hls_list_size") (int_of v) >>= list_size

  unfoldable pub build_media : Table → Result MediaConfig
  unfolding get list_size
  build_media data_ = do
    segment ←
        duration_or float_of str_of is_true (codes "media.hls_segment_seconds")
          (get (codes "hls_segment_seconds") data_) default_media.hls_segment_seconds
    size ← size_or (get (codes "hls_list_size") data_) default_media.hls_list_size
    ok (record {
      ffmpeg_executable =
          or_value (get (codes "ffmpeg_executable") data_) default_media.ffmpeg_executable;
      hls_segment_seconds = segment;
      hls_list_size = size;
    })

  abbrev pub dict_or : Text → Option Toml → Result Table
  dict_or name none = ok end
  dict_or name (some v) = from_option name (dict_of v)

  -- the first lines of `_build_config`
  unfoldable pub read_sections : Table → Result Sections
  unfolding get only_known
  read_sections data_ = do
    only_known (codes "root") data_
        (codes "server" ∷ codes "blink" ∷ codes "experiment" ∷ codes "paths" ∷ codes "media" ∷ [])
    server ← dict_or (codes "server") (get (codes "server") data_)
    blink ← dict_or (codes "blink") (get (codes "blink") data_)
    experiment ← dict_or (codes "experiment") (get (codes "experiment") data_)
    paths ← dict_or (codes "paths") (get (codes "paths") data_)
    media ← dict_or (codes "media") (get (codes "media") data_)
    only_known (codes "server") server server_fields
    only_known (codes "blink") blink blink_fields
    only_known (codes "experiment") experiment experiment_fields
    only_known (codes "paths") paths paths_fields
    only_known (codes "media") media media_fields
    ok (record {
      server = server;
      blink = blink;
      experiment = experiment;
      paths = paths;
      media = media;
    })

  -- the other lines
  unfoldable pub build_sections : Sections → Result AppConfig
  unfolding build_server build_blink build_experiment build_paths build_media
  build_sections raw = do
    server ← build_server raw.server
    blink ← build_blink raw.blink
    experiment ← build_experiment float_of str_of is_true default_experiment raw.experiment
    paths ← build_paths raw.paths
    media ← build_media raw.media
    ok (record {
      server = server;
      blink = blink;
      experiment = experiment;
      paths = paths;
      media = media;
    })

  -- `_build_config`
  unfoldable pub build_config : Table → Result AppConfig
  unfolding read_sections build_sections
  build_config data_ = read_sections data_ >>= build_sections

  -- `load_config`, on the committed and the local file
  unfoldable pub load_config : Option Table → Option Table → Result AppConfig
  unfolding merge build_config
  load_config primary local = build_config (merge (read_toml primary) (read_toml local))
