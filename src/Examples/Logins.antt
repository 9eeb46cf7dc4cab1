-- ===== src/Examples/Logins.antt =====
-- Cameras, logins and the files of the secret store.
use blink_battery_benchmark.Examples.Runs.{store_of, active_world}
use blink_battery_benchmark.Examples.Inputs.{numbers, whole_numbers, texts, truths}
use blink_battery_benchmark.Examples.Requests.{integers}
use blink_battery_benchmark.Common.{
  ℕ, ◌+◌, ◌≡◌, refl, true, false, Option, none, some, List, [], ◌∷◌, arith,
}
use blink_battery_benchmark.Text.{Text, codes, text_eq, strip, contains}
use blink_battery_benchmark.Action.{ok}
use blink_battery_benchmark.Storage.Types.{MeasurementRow}
use blink_battery_benchmark.Config.Toml.{plus, Toml, str, num, table, Table, end, field}
use blink_battery_benchmark.Config.Build.{duration, positive, build_tests}
use blink_battery_benchmark.Experiment.State.{running_snapshot}
use blink_battery_benchmark.Experiment.World.{World}
use blink_battery_benchmark.Common.{zero, suc, length, keep}
use blink_battery_benchmark.Text.{Bytes}
use blink_battery_benchmark.Storage.Phases.{list_phases}
use blink_battery_benchmark.Dashboard.Web.{Handler, answered, response}
use blink_battery_benchmark.Dashboard.Queries.{Measurements}
use blink_battery_benchmark.Adapter.Cameras.{
  Camera, CameraIdentity, Entry, selected, camera_identity, camera_entries, match_saved_camera,
  select_camera,
}
use blink_battery_benchmark.Adapter.Cameras.Laws.{same_id}
use blink_battery_benchmark.Adapter.Login.{
  Attributes, AuthPayload, StoreLoad, stored, start_returned, Round, Conditions,
}
use blink_battery_benchmark.SecretStore.{Backend, Document, object, Disk, store_error, corrupt}
use blink_battery_benchmark.Media.{Turn, connects, chunk, silent, Consumer}
use blink_battery_benchmark.Config.Defaults.{
  AppConfig, default_server, default_blink, default_experiment, default_media,
}
use blink_battery_benchmark.Config.Sections.{load_config}

abbrev pub camera_of : Text → Camera
camera_of id = record {
  name = none;
  camera_id = some id;
  camera_type = none;
  product_type = some (codes "mini");
  serial = none;
}

abbrev pub house : List (Text × Camera)
house = (codes "Door", camera_of (codes "11")) ∷ (codes "Garden", camera_of (codes "12")) ∷ []

abbrev pub garden : Entry
garden = record {
  name = codes "Garden";
  camera = camera_of (codes "12");
  identity = record {
    name = some (codes "Garden");
    camera_id = codes "12";
    camera_type = some (codes "mini");
    serial = none;
  };
}

abbrev pub lost : CameraIdentity
lost = record { name = none; camera_id = codes "77"; camera_type = none; serial = none }

pub garden-selected : select_camera integers house none (codes "2" ∷ []) ≡ selected garden []
unfolding select_camera strip camera_identity
garden-selected = refl

pub garden_unique : length (keep (same_id garden) (camera_entries house)) ≡ 1
unfolding camera_entries text_eq camera_identity
garden_unique = refl

pub lost-matches : match_saved_camera (camera_entries house) lost ≡ none
unfolding match_saved_camera camera_entries text_eq camera_identity
lost-matches = refl

pub garden-asked : select_camera integers house (some lost) (codes "2" ∷ []) ≡ selected garden []
unfolding select_camera strip text_eq camera_identity
garden-asked = refl

abbrev pub session : Attributes
session = (codes "token", codes "abc") ∷ []

abbrev pub kept_payload : AuthPayload
kept_payload = record { auth = some session; selected_camera = none }

abbrev pub failing : Round
failing = record {
  store = stored kept_payload;
  startup = start_returned false;
  tokens = session ∷ [];
}

abbrev pub good : Round
good = record { store = StoreLoad.absent; startup = start_returned true; tokens = [] }

abbrev pub first_time : Conditions
first_time = record {
  store = stored kept_payload;
  rounds = failing ∷ good ∷ [];
  username = [];
  password = [];
  startup = start_returned true;
  tokens = [];
  first_save = true;
  second_save = true;
  cameras = house;
  answers = codes "2" ∷ [];
}

abbrev pub tokens : Attributes → Attributes
tokens attributes = (codes "otp", codes "123456") ∷ attributes

abbrev pub written_document : Option ℕ → Option Bytes → Option Bytes
written_document (some (suc zero)) (some p) = some p
written_document _ _ = none

abbrev pub plain : Backend Bytes
plain = record {
  protect = λ b. some b;
  unprotect = λ b. some b;
  dumps = λ d. written_document d.schema_version d.payload;
  loads = λ b. object (record { schema_version = some 1; payload = some b });
  protect_error = store_error [];
  unprotect_error = corrupt [];
}

pub plain-decrypts :
    (plaintext ciphertext : Bytes)
    → plain.protect plaintext ≡ some ciphertext
    → plain.unprotect ciphertext ≡ some plaintext
plain-decrypts plaintext ciphertext h = cc

written_document-object :
    (s : Option ℕ) (p : Option Bytes) (b : Bytes)
    → written_document s p ≡ some b
    → plain.loads b ≡ object (record { schema_version = s; payload = p })
written_document-object none p b h = cc
written_document-object (some zero) p b h = cc
written_document-object (some (suc zero)) none b h = cc
written_document-object (some (suc zero)) (some p) b h = ground arith
written_document-object (some (suc (suc n))) p b h = cc

pub plain-parses :
    (d : Document Bytes) (plaintext : Bytes)
    → plain.dumps d ≡ some plaintext
    → plain.loads plaintext ≡ object d
plain-parses d plaintext h = written_document-object d.schema_version d.payload plaintext h

abbrev pub empty_disk : Disk
empty_disk = record { file = none; temporary = 0 }

abbrev pub turn : Turn
turn = record {
  starts = true;
  connect = connects;
  readings = chunk 188 5 true ∷ silent ∷ [];
  dies = false;
  stops = false;
}

abbrev pub consumer : Consumer
consumer = record { ffmpeg = false; connected = false; last_data_at = none; reconnects = 0 }

abbrev pub long_token : Text
long_token = codes "abcdefghijklmnopqrstuvwxyzABCDEF"

-- a handler that counts its calls
abbrev pub handler : Handler ℕ
handler request n = (answered (response 200 none), n + 1)

abbrev pub measured : MeasurementRow
measured = record {
  id = 1;
  run_id = 1;
  measurement = record {
    observed_at_utc = 95000;
    observed_at_local = 95000;
    state = running_snapshot;
    test_number = some 1;
    test_name = none;
    snapshot_interval_seconds = some 300;
    battery_level_raw = none;
    battery_state = some (codes "ok");
    battery_voltage_raw = none;
    battery_voltage_volts = none;
    blink_battery_check_time = none;
    camera_status = none;
    snapshots_attempted = 3;
    snapshots_succeeded = 3;
    snapshots_failed = 0;
    snapshot_timeouts = 0;
    stream_bytes = 0;
    stream_reconnects = 0;
    latest_error = none;
  };
}

abbrev pub measured_world : World
measured_world = record active_world {
  store = record (store_of active_world.run) { measurements = measured ∷ [] };
}

abbrev pub one_row : Measurements
one_row = record {
  measurements = measured ∷ [];
  phases = list_phases 1 measured_world.store;
  truncated = true;
}

abbrev pub local_file : Table
local_file = field (codes "server") (table (field (codes "dashboard_port") (num (plus 9000)) end)) (
    field (codes "blink")
      (table (field (codes "stream_reconnect_seconds") (num (plus 5000000)) end)) end)

abbrev pub as_table : Toml → Option Table
as_table (table t) = some t
as_table _ = none

abbrev pub as_path : Toml → Option Text
as_path (str s) = some s
as_path _ = none

abbrev pub loaded_app : AppConfig
loaded_app = record {
  server = record default_server { dashboard_port = 9000 };
  blink = record default_blink { stream_reconnect_seconds = 5000000 };
  experiment = default_experiment;
  paths = record {
    runtime_dir = codes "runtime";
    database = codes "runtime/data/experiment.db";
    latest_jpeg = codes "runtime/data/latest.jpg";
    hls_dir = codes "runtime/data/hls";
    private_dir = codes "runtime/private";
    log_file = codes "runtime/logs/application.log";
  };
  media = default_media;
}

pub loaded_app-loaded :
    load_config numbers whole_numbers texts truths as_table as_path none (some local_file)
    ≡ ok loaded_app
unfolding load_config duration build_tests text_eq contains positive
loaded_app-loaded = refl
