-- ===== src/Adapter/Cameras.antt =====
-- The choice of the camera in src/blink_dashboard/blink_adapter.py: the saved one, the only one, or
-- the one that is asked for. `parse_int` is `int` on a text, `none` if it raises ValueError.
pub mod Laws
use blink_battery_benchmark.Common.{
  ℕ, zero, suc, Bool, true, false, not, ◌&&◌, ◌||◌, Option, none, some, List, [], ◌∷◌, keep, map,
  get_elem?, if◌then◌else◌,
}
use blink_battery_benchmark.Text.{Text, codes, text_eq, strip}
use blink_battery_benchmark.Config.Toml.{Number, plus, minus}

-- the attributes that the source reads from a camera object, each of which may be missing or `None`
pub record Camera : Type 0 where
  pub name : Option Text
  pub camera_id : Option Text
  pub camera_type : Option Text
  pub product_type : Option Text
  pub serial : Option Text

pub record CameraIdentity : Type 0 where
  pub name : Option Text
  pub camera_id : Text
  pub camera_type : Option Text
  pub serial : Option Text

abbrev pub is_given : Text → Bool
is_given [] = false
is_given (c ∷ s) = true

-- `a or b`
abbrev pub or_else : Option Text → Option Text → Option Text
or_else none b = b
or_else (some []) b = b
or_else (some (c ∷ s)) b = some (c ∷ s)

-- `str(a or "")`
abbrev pub or_blank : Option Text → Text
or_blank none = []
or_blank (some s) = s

unfoldable pub camera_identity : Camera → Text → CameraIdentity
camera_identity camera fallback_name = record {
  name = or_else camera.name (some fallback_name);
  camera_id = or_blank camera.camera_id;
  camera_type = or_else camera.camera_type camera.product_type;
  serial = camera.serial;
}

pub record Entry : Type 0 where
  pub name : Text
  pub camera : Camera
  pub identity : CameraIdentity

abbrev pub entry_of : Text × Camera → Entry
entry_of (name, camera) = record {
  name = name;
  camera = camera;
  identity = camera_identity camera name;
}

-- `_camera_entries`, on the items of `blink.cameras`
unfoldable pub camera_entries : List (Text × Camera) → List Entry
unfolding camera_identity
camera_entries cameras = map entry_of cameras

-- the test in the loop of `_match_saved_camera`
abbrev pub is_match : Text → Text → Entry → Bool
is_match camera_id serial entry =
    let id_matches = is_given camera_id && text_eq entry.identity.camera_id camera_id in
    let serial_matches = is_given serial && text_eq (or_blank entry.identity.serial) serial in
    (is_given camera_id && is_given serial && id_matches && serial_matches)
    || (is_given camera_id && not (is_given serial) && id_matches)
    || (is_given serial && not (is_given camera_id) && serial_matches)

-- `matches[0] if len(matches) == 1 else None`
abbrev pub single : List Entry → Option Entry
single [] = none
single (e ∷ []) = some e
single (e ∷ f ∷ es) = none

unfoldable pub match_saved_camera : List Entry → CameraIdentity → Option Entry
unfolding text_eq
match_saved_camera entries saved =
    single (keep (is_match saved.camera_id (or_blank saved.serial)) entries)

-- What `select_camera` comes to, with the answers that it leaves unread: no camera is there, a camera
-- is selected, or the input ends first.
pub data Selection : Type 0 where
  no_cameras : Selection
  selected : Entry → List Text → Selection
  input_ended : Selection

abbrev pub entry_at : List Entry → Option Number → Option Entry
entry_at entries none = none
entry_at entries (some (minus n)) = none
entry_at entries (some (plus zero)) = none
entry_at entries (some (plus (suc n))) = get_elem? entries n

abbrev pub found_or : Option Entry → List Text → Selection → Selection
found_or none rest later = later
found_or (some e) rest later = selected e rest

module _ (parse_int : Text → Option Number) where
  -- the loop over the answers
  unfoldable pub ask_camera : List Entry → List Text → Selection
  unfolding strip
  ask_camera entries [] = input_ended
  ask_camera entries (answer ∷ answers) =
      let later = ask_camera entries answers in
      found_or (entry_at entries (parse_int (strip answer))) answers later

  abbrev pub saved_or_ask : List Entry → Option Entry → List Text → Selection
  saved_or_ask entries none answers = ask_camera entries answers
  saved_or_ask entries (some e) answers = selected e answers

  abbrev pub first_or_ask : List Entry → List Text → Selection
  first_or_ask (e ∷ []) answers = selected e answers
  first_or_ask entries answers = ask_camera entries answers

  abbrev pub select_from : List Entry → Option CameraIdentity → List Text → Selection
  select_from [] saved answers = no_cameras
  select_from (e ∷ es) none answers = first_or_ask (e ∷ es) answers
  select_from (e ∷ es) (some saved) answers =
      saved_or_ask (e ∷ es) (match_saved_camera (e ∷ es) saved) answers

  unfoldable pub select_camera :
      List (Text × Camera) → Option CameraIdentity → List Text → Selection
  unfolding camera_entries match_saved_camera ask_camera
  select_camera cameras saved answers = select_from (camera_entries cameras) saved answers
