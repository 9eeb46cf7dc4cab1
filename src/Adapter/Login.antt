-- ===== src/Adapter/Login.antt =====
-- `authenticate_blink` of src/blink_dashboard/blink_adapter.py. What Blinkpy, the secret store and the
-- user do comes in as values. Delays are in microseconds, and the backoff factor is a whole number.
pub mod Laws
pub mod Secrecy
pub mod Codes
use blink_battery_benchmark.Common.{
  ℕ, ◌*◌, Bool, true, false, not, ◌&&◌, ◌||◌, Option, none, some, List, [], ◌∷◌, ◌++◌, keep, map,
  min, ltb, ◌==◌, if◌then◌else◌,
}
use blink_battery_benchmark.Text.{Text, codes, text_eq, contains, strip}
use blink_battery_benchmark.Storage.Types.{Time}
use blink_battery_benchmark.Config.Toml.{Number}
use blink_battery_benchmark.Adapter.Cameras.{
  Camera, CameraIdentity, Entry, is_given, Selection, no_cameras, selected, input_ended,
  select_camera,
}

-- a login's attributes
abbrev pub Attributes : Type 0
Attributes = List (Text × Text)

abbrev pub one_time_names : List Text
one_time_names = codes "2fa_code" ∷ codes "twofa_code" ∷ codes "mfa" ∷ codes "otp" ∷ []

-- `_safe_auth_attributes`
unfoldable pub safe_auth_attributes : Attributes → Attributes
unfolding contains
safe_auth_attributes attributes = keep (λ a. not (contains a.0 one_time_names)) attributes

-- the payload of the secret store; `trusted_device` is the same each time
pub record AuthPayload : Type 0 where
  pub auth : Option Attributes
  pub selected_camera : Option CameraIdentity

-- `persist_authentication`, as the payload that it saves
unfoldable pub persist_authentication : Attributes → Option CameraIdentity → AuthPayload
unfolding safe_auth_attributes
persist_authentication attributes camera = record {
  auth = some (safe_auth_attributes attributes);
  selected_camera = camera;
}

-- `store.load()`, which may raise `SecretStoreError`
pub data StoreLoad : Type 0 where
  absent unreadable : StoreLoad
  stored : AuthPayload → StoreLoad

-- what `_complete_2fa` does
pub data Completion : Type 0 where
  answered : Bool → Completion
  mfa_raised mfa_cancelled : Completion

-- What `candidate.start()` does: it returns, asks for a code and then completes, raises another
-- exception, or is cancelled. The flag of `start_returned` is `started is True`. With
-- `mfa_input_ended` the code is asked for, and the input is at its end.
pub data LoginStartup : Type 0 where
  start_returned : Bool → LoginStartup
  needs_mfa : Text → Completion → LoginStartup
  raised start_cancelled mfa_input_ended : LoginStartup

-- what the local function `start` comes to
pub data Attempt : Type 0 where
  up down halted unanswered : Attempt
  refused : Text → Attempt

abbrev pub retry_or : Bool → Text → Attempt
retry_or true text = down
retry_or false text = refused text

abbrev pub up_if : Bool → Attempt
up_if true = up
up_if false = down

abbrev pub complete : Bool → Completion → Attempt
complete retry (answered true) = up
complete retry (answered false) = retry_or retry (codes "Blink MFA verification failed.")
complete retry mfa_raised = retry_or retry (codes "Blink MFA verification failed.")
complete retry mfa_cancelled = halted

-- an empty code is not sent
unfoldable pub start_candidate : Bool → LoginStartup → Attempt
unfolding strip
start_candidate retry (start_returned started) = up_if started
start_candidate retry (needs_mfa code completion) =
    if is_given (strip code) then complete retry completion else complete retry (answered false)
start_candidate retry raised = retry_or retry (codes "Blink authentication could not be completed.")
start_candidate retry start_cancelled = halted
start_candidate retry mfa_input_ended = unanswered

-- One turn of the loop over a saved session. `tokens` are the login's attributes at each call of
-- `token_callback` whose save works, while the candidate starts.
pub record Round : Type 0 where
  pub store : StoreLoad
  pub startup : LoginStartup
  pub tokens : List Attributes

-- the payloads that `token_callback` saves
abbrev pub callback_saves : List Attributes → Option CameraIdentity → List AuthPayload
callback_saves tokens camera = map (λ a. persist_authentication a camera) tokens

-- how the loop is left, or that it still waits after all the rounds given
pub data Ending : Type 0 where
  logged_in : Attributes → Option CameraIdentity → Ending
  store_failed was_cancelled waiting no_code : Ending
  failed : Text → Ending

-- with the delays that it slept, and what it saved, oldest first
pub record Login : Type 0 where
  pub saved : List AuthPayload
  pub delays : List Time
  pub ending : Ending

abbrev pub or_last {ℓ} : {A : Type ℓ} → Option A → Option A → Option A
or_last none last = last
or_last (some a) last = some a

abbrev pub or_known : Option Attributes → Attributes → Attributes
or_known none auth = auth
or_known (some latest) auth = latest

abbrev pub latest_auth : StoreLoad → Attributes → Attributes
latest_auth (stored p) auth = or_known p.auth auth
latest_auth _ auth = auth

abbrev pub latest_camera : StoreLoad → Option CameraIdentity → Option CameraIdentity
latest_camera (stored p) camera = or_last p.selected_camera camera
latest_camera _ camera = camera

abbrev pub at_once : Ending → Login
at_once e = record { saved = []; delays = []; ending = e }

abbrev pub with_saves : List AuthPayload → Login → Login
with_saves saves l = record l { saved = saves ++ l.saved }

abbrev pub after_attempt : Attempt → Attributes → Option CameraIdentity → Time → Login → Login
after_attempt up auth camera delay later = at_once (logged_in auth camera)
after_attempt down auth camera delay later = record {
  saved = later.saved;
  delays = delay ∷ later.delays;
  ending = later.ending;
}
after_attempt halted auth camera delay later = at_once was_cancelled
after_attempt unanswered auth camera delay later = at_once no_code
after_attempt (refused text) auth camera delay later = at_once (failed text)

abbrev pub is_unreadable : StoreLoad → Bool
is_unreadable unreadable = true
is_unreadable _ = false

module _ (retry_max retry_factor : Time) where
  -- the loop, whose environment is the list of its rounds
  unfoldable pub saved_login : Attributes → Option CameraIdentity → Time → List Round → Login
  unfolding start_candidate persist_authentication
  saved_login auth camera delay [] = at_once waiting
  saved_login auth camera delay (r ∷ rounds) =
      let latest = latest_auth r.store auth in
      let chosen = latest_camera r.store camera in
      let later = saved_login latest chosen (min retry_max (delay * retry_factor)) rounds in
      if is_unreadable r.store
      then at_once store_failed
      else with_saves (callback_saves r.tokens chosen)
          (after_attempt (start_candidate true r.startup) latest chosen delay later)

-- what the login of a first session comes to
abbrev pub first_ending : Attempt → Attributes → Option CameraIdentity → Ending
first_ending up auth camera = logged_in auth camera
first_ending down auth camera = failed (codes "Blink authentication failed.")
first_ending halted auth camera = was_cancelled
first_ending unanswered auth camera = no_code
first_ending (refused text) auth camera = failed text

-- the login with the user's name and password, which `getpass` does not strip
unfoldable pub first_login :
    Text → Text → LoginStartup → List Attributes → Option CameraIdentity → Login
unfolding strip start_candidate persist_authentication
first_login username password startup tokens camera =
    if not (is_given (strip username)) || not (is_given password)
    then at_once (failed (codes "Blink username and password are required."))
    else with_saves (callback_saves tokens camera) (
        at_once (
          first_ending (start_candidate false startup)
            ((codes "username", strip username) ∷ (codes "password", password) ∷ []) camera))

-- What the user and Blink do in one run of `authenticate_blink`, and whether the two saves after the
-- login work. `tokens` are those of a first login.
pub record Conditions : Type 0 where
  pub store : StoreLoad
  pub rounds : List Round
  pub username : Text
  pub password : Text
  pub startup : LoginStartup
  pub tokens : List Attributes
  pub first_save : Bool
  pub second_save : Bool
  pub cameras : List (Text × Camera)
  pub answers : List Text

pub data AuthResult : Type 0 where
  authenticated : Entry → AuthResult
  no_cameras_found no_answer bad_store cancelled still_waiting bad_retry : AuthResult
  rejected : Text → AuthResult

-- the result, with the payloads that were saved, oldest first
pub record Authentication : Type 0 where
  pub saved : List AuthPayload
  pub result : AuthResult

abbrev pub just : AuthResult → Authentication
just r = record { saved = []; result = r }

module _ (parse_int : Text → Option Number) (login_attributes : Attributes → Attributes)
    (retry_initial retry_max retry_factor : Time) where
  -- the last lines: saving before and after the camera is selected
  abbrev pub after_selection :
      Bool → Attributes → Option CameraIdentity → Selection → Authentication
  after_selection second_save auth camera no_cameras = record {
    saved = persist_authentication auth camera ∷ [];
    result = no_cameras_found;
  }
  after_selection second_save auth camera input_ended = record {
    saved = persist_authentication auth camera ∷ [];
    result = no_answer;
  }
  after_selection true auth camera (selected e rest) = record {
    saved = persist_authentication auth camera ∷ persist_authentication auth (some e.identity) ∷ [];
    result = authenticated e;
  }
  after_selection false auth camera (selected e rest) = record {
    saved = persist_authentication auth camera ∷ [];
    result = bad_store;
  }

  abbrev pub after_save : Bool → Authentication → Authentication
  after_save true later = later
  after_save false later = just bad_store

  abbrev pub after_login : Conditions → Ending → Authentication
  after_login c (logged_in auth camera) = after_save c.first_save (
      after_selection c.second_save (login_attributes auth) camera
        (select_camera parse_int c.cameras camera c.answers))
  after_login c store_failed = just bad_store
  after_login c was_cancelled = just cancelled
  after_login c no_code = just no_answer
  after_login c waiting = just still_waiting
  after_login c (failed text) = just (rejected text)

  abbrev pub finish_login : Conditions → Login → Authentication
  finish_login c login =
      let rest = after_login c login.ending in record rest { saved = login.saved ++ rest.saved }

  -- with the saved session's attributes, if there are such
  abbrev pub log_in : Conditions → Option Attributes → Option CameraIdentity → Login
  log_in c (some auth) camera =
      saved_login retry_max retry_factor auth camera (min retry_initial retry_max) c.rounds
  log_in c none camera = first_login c.username c.password c.startup c.tokens camera

  abbrev pub from_store : Conditions → StoreLoad → Authentication
  from_store c unreadable = just bad_store
  from_store c absent = finish_login c (log_in c none none)
  from_store c (stored p) = finish_login c (log_in c p.auth p.selected_camera)

  unfoldable pub authenticate_blink : Conditions → Authentication
  unfolding saved_login first_login persist_authentication select_camera
  authenticate_blink c = if ltb retry_factor 1 then just bad_retry else from_store c c.store
