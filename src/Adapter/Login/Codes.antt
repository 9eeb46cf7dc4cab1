-- ===== src/Adapter/Login/Codes.antt =====
-- One-time codes are never saved.
use blink_battery_benchmark.Common.{
  ◌≡◌, refl, Bool, true, false, not, ◌*◌, Option, none, some, List, [], ◌∷◌, ◌++◌, ◌||◌, every, min,
  arith, Bool-cases, inl, inr,
}
use blink_battery_benchmark.Text.{Text, codes, text_eq, strip, contains}
use blink_battery_benchmark.Storage.Types.{Time}
use blink_battery_benchmark.Config.Toml.{Number}
use blink_battery_benchmark.Adapter.Cameras.{
  is_given, CameraIdentity, Selection, no_cameras, selected, input_ended, select_camera,
}
use blink_battery_benchmark.Adapter.Login.{
  Attributes, one_time_names, safe_auth_attributes, AuthPayload, persist_authentication, StoreLoad,
  absent, unreadable, stored, LoginStartup, callback_saves, first_login, finish_login, after_save,
  unanswered, no_code, is_unreadable, Authentication, Attempt, up, down, halted, refused,
  start_candidate, Round, latest_auth, latest_camera, Ending, logged_in, store_failed,
  was_cancelled, waiting, failed, Login, saved_login, after_attempt, Conditions, after_login,
  after_selection, log_in, from_store, authenticate_blink,
}

-- the names under which a one-time code stands
abbrev pub is_code : Text → Bool
is_code name =
    text_eq name (codes "2fa_code")
    || (text_eq name (codes "twofa_code")
        || (text_eq name (codes "mfa") || text_eq name (codes "otp")))

abbrev pub has_no_code : Attributes → Bool
has_no_code attributes = every (λ a. not (is_code a.0)) attributes

abbrev pub known_has_no_code : Option Attributes → Bool
known_has_no_code none = true
known_has_no_code (some attributes) = has_no_code attributes

abbrev pub payload_has_no_code : AuthPayload → Bool
payload_has_no_code p = known_has_no_code p.auth

contains-is_code :
    (name : Text) → not (contains name one_time_names) ≡ true → not (is_code name) ≡ true
unfolding contains
contains-is_code name h = ground arith

saved-has_no_code :
    (auth : Attributes) (camera : Option CameraIdentity)
    → payload_has_no_code (persist_authentication auth camera) ≡ true
unfolding persist_authentication safe_auth_attributes
saved-has_no_code [] camera = refl
saved-has_no_code (a ∷ auth) camera =
    ground (arith, contains-is_code a.0, saved-has_no_code auth camera)

every-append {ℓ} :
    {A : Type ℓ} (p : A → Bool) (xs ys : List A)
    → every p xs ≡ true
    → every p ys ≡ true
    → every p (xs ++ ys) ≡ true
every-append p [] ys h k = k
every-append p (x ∷ xs) ys h k = ground (arith, every-append p xs ys)

callback_saves-codes :
    (tokens : List Attributes) (camera : Option CameraIdentity)
    → every payload_has_no_code (callback_saves tokens camera) ≡ true
callback_saves-codes [] camera = refl
callback_saves-codes (a ∷ tokens) camera =
    let first = saved-has_no_code a camera in rw first (callback_saves-codes tokens camera)

after_attempt-codes :
    (a : Attempt) (auth : Attributes) (camera : Option CameraIdentity) (delay : Time)
    (later : Login)
    → every payload_has_no_code later.saved ≡ true
    → every payload_has_no_code (after_attempt a auth camera delay later).saved ≡ true
after_attempt-codes up auth camera delay later h = refl
after_attempt-codes down auth camera delay later h = h
after_attempt-codes halted auth camera delay later h = refl
after_attempt-codes unanswered auth camera delay later h = refl
after_attempt-codes (refused text) auth camera delay later h = refl

saved_login-codes :
    (maximum factor : Time) (auth : Attributes) (camera : Option CameraIdentity) (delay : Time)
    (rounds : List Round)
    → every payload_has_no_code (saved_login maximum factor auth camera delay rounds).saved ≡ true
unfolding saved_login
saved_login-codes maximum factor auth camera delay [] = refl
saved_login-codes maximum factor auth camera delay (r ∷ rounds) =
    let auth' = latest_auth r.store auth in
    let camera' = latest_camera r.store camera in
    let next = min maximum (delay * factor) in
    let later = saved_login maximum factor auth' camera' next rounds in
    elim (Bool-cases (is_unreadable r.store)) [
      | inl off ↦ rw off refl
      | inr on ↦ rw on (
          every-append payload_has_no_code (callback_saves r.tokens camera')
            (after_attempt (start_candidate true r.startup) auth' camera' delay later).saved
            (callback_saves-codes r.tokens camera')
            (after_attempt-codes (start_candidate true r.startup) auth' camera' delay later
              (saved_login-codes maximum factor auth' camera' next rounds)))
    ]

first_login-codes :
    (username password : Text) (startup : LoginStartup) (tokens : List Attributes)
    (camera : Option CameraIdentity)
    → every payload_has_no_code (first_login username password startup tokens camera).saved ≡ true
unfolding first_login
first_login-codes username password startup tokens camera =
    elim (Bool-cases (not (is_given (strip username)) || not (is_given password))) [
      | inl bad ↦ rw bad refl
      | inr fine ↦ rw fine (
          every-append payload_has_no_code (callback_saves tokens camera) []
            (callback_saves-codes tokens camera) refl)
    ]

module _ (parse_int : Text → Option Number) (login_attributes : Attributes → Attributes)
    (retry_initial retry_max retry_factor : Time) where
  selection-codes :
      (b : Bool) (auth : Attributes) (camera : Option CameraIdentity) (s : Selection)
      → every payload_has_no_code
          (after_selection parse_int login_attributes retry_initial retry_max retry_factor b auth
            camera s).saved
        ≡ true
  selection-codes b auth camera no_cameras = rw (saved-has_no_code auth camera) refl
  selection-codes b auth camera input_ended = rw (saved-has_no_code auth camera) refl
  selection-codes false auth camera (selected e rest) = rw (saved-has_no_code auth camera) refl
  selection-codes true auth camera (selected e rest) =
      rw (saved-has_no_code auth camera, saved-has_no_code auth (some e.identity)) refl

  save-codes :
      (b : Bool) (a : Authentication)
      → every payload_has_no_code a.saved ≡ true
      → every payload_has_no_code
          (after_save parse_int login_attributes retry_initial retry_max retry_factor b a).saved
        ≡ true
  save-codes true a h = h
  save-codes false a h = refl

  login-codes :
      (c : Conditions) (e : Ending)
      → every payload_has_no_code
          (after_login parse_int login_attributes retry_initial retry_max retry_factor c e).saved
        ≡ true
  login-codes c (logged_in auth camera) = save-codes c.first_save _ (
      selection-codes c.second_save (login_attributes auth) camera
        (select_camera parse_int c.cameras camera c.answers))
  login-codes c store_failed = refl
  login-codes c was_cancelled = refl
  login-codes c waiting = refl
  login-codes c no_code = refl
  login-codes c (failed text) = refl

  log_in-codes :
      (c : Conditions) (o : Option Attributes) (camera : Option CameraIdentity)
      → every payload_has_no_code
          (log_in parse_int login_attributes retry_initial retry_max retry_factor c o camera).saved
        ≡ true
  log_in-codes c none camera = first_login-codes c.username c.password c.startup c.tokens camera
  log_in-codes c (some auth) camera =
      saved_login-codes retry_max retry_factor auth camera (min retry_initial retry_max) c.rounds

  finish-codes :
      (c : Conditions) (o : Option Attributes) (camera : Option CameraIdentity)
      → let login =
          log_in parse_int login_attributes retry_initial retry_max retry_factor c o camera in
        every payload_has_no_code
          (finish_login parse_int login_attributes retry_initial retry_max retry_factor c
            login).saved
        ≡ true
  finish-codes c o camera =
      let login =
        log_in parse_int login_attributes retry_initial retry_max retry_factor c o camera in
      every-append payload_has_no_code login.saved
        (after_login parse_int login_attributes retry_initial retry_max retry_factor c
          login.ending).saved
        (log_in-codes c o camera) (login-codes c login.ending)

  store-codes :
      (c : Conditions) (st : StoreLoad)
      → every payload_has_no_code
          (from_store parse_int login_attributes retry_initial retry_max retry_factor c st).saved
        ≡ true
  store-codes c absent = finish-codes c none none
  store-codes c unreadable = refl
  store-codes c (stored p) = finish-codes c p.auth p.selected_camera

  -- Whatever Blink, the store and the user do: no payload that the login saves, also on the
  -- renewal of a token, has an entry named 2fa_code, twofa_code, mfa or otp.
  pub authenticate_blink-codes :
      (c : Conditions)
      → every payload_has_no_code
          (authenticate_blink parse_int login_attributes retry_initial retry_max retry_factor
            c).saved
        ≡ true
  unfolding authenticate_blink
  authenticate_blink-codes c = ground (arith, store-codes c c.store)
