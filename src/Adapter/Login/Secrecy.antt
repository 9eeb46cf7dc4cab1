-- ===== src/Adapter/Login/Secrecy.antt =====
-- A saved session is never given up for the password.
use blink_battery_benchmark.Common.{
  ◌≡◌, refl, ◌∙◌, ap, Bool, true, false, ◌*◌, Option, none, some, List, [], ◌∷◌, min, ltb, arith,
  Bool-cases, inl, inr,
}
use blink_battery_benchmark.Text.{Text}
use blink_battery_benchmark.Storage.Types.{Time}
use blink_battery_benchmark.Config.Toml.{Number}
use blink_battery_benchmark.Adapter.Cameras.{
  CameraIdentity, Selection, no_cameras, selected, input_ended, select_camera,
}
use blink_battery_benchmark.Adapter.Login.{
  Attributes, AuthPayload, StoreLoad, absent, unreadable, stored, LoginStartup, start_returned,
  needs_mfa, raised, start_cancelled, mfa_input_ended, finish_login, after_save, unanswered,
  no_code, Authentication, Completion, answered, mfa_raised, mfa_cancelled, Attempt, up, down,
  halted, refused, start_candidate, complete, Round, latest_auth, latest_camera, Ending, logged_in,
  store_failed, was_cancelled, waiting, failed, Login, saved_login, after_attempt, Conditions,
  AuthResult, rejected, after_login, after_selection, log_in, from_store, authenticate_blink,
}

abbrev pub is_refused : Attempt → Bool
is_refused (refused text) = true
is_refused _ = false

abbrev pub is_failed : Ending → Bool
is_failed (failed text) = true
is_failed _ = false

abbrev pub is_rejected : AuthResult → Bool
is_rejected (rejected text) = true
is_rejected _ = false

complete_retries : (c : Completion) → is_refused (complete true c) ≡ false
complete_retries (answered true) = refl
complete_retries (answered false) = refl
complete_retries mfa_raised = refl
complete_retries mfa_cancelled = refl

start_candidate_retries : (s : LoginStartup) → is_refused (start_candidate true s) ≡ false
unfolding start_candidate
start_candidate_retries (start_returned true) = refl
start_candidate_retries (start_returned false) = refl
start_candidate_retries (needs_mfa code completion) = ground (arith, complete_retries completion)
start_candidate_retries raised = refl
start_candidate_retries start_cancelled = refl
start_candidate_retries mfa_input_ended = refl

after_attempt_retries :
    (a : Attempt) (auth : Attributes) (camera : Option CameraIdentity) (delay : Time)
    (later : Login)
    → is_refused a ≡ false
    → is_failed later.ending ≡ false
    → is_failed (after_attempt a auth camera delay later).ending ≡ false
after_attempt_retries up auth camera delay later h k = refl
after_attempt_retries down auth camera delay later h k = k
after_attempt_retries halted auth camera delay later h k = refl
after_attempt_retries unanswered auth camera delay later h k = refl
after_attempt_retries (refused text) auth camera delay later h k = cc

module _ (maximum factor : Time) where
  saved_login_retries :
      (auth : Attributes) (camera : Option CameraIdentity) (delay : Time) (rounds : List Round)
      → is_failed (saved_login maximum factor auth camera delay rounds).ending ≡ false
  unfolding saved_login
  saved_login_retries auth camera delay [] = refl
  saved_login_retries auth camera delay (r ∷ rounds) =
      let auth' = latest_auth r.store auth in
      let camera' = latest_camera r.store camera in
      ground (
        arith,
        after_attempt_retries (start_candidate true r.startup) auth' camera' delay
            (saved_login maximum factor auth' camera' (min maximum (delay * factor)) rounds)
            (start_candidate_retries r.startup)
            (saved_login_retries auth' camera' (min maximum (delay * factor)) rounds),
      )

module _ (parse_int : Text → Option Number) (login_attributes : Attributes → Attributes)
    (retry_initial retry_max retry_factor : Time) where
  selection-not_rejected :
      (b : Bool) (auth : Attributes) (camera : Option CameraIdentity) (s : Selection)
      → is_rejected
          (after_selection parse_int login_attributes retry_initial retry_max retry_factor b auth
            camera s).result
        ≡ false
  selection-not_rejected b auth camera no_cameras = refl
  selection-not_rejected true auth camera (selected e rest) = refl
  selection-not_rejected false auth camera (selected e rest) = refl
  selection-not_rejected b auth camera input_ended = refl

  save-not_rejected :
      (b : Bool) (a : Authentication)
      → is_rejected a.result ≡ false
      → is_rejected
          (after_save parse_int login_attributes retry_initial retry_max retry_factor b a).result
        ≡ false
  save-not_rejected true a h = h
  save-not_rejected false a h = refl

  login-not_rejected :
      (c : Conditions) (e : Ending)
      → is_failed e ≡ false
      → is_rejected
          (after_login parse_int login_attributes retry_initial retry_max retry_factor c e).result
        ≡ false
  login-not_rejected c (logged_in auth camera) h = save-not_rejected c.first_save _ (
      selection-not_rejected c.second_save (login_attributes auth) camera
        (select_camera parse_int c.cameras camera c.answers))
  login-not_rejected c store_failed h = refl
  login-not_rejected c was_cancelled h = refl
  login-not_rejected c waiting h = refl
  login-not_rejected c no_code h = refl
  login-not_rejected c (failed text) h = cc

  -- with saved attributes the loop alone decides how the login ends
  module _ (c : Conditions) (username password : Text) (startup : LoginStartup) where
    with_others : Conditions
    with_others = record c { username = username; password = password; startup = startup }

    log_in_saved :
        (o : Option Attributes) (camera : Option CameraIdentity) (auth : Attributes)
        → o ≡ some auth
        → let ending = log_in parse_int login_attributes retry_initial retry_max retry_factor in
          (is_failed (ending c o camera).ending ≡ false)
          × (ending with_others o camera ≡ ending c o camera)
    unfolding with_others
    log_in_saved none camera auth h = cc
    log_in_saved (some a) camera auth h = (
      saved_login_retries retry_max retry_factor a camera (min retry_initial retry_max) c.rounds,
      refl,
    )

    from_store_saved :
        (st : StoreLoad) (p : AuthPayload) (auth : Attributes)
        → st ≡ stored p
        → p.auth ≡ some auth
        → let run = from_store parse_int login_attributes retry_initial retry_max retry_factor in
          (is_rejected (run c st).result ≡ false) × (run with_others st ≡ run c st)
    unfolding with_others
    from_store_saved absent p auth h k = cc
    from_store_saved unreadable p auth h k = cc
    from_store_saved (stored q) p auth h k =
        let same : q ≡ p = cc in
        let (kept, equal) =
          log_in_saved q.auth q.selected_camera auth (ap (λ (x : AuthPayload). x.auth) same ∙ k) in
        (
          login-not_rejected c _ kept,
          ap (finish_login parse_int login_attributes retry_initial retry_max retry_factor c) equal,
        )

  -- If the secret store holds a session: the login is never rejected, and its result and what it
  -- saves do not depend on the user's name, the password or the outcome of a first login.
  pub authenticate_blink-saved :
      (c : Conditions) (p : AuthPayload) (auth : Attributes) (username password : Text)
      (startup : LoginStartup)
      → c.store ≡ stored p
      → p.auth ≡ some auth
      → let run =
          authenticate_blink parse_int login_attributes retry_initial retry_max retry_factor in
        (is_rejected (run c).result ≡ false)
        × (run (record c { username = username; password = password; startup = startup }) ≡ run c)
  unfolding authenticate_blink with_others
  authenticate_blink-saved c p auth username password startup s a =
      let (kept, equal) = from_store_saved c username password startup c.store p auth s a in
      elim (Bool-cases (ltb retry_factor 1)) [
        | inl low ↦ rw low (refl, refl)
        | inr fine ↦ rw fine (kept, equal)
      ]
