-- ===== src/Supervisor.antt =====
-- The dashboard's token and the wait for the adapter, in src/blink_dashboard/supervisor.py.
pub mod Laws
use blink_battery_benchmark.Common.{
  ℕ, Bool, true, false, not, ◌&&◌, ◌||◌, Option, none, some, List, [], ◌∷◌, ◌++◌, leb, ltb, ◌==◌,
  length, if◌then◌else◌,
}
use blink_battery_benchmark.Text.{Text, codes, strip, is_ascii, text_eq, contains}
use blink_battery_benchmark.Action.{Result, ok, err, not_ascii}
use blink_battery_benchmark.Storage.Types.{Time}

abbrev pub or_empty : Option Text → Text
or_empty none = []
or_empty (some s) = s

-- `load_or_create_dashboard_token`, where the file can be opened and written: the token, or the error
-- of a file with a byte that is not ASCII, and the file after it. `fresh` is what
-- `secrets.token_urlsafe` gives.
unfoldable pub load_or_create_dashboard_token : Text → Option Text → Result Text × Option Text
unfolding strip is_ascii
load_or_create_dashboard_token fresh file =
    let existing = strip (or_empty file) in
    if not (is_ascii (or_empty file))
    then (err not_ascii, file)
    else if leb 32 (length existing)
    then (ok existing, file)
    else (ok fresh, some (fresh ++ 10 ∷ []))

-- One turn of `wait_for_adapter`: the clock, the child's return code, and the reply, with the value
-- of `status` in it; `none` is an error that the loop passes over.
pub record Probe : Type 0 where
  pub now : Time
  pub return_code : Option ℕ
  pub reply : Option (ℕ × Text)

pub data Wait : Type 0 where
  ready : Text → Wait
  exited : ℕ → Wait
  overdue : Wait
  pending : Wait

abbrev pub is_before : Time → Option Time → Bool
is_before now none = true
is_before now (some deadline) = ltb now deadline

abbrev pub ready_states : List Text
ready_states = codes "ok" ∷ codes "degraded" ∷ []

abbrev pub is_ready : ℕ × Text → Bool
is_ready (status, state) = status == 200 && contains state ready_states

abbrev pub reply_or : Option (ℕ × Text) → Wait → Wait
reply_or none later = later
reply_or (some (status, state)) later = if is_ready (status, state) then ready state else later

abbrev pub exit_or : Option ℕ → Wait → Wait
exit_or none later = later
exit_or (some code) later = exited code

-- `pending` after all the turns given
unfoldable pub wait_for_adapter : Option Time → List Probe → Wait
unfolding contains text_eq
wait_for_adapter deadline [] = pending
wait_for_adapter deadline (p ∷ probes) =
    let later = wait_for_adapter deadline probes in
    if is_before p.now deadline then exit_or p.return_code (reply_or p.reply later) else overdue

-- the parts of `urlsplit(url)` that `_port_from_url` reads
pub record SplitUrl : Type 0 where
  pub scheme : Text
  pub hostname : Option Text
  pub port : Option ℕ

abbrev pub is_loopback_name : Option Text → Bool
is_loopback_name none = false
is_loopback_name (some name) =
    contains name (codes "127.0.0.1" ∷ codes "localhost" ∷ codes "::1" ∷ [])

-- `parsed.port or 80`
abbrev pub port_or_default : Option ℕ → ℕ
port_or_default none = 80
port_or_default (some p) = if p == 0 then 80 else p

-- `_port_from_url`; `none` is a StartupError
unfoldable pub port_from_url : SplitUrl → Option ℕ
unfolding text_eq contains
port_from_url url =
    if text_eq url.scheme (codes "http") && is_loopback_name url.hostname
    then some (port_or_default url.port)
    else none
