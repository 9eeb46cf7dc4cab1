-- ===== src/Adapter/Login/Laws.antt =====
-- The login over a saved session ends as soon as Blink lets it in, backs off as it should until then,
-- and never turns to the password.
use blink_battery_benchmark.Common.{
  ℕ, zero, suc, ◌*◌, ◌^◌, Bool, true, false, Option, List, [], ◌∷◌, min, if◌then◌else◌,
}
use blink_battery_benchmark.Storage.Types.{Time}
use blink_battery_benchmark.Adapter.Cameras.{CameraIdentity}
use blink_battery_benchmark.Adapter.Login.{
  Attributes, Attempt, down, start_candidate, Round, is_unreadable, latest_auth, latest_camera,
}

-- a turn of the loop after which it waits
abbrev pub is_down : Attempt → Bool
is_down down = true
is_down _ = false

unfoldable pub fails : Round → Bool
unfolding start_candidate
fails r = if is_unreadable r.store then false else is_down (start_candidate true r.startup)

-- what the store has said last
abbrev pub known_auth : Attributes → List Round → Attributes
known_auth auth [] = auth
known_auth auth (r ∷ rounds) = known_auth (latest_auth r.store auth) rounds

abbrev pub known_camera : Option CameraIdentity → List Round → Option CameraIdentity
known_camera camera [] = camera
known_camera camera (r ∷ rounds) = known_camera (latest_camera r.store camera) rounds

-- the delays of exponential backoff: the delay before the k-th next attempt is `initial * factor ^ k`,
-- up to the maximum
unfoldable pub backoff : ℕ → ℕ → ℕ → ℕ → ℕ → List Time
backoff maximum factor initial k zero = []
backoff maximum factor initial k (suc n) =
    min (initial * factor ^ k) maximum ∷ backoff maximum factor initial (suc k) n
