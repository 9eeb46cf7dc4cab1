-- ===== src/Adapter/Clients/Stranded.antt =====
-- A client that enters between the failure of another's stream and that other's leaving.
use blink_battery_benchmark.Common.{ℕ, ◌≡◌, true, false, none, [], ◌∷◌, arith}
use blink_battery_benchmark.Adapter.Clients.{
  Adapter, Startup, refused, failed, connected, ensure_stream_locked, stop_stream_locked, enter,
  leave,
}

-- If a first client's live stream does not start, and a second client enters before the first one
-- leaves: the second is accepted and remains the only client, of an adapter that is not stopping
-- and has no live stream.
pub enter-leave-stranded :
    (first second : ℕ) (broken startup : Startup) (a : Adapter)
    → a.stopping ≡ false
    → a.clients ≡ []
    → a.livestream ≡ none
    → a.feed_task ≡ none
    → (enter first broken a).0 ≡ false
    → let failing = (enter first broken a).1 in
      let after = leave true first (enter second startup failing).1 in
      ((enter second startup failing).0 ≡ true)
      × (after.clients ≡ second ∷ [])
      × (after.livestream ≡ none)
      × (after.stopping ≡ false)
unfolding enter leave ensure_stream_locked stop_stream_locked
enter-leave-stranded first second refused startup a s c l f h = ground arith
enter-leave-stranded first second failed startup a s c l f h = ground arith
enter-leave-stranded first second connected startup a s c l f h = ground arith
