-- ===== src/Adapter/Clients/Traces.antt =====
-- The schedules of the adapter's clients: any order of the locked blocks.
use blink_battery_benchmark.Common.{ℕ, Bool, true, ◌≡◌}
use blink_battery_benchmark.Adapter.Clients.{
  Adapter, Startup, enter, leave, feed_ends, close_clients_after_feed, begin_stop, close_writers,
  finish_stop,
}

pub data Step : Adapter → Adapter → Type 0 where
  enters : (a : Adapter) (writer : ℕ) (startup : Startup) → Step a (enter writer startup a).1
  leaves_by : (a : Adapter) (accepted : Bool) (writer : ℕ) → Step a (leave accepted writer a)
  feed_ending : (a : Adapter) → Step a (feed_ends a)
  cleaning : (a : Adapter) → Step a (close_clients_after_feed a)
  stop_begins : (a : Adapter) → Step a (begin_stop a)
  stop_closes : (a : Adapter) → a.stopping ≡ true → Step a (close_writers a)
  stop_finishes : (a : Adapter) → a.stopping ≡ true → Step a (finish_stop a)

pub data ClientReach (a : Adapter) : Adapter → Type 0 where
  here : ClientReach a a
  next : {b d : Adapter} → ClientReach a b → Step b d → ClientReach a d
