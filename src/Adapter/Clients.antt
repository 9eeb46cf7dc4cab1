-- ===== src/Adapter/Clients.antt =====
-- The live stream of `BlinkAdapter` and its TCP clients, in src/blink_dashboard/blink_adapter.py. A
-- step is a piece of code that runs under `_stream_lock`, or that does not await.
pub mod Laws
pub mod Stop
pub mod Traces
pub mod Stranded
use blink_battery_benchmark.Common.{
  ℕ, suc, ◌+◌, Bool, true, false, not, ◌&&◌, Option, none, some, List, [], ◌∷◌, ◌++◌, ◌==◌, length,
  is_some, if◌then◌else◌,
}

-- a task: whether it is done
pub data Feed : Type 0 where
  running ended : Feed

-- A client is the number of its writer, and a live stream counts in the order of creation. `closed`,
-- `created` and `halted` record the calls `writer.close()`, `managed(…)` and `stream.stop()`.
pub record Adapter : Type 0 where
  pub clients : List ℕ
  pub livestream : Option ℕ
  pub feed_task : Option Feed
  pub serves_tcp : Bool
  pub serves_http : Bool
  pub stopping : Bool
  pub closed : List ℕ
  pub created : ℕ
  pub halted : List ℕ

-- How a live view starts: Blink refuses it, its feed fails or does not connect in time, or it runs.
pub data Startup : Type 0 where
  refused failed connected : Startup

abbrev pub feed_is_running : Option Feed → Bool
feed_is_running none = false
feed_is_running (some running) = true
feed_is_running (some ended) = false

abbrev pub halt : Option ℕ → List ℕ → List ℕ
halt none halted = halted
halt (some stream) halted = stream ∷ halted

-- `_ensure_stream_locked`, and whether it returns
unfoldable pub ensure_stream_locked : Startup → Adapter → Bool × Adapter
ensure_stream_locked refused a = if feed_is_running a.feed_task then (true, a) else (false, a)
ensure_stream_locked failed a = if feed_is_running a.feed_task then (true, a) else (
  false,
  record a {
    livestream = none;
    feed_task = none;
    created = suc a.created;
    halted = a.created ∷ a.halted;
  },
)
ensure_stream_locked connected a = if feed_is_running a.feed_task then (true, a) else (
  true,
  record a { livestream = some a.created; feed_task = some running; created = suc a.created },
)

-- `_stop_stream_locked`
unfoldable pub stop_stream_locked : Adapter → Adapter
stop_stream_locked a = record a {
  livestream = none;
  feed_task = none;
  halted = halt a.livestream a.halted;
}

-- `list.remove`
abbrev pub remove : ℕ → List ℕ → List ℕ
remove x [] = []
remove x (y ∷ ys) = let rest = remove x ys in if y == x then ys else y ∷ rest

abbrev pub has_no_client : List ℕ → Bool
has_no_client [] = true
has_no_client (x ∷ xs) = false

-- the first block of `_handle_client`: whether the client goes on to read, and the adapter
unfoldable pub enter : ℕ → Startup → Adapter → Bool × Adapter
unfolding ensure_stream_locked
enter writer startup a =
    if a.stopping
    then (false, a)
    else let joined = record a { clients = a.clients ++ writer ∷ [] } in
      if length joined.clients == 1 then ensure_stream_locked startup joined else (true, joined)

-- its last block: `remove` leaves a list alone that has no such writer, as the test before it does
unfoldable pub leave : Bool → ℕ → Adapter → Adapter
unfolding stop_stream_locked
leave accepted writer a =
    let rest = if accepted then remove writer a.clients else a.clients in
    let left = record a { clients = rest; closed = writer ∷ a.closed } in
    if has_no_client rest then stop_stream_locked left else left

-- the feed's task ends by itself
unfoldable pub feed_ends : Adapter → Adapter
feed_ends a = if feed_is_running a.feed_task then record a { feed_task = some ended } else a

-- `_close_clients_after_feed`
unfoldable pub close_clients_after_feed : Adapter → Adapter
unfolding stop_stream_locked
close_clients_after_feed a = stop_stream_locked (record a { closed = a.clients ++ a.closed })

-- `stop`, up to `await self.server.wait_closed()`
unfoldable pub begin_stop : Adapter → Adapter
begin_stop a = record a { stopping = true; serves_tcp = false }

-- from there up to the lock
unfoldable pub close_writers : Adapter → Adapter
close_writers a = record a { closed = a.clients ++ a.closed }

-- the rest of `stop`
unfoldable pub finish_stop : Adapter → Adapter
unfolding stop_stream_locked
finish_stop a = record (stop_stream_locked a) { clients = []; serves_http = false }

-- `__init__`, with both servers started
abbrev pub started : Adapter
started = record {
  clients = [];
  livestream = none;
  feed_task = none;
  serves_tcp = true;
  serves_http = true;
  stopping = false;
  closed = [];
  created = 0;
  halted = [];
}
