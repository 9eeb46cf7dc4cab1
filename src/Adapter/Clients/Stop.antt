-- ===== src/Adapter/Clients/Stop.antt =====
-- `stop` of the adapter is final.
use blink_battery_benchmark.Common.{ℕ, ◌≡◌, refl, true, false, none, [], arith}
use blink_battery_benchmark.Adapter.Clients.{
  Adapter, stop_stream_locked, enter, leave, feed_ends, close_clients_after_feed, begin_stop,
  close_writers, finish_stop,
}
use blink_battery_benchmark.Adapter.Clients.Traces.{
  Step, enters, leaves_by, feed_ending, cleaning, stop_begins, stop_closes, stop_finishes,
  ClientReach, here, next,
}

-- what holds from `begin_stop` on
record IsStopping (a : Adapter) : Type 0 where
  stops : a.stopping ≡ true
  shut : a.serves_tcp ≡ false

Step-IsStopping : {a b : Adapter} → Step a b → IsStopping a → IsStopping b
unfolding enter leave feed_ends close_clients_after_feed begin_stop close_writers finish_stop
    stop_stream_locked
Step-IsStopping (enters a writer startup) v = ground arith
Step-IsStopping (leaves_by a accepted writer) v = ground arith
Step-IsStopping (feed_ending a) v = ground arith
Step-IsStopping (cleaning a) v = ground arith
Step-IsStopping (stop_begins a) v = ground arith
Step-IsStopping (stop_closes a h) v = ground arith
Step-IsStopping (stop_finishes a h) v = ground arith

Reach-IsStopping : {a b : Adapter} → ClientReach a b → IsStopping a → IsStopping b
Reach-IsStopping here v = v
Reach-IsStopping (next r st) v = Step-IsStopping st (Reach-IsStopping r v)

-- an adapter that `stop` has left, with the streams created so far
pub record IsIdle (created : ℕ) (a : Adapter) : Type 0 where
  pub stops : a.stopping ≡ true
  pub shut : a.serves_tcp ≡ false
  pub deserted : a.clients ≡ []
  pub quiet : a.livestream ≡ none
  pub feedless : a.feed_task ≡ none
  pub count : a.created ≡ created

Step-IsIdle : {n : ℕ} {a b : Adapter} → Step a b → IsIdle n a → IsIdle n b
unfolding enter leave feed_ends close_clients_after_feed begin_stop close_writers finish_stop
    stop_stream_locked
Step-IsIdle (enters a writer startup) v = ground arith
Step-IsIdle (leaves_by a accepted writer) v = ground arith
Step-IsIdle (feed_ending a) v = ground arith
Step-IsIdle (cleaning a) v = ground arith
Step-IsIdle (stop_begins a) v = ground arith
Step-IsIdle (stop_closes a h) v = ground arith
Step-IsIdle (stop_finishes a h) v = ground arith

Reach-IsIdle : {n : ℕ} {a b : Adapter} → ClientReach a b → IsIdle n a → IsIdle n b
Reach-IsIdle here v = v
Reach-IsIdle (next r st) v = Step-IsIdle st (Reach-IsIdle r v)

-- Whatever happens between the first and the last part of a `stop` and after it: the adapter stays
-- stopping and off its TCP port, without clients, live stream or feed task, and creates no further
-- live stream.
pub stop-IsIdle :
    (a m b : Adapter)
    → ClientReach (begin_stop a) m
    → ClientReach (finish_stop m) b
    → IsIdle m.created b
unfolding begin_stop finish_stop stop_stream_locked
stop-IsIdle a m b r s =
    let v = Reach-IsStopping r (record { stops = refl; shut = refl }) in
    Reach-IsIdle s (record {
      stops = v.stops;
      shut = v.shut;
      deserted = refl;
      quiet = refl;
      feedless = refl;
      count = refl;
    })
