-- ===== src/Media.antt =====
-- `HlsStreamConsumer` of src/blink_dashboard/media.py: its loop over connections, which tees the
-- stream into FFmpeg and reports bytes, reconnections and errors.
pub mod Laws
use blink_battery_benchmark.Common.{
  ℕ, zero, suc, ◌-◌, Bool, true, false, not, ◌&&◌, Option, none, some, List, [], ◌∷◌, ◌++◌, leb,
  ◌==◌, is_some, if◌then◌else◌,
}
use blink_battery_benchmark.Text.{Text, codes}
use blink_battery_benchmark.Storage.Types.{Time}

-- One turn of the inner loop: the stop event is set, or what the read gives. `chunk n t alive` is n
-- bytes at time t, and whether FFmpeg still runs then.
pub data Reading : Type 0 where
  stop_set closed silent read_cancelled : Reading
  chunk : ℕ → Time → Bool → Reading
  read_failed : Reading

pub data Connect : Type 0 where
  connects times_out connect_failed connect_cancelled : Connect

-- One turn of the outer loop. `starts` tells whether FFmpeg can be started where it does not run,
-- and `dies` whether it has exited when an error is handled; it runs on through the wait after that.
-- `stops` is whether the stop event is set in that wait.
pub record Turn : Type 0 where
  pub starts : Bool
  pub connect : Connect
  pub readings : List Reading
  pub dies : Bool
  pub stops : Bool

-- the calls of `on_bytes`, `on_reconnect` and `on_error`
pub data Callback : Type 0 where
  calls_bytes : ℕ → Callback
  calls_reconnect : Callback
  calls_error : Text → Callback

-- How the inner loop ends; `gone` is that FFmpeg exited.
pub data ReadEnd : Type 0 where
  stopped cancelled timed_out disconnected gone : ReadEnd

pub record Consumer : Type 0 where
  pub ffmpeg : Bool
  pub connected : Bool
  pub last_data_at : Option Time
  pub reconnects : ℕ

-- how a turn of the outer loop ends
pub data TurnEnd : Type 0 where
  again leaves is_cancelled : TurnEnd

-- what the inner loop calls, the last time that data came, and how it ends
pub record Read : Type 0 where
  pub calls : List Callback
  pub last : Option Time
  pub ending : ReadEnd

abbrev pub at_end : ReadEnd → Option Time → Read
at_end e last = record { calls = []; last = last; ending = e }

abbrev pub after_bytes : ℕ → Read → Read
after_bytes n r = record r { calls = calls_bytes n ∷ r.calls }

-- the inner loop; after the readings given the stop event is set
unfoldable pub read_loop : Option Time → List Reading → Read
read_loop last [] = at_end stopped last
read_loop last (stop_set ∷ rs) = at_end stopped last
read_loop last (closed ∷ rs) = at_end disconnected last
read_loop last (silent ∷ rs) = at_end timed_out last
read_loop last (read_cancelled ∷ rs) = at_end cancelled last
read_loop last (read_failed ∷ rs) = at_end disconnected last
read_loop last (chunk zero t alive ∷ rs) = at_end disconnected last
read_loop last (chunk (suc n) t false ∷ rs) = at_end gone last
read_loop last (chunk (suc n) t true ∷ rs) = after_bytes (suc n) (read_loop (some t) rs)

-- the error's category in the two handlers: of a timeout, and of any other exception
abbrev pub timeout_category : Bool → Bool → Text
timeout_category ffmpeg_failed waiting_for_data =
    if ffmpeg_failed
    then codes "ffmpeg_failure"
    else if waiting_for_data
    then codes "stream_inactivity"
    else codes "stream_disconnect"

abbrev pub failure_category : Bool → Text
failure_category ffmpeg_failed =
    if ffmpeg_failed then codes "ffmpeg_failure" else codes "stream_disconnect"

-- `_recover_after_failure` and the loop's condition after it: the socket is closed, and FFmpeg
-- stopped where it failed
abbrev pub recover : Bool → Bool → Consumer → Consumer × TurnEnd
recover ffmpeg_failed stops s =
    (record s { connected = false; ffmpeg = not ffmpeg_failed }, if stops then leaves else again)

-- a turn's outcome: the consumer, what was called, and how it ended
abbrev pub TurnOutcome : Type 0
TurnOutcome = (Consumer × TurnEnd) × List Callback

abbrev pub end_read : Turn → List Callback → ReadEnd → Consumer → TurnOutcome
end_read turn calls stopped s = ((s, leaves), calls)
end_read turn calls cancelled s = ((s, is_cancelled), calls)
end_read turn calls timed_out s =
    (recover turn.dies turn.stops s, calls ++ calls_error (timeout_category turn.dies true) ∷ [])
end_read turn calls disconnected s =
    (recover turn.dies turn.stops s, calls ++ calls_error (failure_category turn.dies) ∷ [])
end_read turn calls gone s =
    (recover true turn.stops s, calls ++ calls_error (failure_category true) ∷ [])

-- `if reconnects: calls_reconnect()`
abbrev pub reconnect_calls : ℕ → List Callback
reconnect_calls zero = []
reconnect_calls (suc n) = calls_reconnect ∷ []

abbrev pub with_connection : Turn → Consumer → TurnOutcome
with_connection turn s =
    let read = read_loop s.last_data_at turn.readings in
    end_read turn (reconnect_calls s.reconnects ++ read.calls) read.ending
      (record s { connected = true; last_data_at = read.last; reconnects = suc s.reconnects })

abbrev pub after_connect : Turn → Connect → Consumer → TurnOutcome
after_connect turn connects s = with_connection turn s
after_connect turn times_out s =
    (recover turn.dies turn.stops s, calls_error (timeout_category turn.dies false) ∷ [])
after_connect turn connect_failed s =
    (recover turn.dies turn.stops s, calls_error (failure_category turn.dies) ∷ [])
after_connect turn connect_cancelled s = ((s, is_cancelled), [])

-- one turn: `_start_ffmpeg`, which fails only where FFmpeg does not run, then the connection
unfoldable pub turn_once : Turn → Consumer → TurnOutcome
unfolding read_loop
turn_once turn s =
    if not s.ffmpeg && not turn.starts
    then (recover true turn.stops s, calls_error (failure_category true) ∷ [])
    else after_connect turn turn.connect (record s { ffmpeg = true })

-- `stop`
abbrev pub stop_consumer : Consumer → Consumer
stop_consumer s = record s { connected = false; ffmpeg = false }

abbrev pub go_on : TurnOutcome → Consumer × List Callback → Consumer × List Callback
go_on ((s, again), calls) (s', later) = (s', calls ++ later)
go_on ((s, leaves), calls) later = (stop_consumer s, calls)
go_on ((s, is_cancelled), calls) later = (stop_consumer s, calls)

-- The turns of the outer loop; after them the stop event is set. The last line is its `finally`.
unfoldable pub run_turns : List Turn → Consumer → Consumer × List Callback
unfolding turn_once
run_turns [] s = (stop_consumer s, [])
run_turns (turn ∷ turns) s =
    let outcome = turn_once turn s in go_on outcome (run_turns turns outcome.0.0)

-- `run`, on a consumer that its constructor has made or an earlier run has left
unfoldable pub run : List Turn → Consumer → Consumer × List Callback
unfolding run_turns
run turns s = run_turns turns (record s { reconnects = 0 })

-- `is_fresh`: whether the manifest is there with content, and the age of the last data, `now` being
-- before it where the clock went back
abbrev pub is_young : Option Time → Time → Time → Bool
is_young none now max_age = false
is_young (some received) now max_age = leb received now && leb (now - received) max_age

-- `ready`, on the size of the manifest
abbrev pub has_content : Option ℕ → Bool
has_content none = false
has_content (some zero) = false
has_content (some (suc n)) = true

unfoldable pub is_fresh : Option ℕ → Consumer → Time → Time → Bool
is_fresh manifest s now max_age = has_content manifest && is_young s.last_data_at now max_age
