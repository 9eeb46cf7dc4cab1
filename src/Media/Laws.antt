-- ===== src/Media/Laws.antt =====
-- The consumer reports each connection after the first, and leaves neither a socket nor FFmpeg.
use blink_battery_benchmark.Common.{
  ℕ, zero, suc, ◌+◌, ◌-◌, ◌≤◌, ◌≡◌, refl, true, false, not, ◌&&◌, Option, some, List, [], ◌∷◌, ◌++◌,
  arith, length, Bool-cases, inl, inr,
}
use blink_battery_benchmark.Storage.Types.{Time}
use blink_battery_benchmark.Media.{
  Reading, stop_set, closed, silent, read_cancelled, read_failed, chunk, Connect, connects,
  times_out, connect_failed, connect_cancelled, Turn, Callback, calls_bytes, calls_reconnect,
  calls_error, ReadEnd, stopped, cancelled, timed_out, disconnected, gone, Consumer, again, leaves,
  is_cancelled, read_loop, TurnOutcome, end_read, reconnect_calls, with_connection, after_connect,
  turn_once, go_on, run_turns, run,
}

-- the number of reconnections and of errors among some calls
abbrev pub reconnects_in : List Callback → ℕ
reconnects_in [] = 0
reconnects_in (calls_bytes n ∷ cs) = reconnects_in cs
reconnects_in (calls_reconnect ∷ cs) = 1 + reconnects_in cs
reconnects_in (calls_error e ∷ cs) = reconnects_in cs

abbrev pub errors_in : List Callback → ℕ
errors_in [] = 0
errors_in (calls_bytes n ∷ cs) = errors_in cs
errors_in (calls_reconnect ∷ cs) = errors_in cs
errors_in (calls_error e ∷ cs) = 1 + errors_in cs

reconnects_in-append :
    (cs ds : List Callback) → reconnects_in (cs ++ ds) ≡ reconnects_in cs + reconnects_in ds
reconnects_in-append [] ds = omega arith
reconnects_in-append (calls_bytes n ∷ cs) ds = reconnects_in-append cs ds
reconnects_in-append (calls_reconnect ∷ cs) ds = omega (arith, reconnects_in-append cs ds)
reconnects_in-append (calls_error e ∷ cs) ds = reconnects_in-append cs ds

errors_in-append : (cs ds : List Callback) → errors_in (cs ++ ds) ≡ errors_in cs + errors_in ds
errors_in-append [] ds = omega arith
errors_in-append (calls_bytes n ∷ cs) ds = errors_in-append cs ds
errors_in-append (calls_reconnect ∷ cs) ds = errors_in-append cs ds
errors_in-append (calls_error e ∷ cs) ds = omega (arith, errors_in-append cs ds)

-- the inner loop calls `calls_bytes` alone
read_loop-calls :
    (last : Option Time) (rs : List Reading)
    → (reconnects_in (read_loop last rs).calls ≡ 0) × (errors_in (read_loop last rs).calls ≡ 0)
unfolding read_loop
read_loop-calls last [] = (refl, refl)
read_loop-calls last (stop_set ∷ rs) = (refl, refl)
read_loop-calls last (closed ∷ rs) = (refl, refl)
read_loop-calls last (silent ∷ rs) = (refl, refl)
read_loop-calls last (read_cancelled ∷ rs) = (refl, refl)
read_loop-calls last (read_failed ∷ rs) = (refl, refl)
read_loop-calls last (chunk zero t alive ∷ rs) = (refl, refl)
read_loop-calls last (chunk (suc n) t false ∷ rs) = (refl, refl)
read_loop-calls last (chunk (suc n) t true ∷ rs) = read_loop-calls (some t) rs

-- what a turn adds: as many reconnections as the counter's, and an error or none
record Adds (r : ℕ) (o : TurnOutcome) : Type 0 where
  reconnected : reconnects_in o.1 + (r - 1) ≡ o.0.0.reconnects - 1
  erred : errors_in o.1 ≤ 1

reconnect_calls-count :
    (r : ℕ)
    → (reconnects_in (reconnect_calls r) + (r - 1) ≡ r) × (errors_in (reconnect_calls r) ≡ 0)
reconnect_calls-count zero = (omega arith, refl)
reconnect_calls-count (suc r) = (omega arith, refl)

end_read-Adds :
    (turn : Turn) (r : ℕ) (calls : List Callback) (e : ReadEnd) (s : Consumer)
    → reconnects_in calls + (r - 1) ≡ s.reconnects - 1
    → errors_in calls ≡ 0
    → Adds r (end_read turn calls e s)
end_read-Adds turn r calls stopped s a b = record { reconnected = a; erred = omega arith }
end_read-Adds turn r calls cancelled s a b = record { reconnected = a; erred = omega arith }
end_read-Adds turn r calls timed_out s a b = record {
  reconnected = omega (arith, reconnects_in-append calls (calls_error _ ∷ []));
  erred = omega (arith, errors_in-append calls (calls_error _ ∷ []));
}
end_read-Adds turn r calls disconnected s a b = record {
  reconnected = omega (arith, reconnects_in-append calls (calls_error _ ∷ []));
  erred = omega (arith, errors_in-append calls (calls_error _ ∷ []));
}
end_read-Adds turn r calls gone s a b = record {
  reconnected = omega (arith, reconnects_in-append calls (calls_error _ ∷ []));
  erred = omega (arith, errors_in-append calls (calls_error _ ∷ []));
}

connected-Adds : (turn : Turn) (s : Consumer) → Adds s.reconnects (with_connection turn s)
connected-Adds turn s =
    let (rc, re) = read_loop-calls s.last_data_at turn.readings in
    let (cc', ce) = reconnect_calls-count s.reconnects in
    let all = (read_loop s.last_data_at turn.readings).calls in
    end_read-Adds turn s.reconnects _ (read_loop s.last_data_at turn.readings).ending _
      (omega (arith, reconnects_in-append (reconnect_calls s.reconnects) all))
      (omega (arith, errors_in-append (reconnect_calls s.reconnects) all))

after_connect-Adds :
    (turn : Turn) (c : Connect) (s : Consumer) → Adds s.reconnects (after_connect turn c s)
after_connect-Adds turn connects s = connected-Adds turn s
after_connect-Adds turn times_out s = record { reconnected = omega arith; erred = omega arith }
after_connect-Adds turn connect_failed s = record { reconnected = omega arith; erred = omega arith }
after_connect-Adds turn connect_cancelled s = record {
  reconnected = omega arith;
  erred = omega arith;
}

turn_once-Adds : (turn : Turn) (s : Consumer) → Adds s.reconnects (turn_once turn s)
unfolding turn_once
turn_once-Adds turn s = elim (Bool-cases (not s.ffmpeg && not turn.starts)) [
  | inl fails ↦ rw fails (record { reconnected = omega arith; erred = omega arith })
  | inr runs ↦ rw runs (after_connect-Adds turn turn.connect (record s { ffmpeg = true }))
]

-- What a whole run has called, and how it leaves the consumer.
pub record Ran (turns : List Turn) (r : ℕ) (o : Consumer × List Callback) : Type 0 where
  pub reconnected : reconnects_in o.1 + (r - 1) ≡ o.0.reconnects - 1
  pub erred : errors_in o.1 ≤ length turns
  pub closed : o.0.connected ≡ false
  pub ended : o.0.ffmpeg ≡ false

go_on-Ran :
    (turn : Turn) (turns : List Turn) (r : ℕ) (o : TurnOutcome) (rest : Consumer × List Callback)
    → Adds r o
    → Ran turns o.0.0.reconnects rest
    → Ran (turn ∷ turns) r (go_on o rest)
go_on-Ran turn turns r ((s, again), calls) (s', later) a h = record {
  reconnected = omega (arith, a.reconnected, h.reconnected, reconnects_in-append calls later);
  erred = omega (arith, a.erred, h.erred, errors_in-append calls later);
  closed = h.closed;
  ended = h.ended;
}
go_on-Ran turn turns r ((s, leaves), calls) rest a h = record {
  reconnected = a.reconnected;
  erred = omega (arith, a.erred);
  closed = refl;
  ended = refl;
}
go_on-Ran turn turns r ((s, is_cancelled), calls) rest a h = record {
  reconnected = a.reconnected;
  erred = omega (arith, a.erred);
  closed = refl;
  ended = refl;
}

run_turns-Ran : (turns : List Turn) (s : Consumer) → Ran turns s.reconnects (run_turns turns s)
unfolding run_turns
run_turns-Ran [] s = record {
  reconnected = omega arith;
  erred = omega arith;
  closed = refl;
  ended = refl;
}
run_turns-Ran (turn ∷ turns) s =
    go_on-Ran turn turns s.reconnects (turn_once turn s) _ (turn_once-Adds turn s)
      (run_turns-Ran turns (turn_once turn s).0.0)

-- A run of the consumer reports a reconnection for each connection that it has counted but the
-- first, and at most one error for each turn; it leaves neither a socket nor FFmpeg, however it
-- ends.
pub run-Ran : (turns : List Turn) (s : Consumer) → Ran turns 0 (run turns s)
unfolding run
run-Ran turns s = run_turns-Ran turns (record s { reconnects = 0 })
