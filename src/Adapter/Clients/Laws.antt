-- ===== src/Adapter/Clients/Laws.antt =====
-- The adapter has a live stream only while it has clients, stops every stream that it creates, and
-- serves no one after `stop`.
use blink_battery_benchmark.Common.{
  ℕ, ◌+◌, ◌<◌, ◌≡◌, sym, ap, ◌∙◌, ◌≢◌, refl, Bool, true, false, Option, none, some, List, [], ◌∷◌,
  ◌++◌, length, is_some, arith, if◌then◌else◌, ◌==◌, ◌||◌, subst, suc, Bool-cases, inl, inr,
}
use blink_battery_benchmark.Adapter.Clients.{
  Adapter, Startup, refused, failed, connected, Feed, feed_is_running, halt, has_no_client, remove,
  ensure_stream_locked, stop_stream_locked, enter, leave, feed_ends, close_clients_after_feed,
  begin_stop, close_writers, finish_stop, started,
}
use blink_battery_benchmark.Adapter.Clients.Traces.{
  Step, enters, leaves_by, feed_ending, cleaning, stop_begins, stop_closes, stop_finishes,
  ClientReach, here, next,
}

abbrev pub one_if : Bool → ℕ
one_if true = 1
one_if false = 0

abbrev pub has : ℕ → List ℕ → Bool
has n [] = false
has n (x ∷ xs) = x == n || has n xs

abbrev pub is_current : ℕ → Option ℕ → Bool
is_current n none = false
is_current n (some x) = x == n

-- Each stream that was created is the current one or was stopped, and there are as many of these as
-- were created, so that none counts twice.
pub record AreAccounted (created : ℕ) (livestream : Option ℕ) (halted : List ℕ) : Type 0 where
  pub each : (n : ℕ) → n < created → is_current n livestream || has n halted ≡ true
  pub count : created ≡ length halted + one_if (is_some livestream)

abbrev pub Accounted : Adapter → Type 0
Accounted a = AreAccounted a.created a.livestream a.halted

-- A feed task is there exactly with a live stream, none is without a client, and each stream that was
-- created is the current one or was stopped.
pub record IsSound (a : Adapter) : Type 0 where
  pub paired : is_some a.feed_task ≡ is_some a.livestream
  pub wanted : has_no_client a.clients ≡ true → a.livestream ≡ none
  pub accounted : Accounted a

not_running : (o : Option Feed) → o ≡ none → feed_is_running o ≡ false
not_running none h = refl
not_running (some f) h = cc

is_running_some : (o : Option Feed) → feed_is_running o ≡ true → is_some o ≡ true
is_running_some none h = cc
is_running_some (some f) h = refl

has_no_client-append : (xs : List ℕ) (x : ℕ) → has_no_client (xs ++ x ∷ []) ≡ false
has_no_client-append [] x = refl
has_no_client-append (y ∷ ys) x = refl

stop_stream_locked-IsSound : (a : Adapter) → Accounted a → IsSound (stop_stream_locked a)
unfolding stop_stream_locked
stop_stream_locked-IsSound a e = record {
  paired = refl;
  wanted = λ _. refl;
  accounted = record {
    each = λ n l. halted_each n a.livestream (e.each n l);
    count = halted_count a.livestream e.count;
  };
}
  where
    halted_count :
        (o : Option ℕ)
        → a.created ≡ length a.halted + one_if (is_some o)
        → a.created ≡ length (halt o a.halted) + 0
    halted_count none e = omega arith
    halted_count (some s) e = omega arith

    halted_each :
        (n : ℕ) (o : Option ℕ)
        → is_current n o || has n a.halted ≡ true
        → has n (halt o a.halted) ≡ true
    halted_each n none h = h
    halted_each n (some s) h = h

begin_stop-IsSound : {a : Adapter} → IsSound a → IsSound (begin_stop a)
unfolding begin_stop
begin_stop-IsSound v = record { paired = v.paired; wanted = v.wanted; accounted = v.accounted }

close_writers-IsSound : {a : Adapter} → IsSound a → IsSound (close_writers a)
unfolding close_writers
close_writers-IsSound v = record { paired = v.paired; wanted = v.wanted; accounted = v.accounted }

close_clients_after_feed-IsSound : {a : Adapter} → IsSound a → IsSound (close_clients_after_feed a)
unfolding close_clients_after_feed
close_clients_after_feed-IsSound {a} v =
    stop_stream_locked-IsSound (record a { closed = a.clients ++ a.closed }) v.accounted

finish_stop-IsSound : {a : Adapter} → IsSound a → IsSound (finish_stop a)
unfolding finish_stop
finish_stop-IsSound {a} v =
    let h = stop_stream_locked-IsSound a v.accounted in
    record { paired = h.paired; wanted = λ _. refl; accounted = h.accounted }

feed_ends-IsSound : {a : Adapter} → IsSound a → IsSound (feed_ends a)
unfolding feed_ends
feed_ends-IsSound {a} v = elim (Bool-cases (feed_is_running a.feed_task)) [
  | inl on ↦ rw on (record {
    paired = sym (is_running_some a.feed_task on) ∙ v.paired;
    wanted = v.wanted;
    accounted = v.accounted;
  })
  | inr off ↦ rw off v
]

leave-IsSound :
    (accepted : Bool) (writer : ℕ) {a : Adapter} → IsSound a → IsSound (leave accepted writer a)
unfolding leave
leave-IsSound accepted writer {a} v =
    left-IsSound (if accepted then remove writer a.clients else a.clients)
  where
    left-IsSound :
        (rest : List ℕ)
        → IsSound (
            let left = record a { clients = rest; closed = writer ∷ a.closed } in
            if has_no_client rest then stop_stream_locked left else left)
    left-IsSound [] =
        stop_stream_locked-IsSound (record a { clients = []; closed = writer ∷ a.closed })
          v.accounted
    left-IsSound (x ∷ xs) = record { paired = v.paired; wanted = λ e. cc; accounted = v.accounted }

length-one : (xs : List ℕ) (x : ℕ) → (length (xs ++ x ∷ []) == 1) ≡ true → xs ≡ []
length-one [] x h = refl
length-one (y ∷ []) x h = ground arith
length-one (y ∷ z ∷ ys) x h = ground arith

none_of : (o : Option Feed) → is_some o ≡ false → o ≡ none
none_of none h = refl
none_of (some f) h = cc

true-ne-false : ◌≢◌ {A = Bool} true false
true-ne-false h = cc

if_holds :
    {A : Type 0} (P : A → Type 0) (b : Bool) {x y : A}
    → (b ≡ true → P x)
    → (b ≡ false → P y)
    → P (if b then x else y)
if_holds P true f g = f refl
if_holds P false f g = g refl

none_each :
    (a : Adapter)
    → a.livestream ≡ none
    → Accounted a
    → (n : ℕ) → n < a.created
    → has n a.halted ≡ true
none_each a l e n h = subst (λ o. is_current n o || has n a.halted ≡ true) l (e.each n h)

-- the next stream's number is the only new one
next_each :
    (a : Adapter) (k : ℕ)
    → ((n : ℕ) → n < a.created → has n a.halted ≡ true)
    → k < suc a.created
    → a.created == k || has k a.halted ≡ true
next_each a k old h = elim (Bool-cases (a.created == k)) [
  | inl same ↦ rw same refl
  | inr other ↦ let h' : k < a.created = ground arith in rw (other, old k h') refl
]

-- a first client's stream takes no other's place
ensure_stream_locked-IsSound :
    (startup : Startup) (a : Adapter)
    → has_no_client a.clients ≡ false
    → a.livestream ≡ none
    → a.feed_task ≡ none
    → Accounted a
    → IsSound (ensure_stream_locked startup a).1
unfolding ensure_stream_locked
ensure_stream_locked-IsSound refused a n l f e =
    rw (not_running a.feed_task f)
      (record { paired = ap is_some f ∙ sym (ap is_some l); wanted = λ _. l; accounted = e })
ensure_stream_locked-IsSound failed a n l f e = rw (not_running a.feed_task f) (record {
  paired = refl;
  wanted = λ _. refl;
  accounted = record {
    each = λ k h. next_each a k (none_each a l e) h;
    count = omega (arith, e.count, ap (λ o. one_if (is_some o)) l);
  };
})
ensure_stream_locked-IsSound connected a n l f e = rw (not_running a.feed_task f) (record {
  paired = refl;
  wanted = λ h. cc;
  accounted = record {
    each = λ k h. next_each a k (none_each a l e) h;
    count = omega (arith, e.count, ap (λ o. one_if (is_some o)) l);
  };
})

enter-IsSound :
    (writer : ℕ) (startup : Startup) {a : Adapter} → IsSound a → IsSound (enter writer startup a).1
unfolding enter
enter-IsSound writer startup {a} v =
    if_holds (λ (r : Bool × Adapter). IsSound r.1) a.stopping (λ on. v)
      λ off.
        if_holds (λ (r : Bool × Adapter). IsSound r.1) (length (a.clients ++ writer ∷ []) == 1)
          (λ first.
            let free = v.wanted (ap has_no_client (length-one a.clients writer first)) in
            ensure_stream_locked-IsSound startup (record a { clients = a.clients ++ writer ∷ [] })
              (has_no_client-append a.clients writer) free
              (none_of a.feed_task (v.paired ∙ ap is_some free)) v.accounted)
          λ later. record {
            paired = v.paired;
            wanted = λ e. absurd (true-ne-false (sym e ∙ has_no_client-append a.clients writer));
            accounted = v.accounted;
          }

Step-IsSound : {a b : Adapter} → Step a b → IsSound a → IsSound b
Step-IsSound (enters a writer startup) v = enter-IsSound writer startup v
Step-IsSound (leaves_by a accepted writer) v = leave-IsSound accepted writer v
Step-IsSound (feed_ending a) v = feed_ends-IsSound v
Step-IsSound (cleaning a) v = close_clients_after_feed-IsSound v
Step-IsSound (stop_begins a) v = begin_stop-IsSound v
Step-IsSound (stop_closes a h) v = close_writers-IsSound v
Step-IsSound (stop_finishes a h) v = finish_stop-IsSound v

-- In every order of clients that enter and leave, feeds that end, cleanups and a stop, from the
-- started adapter on: there is a feed task exactly if there is a live stream, no live stream
-- without a client, and every live stream that was created is the current one or was stopped, and
-- there are as many of these as were created.
pub Reach-IsSound : (a : Adapter) → ClientReach started a → IsSound a
Reach-IsSound a here = record {
  paired = refl;
  wanted = λ _. refl;
  accounted = record { each = λ n h. ground arith; count = refl };
}
Reach-IsSound a (next r st) = Step-IsSound st (Reach-IsSound _ r)
