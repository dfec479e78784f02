-- ===== src/Connector/Sockets.antt =====
-- The sockets, the channel and the delay of sznet/net/Connector.cpp, whatever happens in whatever order.
use sznet.Base.{
  suc, ◌≡◌, refl, ap, ◌∙◌, sym, Bool, true, false, not, List, [], ◌∷◌, ◌++◌, if◌then◌else◌, inl,
  inr, Bool-cases, arith,
}
use sznet.Run.{ok, returned, Ensures-bind, Ensures_of_ok, assert_ok}
use sznet.Connector.{
  State, disconnected, connecting, connected, Attempt, goes_on, try_later, hopeless, Outcome, Task,
  start_task, stop_task, reset_task, Connector, is_disconnected, is_connecting, is_connected, queue,
  start_connecting, connect_socket, start_in_loop, stop_in_loop, start, stop, restart, handle_write,
  handle_error, run_task, run_next, Step, starts, stops, restarts, runs, fires, writes, fails,
  Reachable, first, next,
}
use sznet.Connector.Invariant.{
  IsValid, resets, resets-append, retry-IsValid, settle-IsValid, removed-IsOpen,
}

handle_write-IsValid :
    (c c' : Connector) (o : Outcome) → IsValid c → handle_write c o ≡ ok c' → IsValid c'
unfolding handle_write
handle_write-IsValid c c' o v e = elim (Bool-cases (is_connecting c.state)) [
  | inl up ↦
      Ensures_of_ok {P = IsValid} (rw up at e) (
        Ensures-bind (removed-IsOpen c c.state v up) λ d open_. returned (settle-IsValid d o open_))
  | inr down ↦
      let (waits, done) = assert_ok (is_disconnected c.state) (rw down at e) in
      Ensures_of_ok {P = IsValid} done (returned v)
]

handle_error-IsValid : (c c' : Connector) → IsValid c → handle_error c ≡ ok c' → IsValid c'
unfolding handle_error
handle_error-IsValid c c' v e = elim (Bool-cases (is_connecting c.state)) [
  | inl up ↦
      Ensures_of_ok {P = IsValid} (rw up at e)
        (Ensures-bind (removed-IsOpen c c.state v up) λ d open_. returned (retry-IsValid d open_))
  | inr down ↦ Ensures_of_ok {P = IsValid} (rw down at e) (returned v)
]

stop_in_loop-IsValid : (c c' : Connector) → IsValid c → stop_in_loop c ≡ ok c' → IsValid c'
unfolding stop_in_loop
stop_in_loop-IsValid c c' v e = elim (Bool-cases (is_connecting c.state)) [
  | inl up ↦ Ensures_of_ok {P = IsValid} (rw up at e) (
      Ensures-bind (removed-IsOpen c disconnected v up) λ d open_. returned (retry-IsValid d open_))
  | inr down ↦ Ensures_of_ok {P = IsValid} (rw down at e) (returned v)
]

connect_socket-IsValid :
    (c c' : Connector) (a : Attempt)
    → IsValid c
    → is_connecting c.state ≡ false
    → connect_socket c a ≡ ok c'
    → IsValid c'
unfolding connect_socket start_connecting
connect_socket-IsValid c c' goes_on v idle e =
    let (free, done) = assert_ok (not c.channel) e in
    let made = record c { created = suc c.created; state = connecting; channel = true } in
    Ensures_of_ok {P = IsValid} done (
      returned {a = made} (record {
        sockets = ground (arith, v.sockets, idle);
        channel = λ u. refl;
        resets = ground (arith, v.resets, free);
        low = v.low;
        high = v.high;
      }))
connect_socket-IsValid c c' try_later v idle e = Ensures_of_ok {P = IsValid} e (
    returned (
      retry-IsValid _ (record {
        sockets = ground (arith, v.sockets, idle);
        resets = ground (arith, v.resets, idle);
        low = v.low;
        high = v.high;
      })))
connect_socket-IsValid c c' hopeless v idle e =
    let lost = record c { created = suc c.created; closed = suc c.closed } in
    Ensures_of_ok {P = IsValid} e (
      returned {a = lost} (record {
        sockets = ground (arith, v.sockets, idle);
        channel = v.channel;
        resets = v.resets;
        low = v.low;
        high = v.high;
      }))

disconnected-idle : (s : State) → is_disconnected s ≡ true → is_connecting s ≡ false
disconnected-idle disconnected e = refl
disconnected-idle connecting e = cc
disconnected-idle connected e = refl

start_in_loop-IsValid :
    (c c' : Connector) (a : Attempt) → IsValid c → start_in_loop c a ≡ ok c' → IsValid c'
unfolding start_in_loop
start_in_loop-IsValid c c' a v e =
    let (down, rest) = assert_ok (is_disconnected c.state) e in
    elim (Bool-cases c.connect) [
      | inl wanted ↦
          connect_socket-IsValid c c' a v (disconnected-idle c.state down)
            (ap (λ b. if b then connect_socket c a else ok c) (sym wanted) ∙ rest)
      | inr alone ↦
          Ensures_of_ok {P = IsValid}
            (ap (λ b. if b then connect_socket c a else ok c) (sym alone) ∙ rest) (returned v)
    ]

-- A task that resets nothing is queued or taken.
same_channel :
    (c : Connector) (ts : List Task) (b : Bool)
    → IsValid c
    → resets ts ≡ resets c.tasks
    → IsValid (record c { tasks = ts; connect = b })
same_channel c ts b v same = record {
  sockets = v.sockets;
  channel = v.channel;
  resets = same ∙ v.resets;
  low = v.low;
  high = v.high;
}

run_next-IsValid :
    (c c' : Connector) (ts : List Task) (a : Attempt)
    → IsValid (record c { tasks = ts })
    → run_next (record c { tasks = ts }) a ≡ ok c'
    → IsValid c'
unfolding run_next run_task
run_next-IsValid c c' [] a v e = Ensures_of_ok {P = IsValid} e (returned v)
run_next-IsValid c c' (start_task ∷ ts) a v e =
    start_in_loop-IsValid _ c' a
      (same_channel (record c { tasks = start_task ∷ ts }) ts c.connect v (omega arith)) e
run_next-IsValid c c' (stop_task ∷ ts) a v e =
    stop_in_loop-IsValid _ c'
      (same_channel (record c { tasks = stop_task ∷ ts }) ts c.connect v (omega arith)) e
run_next-IsValid c c' (reset_task ∷ ts) a v e =
    let bare = record c { tasks = ts; channel = false } in
    Ensures_of_ok {P = IsValid} e (
      returned {a = bare} (record {
        sockets = v.sockets;
        channel = λ up. absurd (ground (arith, v.resets, up));
        resets = ground (arith, v.resets);
        low = v.low;
        high = v.high;
      }))

Step-IsValid : {c c' : Connector} → Step c c' → IsValid c → IsValid c'
unfolding start stop restart
Step-IsValid {c} {c'} (starts true a e) v =
    start_in_loop-IsValid _ c' a (same_channel c c.tasks true v refl) e
Step-IsValid {c} {c'} (starts false a e) v = Ensures_of_ok {P = IsValid} e (
    returned {a = queue (record c { connect = true }) start_task} (
      same_channel c (c.tasks ++ start_task ∷ []) true v
        (resets-append c.tasks start_task ∙ omega arith)))
Step-IsValid {c} stops v =
    same_channel c (c.tasks ++ stop_task ∷ []) false v
      (resets-append c.tasks stop_task ∙ omega arith)
Step-IsValid {c} {c'} (restarts a up e) v =
    start_in_loop-IsValid _ c' a
      (record {
        sockets = ground (arith, v.sockets, connected-idle c.state up);
        channel = λ u. absurd (ground (arith, u));
        resets = ground (arith, v.resets, connected-idle c.state up);
        low = omega arith;
        high = omega arith;
      })
      e
  where
    connected-idle : (s : State) → is_connected s ≡ true → is_connecting s ≡ false
    connected-idle disconnected e = refl
    connected-idle connecting e = cc
    connected-idle connected e = refl
Step-IsValid {c} {c'} (runs a e) v = run_next-IsValid c c' c.tasks a v e
Step-IsValid {c} {c'} (fires n a some e) v =
    start_in_loop-IsValid (record c { timers = n }) c' a
      (record {
        sockets = v.sockets;
        channel = v.channel;
        resets = v.resets;
        low = v.low;
        high = v.high;
      })
      e
Step-IsValid {c} {c'} (writes o e) v = handle_write-IsValid c c' o v e
Step-IsValid {c} {c'} (fails e) v = handle_error-IsValid c c' v e

-- After every history of starts, stops, restarts of a connected connector, events of the socket,
-- timers and functors of the loop, every socket that was created was closed or handed over, but
-- for the one that is connecting, which has a channel, a channel is left over exactly while its
-- removal is queued, and the delay of a retry is between half a second and thirty seconds.
pub Reachable-IsValid : {c : Connector} → Reachable c → IsValid c
Reachable-IsValid first = record {
  sockets = refl;
  channel = λ up. absurd (ground (arith, up));
  resets = refl;
  low = omega arith;
  high = omega arith;
}
Reachable-IsValid (next r s) = Step-IsValid s (Reachable-IsValid r)
