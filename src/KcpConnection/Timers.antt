-- ===== src/KcpConnection/Timers.antt =====
-- What the timer of the updates of sznet/net/KcpConnection.cpp finds once a connection is being closed.
use sznet.Base.{
  ℕ, ◌<◌, ◌≡◌, refl, true, false, Option, none, some, List, [], ◌∷◌, ◌++◌, ◌==◌, Bool-cases, inl,
  inr, arith,
}
use sznet.Run.{ok, abort, ◌>>=◌, Ensures, returned, Ensures-weaken}
use sznet.Buffer.Words.{Host}
use sznet.KcpConnection.{
  TimerTask, update_manual, delayed_close, KcpConnection, Handlers, is_connected, set_state, call,
  connection_callback, is_connecting, is_alive, without, State, disconnected, connecting, connected,
  delay_disconnecting, disconnecting, run_at, is_ending, disarm, cancel, connection_callback,
  connect_established, force_close_in_loop, handle_kcp_close, force_close_with_delay,
}
use sznet.KcpConnection.Library.{Kcp}
use sznet.KcpConnection.Transfer.{kcp_update_manual, fire}

module _ {Cb : Type 0} (kcp : Kcp Cb) (h : Handlers) (grow : ℕ → ℕ → ℕ) (host : Host) where
  -- A timer for an update aborts on a connection that is not connected.
  fire-abort :
      (now : ℕ) (c : KcpConnection Cb) (id : ℕ)
      → is_connected c.state ≡ false
      → fire kcp h grow host now c (id, update_manual) ≡ abort
  unfolding fire kcp_update_manual
  fire-abort now c id e = rw e refl

  -- If a connection that is connected is to be closed after a delay, all its timers are left
  -- armed, and when one that calls for an update fires, an assertion fails.
  force_close_with_delay-fire :
      (now : ℕ) (c : KcpConnection Cb) (id : ℕ)
      → is_connected c.state ≡ true
      → ((force_close_with_delay c).timers ≡ c.timers ++ (c.next_timer, delayed_close) ∷ [])
        × (fire kcp h grow host now (force_close_with_delay c) (id, update_manual) ≡ abort)
  unfolding force_close_with_delay
  force_close_with_delay-fire now c id e =
      let alive : is_alive c.state ≡ true = ground (arith, e) in
      rw alive (refl, fire-abort now _ id refl)

-- A timer of the loop, under its id.
pub data Armed (id : ℕ) (t : TimerTask) : List (ℕ × TimerTask) → Type 0 where
  first : {ts : List (ℕ × TimerTask)} → Armed id t ((id, t) ∷ ts)
  later : {ts : List (ℕ × TimerTask)} (s : ℕ × TimerTask) → Armed id t ts → Armed id t (s ∷ ts)

Armed-last : (id : ℕ) (t : TimerTask) (ts : List (ℕ × TimerTask)) → Armed id t (ts ++ (id, t) ∷ [])
Armed-last id t [] = first
Armed-last id t (s ∷ ts) = later s (Armed-last id t ts)

Armed-without :
    (id other : ℕ) (t : TimerTask) (ts : List (ℕ × TimerTask))
    → other < id
    → Armed id t ts
    → Armed id t (without other ts)
Armed-without id other t _ l (first {ts}) =
    let e : (id == other) ≡ false = ground (arith, l) in rw e first
Armed-without id other t _ l (later {ts} (key, s) a) = elim (Bool-cases (key == other)) [
  | inl e ↦ rw e (Armed-without id other t ts l a)
  | inr e ↦ rw e (later (key, s) (Armed-without id other t ts l a))
]

-- An id that was given out, if there is one.
abbrev pub IsOld : ℕ → Option ℕ → Type 0
IsOld n none = Unit
IsOld n (some id) = id < n

Armed-disarm :
    (id : ℕ) (o : Option ℕ) (t : TimerTask) (ts : List (ℕ × TimerTask))
    → IsOld id o
    → Armed id t ts
    → Armed id t (disarm o ts)
Armed-disarm id none t ts l a = a
Armed-disarm id (some other) t ts l a = Armed-without id other t ts l a

module _ {Cb : Type 0} where
  -- What is left of a connection that was closed as soon as it was up.
  pub record Leftover (id : ℕ) (c : KcpConnection Cb) : Type 0 where
    pub closed : c.state ≡ disconnected
    pub armed : Armed id update_manual c.timers

  module _ (kcp : Kcp Cb) (h : Handlers) (grow : ℕ → ℕ → ℕ) (host : Host) where
    closes-Leftover :
        (d : KcpConnection Cb) (id : ℕ)
        → h.connection ≡ true
        → is_connected d.state ≡ true
        → IsOld id d.update_timer
        → IsOld id d.verify_timer
        → Armed id update_manual d.timers
        → Ensures (Leftover id) (force_close_in_loop h d)
    unfolding force_close_in_loop handle_kcp_close
    closes-Leftover d id set up old old' armed =
        let ending : is_ending d.state ≡ true = ending_of d.state up in
        rw (ending, set)
          (returned (record {
            closed = refl;
            armed =
                Armed-disarm id d.verify_timer update_manual _ old'
                  (Armed-disarm id d.update_timer update_manual d.timers old armed);
          }))
      where
        ending_of : (s : State) → is_connected s ≡ true → is_ending s ≡ true
        ending_of connected e = refl
        ending_of connecting e = refl
        ending_of disconnected e = cc
        ending_of disconnecting e = refl
        ending_of delay_disconnecting e = cc

    -- The connection once it is up.
    abbrev established : KcpConnection Cb → KcpConnection Cb
    established c =
        let up = call (set_state c connected) (connection_callback connected) in
        run_at (cancel up up.update_timer) update_manual

    established-ok :
        (c : KcpConnection Cb)
        → h.connection ≡ true
        → is_connecting c.state ≡ true
        → connect_established h c ≡ ok (established c)
    unfolding connect_established
    established-ok c set starting = rw (starting, set) refl

    -- If a connection that is connecting, with the callback set and the ids of its timers older
    -- than the loop's next, is established and then closed at once, both calls return, the
    -- connection is disconnected, the timer for its first update is armed still, and when it
    -- fires an assertion fails.
    pub connect_established-close-fire :
        (now : ℕ) (c : KcpConnection Cb)
        → h.connection ≡ true
        → is_connecting c.state ≡ true
        → IsOld c.next_timer c.update_timer
        → IsOld c.next_timer c.verify_timer
        → Ensures
            (λ d.
              Leftover c.next_timer d
              × (fire kcp h grow host now d (c.next_timer, update_manual) ≡ abort))
            (connect_established h c >>= force_close_in_loop h)
    connect_established-close-fire now c set starting old old' =
        rw (established-ok c set starting) (
          Ensures-weaken
            (closes-Leftover (established c) c.next_timer set refl old old'
              (Armed-last c.next_timer update_manual _))
            λ d l. (l, fire-abort kcp h grow host now d c.next_timer (rw l.closed refl)))
