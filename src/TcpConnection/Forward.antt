-- ===== src/TcpConnection/Forward.antt =====
-- What the operations of sznet/net/TcpConnection.cpp that send nothing keep.
use sznet.Base.{
  ℕ, ◌≤◌, ◌≡◌, refl, ap, ◌∙◌, sym, Bool, true, false, List, [], ◌∷◌, ◌++◌, inl, inr, Bool-cases,
  arith, append-nil,
}
use sznet.Run.{
  ok, Ensures, returned, Ensures_of_ok, Ensures-weaken, Ensures-if, Ensures-assert, assert_ok,
}
use sznet.Channel.{is_writing, none_event, is_none_event}
use sznet.TcpConnection.{
  TcpConnection, State, disconnected, connecting, connected, disconnecting, Handlers,
  is_disconnected, is_connecting, is_connected, is_open, connection_callback, connect_established,
  connect_destroyed, force_close_in_loop, shutdown, shutdown_in_loop,
}
use sznet.TcpConnection.Invariant.{IsValid, stream}
use sznet.TcpConnection.Writing.{handle_close-IsValid}
use sznet.TcpConnection.Answers.{Ending, waits, ended, broke, state_after}

abbrev pub rank : State → ℕ
rank connecting = 0
rank connected = 1
rank disconnecting = 2
rank disconnected = 3

pub record Kept (c : TcpConnection) (bytes : List ℕ) (c' : TcpConnection) : Type 0 where
  pub valid : IsValid c'
  pub bytes_in_order : stream c' ≡ stream c ++ bytes
  pub forward : rank c.state ≤ rank c'.state

-- The buffers stay, and the interest in writing.
pub quiet-Kept :
    (c c' : TcpConnection)
    → IsValid c
    → c'.output ≡ c.output
    → c'.input ≡ c.input
    → c'.sent ≡ c.sent
    → is_writing c'.events ≡ is_writing c.events
    → is_disconnected c'.state ≡ is_disconnected c.state
    → (is_connecting c'.state ≡ true → is_connecting c.state ≡ true)
    → rank c.state ≤ rank c'.state
    → Kept c [] c'
quiet-Kept c c' v o i s w alive early forward = record {
  valid = record {
    output = rw o v.output;
    input = rw i v.input;
    place = rw i v.place;
    writes = w ∙ v.writes ∙ rw (o, alive) refl;
    early = λ e. rw o (v.early (early e));
  };
  bytes_in_order = rw (o, s) (sym (append-nil (stream c)));
  forward = forward;
}

-- A state that is open may go to `disconnecting`.
pub leave-Kept :
    (c c' : TcpConnection)
    → IsValid c
    → is_open c.state ≡ true
    → c'.output ≡ c.output
    → c'.input ≡ c.input
    → c'.sent ≡ c.sent
    → c'.events ≡ c.events
    → c'.state ≡ disconnecting
    → Kept c [] c'
leave-Kept c c' v open_ o i s w leaves =
    let (alive, low) = open-low c.state open_ in
    quiet-Kept c c' v o i s (ap is_writing w) (rw (leaves, alive) refl)
      (λ e. absurd (ground (arith, e, leaves))) (rw leaves low)
  where
    open-low : (s : State) → is_open s ≡ true → (is_disconnected s ≡ false) × (rank s ≤ 2)
    open-low disconnected e = cc
    open-low connecting e = cc
    open-low connected e = (refl, omega arith)
    open-low disconnecting e = (refl, omega arith)

pub stays-Kept : (c : TcpConnection) → IsValid c → Kept c [] c
stays-Kept c v = record {
  valid = v;
  bytes_in_order = sym (append-nil (stream c));
  forward = omega arith;
}

connected-open : (s : State) → is_connected s ≡ true → is_open s ≡ true
connected-open s e = rw e refl

connecting_only : (s : State) → is_connecting s ≡ true → s ≡ connecting
connecting_only disconnected e = cc
connecting_only connecting e = refl
connecting_only connected e = cc
connecting_only disconnecting e = cc

pub rank_last : (s : State) → rank s ≤ 3
rank_last disconnected = omega arith
rank_last connecting = omega arith
rank_last connected = omega arith
rank_last disconnecting = omega arith

pub same_or_last :
    (c c' : TcpConnection)
    → (is_disconnected c'.state ≡ false → c'.state ≡ c.state)
    → rank c.state ≤ rank c'.state
same_or_last c c' same = elim (Bool-cases (is_disconnected c'.state)) [
  | inl last ↦ rw (last_only c'.state last) (rank_last c.state)
  | inr alive ↦ rw (same alive) (omega arith)
]
  where
    last_only : (s : State) → is_disconnected s ≡ true → s ≡ disconnected
    last_only disconnected e = refl
    last_only connecting e = cc
    last_only connected e = cc
    last_only disconnecting e = cc

pub state_after-same :
    (e : Ending) (s : State) → is_disconnected (state_after e s) ≡ false → state_after e s ≡ s
state_after-same waits s h = refl
state_after-same ended s h = cc
state_after-same broke s h = cc

pub shuts-Kept : (b : Bool) (c : TcpConnection) → IsValid c → Kept c [] (shutdown b c)
unfolding shutdown shutdown_in_loop
shuts-Kept true c v = elim (Bool-cases (is_connected c.state)) [
  | inl up ↦ elim (Bool-cases (is_writing c.events)) [
    | inl writing ↦
        rw (up, writing) (leave-Kept c _ v (connected-open c.state up) refl refl refl refl refl)
    | inr idle ↦
        rw (up, idle) (leave-Kept c _ v (connected-open c.state up) refl refl refl refl refl)
  ]
  | inr other ↦ rw other (stays-Kept c v)
]
shuts-Kept false c v = elim (Bool-cases (is_connected c.state)) [
  | inl up ↦ rw up (leave-Kept c _ v (connected-open c.state up) refl refl refl refl refl)
  | inr other ↦ rw other (stays-Kept c v)
]

module _ (h : Handlers) where
  pub closes-Kept : (c : TcpConnection) → IsValid c → Ensures (Kept c []) (force_close_in_loop h c)
  unfolding force_close_in_loop
  closes-Kept c v =
      Ensures-if (is_open c.state)
        (λ open_.
          Ensures-weaken (handle_close-IsValid h c v open_) λ c' (valid, last, bytes, input, shut).
            record {
              valid = valid;
              bytes_in_order = bytes ∙ sym (append-nil (stream c));
              forward = rw last (rank_last c.state);
            })
        λ down. returned (record {
          valid = v;
          bytes_in_order = sym (append-nil (stream c));
          forward = omega arith;
        })

  pub established-Kept :
      (c : TcpConnection)
      → IsValid c
      → is_connecting c.state ≡ true
      → Ensures (Kept c []) (connect_established h c)
  unfolding connect_established
  established-Kept c v starting =
      let first = connecting_only c.state starting in
      let idle : is_writing c.events ≡ false = ground (arith, v.writes, v.early starting) in
      Ensures-assert _ starting (
        returned (
          quiet-Kept c _ v refl refl refl (ground arith) (rw first refl) (λ x. starting)
            (rw first (omega arith))))

  pub destroyed-Kept :
      (c c' : TcpConnection) → IsValid c → connect_destroyed h c ≡ ok c' → Kept c [] c'
  unfolding connect_destroyed
  destroyed-Kept c c' v e = elim (Bool-cases (is_connected c.state)) [
    | inl up ↦
        let (callable, done) = assert_ok h.connection (rw up at e) in
        let gone = record c {
          state = disconnected;
          events = none_event;
          added = false;
          upcalls = c.upcalls ++ connection_callback disconnected ∷ [];
        } in
        Ensures_of_ok {P = Kept c []} done (
          returned {a = gone} (record {
            valid = record {
              output = v.output;
              input = v.input;
              place = v.place;
              writes = refl;
              early = λ x. absurd (ground (arith, x));
            };
            bytes_in_order = sym (append-nil (stream c));
            forward = rank_last c.state;
          }))
    | inr other ↦
        let (quiet, done) = assert_ok (is_none_event c.events) (rw other at e) in
        let gone = record c { added = false } in
        Ensures_of_ok {P = Kept c []} done (
          returned {a = gone} (quiet-Kept c gone v refl refl refl refl refl (λ x. x) (omega arith)))
  ]
