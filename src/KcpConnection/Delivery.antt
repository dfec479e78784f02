-- ===== src/KcpConnection/Delivery.antt =====
-- What a datagram of KCP brings to a connection of sznet/net/KcpConnection.cpp.
use sznet.Base.{
  ℕ, not, Option, none, ◌≤◌, ◌<◌, ◌+◌, ◌-◌, ◌*◌, ◌%◌, ◌^◌, ◌≡◌, refl, ap, ◌∙◌, true, some, List, [],
  ◌∷◌, ◌++◌, ltb, leb, length, arith, le→leb, lt→ltb,
}
use sznet.Run.{ok, Ensures, returned, Ensures-bind, Ensures-assert, Ensures-weaken, bind_ok}
use sznet.Buffer.{writable_bytes, contents, write_at, has_written}
use sznet.Buffer.Room.{length-contents, writable-eq, Appended, filled, filled-Appended, filled-ok}
use sznet.Buffer.Room
use sznet.KcpConnection.{
  KcpConnection, Handlers, is_connected, is_none, follow, milliseconds, kcp_output_all, kcp_output,
  transmit, message_callback,
}
use sznet.KcpConnection.Library.{Kcp, Recv, again, too_small, received}
use sznet.KcpConnection.Transfer.{schedule, kcp_update_manual, take_in, handle_kcp_message}

followed {ℓ} : {A : Type ℓ} (o : Option A) (b : A) → o ≡ some b → Ensures (λ a. a ≡ b) (follow o)
followed none b e = cc
followed (some a) b e = returned cc

-- A message fits the room that it was asked for with.
abbrev pub Fits : ℕ → Recv → Type 0
Fits room again = Unit
Fits room too_small = Unit
Fits room (received xs) = length xs ≤ room

-- What `ikcp_recv` answered decides: nothing more happens when no message is complete or it does not
-- fit; a message goes to the input, and the callback gets the whole input.
pub data Delivered {Cb : Type 0} (c : KcpConnection Cb) : Recv → KcpConnection Cb → Type 0 where
  nothing :
      {c' : KcpConnection Cb}
      → c'.state ≡ c.state
      → c'.input ≡ c.input
      → c'.upcalls ≡ c.upcalls
      → Delivered c again c'
  unfit :
      {c' : KcpConnection Cb}
      → c'.state ≡ c.state
      → c'.input ≡ c.input
      → c'.upcalls ≡ c.upcalls
      → Delivered c too_small c'
  message :
      {c' : KcpConnection Cb} (xs : List ℕ)
      → c'.state ≡ c.state
      → Appended c.input xs c'.input
      → c'.upcalls ≡ c.upcalls ++ message_callback (contents c.input ++ xs) ∷ []
      → Delivered c (received xs) c'

module _ {Cb : Type 0} (kcp : Kcp Cb) where
  -- What ikcp.h says of the calls: the next update is not before the time given, and a message fits the
  -- room given.
  pub record IsDocumented (now : ℕ) : Type 0 where
    pub next : (block : Cb) → milliseconds now ≤ kcp.check block (milliseconds now)
    pub fits : (block : Cb) (room : ℕ) → room < 2 ^ 31 → Fits room (kcp.recv block room).0

  -- `c'` is `c` after an update that left `block`: its state and input are the same.
  record Updated (block : Cb) (c c' : KcpConnection Cb) : Type 0 where
    pub state : c'.state ≡ c.state
    pub input : c'.input ≡ c.input
    pub upcalls : c'.upcalls ≡ c.upcalls
    pub alive : c'.kcp ≡ some block

  kcp_output-ok :
      (c : KcpConnection Cb) (packet : List ℕ)
      → is_connected c.state ≡ true
      → not (is_none c.peer) ≡ true
      → kcp_output c packet ≡ ok (transmit c packet)
  unfolding kcp_output
  kcp_output-ok c packet up there = rw (up, there) refl

  outputs-Updated :
      (packets : List (List ℕ)) (c : KcpConnection Cb) (block : Cb)
      → is_connected c.state ≡ true
      → not (is_none c.peer) ≡ true
      → c.kcp ≡ some block
      → Ensures (Updated block c) (kcp_output_all c packets)
  unfolding kcp_output_all
  outputs-Updated [] c block up there alive =
      returned (record { state = refl; input = refl; upcalls = refl; alive = alive })
  outputs-Updated (p ∷ ps) c block up there alive = rw (kcp_output-ok c p up there) (
      Ensures-weaken (outputs-Updated ps (transmit c p) block up there alive)
        λ d u. record { state = u.state; input = u.input; upcalls = u.upcalls; alive = u.alive })

  module _ (now : ℕ) (positive : 0 < now) (doc : IsDocumented now) where
    update-Updated :
        (c : KcpConnection Cb) (block : Cb)
        → is_connected c.state ≡ true
        → not (is_none c.peer) ≡ true
        → c.kcp ≡ some block
        → Ensures (Updated (kcp.update block (milliseconds now)).1 c) (kcp_update_manual kcp now c)
    unfolding kcp_update_manual schedule
    update-Updated c block up there alive = Ensures-assert (is_connected c.state) up (
        let after = (kcp.update block (milliseconds now)).1 in
        rw alive (
          Ensures-bind
            (outputs-Updated (kcp.update block (milliseconds now)).0 (record c { kcp = some after })
              after up there refl)
            λ sent u.
              Ensures-assert (leb (milliseconds now) (kcp.check after (milliseconds now)))
                (le→leb _ _ (doc.next after))
                (Ensures-assert
                  (ltb 0
                    (now + (kcp.check after (milliseconds now) - milliseconds now) * 1000 % 2 ^ 32))
                  (lt→ltb _ _ (omega (arith, positive)))
                  (returned (record {
                    state = u.state;
                    input = u.input;
                    upcalls = u.upcalls;
                    alive = u.alive;
                  })))))

    take_in-Delivered :
        (h : Handlers) (c d : KcpConnection Cb) (block : Cb) (u : Updated block c d) (r : Recv × Cb)
        → Fits (writable_bytes c.input) r.0
        → h.message ≡ true
        → Room.IsValid c.input
        → Ensures (λ c'. Delivered c r.0 c' × (c'.kcp ≡ some r.1)) (take_in kcp h d r)
    unfolding take_in
    take_in-Delivered h c d block u (again, after) e set v =
        returned (nothing u.state u.input u.upcalls, refl)
    take_in-Delivered h c d block u (too_small, after) e set v =
        returned (unfit u.state u.input u.upcalls, refl)
    take_in-Delivered h c d block u (received xs, after) room set v =
        let valid : Room.IsValid d.input = rw u.input v in
        let room' : length xs ≤ writable_bytes d.input = rw u.input room in
        let (stored, e1, e2) =
          bind_ok (write_at d.input d.input.writer_index xs) (λ b. has_written b (length xs))
            (filled-ok d.input xs valid room') in
        let done = filled-Appended d.input xs valid room' in
        let got = done.bytes ∙ ap (λ b. contents b ++ xs) u.input in
        rw (e1, e2, set)
          (returned (message xs u.state (rw⁻¹ u.input done) (rw (u.upcalls, got) refl), refl))

    -- On a connection that is connected, with its peer, its control block and a valid input whose
    -- vector is shorter than 2 GiB, and the message callback set, at a time after 1970, if KCP's
    -- next update is not before the time given and a message fits the room given,
    -- handleKcpMessage returns, and the state is kept. The answer of ikcp_recv, for the block
    -- after ikcp_input and ikcp_update and for the room of the input, decides: if no message is
    -- complete, or it does not fit, the input is kept and no callback is called; otherwise the
    -- message is appended to the input and the callback gets the whole input.
    pub handle_kcp_message-Delivered :
        (h : Handlers) (c : KcpConnection Cb) (block : Cb) (datagram : List ℕ)
        → h.message ≡ true
        → is_connected c.state ≡ true
        → not (is_none c.peer) ≡ true
        → c.kcp ≡ some block
        → Room.IsValid c.input
        → length c.input.buffer < 2 ^ 31
        → Ensures
            (λ c'.
              let answer =
                kcp.recv
                  (kcp.update (kcp.input block datagram) (milliseconds now)).1
                  (writable_bytes c.input) in
              Delivered c answer.0 c' × (c'.kcp ≡ some answer.1))
            (handle_kcp_message kcp h now c datagram)
    unfolding handle_kcp_message take_in
    handle_kcp_message-Delivered h c block datagram set up there alive v small =
        let after = (kcp.update (kcp.input block datagram) (milliseconds now)).1 in
        Ensures-bind (followed c.kcp block alive) λ found e. rw e (
          Ensures-bind
            (update-Updated (record c { kcp = some (kcp.input block datagram) })
              (kcp.input block datagram) up there refl)
            λ d u.
              let u' : Updated after c d = record {
                state = u.state;
                input = u.input;
                upcalls = u.upcalls;
                alive = u.alive;
              } in
              let room : writable_bytes d.input % 2 ^ 32 ≡ writable_bytes c.input =
                rw u.input (omega (arith, small, writable-eq v)) in
              Ensures-bind (followed d.kcp after u.alive) λ left e'.
                rw (e', room)
                  (take_in-Delivered h c d after u' (kcp.recv after (writable_bytes c.input))
                    (doc.fits after (writable_bytes c.input) (omega (arith, small, writable-eq v)))
                    set v))
