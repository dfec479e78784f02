-- ===== src/KcpConnection/Transfer.antt =====
-- The operations of sznet/net/KcpConnection.cpp that call KCP or the callbacks. `now` is the time in
-- microseconds since 1970.
use sznet.Base.{
  ℕ, ◌+◌, ◌-◌, ◌*◌, ◌%◌, ◌^◌, Bool, true, not, ◌&&◌, some, List, [], ◌∷◌, ◌++◌, ltb, leb, ◌==◌,
  if◌then◌else◌, length,
}
use sznet.Run.{Run, ok, abort, out_of_fuel, ◌>>=◌, ◌>>◌, assert, within}
use sznet.Buffer.{
  Buffer, cheap_prepend_size, initial_size, readable_bytes, writable_bytes, contents, retrieve_all,
  write_at, has_written,
}
use sznet.Buffer.Read.{Received, bytes, failed, recv_from}
use sznet.Buffer.Words.{Host, append_int, read_int}
use sznet.Buffer
use sznet.TcpConnection.{Failure, eintr, eagain, other}
use sznet.KcpConnection.{
  TimerTask, update_manual, send_verify, delayed_close, Task, write_complete, high_water_mark,
  send_task, force_close_task, message_callback, KcpConnection, Handlers, is_connected,
  is_connecting, threshold, milliseconds, arm_update, connect_established, force_close_in_loop,
  is_down, follow, without, queue, call, cancel, transmit, kcp_output_all, force_close,
}
use sznet.KcpConnection.Library.{Kcp, Recv, again, too_small, received}

abbrev pub overhead_size : ℕ
overhead_size = 24

-- A `static_cast<int>` of a size. An `int` is kept as 2^31 more than it is.
abbrev pub int_of_size : ℕ → ℕ
int_of_size n = (n + 2 ^ 31) % 2 ^ 32

-- An `int` as a `size_t`, where a negative one wraps around.
abbrev pub size_of_int : ℕ → ℕ
size_of_int i = if ltb i (2 ^ 31) then i + 2 ^ 64 - 2 ^ 31 else i - 2 ^ 31

-- The `int` behind a sum with numbers that are not negative: an overflow is undefined.
abbrev pub checked_int : ℕ → Run ℕ
checked_int i = within (ltb i (2 ^ 32)) >> ok i

module _ {Cb : Type 0} where
  -- The next update is at `next`, in milliseconds.
  unfoldable pub schedule : ℕ → ℕ → KcpConnection Cb → Run (KcpConnection Cb)
  schedule now next c = do
    assert (leb (milliseconds now) next)
    assert (ltb 0 (now + (next - milliseconds now) * 1000 % 2 ^ 32))
    ok (arm_update (cancel c c.update_timer))

module _ {Cb : Type 0} (kcp : Kcp Cb) where
  -- `stream` and `rx_minrto` are fields of the control block. The window for sending gets `m_resend`.
  abbrev pub new_kcp : KcpConnection Cb → KcpConnection Cb
  new_kcp c =
      let s = c.settings in
      let fresh = kcp.nodelay s.no_delay s.interval s.resend s.no_flow_control (kcp.create c.id) in
      let sized = kcp.wndsize s.resend s.rcv_wnd fresh in
      record c { kcp = some (kcp.set_min_rto s.min_rto (kcp.set_stream s.is_stream sized)) }

  unfoldable pub kcp_update_manual : ℕ → KcpConnection Cb → Run (KcpConnection Cb)
  kcp_update_manual now c = do
    assert (is_connected c.state)
    block ← follow c.kcp
    let (packets, after) = kcp.update block (milliseconds now)
    sent ← kcp_output_all (record c { kcp = some after }) packets
    schedule now (kcp.check after (milliseconds now)) sent

  module _ (h : Handlers) where
    -- What `ikcp_recv` stores becomes readable, and the callback gets the whole input.
    unfoldable pub take_in : KcpConnection Cb → Recv × Cb → Run (KcpConnection Cb)
    take_in c (again, block) = ok (record c { kcp = some block })
    take_in c (too_small, block) = ok (record c { kcp = some block })
    take_in c (received xs, block) = do
      stored ← write_at c.input c.input.writer_index xs
      input ← has_written stored (length xs)
      assert h.message
      ok (call (record c { kcp = some block; input = input }) (message_callback (contents input)))

    unfoldable pub handle_kcp_message : ℕ → KcpConnection Cb → List ℕ → Run (KcpConnection Cb)
    handle_kcp_message now c datagram = do
      block ← follow c.kcp
      updated ← kcp_update_manual now (record c { kcp = some (kcp.input block datagram) })
      block' ← follow updated.kcp
      take_in updated (kcp.recv block' (writable_bytes updated.input % 2 ^ 32))

    module _ (grow : ℕ → ℕ → ℕ) where
      unfoldable pub keep_back : KcpConnection Cb → List ℕ → Run (KcpConnection Cb)
      keep_back c message = do
        let last = int_of_size (readable_bytes c.output)
        let size = size_of_int (last + length message)
        let over = leb c.mark size && (ltb (size_of_int last) c.mark && h.high_water)
        let told = queue c over (high_water_mark size)
        output ← Buffer.append grow c.output message
        ok (record told { output = output })

      -- `ikcp_send`, whose failure LOG_FATAL ends the program for, `ikcp_flush` and what follows.
      unfoldable pub give : ℕ → KcpConnection Cb → Cb → List ℕ → Run (KcpConnection Cb)
      give now c block message =
          let (refused, taken) = kcp.send block message in
          let (packets, flushed) = kcp.flush taken in
          let went : Run (KcpConnection Cb) = do
            sent ←
                kcp_output_all (record c { kcp = some flushed; given = c.given ++ message }) packets
            updated ← kcp_update_manual now sent
            let counted = record updated { sent_bytes = updated.sent_bytes + length message }
            ok (queue counted h.complete write_complete)
          in if refused then abort else went

      unfoldable pub send_in_loop : ℕ → KcpConnection Cb → List ℕ → Run (KcpConnection Cb)
      send_in_loop now c message = if is_down c.state then ok c else do
        block ← follow c.kcp
        waiting ←
            checked_int
              (int_of_size (readable_bytes c.output) + kcp.wait_snd block + length message)
        bound ← checked_int (threshold c.settings + 2 ^ 31)
        if leb bound waiting then keep_back c message else give now c block message

      -- In another thread the message is copied and handed to the loop.
      unfoldable pub send : Bool → ℕ → KcpConnection Cb → List ℕ → Run (KcpConnection Cb)
      send in_loop_thread now c message =
          if is_connected c.state
          then (if in_loop_thread
              then send_in_loop now c message
              else ok (queue c true (send_task message)))
          else ok c

      pub send_buffer : Bool → ℕ → KcpConnection Cb → Buffer → Run (KcpConnection Cb × Buffer)
      send_buffer in_loop_thread now c b = do
        c' ← send in_loop_thread now c (contents b)
        ok (c', if is_connected c.state then retrieve_all b else b)

      pub shrink_in_loop : KcpConnection Cb → ℕ → ℕ → Run (KcpConnection Cb)
      shrink_in_loop c send_size recv_size = do
        output ← if ltb 0 send_size then Buffer.shrink grow c.output send_size else ok c.output
        input ← if ltb 0 recv_size then Buffer.shrink grow c.input recv_size else ok c.input
        ok (record c { output = output; input = input })

      module _ (host : Host) where
        unfoldable pub udp_send_hand_shake_verify : KcpConnection Cb → Run (KcpConnection Cb)
        udp_send_hand_shake_verify c = do
          fresh ← Buffer.new grow cheap_prepend_size initial_size
          with_id ← append_int host grow 4 fresh c.id
          filled ← append_int host grow 4 with_id c.secret_id
          peer ← follow c.peer
          ok (transmit c (contents filled))

        -- A timer is over once it has fired, but for the one that repeats.
        unfoldable pub fire : ℕ → KcpConnection Cb → ℕ × TimerTask → Run (KcpConnection Cb)
        fire now c (id, update_manual) =
            kcp_update_manual now (record c { timers = without id c.timers })
        fire now c (id, delayed_close) =
            ok (force_close (record c { timers = without id c.timers }))
        fire now c (id, send_verify) = udp_send_hand_shake_verify c

        -- A functor of the loop.
        unfoldable pub run_task : ℕ → KcpConnection Cb → Task → Run (KcpConnection Cb)
        run_task now c write_complete = ok c
        run_task now c (high_water_mark size) = ok c
        run_task now c (send_task message) = send_in_loop now c message
        run_task now c force_close_task = force_close_in_loop h c

    -- The answer to the handshake: a number, which is not 0 if it is accepted.
    unfoldable pub handle_answer : Host → KcpConnection Cb → Buffer → Run (KcpConnection Cb)
    handle_answer host c b = do
      assert (readable_bytes b == 4)
      (success, rest) ← read_int host 4 b
      settled ←
          if success == 0
          then ok c
          else (if is_connecting c.state then connect_established h c else ok c)
      ok (cancel settled settled.verify_timer)

    unfoldable pub handle_datagram :
        Host → ℕ → KcpConnection Cb → ℕ → Buffer → Run (KcpConnection Cb)
    handle_datagram host now c from b = do
      peer ← follow c.peer
      if not (from == peer)
          then ok c
          else (if ltb (readable_bytes b) overhead_size
              then handle_answer host c b
              else handle_kcp_message now c (contents b))

    -- A datagram for a client, in the buffer that all clients share. `kind` classifies an error.
    unfoldable pub handle_udp_message :
        Host
        → (ℕ → Failure)
        → ℕ
        → List (ℕ → Received × ℕ)
        → KcpConnection Cb
        → Buffer
        → Run (KcpConnection Cb × Buffer)
    handle_udp_message host kind now [] c shared = out_of_fuel
    handle_udp_message host kind now (recv ∷ rs) c shared = do
      assert c.is_client
      ((result, from), b) ← recv_from recv (retrieve_all shared)
      let again' = handle_udp_message host kind now rs c b
      let handled : Run (KcpConnection Cb × Buffer) = do
        done ← handle_datagram host now c from b
        ok (done, retrieve_all b)
      let settled = if readable_bytes b == 0 then ok (c, b) else handled
      elim result [
        | bytes xs ↦ settled
        | failed e ↦ elim (kind e) [ eintr ↦ again' | eagain ↦ settled | other ↦ ok (c, b) ]
      ]
