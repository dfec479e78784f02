-- ===== src/KcpConnection/History.antt =====
-- The life of a connection of sznet/net/KcpConnection.cpp: its operations in any order.
use sznet.Base.{ℕ, ◌≤◌, ◌≡◌, refl, Bool, true, not, List, [], ◌∷◌, ltb, ◌==◌}
use sznet.Run.{
  Run, ok, IfOk, settled, exhausted, IfOk-bind, IfOk-assert, IfOk-if, IfOk-weaken, IfOk-any,
  IfOk_of_ok,
}
use sznet.Buffer.{Buffer, cheap_prepend_size, initial_size, readable_bytes, contents, retrieve_all}
use sznet.Buffer
use sznet.Buffer.Room
use sznet.Buffer.Read.{Received, bytes, failed, recv_from}
use sznet.Buffer.Words.{Host, append_int, read_int}
use sznet.TcpConnection.{Failure, eintr, eagain, other}
use sznet.KcpConnection.{
  State, disconnected, delay_disconnecting, disconnecting, connecting, connected, Upcall, TimerTask,
  update_manual, send_verify, delayed_close, Task, write_complete, high_water_mark, send_task,
  force_close_task, KcpConnection, Handlers, follow, is_connecting, transmit, without,
  connect_established, connect_destroyed, force_close_in_loop, force_close, force_close_with_delay,
  udp_send_hand_shake_timer,
}
use sznet.KcpConnection.Library.{Kcp}
use sznet.KcpConnection.Transfer.{
  overhead_size, handle_kcp_message, send, udp_send_hand_shake_verify, fire, run_task,
  handle_answer, handle_datagram, handle_udp_message,
}
use sznet.KcpConnection.Core.{
  changes, same, cancel-Alike, kcp_update_manual-Alike, handle_kcp_message-Alike,
}
use sznet.KcpConnection.Life.{Life, Held, Kept, Alike-Kept, quiet-Held, Kept-trans}
use sznet.KcpConnection.Closing.{
  force_close-Kept, force_close_with_delay-Kept, connect_established-Kept, force_close_in_loop-Kept,
  connect_destroyed-Kept,
}
use sznet.KcpConnection.Sending.{send_in_loop-Kept, send-Kept}

module _ {Cb : Type 0} (kcp : Kcp Cb) (h : Handlers) (grow : ℕ → ℕ → ℕ)
    (enough : (c n : ℕ) → n ≤ grow c n) (host : Host) (kind : ℕ → Failure) where
  -- A call that returned.
  pub data Step : KcpConnection Cb → KcpConnection Cb → Type 0 where
    established : {c c' : KcpConnection Cb} → connect_established h c ≡ ok c' → Step c c'
    sends :
        {c c' : KcpConnection Cb} (in_loop_thread : Bool) (now : ℕ) (message : List ℕ)
        → send kcp h grow in_loop_thread now c message ≡ ok c'
        → Step c c'
    receives :
        {c c' : KcpConnection Cb} (now : ℕ) (datagram : List ℕ)
        → handle_kcp_message kcp h now c datagram ≡ ok c'
        → Step c c'
    reads :
        {c c' : KcpConnection Cb} (now : ℕ) (answers : List (ℕ → Received × ℕ))
        (shared left : Buffer)
        → handle_udp_message kcp h host kind now answers c shared ≡ ok (c', left)
        → Step c c'
    fires :
        {c c' : KcpConnection Cb} (now id : ℕ) (t : TimerTask)
        → fire kcp h grow host now c (id, t) ≡ ok c'
        → Step c c'
    runs :
        {c c' : KcpConnection Cb} (now : ℕ) (t : Task)
        → run_task kcp h grow host now c t ≡ ok c'
        → Step c c'
    verifies :
        {c c' : KcpConnection Cb} → udp_send_hand_shake_verify kcp h grow host c ≡ ok c' → Step c c'
    arms : {c : KcpConnection Cb} → Step c (udp_send_hand_shake_timer c)
    force_closes : {c : KcpConnection Cb} → Step c (force_close c)
    delays : {c : KcpConnection Cb} → Step c (force_close_with_delay c)
    force_closed : {c c' : KcpConnection Cb} → force_close_in_loop h c ≡ ok c' → Step c c'
    destroyed : {c c' : KcpConnection Cb} → connect_destroyed h c ≡ ok c' → Step c c'

  pub data Reach (c : KcpConnection Cb) : KcpConnection Cb → Type 0 where
    here : Reach c c
    next : {d e : KcpConnection Cb} → Reach c d → Step d e → Reach c e

  verify-Kept :
      (c : KcpConnection Cb) → IfOk (Kept c) (udp_send_hand_shake_verify kcp h grow host c)
  unfolding udp_send_hand_shake_verify
  verify-Kept c = IfOk-bind (IfOk-any (Buffer.new grow cheap_prepend_size initial_size)) λ fresh e.
      IfOk-bind (IfOk-any (append_int host grow 4 fresh c.id)) λ with_id e'.
        IfOk-bind (IfOk-any (append_int host grow 4 with_id c.secret_id)) λ filled e''.
          IfOk-bind (IfOk-any (follow c.peer)) λ peer found.
            settled {a = transmit c (contents filled)}
              (record { life = λ l. l; settings = refl; held = quiet-Held refl refl })

  fire-Kept :
      (now : ℕ) (c : KcpConnection Cb) (id : ℕ) (t : TimerTask)
      → IfOk (Kept c) (fire kcp h grow host now c (id, t))
  unfolding fire
  fire-Kept now c id update_manual =
      IfOk-weaken (kcp_update_manual-Alike kcp now (record c { timers = without id c.timers }))
        λ d a. Alike-Kept (record {
          state = a.state;
          settings = a.settings;
          output = a.output;
          given = a.given;
          told = a.told;
        })
  fire-Kept now c id delayed_close =
      let fired = record c { timers = without id c.timers } in
      settled (
        Kept-trans
          (Alike-Kept
            (record { state = refl; settings = refl; output = refl; given = refl; told = refl }))
          (force_close-Kept fired))
  fire-Kept now c id send_verify = verify-Kept c

  run_task-Kept :
      (now : ℕ) (c : KcpConnection Cb) (t : Task)
      → Room.IsValid c.output
      → IfOk (Kept c) (run_task kcp h grow host now c t)
  unfolding run_task
  run_task-Kept now c write_complete v = settled (Alike-Kept same)
  run_task-Kept now c (high_water_mark size) v = settled (Alike-Kept same)
  run_task-Kept now c (send_task message) v = send_in_loop-Kept kcp h grow enough now c message v
  run_task-Kept now c force_close_task v = force_close_in_loop-Kept h c

  handle_answer-Kept :
      (c : KcpConnection Cb) (b : Buffer) → IfOk (Kept c) (handle_answer kcp h host c b)
  unfolding handle_answer
  handle_answer-Kept c b = IfOk-assert _ λ sized.
      IfOk-bind (IfOk-any (read_int host 4 b)) λ (success, rest) e.
        IfOk-bind
          (IfOk-if (success == 0) (λ no. settled (Alike-Kept same))
            λ yes.
              IfOk-if (is_connecting c.state) (λ starting. connect_established-Kept h c)
                λ up. settled (Alike-Kept same))
          λ d k. settled (Kept-trans k (Alike-Kept (cancel-Alike d d.verify_timer)))

  handle_datagram-Kept :
      (now : ℕ) (c : KcpConnection Cb) (from : ℕ) (b : Buffer)
      → IfOk (Kept c) (handle_datagram kcp h host now c from b)
  unfolding handle_datagram
  handle_datagram-Kept now c from b = IfOk-bind (IfOk-any (follow c.peer)) λ peer found.
      IfOk-if (not (from == peer)) (λ stranger. settled (Alike-Kept same))
        λ known.
          IfOk-if (ltb (readable_bytes b) overhead_size) (λ short. handle_answer-Kept c b)
            λ long.
              IfOk-weaken (handle_kcp_message-Alike kcp h now c (contents b)) λ d a. Alike-Kept a

  handle_udp_message-Kept :
      (now : ℕ) (answers : List (ℕ → Received × ℕ)) (c : KcpConnection Cb) (shared : Buffer)
      → IfOk (λ (c', left). Kept c c') (handle_udp_message kcp h host kind now answers c shared)
  unfolding handle_udp_message
  handle_udp_message-Kept now [] c shared = exhausted
  handle_udp_message-Kept now (recv ∷ rs) c shared = IfOk-assert c.is_client λ client.
      IfOk-bind (IfOk-any (recv_from recv (retrieve_all shared))) λ ((result, from), b) e.
        let handled =
          IfOk-if {P = λ (c', left). Kept c c'} (readable_bytes b == 0)
            (λ none. settled {a = (c, b)} (Alike-Kept same))
            λ some.
              IfOk-bind (handle_datagram-Kept now c from b)
                λ done k. settled {a = (done, retrieve_all b)} k in
        by_result result handled (handle_udp_message-Kept now rs c b)
          (settled {a = (c, b)} (Alike-Kept same))
    where
      by_failure :
          {Q : KcpConnection Cb × Buffer → Type 0}
          {done again stop : Run (KcpConnection Cb × Buffer)} (f : Failure)
          → IfOk Q done
          → IfOk Q again
          → IfOk Q stop
          → IfOk Q (elim f [ eintr ↦ again | eagain ↦ done | other ↦ stop ])
      by_failure eintr d a s = a
      by_failure eagain d a s = d
      by_failure other d a s = s

      by_result :
          {Q : KcpConnection Cb × Buffer → Type 0}
          {done again stop : Run (KcpConnection Cb × Buffer)} (r : Received)
          → IfOk Q done
          → IfOk Q again
          → IfOk Q stop
          → IfOk Q (elim r [
            | bytes xs ↦ done
            | failed e ↦ elim (kind e) [ eintr ↦ again | eagain ↦ done | other ↦ stop ]
          ])
      by_result (bytes xs) d a s = d
      by_result (failed e) d a s = by_failure (kind e) d a s

  Step-Kept : {c c' : KcpConnection Cb} → Step c c' → Room.IsValid c.output → Kept c c'
  unfolding udp_send_hand_shake_timer
  Step-Kept {c} (established e) v = IfOk_of_ok e (connect_established-Kept h c)
  Step-Kept {c} (sends b now message e) v =
      IfOk_of_ok e (send-Kept kcp h grow enough b now c message v)
  Step-Kept {c} (receives now datagram e) v =
      Alike-Kept (IfOk_of_ok e (handle_kcp_message-Alike kcp h now c datagram))
  Step-Kept {c} (reads now answers shared left e) v =
      IfOk_of_ok {P = λ (c', left). Kept c c'} e (handle_udp_message-Kept now answers c shared)
  Step-Kept {c} (fires now id t e) v = IfOk_of_ok e (fire-Kept now c id t)
  Step-Kept {c} (runs now t e) v = IfOk_of_ok e (run_task-Kept now c t v)
  Step-Kept {c} (verifies e) v = IfOk_of_ok e (verify-Kept c)
  Step-Kept arms v = record { life = λ l. l; settings = refl; held = quiet-Held refl refl }
  Step-Kept {c} force_closes v = force_close-Kept c
  Step-Kept {c} delays v = force_close_with_delay-Kept c
  Step-Kept {c} (force_closed e) v = IfOk_of_ok e (force_close_in_loop-Kept h c)
  Step-Kept {c} (destroyed e) v = IfOk_of_ok e (connect_destroyed-Kept h c)

  Reach-Kept : {c c' : KcpConnection Cb} → Reach c c' → Room.IsValid c.output → Kept c c'
  Reach-Kept here v = Alike-Kept same
  Reach-Kept (next r s) v = let k = Reach-Kept r v in Kept-trans k (Step-Kept s (k.held v).valid)

  -- In every history of a connection that starts to connect, with a valid output and before any
  -- callback, but for shrinkRSBuffer, the callbacks but for messages are: none while it is
  -- connecting; the one that it is up while it is connected; at most this one while it is being
  -- closed; then, once it is disconnected, the one that it is down, at most one to its owner, and
  -- no more.
  pub Reach-Life :
      {c c' : KcpConnection Cb}
      → Reach c c'
      → Room.IsValid c.output
      → is_connecting c.state ≡ true
      → c.upcalls ≡ []
      → Life c'.state (changes c'.upcalls)
  Reach-Life {c} r v starting quiet =
      (Reach-Kept r v).life (starts c.state c.upcalls starting quiet)
    where
      starts :
          (s : State) (us : List Upcall) → is_connecting s ≡ true → us ≡ [] → Life s (changes us)
      starts connecting us e e' = rw e' refl
      starts connected us e e' = cc
      starts delay_disconnecting us e e' = cc
      starts disconnecting us e e' = cc
      starts disconnected us e e' = cc

  -- In every history of a connection with a valid output, but for shrinkRSBuffer, the bytes that
  -- wait in the output are never taken out of it: it keeps them, in order, and more may come
  -- behind them. Once they reach twice the window of KCP, and as long as they are fewer than
  -- 2^31, KCP is given nothing more to send.
  pub Reach-Held : {c c' : KcpConnection Cb} → Reach c c' → Room.IsValid c.output → Held c c'
  Reach-Held r v = (Reach-Kept r v).held v
