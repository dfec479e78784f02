-- ===== src/KcpTcpEventLoop/Tests.antt =====
-- The theorems about sznet/net/KcpTcpEventLoop.cpp at concrete tables. KCP's calls are not reached.
use sznet.Base.{ℕ, ◌≡◌, refl, true, false, [], ◌∷◌, ◌++◌, arith, sub_size}
use sznet.Run.{Run, ok, abort, Ensures, ◌>>=◌}
use sznet.Buffer.{Buffer, readable_bytes, contents}
use sznet.Buffer.Words.{network}
use sznet.Buffer.Sample.{sample, big_host, big_host-IsDocumented}
use sznet.Buffer.Room
use sznet.TcpConnection.{Failure, other}
use sznet.KcpConnection.{Handlers}
use sznet.KcpConnection.Library.{Kcp, again}
use sznet.KcpTcpEventLoop.{
  TcpRef, KcpTcpEventLoop, assert_vessels, drop_tcp, remove_tcp_connection_in_loop,
}
use sznet.KcpTcpEventLoop.Handshake.{tcp_connection, handle_new_udp_message}
use sznet.KcpTcpEventLoop.Authentic.{Answered, handle_new_udp_message-Answered}
use sznet.KcpTcpEventLoop.Registered.{Registered}
use sznet.KcpTcpEventLoop.History.{Reachable, first, next, enters, tcp_ends, Reachable-Registered}
use sznet.KcpTcpEventLoop.Vessels.{remove_tcp_connection_in_loop-abort}

abbrev silent : Kcp ℕ
silent = record {
  create = λ conv. conv;
  nodelay = λ enable interval resend no_flow_control block. block;
  wndsize = λ snd_wnd rcv_wnd block. block;
  set_stream = λ s block. block;
  set_min_rto = λ r block. block;
  wait_snd = λ block. 0;
  send = λ block xs. (false, block);
  flush = λ block. ([], block);
  update = λ block t. ([], block);
  check = λ block t. t;
  input = λ block xs. block;
  recv = λ block room. (again, block);
}

abbrev all_set : Handlers
all_set = record { connection = true; message = true; complete = true; high_water = true }

-- The id 7 and the secret 9, in network order.
abbrev hand_shake : Buffer
hand_shake = record {
  cheap_prepend = 0;
  buffer = 0 ∷ 0 ∷ 0 ∷ 7 ∷ 0 ∷ 0 ∷ 0 ∷ 9 ∷ [];
  capacity = 8;
  reader_index = 0;
  writer_index = 8;
  wrap_size = 6;
}

hand_shake-IsValid : Room.IsValid hand_shake
hand_shake-IsValid = omega arith

hand_shake_bytes : contents hand_shake ≡ network 4 7 ++ network 4 9
unfolding contents readable_bytes sub_size network
hand_shake_bytes = refl

abbrev tcp : TcpRef
tcp = record { id = 7; serial = 0 }

abbrev tcp2 : TcpRef
tcp2 = record { id = 8; serial = 1 }

abbrev nothing_yet : KcpTcpEventLoop ℕ
nothing_yet = record {
  tcp_connections = [];
  kcp_connections = [];
  addr_conns = [];
  crypts = [];
  input = hand_shake;
  recv_bytes = 0;
  tasks = [];
  responses = [];
}

-- What a call leaves of the tables, if it returns.
abbrev left_by : Run (KcpTcpEventLoop ℕ) → KcpTcpEventLoop ℕ
left_by (ok s) = s
left_by r = nothing_yet

abbrev invited : KcpTcpEventLoop ℕ
invited = left_by (tcp_connection nothing_yet tcp true 9)

handle_new_udp_message-Answered_example :
    Ensures
      (Answered silent 1 sample (λ t. true) big_host invited 7 9 5)
      (handle_new_udp_message silent 1 sample (λ t. true) big_host invited 5)
unfolding tcp_connection
handle_new_udp_message-Answered_example =
    handle_new_udp_message-Answered silent 1 sample (λ t. true) big_host invited 7 9 5
      big_host-IsDocumented (omega arith) (omega arith) hand_shake-IsValid hand_shake_bytes

abbrev kind : ℕ → Failure
kind e = other

abbrev emptied : KcpTcpEventLoop ℕ
emptied = left_by (remove_tcp_connection_in_loop all_set invited tcp)

invited_run : tcp_connection nothing_yet tcp true 9 ≡ ok invited
unfolding tcp_connection
invited_run = refl

left_run : remove_tcp_connection_in_loop all_set invited tcp ≡ ok emptied
unfolding tcp_connection remove_tcp_connection_in_loop drop_tcp assert_vessels
left_run = refl

-- A client is invited and leaves.
history : Reachable all_set silent 1 sample big_host kind emptied
history = next (next (first hand_shake) (enters tcp true 9 invited_run)) (tcp_ends tcp left_run)

Reachable-Registered_example : Registered emptied
Reachable-Registered_example = Reachable-Registered all_set silent 1 sample big_host kind history

remove_tcp_connection_in_loop-abort_example :
    (do
      one ← tcp_connection nothing_yet tcp true 9
      two ← tcp_connection one tcp2 true 3
      remove_tcp_connection_in_loop all_set two tcp)
    ≡ abort
remove_tcp_connection_in_loop-abort_example =
    remove_tcp_connection_in_loop-abort nothing_yet tcp tcp2 refl refl refl refl refl all_set 9 3
      refl
