-- ===== src/KcpConnection/Tests.antt =====
-- The theorems about sznet/net/KcpConnection.cpp at a concrete connection, with a KCP that sends at once
-- what it is given.
use sznet.Base.{
  some, ℕ, ◌≡◌, refl, true, false, List, [], ◌∷◌, leb, length, if◌then◌else◌, arith, sub_size,
  Bool-cases, inl, inr,
}
use sznet.Run.{Run, ok, abort, Ensures, ◌>>=◌}
use sznet.Buffer.{Buffer, readable_bytes, writable_bytes, contents}
use sznet.Buffer.Room
use sznet.Buffer.Room.{filled, append-ok}
use sznet.Buffer.Words.{network}
use sznet.Buffer.Sample.{exact, exact_enough, sample, big_host, big_host-IsDocumented}
use sznet.TcpConnection.{Failure, other}
use sznet.KcpConnection.{
  KcpConnection, Handlers, connecting, connected, update_manual, new, set_state, set_peer_addr,
  connect_established, handle_kcp_close, force_close_in_loop, force_close,
}
use sznet.KcpConnection.Library.{Kcp, Recv, again, too_small, received}
use sznet.KcpConnection.Transfer.{
  new_kcp, send, send_in_loop, keep_back, handle_kcp_message, handle_answer, fire,
}
use sznet.KcpConnection.Core.{changes}
use sznet.KcpConnection.Life.{Life, Held}
use sznet.KcpConnection.History.{
  Reach, here, next, established, sends, force_closes, force_closed, Reach-Life, Reach-Held,
}
use sznet.KcpConnection.Timers.{Leftover, connect_established-close-fire}
use sznet.KcpConnection.Answer.{answered, handle_answer-answered}
use sznet.KcpConnection.Delivery.{Fits, IsDocumented, Delivered, handle_kcp_message-Delivered}

abbrev take_all_of : List ℕ → ℕ → Recv × List ℕ
take_all_of [] room = (again, [])
take_all_of (x ∷ xs) room =
    if leb (length (x ∷ xs)) room then (received (x ∷ xs), []) else (too_small, x ∷ xs)

-- Its control block is the bytes of a message that has come.
abbrev direct : Kcp (List ℕ)
direct = record {
  create = λ conv. [];
  nodelay = λ enable interval resend no_flow_control block. block;
  wndsize = λ snd_wnd rcv_wnd block. block;
  set_stream = λ s block. block;
  set_min_rto = λ r block. block;
  wait_snd = λ block. 0;
  send = λ block xs. (false, xs);
  flush = λ block. (block ∷ [], []);
  update = λ block t. ([], block);
  check = λ block t. t;
  input = λ block xs. xs;
  recv = take_all_of;
}

take_all_of-Fits : (block : List ℕ) (room : ℕ) → Fits room (take_all_of block room).0
take_all_of-Fits [] room = tt
take_all_of-Fits (x ∷ xs) room = elim (Bool-cases (leb (length (x ∷ xs)) room)) [
  | inl e ↦ rw e (ground arith)
  | inr e ↦ rw e tt
]

direct-IsDocumented : IsDocumented direct 5000
direct-IsDocumented = record {
  next = λ block. omega arith;
  fits = λ block room small. take_all_of-Fits block room;
}

abbrev all_set : Handlers
all_set = record { connection = true; message = true; complete = true; high_water = true }

abbrev empty : Buffer
empty = record sample { writer_index = 2 }

empty-IsValid : Room.IsValid empty
empty-IsValid = omega arith

abbrev starting : KcpConnection (List ℕ)
starting = new_kcp direct (set_peer_addr (set_state (new false 7 9 1 empty empty) connecting) 1)

-- It is up, its first timer is armed, and of a window of two bytes all wait in the output.
abbrev up : KcpConnection (List ℕ)
up = record starting {
  state = connected;
  settings = record starting.settings { snd_wnd = 1; mtu = 1 };
  output = record sample { writer_index = 4 };
  timers = (0, update_manual) ∷ [];
  next_timer = 1;
}

up-IsValid : Room.IsValid up.output
up-IsValid = omega arith

-- What a call leaves of a connection, if it returns.
abbrev left_by : Run (KcpConnection (List ℕ)) → KcpConnection (List ℕ)
left_by (ok c) = c
left_by r = starting

abbrev established_one : KcpConnection (List ℕ)
established_one = left_by (connect_established all_set starting)

established_run : connect_established all_set starting ≡ ok established_one
unfolding connect_established
established_run = refl

abbrev closed_one : KcpConnection (List ℕ)
closed_one = left_by (force_close_in_loop all_set (force_close established_one))

closed_run : force_close_in_loop all_set (force_close established_one) ≡ ok closed_one
unfolding connect_established force_close_in_loop handle_kcp_close force_close
closed_run = refl

abbrev kind : ℕ → Failure
kind e = other

-- The connection is established, closed by its owner, and the loop runs the task.
life : Reach direct all_set exact exact_enough big_host kind starting closed_one
life = next (next (next here (established established_run)) force_closes) (force_closed closed_run)

Reach-Life_example : Life closed_one.state (changes closed_one.upcalls)
Reach-Life_example =
    Reach-Life direct all_set exact exact_enough big_host kind life empty-IsValid refl refl

abbrev sent : KcpConnection (List ℕ)
sent = record up { output = filled up.output (3 ∷ []) }

sent_run : send direct all_set exact true 5000 up (3 ∷ []) ≡ ok sent
unfolding send send_in_loop keep_back readable_bytes sub_size writable_bytes
sent_run = rw (append-ok exact exact_enough up.output (3 ∷ []) up-IsValid (omega arith)) refl

Reach-Held_example : Held up sent
Reach-Held_example =
    Reach-Held direct all_set exact exact_enough big_host kind
      (next here (sends true 5000 (3 ∷ []) sent_run)) up-IsValid

connect_established-close-fire_example :
    Ensures
      (λ d. Leftover 0 d × (fire direct all_set exact big_host 5000 d (0, update_manual) ≡ abort))
      (connect_established all_set starting >>= force_close_in_loop all_set)
connect_established-close-fire_example =
    connect_established-close-fire direct all_set exact big_host 5000 starting refl refl tt tt

-- The answer 1, in network order.
abbrev yes_answer : Buffer
yes_answer = record {
  cheap_prepend = 2;
  buffer = 0 ∷ 0 ∷ 0 ∷ 0 ∷ 0 ∷ 1 ∷ 0 ∷ 0 ∷ [];
  capacity = 8;
  reader_index = 2;
  writer_index = 6;
  wrap_size = 6;
}

one_in_bytes : contents yes_answer ≡ network 4 1
unfolding contents readable_bytes sub_size network
one_in_bytes = refl

handle_answer-answered_example :
    Ensures
      (λ c'. c' ≡ answered direct all_set big_host starting 1)
      (handle_answer direct all_set big_host starting yes_answer)
handle_answer-answered_example =
    handle_answer-answered direct all_set big_host starting yes_answer 1 refl big_host-IsDocumented
      (omega arith) (omega arith) one_in_bytes

handle_kcp_message-Delivered_example :
    Ensures
      (λ c'.
        Delivered up (take_all_of (4 ∷ []) (writable_bytes up.input)).0 c'
        × (c'.kcp ≡ some (take_all_of (4 ∷ []) (writable_bytes up.input)).1))
      (handle_kcp_message direct all_set 5000 up (4 ∷ []))
handle_kcp_message-Delivered_example =
    handle_kcp_message-Delivered direct 5000 (omega arith) direct-IsDocumented all_set up []
      (4 ∷ []) refl refl refl refl empty-IsValid (omega arith)
