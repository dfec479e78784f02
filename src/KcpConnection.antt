-- ===== src/KcpConnection.antt =====
-- sznet/net/KcpConnection.h and KcpConnection.cpp, in the thread of its event loop. KCP and what the
-- system answers are parameters; a callback is noted, and when a timer fires is any.
pub mod Library
pub mod Transfer
pub mod Core
pub mod Life
pub mod Closing
pub mod Sending
pub mod History
pub mod Timers
pub mod Answer
pub mod Delivery
mod Tests
use sznet.Base.{
  ℕ, suc, ◌+◌, ◌-◌, ◌*◌, ◌/◌, ◌%◌, ◌^◌, Bool, true, false, not, ◌&&◌, ◌||◌, Option, none, some,
  List, [], ◌∷◌, ◌++◌, ltb, leb, ◌==◌, if◌then◌else◌, length,
}
use sznet.Run.{Run, ok, abort, fault, out_of_fuel, ◌>>=◌, ◌>>◌, assert}
use sznet.Buffer.{
  Buffer, readable_bytes, writable_bytes, contents, retrieve_all, write_at, has_written,
}
use sznet.Buffer.Read.{Received, bytes, failed, recv_from}
use sznet.Buffer.Words.{Host, read_int}
use sznet.Buffer.Words
use sznet.Buffer
use sznet.TcpConnection.{Failure, eintr, eagain, other}
use sznet.KcpConnection.Library.{Kcp, Recv, again, too_small, received}

pub data State : Type 0 where
  disconnected delay_disconnecting disconnecting connecting connected : State

pub record KcpSettings : Type 0 where
  pub no_delay : ℕ
  pub interval : ℕ
  pub resend : ℕ
  pub no_flow_control : ℕ
  pub mtu : ℕ
  pub snd_wnd : ℕ
  pub rcv_wnd : ℕ
  pub min_rto : ℕ
  pub is_stream : ℕ

abbrev kcp_settings : (no_delay interval resend no_flow_control min_rto : ℕ) → KcpSettings
kcp_settings no_delay interval resend no_flow_control min_rto = record {
  no_delay = no_delay;
  interval = interval;
  resend = resend;
  no_flow_control = no_flow_control;
  mtu = 1500 - 2 - 8;
  snd_wnd = 256;
  rcv_wnd = 512;
  min_rto = min_rto;
  is_stream = 1;
}

abbrev pub normal_kcp_set : KcpSettings
normal_kcp_set = kcp_settings 0 40 0 0 50

abbrev pub quick_kcp_set : KcpSettings
quick_kcp_set = kcp_settings 1 10 2 1 50

-- So many bytes may wait to be sent.
abbrev pub threshold : KcpSettings → ℕ
threshold s = s.snd_wnd * s.mtu * 2

-- A time in microseconds, as the number of milliseconds that KCP is given.
abbrev pub milliseconds : ℕ → ℕ
milliseconds now = now / 1000 % 2 ^ 32

-- What a timer of the loop calls.
pub data TimerTask : Type 0 where
  update_manual send_verify delayed_close : TimerTask

-- The tasks that the connection hands to its loop.
pub data Task : Type 0 where
  write_complete : Task
  high_water_mark : (size : ℕ) → Task
  send_task : List ℕ → Task
  force_close_task : Task

-- The close callback gets the state before.
pub data Upcall : Type 0 where
  connection_callback : State → Upcall
  message_callback : List ℕ → Upcall
  close_callback : State → Upcall

-- `timers` are those of the loop that call the connection, each under its id. `given` are the bytes
-- that KCP was given to send, and `datagrams` those that went to the socket.
pub record KcpConnection (Cb : Type 0) : Type 0 where
  pub is_client : Bool
  pub id : ℕ
  pub secret_id : ℕ
  pub state : State
  pub peer : Option ℕ
  pub kcp : Option Cb
  pub settings : KcpSettings
  pub input : Buffer
  pub output : Buffer
  pub mark : ℕ
  pub sent_bytes : ℕ
  pub update_timer : Option ℕ
  pub verify_timer : Option ℕ
  pub timers : List (ℕ × TimerTask)
  pub next_timer : ℕ
  pub given : List ℕ
  pub datagrams : List (List ℕ)
  pub tasks : List Task
  pub upcalls : List Upcall

-- Which of the callbacks are set.
pub record Handlers : Type 0 where
  pub connection : Bool
  pub message : Bool
  pub complete : Bool
  pub high_water : Bool

abbrev pub is_connected : State → Bool
is_connected connected = true
is_connected _ = false

abbrev pub is_connecting : State → Bool
is_connecting connecting = true
is_connecting _ = false

-- `m_state == kDisconnected || m_state == kConnecting`
abbrev pub is_down : State → Bool
is_down disconnected = true
is_down connecting = true
is_down _ = false

-- `m_state == kConnected || m_state == kConnecting`
abbrev pub is_alive : State → Bool
is_alive s = is_connected s || is_connecting s

-- `m_state == kConnected || m_state == kConnecting || m_state == kDelayDisconnecting`
abbrev pub is_closable : State → Bool
is_closable delay_disconnecting = true
is_closable s = is_alive s

-- `m_state == kConnected || m_state == kConnecting || m_state == kDisconnecting`
abbrev pub is_ending : State → Bool
is_ending disconnecting = true
is_ending s = is_alive s

abbrev pub is_none {ℓ} : {A : Type ℓ} → Option A → Bool
is_none none = true
is_none (some a) = false

-- A null pointer may not be followed.
abbrev pub follow {ℓ} : {A : Type ℓ} → Option A → Run A
follow none = fault
follow (some a) = ok a

abbrev pub without : ℕ → List (ℕ × TimerTask) → List (ℕ × TimerTask)
without id [] = []
without id ((key, t) ∷ rest) =
    let kept = without id rest in if key == id then kept else (key, t) ∷ kept

-- `m_loop->cancel`, of a timer that was never set also
abbrev pub disarm : Option ℕ → List (ℕ × TimerTask) → List (ℕ × TimerTask)
disarm none ts = ts
disarm (some id) ts = without id ts

module _ {Cb : Type 0} where
  abbrev pub new : Bool → (id secret_id kcp_mode : ℕ) → Buffer → Buffer → KcpConnection Cb
  new is_client id secret_id kcp_mode input output = record {
    is_client = is_client;
    id = id;
    secret_id = secret_id;
    state = disconnected;
    peer = none;
    kcp = none;
    settings = if kcp_mode == 1 then normal_kcp_set else quick_kcp_set;
    input = input;
    output = output;
    mark = 64 * 1024 * 1024;
    sent_bytes = 0;
    update_timer = none;
    verify_timer = none;
    timers = [];
    next_timer = 0;
    given = [];
    datagrams = [];
    tasks = [];
    upcalls = [];
  }

  abbrev pub set_state : KcpConnection Cb → State → KcpConnection Cb
  set_state c s = record c { state = s }

  abbrev pub set_peer_addr : KcpConnection Cb → ℕ → KcpConnection Cb
  set_peer_addr c address = record c { peer = some address }

  abbrev pub queue : KcpConnection Cb → Bool → Task → KcpConnection Cb
  queue c b t = record c { tasks = if b then c.tasks ++ t ∷ [] else c.tasks }

  abbrev pub call : KcpConnection Cb → Upcall → KcpConnection Cb
  call c u = record c { upcalls = c.upcalls ++ u ∷ [] }

  -- `runAt`, `runAfter` or `runEvery`; the id is `c.next_timer`.
  abbrev pub run_at : KcpConnection Cb → TimerTask → KcpConnection Cb
  run_at c t = record c {
    timers = c.timers ++ (c.next_timer, t) ∷ [];
    next_timer = suc c.next_timer;
  }

  abbrev pub cancel : KcpConnection Cb → Option ℕ → KcpConnection Cb
  cancel c timer = record c { timers = disarm timer c.timers }

  abbrev pub arm_update : KcpConnection Cb → KcpConnection Cb
  arm_update c = record (run_at c update_manual) { update_timer = some c.next_timer }

  abbrev pub transmit : KcpConnection Cb → List ℕ → KcpConnection Cb
  transmit c packet = record c { datagrams = c.datagrams ++ packet ∷ [] }

  -- A failed send is logged only.
  pub kcp_output : KcpConnection Cb → List ℕ → Run (KcpConnection Cb)
  kcp_output c packet = do
    assert (is_connected c.state)
    assert (not (is_none c.peer))
    ok (transmit c packet)

  pub kcp_output_all : KcpConnection Cb → List (List ℕ) → Run (KcpConnection Cb)
  kcp_output_all c [] = ok c
  kcp_output_all c (p ∷ ps) = do c' ← kcp_output c p; kcp_output_all c' ps

  pub force_close : KcpConnection Cb → KcpConnection Cb
  force_close c =
      if is_closable c.state then queue (set_state c disconnecting) true force_close_task else c

  pub force_close_with_delay : KcpConnection Cb → KcpConnection Cb
  force_close_with_delay c =
      if is_alive c.state then run_at (set_state c delay_disconnecting) delayed_close else c

  pub udp_send_hand_shake_timer : KcpConnection Cb → KcpConnection Cb
  udp_send_hand_shake_timer c = record (run_at c send_verify) { verify_timer = some c.next_timer }

  module _ (h : Handlers) where
    -- A callback that is not set cannot be called.
    abbrev pub notify : KcpConnection Cb → Run (KcpConnection Cb)
    notify c = do assert h.connection; ok (call c (connection_callback c.state))

    -- The id of the first timer is not kept.
    pub connect_established : KcpConnection Cb → Run (KcpConnection Cb)
    connect_established c = do
      assert (is_connecting c.state)
      up ← notify (set_state c connected)
      ok (run_at (cancel up up.update_timer) update_manual)

    pub handle_kcp_close : KcpConnection Cb → Run (KcpConnection Cb)
    handle_kcp_close c = do
      assert (is_ending c.state)
      let closed = set_state c disconnected
      let quiet = cancel (cancel closed closed.update_timer) closed.verify_timer
      told ← notify quiet
      ok (call told (close_callback c.state))

    pub force_close_in_loop : KcpConnection Cb → Run (KcpConnection Cb)
    force_close_in_loop c = if is_ending c.state then handle_kcp_close c else ok c

    pub connect_destroyed : KcpConnection Cb → Run (KcpConnection Cb)
    connect_destroyed c = if is_connected c.state then notify (set_state c disconnected) else ok c
