-- ===== src/TcpConnection.antt =====
-- sznet/net/TcpConnection.h and TcpConnection.cpp, in the thread of its event loop.
-- The results of the system calls come as a schedule, one for each call; a call that needs more of
-- them has not ended on it. A callback is noted; what it does is another operation.
pub mod Invariant
pub mod Sending
pub mod Writing
pub mod Answers
pub mod Reading
pub mod Closing
pub mod Forward
pub mod History
mod Tests
use sznet.Base.{
  ℕ, suc, ◌+◌, ◌*◌, min, Bool, true, false, not, ◌&&◌, ◌||◌, List, [], ◌∷◌, ◌++◌, ltb, leb, ◌==◌,
  if◌then◌else◌, length, take, drop,
}
use sznet.Run.{Run, ok, out_of_fuel, ◌>>=◌, ◌>>◌, assert}
use sznet.Buffer.{Buffer, readable_bytes, contents, retrieve, retrieve_all}
use sznet.Buffer.Read.{Received, bytes, failed, readv_fd}
use sznet.Buffer
use sznet.Channel.{
  set, clear, none_event, read_event, write_event, is_reading, is_writing, is_none_event,
}

pub data State : Type 0 where
  disconnected connecting connected disconnecting : State

-- What the kernel does with a write: it takes a byte and at most as many more as there is room for, or
-- none at all, since it was interrupted, would block, or the connection is broken.
pub data Written : Type 0 where
  accepts : (more : ℕ) → Written
  interrupted would_block broken : Written

-- What an error of a read means.
pub data Failure : Type 0 where
  eintr eagain other : Failure

-- The tasks that the connection hands to its loop.
pub data Task : Type 0 where
  write_complete : Task
  high_water_mark : (size : ℕ) → Task
  send_task : List ℕ → Task
  shutdown_task force_close_task start_read_task stop_read_task : Task

pub data Upcall : Type 0 where
  connection_callback : State → Upcall
  message_callback : List ℕ → Upcall
  close_callback : Upcall

-- `tasks` and `upcalls` are in the order in which they came; `sent` are the bytes that the kernel took,
-- and `write_shut` tells whether the socket was shut for writing.
pub record TcpConnection : Type 0 where
  pub state : State
  pub reading : Bool
  pub events : ℕ
  pub added : Bool
  pub input : Buffer
  pub output : Buffer
  pub mark : ℕ
  pub sent_bytes : ℕ
  pub recv_bytes : ℕ
  pub sent : List ℕ
  pub write_shut : Bool
  pub tasks : List Task
  pub delayed : ℕ
  pub upcalls : List Upcall

-- Which of the optional callbacks are set.
pub record Handlers : Type 0 where
  pub connection : Bool
  pub complete : Bool
  pub high_water : Bool

abbrev pub is_connected : State → Bool
is_connected connected = true
is_connected _ = false

abbrev pub is_disconnected : State → Bool
is_disconnected disconnected = true
is_disconnected _ = false

abbrev pub is_connecting : State → Bool
is_connecting connecting = true
is_connecting _ = false

abbrev pub is_disconnecting : State → Bool
is_disconnecting disconnecting = true
is_disconnecting _ = false

-- `m_state == kConnected || m_state == kDisconnecting`
abbrev pub is_open : State → Bool
is_open s = is_connected s || is_disconnecting s

abbrev pub new : Buffer → Buffer → TcpConnection
new input output = record {
  state = connecting;
  reading = true;
  events = none_event;
  added = false;
  input = input;
  output = output;
  mark = 64 * 1024 * 1024;
  sent_bytes = 0;
  recv_bytes = 0;
  sent = [];
  write_shut = false;
  tasks = [];
  delayed = 0;
  upcalls = [];
}

abbrev pub queue : TcpConnection → Bool → Task → TcpConnection
queue c b t = record c { tasks = if b then c.tasks ++ t ∷ [] else c.tasks }

abbrev pub call : TcpConnection → Upcall → TcpConnection
call c u = record c { upcalls = c.upcalls ++ u ∷ [] }

abbrev pub call_set : TcpConnection → Bool → Upcall → TcpConnection
call_set c b u = record c { upcalls = if b then c.upcalls ++ u ∷ [] else c.upcalls }

-- All that has come was read.
abbrev pub deliver : TcpConnection → TcpConnection
deliver c = call c (message_callback (contents c.input))

pub shutdown_in_loop : TcpConnection → TcpConnection
shutdown_in_loop c = if is_writing c.events then c else record c { write_shut = true }

-- The update of the poller marks the channel as added.
abbrev pub ask : TcpConnection → ℕ → TcpConnection
ask c events = record c { events = events; added = true }

module _ (h : Handlers) where
  -- How many bytes went out, whether the connection is broken, and the connection after a first
  -- write.
  pub write_direct : TcpConnection → Written → List ℕ → ℕ × Bool × TcpConnection
  write_direct c (accepts more) message =
      let nwrote = min (suc more) (length message) in
      let taken = record c {
        sent = c.sent ++ take nwrote message;
        sent_bytes = c.sent_bytes + nwrote;
      } in
      (nwrote, false, queue taken (nwrote == length message && h.complete) write_complete)
  write_direct c interrupted message = (0, false, c)
  write_direct c would_block message = (0, false, c)
  write_direct c broken message = (0, true, c)

  pub handle_close : TcpConnection → Run TcpConnection
  handle_close c = do
    assert (is_open c.state)
    let closed = ask (record c { state = disconnected }) none_event
    ok (call (call_set closed h.connection (connection_callback disconnected)) close_callback)

  -- The output is empty: nothing more is to be written.
  pub drained : TcpConnection → TcpConnection
  drained c =
      let quiet = queue (ask c (clear c.events write_event)) h.complete write_complete in
      if is_disconnecting c.state then shutdown_in_loop quiet else quiet

  pub handle_write_loop : List Written → TcpConnection → Run TcpConnection
  handle_write_loop [] c = if readable_bytes c.output == 0 then ok c else out_of_fuel
  handle_write_loop (accepts more ∷ ws) c =
      let n = min (suc more) (readable_bytes c.output) in
      let round : Run TcpConnection = do
        output ← retrieve c.output n
        let taken = record c {
          output = output;
          sent = c.sent ++ take n (contents c.output);
          sent_bytes = c.sent_bytes + n;
        }
        handle_write_loop ws (if readable_bytes output == 0 then drained taken else taken)
      in if readable_bytes c.output == 0 then ok c else round
  handle_write_loop (interrupted ∷ ws) c =
      let again = handle_write_loop ws c in if readable_bytes c.output == 0 then ok c else again
  handle_write_loop (would_block ∷ ws) c = ok c
  handle_write_loop (broken ∷ ws) c = if readable_bytes c.output == 0 then ok c else handle_close c

  pub handle_write : TcpConnection → List Written → Run TcpConnection
  handle_write c ws = if is_writing c.events then handle_write_loop ws c else ok c

  pub force_close_in_loop : TcpConnection → Run TcpConnection
  force_close_in_loop c = if is_open c.state then handle_close c else ok c

  pub connect_established : TcpConnection → Run TcpConnection
  connect_established c = do
    assert (is_connecting c.state)
    let up = ask (record c { state = connected }) (set c.events read_event)
    ok (call_set up h.connection (connection_callback connected))

  -- The callback is called whether it is set or not, and the removal of the channel asserts that it asks
  -- for nothing.
  pub connect_destroyed : TcpConnection → Run TcpConnection
  connect_destroyed c = do
    assert (not (is_connected c.state) || h.connection)
    let down =
        if is_connected c.state
        then call (ask (record c { state = disconnected }) none_event)
            (connection_callback disconnected)
        else c
    assert (is_none_event down.events)
    ok (record down { added = false })

  -- One round of the loop of `handleRead`, before the `next` one. `kind` classifies an error.
  pub after_read :
      (ℕ → Failure)
      → (TcpConnection → Run TcpConnection)
      → TcpConnection
      → Received
      → Run TcpConnection
  after_read kind next got (bytes []) = handle_close got
  after_read kind next got (bytes (x ∷ xs)) =
      next (record got { recv_bytes = got.recv_bytes + length (x ∷ xs) })
  after_read kind next got (failed e) = elim (kind e) [
    | eintr ↦ next got
    | eagain ↦ ok (deliver got)
    | other ↦ handle_close got >>= λ closed. ok (deliver closed)
  ]

  module _ (grow : ℕ → ℕ → ℕ) where
    -- What is left of a message goes to the output.
    pub keep_rest : TcpConnection → List ℕ → Run TcpConnection
    keep_rest c rest = do
      let size = readable_bytes c.output + length rest
      let over = leb c.mark size && (ltb (readable_bytes c.output) c.mark && h.high_water)
      let told = queue c over (high_water_mark size)
      output ← Buffer.append grow c.output rest
      let kept = record told { output = output }
      ok (if is_writing c.events then kept else ask kept (set c.events write_event))

    pub finish_send : List ℕ → ℕ × Bool × TcpConnection → Run TcpConnection
    finish_send message (nwrote, fault_error, c) =
        let rest = drop nwrote message in
        if not fault_error && ltb 0 (length rest) then keep_rest c rest else ok c

    pub send_in_loop : TcpConnection → Written → List ℕ → Run TcpConnection
    send_in_loop c w message =
        let direct = not (is_writing c.events) && readable_bytes c.output == 0 in
        if is_disconnected c.state
        then ok c
        else finish_send message (if direct then write_direct c w message else (0, false, c))

    -- In another thread the message is copied and handed to the loop.
    pub send : Bool → TcpConnection → Written → List ℕ → Run TcpConnection
    send in_loop_thread c w message =
        if is_connected c.state
        then (if in_loop_thread
            then send_in_loop c w message
            else ok (queue c true (send_task message)))
        else ok c

    pub send_buffer : Bool → TcpConnection → Written → Buffer → Run (TcpConnection × Buffer)
    send_buffer in_loop_thread c w b = do
      c' ← send in_loop_thread c w (contents b)
      ok (c', if is_connected c.state then retrieve_all b else b)

    pub shrink_in_loop : TcpConnection → ℕ → ℕ → Run TcpConnection
    shrink_in_loop c send_size recv_size = do
      output ← if ltb 0 send_size then Buffer.shrink grow c.output send_size else ok c.output
      input ← if ltb 0 recv_size then Buffer.shrink grow c.input recv_size else ok c.input
      ok (record c { output = output; input = input })

    pub handle_read : (ℕ → Failure) → List (List ℕ → Received) → TcpConnection → Run TcpConnection
    handle_read kind [] c = out_of_fuel
    handle_read kind (readv ∷ rs) c = do
      (result, input) ← readv_fd grow readv c.input
      after_read kind (λ got. handle_read kind rs got) (record c { input = input }) result

-- The methods that any thread may call. A task runs at once in the thread of the loop.
pub start_read_in_loop : TcpConnection → TcpConnection
start_read_in_loop c =
    if not c.reading || not (is_reading c.events)
    then record (ask c (set c.events read_event)) { reading = true }
    else c

pub stop_read_in_loop : TcpConnection → TcpConnection
stop_read_in_loop c =
    if c.reading || is_reading c.events
    then record (ask c (clear c.events read_event)) { reading = false }
    else c

pub shutdown : Bool → TcpConnection → TcpConnection
shutdown in_loop_thread c =
    let leaving = record c { state = disconnecting } in
    if is_connected c.state
    then (if in_loop_thread then shutdown_in_loop leaving else queue leaving true shutdown_task)
    else c

pub force_close : TcpConnection → TcpConnection
force_close c =
    if is_open c.state then queue (record c { state = disconnecting }) true force_close_task else c

-- A timer will call `forceClose`.
pub force_close_with_delay : TcpConnection → TcpConnection
force_close_with_delay c =
    if is_open c.state then record c { state = disconnecting; delayed = suc c.delayed } else c
