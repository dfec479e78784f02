-- ===== src/Connector.antt =====
-- sznet/net/Connector.h and Connector.cpp: a client's attempts to connect. What the system calls answer
-- is a parameter; the tasks that the loop was given run in their order.
pub mod Invariant
pub mod Sockets
pub mod Races
mod Tests
use sznet.Base.{ℕ, suc, ◌*◌, min, Bool, true, false, not, List, [], ◌∷◌, ◌++◌, if◌then◌else◌, ◌≡◌}
use sznet.Run.{Run, ok, ◌>>=◌, ◌>>◌, assert, within}

pub data State : Type 0 where
  disconnected connecting connected : State

-- What the error code of `connect` means: the attempt goes on, it is worth another one, or it is not.
pub data Attempt : Type 0 where
  goes_on try_later hopeless : Attempt

-- What is found when the socket becomes writable.
pub data Outcome : Type 0 where
  socket_error self_connect established : Outcome

pub data Task : Type 0 where
  start_task stop_task reset_task : Task

abbrev pub init_retry_delay_ms : ℕ
init_retry_delay_ms = 500

abbrev pub max_retry_delay_ms : ℕ
max_retry_delay_ms = 30000

-- `timers` counts the attempts that a timer will make. `created`, `closed` and `handed_over` count the
-- sockets.
pub record Connector : Type 0 where
  pub connect : Bool
  pub state : State
  pub retry_delay_ms : ℕ
  pub channel : Bool
  pub tasks : List Task
  pub timers : ℕ
  pub created : ℕ
  pub closed : ℕ
  pub handed_over : ℕ

abbrev pub new : Connector
new = record {
  connect = false;
  state = disconnected;
  retry_delay_ms = init_retry_delay_ms;
  channel = false;
  tasks = [];
  timers = 0;
  created = 0;
  closed = 0;
  handed_over = 0;
}

abbrev pub is_disconnected : State → Bool
is_disconnected disconnected = true
is_disconnected _ = false

abbrev pub is_connecting : State → Bool
is_connecting connecting = true
is_connecting _ = false

abbrev pub is_connected : State → Bool
is_connected connected = true
is_connected _ = false

abbrev pub close_socket : Connector → Connector
close_socket c = record c { closed = suc c.closed }

abbrev pub queue : Connector → Task → Connector
queue c t = record c { tasks = c.tasks ++ t ∷ [] }

pub retry : Connector → Connector
retry c =
    let down = record (close_socket c) { state = disconnected } in
    if c.connect
    then record down {
      timers = suc c.timers;
      retry_delay_ms = min (c.retry_delay_ms * 2) max_retry_delay_ms;
    }
    else down

pub start_connecting : Connector → Run Connector
start_connecting c = do assert (not c.channel); ok (record c { state = connecting; channel = true })

-- The channel is there still until the loop runs the task.
pub remove_and_reset_channel : Connector → Run Connector
remove_and_reset_channel c = do within c.channel; ok (queue c reset_task)

pub connect_socket : Connector → Attempt → Run Connector
connect_socket c a =
    let opened = record c { created = suc c.created } in
    elim a [
      | goes_on ↦ start_connecting opened
      | try_later ↦ ok (retry opened)
      | hopeless ↦ ok (close_socket opened)
    ]

pub start_in_loop : Connector → Attempt → Run Connector
start_in_loop c a = do
  assert (is_disconnected c.state)
  if c.connect then connect_socket c a else ok c

pub stop_in_loop : Connector → Run Connector
stop_in_loop c =
    let stopped : Run Connector = do
      removed ← remove_and_reset_channel (record c { state = disconnected })
      ok (retry removed)
    in if is_connecting c.state then stopped else ok c

-- In the thread of the loop the attempt is made at once.
pub start : Bool → Connector → Attempt → Run Connector
start in_loop_thread c a =
    let wanted = record c { connect = true } in
    if in_loop_thread then start_in_loop wanted a else ok (queue wanted start_task)

pub stop : Connector → Connector
stop c = queue (record c { connect = false }) stop_task

pub restart : Connector → Attempt → Run Connector
restart c a =
    start_in_loop
      (record c { state = disconnected; retry_delay_ms = init_retry_delay_ms; connect = true }) a

abbrev pub reset_channel : Connector → Connector
reset_channel c = record c { channel = false }

-- A socket that is connected goes to the client, if there is one still.
abbrev pub settle : Connector → Outcome → Connector
settle c socket_error = retry c
settle c self_connect = retry c
settle c established =
    if c.connect
    then record c { state = connected; handed_over = suc c.handed_over }
    else record (close_socket c) { state = connected }

pub handle_write : Connector → Outcome → Run Connector
handle_write c o =
    let settled : Run Connector = do removed ← remove_and_reset_channel c; ok (settle removed o)
    in if is_connecting c.state then settled else (assert (is_disconnected c.state) >> ok c)

pub handle_error : Connector → Run Connector
handle_error c =
    let failed : Run Connector = do removed ← remove_and_reset_channel c; ok (retry removed)
    in if is_connecting c.state then failed else ok c

pub run_task : Connector → Task → Attempt → Run Connector
run_task c start_task a = start_in_loop c a
run_task c stop_task a = stop_in_loop c
run_task c reset_task a = ok (reset_channel c)

-- The loop runs the next task, if there is one.
pub run_next : Connector → Attempt → Run Connector
run_next c a = elim c.tasks [ [] ↦ ok c | t ∷ ts ↦ run_task (record c { tasks = ts }) t a ]

-- A timer of a retry.
abbrev pub fire : Connector → ℕ → Attempt → Run Connector
fire c n a = start_in_loop (record c { timers = n }) a

pub data Step : Connector → Connector → Type 0 where
  starts :
      {c c' : Connector} (in_loop_thread : Bool) (a : Attempt)
      → start in_loop_thread c a ≡ ok c'
      → Step c c'
  stops : {c : Connector} → Step c (stop c)
  restarts :
      {c c' : Connector} (a : Attempt)
      → is_connected c.state ≡ true
      → restart c a ≡ ok c'
      → Step c c'
  runs : {c c' : Connector} (a : Attempt) → run_next c a ≡ ok c' → Step c c'
  fires :
      {c c' : Connector} (n : ℕ) (a : Attempt) → c.timers ≡ suc n → fire c n a ≡ ok c' → Step c c'
  writes : {c c' : Connector} (o : Outcome) → handle_write c o ≡ ok c' → Step c c'
  fails : {c c' : Connector} → handle_error c ≡ ok c' → Step c c'

pub data Reachable : Connector → Type 0 where
  first : Reachable new
  next : {c c' : Connector} → Reachable c → Step c c' → Reachable c'
