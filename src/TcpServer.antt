-- ===== src/TcpServer.antt =====
-- sznet/net/TcpServer.h and TcpServer.cpp: the connections of a server, in the thread of its loop. Memory is
-- managed by references, so a connection is named by its number.
pub mod Ids
pub mod Removal
mod Tests
use sznet.Base.{ℕ, suc, ◌%◌, ◌^◌, ◌+◌, ◌≡◌, Bool, List, [], ◌∷◌, ◌++◌, ◌==◌, if◌then◌else◌}
use sznet.Run.{Run, ok, ◌>>=◌, ◌>>◌, assert}
use sznet.EventLoopThreadPool.{EventLoopThreadPool, get_next_loop}

-- A connection, with its `m_id` and its loop.
pub record Connection : Type 0 where
  pub id : ℕ
  pub loop : ℕ
  pub serial : ℕ

-- What the server gives to the loop of a connection.
pub data Task : Type 0 where
  connect_established connect_destroyed : Connection → Task

-- `connections` is the map from ids, and `accepted` counts the connections.
pub record TcpServer : Type 0 where
  pub pool : EventLoopThreadPool
  pub next_conn_id : ℕ
  pub connections : List (ℕ × Connection)
  pub tasks : List Task
  pub accepted : ℕ

abbrev pub new : EventLoopThreadPool → TcpServer
new pool = record { pool = pool; next_conn_id = 1; connections = []; tasks = []; accepted = 0 }

-- `m_connections[id] = conn`
abbrev pub set_connection : ℕ → Connection → List (ℕ × Connection) → List (ℕ × Connection)
set_connection id conn [] = (id, conn) ∷ []
set_connection id conn ((key, c) ∷ rest) =
    let later = set_connection id conn rest in
    if key == id then (id, conn) ∷ rest else (key, c) ∷ later

-- `erase`, with the number of connections that it removed
abbrev pub erase : ℕ → List (ℕ × Connection) → ℕ × List (ℕ × Connection)
erase id [] = (0, [])
erase id ((key, c) ∷ rest) =
    let (n, kept) = erase id rest in if key == id then (1, rest) else (n, (key, c) ∷ kept)

abbrev pub make_connection : TcpServer → ℕ → Connection
make_connection s loop = record { id = s.next_conn_id; loop = loop; serial = s.accepted }

abbrev pub keep_connection : TcpServer → EventLoopThreadPool → Connection → TcpServer
keep_connection s pool conn = record {
  pool = pool;
  next_conn_id = suc s.next_conn_id % 2 ^ 32;
  connections = set_connection conn.id conn s.connections;
  tasks = s.tasks ++ connect_established conn ∷ [];
  accepted = suc s.accepted;
}

pub new_connection : TcpServer → Run (Connection × TcpServer)
new_connection s = do
  (loop, pool) ← get_next_loop s.pool
  let conn = make_connection s loop
  ok (conn, keep_connection s pool conn)

pub remove_connection_in_loop : TcpServer → Connection → Run TcpServer
remove_connection_in_loop s conn = do
  let (n, rest) = erase conn.id s.connections
  assert (n == 1)
  ok (record s { connections = rest; tasks = s.tasks ++ connect_destroyed conn ∷ [] })

-- A step of the server, with the connections that were not closed before and after it. Each calls its
-- close callback once at most.
pub data Step : TcpServer → List Connection → TcpServer → List Connection → Type 0 where
  accepts :
      {s s' : TcpServer} {open_ : List Connection} {conn : Connection}
      → new_connection s ≡ ok (conn, s')
      → Step s open_ s' (open_ ++ conn ∷ [])
  removes :
      {s s' : TcpServer} (front back : List Connection) (conn : Connection)
      → remove_connection_in_loop s conn ≡ ok s'
      → Step s (front ++ conn ∷ back) s' (front ++ back)

pub data Reachable (pool : EventLoopThreadPool) : TcpServer → List Connection → Type 0 where
  start : Reachable pool (new pool) []
  next :
      {s s' : TcpServer} {open_ open' : List Connection}
      → Reachable pool s open_
      → Step s open_ s' open'
      → Reachable pool s' open'
