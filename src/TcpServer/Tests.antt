-- ===== src/TcpServer/Tests.antt =====
-- The theorem about sznet/net/TcpServer.cpp at a concrete history.
use sznet.Base.{refl, true, [], ◌∷◌, ◌++◌, arith}
use sznet.Run.{Ensures}
use sznet.EventLoopThreadPool.{EventLoopThreadPool, get_next_loop, element}
use sznet.TcpServer.{
  Connection, TcpServer, new, new_connection, keep_connection, remove_connection_in_loop, Reachable,
  start, next, accepts,
}
use sznet.TcpServer.Removal.{Removed, remove_connection_in_loop-Removed}

abbrev pool : EventLoopThreadPool
pool = record { base_loop = 0; started = true; num_threads = 2; next = 0; loops = 11 ∷ 12 ∷ [] }

abbrev first : Connection
first = record { id = 1; loop = 11; serial = 0 }

abbrev second : Connection
second = record { id = 2; loop = 12; serial = 1 }

abbrev one : TcpServer
one = keep_connection (new pool) (record pool { next = 1 }) first

abbrev two : TcpServer
two = keep_connection one pool second

at_two : Reachable pool two (first ∷ second ∷ [])
unfolding new_connection get_next_loop element
at_two = next (next start (accepts {conn = first} refl)) (accepts {conn = second} refl)

remove_connection_in_loop-Removed_example :
    Ensures (Removed two first ([] ++ second ∷ [])) (remove_connection_in_loop two first)
remove_connection_in_loop-Removed_example =
    remove_connection_in_loop-Removed [] (second ∷ []) first at_two (omega arith)
