-- ===== src/TcpServer/Removal.antt =====
-- What `removeConnectionInLoop` of sznet/net/TcpServer.cpp finds.
use sznet.Base.{
  ℕ, suc, ◌<◌, ◌≤◌, ◌%◌, ◌^◌, ◌≡◌, refl, ap, ◌∙◌, subst, List, [], ◌∷◌, ◌++◌, ◌==◌, arith,
}
use sznet.Run.{ok, Ensures, returned, Ensures_of_ok, assert_ok, bind_ok}
use sznet.EventLoopThreadPool.{EventLoopThreadPool, get_next_loop}
use sznet.TcpServer.{
  Connection, connect_destroyed, TcpServer, make_connection, keep_connection, set_connection, erase,
  new_connection, remove_connection_in_loop, accepts, removes, Reachable, start, next,
}
use sznet.TcpServer.Ids.{
  entries, Ascending, Ascending-append, Ascending-remove, set_connection-entries, erase-entries,
}

-- The map has the connections that are open, under ids that go up as they came.
pub record IsValid (s : TcpServer) (open_ : List Connection) : Type 0 where
  pub map : s.connections ≡ entries open_
  pub ids : Ascending 1 open_ (suc s.accepted)
  pub next : s.next_conn_id ≡ suc s.accepted % 2 ^ 32

kept-IsValid :
    (s : TcpServer) (open_ : List Connection) (loop : ℕ) (pool : EventLoopThreadPool)
    → IsValid s open_
    → suc s.accepted < 2 ^ 32
    → IsValid
        (keep_connection s pool (make_connection s loop))
        (open_ ++ make_connection s loop ∷ [])
kept-IsValid s open_ loop pool v room =
    let id : s.next_conn_id ≡ suc s.accepted = omega (arith, v.next, room) in
    let conn = make_connection s loop in
    let above : suc s.accepted ≤ conn.id = omega (arith, id) in
    record {
      map =
          ap (set_connection conn.id conn) v.map
          ∙ set_connection-entries 1 (suc s.accepted) open_ conn v.ids above;
      ids =
          subst (λ n. Ascending 1 (open_ ++ conn ∷ []) (suc n)) id
            (Ascending-append 1 (suc s.accepted) open_ conn v.ids above);
      next = ap (λ n. suc n % 2 ^ 32) id;
    }

-- `s'` is `s` without a connection, whose end was given to its loop.
pub record Removed (s : TcpServer) (conn : Connection) (open_ : List Connection) (s' : TcpServer)
    : Type 0 where
  pub valid : IsValid s' open_
  pub tasks : s'.tasks ≡ s.tasks ++ connect_destroyed conn ∷ []
  pub accepted : s'.accepted ≡ s.accepted

remove-Removed :
    (s : TcpServer) (front back : List Connection) (conn : Connection)
    → IsValid s (front ++ conn ∷ back)
    → Ensures (Removed s conn (front ++ back)) (remove_connection_in_loop s conn)
unfolding remove_connection_in_loop
remove-Removed s front back conn v =
    rw (v.map, erase-entries 1 (suc s.accepted) front back conn v.ids)
      (returned (record {
        valid = record {
          map = refl;
          ids = Ascending-remove 1 (suc s.accepted) front back conn v.ids;
          next = v.next;
        };
        tasks = refl;
        accepted = refl;
      }))

remove-accepted :
    (s s' : TcpServer) (conn : Connection)
    → remove_connection_in_loop s conn ≡ ok s'
    → s'.accepted ≡ s.accepted
unfolding remove_connection_in_loop
remove-accepted s s' conn e =
    let (found, done) = assert_ok ((erase conn.id s.connections).0 == 1) e in
    Ensures_of_ok {P = λ t. t.accepted ≡ s.accepted} done (returned refl)

Reachable-IsValid :
    {pool : EventLoopThreadPool} {s : TcpServer} {open_ : List Connection}
    → Reachable pool s open_
    → s.accepted < 2 ^ 32
    → IsValid s open_
unfolding new_connection
Reachable-IsValid start h = record { map = refl; ids = omega arith; next = omega arith }
Reachable-IsValid (next {s} {s'} {open_} r (accepts e)) h =
    let ((loop, pool), made, done) = bind_ok (get_next_loop s.pool) _ e in
    let count : s'.accepted ≡ suc s.accepted =
      Ensures_of_ok {P = λ (c, t). t.accepted ≡ suc s.accepted} done (returned refl) in
    let v = Reachable-IsValid r (omega (arith, count, h)) in
    Ensures_of_ok {P = λ (c, t). IsValid t (open_ ++ c ∷ [])} done
      (returned (kept-IsValid s open_ loop pool v (omega (arith, count, h))))
Reachable-IsValid (next {s} {s'} r (removes front back conn e)) h =
    let same = remove-accepted s s' conn e in
    (Ensures_of_ok e
      (remove-Removed s front back conn (Reachable-IsValid r (omega (arith, same, h))))).valid

-- After every history of new connections, fewer than 2^32, and of removals, each of a connection
-- that is open, removeConnectionInLoop of any connection that is open returns: its assertion
-- holds, the map has exactly the other open connections, under ids that go up in the order in
-- which they came, and connectDestroyed is given to a loop for this one.
pub remove_connection_in_loop-Removed :
    {pool : EventLoopThreadPool} {s : TcpServer} (front back : List Connection) (conn : Connection)
    → Reachable pool s (front ++ conn ∷ back)
    → s.accepted < 2 ^ 32
    → Ensures (Removed s conn (front ++ back)) (remove_connection_in_loop s conn)
remove_connection_in_loop-Removed {s = s} front back conn r h =
    remove-Removed s front back conn (Reachable-IsValid r h)
