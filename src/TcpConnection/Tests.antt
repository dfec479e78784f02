-- ===== src/TcpConnection/Tests.antt =====
-- The theorems about sznet/net/TcpConnection.cpp at a concrete connection.
use sznet.Base.{
  ℕ, ◌≡◌, refl, false, true, List, [], ◌∷◌, ◌++◌, ◌==◌, if◌then◌else◌, arith, sub_size,
}
use sznet.Run.{Run, ok, Ensures}
use sznet.Buffer.{Buffer, readable_bytes, retrieve, retrieve_all}
use sznet.Buffer.Read.{Received, bytes, failed}
use sznet.Buffer.Sample.{exact, exact_enough, sample, sample-IsValid}
use sznet.Channel.{read_event}
use sznet.TcpConnection.{
  TcpConnection, connected, is_connecting, accepts, interrupted, would_block, Failure, eintr,
  eagain, other, Handlers, new, send_in_loop, handle_write, handle_read, shutdown, finish_send,
  write_direct, drained, handle_write_loop,
}
use sznet.TcpConnection.Invariant.{IsValid, Sent}
use sznet.TcpConnection.Sending.{taken_over, send_in_loop-Sent}
use sznet.TcpConnection.Writing.{Flushed, handle_write-Flushed}
use sznet.TcpConnection.Answers.{Read, calls, arrived, ending}
use sznet.TcpConnection.Reading.{handle_read-Read}
use sznet.TcpConnection.Forward.{Kept}
use sznet.TcpConnection.History.{Reach, here, next, sends, writes, shuts, Reach-Kept}

abbrev all_set : Handlers
all_set = record { connection = true; complete = true; high_water = true }

abbrev empty : Buffer
empty = record sample { writer_index = 2 }

-- Connected, with four bytes in the input.
abbrev idle : TcpConnection
idle = record (new sample empty) { state = connected; events = read_event; added = true }

idle-IsValid : IsValid idle
unfolding readable_bytes sub_size
idle-IsValid = record {
  output = omega arith;
  input = sample-IsValid;
  place = omega arith;
  writes = refl;
  early = λ e. refl;
}

-- Two bytes wait to be written.
abbrev busy : TcpConnection
busy = record idle { output = record sample { writer_index = 4 }; events = 9 }

busy-IsValid : IsValid busy
unfolding readable_bytes sub_size
busy-IsValid = record {
  output = omega arith;
  input = sample-IsValid;
  place = omega arith;
  writes = refl;
  early = λ e. absurd (ground (arith, e));
}

-- The codes of `EINTR` and `EAGAIN` on Linux.
abbrev linux : ℕ → Failure
linux e = if e == 4 then eintr else (if e == 11 then eagain else other)

abbrev message : List ℕ
message = 1 ∷ 2 ∷ 3 ∷ []

send_in_loop-Sent_example :
    Ensures
      (Sent idle (taken_over idle (accepts 1) message))
      (send_in_loop all_set exact idle (accepts 1) message)
send_in_loop-Sent_example =
    send_in_loop-Sent all_set exact exact_enough idle (accepts 1) message idle-IsValid refl

handle_write-Flushed_example :
    Ensures
      (Flushed busy)
      (handle_write all_set busy ((interrupted ∷ accepts 0 ∷ []) ++ would_block ∷ []))
handle_write-Flushed_example =
    handle_write-Flushed all_set (interrupted ∷ accepts 0 ∷ []) busy busy-IsValid

-- Two bytes, an interruption, a third byte, and the end.
abbrev answers : List Received
answers = bytes (7 ∷ 8 ∷ []) ∷ failed 4 ∷ bytes (9 ∷ []) ∷ bytes [] ∷ []

handle_read-Read_example :
    Ensures
      (Read all_set idle (arrived linux answers) (ending linux answers))
      (handle_read all_set exact linux (calls answers 11) idle)
handle_read-Read_example =
    handle_read-Read all_set exact exact_enough linux 11 refl answers idle idle-IsValid refl
      (omega arith)

-- What a call leaves of a connection, if it returns.
abbrev left_by : Run TcpConnection → TcpConnection
left_by (ok c) = c
left_by r = idle

abbrev written : TcpConnection
written = left_by (handle_write all_set busy ((accepts 0 ∷ accepts 9 ∷ []) ++ would_block ∷ []))

abbrev sent : TcpConnection
sent = left_by (send_in_loop all_set exact written (accepts 9) message)

written_run :
    handle_write all_set busy ((accepts 0 ∷ accepts 9 ∷ []) ++ would_block ∷ []) ≡ ok written
unfolding handle_write handle_write_loop drained retrieve retrieve_all readable_bytes sub_size
written_run = refl

sent_run : send_in_loop all_set exact written (accepts 9) message ≡ ok sent
unfolding handle_write handle_write_loop drained retrieve retrieve_all readable_bytes sub_size
    send_in_loop finish_send write_direct
sent_run = refl

up : is_connecting written.state ≡ false
unfolding handle_write handle_write_loop drained retrieve retrieve_all readable_bytes sub_size
up = refl

-- The socket takes what waited, a message is sent, and the client shuts the connection down.
history :
    Reach all_set exact exact_enough linux 11 refl busy
      (([] ++ taken_over written (accepts 9) message) ++ [])
      (shutdown true sent)
history =
    next
      (next (next here (writes (accepts 0 ∷ accepts 9 ∷ []) written_run))
        (sends (accepts 9) message up sent_run))
      (shuts true)

Reach-Kept_example :
    Kept busy (([] ++ taken_over written (accepts 9) message) ++ []) (shutdown true sent)
Reach-Kept_example = Reach-Kept all_set exact exact_enough linux 11 refl history busy-IsValid
