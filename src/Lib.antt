-- ===== src/Lib.antt =====
-- sznet is a network library for C++: non-blocking TCP on an event loop, timers, logging and KCP over
-- UDP. This library models the parts of it that carry its own logic, as executable functions, and
-- proves what makes them correct.
--
-- The parts and how they interact. An event loop waits for sockets and timers, calls the handlers
-- of the connections in its thread, and then the functors that were queued. An acceptor takes the
-- clients that ask for a connection, and a server gives each new connection to a loop of a pool; a
-- connector makes the connections of a client. A connection reads into a Buffer and writes from one; a
-- codec cuts what was read into messages and puts the length before what is sent. A loop for KCP
-- keeps, beside its TCP connections, the KCP connections that clients opened by a handshake over
-- them. The loop asks its TimerQueue to run the timers that are due, and the queue keeps them in a
-- MinHeap; the callbacks of the timers may add and cancel timers. Every part logs through LogStream;
-- an AsyncLogging collects the lines, and its thread writes them to a LogFile.
--
-- Files and code:
-- - Base, Base/Lists, Base/Tests: names of the libraries passed on, lists measured by native numbers,
--   Boolean tests on numbers.
-- - Run: how a call ends. `ok` with a value, `abort` for a failed assert or LOG_FATAL, `fault` for an access
--   outside the memory that the code owns or an overflow of signed integers, `out_of_fuel` for a loop that was not given enough rounds.
--   `Ensures P r` says that `r` is `ok a` for an `a` with `P a`, so no theorem stated with it holds of
--   a call that does not return.
-- - Buffer and its children: sznet/net/Buffer.h and Buffer.cpp. A Buffer has the bytes of its vector,
--   its capacity and the two indices; each method of the class is the function of the same name in
--   snake case. `contents` is what a client sees. Bytes: memcpy and resize. Room: append,
--   ensureWritableBytes, makeSpace, wrapBuffer. Ends: retrieve and prepend. Words: integers, in the
--   byte order of a platform that is a parameter (Host). Search: findCRLF and findEOL. Read:
--   readvFd, readFd and recvFrom, with what the system call returns as a parameter that keeps to
--   the room it was given. Shrink: shrink.
-- - Codec and its children: sznet/net/Codec.h. `on_message` is LengthHeaderCodec::onMessage, `send`
--   is send. Stream: the format as a relation between bytes and messages. Refine: the code against
--   the format.
-- - MinHeap and its children: sznet/ds/MinHeap.h, with the array, the size, the capacity and the index
--   that every element keeps. Linked: the index of each element is its slot. Up and Down: shiftUp_ and
--   shiftDown_. Laws: push, erase and pop for a client, who sees a set of elements and their keys.
-- - TimerQueue and its children: sznet/time/Timer.h, Timer.cpp, TimerId.h, TimerQueue.h and
--   TimerQueue.cpp. The memory of the timers is a part of the state, so that a dangling pointer shows.
--   `cancel_in_loop`, `add_timer_in_loop` and `expired_process` are the methods of these names, with
--   NDEBUG as a parameter. Invariant: the heap, the active set and the memory agree. Requests:
--   addTimer and cancel. Calm: what callbacks ask for. Expiry and Drain: expiredProcess. Faults: a
--   timer cancelled under NDEBUG, and one that repeats at once.
-- - LogStream and its children: sznet/log/LogStream.h and LogStream.cpp. FixedBuffer is its bytes and
--   the position of `m_cur`. Digits: convert. Room: FixedBuffer::append and the operators for
--   integers. Pointer: convertHex and the operator for pointers.
-- - AsyncLogging and its children: sznet/log/AsyncLogging.cpp, for buffers of any size. A buffer is the
--   text in it. Filled: FixedBuffer::append and this text. Conserved: what becomes of the
--   lines. Stopped: the end of the thread.
-- - LogFile and its children: sznet/log/LogFile.cpp, and AppendFile of sznet/io/FileUtil.cpp. Written: the
--   loop of AppendFile::append. Rolled: the files that a log is spread over.
-- - StringPiece and its children: sznet/string/StringPiece.h. A piece is the memory from its pointer on and
--   a length; a comparison gives a sign. Ordered: orders of lists of bytes.
-- - Channel and its children: sznet/net/Channel.h and Channel.cpp. A set of events is its number.
--   Interest: what a channel asks for. Order: the callbacks of handleEvent.
-- - TcpConnection and its children: sznet/net/TcpConnection.h and TcpConnection.cpp, in the thread of
--   the loop. What the system calls answer is a schedule, one answer for each call. The callbacks and
--   the functors for the loop are noted in order. Invariant: what holds between two operations, and
--   the bytes that were taken over as one stream. Sending: sendInLoop. Writing: handleWrite. Answers
--   and Reading: handleRead. Closing: connectDestroyed. Forward and History: the operations in any order.
-- - KcpConnection and its children: sznet/net/KcpConnection.h and KcpConnection.cpp. Library: the calls
--   of KCP, as operations on a control block. Transfer: what calls KCP, from sendInLoop to
--   handleUdpMessage. Core, Life, Closing, Sending and History: the operations in any order, what they
--   report, and the output. Delivery: handleKcpMessage. Answer: the handshake of a client. Timers: what
--   is armed still when a connection closes.
-- - KcpTcpEventLoop and its children: sznet/net/KcpTcpEventLoop.h and KcpTcpEventLoop.cpp, and tcpConnection
--   of KcpWithTcpServer.cpp. The KCP connections stand in their table as KcpConnection describes them.
--   Table: maps as lists. Handshake: handleUdpRead and what it calls. Authentic: who is accepted.
--   Registered, Removal, Entered and History: what the tables promise about an address. Vessels: the
--   assertion on their sizes.
-- - EventLoop and its children: sznet/net/EventLoop.cpp. `advance` is the next thing that the thread of
--   the loop does, and Step a step of any thread: the push of queueInLoop and the wakeup of another
--   thread are two steps. Order: no functor is lost or overtakes another. Wakeup: when the poll would
--   wait while functors wait. Quit: the end of loop.
-- - EventLoopThreadPool and its children: sznet/net/EventLoopThreadPool.cpp. Rounds: whose turn it is.
-- - TcpServer and its children: sznet/net/TcpServer.cpp, on top of EventLoopThreadPool. A connection is
--   its id, its loop and its number. Ids: the map from ids. Removal: removeConnectionInLoop.
-- - Acceptor and its children: sznet/net/Acceptor.cpp, with accept of sznet/net/SocketsOps.cpp. Descriptors:
--   the system calls and what is assumed of them. Drained: the clients that wait.
-- - Connector and its children: sznet/net/Connector.cpp. The functors that it gives to the loop run in
--   their order, the timers of retry at any time. Invariant and Sockets: what becomes of the sockets
--   and of the channel. Races: a stop and a start.
-- - SelectPoller and its children: sznet/net/SelectPoller.cpp, with select as a parameter. The
--   channels stand in memory under their addresses, each with the index that it keeps. Watched: the
--   poller as a map from descriptors to events. Polling and Reported: poll and fillActiveChannels.
-- - ThreadPool and its children: sznet/thread/ThreadPool.cpp. Each function is what a thread does in
--   one go with the mutex held; Step is a step of any thread, and Reachable a history. Idle: what
--   reaches the queue.
-- The files called Tests hold runs and an instance of each theorem that has hypotheses.
--
-- Numbers. Sizes and indices of Buffer are size_t on a platform of 64 bits; they are natural numbers,
-- and where the code subtracts, `sub_size` wraps around. MinHeap computes in uint32_t: the wrap is
-- written out, and the invariant keeps the size below 2^31, where no sum or product wraps. The length
-- in a frame is the bit pattern of an int32_t: it is negative from 2^31 on. sendInLoop of
-- KcpConnection computes in int, kept as 2^31 more than it is. A time is below 2^63 microseconds: a
-- timer that is put off further is a fault.
--
-- Fuel. handleRead and handleWrite of a connection take an answer of the schedule in every round, and
-- AppendFile::append one of fwrite.
-- onMessage has one round for each readable byte and one more, and takes four bytes a round at
-- least. shiftUp_ and shiftDown_ move the hole in every round. expiredProcess is given a number of
-- rounds by its caller: one more than there are timers, since a round leaves fewer expired ones.
-- convert and convertHex write at most 20 and 16 digits for 64 bits.
--
-- Not modelled: the system calls, the C++ library and KCP, which are parameters or whose
-- documented behaviour is written where it is used; TcpClient, and the clients and servers of
-- KCP; when objects are destroyed, but for the timers.
pub mod Acceptor
pub mod AsyncLogging
pub mod Base
pub mod Buffer
pub mod Channel
pub mod Codec
pub mod Connector
pub mod EventLoop
pub mod EventLoopThreadPool
pub mod KcpConnection
pub mod KcpTcpEventLoop
pub mod LogFile
pub mod LogStream
pub mod MinHeap
pub mod Run
pub mod SelectPoller
pub mod StringPiece
pub mod TcpConnection
pub mod TcpServer
pub mod ThreadPool
pub mod TimerQueue
