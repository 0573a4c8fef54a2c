-- ===== src/Lib.antt =====
-- serf-cpp: a client library for the RPC protocol of a serf agent.
--
-- A SerfClient sends a request to the agent over a socket and waits for the reply. A second thread,
-- the I/O thread of SerfIoThread, reads the socket, feeds the bytes to a msgpack unpacker, and gives
-- each message that comes out of it to the channel that is registered under the message's sequence
-- number. A request has a ResultChannel on the stack of its caller; Monitor, Stream and Query leave
-- a channel on the heap, which turns later records into calls of the user's listener.
--
-- The files, with the code they model:
-- - Prelude: names and lemmas shared by the rest. A number of C++ type int is a value of ℤ over the
--   native numbers, a double is its 64-bit pattern, a std::string is a text, and a std::vector<char>
--   is a list of bytes.
-- - Exec: functions that change a state and may throw. A result is a value, a thrown exception, the
--   end of the program by std::terminate, an access to an object that is gone or behind the end of
--   a vector, or a loop whose fuel ran out.
-- - Msgpack: what the code uses of msgpack-c, which is not part of the repository, as a record of
--   operations and laws that every other module takes as an instance argument. The laws are the
--   round trips of the basic types, lookup in a map, and that an object takes at least a byte of the
--   unpacker's buffer. Tests/Toy is an instance, so the laws can hold together.
-- - SeqMap: the std::map m_channels of src/SerfIoThread.h; operator[] inserts a missing key.
-- - Msg: the structs of include/serf-cpp/SerfMsgStructs.h, one module for a group of structs, with
--   the conversions that MSGPACK_DEFINE makes in Codec, and operator== in Equal. Kinds and
--   Comparable are the families that theorems about all of them range over.
-- - Channel: src/SerfChannel.h and src/SerfChannel.cpp. World holds the members of SerfIoThread
--   together with the memory of the channels by address, the calls of listeners in their order, and
--   the objects handed to the socket. Channel/Produce has the produce methods.
-- - IoThread: src/SerfIoThread.cpp. IoThread has the channel map and sendData, IoThread/Rpc has
--   processRpc, IoThread/Connection has Connect and Close, and IoThread/Wait has consume of
--   src/SerfChannel.h and the branches on m_dataPending that the methods of SerfClient share.
--   IoThread/Interleaving has the steps of the I/O thread and of a waiting caller in any order.
-- - Client: src/SerfClient.cpp, one function for each method. Commands have a reply without a body,
--   Queries one with a body, and Listening has Monitor, Stream, Query and Stop. Client/Session has
--   histories of calls; what a call leaves in a reference argument is part of its result.
-- - Safety: the invariant of the channel map and the memory, and triples to reason about it with.
-- - Route: an abstract router, the specification of the object loop.
-- - Outcome: what the request methods return, send and leave behind.
-- - Print: src/SerfMsgStructs.cpp, with one function for each operator<<, on a model of what these use
--   of std::ostream: the text written, and the base, fill and width that manipulators set. Each group
--   of structs has a module Text, with the texts that the structs are shown as.
-- - Example: example/SerfClientExample.cpp. Split has split, Words and Commands the command words and
--   what they do, Loop the options and the loop of main, and Listeners the listeners. Safe carries
--   the triples of Safety to the program around the client.
-- - Tests: the concrete codec and the theorems at concrete inputs.
--
-- Inputs. What socket, connect, send, select and read answer is an input of the definitions: Dial
-- for Connect, Env.accepts for send, and Batch for a round of processRpc, with the answers of its
-- inner loop and whether errno is EAGAIN or EINTR after them. A call that waits takes the rounds
-- that the I/O thread makes until the wait times out (Env.arrivals); an empty list is a wait in
-- which nothing arrives. Rounds between calls are part of a history.
--
-- Order. In IoThread/Wait and what builds on it, a round of the I/O thread and a step of the caller do
-- not overlap: the rounds of a wait come between sendData and the caller's look at m_dataPending. In
-- the code a timeout can also fall between the thread's lookup of a channel and its use.
-- IoThread/Interleaving has these orders: the delivery of messages and the rest of one request are
-- cut into steps, each an access to the channel map or to a channel, and a schedule says whose turn
-- it is. The rest of a request includes what Monitor, Stream, Query and Stop do with the channel map
-- when their reply has no error. Safety/Interleaving has the invariant. A produce method is one step; that of a
-- ResultChannel holds the mutex of the channel.
--
-- Fuel. The object loop is recursion on fuel, and starts with one more than the size of the
-- unpacker's buffer, which is enough since an object takes at least a byte; a run that is out of
-- fuel is the result `stalled`. The read loop is recursion on the list of answers.
--
-- The command loop is recursion on fuel too, with a turn for each line; Line has what the user types
-- and what the I/O thread and the socket do meanwhile. An index behind the end of a vector gives the
-- result `dangling`. The numeral of a number has at most 64 digits, as many as 64 bits need in base 2.
--
-- Numbers. m_seq is a uint64_t and wraps around at 2 ^ 64. RPC_BUFFER_SIZE is 1024 * 1024.
--
-- Not modelled: getopt (its results are an input), mutexes, the order in which what the listeners
-- print mixes with what the command loop prints, and what the library itself writes to the standard
-- output. A double is shown by a parameter. To the library a listener is a number, and what user
-- code does in a callback is not part of its state; Example/Listeners has the callbacks of the
-- example by themselves, and what happens around a call that a callback makes is an input there.
mod Prelude
mod Exec
mod SeqMap
pub mod Msgpack
pub mod Msg
pub mod Channel
pub mod IoThread
pub mod Client
pub mod Safety
pub mod Route
pub mod Outcome
pub mod Print
pub mod Example
mod Tests
