-- ===== src/IoThread/Rpc.antt =====
-- SerfIoThread::processRpc. What select() and read() answer is the input of a round.
pub mod Steps
pub mod Bounds
use serf_cpp.Prelude.{
  ℕ, zero, suc, ◌+◌, ◌-◌, ◌*◌, Bool, ◌&&◌, Option, none, some, List, [], ◌∷◌, ◌++◌, ◌==◌, length,
  take, if◌then◌else◌,
}
use serf_cpp.Msgpack.{Msgpack}
use serf_cpp.Exec.{
  Result, ok, raised, stalled, terminated, pure, or_raise, catch, modify, ◌>>=◌, ◌>>◌,
}
use serf_cpp.Msg.Headers.{ResponseHeader}
use serf_cpp.Msg.Headers.Codec.{as_response_header}
use serf_cpp.Channel.{Channel, channel_type, result, log, event, query}
use serf_cpp.Channel.Memory.{M, load, next_object}
use serf_cpp.Channel.Produce.{produce_result, produce_log, produce_event, produce_query}
use serf_cpp.IoThread.{is_request, find_channel, erase_channel, remove_channel}

abbrev pub rpc_buffer_size : ℕ
rpc_buffer_size = 1024 * 1024

-- One pass of the inner loop: select() ends the wait, or the socket is not among the readable ones,
-- or read() fails, or read() has these bytes to give (none at the end of the stream).
pub data Answer : Type 0 where
  quiet : Answer
  not_readable : Answer
  read_error : Answer
  readable : List ℕ → Answer

-- One round of the outer loop: the answers, and whether errno is EAGAIN or EINTR after them.
pub record Batch : Type 0 where
  pub answers : List Answer
  pub retry : Bool

-- The bytes that the inner loop reads when `count` bytes are in the buffer. read() returns no more
-- bytes than it is asked for.
unfoldable pub receive : ℕ → List Answer → List ℕ
receive count [] = []
receive count (quiet ∷ rest) = []
receive count (not_readable ∷ rest) = []
receive count (read_error ∷ rest) = []
receive count (readable bytes ∷ rest) =
    let chunk = take (rpc_buffer_size - count) bytes in
    let later = receive (count + length chunk) rest in
    elim chunk [ [] ↦ [] | b ∷ bs ↦ (b ∷ bs) ++ later ]

module _ ⦃m : Msgpack⦄ where
  open m use {Object, feed, size}

  -- channel->produce(hdr, m_unpacker)
  unfoldable pub produce : ℕ → ResponseHeader → Channel → M (Unit {0})
  produce channel hdr (result c) = produce_result channel c.reply hdr
  produce channel hdr (log l) = produce_log l hdr
  produce channel hdr (event l) = produce_event l hdr
  produce channel hdr (query l) = produce_query l hdr (remove_channel hdr.seq)

  unfoldable pub deliver : Option ℕ → ResponseHeader → M (Unit {0})
  unfolding produce
  deliver none hdr = pure tt
  deliver (some p) hdr = do
    c ← load p
    if is_request (channel_type c) then erase_channel hdr.seq else pure tt
    produce p hdr c

  unfoldable pub process_object : Object → M (Unit {0})
  unfolding deliver
  process_object obj = do
    hdr ← or_raise (as_response_header obj)
    channel ← find_channel hdr.seq
    deliver channel hdr

  -- while (m_unpacker.next(oh)) { try { … } catch (std::exception &e) { … continue; } }
  unfoldable pub process_objects : ℕ → M (Unit {0})
  process_objects zero w = (stalled, w)
  process_objects (suc fuel) w =
      (next_object >>= λ oh. elim oh [
        | none ↦ pure tt
        | some obj ↦ catch (process_object obj) (pure tt) >>= λ _. process_objects fuel
      ])
        w

  -- An object takes at least a byte, so the fuel is enough.
  unfoldable pub drain : M (Unit {0})
  drain w = process_objects (suc (size w.unpacker)) w

  unfoldable pub buffer_consumed : List ℕ → M (Unit {0})
  buffer_consumed bytes = modify (λ w. record w { unpacker = feed w.unpacker bytes })

  unfoldable pub rpc_round : Batch → M (Unit {0})
  rpc_round b =
      let bytes = receive 0 b.answers in
      if (length bytes == 0) && b.retry then pure tt else (buffer_consumed bytes >> drain)

  -- an exception that leaves the thread function ends the program
  abbrev pub escaping : {A : Type 0} → Result A → Result A
  escaping raised = terminated
  escaping r = r

  unfoldable pub thread_round : Batch → M (Unit {0})
  thread_round b w = let (r, v) = rpc_round b w in (escaping r, v)

  -- the rounds of the thread, until it is told to shut down
  unfoldable pub process_rpc : List Batch → M (Unit {0})
  process_rpc [] w = (ok tt, w)
  process_rpc (b ∷ bs) w =
      let rest = (thread_round b >> process_rpc bs) w in if w.shutdown then (ok tt, w) else rest
