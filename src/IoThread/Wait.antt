-- ===== src/IoThread/Wait.antt =====
-- A call that waits for its reply: the ResultChannel on the caller's stack, consume(), and the
-- branches on m_dataPending that every request method has.
use serf_cpp.Prelude.{ℕ, Bool, List, [], ◌∷◌, if◌then◌else◌}
use serf_cpp.Msgpack.{Msgpack}
use serf_cpp.Exec.{ok, dangling, pure, ◌>>=◌, ◌>>◌}
use serf_cpp.Channel.{Channel, ResultChannel, Reply, new_result, result}
use serf_cpp.Channel.Memory.{M, allocate, free, load}
use serf_cpp.IoThread.{remove_channel}
use serf_cpp.IoThread.Rpc.{Batch, process_rpc}

-- What happens around one call: whether send() accepts the message, and the rounds of the I/O
-- thread until the wait is over. The wait times out where they end.
pub record Env : Type 0 where
  pub accepts : Bool
  pub arrivals : List Batch

module _ ⦃m : Msgpack⦄ where
  unfoldable pub as_result : Channel → M ResultChannel
  as_result (result c) w = (ok c, w)
  as_result _ w = (dangling, w)

  unfoldable pub load_result : ℕ → M ResultChannel
  unfolding as_result
  load_result p = do c ← load p; as_result c

  -- rounds happen only while the thread lives
  unfoldable pub background : List Batch → M (Unit {0})
  background bs w = if w.running then process_rpc bs w else (ok tt, w)

  -- ResultChannel::consume()
  unfoldable pub consume : ℕ → List Batch → M (Unit {0})
  unfolding load_result background
  consume channel [] = pure tt
  consume channel (b ∷ bs) = do
    c ← load_result channel
    if c.data_pending then pure tt else (background (b ∷ []) >> consume channel bs)

  module _ {A : Type 0} where
    -- `ResultChannel<T> channel;` to the end of its scope
    unfoldable pub with_result : Reply → (ℕ → M A) → M A
    with_result r body = do p ← allocate (result (new_result r)); a ← body p; free p; pure a

    -- `sent` is the answer of sendData with the seq that it stored
    unfoldable pub await_reply : ℕ → Env → Bool × ℕ → A → A → (ResultChannel → M A) → M A
    unfolding consume load_result remove_channel
    await_reply channel env sent failed timed_out reply =
        if sent.0
        then (do
          consume channel env.arrivals
          c ← load_result channel
          if c.data_pending then reply c else (remove_channel sent.1 >> pure timed_out))
        else pure failed
