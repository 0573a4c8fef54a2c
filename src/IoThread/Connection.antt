-- ===== src/IoThread/Connection.antt =====
-- SerfIoThread::Connect and SerfIoThread::Close.
use serf_cpp.Prelude.{ℕ, String, Bool, true, false, Option, none, some, pos, str_eq, if◌then◌else◌}
use serf_cpp.Msgpack.{Msgpack}
use serf_cpp.Exec.{ok, terminated, pure, modify, ◌>>=◌, ◌>>◌}
use serf_cpp.Msg.Headers.{default_request_header, default_handshake_request}
use serf_cpp.Msg.Headers.Codec.{pack_handshake_request}
use serf_cpp.Channel.{nothing}
use serf_cpp.Channel.Memory.{M}
use serf_cpp.IoThread.{connected, is_connected, send_data}
use serf_cpp.IoThread.Rpc.{Batch, thread_round}
use serf_cpp.IoThread.Wait.{Env, with_result, await_reply}

-- What socket() and connect() answer.
pub record Dial : Type 0 where
  pub descriptor : Option ℕ
  pub reachable : Bool

module _ ⦃m : Msgpack⦄ where
  -- Assigning to a std::thread that is joinable ends the program.
  unfoldable pub start_thread : M (Unit {0})
  start_thread w = if w.running then (terminated, w) else (ok tt, record w { running = true })

  unfoldable pub handshake : Env → M Bool
  handshake env = with_result nothing λ channel. do
    sent ←
        send_data (record default_request_header { command = "handshake" })
          (pack_handshake_request (record default_handshake_request { version = pos 1 })) channel
          env.accepts 0
    await_reply channel env sent false false λ c. pure (str_eq c.hdr.error "")

  unfoldable pub connect : String → ℕ → Dial → Env → M Bool
  unfolding start_thread handshake
  connect ip_addr port dial env = do
    modify (λ w. record w { ip_addr = ip_addr; port = port; socket = dial.descriptor })
    if connected dial.descriptor
        then (if dial.reachable
            then (start_thread >> handshake env)
            else (modify (λ w. record w { socket = none }) >> pure false))
        else pure false

  -- m_thread.join(): the round that is under way ends first
  unfoldable pub join_thread : Option Batch → M (Unit {0})
  join_thread none = modify (λ w. record w { running = false })
  join_thread (some b) = do thread_round b; modify (λ w. record w { running = false })

  unfoldable pub stop_thread : Option Batch → M (Unit {0})
  unfolding join_thread
  stop_thread b w = if w.running then join_thread b w else (ok tt, w)

  unfoldable pub close : Option Batch → M Bool
  unfolding stop_thread
  close b = do
    c ← is_connected
    if c then (modify (λ w. record w { shutdown = true }) >> stop_thread b) else pure tt
    modify (λ w. record w { shutdown = false; seq = 0 })
    pure true
