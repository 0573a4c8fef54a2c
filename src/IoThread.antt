-- ===== src/IoThread.antt =====
-- src/SerfIoThread.cpp: the channel map, sending requests, and the loop of the I/O thread.
pub mod Rpc
pub mod Wait
pub mod Connection
pub mod Interleaving
use serf_cpp.Prelude.{
  ℕ, suc, ◌+◌, ◌%◌, ◌^◌, Bool, true, false, ◌&&◌, Option, none, some, List, [], ◌∷◌, ◌++◌,
  if◌then◌else◌,
}
use serf_cpp.Msgpack.{Msgpack}
use serf_cpp.Exec.{pure, gets, modify, ◌>>=◌, ◌>>◌}
use serf_cpp.SeqMap.{SeqMap, pointer, touch, erase, assign}
use serf_cpp.Msg.Headers.{RequestHeader}
use serf_cpp.Msg.Headers.Codec.{pack_request_header}
use serf_cpp.Channel.{
  Channel, ChannelType, World, request, log_type, event_type, query_type, channel_type, result, log,
  event, query,
}
use serf_cpp.Channel.Memory.{M, allocate, free, load}

abbrev pub is_request : ChannelType → Bool
is_request request = true
is_request _ = false

abbrev pub connected : Option ℕ → Bool
connected none = false
connected (some fd) = true

module _ ⦃m : Msgpack⦄ where
  open m use {Object}

  -- ChannelBase *channel = m_channels[seq]
  unfoldable pub find_channel : ℕ → M (Option ℕ)
  find_channel seq = do
    p ← gets (λ w. pointer seq w.channels)
    modify (λ w. record w { channels = touch seq w.channels })
    pure p

  unfoldable pub erase_channel : ℕ → M (Unit {0})
  erase_channel seq = modify (λ w. record w { channels = erase seq w.channels })

  unfoldable pub set_channel : ℕ → ℕ → M (Unit {0})
  set_channel seq p = modify (λ w. record w { channels = assign seq (some p) w.channels })

  -- `delete chan` for a channel that `new` made
  unfoldable pub delete_listener : Option ℕ → M (Unit {0})
  delete_listener none = pure tt
  delete_listener (some p) = do c ← load p; if is_request (channel_type c) then pure tt else free p

  unfoldable pub remove_channel : ℕ → M (Unit {0})
  unfolding find_channel erase_channel delete_listener
  remove_channel seq = do chan ← find_channel seq; erase_channel seq; delete_listener chan

  unfoldable pub add_log_channel : ℕ → ℕ → M (Unit {0})
  unfolding set_channel
  add_log_channel seq listener = do p ← allocate (log listener); set_channel seq p

  unfoldable pub add_event_channel : ℕ → ℕ → M (Unit {0})
  unfolding set_channel
  add_event_channel seq listener = do p ← allocate (event listener); set_channel seq p

  unfoldable pub add_query_channel : ℕ → ℕ → M (Unit {0})
  unfolding set_channel
  add_query_channel seq listener = do p ← allocate (query listener); set_channel seq p

  -- IsConnected()
  unfoldable pub is_connected : M Bool
  is_connected = gets (λ w. connected w.socket)

  -- m_seq++ on a uint64_t
  unfoldable pub take_seq : M ℕ
  take_seq w = pure w.seq (record w { seq = (w.seq + 1) % 2 ^ 64 })

  -- `accepts` is what send() answers where there is a socket; without one it fails. The result is
  -- that of sendData and the caller's variable `seq` afterwards.
  unfoldable pub transmit : List Object → ℕ → ℕ → Bool → ℕ → M (Bool × ℕ)
  unfolding set_channel
  transmit message seq channel accepts old = do
    c ← is_connected
    if (c && accepts)
        then (do
          modify (λ w. record w { wire = w.wire ++ message })
          set_channel seq channel
          pure (true, seq))
        else pure (false, old)

  -- sendData(hdr, body, channel, seq)
  unfoldable pub send_data : RequestHeader → Object → ℕ → Bool → ℕ → M (Bool × ℕ)
  unfolding take_seq transmit
  send_data hdr body channel accepts old = do
    n ← take_seq
    transmit (pack_request_header (record hdr { seq = n }) ∷ body ∷ []) n channel accepts old

  -- sendData(hdr, channel, seq)
  unfoldable pub send_header : RequestHeader → ℕ → Bool → ℕ → M (Bool × ℕ)
  unfolding take_seq transmit
  send_header hdr channel accepts old = do
    n ← take_seq
    transmit (pack_request_header (record hdr { seq = n }) ∷ []) n channel accepts old
