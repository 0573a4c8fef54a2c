-- ===== src/Outcome/Sending.antt =====
-- SerfIoThread::sendData, both overloads: the sequence number, the message, the registration.
use serf_cpp.Prelude.{
  ℕ, ◌+◌, ◌%◌, ◌^◌, Bool, true, false, ◌&&◌, some, List, [], ◌∷◌, ◌++◌, ◌≡◌, if◌then◌else◌,
}
use serf_cpp.Msgpack.{Msgpack}
use serf_cpp.Exec.{Result, ok, ◌>>=◌}
use serf_cpp.SeqMap.{assign}
use serf_cpp.Msg.Headers.{RequestHeader}
use serf_cpp.Msg.Headers.Codec.{pack_request_header}
use serf_cpp.Channel.{World}
use serf_cpp.IoThread.{
  connected, send_data, send_header, take_seq, transmit, set_channel, is_connected,
}

module _ ⦃m : Msgpack⦄ where
  abbrev pub next_seq : World → World
  next_seq w = record w { seq = (w.seq + 1) % 2 ^ 64 }

  -- the outcome of sendData, by whether there is a socket that takes the message
  abbrev pub sent_or_not : Bool → World → List m.Object → ℕ → ℕ → Result (Bool × ℕ) × World
  sent_or_not false w message channel old = (ok (false, old), next_seq w)
  sent_or_not true w message channel old = (
    ok (true, w.seq),
    record w {
      seq = (w.seq + 1) % 2 ^ 64;
      wire = w.wire ++ message;
      channels = assign w.seq (some channel) w.channels;
    },
  )

  transmit_lem :
      (w : World) (message : List m.Object) (n channel : ℕ) (accepts : Bool) (old : ℕ)
      → (b : Bool) → (connected w.socket && accepts) ≡ b
      → transmit message n channel accepts old w ≡ (
          if b
          then (
            ok (true, n),
            record w { wire = w.wire ++ message; channels = assign n (some channel) w.channels },
          )
          else (ok (false, old), w))
  unfolding transmit is_connected set_channel ◌>>=◌
  transmit_lem w message n channel accepts old true e = rw e
  transmit_lem w message n channel accepts old false e = rw e

  module _ (hdr : RequestHeader) (channel : ℕ) (accepts : Bool) (old : ℕ) (w : World) (b : Bool)
      (answer : (connected w.socket && accepts) ≡ b) where
    -- sendData uses up a sequence number, which wraps around at 2 ^ 64, whether or not the message
    -- is sent. A message that is sent carries that number, its channel is registered under it, and
    -- the number is returned; otherwise the caller's variable keeps its value.
    pub send_data_lem :
        (body : m.Object)
        → send_data hdr body channel accepts old w
          ≡ sent_or_not b w
              (pack_request_header (record hdr { seq = w.seq }) ∷ body ∷ [])
              channel
              old
    unfolding send_data take_seq ◌>>=◌
    send_data_lem body = go b answer
      where
        message : List m.Object
        message = pack_request_header (record hdr { seq = w.seq }) ∷ body ∷ []

        go :
            (b : Bool)
            → (connected w.socket && accepts) ≡ b
            → send_data hdr body channel accepts old w ≡ sent_or_not b w message channel old
        go true e = transmit_lem (next_seq w) message w.seq channel accepts old true e
        go false e = transmit_lem (next_seq w) message w.seq channel accepts old false e

    pub send_header_lem :
        send_header hdr channel accepts old w
        ≡ sent_or_not b w (pack_request_header (record hdr { seq = w.seq }) ∷ []) channel old
    unfolding send_header take_seq ◌>>=◌
    send_header_lem = go b answer
      where
        message : List m.Object
        message = pack_request_header (record hdr { seq = w.seq }) ∷ []

        go :
            (b : Bool)
            → (connected w.socket && accepts) ≡ b
            → send_header hdr channel accepts old w ≡ sent_or_not b w message channel old
        go true e = transmit_lem (next_seq w) message w.seq channel accepts old true e
        go false e = transmit_lem (next_seq w) message w.seq channel accepts old false e
