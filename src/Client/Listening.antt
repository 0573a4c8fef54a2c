-- ===== src/Client/Listening.antt =====
-- src/SerfClient.cpp: the requests that register and deregister listeners. `seq` is the old value of
-- the variable in which Monitor and Stream return the sequence number.
use serf_cpp.Prelude.{ℕ, String, Bool, Option, none, some, List, []}
use serf_cpp.Msgpack.{Msgpack}
use serf_cpp.Exec.{pure, ◌>>=◌, ◌>>◌}
use serf_cpp.Channel.{nothing}
use serf_cpp.Channel.Memory.{M}
use serf_cpp.IoThread.{
  send_data, add_log_channel, add_event_channel, add_query_channel, remove_channel,
}
use serf_cpp.IoThread.Wait.{Env, with_result, await_reply}
use serf_cpp.Client.{SerfResponse, success, failure, timeout, response_of, command}
use serf_cpp.Msg.Requests.Codec.{
  pack_monitor_request, pack_query_request, pack_stream_request, pack_stop_request,
}

-- the value behind an optional pointer argument; the member keeps its default where it is null
abbrev pub or_default {ℓ} : {A : Type ℓ} → Option A → A → A
or_default none d = d
or_default (some a) d = a

module _ ⦃m : Msgpack⦄ where
  -- `action` if the response is SUCCESS
  abbrev pub on_success : SerfResponse → M (Unit {0}) → M (Unit {0})
  on_success success action = action
  on_success failure action = pure tt
  on_success timeout action = pure tt

  abbrev pub seq_on_success : SerfResponse → ℕ → ℕ → ℕ
  seq_on_success success n old = n
  seq_on_success failure n old = old
  seq_on_success timeout n old = old

  -- SerfClient::Monitor
  unfoldable pub monitor : String → ℕ → ℕ → Env → M (SerfResponse × ℕ)
  monitor level listener seq env = with_result nothing λ channel. do
    sent ←
        send_data (command "monitor") (pack_monitor_request (record { log_level = level })) channel
          env.accepts seq
    await_reply channel env sent (failure, sent.1) (timeout, sent.1)
        λ c.
          let resp = response_of c.hdr in
          on_success resp (add_log_channel c.hdr.seq listener)
          >> pure (resp, seq_on_success resp c.hdr.seq sent.1)

  -- SerfClient::Stream
  unfoldable pub stream : String → ℕ → ℕ → Env → M (SerfResponse × ℕ)
  stream type listener seq env = with_result nothing λ channel. do
    sent ←
        send_data (command "stream") (pack_stream_request (record { type = type })) channel
          env.accepts seq
    await_reply channel env sent (failure, sent.1) (timeout, sent.1)
        λ c.
          let resp = response_of c.hdr in
          on_success resp (add_event_channel c.hdr.seq listener)
          >> pure (resp, seq_on_success resp c.hdr.seq sent.1)

  -- SerfClient::Query
  unfoldable pub query :
      String
      → List ℕ
      → ℕ
      → Bool
      → ℕ
      → Option (List String)
      → Option (List (String × String))
      → Env
      → M SerfResponse
  query name payload listener request_ack timeout_ns filter_nodes filter_tags env =
      with_result nothing λ channel. do
        sent ←
            send_data (command "query")
              (pack_query_request (record {
                filter_nodes = or_default filter_nodes [];
                filter_tags = or_default filter_tags [];
                request_ack = request_ack;
                timeout = timeout_ns;
                name = name;
                payload = payload;
              }))
              channel env.accepts 0
        await_reply channel env sent failure timeout λ c.
            let resp = response_of c.hdr in
            on_success resp (add_query_channel c.hdr.seq listener) >> pure resp

  -- SerfClient::Stop
  unfoldable pub stop : ℕ → Env → M SerfResponse
  stop stop_seq env = with_result nothing λ channel. do
    sent ←
        send_data (command "stop") (pack_stop_request (record { stop = stop_seq })) channel
          env.accepts 0
    await_reply channel env sent failure timeout
        λ c. let resp = response_of c.hdr in on_success resp (remove_channel stop_seq) >> pure resp
