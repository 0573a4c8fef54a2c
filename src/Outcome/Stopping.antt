-- ===== src/Outcome/Stopping.antt =====
-- Query and Stop, when they are answered.
use serf_cpp.Prelude.{ℕ, ◌&&◌, Bool, true, false, some, none, List, [], ◌∷◌, ◌≡◌, ap, ◌∙◌, arith}
use serf_cpp.Channel.{Channel}
use serf_cpp.Exec.{pure}
use serf_cpp.Msgpack.{Msgpack}
use serf_cpp.Exec.{ok, ◌>>=◌, ◌>>◌}
use serf_cpp.SeqMap.{pointer, assign, erase, pointer-assign, pointer-erase}
use serf_cpp.Msg.Headers.{ResponseHeader}
use serf_cpp.Channel.{World}
use serf_cpp.Channel.Memory.{M, allocate, update}
use serf_cpp.IoThread.Rpc.{Batch}
use serf_cpp.IoThread.Wait.{Env}
use serf_cpp.Outcome.Asking.{ready, erase-assign}
use serf_cpp.Outcome.{forgotten}
use serf_cpp.Safety.Invariant.{IsSafe}
use serf_cpp.Prelude.{Option, String, fun_ext}
use serf_cpp.Channel.{nothing}
use serf_cpp.IoThread.{connected, send_data, set_channel}
use serf_cpp.Client.{success, failure, timeout, response_of, command}
use serf_cpp.Client.Listening.{on_success}
use serf_cpp.Outcome.{request_of}
use serf_cpp.Outcome.Sending.{send_data_lem}
use serf_cpp.Outcome.Reply.{Brings}
use serf_cpp.IoThread.{add_query_channel, remove_channel}
use serf_cpp.Client.Listening.{query, stop, or_default}
use serf_cpp.Client.Session.{queries, stops}
use serf_cpp.Msg.Requests.Codec.{pack_query_request, pack_stop_request}
use serf_cpp.Outcome.Continued.{in_reply, asking-continued}
use serf_cpp.Outcome.Listeners.{subscribed, asking-subscribed}
use serf_cpp.Route.{is_listener}
use serf_cpp.Route.Single.{remove_channel-listener}
use serf_cpp.Prelude.{◌≢◌}

module _ ⦃m : Msgpack⦄ where
  -- In a safe state with a running I/O thread, if the message of Query is sent and the first round
  -- brings the header of its reply, without an error, and nothing else, then Query returns SUCCESS,
  -- and the channel of the listener is registered under the sequence number of the request.
  pub query-answered :
      (name : String) (payload : List ℕ) (listener : ℕ) (request_ack : Bool) (timeout_ns : ℕ)
      (filter_nodes : Option (List String)) (filter_tags : Option (List (String × String)))
      (env : Env) (w : World) (b : Batch) (bs : List Batch) (hdr : ResponseHeader) (y : m.Unpacker)
      → IsSafe w
      → w.running ≡ true
      → w.shutdown ≡ false
      → (connected w.socket && env.accepts) ≡ true
      → env.arrivals ≡ b ∷ bs
      → Brings w.unpacker b w.seq hdr nothing nothing y
      → hdr.error ≡ ""
      → query name payload listener request_ack timeout_ns filter_nodes filter_tags env w ≡ (
        ok success,
        subscribed w
            (request_of
              (queries name payload listener request_ack timeout_ns filter_nodes filter_tags)
              w.seq)
            (Channel.query listener)
            y,
      )
  unfolding query add_query_channel set_channel allocate ◌>>=◌
  query-answered name payload listener request_ack timeout_ns filter_nodes filter_tags env w b bs
        hdr y safe runs on sent arrives h fine =
      asking-subscribed
        (λ q.
          send_data (command "query")
            (pack_query_request (record {
              filter_nodes = or_default filter_nodes [];
              filter_tags = or_default filter_tags [];
              request_ack = request_ack;
              timeout = timeout_ns;
              name = name;
              payload = payload;
            }))
            q env.accepts 0)
        (λ q. failure) (λ q. timeout)
        (λ c q.
          let resp = response_of c.hdr in
          on_success resp (add_query_channel c.hdr.seq listener) >> pure resp)
        env w _ b bs hdr y success (Channel.query listener) safe runs on
        (send_data_lem (command "query") w.next_address env.accepts 0 (ready w nothing) true sent _)
        arrives h (λ v. rw fine)

  -- what a command does with a reply without an error
  on_reply :
      (hdr : ResponseHeader) (action : M (Unit {0})) (v u : World)
      → hdr.error ≡ ""
      → action v ≡ (ok tt, u)
      → (on_success (response_of hdr) action >> pure (response_of hdr)) v ≡ (ok success, u)
  unfolding ◌>>=◌
  on_reply hdr action v u fine e = rw (fine, e)

  -- the state after a Stop that was answered: the listener's channel at q is gone
  abbrev pub stopped : World → ℕ → ℕ → m.Unpacker → World
  stopped w stop_seq q y = record (forgotten w (request_of (stops stop_seq) w.seq)) {
    unpacker = y;
    memory = update w.memory q none;
    channels = erase stop_seq (erase w.seq w.channels);
  }

  -- In a safe state with a running I/O thread, if the message of Stop for the sequence number of a
  -- registered listener, which is not that of the message itself, is sent and the first round
  -- brings the header of its reply, without an error, and nothing else, then Stop returns SUCCESS,
  -- the channel of the listener is deregistered and deleted, and the header has been consumed;
  -- nothing else has changed, but for the sequence number and what was written to the socket.
  pub stop-answered :
      (stop_seq q : ℕ) (c : Channel) (env : Env) (w : World) (b : Batch) (bs : List Batch)
      (hdr : ResponseHeader) (y : m.Unpacker)
      → IsSafe w
      → w.running ≡ true
      → w.shutdown ≡ false
      → (connected w.socket && env.accepts) ≡ true
      → env.arrivals ≡ b ∷ bs
      → Brings w.unpacker b w.seq hdr nothing nothing y
      → hdr.error ≡ ""
      → pointer stop_seq w.channels ≡ some q
      → w.memory q ≡ some c
      → is_listener c ≡ true
      → stop_seq ≢ w.seq
      → stop stop_seq env w ≡ (ok success, stopped w stop_seq q y)
  unfolding stop ◌>>=◌
  stop-answered stop_seq q c env w b bs hdr y safe runs on sent arrives h fine registered there
        listener other =
      asking-continued
        (λ p.
          send_data (command "stop") (pack_stop_request (record { stop = stop_seq })) p env.accepts
            0)
        (λ n. failure) (λ n. timeout)
        (λ d n.
          let resp = response_of d.hdr in on_success resp (remove_channel stop_seq) >> pure resp)
        env w _ b bs hdr y success
        (record v { channels = erase stop_seq v.channels; memory = update v.memory q none }) runs on
        (send_data_lem (command "stop") w.next_address env.accepts 0 (ready w nothing) true sent _)
        arrives h
        (on_reply hdr (remove_channel stop_seq) v _ fine
          (remove_channel-listener v stop_seq q c listener registered_still there_still))
      ∙ (λ i. (
        ok success,
        record (stopped w stop_seq q y) { memory = restored i; channels = renamed i },
      ))
    where
      p : ℕ
      p = w.next_address

      v : World
      v = in_reply w (request_of (stops stop_seq) w.seq) hdr y

      renamed :
          erase stop_seq (erase hdr.seq (assign w.seq (some p) w.channels))
          ≡ erase stop_seq (erase w.seq w.channels)
      renamed =
          ap (λ k. erase stop_seq (erase k (assign w.seq (some p) w.channels))) h.numbered
          ∙ ap (erase stop_seq) (erase-assign w.seq (some p) w.channels)

      registered_still : pointer stop_seq v.channels ≡ some q
      registered_still = ground (
        arith,
        h.numbered,
        other,
        registered,
        pointer-erase hdr.seq stop_seq (assign w.seq (some p) w.channels),
        pointer-assign w.seq stop_seq (some p) w.channels,
      )

      apart : p ≢ q
      apart e = cc (safe.fresh p (omega arith))

      there_still : v.memory q ≡ some c
      there_still = ground (arith, apart, there)

      restored : update (update v.memory q none) p none ≡ update w.memory q none
      restored = fun_ext (λ a. ground (arith, apart, safe.fresh p (omega arith)))
