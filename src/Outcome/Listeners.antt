-- ===== src/Outcome/Listeners.antt =====
-- Requests that register a listener, when they are answered.
use serf_cpp.Prelude.{ℕ, suc, ◌&&◌, Bool, true, false, some, none, List, ◌∷◌, ◌≡◌, ap, ◌∙◌, arith}
use serf_cpp.Channel.{Channel}
use serf_cpp.Exec.{pure}
use serf_cpp.Msgpack.{Msgpack}
use serf_cpp.Exec.{ok, ◌>>=◌, ◌>>◌}
use serf_cpp.SeqMap.{assign, erase}
use serf_cpp.Msg.Headers.{ResponseHeader}
use serf_cpp.Channel.{World, ResultChannel}
use serf_cpp.Channel.Memory.{M, allocate, update}
use serf_cpp.IoThread.Rpc.{Batch}
use serf_cpp.IoThread.Wait.{Env}
use serf_cpp.Outcome.Asking.{asking, ready, sent_off, erase-assign}
use serf_cpp.Outcome.{forgotten}
use serf_cpp.Safety.Invariant.{IsSafe}
use serf_cpp.Outcome.Answer.{replied}
use serf_cpp.Prelude.{Option, String, fun_ext}
use serf_cpp.Channel.{nothing}
use serf_cpp.IoThread.{connected, send_data, add_log_channel, add_event_channel, set_channel}
use serf_cpp.Client.{SerfResponse, success, failure, timeout, response_of, command}
use serf_cpp.Client.Listening.{monitor, stream, on_success, seq_on_success}
use serf_cpp.Client.Session.{monitors, streams}
use serf_cpp.Msg.Requests.Codec.{pack_monitor_request, pack_stream_request}
use serf_cpp.Outcome.{request_of}
use serf_cpp.Outcome.Sending.{send_data_lem}
use serf_cpp.Outcome.Continued.{in_reply, asking-continued}
use serf_cpp.Outcome.Reply.{Brings}

caller_gone :
    (f : ℕ → Option Channel) (p : ℕ) (b c d : Option Channel)
    → f p ≡ none
    → update (update (update (update f p b) p c) (suc p) d) p none ≡ update f (suc p) d
caller_gone f p b c d e = fun_ext (λ q. ground arith)

module _ ⦃m : Msgpack⦄ where
  open m use {Unpacker}

  -- the state after a request that was answered and has left the channel c in its place
  abbrev pub subscribed : World → List m.Object → Channel → Unpacker → World
  subscribed w message c y = record (forgotten w message) {
    unpacker = y;
    memory = update w.memory (suc w.next_address) (some c);
    next_address = suc (suc w.next_address);
    channels = assign w.seq (some (suc w.next_address)) (erase w.seq w.channels);
  }

  -- addLogChannel and addEventChannel
  abbrev pub added : World → ℕ → Channel → World
  added v seq c = record v {
    memory = update v.memory v.next_address (some c);
    next_address = suc v.next_address;
    channels = assign seq (some v.next_address) v.channels;
  }

module _ ⦃m : Msgpack⦄ {A : Type 0} where
  pub asking-subscribed :
      (send : ℕ → M (Bool × ℕ)) (failed timed_out : ℕ → A) (reply : ResultChannel → ℕ → M A)
      (env : Env) (w : World) (message : List m.Object) (b : Batch) (bs : List Batch)
      (hdr : ResponseHeader) (y : m.Unpacker) (a : A) (c : Channel)
      → IsSafe w
      → w.running ≡ true
      → w.shutdown ≡ false
      → send w.next_address (ready w nothing) ≡ (ok (true, w.seq), sent_off w nothing message)
      → env.arrivals ≡ b ∷ bs
      → Brings w.unpacker b w.seq hdr nothing nothing y
      → ((v : World) → reply (replied hdr nothing) w.seq v ≡ (ok a, added v hdr.seq c))
      → asking nothing send failed timed_out reply env w ≡ (ok a, subscribed w message c y)
  asking-subscribed send failed timed_out reply env w message b bs hdr y a c safe runs on e arrives
        h returns =
      asking-continued send failed timed_out reply env w message b bs hdr y a (added v hdr.seq c)
        runs on e arrives h (returns v)
      ∙ (λ i.
          (ok a, record (subscribed w message c y) { memory = restored i; channels = renamed i }))
    where
      p : ℕ
      p = w.next_address

      v : World
      v = in_reply w message hdr y

      renamed :
          assign hdr.seq (some (suc p)) (erase hdr.seq (assign w.seq (some p) w.channels))
          ≡ assign w.seq (some (suc p)) (erase w.seq w.channels)
      renamed =
          ap (λ k. assign k (some (suc p)) (erase k (assign w.seq (some p) w.channels))) h.numbered
          ∙ ap (assign w.seq (some (suc p))) (erase-assign w.seq (some p) w.channels)

      restored : update (update v.memory (suc p) (some c)) p none ≡ update w.memory (suc p) (some c)
      restored = caller_gone w.memory p _ _ (some c) (safe.fresh p (omega arith))

-- the two requests that leave a listener's channel until Stop
pub data Subscription : Type 0 where
  to_log to_events : String → Subscription

abbrev pub channel_of : Subscription → ℕ → Channel
channel_of (to_log level) listener = Channel.log listener
channel_of (to_events type) listener = Channel.event listener

module _ ⦃m : Msgpack⦄ where
  unfoldable pub subscribe : Subscription → ℕ → ℕ → Env → M (SerfResponse × ℕ)
  subscribe (to_log level) = monitor level
  subscribe (to_events type) = stream type

  abbrev pub subscription_request : Subscription → ℕ → List m.Object
  subscription_request (to_log level) = request_of (monitors level 0 0)
  subscription_request (to_events type) = request_of (streams type 0 0)

  -- In a safe state with a running I/O thread, if the message of Monitor or Stream is sent and the
  -- first round brings the header of its reply, without an error, and nothing else, then the method
  -- returns SUCCESS and the sequence number of the request, under which the channel of the listener
  -- is registered then.
  pub subscribe-answered :
      (s : Subscription) (listener old : ℕ) (env : Env) (w : World) (b : Batch) (bs : List Batch)
      (hdr : ResponseHeader) (y : m.Unpacker)
      → IsSafe w
      → w.running ≡ true
      → w.shutdown ≡ false
      → (connected w.socket && env.accepts) ≡ true
      → env.arrivals ≡ b ∷ bs
      → Brings w.unpacker b w.seq hdr nothing nothing y
      → hdr.error ≡ ""
      → subscribe s listener old env w ≡ (
        ok (success, w.seq),
        subscribed w (subscription_request s w.seq) (channel_of s listener) y,
      )
  unfolding subscribe monitor stream add_log_channel add_event_channel set_channel allocate ◌>>=◌
  subscribe-answered (to_log level) listener old env w b bs hdr y safe runs on sent arrives h fine =
      asking-subscribed
        (λ q.
          send_data (command "monitor") (pack_monitor_request (record { log_level = level })) q
            env.accepts old)
        (λ q. (failure, q)) (λ q. (timeout, q))
        (λ c q.
          let resp = response_of c.hdr in
          on_success resp (add_log_channel c.hdr.seq listener)
          >> pure (resp, seq_on_success resp c.hdr.seq q))
        env w _ b bs hdr y (success, w.seq) (Channel.log listener) safe runs on
        (send_data_lem (command "monitor") w.next_address env.accepts old (ready w nothing) true
          sent _)
        arrives h
        (λ v. rw (fine) (λ i. (ok (success, h.numbered i), added v hdr.seq (Channel.log listener))))
  subscribe-answered (to_events type) listener old env w b bs hdr y safe runs on sent arrives h
        fine =
      asking-subscribed
        (λ q.
          send_data (command "stream") (pack_stream_request (record { type = type })) q env.accepts
            old)
        (λ q. (failure, q)) (λ q. (timeout, q))
        (λ c q.
          let resp = response_of c.hdr in
          on_success resp (add_event_channel c.hdr.seq listener)
          >> pure (resp, seq_on_success resp c.hdr.seq q))
        env w _ b bs hdr y (success, w.seq) (Channel.event listener) safe runs on
        (send_data_lem (command "stream") w.next_address env.accepts old (ready w nothing) true sent
          _)
        arrives h
        (λ v.
          rw (fine) (λ i. (ok (success, h.numbered i), added v hdr.seq (Channel.event listener))))
