-- ===== src/Safety/Listening.antt =====
-- The methods that register and deregister listeners, Connect and Close keep the invariant.
use serf_cpp.Prelude.{ℕ, String, Bool, true, false, Option, none, some, List, ◌≡◌, refl}
use serf_cpp.Msgpack.{Msgpack}
use serf_cpp.Exec.{pure, ◌>>◌, modify}
use serf_cpp.Channel.{World, log, event as event_channel, query as query_channel}
use serf_cpp.Channel.Memory.{M}
use serf_cpp.IoThread.{
  add_log_channel, add_event_channel, add_query_channel, is_connected, connected,
}
use serf_cpp.IoThread.Rpc.{Batch, thread_round}
use serf_cpp.IoThread.Wait.{Env, background}
use serf_cpp.IoThread.Connection.{Dial, start_thread, handshake, join_thread, stop_thread}
use serf_cpp.IoThread.Connection
use serf_cpp.Client.{SerfResponse, success, failure, timeout, response_of, connect, close}
use serf_cpp.Client.Listening.{monitor, stream, query, stop, on_success}
use serf_cpp.Safety.Triple.{Runs, Runs-bind, Runs-weaken, Post-if, Runs-if}
use serf_cpp.Safety.Invariant.{IsSafe, IsSafe-fewer, Frame-refl}
use serf_cpp.Safety.Loop.{Never, thread_round-Tied, background-Tied}
use serf_cpp.Safety.Wait.{Owned, remove_channel-Owned}
use serf_cpp.Safety.Send.{send_data-Dispatched, add_Owned}
use serf_cpp.Safety.Calls.{Safe, request-Safe, answered}

module _ ⦃m : Msgpack⦄ where
  on_success-Owned :
      {A : Type 0} (p : ℕ) (resp : SerfResponse) (action : M (Unit {0})) (a : A)
      → Runs (Owned p) Never action (λ _. Owned p)
      → Runs (Owned p) Never (on_success resp action >> pure a) (λ _. Owned p)
  on_success-Owned p success action a h =
      Runs-bind (λ _. Owned p) action _ h (λ _. record { at = λ w o. o })
  on_success-Owned p failure action a h =
      Runs-bind (λ _. Owned p) (pure tt) _ (record { at = λ w o. o })
        (λ _. record { at = λ w o. o })
  on_success-Owned p timeout action a h =
      Runs-bind (λ _. Owned p) (pure tt) _ (record { at = λ w o. o })
        (λ _. record { at = λ w o. o })

  pub monitor-Safe : (l : String) (i s : ℕ) (env : Env) → Safe (monitor l i s env)
  unfolding monitor add_log_channel
  monitor-Safe l i s env =
      request-Safe _ env _ _ _ _ (λ p. send_data-Dispatched _ _ p env.accepts s)
        λ sent p c. on_success-Owned p (response_of c.hdr) _ _ (add_Owned p c.hdr.seq (log i) refl)

  pub stream-Safe : (t : String) (i s : ℕ) (env : Env) → Safe (stream t i s env)
  unfolding stream add_event_channel
  stream-Safe t i s env =
      request-Safe _ env _ _ _ _ (λ p. send_data-Dispatched _ _ p env.accepts s)
        λ sent p c.
          on_success-Owned p (response_of c.hdr) _ _ (add_Owned p c.hdr.seq (event_channel i) refl)

  pub query-Safe :
      (n : String) (d : List ℕ) (l : ℕ) (a : Bool) (t : ℕ) (fn : Option (List String))
      (ft : Option (List (String × String))) (env : Env)
      → Safe (query n d l a t fn ft env)
  unfolding query add_query_channel
  query-Safe n d l a t fn ft env =
      request-Safe _ env _ _ _ _ (λ p. send_data-Dispatched _ _ p env.accepts 0)
        λ sent p c.
          on_success-Owned p (response_of c.hdr) _ _ (add_Owned p c.hdr.seq (query_channel l) refl)

  pub stop-Safe : (s : ℕ) (env : Env) → Safe (stop s env)
  unfolding stop
  stop-Safe s env =
      request-Safe _ env _ _ _ _ (λ p. send_data-Dispatched _ _ p env.accepts 0)
        λ sent p c. on_success-Owned p (response_of c.hdr) _ _ (remove_channel-Owned p s)

  -- a change of the members that the invariant does not mention
  other-Safe :
      (f : World → World)
      → ((w : World)
          → ((f w).channels ≡ w.channels)
            × ((f w).memory ≡ w.memory)
            × ((f w).next_address ≡ w.next_address))
      → Safe (modify f)
  other-Safe f same = record {
    at = λ w h. let s = same w in IsSafe-fewer w (f w) (λ k q e. rw (← s.0) e) s.1 s.2 h;
  }

  pub background-Safe : (bs : List Batch) → Safe (background bs)
  background-Safe bs = record {
    at = λ w h.
        (Runs-weaken _ (λ v t. t) (λ v e. e) (λ _ v t. t.safe) (background-Tied w bs)).at w
          (record { safe = h; frame = Frame-refl w });
  }

  thread_round-Safe : (b : Batch) → Safe (thread_round b)
  thread_round-Safe b = record {
    at = λ w h.
        (Runs-weaken _ (λ v t. t) (λ v e. e) (λ _ v t. t.safe) (thread_round-Tied w b)).at w
          (record { safe = h; frame = Frame-refl w });
  }

  handshake-Safe : (env : Env) → Safe (handshake env)
  unfolding handshake
  handshake-Safe env =
      request-Safe _ env _ _ _ _ (λ p. send_data-Dispatched _ _ p env.accepts 0)
        (λ sent p c. answered p _)

  start_thread-Safe : Safe start_thread
  unfolding start_thread
  start_thread-Safe = record {
    at = λ w h.
        Post-if Never (λ _. IsSafe) w.running _ _ (λ _. tt)
          (λ _. IsSafe-fewer w (record w { running = true }) (λ k p e. e) refl refl h);
  }

  pub connect-Safe : (a : String) (n : ℕ) (d : Dial) (env : Env) → Safe (connect a n d env)
  unfolding connect Connection.connect
  connect-Safe a n d env =
      Runs-bind (λ _. IsSafe) (Connection.connect a n d env) _ dialled
        (λ _. record { at = λ w h. h })
    where
      done : {A : Type 0} (b : A) → Safe (pure b)
      done b = record { at = λ w h. h }

      dialled : Safe (Connection.connect a n d env)
      dialled =
          Runs-bind (λ _. IsSafe) _ _ (other-Safe _ (λ w. (refl, refl, refl)))
            λ _.
              Runs-if (connected d.descriptor) _ _
                (λ _.
                  Runs-if d.reachable _ _
                    (λ _.
                      Runs-bind (λ _. IsSafe) start_thread _ start_thread-Safe
                        (λ _. handshake-Safe env))
                    (λ _.
                      Runs-bind (λ _. IsSafe) _ _ (other-Safe _ (λ w. (refl, refl, refl)))
                        (λ _. done false)))
                (λ _. done false)

  join_thread-Safe : (b : Option Batch) → Safe (join_thread b)
  unfolding join_thread
  join_thread-Safe none = other-Safe _ (λ w. (refl, refl, refl))
  join_thread-Safe (some b) =
      Runs-bind (λ _. IsSafe) (thread_round b) _ (thread_round-Safe b)
        (λ _. other-Safe _ (λ w. (refl, refl, refl)))

  stop_thread-Safe : (b : Option Batch) → Safe (stop_thread b)
  unfolding stop_thread
  stop_thread-Safe b = record {
    at = λ w h.
        Post-if Never (λ _. IsSafe) w.running _ _ (λ _. (join_thread-Safe b).at w h) (λ _. h);
  }

  pub close-Safe : (b : Option Batch) → Safe (close b)
  unfolding close Connection.close is_connected
  close-Safe b =
      Runs-bind (λ _. IsSafe) (Connection.close b) _ closed (λ _. record { at = λ w h. h })
    where
      closed : Safe (Connection.close b)
      closed =
          Runs-bind (λ _. IsSafe) is_connected _ (record { at = λ w h. h })
            λ c.
              Runs-bind (λ _. IsSafe) _ _
                (Runs-if c _ _
                  (λ _.
                    Runs-bind (λ _. IsSafe) _ _ (other-Safe _ (λ w. (refl, refl, refl)))
                      (λ _. stop_thread-Safe b))
                  (λ _. record { at = λ w h. h }))
                λ _.
                  Runs-bind (λ _. IsSafe) _ _ (other-Safe _ (λ w. (refl, refl, refl)))
                    (λ _. record { at = λ w h. h })
