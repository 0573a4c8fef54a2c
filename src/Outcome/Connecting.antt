-- ===== src/Outcome/Connecting.antt =====
-- SerfIoThread::Connect, answered and made again, and SerfIoThread::Close.
use serf_cpp.Prelude.{
  ℕ, String, Bool, true, false, ◌&&◌, Option, none, some, List, [], ◌∷◌, pos, ◌≡◌, refl, ap, ◌∙◌,
  arith, str_eq, if◌then◌else◌, Bool-cases, inl, inr,
}
use serf_cpp.Msgpack.{Msgpack}
use serf_cpp.Channel.Memory.{M}
use serf_cpp.Exec.{chain, Result, ok, terminated, pure, ◌>>=◌}
use serf_cpp.Msg.Headers.{default_handshake_request}
use serf_cpp.Msg.Headers.Codec.{pack_handshake_request, pack_request_header}
use serf_cpp.Channel.{World, nothing}
use serf_cpp.IoThread.{connected, is_connected, send_data}
use serf_cpp.IoThread.Rpc.{Batch}
use serf_cpp.Msg.Headers.{ResponseHeader}
use serf_cpp.Outcome.Reply.{Brings, asking-answered}
use serf_cpp.IoThread.Wait.{Env}
use serf_cpp.IoThread.Connection.{connect, close, handshake, start_thread, stop_thread, join_thread}
use serf_cpp.Client.{command}
use serf_cpp.Outcome.{unsent, forgotten}
use serf_cpp.Outcome.Asking.{ready, asking-unsent, asking-unanswered}
use serf_cpp.Outcome.Sending.{send_data_lem}
use serf_cpp.Safety.Invariant.{IsSafe}

module _ ⦃m : Msgpack⦄ (ip : String) (port : ℕ) where
  -- the state once socket() has answered
  abbrev pub dialled : Option ℕ → World → World
  dialled fd w = record w { ip_addr = ip; port = port; socket = fd }

  -- What Connect does once socket() and connect() have answered, by their answers and by whether
  -- the I/O thread of an earlier Connect has not been joined.
  abbrev pub connected_by : Option ℕ → Bool → Bool → Env → World → Result Bool × World
  connected_by none reachable running env w = (ok false, dialled none w)
  connected_by (some fd) false running env w = (ok false, dialled none w)
  connected_by (some fd) true true env w = (terminated, dialled (some fd) w)
  connected_by (some fd) true false env w =
      handshake env (record (dialled (some fd) w) { running = true })

  started : ℕ → Env → World → Bool → Result Bool × World
  unfolding ◌>>=◌
  started fd env w running =
      let v = dialled (some fd) w in
      let r : Result (Unit {0}) × World =
        if running then (terminated, v) else (ok tt, record v { running = true }) in
      chain r.0 (λ _. handshake env) r.1

  connect_by :
      (fd : Option ℕ) (reachable running : Bool) (env : Env) (w : World)
      → w.running ≡ running
      → connect ip port (record { descriptor = fd; reachable = reachable }) env w
        ≡ connected_by fd reachable running env w
  unfolding connect start_thread started ◌>>=◌
  connect_by none reachable running env w e = refl
  connect_by (some fd) false running env w e = refl
  connect_by (some fd) true true env w e = ap (started fd env w) e
  connect_by (some fd) true false env w e = ap (started fd env w) e

module _ ⦃m : Msgpack⦄ where
  -- without an answer the handshake fails, and the I/O thread keeps running
  handshake-unanswered :
      (env : Env) (w : World)
      → IsSafe w
      → env.arrivals ≡ []
      → (v : World) × (handshake env w ≡ (ok false, v)) × (v.running ≡ w.running)
  unfolding handshake
  handshake-unanswered env w h quiet = elim (Bool-cases (connected w.socket && env.accepts)) [
    | inl yes' ↦ (
      forgotten w (pack_request_header (record (command "handshake") { seq = w.seq }) ∷ body ∷ []),
      asking-unanswered nothing send (λ _. false) (λ _. false) (λ c s. pure (str_eq c.hdr.error ""))
          env w _ (h.fresh w.next_address (omega arith))
          (send_data_lem (command "handshake") w.next_address env.accepts 0 (ready w nothing) true
            yes' body)
          quiet,
      refl,
    )
    | inr no' ↦ (
      unsent w,
      asking-unsent nothing send (λ _. false) (λ _. false) (λ c s. pure (str_eq c.hdr.error "")) env
          w 0 (h.fresh w.next_address (omega arith))
          (send_data_lem (command "handshake") w.next_address env.accepts 0 (ready w nothing) false
            no' body),
      refl,
    )
  ]
    where
      body : m.Object
      body = pack_handshake_request (record default_handshake_request { version = pos 1 })

      send : ℕ → M (Bool × ℕ)
      send q = send_data (command "handshake") body q env.accepts 0

  -- the request of the handshake, as number n
  abbrev pub handshake_of : ℕ → List m.Object
  handshake_of n =
      pack_request_header (record (command "handshake") { seq = n })
      ∷ pack_handshake_request (record { version = pos 1 })
      ∷ []

  -- the state while Connect waits for the reply to the handshake
  abbrev pub shaking : String → ℕ → ℕ → World → World
  shaking ip port fd w = record w { ip_addr = ip; port = port; socket = some fd; running = true }

  -- In a safe state whose I/O thread does not run, if Connect reaches the agent, the message of the
  -- handshake is sent, and the first round brings the header of its reply and nothing else, then
  -- Connect returns true just if the Error of that header is empty. The address, the port and the
  -- socket are stored, the I/O thread runs, the handshake with the next sequence number and version
  -- 1 has been written to the socket, its channel is no longer registered, the header has been
  -- consumed, and nothing else has changed.
  pub connect-answered :
      (ip : String) (port fd : ℕ) (env : Env) (w : World) (b : Batch) (bs : List Batch)
      (hdr : ResponseHeader) (y : m.Unpacker)
      → IsSafe w
      → w.running ≡ false
      → w.shutdown ≡ false
      → env.accepts ≡ true
      → env.arrivals ≡ b ∷ bs
      → Brings w.unpacker b w.seq hdr nothing nothing y
      → connect ip port (record { descriptor = some fd; reachable = true }) env w ≡ (
        ok (str_eq hdr.error ""),
        record (forgotten (shaking ip port fd w) (handshake_of w.seq)) { unpacker = y },
      )
  unfolding handshake
  connect-answered ip port fd env w b bs hdr y h idle on accepts arrives brings =
      connect_by ip port (some fd) true false env w idle
      ∙ asking-answered nothing nothing
          (λ q.
            send_data (command "handshake") (pack_handshake_request (record { version = pos 1 })) q
              env.accepts 0)
          (λ _. false) (λ _. false) (λ c s. pure (str_eq c.hdr.error "")) env (shaking ip port fd w)
          (handshake_of w.seq) b bs hdr y (str_eq hdr.error "") safe refl on
          (send_data_lem (command "handshake") w.next_address env.accepts 0
            (ready (shaking ip port fd w) nothing) true accepts
            (pack_handshake_request (record { version = pos 1 })))
          arrives brings (λ v. refl)
    where
      safe : IsSafe (shaking ip port fd w)
      safe = record { live = h.live; alone = h.alone; fresh = h.fresh; waiting = h.waiting }

  -- Connect fails if its handshake has no answer in time; and after that a second Connect that
  -- reaches the agent, with nothing in between, ends the program.
  pub connect-again :
      (ip ip' : String) (port port' fd fd' : ℕ) (env env' : Env) (w : World)
      → IsSafe w
      → w.running ≡ false
      → env.arrivals ≡ []
      → ((connect ip port (record { descriptor = some fd; reachable = true }) env w).0 ≡ ok false)
        × ((connect ip' port'
              (record { descriptor = some fd'; reachable = true })
              env'
              (connect ip port (record { descriptor = some fd; reachable = true }) env w).1).0
            ≡ terminated)
  connect-again ip ip' port port' fd fd' env env' w h idle quiet =
      let w1 : World = record w { ip_addr = ip; port = port; socket = some fd; running = true } in
      let s1 : IsSafe w1 = record {
        live = h.live;
        alone = h.alone;
        fresh = h.fresh;
        waiting = h.waiting;
      } in
      let (v, e, runs) = handshake-unanswered env w1 s1 quiet in
      let first = connect_by ip port (some fd) true false env w idle ∙ e in
      (
        ap (λ r. r.0) first,
        ap
              (λ r.
                (connect ip' port' (record { descriptor = some fd'; reachable = true }) env' r.1).0)
              first
            ∙ ap (λ r. r.0) (connect_by ip' port' (some fd') true true env' v runs),
      )

  -- Close with no round of the I/O thread under way returns true and ends the thread, if there is a
  -- socket; the next sequence number is 0, and whatever else there was stays, the socket and the
  -- registered channels included.
  pub close_lem :
      (w : World)
      → close none w ≡ (
        ok true,
        record w {
          shutdown = false;
          seq = 0;
          running = if connected w.socket then false else w.running;
        },
      )
  unfolding close is_connected stop_thread join_thread ◌>>=◌
  close_lem w = ground arith
