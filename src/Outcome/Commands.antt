-- ===== src/Outcome/Commands.antt =====
-- Commands, whose reply is a header alone, when they are answered.
use serf_cpp.Prelude.{Bool, true, false, ◌&&◌, List, ◌∷◌, ◌≡◌, refl}
use serf_cpp.Msgpack.{Msgpack}
use serf_cpp.Exec.{ok, pure, ◌>>=◌}
use serf_cpp.Msg.Headers.Codec.{pack_auth_request}
use serf_cpp.Msg.Keys.Codec.{pack_key_request}
use serf_cpp.Msg.Requests.Codec.{
  pack_event_request, pack_respond_request, pack_force_leave_request, pack_tags_request,
}
use serf_cpp.Channel.{World, nothing}
use serf_cpp.IoThread.{connected, send_data, send_header}
use serf_cpp.IoThread.Wait.{Env}
use serf_cpp.Channel.Memory.{M}
use serf_cpp.Client.{SerfResponse, failure, timeout, response_of, command}
use serf_cpp.Client.Commands.{auth, use_key, event, respond, force_leave, tags, leave}
use serf_cpp.Client.Session.{
  Call, connects, closes, auths, use_keys, force_leaves, events, responds, tags_set, leaves, joins,
  install_keys, remove_keys, lists_keys, lists_members, filters_members, asks_stats,
  asks_coordinate, monitors, streams, queries, stops, perform, Output, no_output, returning,
  response,
}
use serf_cpp.Outcome.{request_of, forgotten}
use serf_cpp.Outcome.Sending.{send_data_lem, send_header_lem}
use serf_cpp.Outcome.Reply.{Brings, asking-answered}
use serf_cpp.Msg.Headers.{ResponseHeader}
use serf_cpp.IoThread.Rpc.{Batch}
use serf_cpp.Safety.Invariant.{IsSafe}
use serf_cpp.Outcome.Asking.{ready}

abbrev pub is_command : Call → Bool
is_command (auths k) = true
is_command (use_keys k) = true
is_command (force_leaves n) = true
is_command (events n p c) = true
is_command (responds i p) = true
is_command (tags_set t d) = true
is_command leaves = true
is_command _ = false

module _ ⦃m : Msgpack⦄ where
  returning-ok :
      {A : Type 0} (f : A → SerfResponse × Output) (action : M A) {w v : World} {a : A}
      → action w ≡ (ok a, v)
      → returning f action w ≡ (ok (f a), v)
  unfolding ◌>>=◌
  returning-ok f action e = rw e

  -- In a safe state with a running I/O thread, if the message of a command is sent and the first
  -- round brings the header of its reply and nothing else, then the command returns SUCCESS if the
  -- Error of that header is empty and FAILURE otherwise. The request has been written to the socket,
  -- its channel is no longer registered, the header has been consumed, and nothing else has changed.
  pub command-answered :
      (c : Call) (env : Env) (w : World) (b : Batch) (bs : List Batch) (hdr : ResponseHeader)
      (y : m.Unpacker)
      → is_command c ≡ true
      → IsSafe w
      → w.running ≡ true
      → w.shutdown ≡ false
      → (connected w.socket && env.accepts) ≡ true
      → env.arrivals ≡ b ∷ bs
      → Brings w.unpacker b w.seq hdr nothing nothing y
      → perform c env w ≡ (
        ok (response_of hdr, no_output),
        record (forgotten w (request_of c w.seq)) { unpacker = y },
      )
  unfolding perform auth use_key force_leave event respond tags leave
  command-answered (auths k) env w q qs hdr y yes' safe runs on sent arrives h =
      returning-ok response _ (
        asking-answered nothing nothing
          (λ q.
            send_data (command "auth") (pack_auth_request (record { auth_key = k })) q env.accepts
              0)
          (λ _. failure) (λ _. timeout) (λ c s. pure (response_of c.hdr)) env w
          (request_of (auths k) w.seq) q qs hdr y (response_of hdr) safe runs on
          (send_data_lem (command "auth") w.next_address env.accepts 0 (ready w nothing) true sent
            (pack_auth_request (record { auth_key = k })))
          arrives h (λ v. refl))
  command-answered (use_keys k) env w q qs hdr y yes' safe runs on sent arrives h =
      returning-ok response _ (
        asking-answered nothing nothing
          (λ q.
            send_data (command "use-key") (pack_key_request (record { key = k })) q env.accepts 0)
          (λ _. failure) (λ _. timeout) (λ c s. pure (response_of c.hdr)) env w
          (request_of (use_keys k) w.seq) q qs hdr y (response_of hdr) safe runs on
          (send_data_lem (command "use-key") w.next_address env.accepts 0 (ready w nothing) true
            sent (pack_key_request (record { key = k })))
          arrives h (λ v. refl))
  command-answered (force_leaves n) env w q qs hdr y yes' safe runs on sent arrives h =
      returning-ok response _ (
        asking-answered nothing nothing
          (λ q.
            send_data (command "force-leave") (pack_force_leave_request (record { node = n })) q
              env.accepts 0)
          (λ _. failure) (λ _. timeout) (λ c s. pure (response_of c.hdr)) env w
          (request_of (force_leaves n) w.seq) q qs hdr y (response_of hdr) safe runs on
          (send_data_lem (command "force-leave") w.next_address env.accepts 0 (ready w nothing) true
            sent (pack_force_leave_request (record { node = n })))
          arrives h (λ v. refl))
  command-answered (events n p c) env w q qs hdr y yes' safe runs on sent arrives h =
      returning-ok response _ (
        asking-answered nothing nothing
          (λ q.
            send_data (command "event")
              (pack_event_request (record { name = n; payload = p; coalesce = c })) q env.accepts 0)
          (λ _. failure) (λ _. timeout) (λ c s. pure (response_of c.hdr)) env w
          (request_of (events n p c) w.seq) q qs hdr y (response_of hdr) safe runs on
          (send_data_lem (command "event") w.next_address env.accepts 0 (ready w nothing) true sent
            (pack_event_request (record { name = n; payload = p; coalesce = c })))
          arrives h (λ v. refl))
  command-answered (responds i p) env w q qs hdr y yes' safe runs on sent arrives h =
      returning-ok response _ (
        asking-answered nothing nothing
          (λ q.
            send_data (command "respond") (pack_respond_request (record { id = i; payload = p })) q
              env.accepts 0)
          (λ _. failure) (λ _. timeout) (λ c s. pure (response_of c.hdr)) env w
          (request_of (responds i p) w.seq) q qs hdr y (response_of hdr) safe runs on
          (send_data_lem (command "respond") w.next_address env.accepts 0 (ready w nothing) true
            sent (pack_respond_request (record { id = i; payload = p })))
          arrives h (λ v. refl))
  command-answered (tags_set t d) env w q qs hdr y yes' safe runs on sent arrives h =
      returning-ok response _ (
        asking-answered nothing nothing
          (λ q.
            send_data (command "tags") (pack_tags_request (record { tags = t; delete_tags = d })) q
              env.accepts 0)
          (λ _. failure) (λ _. timeout) (λ c s. pure (response_of c.hdr)) env w
          (request_of (tags_set t d) w.seq) q qs hdr y (response_of hdr) safe runs on
          (send_data_lem (command "tags") w.next_address env.accepts 0 (ready w nothing) true sent
            (pack_tags_request (record { tags = t; delete_tags = d })))
          arrives h (λ v. refl))
  command-answered leaves env w q qs hdr y yes' safe runs on sent arrives h =
      returning-ok response _ (
        asking-answered nothing nothing (λ q. send_header (command "leave") q env.accepts 0)
          (λ _. failure) (λ _. timeout) (λ c s. pure (response_of c.hdr)) env w
          (request_of leaves w.seq) q qs hdr y (response_of hdr) safe runs on
          (send_header_lem (command "leave") w.next_address env.accepts 0 (ready w nothing) true
            sent)
          arrives h (λ v. refl))
  command-answered (joins a r c) env w q qs hdr y e safe runs on sent arrives h = cc
  command-answered (install_keys k o) env w q qs hdr y e safe runs on sent arrives h = cc
  command-answered (remove_keys k o) env w q qs hdr y e safe runs on sent arrives h = cc
  command-answered (lists_keys o) env w q qs hdr y e safe runs on sent arrives h = cc
  command-answered (lists_members o) env w q qs hdr y e safe runs on sent arrives h = cc
  command-answered (filters_members t s n o) env w q qs hdr y e safe runs on sent arrives h = cc
  command-answered (asks_stats o) env w q qs hdr y e safe runs on sent arrives h = cc
  command-answered (asks_coordinate n o) env w q qs hdr y e safe runs on sent arrives h = cc
  command-answered (monitors l i s) env w q qs hdr y e safe runs on sent arrives h = cc
  command-answered (streams t i s) env w q qs hdr y e safe runs on sent arrives h = cc
  command-answered (queries n p l a t fn ft) env w q qs hdr y e safe runs on sent arrives h = cc
  command-answered (stops s) env w q qs hdr y e safe runs on sent arrives h = cc
  command-answered (connects ip port dial) env w q qs hdr y e safe runs on sent arrives h = cc
  command-answered (closes b) env w q qs hdr y e safe runs on sent arrives h = cc
