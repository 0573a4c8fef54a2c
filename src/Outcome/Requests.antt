-- ===== src/Outcome/Requests.antt =====
-- Requests that are not sent, or that get no answer in time.
use serf_cpp.Prelude.{true, false, ◌&&◌, [], ◌≡◌}
use serf_cpp.Msgpack.{Msgpack}
use serf_cpp.Exec.{ok, pure, ◌>>◌}
use serf_cpp.Msg.Coordinates.{default_coord_response}
use serf_cpp.Msg.Keys.{default_key_response, default_key_list_response}
use serf_cpp.Msg.Members.{default_members_response}
use serf_cpp.Msg.Requests.{default_join_response}
use serf_cpp.Msg.Stats.{default_stats_response}
use serf_cpp.Msg.Headers.Codec.{pack_auth_request}
use serf_cpp.Msg.Coordinates.Codec.{pack_coord_request}
use serf_cpp.Msg.Keys.Codec.{pack_key_request}
use serf_cpp.Msg.Members.Codec.{pack_members_filtered_request}
use serf_cpp.Msg.Requests.Codec.{
  pack_event_request, pack_respond_request, pack_force_leave_request, pack_tags_request,
  pack_join_request, pack_monitor_request, pack_stream_request, pack_query_request,
  pack_stop_request,
}
use serf_cpp.Channel.{World, Reply, nothing}
use serf_cpp.IoThread.{
  connected, send_data, send_header, add_log_channel, add_event_channel, add_query_channel,
  remove_channel,
}
use serf_cpp.IoThread.Wait.{Env}
use serf_cpp.Client.{failure, timeout, response_of, command}
use serf_cpp.Client.Commands.{auth, use_key, event, respond, force_leave, tags, leave}
use serf_cpp.Client.Queries.{
  join, install_key, list_keys, remove_key, members, members_filtered, stats, get_coordinate,
  join_of, key_of, key_list_of, members_of, stats_of, coord_of,
}
use serf_cpp.Client.Listening.{monitor, stream, query, stop, on_success, seq_on_success, or_default}
use serf_cpp.Client.Session.{
  Call, connects, closes, auths, use_keys, force_leaves, events, responds, tags_set, leaves, joins,
  install_keys, remove_keys, lists_keys, lists_members, filters_members, asks_stats,
  asks_coordinate, monitors, streams, queries, stops, perform, count_out, key_out, key_list_out,
  members_out, stats_out, coord_out, seq_out,
}
use serf_cpp.Outcome.{is_asking, given_to, numbered, request_of, unsent, forgotten}
use serf_cpp.Outcome.Failing.{Fails, asking-Fails, asking_pair-Fails}
use serf_cpp.Outcome.Sending.{send_data_lem, send_header_lem}
use serf_cpp.Safety.Invariant.{IsSafe}

module _ ⦃m : Msgpack⦄ where
  perform-Fails :
      (c : Call) (env : Env)
      → is_asking c ≡ true
      → Fails (perform c env) env (request_of c) (given_to c) (numbered c)
  unfolding perform auth use_key force_leave event respond tags leave join install_key remove_key
      list_keys members members_filtered stats get_coordinate monitor stream query stop
  perform-Fails (auths k) env yes' =
      asking-Fails nothing
        (λ q.
          send_data (command "auth") (pack_auth_request (record { auth_key = k })) q env.accepts 0)
        (λ c s. pure (response_of c.hdr)) env (request_of (auths k)) 0
        (λ w q b e.
          send_data_lem (command "auth") q env.accepts 0 w b e
            (pack_auth_request (record { auth_key = k })))
  perform-Fails (use_keys k) env yes' =
      asking-Fails nothing
        (λ q. send_data (command "use-key") (pack_key_request (record { key = k })) q env.accepts 0)
        (λ c s. pure (response_of c.hdr)) env (request_of (use_keys k)) 0
        (λ w q b e.
          send_data_lem (command "use-key") q env.accepts 0 w b e
            (pack_key_request (record { key = k })))
  perform-Fails (force_leaves n) env yes' =
      asking-Fails nothing
        (λ q.
          send_data (command "force-leave") (pack_force_leave_request (record { node = n })) q
            env.accepts 0)
        (λ c s. pure (response_of c.hdr)) env (request_of (force_leaves n)) 0
        (λ w q b e.
          send_data_lem (command "force-leave") q env.accepts 0 w b e
            (pack_force_leave_request (record { node = n })))
  perform-Fails (events n p c) env yes' =
      asking-Fails nothing
        (λ q.
          send_data (command "event")
            (pack_event_request (record { name = n; payload = p; coalesce = c })) q env.accepts 0)
        (λ c s. pure (response_of c.hdr)) env (request_of (events n p c)) 0
        (λ w q b e.
          send_data_lem (command "event") q env.accepts 0 w b e
            (pack_event_request (record { name = n; payload = p; coalesce = c })))
  perform-Fails (responds i p) env yes' =
      asking-Fails nothing
        (λ q.
          send_data (command "respond") (pack_respond_request (record { id = i; payload = p })) q
            env.accepts 0)
        (λ c s. pure (response_of c.hdr)) env (request_of (responds i p)) 0
        (λ w q b e.
          send_data_lem (command "respond") q env.accepts 0 w b e
            (pack_respond_request (record { id = i; payload = p })))
  perform-Fails (tags_set t d) env yes' =
      asking-Fails nothing
        (λ q.
          send_data (command "tags") (pack_tags_request (record { tags = t; delete_tags = d })) q
            env.accepts 0)
        (λ c s. pure (response_of c.hdr)) env (request_of (tags_set t d)) 0
        (λ w q b e.
          send_data_lem (command "tags") q env.accepts 0 w b e
            (pack_tags_request (record { tags = t; delete_tags = d })))
  perform-Fails leaves env yes' =
      asking-Fails nothing (λ q. send_header (command "leave") q env.accepts 0)
        (λ c s. pure (response_of c.hdr)) env (request_of leaves) 0
        (λ w q b e. send_header_lem (command "leave") q env.accepts 0 w b e)
  perform-Fails (joins a r c) env yes' =
      asking_pair-Fails count_out (λ _. c) (Reply.join default_join_response)
        (λ q.
          send_data (command "join") (pack_join_request (record { existing = a; replay = r })) q
            env.accepts 0)
        (λ k s. pure (response_of k.hdr, (join_of k.reply).num)) env (request_of (joins a r c)) 0
        (λ w q b e.
          send_data_lem (command "join") q env.accepts 0 w b e
            (pack_join_request (record { existing = a; replay = r })))
  perform-Fails (install_keys k o) env yes' =
      asking_pair-Fails key_out (λ _. o) (Reply.key default_key_response)
        (λ q.
          send_data (command "install-key") (pack_key_request (record { key = k })) q env.accepts 0)
        (λ c s. pure (response_of c.hdr, key_of c.reply)) env (request_of (install_keys k o)) 0
        (λ w q b e.
          send_data_lem (command "install-key") q env.accepts 0 w b e
            (pack_key_request (record { key = k })))
  perform-Fails (remove_keys k o) env yes' =
      asking_pair-Fails key_out (λ _. o) (Reply.key default_key_response)
        (λ q.
          send_data (command "remove-key") (pack_key_request (record { key = k })) q env.accepts 0)
        (λ c s. pure (response_of c.hdr, key_of c.reply)) env (request_of (remove_keys k o)) 0
        (λ w q b e.
          send_data_lem (command "remove-key") q env.accepts 0 w b e
            (pack_key_request (record { key = k })))
  perform-Fails (lists_keys o) env yes' =
      asking_pair-Fails key_list_out (λ _. o) (Reply.key_list default_key_list_response)
        (λ q. send_header (command "list-keys") q env.accepts 0)
        (λ c s. pure (response_of c.hdr, key_list_of c.reply)) env (request_of (lists_keys o)) 0
        (λ w q b e. send_header_lem (command "list-keys") q env.accepts 0 w b e)
  perform-Fails (lists_members o) env yes' =
      asking_pair-Fails members_out (λ _. o) (Reply.members default_members_response)
        (λ q. send_header (command "members") q env.accepts 0)
        (λ c s. pure (response_of c.hdr, members_of c.reply)) env (request_of (lists_members o)) 0
        (λ w q b e. send_header_lem (command "members") q env.accepts 0 w b e)
  perform-Fails (filters_members t s n o) env yes' =
      asking_pair-Fails members_out (λ _. o) (Reply.members default_members_response)
        (λ q.
          send_data (command "members-filtered")
            (pack_members_filtered_request (record { tags = t; status = s; name = n })) q
            env.accepts 0)
        (λ c s. pure (response_of c.hdr, members_of c.reply)) env
        (request_of (filters_members t s n o)) 0
        (λ w q b e.
          send_data_lem (command "members-filtered") q env.accepts 0 w b e
            (pack_members_filtered_request (record { tags = t; status = s; name = n })))
  perform-Fails (asks_stats o) env yes' =
      asking_pair-Fails stats_out (λ _. o) (Reply.stats default_stats_response)
        (λ q. send_header (command "stats") q env.accepts 0)
        (λ c s. pure (response_of c.hdr, stats_of c.reply)) env (request_of (asks_stats o)) 0
        (λ w q b e. send_header_lem (command "stats") q env.accepts 0 w b e)
  perform-Fails (asks_coordinate n o) env yes' =
      asking_pair-Fails coord_out (λ _. o) (Reply.coord default_coord_response)
        (λ q.
          send_data (command "get-coordinate") (pack_coord_request (record { node = n })) q
            env.accepts 0)
        (λ c s. pure (response_of c.hdr, coord_of c.reply)) env (request_of (asks_coordinate n o)) 0
        (λ w q b e.
          send_data_lem (command "get-coordinate") q env.accepts 0 w b e
            (pack_coord_request (record { node = n })))
  perform-Fails (monitors l i s) env yes' =
      asking_pair-Fails seq_out (λ q. q) nothing
        (λ q.
          send_data (command "monitor") (pack_monitor_request (record { log_level = l })) q
            env.accepts s)
        (λ c q.
          let resp = response_of c.hdr in
          on_success resp (add_log_channel c.hdr.seq i)
          >> pure (resp, seq_on_success resp c.hdr.seq q))
        env (request_of (monitors l i s)) s
        (λ w q b e.
          send_data_lem (command "monitor") q env.accepts s w b e
            (pack_monitor_request (record { log_level = l })))
  perform-Fails (streams t i s) env yes' =
      asking_pair-Fails seq_out (λ q. q) nothing
        (λ q.
          send_data (command "stream") (pack_stream_request (record { type = t })) q env.accepts s)
        (λ c q.
          let resp = response_of c.hdr in
          on_success resp (add_event_channel c.hdr.seq i)
          >> pure (resp, seq_on_success resp c.hdr.seq q))
        env (request_of (streams t i s)) s
        (λ w q b e.
          send_data_lem (command "stream") q env.accepts s w b e
            (pack_stream_request (record { type = t })))
  perform-Fails (queries n p l a t fn ft) env yes' =
      asking-Fails nothing
        (λ q.
          send_data (command "query")
            (pack_query_request (record {
              filter_nodes = or_default fn [];
              filter_tags = or_default ft [];
              request_ack = a;
              timeout = t;
              name = n;
              payload = p;
            }))
            q env.accepts 0)
        (λ c s.
          let resp = response_of c.hdr in
          on_success resp (add_query_channel c.hdr.seq l) >> pure resp)
        env (request_of (queries n p l a t fn ft)) 0
        (λ w q b e. send_data_lem (command "query") q env.accepts 0 w b e (
          pack_query_request (record {
            filter_nodes = or_default fn [];
            filter_tags = or_default ft [];
            request_ack = a;
            timeout = t;
            name = n;
            payload = p;
          })))
  perform-Fails (stops s) env yes' =
      asking-Fails nothing
        (λ q. send_data (command "stop") (pack_stop_request (record { stop = s })) q env.accepts 0)
        (λ c x. let resp = response_of c.hdr in on_success resp (remove_channel s) >> pure resp) env
        (request_of (stops s)) 0
        (λ w q b e.
          send_data_lem (command "stop") q env.accepts 0 w b e
            (pack_stop_request (record { stop = s })))
  perform-Fails (connects ip port dial) env e = cc
  perform-Fails (closes b) env e = cc

  -- In a safe state, a request method whose message cannot be sent, for want of a socket or
  -- because send() fails, returns FAILURE. It uses up a sequence number and registers, sends and
  -- changes nothing else; its reference arguments hold what they held.
  pub perform-unsent :
      (c : Call) (env : Env) (w : World)
      → is_asking c ≡ true
      → IsSafe w
      → (connected w.socket && env.accepts) ≡ false
      → perform c env w ≡ (ok (failure, given_to c), unsent w)
  perform-unsent c env w yes' h e = (perform-Fails c env yes').refused w h e

  -- In a safe state, a request method whose message is sent, but for which the I/O thread has no
  -- round until the wait times out, returns TIMEOUT; it has handed the socket the header with its
  -- command and the next sequence number and the body of the request, if it has one; its channel
  -- is no longer registered, and nothing else has changed. The variable for the sequence number
  -- that Monitor and Stream have by reference holds the number of the request, and any other
  -- reference argument holds what it held.
  pub perform-unanswered :
      (c : Call) (env : Env) (w : World)
      → is_asking c ≡ true
      → IsSafe w
      → (connected w.socket && env.accepts) ≡ true
      → env.arrivals ≡ []
      → perform c env w ≡ (ok (timeout, numbered c w.seq), forgotten w (request_of c w.seq))
  perform-unanswered c env w yes' h e quiet = (perform-Fails c env yes').expired w h e quiet
