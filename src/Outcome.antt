-- ===== src/Outcome.antt =====
-- What the request methods of src/SerfClient.cpp promise their callers: the messages that they send,
-- and the outcome when a request cannot be sent, is not answered in time, or is answered.
pub mod Asking
pub mod Sending
pub mod Failing
pub mod Requests
pub mod Answer
pub mod Reply
pub mod Commands
pub mod Questions
pub mod Connecting
pub mod Listeners
pub mod Continued
pub mod Stopping
use serf_cpp.Prelude.{
  ℕ, suc, ◌+◌, ◌%◌, ◌^◌, String, Bool, true, false, Option, none, some, List, [], ◌∷◌, ◌++◌,
}
use serf_cpp.Msgpack.{Msgpack}
use serf_cpp.SeqMap.{erase}
use serf_cpp.Channel.{World}
use serf_cpp.Client.{command}
use serf_cpp.Client.Listening.{or_default}
use serf_cpp.Client.Session.{
  Call, connects, closes, auths, use_keys, force_leaves, events, responds, tags_set, leaves, joins,
  install_keys, remove_keys, lists_keys, lists_members, filters_members, asks_stats,
  asks_coordinate, monitors, streams, queries, stops, Output, no_output, count_out, key_out,
  key_list_out, members_out, stats_out, coord_out, seq_out,
}
use serf_cpp.Msg.Headers.Codec.{pack_request_header, pack_auth_request}
use serf_cpp.Msg.Coordinates.Codec.{pack_coord_request}
use serf_cpp.Msg.Keys.Codec.{pack_key_request}
use serf_cpp.Msg.Members.Codec.{pack_members_filtered_request}
use serf_cpp.Msg.Requests.Codec.{
  pack_event_request, pack_respond_request, pack_force_leave_request, pack_tags_request,
  pack_join_request, pack_monitor_request, pack_stream_request, pack_query_request,
  pack_stop_request,
}

-- the calls that send one request and wait for its reply
abbrev pub is_asking : Call → Bool
is_asking (connects ip port dial) = false
is_asking (closes b) = false
is_asking _ = true

-- the command of a request, as the agent's protocol names it
abbrev pub command_of : Call → String
command_of (auths k) = "auth"
command_of (use_keys k) = "use-key"
command_of (force_leaves n) = "force-leave"
command_of (events n p c) = "event"
command_of (responds i p) = "respond"
command_of (tags_set t d) = "tags"
command_of leaves = "leave"
command_of (joins a r c) = "join"
command_of (install_keys k o) = "install-key"
command_of (remove_keys k o) = "remove-key"
command_of (lists_keys o) = "list-keys"
command_of (lists_members o) = "members"
command_of (filters_members t s n o) = "members-filtered"
command_of (asks_stats o) = "stats"
command_of (asks_coordinate n o) = "get-coordinate"
command_of (monitors l i s) = "monitor"
command_of (streams t i s) = "stream"
command_of (queries n p l a t fn ft) = "query"
command_of (stops s) = "stop"
command_of (connects ip port dial) = "handshake"
command_of (closes b) = ""

-- the caller's variable as it is passed to a method
abbrev pub given_to : Call → Output
given_to (joins a r c) = count_out c
given_to (install_keys k o) = key_out o
given_to (remove_keys k o) = key_out o
given_to (lists_keys o) = key_list_out o
given_to (lists_members o) = members_out o
given_to (filters_members t s n o) = members_out o
given_to (asks_stats o) = stats_out o
given_to (asks_coordinate n o) = coord_out o
given_to (monitors l i s) = seq_out s
given_to (streams t i s) = seq_out s
given_to _ = no_output

-- the same once the request has been sent as number n: only a variable for that number changes
abbrev pub numbered : Call → ℕ → Output
numbered (monitors l i s) n = seq_out n
numbered (streams t i s) n = seq_out n
numbered c n = given_to c

module _ ⦃m : Msgpack⦄ where
  open m use {Object}

  -- the body of a request, for the commands that have one
  abbrev pub body_of : Call → List Object
  body_of (auths k) = pack_auth_request (record { auth_key = k }) ∷ []
  body_of (use_keys k) = pack_key_request (record { key = k }) ∷ []
  body_of (force_leaves n) = pack_force_leave_request (record { node = n }) ∷ []
  body_of (events n p c) = pack_event_request (record { name = n; payload = p; coalesce = c }) ∷ []
  body_of (responds i p) = pack_respond_request (record { id = i; payload = p }) ∷ []
  body_of (tags_set t d) = pack_tags_request (record { tags = t; delete_tags = d }) ∷ []
  body_of leaves = []
  body_of (joins a r c) = pack_join_request (record { existing = a; replay = r }) ∷ []
  body_of (install_keys k o) = pack_key_request (record { key = k }) ∷ []
  body_of (remove_keys k o) = pack_key_request (record { key = k }) ∷ []
  body_of (lists_keys o) = []
  body_of (lists_members o) = []
  body_of (filters_members t s n o) =
      pack_members_filtered_request (record { tags = t; status = s; name = n }) ∷ []
  body_of (asks_stats o) = []
  body_of (asks_coordinate n o) = pack_coord_request (record { node = n }) ∷ []
  body_of (monitors l i s) = pack_monitor_request (record { log_level = l }) ∷ []
  body_of (streams t i s) = pack_stream_request (record { type = t }) ∷ []
  body_of (queries n p l a t fn ft) =
      pack_query_request (record {
        filter_nodes = or_default fn [];
        filter_tags = or_default ft [];
        request_ack = a;
        timeout = t;
        name = n;
        payload = p;
      })
      ∷ []
  body_of (stops s) = pack_stop_request (record { stop = s }) ∷ []
  body_of (connects ip port dial) = []
  body_of (closes b) = []

  -- the objects that a request with sequence number n hands to the socket
  abbrev pub request_of : Call → ℕ → List Object
  request_of c n = pack_request_header (record (command (command_of c)) { seq = n }) ∷ body_of c

  -- the state after a request that was not sent
  abbrev pub unsent : World → World
  unsent w = record w { seq = (w.seq + 1) % 2 ^ 64; next_address = suc w.next_address }

  -- the state after a request that was sent, and is registered no more
  abbrev pub forgotten : World → List m.Object → World
  forgotten w message = record w {
    seq = (w.seq + 1) % 2 ^ 64;
    next_address = suc w.next_address;
    wire = w.wire ++ message;
    channels = erase w.seq w.channels;
  }
