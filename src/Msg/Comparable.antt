-- ===== src/Msg/Comparable.antt =====
-- The 29 structs whose `operator==` looks at every member and holds no `double`: not those with
-- coordinates, not those with cluster members, and RecordBase has no `operator==`.
use serf_cpp.Prelude.{Bool, Decides}
use serf_cpp.Msg.Kinds.{Kind, StructOf}
use serf_cpp.Msg.Headers.Equal.{
  beq_request_header, beq_response_header, beq_handshake_request, beq_auth_request,
}
use serf_cpp.Msg.Headers.Equality.{
  beq_request_header-Decides, beq_response_header-Decides, beq_handshake_request-Decides,
  beq_auth_request-Decides,
}
use serf_cpp.Msg.Coordinates.Equal.{beq_coord_request}
use serf_cpp.Msg.Coordinates.Equality.{beq_coord_request-Decides}
use serf_cpp.Msg.Keys.Equal.{beq_key_request, beq_key_response, beq_key_list_response}
use serf_cpp.Msg.Keys.Equality.{
  beq_key_request-Decides, beq_key_response-Decides, beq_key_list_response-Decides,
}
use serf_cpp.Msg.Requests.Equal.{
  beq_respond_request, beq_event_request, beq_query_request, beq_force_leave_request,
  beq_join_request, beq_join_response, beq_tags_request, beq_stream_request, beq_monitor_request,
  beq_stop_request,
}
use serf_cpp.Msg.Requests.Equality.{
  beq_respond_request-Decides, beq_event_request-Decides, beq_query_request-Decides,
  beq_force_leave_request-Decides, beq_join_request-Decides, beq_join_response-Decides,
  beq_tags_request-Decides, beq_stream_request-Decides, beq_monitor_request-Decides,
  beq_stop_request-Decides,
}
use serf_cpp.Msg.Members.Equal.{beq_members_filtered_request}
use serf_cpp.Msg.Members.Equality.{beq_members_filtered_request-Decides}
use serf_cpp.Msg.Records.Equal.{
  beq_log_record, beq_user_event_record, beq_query_record, beq_node_response_base, beq_node_ack,
  beq_node_response,
}
use serf_cpp.Msg.Records.Equality.{
  beq_log_record-Decides, beq_user_event_record-Decides, beq_query_record-Decides,
  beq_node_response_base-Decides, beq_node_ack-Decides, beq_node_response-Decides,
}
use serf_cpp.Msg.Stats.Equal.{beq_agent, beq_runtime, beq_serf, beq_stats_response}
use serf_cpp.Msg.Stats.Equality.{
  beq_agent-Decides, beq_runtime-Decides, beq_serf-Decides, beq_stats_response-Decides,
}

pub data Comparable : Type 0 where
  request_header response_header handshake_request auth_request : Comparable
  coord_request : Comparable
  key_request key_response key_list_response : Comparable
  respond_request event_request query_request force_leave_request join_request join_response
        tags_request stream_request monitor_request stop_request :
      Comparable
  members_filtered_request : Comparable
  log_record user_event_record query_record node_response_base node_ack node_response : Comparable
  agent runtime serf stats_response : Comparable

abbrev pub kind_of : Comparable → Kind
kind_of request_header = Kind.request_header
kind_of response_header = Kind.response_header
kind_of handshake_request = Kind.handshake_request
kind_of auth_request = Kind.auth_request
kind_of coord_request = Kind.coord_request
kind_of key_request = Kind.key_request
kind_of respond_request = Kind.respond_request
kind_of key_response = Kind.key_response
kind_of key_list_response = Kind.key_list_response
kind_of event_request = Kind.event_request
kind_of query_request = Kind.query_request
kind_of force_leave_request = Kind.force_leave_request
kind_of join_request = Kind.join_request
kind_of join_response = Kind.join_response
kind_of members_filtered_request = Kind.members_filtered_request
kind_of tags_request = Kind.tags_request
kind_of stream_request = Kind.stream_request
kind_of monitor_request = Kind.monitor_request
kind_of stop_request = Kind.stop_request
kind_of log_record = Kind.log_record
kind_of user_event_record = Kind.user_event_record
kind_of query_record = Kind.query_record
kind_of node_response_base = Kind.node_response_base
kind_of node_ack = Kind.node_ack
kind_of node_response = Kind.node_response
kind_of agent = Kind.agent
kind_of runtime = Kind.runtime
kind_of serf = Kind.serf
kind_of stats_response = Kind.stats_response

unfoldable pub beq : (k : Comparable) → StructOf (kind_of k) → StructOf (kind_of k) → Bool
unfolding beq_request_header beq_response_header beq_handshake_request beq_auth_request
    beq_coord_request beq_key_request beq_respond_request beq_key_response beq_key_list_response
    beq_event_request beq_query_request beq_force_leave_request beq_join_request beq_join_response
    beq_members_filtered_request beq_tags_request beq_stream_request beq_monitor_request
    beq_stop_request beq_log_record beq_user_event_record beq_query_record beq_node_response_base
    beq_node_ack beq_node_response beq_agent beq_runtime beq_serf beq_stats_response
beq request_header = beq_request_header
beq response_header = beq_response_header
beq handshake_request = beq_handshake_request
beq auth_request = beq_auth_request
beq coord_request = beq_coord_request
beq key_request = beq_key_request
beq respond_request = beq_respond_request
beq key_response = beq_key_response
beq key_list_response = beq_key_list_response
beq event_request = beq_event_request
beq query_request = beq_query_request
beq force_leave_request = beq_force_leave_request
beq join_request = beq_join_request
beq join_response = beq_join_response
beq members_filtered_request = beq_members_filtered_request
beq tags_request = beq_tags_request
beq stream_request = beq_stream_request
beq monitor_request = beq_monitor_request
beq stop_request = beq_stop_request
beq log_record = beq_log_record
beq user_event_record = beq_user_event_record
beq query_record = beq_query_record
beq node_response_base = beq_node_response_base
beq node_ack = beq_node_ack
beq node_response = beq_node_response
beq agent = beq_agent
beq runtime = beq_runtime
beq serf = beq_serf
beq stats_response = beq_stats_response

-- For each of the 29 structs, `operator==` is true just for structs that are equal in every member.
pub beq-Decides : (k : Comparable) → Decides (beq k)
unfolding beq
beq-Decides request_header = beq_request_header-Decides
beq-Decides response_header = beq_response_header-Decides
beq-Decides handshake_request = beq_handshake_request-Decides
beq-Decides auth_request = beq_auth_request-Decides
beq-Decides coord_request = beq_coord_request-Decides
beq-Decides key_request = beq_key_request-Decides
beq-Decides respond_request = beq_respond_request-Decides
beq-Decides key_response = beq_key_response-Decides
beq-Decides key_list_response = beq_key_list_response-Decides
beq-Decides event_request = beq_event_request-Decides
beq-Decides query_request = beq_query_request-Decides
beq-Decides force_leave_request = beq_force_leave_request-Decides
beq-Decides join_request = beq_join_request-Decides
beq-Decides join_response = beq_join_response-Decides
beq-Decides members_filtered_request = beq_members_filtered_request-Decides
beq-Decides tags_request = beq_tags_request-Decides
beq-Decides stream_request = beq_stream_request-Decides
beq-Decides monitor_request = beq_monitor_request-Decides
beq-Decides stop_request = beq_stop_request-Decides
beq-Decides log_record = beq_log_record-Decides
beq-Decides user_event_record = beq_user_event_record-Decides
beq-Decides query_record = beq_query_record-Decides
beq-Decides node_response_base = beq_node_response_base-Decides
beq-Decides node_ack = beq_node_ack-Decides
beq-Decides node_response = beq_node_response-Decides
beq-Decides agent = beq_agent-Decides
beq-Decides runtime = beq_runtime-Decides
beq-Decides serf = beq_serf-Decides
beq-Decides stats_response = beq_stats_response-Decides
