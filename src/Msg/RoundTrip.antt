-- ===== src/Msg/RoundTrip.antt =====
-- Converting what MSGPACK_DEFINE packed, for every message struct.
use serf_cpp.Prelude.{some, ◌≡◌}
use serf_cpp.Msgpack.{Msgpack}
use serf_cpp.Msg.Kinds.{
  Kind, StructOf, IsPackable, request_header, response_header, handshake_request, auth_request,
  coord_request, coordinate, coord_response, key_request, respond_request, key_response,
  key_list_response, event_request, query_request, force_leave_request, join_request, join_response,
  member, members_response, members_filtered_request, tags_request, stream_request, monitor_request,
  stop_request, log_record, user_event_record, member_event_record, query_record,
  node_response_base, node_ack, node_response, record_base, agent, runtime, serf, stats_response,
}
use serf_cpp.Msg.Codec.{pack, convert}
use serf_cpp.Msg.Headers.RoundTrip.{
  convert-pack_request_header, convert-pack_response_header, convert-pack_handshake_request,
  convert-pack_auth_request,
}
use serf_cpp.Msg.Coordinates.RoundTrip.{
  convert-pack_coord_request, convert-pack_coordinate, convert-pack_coord_response,
}
use serf_cpp.Msg.Keys.RoundTrip.{
  convert-pack_key_request, convert-pack_key_response, convert-pack_key_list_response,
}
use serf_cpp.Msg.Requests.RoundTrip.{
  convert-pack_respond_request, convert-pack_event_request, convert-pack_query_request,
  convert-pack_force_leave_request, convert-pack_join_request, convert-pack_join_response,
  convert-pack_tags_request, convert-pack_stream_request, convert-pack_monitor_request,
  convert-pack_stop_request,
}
use serf_cpp.Msg.Members.RoundTrip.{
  convert-pack_member, convert-pack_members_response, convert-pack_members_filtered_request,
}
use serf_cpp.Msg.Records.RoundTrip.{
  convert-pack_log_record, convert-pack_user_event_record, convert-pack_member_event_record,
  convert-pack_query_record, convert-pack_node_response_base, convert-pack_node_ack,
  convert-pack_node_response, convert-pack_record_base,
}
use serf_cpp.Msg.Stats.RoundTrip.{
  convert-pack_agent, convert-pack_runtime, convert-pack_serf, convert-pack_stats_response,
}

module _ ⦃m : Msgpack⦄ where
  -- For each of the 35 message structs, if its integers are within the range of their C++ types and
  -- its maps have each key once, in order, then packing it and converting the object into a struct
  -- with any other content gives the struct back.
  pub convert-pack :
      (k : Kind) (r d : StructOf k) → IsPackable k r → convert k (pack k r) d ≡ some r
  unfolding pack convert
  convert-pack request_header r d h = convert-pack_request_header r d h
  convert-pack response_header r d h = convert-pack_response_header r d h
  convert-pack handshake_request r d h = convert-pack_handshake_request r d h
  convert-pack auth_request r d h = convert-pack_auth_request r d
  convert-pack coord_request r d h = convert-pack_coord_request r d
  convert-pack coordinate r d h = convert-pack_coordinate r d
  convert-pack coord_response r d h = convert-pack_coord_response r d
  convert-pack key_request r d h = convert-pack_key_request r d
  convert-pack respond_request r d h = convert-pack_respond_request r d h
  convert-pack key_response r d h = convert-pack_key_response r d h
  convert-pack key_list_response r d h = convert-pack_key_list_response r d h
  convert-pack event_request r d h = convert-pack_event_request r d
  convert-pack query_request r d h = convert-pack_query_request r d h
  convert-pack force_leave_request r d h = convert-pack_force_leave_request r d
  convert-pack join_request r d h = convert-pack_join_request r d
  convert-pack join_response r d h = convert-pack_join_response r d h
  convert-pack member r d h = convert-pack_member r d h
  convert-pack members_response r d h = convert-pack_members_response r d h
  convert-pack members_filtered_request r d h = convert-pack_members_filtered_request r d h
  convert-pack tags_request r d h = convert-pack_tags_request r d h
  convert-pack stream_request r d h = convert-pack_stream_request r d
  convert-pack monitor_request r d h = convert-pack_monitor_request r d
  convert-pack stop_request r d h = convert-pack_stop_request r d h
  convert-pack log_record r d h = convert-pack_log_record r d
  convert-pack user_event_record r d h = convert-pack_user_event_record r d h
  convert-pack member_event_record r d h = convert-pack_member_event_record r d h
  convert-pack query_record r d h = convert-pack_query_record r d h
  convert-pack node_response_base r d h = convert-pack_node_response_base r d
  convert-pack node_ack r d h = convert-pack_node_ack r d
  convert-pack node_response r d h = convert-pack_node_response r d
  convert-pack record_base r d h = convert-pack_record_base r d
  convert-pack agent r d h = convert-pack_agent r d
  convert-pack runtime r d h = convert-pack_runtime r d
  convert-pack serf r d h = convert-pack_serf r d
  convert-pack stats_response r d h = convert-pack_stats_response r d
