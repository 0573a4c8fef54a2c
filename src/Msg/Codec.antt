-- ===== src/Msg/Codec.antt =====
-- MSGPACK_DEFINE over the family of all message structs.
use serf_cpp.Prelude.{Option}
use serf_cpp.Msgpack.{Msgpack}
use serf_cpp.Msg.Kinds.{
  Kind, StructOf, request_header, response_header, handshake_request, auth_request, coord_request,
  coordinate, coord_response, key_request, respond_request, key_response, key_list_response,
  event_request, query_request, force_leave_request, join_request, join_response, member,
  members_response, members_filtered_request, tags_request, stream_request, monitor_request,
  stop_request, log_record, user_event_record, member_event_record, query_record,
  node_response_base, node_ack, node_response, record_base, agent, runtime, serf, stats_response,
}
use serf_cpp.Msg.Headers.Codec.{
  pack_request_header, convert_request_header, pack_response_header, convert_response_header,
  pack_handshake_request, convert_handshake_request, pack_auth_request, convert_auth_request,
}
use serf_cpp.Msg.Coordinates.Codec.{
  pack_coord_request, convert_coord_request, pack_coordinate, convert_coordinate,
  pack_coord_response, convert_coord_response,
}
use serf_cpp.Msg.Keys.Codec.{
  pack_key_request, convert_key_request, pack_key_response, convert_key_response,
  pack_key_list_response, convert_key_list_response,
}
use serf_cpp.Msg.Requests.Codec.{
  pack_respond_request, convert_respond_request, pack_event_request, convert_event_request,
  pack_query_request, convert_query_request, pack_force_leave_request, convert_force_leave_request,
  pack_join_request, convert_join_request, pack_join_response, convert_join_response,
  pack_tags_request, convert_tags_request, pack_stream_request, convert_stream_request,
  pack_monitor_request, convert_monitor_request, pack_stop_request, convert_stop_request,
}
use serf_cpp.Msg.Members.Codec.{
  pack_member, convert_member, pack_members_response, convert_members_response,
  pack_members_filtered_request, convert_members_filtered_request,
}
use serf_cpp.Msg.Records.Codec.{
  pack_log_record, convert_log_record, pack_user_event_record, convert_user_event_record,
  pack_member_event_record, convert_member_event_record, pack_query_record, convert_query_record,
  pack_node_response_base, convert_node_response_base, pack_node_ack, convert_node_ack,
  pack_node_response, convert_node_response, pack_record_base, convert_record_base,
}
use serf_cpp.Msg.Stats.Codec.{
  pack_agent, convert_agent, pack_runtime, convert_runtime, pack_serf, convert_serf,
  pack_stats_response, convert_stats_response,
}

module _ ⦃m : Msgpack⦄ where
  open m use {Object}

  unfoldable pub pack : (k : Kind) → StructOf k → Object
  unfolding pack_request_header pack_response_header pack_handshake_request pack_auth_request
      pack_coord_request pack_coordinate pack_coord_response pack_key_request pack_respond_request
      pack_key_response pack_key_list_response pack_event_request pack_query_request
      pack_force_leave_request pack_join_request pack_join_response pack_member
      pack_members_response pack_members_filtered_request pack_tags_request pack_stream_request
      pack_monitor_request pack_stop_request pack_log_record pack_user_event_record
      pack_member_event_record pack_query_record pack_node_response_base pack_node_ack
      pack_node_response pack_record_base pack_agent pack_runtime pack_serf pack_stats_response
  pack request_header = pack_request_header
  pack response_header = pack_response_header
  pack handshake_request = pack_handshake_request
  pack auth_request = pack_auth_request
  pack coord_request = pack_coord_request
  pack coordinate = pack_coordinate
  pack coord_response = pack_coord_response
  pack key_request = pack_key_request
  pack respond_request = pack_respond_request
  pack key_response = pack_key_response
  pack key_list_response = pack_key_list_response
  pack event_request = pack_event_request
  pack query_request = pack_query_request
  pack force_leave_request = pack_force_leave_request
  pack join_request = pack_join_request
  pack join_response = pack_join_response
  pack member = pack_member
  pack members_response = pack_members_response
  pack members_filtered_request = pack_members_filtered_request
  pack tags_request = pack_tags_request
  pack stream_request = pack_stream_request
  pack monitor_request = pack_monitor_request
  pack stop_request = pack_stop_request
  pack log_record = pack_log_record
  pack user_event_record = pack_user_event_record
  pack member_event_record = pack_member_event_record
  pack query_record = pack_query_record
  pack node_response_base = pack_node_response_base
  pack node_ack = pack_node_ack
  pack node_response = pack_node_response
  pack record_base = pack_record_base
  pack agent = pack_agent
  pack runtime = pack_runtime
  pack serf = pack_serf
  pack stats_response = pack_stats_response

  unfoldable pub convert : (k : Kind) → Object → StructOf k → Option (StructOf k)
  unfolding convert_request_header convert_response_header convert_handshake_request
      convert_auth_request convert_coord_request convert_coordinate convert_coord_response
      convert_key_request convert_respond_request convert_key_response convert_key_list_response
      convert_event_request convert_query_request convert_force_leave_request convert_join_request
      convert_join_response convert_member convert_members_response convert_members_filtered_request
      convert_tags_request convert_stream_request convert_monitor_request convert_stop_request
      convert_log_record convert_user_event_record convert_member_event_record convert_query_record
      convert_node_response_base convert_node_ack convert_node_response convert_record_base
      convert_agent convert_runtime convert_serf convert_stats_response
  convert request_header = convert_request_header
  convert response_header = convert_response_header
  convert handshake_request = convert_handshake_request
  convert auth_request = convert_auth_request
  convert coord_request = convert_coord_request
  convert coordinate = convert_coordinate
  convert coord_response = convert_coord_response
  convert key_request = convert_key_request
  convert respond_request = convert_respond_request
  convert key_response = convert_key_response
  convert key_list_response = convert_key_list_response
  convert event_request = convert_event_request
  convert query_request = convert_query_request
  convert force_leave_request = convert_force_leave_request
  convert join_request = convert_join_request
  convert join_response = convert_join_response
  convert member = convert_member
  convert members_response = convert_members_response
  convert members_filtered_request = convert_members_filtered_request
  convert tags_request = convert_tags_request
  convert stream_request = convert_stream_request
  convert monitor_request = convert_monitor_request
  convert stop_request = convert_stop_request
  convert log_record = convert_log_record
  convert user_event_record = convert_user_event_record
  convert member_event_record = convert_member_event_record
  convert query_record = convert_query_record
  convert node_response_base = convert_node_response_base
  convert node_ack = convert_node_ack
  convert node_response = convert_node_response
  convert record_base = convert_record_base
  convert agent = convert_agent
  convert runtime = convert_runtime
  convert serf = convert_serf
  convert stats_response = convert_stats_response
