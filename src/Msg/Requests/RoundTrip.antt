-- ===== src/Msg/Requests/RoundTrip.antt =====
-- Converting what MSGPACK_DEFINE packed: the other requests and the reply to join.
use serf_cpp.Prelude.{◌<◌, ◌^◌, IsInt32, true, some, ◌≡◌, refl, ascending}
use serf_cpp.Msgpack.{Msgpack, field_lem, as_strings, as_strings-pack}
use serf_cpp.Msg.Requests.{
  RespondRequest, default_respond_request, EventRequest, default_event_request, QueryRequest,
  default_query_request, ForceLeaveRequest, default_force_leave_request, JoinRequest,
  default_join_request, JoinResponse, default_join_response, TagsRequest, default_tags_request,
  StreamRequest, default_stream_request, MonitorRequest, default_monitor_request, StopRequest,
  default_stop_request,
}
use serf_cpp.Msg.Requests.Codec.{
  pack_respond_request, fields_respond_request, convert_respond_request, as_respond_request,
  pack_event_request, fields_event_request, convert_event_request, as_event_request,
  pack_query_request, fields_query_request, convert_query_request, as_query_request,
  pack_force_leave_request, fields_force_leave_request, convert_force_leave_request,
  as_force_leave_request, pack_join_request, fields_join_request, convert_join_request,
  as_join_request, pack_join_response, fields_join_response, convert_join_response,
  as_join_response, pack_tags_request, fields_tags_request, convert_tags_request, as_tags_request,
  pack_stream_request, fields_stream_request, convert_stream_request, as_stream_request,
  pack_monitor_request, fields_monitor_request, convert_monitor_request, as_monitor_request,
  pack_stop_request, fields_stop_request, convert_stop_request, as_stop_request,
}

abbrev pub IsPackableRespondRequest : RespondRequest → Type 0
IsPackableRespondRequest r = (r.id < 2 ^ 64)

abbrev pub IsPackableQueryRequest : QueryRequest → Type 0
IsPackableQueryRequest r = (ascending r.filter_tags ≡ true) × (r.timeout < 2 ^ 64)

abbrev pub IsPackableJoinResponse : JoinResponse → Type 0
IsPackableJoinResponse r = IsInt32 r.num

abbrev pub IsPackableTagsRequest : TagsRequest → Type 0
IsPackableTagsRequest r = (ascending r.tags ≡ true)

abbrev pub IsPackableStopRequest : StopRequest → Type 0
IsPackableStopRequest r = (r.stop < 2 ^ 64)

module _ ⦃m : Msgpack⦄ where
  open m use {
    is_map-of_map, as_str-of_str, as_bool-of_bool, as_bytes-of_bytes, as_uint-of_uint,
    as_int-of_int, as_str_map-of_str_map, as_str, as_bool, as_uint, as_int, as_bytes, as_str_map,
  }

  pub convert-pack_respond_request :
      (r d : RespondRequest)
      → IsPackableRespondRequest r
      → convert_respond_request (pack_respond_request r) d ≡ some r
  unfolding pack_respond_request convert_respond_request
  convert-pack_respond_request r d h =
      let fs = fields_respond_request r in
      rw (
        is_map-of_map fs,
        field_lem fs (as_uint 64) "ID" d.id r.id _ refl refl (as_uint-of_uint 64 r.id h),
        field_lem fs as_bytes "Payload" d.payload r.payload _ refl refl
            (as_bytes-of_bytes r.payload),
      )

  pub as-pack_respond_request :
      (r : RespondRequest)
      → IsPackableRespondRequest r
      → as_respond_request (pack_respond_request r) ≡ some r
  unfolding as_respond_request
  as-pack_respond_request r h = convert-pack_respond_request r default_respond_request h

  pub convert-pack_event_request :
      (r d : EventRequest) → convert_event_request (pack_event_request r) d ≡ some r
  unfolding pack_event_request convert_event_request
  convert-pack_event_request r d =
      let fs = fields_event_request r in
      rw (
        is_map-of_map fs,
        field_lem fs as_str "Name" d.name r.name _ refl refl (as_str-of_str r.name),
        field_lem fs as_bytes "Payload" d.payload r.payload _ refl refl
            (as_bytes-of_bytes r.payload),
        field_lem fs as_bool "Coalesce" d.coalesce r.coalesce _ refl refl
            (as_bool-of_bool r.coalesce),
      )

  pub as-pack_event_request : (r : EventRequest) → as_event_request (pack_event_request r) ≡ some r
  unfolding as_event_request
  as-pack_event_request r = convert-pack_event_request r default_event_request

  pub convert-pack_query_request :
      (r d : QueryRequest)
      → IsPackableQueryRequest r
      → convert_query_request (pack_query_request r) d ≡ some r
  unfolding pack_query_request convert_query_request
  convert-pack_query_request r d h =
      let fs = fields_query_request r in
      rw (
        is_map-of_map fs,
        field_lem fs as_strings "FilterNodes" d.filter_nodes r.filter_nodes _ refl refl
            (as_strings-pack r.filter_nodes),
        field_lem fs as_str_map "FilterTags" d.filter_tags r.filter_tags _ refl refl
            (as_str_map-of_str_map r.filter_tags h.0),
        field_lem fs as_bool "RequestAck" d.request_ack r.request_ack _ refl refl
            (as_bool-of_bool r.request_ack),
        field_lem fs (as_uint 64) "Timeout" d.timeout r.timeout _ refl refl
            (as_uint-of_uint 64 r.timeout h.1),
        field_lem fs as_str "Name" d.name r.name _ refl refl (as_str-of_str r.name),
        field_lem fs as_bytes "Payload" d.payload r.payload _ refl refl
            (as_bytes-of_bytes r.payload),
      )

  pub as-pack_query_request :
      (r : QueryRequest)
      → IsPackableQueryRequest r
      → as_query_request (pack_query_request r) ≡ some r
  unfolding as_query_request
  as-pack_query_request r h = convert-pack_query_request r default_query_request h

  pub convert-pack_force_leave_request :
      (r d : ForceLeaveRequest)
      → convert_force_leave_request (pack_force_leave_request r) d ≡ some r
  unfolding pack_force_leave_request convert_force_leave_request
  convert-pack_force_leave_request r d =
      let fs = fields_force_leave_request r in
      rw (
        is_map-of_map fs,
        field_lem fs as_str "Node" d.node r.node _ refl refl (as_str-of_str r.node),
      )

  pub as-pack_force_leave_request :
      (r : ForceLeaveRequest) → as_force_leave_request (pack_force_leave_request r) ≡ some r
  unfolding as_force_leave_request
  as-pack_force_leave_request r = convert-pack_force_leave_request r default_force_leave_request

  pub convert-pack_join_request :
      (r d : JoinRequest) → convert_join_request (pack_join_request r) d ≡ some r
  unfolding pack_join_request convert_join_request
  convert-pack_join_request r d =
      let fs = fields_join_request r in
      rw (
        is_map-of_map fs,
        field_lem fs as_strings "Existing" d.existing r.existing _ refl refl
            (as_strings-pack r.existing),
        field_lem fs as_bool "Replay" d.replay r.replay _ refl refl (as_bool-of_bool r.replay),
      )

  pub as-pack_join_request : (r : JoinRequest) → as_join_request (pack_join_request r) ≡ some r
  unfolding as_join_request
  as-pack_join_request r = convert-pack_join_request r default_join_request

  pub convert-pack_join_response :
      (r d : JoinResponse)
      → IsPackableJoinResponse r
      → convert_join_response (pack_join_response r) d ≡ some r
  unfolding pack_join_response convert_join_response
  convert-pack_join_response r d h =
      let fs = fields_join_response r in
      rw (
        is_map-of_map fs,
        field_lem fs as_int "Num" d.num r.num _ refl refl (as_int-of_int r.num h),
      )

  pub as-pack_join_response :
      (r : JoinResponse)
      → IsPackableJoinResponse r
      → as_join_response (pack_join_response r) ≡ some r
  unfolding as_join_response
  as-pack_join_response r h = convert-pack_join_response r default_join_response h

  pub convert-pack_tags_request :
      (r d : TagsRequest)
      → IsPackableTagsRequest r
      → convert_tags_request (pack_tags_request r) d ≡ some r
  unfolding pack_tags_request convert_tags_request
  convert-pack_tags_request r d h =
      let fs = fields_tags_request r in
      rw (
        is_map-of_map fs,
        field_lem fs as_str_map "Tags" d.tags r.tags _ refl refl (as_str_map-of_str_map r.tags h),
        field_lem fs as_strings "DeleteTags" d.delete_tags r.delete_tags _ refl refl
            (as_strings-pack r.delete_tags),
      )

  pub as-pack_tags_request :
      (r : TagsRequest) → IsPackableTagsRequest r → as_tags_request (pack_tags_request r) ≡ some r
  unfolding as_tags_request
  as-pack_tags_request r h = convert-pack_tags_request r default_tags_request h

  pub convert-pack_stream_request :
      (r d : StreamRequest) → convert_stream_request (pack_stream_request r) d ≡ some r
  unfolding pack_stream_request convert_stream_request
  convert-pack_stream_request r d =
      let fs = fields_stream_request r in
      rw (
        is_map-of_map fs,
        field_lem fs as_str "Type" d.type r.type _ refl refl (as_str-of_str r.type),
      )

  pub as-pack_stream_request :
      (r : StreamRequest) → as_stream_request (pack_stream_request r) ≡ some r
  unfolding as_stream_request
  as-pack_stream_request r = convert-pack_stream_request r default_stream_request

  pub convert-pack_monitor_request :
      (r d : MonitorRequest) → convert_monitor_request (pack_monitor_request r) d ≡ some r
  unfolding pack_monitor_request convert_monitor_request
  convert-pack_monitor_request r d =
      let fs = fields_monitor_request r in
      rw (
        is_map-of_map fs,
        field_lem fs as_str "LogLevel" d.log_level r.log_level _ refl refl
            (as_str-of_str r.log_level),
      )

  pub as-pack_monitor_request :
      (r : MonitorRequest) → as_monitor_request (pack_monitor_request r) ≡ some r
  unfolding as_monitor_request
  as-pack_monitor_request r = convert-pack_monitor_request r default_monitor_request

  pub convert-pack_stop_request :
      (r d : StopRequest)
      → IsPackableStopRequest r
      → convert_stop_request (pack_stop_request r) d ≡ some r
  unfolding pack_stop_request convert_stop_request
  convert-pack_stop_request r d h =
      let fs = fields_stop_request r in
      rw (
        is_map-of_map fs,
        field_lem fs (as_uint 64) "Stop" d.stop r.stop _ refl refl (as_uint-of_uint 64 r.stop h),
      )

  pub as-pack_stop_request :
      (r : StopRequest) → IsPackableStopRequest r → as_stop_request (pack_stop_request r) ≡ some r
  unfolding as_stop_request
  as-pack_stop_request r h = convert-pack_stop_request r default_stop_request h
