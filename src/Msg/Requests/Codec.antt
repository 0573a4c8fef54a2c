-- ===== src/Msg/Requests/Codec.antt =====
-- MSGPACK_DEFINE of the other requests and the reply to join: each struct is a map from member names to values. `convert_x o d`
-- converts the object into the struct `d`, `as_x o` into a new struct.
use serf_cpp.Prelude.{String, Option, none, some, List, [], ◌∷◌, if◌then◌else◌, ◌>>=◌}
use serf_cpp.Msgpack.{Msgpack, field, pack_strings, as_strings}
use serf_cpp.Msg.Requests.{
  RespondRequest, default_respond_request, EventRequest, default_event_request, QueryRequest,
  default_query_request, ForceLeaveRequest, default_force_leave_request, JoinRequest,
  default_join_request, JoinResponse, default_join_response, TagsRequest, default_tags_request,
  StreamRequest, default_stream_request, MonitorRequest, default_monitor_request, StopRequest,
  default_stop_request,
}

module _ ⦃m : Msgpack⦄ where
  open m use {
    Object, of_str, of_bool, of_uint, of_int, of_bytes, of_map, of_str_map, as_str, as_bool,
    as_uint, as_int, as_bytes, as_str_map, is_map,
  }

  unfoldable pub fields_respond_request : RespondRequest → List (String × Object)
  fields_respond_request r = ("ID", of_uint r.id) ∷ ("Payload", of_bytes r.payload) ∷ []

  unfoldable pub pack_respond_request : RespondRequest → Object
  unfolding fields_respond_request
  pack_respond_request r = of_map (fields_respond_request r)

  unfoldable pub convert_respond_request : Object → RespondRequest → Option RespondRequest
  convert_respond_request o d =
      if is_map o
      then (do
        id ← field "ID" (as_uint 64) d.id o
        payload ← field "Payload" as_bytes d.payload o
        some (record { id = id; payload = payload }))
      else none

  unfoldable pub as_respond_request : Object → Option RespondRequest
  unfolding convert_respond_request
  as_respond_request o = convert_respond_request o default_respond_request

  unfoldable pub fields_event_request : EventRequest → List (String × Object)
  fields_event_request r =
      ("Name", of_str r.name)
      ∷ ("Payload", of_bytes r.payload)
      ∷ ("Coalesce", of_bool r.coalesce)
      ∷ []

  unfoldable pub pack_event_request : EventRequest → Object
  unfolding fields_event_request
  pack_event_request r = of_map (fields_event_request r)

  unfoldable pub convert_event_request : Object → EventRequest → Option EventRequest
  convert_event_request o d =
      if is_map o
      then (do
        name ← field "Name" as_str d.name o
        payload ← field "Payload" as_bytes d.payload o
        coalesce ← field "Coalesce" as_bool d.coalesce o
        some (record { name = name; payload = payload; coalesce = coalesce }))
      else none

  unfoldable pub as_event_request : Object → Option EventRequest
  unfolding convert_event_request
  as_event_request o = convert_event_request o default_event_request

  unfoldable pub fields_query_request : QueryRequest → List (String × Object)
  fields_query_request r =
      ("FilterNodes", pack_strings r.filter_nodes)
      ∷ ("FilterTags", of_str_map r.filter_tags)
      ∷ ("RequestAck", of_bool r.request_ack)
      ∷ ("Timeout", of_uint r.timeout)
      ∷ ("Name", of_str r.name)
      ∷ ("Payload", of_bytes r.payload)
      ∷ []

  unfoldable pub pack_query_request : QueryRequest → Object
  unfolding fields_query_request
  pack_query_request r = of_map (fields_query_request r)

  unfoldable pub convert_query_request : Object → QueryRequest → Option QueryRequest
  convert_query_request o d =
      if is_map o
      then (do
        filter_nodes ← field "FilterNodes" as_strings d.filter_nodes o
        filter_tags ← field "FilterTags" as_str_map d.filter_tags o
        request_ack ← field "RequestAck" as_bool d.request_ack o
        timeout ← field "Timeout" (as_uint 64) d.timeout o
        name ← field "Name" as_str d.name o
        payload ← field "Payload" as_bytes d.payload o
        some (record {
          filter_nodes = filter_nodes;
          filter_tags = filter_tags;
          request_ack = request_ack;
          timeout = timeout;
          name = name;
          payload = payload;
        }))
      else none

  unfoldable pub as_query_request : Object → Option QueryRequest
  unfolding convert_query_request
  as_query_request o = convert_query_request o default_query_request

  unfoldable pub fields_force_leave_request : ForceLeaveRequest → List (String × Object)
  fields_force_leave_request r = ("Node", of_str r.node) ∷ []

  unfoldable pub pack_force_leave_request : ForceLeaveRequest → Object
  unfolding fields_force_leave_request
  pack_force_leave_request r = of_map (fields_force_leave_request r)

  unfoldable pub convert_force_leave_request : Object → ForceLeaveRequest → Option ForceLeaveRequest
  convert_force_leave_request o d =
      if is_map o
      then (do node ← field "Node" as_str d.node o; some (record { node = node }))
      else none

  unfoldable pub as_force_leave_request : Object → Option ForceLeaveRequest
  unfolding convert_force_leave_request
  as_force_leave_request o = convert_force_leave_request o default_force_leave_request

  unfoldable pub fields_join_request : JoinRequest → List (String × Object)
  fields_join_request r = ("Existing", pack_strings r.existing) ∷ ("Replay", of_bool r.replay) ∷ []

  unfoldable pub pack_join_request : JoinRequest → Object
  unfolding fields_join_request
  pack_join_request r = of_map (fields_join_request r)

  unfoldable pub convert_join_request : Object → JoinRequest → Option JoinRequest
  convert_join_request o d =
      if is_map o
      then (do
        existing ← field "Existing" as_strings d.existing o
        replay ← field "Replay" as_bool d.replay o
        some (record { existing = existing; replay = replay }))
      else none

  unfoldable pub as_join_request : Object → Option JoinRequest
  unfolding convert_join_request
  as_join_request o = convert_join_request o default_join_request

  unfoldable pub fields_join_response : JoinResponse → List (String × Object)
  fields_join_response r = ("Num", of_int r.num) ∷ []

  unfoldable pub pack_join_response : JoinResponse → Object
  unfolding fields_join_response
  pack_join_response r = of_map (fields_join_response r)

  unfoldable pub convert_join_response : Object → JoinResponse → Option JoinResponse
  convert_join_response o d =
      if is_map o then (do num ← field "Num" as_int d.num o; some (record { num = num })) else none

  unfoldable pub as_join_response : Object → Option JoinResponse
  unfolding convert_join_response
  as_join_response o = convert_join_response o default_join_response

  unfoldable pub fields_tags_request : TagsRequest → List (String × Object)
  fields_tags_request r =
      ("Tags", of_str_map r.tags) ∷ ("DeleteTags", pack_strings r.delete_tags) ∷ []

  unfoldable pub pack_tags_request : TagsRequest → Object
  unfolding fields_tags_request
  pack_tags_request r = of_map (fields_tags_request r)

  unfoldable pub convert_tags_request : Object → TagsRequest → Option TagsRequest
  convert_tags_request o d =
      if is_map o
      then (do
        tags ← field "Tags" as_str_map d.tags o
        delete_tags ← field "DeleteTags" as_strings d.delete_tags o
        some (record { tags = tags; delete_tags = delete_tags }))
      else none

  unfoldable pub as_tags_request : Object → Option TagsRequest
  unfolding convert_tags_request
  as_tags_request o = convert_tags_request o default_tags_request

  unfoldable pub fields_stream_request : StreamRequest → List (String × Object)
  fields_stream_request r = ("Type", of_str r.type) ∷ []

  unfoldable pub pack_stream_request : StreamRequest → Object
  unfolding fields_stream_request
  pack_stream_request r = of_map (fields_stream_request r)

  unfoldable pub convert_stream_request : Object → StreamRequest → Option StreamRequest
  convert_stream_request o d =
      if is_map o
      then (do type ← field "Type" as_str d.type o; some (record { type = type }))
      else none

  unfoldable pub as_stream_request : Object → Option StreamRequest
  unfolding convert_stream_request
  as_stream_request o = convert_stream_request o default_stream_request

  unfoldable pub fields_monitor_request : MonitorRequest → List (String × Object)
  fields_monitor_request r = ("LogLevel", of_str r.log_level) ∷ []

  unfoldable pub pack_monitor_request : MonitorRequest → Object
  unfolding fields_monitor_request
  pack_monitor_request r = of_map (fields_monitor_request r)

  unfoldable pub convert_monitor_request : Object → MonitorRequest → Option MonitorRequest
  convert_monitor_request o d =
      if is_map o
      then (do
        log_level ← field "LogLevel" as_str d.log_level o
        some (record { log_level = log_level }))
      else none

  unfoldable pub as_monitor_request : Object → Option MonitorRequest
  unfolding convert_monitor_request
  as_monitor_request o = convert_monitor_request o default_monitor_request

  unfoldable pub fields_stop_request : StopRequest → List (String × Object)
  fields_stop_request r = ("Stop", of_uint r.stop) ∷ []

  unfoldable pub pack_stop_request : StopRequest → Object
  unfolding fields_stop_request
  pack_stop_request r = of_map (fields_stop_request r)

  unfoldable pub convert_stop_request : Object → StopRequest → Option StopRequest
  convert_stop_request o d =
      if is_map o
      then (do stop ← field "Stop" (as_uint 64) d.stop o; some (record { stop = stop }))
      else none

  unfoldable pub as_stop_request : Object → Option StopRequest
  unfolding convert_stop_request
  as_stop_request o = convert_stop_request o default_stop_request
