-- ===== src/Msg/Records/Codec.antt =====
-- MSGPACK_DEFINE of the records of log, event and query channels: each struct is a map from member names to values. `convert_x o d`
-- converts the object into the struct `d`, `as_x o` into a new struct.
use serf_cpp.Prelude.{String, Option, none, some, List, [], ◌∷◌, map, if◌then◌else◌, ◌>>=◌}
use serf_cpp.Msgpack.{Msgpack, field}
use serf_cpp.Msg.Records.{
  LogRecord, default_log_record, UserEventRecord, default_user_event_record, MemberEventRecord,
  default_member_event_record, QueryRecord, default_query_record, NodeResponseBase,
  default_node_response_base, NodeAck, default_node_ack, NodeResponse, default_node_response,
  RecordBase, default_record_base,
}
use serf_cpp.Msg.Members.Codec.{pack_member, as_members}

module _ ⦃m : Msgpack⦄ where
  open m use {
    Object, of_str, of_bool, of_uint, of_bytes, of_array, of_map, as_str, as_bool, as_uint,
    as_bytes, is_map,
  }

  unfoldable pub fields_log_record : LogRecord → List (String × Object)
  fields_log_record r = ("Log", of_str r.log) ∷ []

  unfoldable pub pack_log_record : LogRecord → Object
  unfolding fields_log_record
  pack_log_record r = of_map (fields_log_record r)

  unfoldable pub convert_log_record : Object → LogRecord → Option LogRecord
  convert_log_record o d =
      if is_map o then (do log ← field "Log" as_str d.log o; some (record { log = log })) else none

  unfoldable pub as_log_record : Object → Option LogRecord
  unfolding convert_log_record
  as_log_record o = convert_log_record o default_log_record

  unfoldable pub fields_user_event_record : UserEventRecord → List (String × Object)
  fields_user_event_record r =
      ("Event", of_str r.event)
      ∷ ("LTime", of_uint r.l_time)
      ∷ ("Name", of_str r.name)
      ∷ ("Payload", of_bytes r.payload)
      ∷ ("Coalesce", of_bool r.coalesce)
      ∷ []

  unfoldable pub pack_user_event_record : UserEventRecord → Object
  unfolding fields_user_event_record
  pack_user_event_record r = of_map (fields_user_event_record r)

  unfoldable pub convert_user_event_record : Object → UserEventRecord → Option UserEventRecord
  convert_user_event_record o d =
      if is_map o
      then (do
        event ← field "Event" as_str d.event o
        l_time ← field "LTime" (as_uint 64) d.l_time o
        name ← field "Name" as_str d.name o
        payload ← field "Payload" as_bytes d.payload o
        coalesce ← field "Coalesce" as_bool d.coalesce o
        some (record {
          event = event;
          l_time = l_time;
          name = name;
          payload = payload;
          coalesce = coalesce;
        }))
      else none

  unfoldable pub as_user_event_record : Object → Option UserEventRecord
  unfolding convert_user_event_record
  as_user_event_record o = convert_user_event_record o default_user_event_record

  unfoldable pub fields_member_event_record : MemberEventRecord → List (String × Object)
  fields_member_event_record r =
      ("Event", of_str r.event) ∷ ("Members", of_array (map pack_member r.members)) ∷ []

  unfoldable pub pack_member_event_record : MemberEventRecord → Object
  unfolding fields_member_event_record
  pack_member_event_record r = of_map (fields_member_event_record r)

  unfoldable pub convert_member_event_record : Object → MemberEventRecord → Option MemberEventRecord
  convert_member_event_record o d =
      if is_map o
      then (do
        event ← field "Event" as_str d.event o
        members ← field "Members" as_members d.members o
        some (record { event = event; members = members }))
      else none

  unfoldable pub as_member_event_record : Object → Option MemberEventRecord
  unfolding convert_member_event_record
  as_member_event_record o = convert_member_event_record o default_member_event_record

  unfoldable pub fields_query_record : QueryRecord → List (String × Object)
  fields_query_record r =
      ("Event", of_str r.event)
      ∷ ("ID", of_uint r.id)
      ∷ ("Name", of_str r.name)
      ∷ ("Payload", of_bytes r.payload)
      ∷ ("LTime", of_uint r.l_time)
      ∷ []

  unfoldable pub pack_query_record : QueryRecord → Object
  unfolding fields_query_record
  pack_query_record r = of_map (fields_query_record r)

  unfoldable pub convert_query_record : Object → QueryRecord → Option QueryRecord
  convert_query_record o d =
      if is_map o
      then (do
        event ← field "Event" as_str d.event o
        id ← field "ID" (as_uint 64) d.id o
        name ← field "Name" as_str d.name o
        payload ← field "Payload" as_bytes d.payload o
        l_time ← field "LTime" (as_uint 64) d.l_time o
        some (record { event = event; id = id; name = name; payload = payload; l_time = l_time }))
      else none

  unfoldable pub as_query_record : Object → Option QueryRecord
  unfolding convert_query_record
  as_query_record o = convert_query_record o default_query_record

  unfoldable pub fields_node_response_base : NodeResponseBase → List (String × Object)
  fields_node_response_base r = ("Type", of_str r.type) ∷ []

  unfoldable pub pack_node_response_base : NodeResponseBase → Object
  unfolding fields_node_response_base
  pack_node_response_base r = of_map (fields_node_response_base r)

  unfoldable pub convert_node_response_base : Object → NodeResponseBase → Option NodeResponseBase
  convert_node_response_base o d =
      if is_map o
      then (do type ← field "Type" as_str d.type o; some (record { type = type }))
      else none

  unfoldable pub as_node_response_base : Object → Option NodeResponseBase
  unfolding convert_node_response_base
  as_node_response_base o = convert_node_response_base o default_node_response_base

  unfoldable pub fields_node_ack : NodeAck → List (String × Object)
  fields_node_ack r = ("Type", of_str r.type) ∷ ("From", of_str r.from) ∷ []

  unfoldable pub pack_node_ack : NodeAck → Object
  unfolding fields_node_ack
  pack_node_ack r = of_map (fields_node_ack r)

  unfoldable pub convert_node_ack : Object → NodeAck → Option NodeAck
  convert_node_ack o d =
      if is_map o
      then (do
        type ← field "Type" as_str d.type o
        from ← field "From" as_str d.from o
        some (record { type = type; from = from }))
      else none

  unfoldable pub as_node_ack : Object → Option NodeAck
  unfolding convert_node_ack
  as_node_ack o = convert_node_ack o default_node_ack

  unfoldable pub fields_node_response : NodeResponse → List (String × Object)
  fields_node_response r =
      ("Type", of_str r.type) ∷ ("From", of_str r.from) ∷ ("Payload", of_bytes r.payload) ∷ []

  unfoldable pub pack_node_response : NodeResponse → Object
  unfolding fields_node_response
  pack_node_response r = of_map (fields_node_response r)

  unfoldable pub convert_node_response : Object → NodeResponse → Option NodeResponse
  convert_node_response o d =
      if is_map o
      then (do
        type ← field "Type" as_str d.type o
        from ← field "From" as_str d.from o
        payload ← field "Payload" as_bytes d.payload o
        some (record { type = type; from = from; payload = payload }))
      else none

  unfoldable pub as_node_response : Object → Option NodeResponse
  unfolding convert_node_response
  as_node_response o = convert_node_response o default_node_response

  unfoldable pub fields_record_base : RecordBase → List (String × Object)
  fields_record_base r = ("Event", of_str r.event) ∷ []

  unfoldable pub pack_record_base : RecordBase → Object
  unfolding fields_record_base
  pack_record_base r = of_map (fields_record_base r)

  unfoldable pub convert_record_base : Object → RecordBase → Option RecordBase
  convert_record_base o d =
      if is_map o
      then (do event ← field "Event" as_str d.event o; some (record { event = event }))
      else none

  unfoldable pub as_record_base : Object → Option RecordBase
  unfolding convert_record_base
  as_record_base o = convert_record_base o default_record_base
