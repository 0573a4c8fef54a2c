-- ===== src/Msg/Records/RoundTrip.antt =====
-- Converting what MSGPACK_DEFINE packed: the records of log, event and query channels.
use serf_cpp.Prelude.{◌<◌, ◌^◌, some, ◌≡◌, refl, All}
use serf_cpp.Msgpack.{Msgpack, field_lem}
use serf_cpp.Msg.Records.{
  LogRecord, default_log_record, UserEventRecord, default_user_event_record, MemberEventRecord,
  default_member_event_record, QueryRecord, default_query_record, NodeResponseBase,
  default_node_response_base, NodeAck, default_node_ack, NodeResponse, default_node_response,
  RecordBase, default_record_base,
}
use serf_cpp.Msg.Records.Codec.{
  pack_log_record, fields_log_record, convert_log_record, as_log_record, pack_user_event_record,
  fields_user_event_record, convert_user_event_record, as_user_event_record,
  pack_member_event_record, fields_member_event_record, convert_member_event_record,
  as_member_event_record, pack_query_record, fields_query_record, convert_query_record,
  as_query_record, pack_node_response_base, fields_node_response_base, convert_node_response_base,
  as_node_response_base, pack_node_ack, fields_node_ack, convert_node_ack, as_node_ack,
  pack_node_response, fields_node_response, convert_node_response, as_node_response,
  pack_record_base, fields_record_base, convert_record_base, as_record_base,
}
use serf_cpp.Msg.Members.Codec.{as_members}
use serf_cpp.Msg.Members.RoundTrip.{IsPackableMember, as_members-pack}

abbrev pub IsPackableUserEventRecord : UserEventRecord → Type 0
IsPackableUserEventRecord r = (r.l_time < 2 ^ 64)

abbrev pub IsPackableMemberEventRecord : MemberEventRecord → Type 0
IsPackableMemberEventRecord r = All IsPackableMember r.members

abbrev pub IsPackableQueryRecord : QueryRecord → Type 0
IsPackableQueryRecord r = (r.id < 2 ^ 64) × (r.l_time < 2 ^ 64)

module _ ⦃m : Msgpack⦄ where
  open m use {
    is_map-of_map, as_str-of_str, as_bool-of_bool, as_bytes-of_bytes, as_uint-of_uint, as_str,
    as_bool, as_uint, as_bytes,
  }

  pub convert-pack_log_record :
      (r d : LogRecord) → convert_log_record (pack_log_record r) d ≡ some r
  unfolding pack_log_record convert_log_record
  convert-pack_log_record r d =
      let fs = fields_log_record r in
      rw (is_map-of_map fs, field_lem fs as_str "Log" d.log r.log _ refl refl (as_str-of_str r.log))

  pub as-pack_log_record : (r : LogRecord) → as_log_record (pack_log_record r) ≡ some r
  unfolding as_log_record
  as-pack_log_record r = convert-pack_log_record r default_log_record

  pub convert-pack_user_event_record :
      (r d : UserEventRecord)
      → IsPackableUserEventRecord r
      → convert_user_event_record (pack_user_event_record r) d ≡ some r
  unfolding pack_user_event_record convert_user_event_record
  convert-pack_user_event_record r d h =
      let fs = fields_user_event_record r in
      rw (
        is_map-of_map fs,
        field_lem fs as_str "Event" d.event r.event _ refl refl (as_str-of_str r.event),
        field_lem fs (as_uint 64) "LTime" d.l_time r.l_time _ refl refl
            (as_uint-of_uint 64 r.l_time h),
        field_lem fs as_str "Name" d.name r.name _ refl refl (as_str-of_str r.name),
        field_lem fs as_bytes "Payload" d.payload r.payload _ refl refl
            (as_bytes-of_bytes r.payload),
        field_lem fs as_bool "Coalesce" d.coalesce r.coalesce _ refl refl
            (as_bool-of_bool r.coalesce),
      )

  pub as-pack_user_event_record :
      (r : UserEventRecord)
      → IsPackableUserEventRecord r
      → as_user_event_record (pack_user_event_record r) ≡ some r
  unfolding as_user_event_record
  as-pack_user_event_record r h = convert-pack_user_event_record r default_user_event_record h

  pub convert-pack_member_event_record :
      (r d : MemberEventRecord)
      → IsPackableMemberEventRecord r
      → convert_member_event_record (pack_member_event_record r) d ≡ some r
  unfolding pack_member_event_record convert_member_event_record
  convert-pack_member_event_record r d h =
      let fs = fields_member_event_record r in
      rw (
        is_map-of_map fs,
        field_lem fs as_str "Event" d.event r.event _ refl refl (as_str-of_str r.event),
        field_lem fs as_members "Members" d.members r.members _ refl refl
            (as_members-pack r.members h),
      )

  pub as-pack_member_event_record :
      (r : MemberEventRecord)
      → IsPackableMemberEventRecord r
      → as_member_event_record (pack_member_event_record r) ≡ some r
  unfolding as_member_event_record
  as-pack_member_event_record r h = convert-pack_member_event_record r default_member_event_record h

  pub convert-pack_query_record :
      (r d : QueryRecord)
      → IsPackableQueryRecord r
      → convert_query_record (pack_query_record r) d ≡ some r
  unfolding pack_query_record convert_query_record
  convert-pack_query_record r d h =
      let fs = fields_query_record r in
      rw (
        is_map-of_map fs,
        field_lem fs as_str "Event" d.event r.event _ refl refl (as_str-of_str r.event),
        field_lem fs (as_uint 64) "ID" d.id r.id _ refl refl (as_uint-of_uint 64 r.id h.0),
        field_lem fs as_str "Name" d.name r.name _ refl refl (as_str-of_str r.name),
        field_lem fs as_bytes "Payload" d.payload r.payload _ refl refl
            (as_bytes-of_bytes r.payload),
        field_lem fs (as_uint 64) "LTime" d.l_time r.l_time _ refl refl
            (as_uint-of_uint 64 r.l_time h.1),
      )

  pub as-pack_query_record :
      (r : QueryRecord) → IsPackableQueryRecord r → as_query_record (pack_query_record r) ≡ some r
  unfolding as_query_record
  as-pack_query_record r h = convert-pack_query_record r default_query_record h

  pub convert-pack_node_response_base :
      (r d : NodeResponseBase) → convert_node_response_base (pack_node_response_base r) d ≡ some r
  unfolding pack_node_response_base convert_node_response_base
  convert-pack_node_response_base r d =
      let fs = fields_node_response_base r in
      rw (
        is_map-of_map fs,
        field_lem fs as_str "Type" d.type r.type _ refl refl (as_str-of_str r.type),
      )

  pub as-pack_node_response_base :
      (r : NodeResponseBase) → as_node_response_base (pack_node_response_base r) ≡ some r
  unfolding as_node_response_base
  as-pack_node_response_base r = convert-pack_node_response_base r default_node_response_base

  pub convert-pack_node_ack : (r d : NodeAck) → convert_node_ack (pack_node_ack r) d ≡ some r
  unfolding pack_node_ack convert_node_ack
  convert-pack_node_ack r d =
      let fs = fields_node_ack r in
      rw (
        is_map-of_map fs,
        field_lem fs as_str "Type" d.type r.type _ refl refl (as_str-of_str r.type),
        field_lem fs as_str "From" d.from r.from _ refl refl (as_str-of_str r.from),
      )

  pub as-pack_node_ack : (r : NodeAck) → as_node_ack (pack_node_ack r) ≡ some r
  unfolding as_node_ack
  as-pack_node_ack r = convert-pack_node_ack r default_node_ack

  pub convert-pack_node_response :
      (r d : NodeResponse) → convert_node_response (pack_node_response r) d ≡ some r
  unfolding pack_node_response convert_node_response
  convert-pack_node_response r d =
      let fs = fields_node_response r in
      rw (
        is_map-of_map fs,
        field_lem fs as_str "Type" d.type r.type _ refl refl (as_str-of_str r.type),
        field_lem fs as_str "From" d.from r.from _ refl refl (as_str-of_str r.from),
        field_lem fs as_bytes "Payload" d.payload r.payload _ refl refl
            (as_bytes-of_bytes r.payload),
      )

  pub as-pack_node_response : (r : NodeResponse) → as_node_response (pack_node_response r) ≡ some r
  unfolding as_node_response
  as-pack_node_response r = convert-pack_node_response r default_node_response

  pub convert-pack_record_base :
      (r d : RecordBase) → convert_record_base (pack_record_base r) d ≡ some r
  unfolding pack_record_base convert_record_base
  convert-pack_record_base r d =
      let fs = fields_record_base r in
      rw (
        is_map-of_map fs,
        field_lem fs as_str "Event" d.event r.event _ refl refl (as_str-of_str r.event),
      )

  pub as-pack_record_base : (r : RecordBase) → as_record_base (pack_record_base r) ≡ some r
  unfolding as_record_base
  as-pack_record_base r = convert-pack_record_base r default_record_base
