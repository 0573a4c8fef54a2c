-- ===== src/Msg/Records/Equal.antt =====
-- `operator==` of the records of log, event and query channels.
use serf_cpp.Prelude.{Bool, ◌&&◌, ◌==◌, str_eq, beq_bool, beq_list}
use serf_cpp.Msg.Records.{
  LogRecord, UserEventRecord, MemberEventRecord, QueryRecord, NodeResponseBase, NodeAck,
  NodeResponse,
}
use serf_cpp.Msg.Members.Equal.{beq_member}

unfoldable pub beq_log_record : LogRecord → LogRecord → Bool
beq_log_record a b = str_eq a.log b.log

unfoldable pub beq_user_event_record : UserEventRecord → UserEventRecord → Bool
beq_user_event_record a b =
    str_eq a.event b.event
    && (a.l_time == b.l_time)
    && str_eq a.name b.name
    && beq_list ◌==◌ a.payload b.payload
    && beq_bool a.coalesce b.coalesce

unfoldable pub beq_member_event_record : MemberEventRecord → MemberEventRecord → Bool
unfolding beq_member
beq_member_event_record a b = str_eq a.event b.event && beq_list beq_member a.members b.members

unfoldable pub beq_query_record : QueryRecord → QueryRecord → Bool
beq_query_record a b =
    str_eq a.event b.event
    && (a.id == b.id)
    && str_eq a.name b.name
    && (a.l_time == b.l_time)
    && beq_list ◌==◌ a.payload b.payload

unfoldable pub beq_node_response_base : NodeResponseBase → NodeResponseBase → Bool
beq_node_response_base a b = str_eq a.type b.type

unfoldable pub beq_node_ack : NodeAck → NodeAck → Bool
beq_node_ack a b = str_eq a.type b.type && str_eq a.from b.from

unfoldable pub beq_node_response : NodeResponse → NodeResponse → Bool
beq_node_response a b =
    str_eq a.type b.type && str_eq a.from b.from && beq_list ◌==◌ a.payload b.payload
