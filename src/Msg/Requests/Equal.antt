-- ===== src/Msg/Requests/Equal.antt =====
-- `operator==` of the other requests and the reply to join.
use serf_cpp.Prelude.{beq_ℤ, Bool, ◌&&◌, ◌==◌, str_eq, beq_bool, beq_list, beq_pair}
use serf_cpp.Msg.Requests.{
  RespondRequest, EventRequest, QueryRequest, ForceLeaveRequest, JoinRequest, JoinResponse,
  TagsRequest, StreamRequest, MonitorRequest, StopRequest,
}

unfoldable pub beq_respond_request : RespondRequest → RespondRequest → Bool
beq_respond_request a b = (a.id == b.id) && beq_list ◌==◌ a.payload b.payload

unfoldable pub beq_event_request : EventRequest → EventRequest → Bool
beq_event_request a b =
    str_eq a.name b.name && beq_list ◌==◌ a.payload b.payload && beq_bool a.coalesce b.coalesce

unfoldable pub beq_query_request : QueryRequest → QueryRequest → Bool
beq_query_request a b =
    beq_list str_eq a.filter_nodes b.filter_nodes
    && beq_list (beq_pair str_eq str_eq) a.filter_tags b.filter_tags
    && beq_bool a.request_ack b.request_ack
    && (a.timeout == b.timeout)
    && str_eq a.name b.name
    && beq_list ◌==◌ a.payload b.payload

unfoldable pub beq_force_leave_request : ForceLeaveRequest → ForceLeaveRequest → Bool
beq_force_leave_request a b = str_eq a.node b.node

unfoldable pub beq_join_request : JoinRequest → JoinRequest → Bool
beq_join_request a b = beq_list str_eq a.existing b.existing && beq_bool a.replay b.replay

unfoldable pub beq_join_response : JoinResponse → JoinResponse → Bool
beq_join_response a b = beq_ℤ a.num b.num

unfoldable pub beq_tags_request : TagsRequest → TagsRequest → Bool
beq_tags_request a b =
    beq_list (beq_pair str_eq str_eq) a.tags b.tags && beq_list str_eq a.delete_tags b.delete_tags

unfoldable pub beq_stream_request : StreamRequest → StreamRequest → Bool
beq_stream_request a b = str_eq a.type b.type

unfoldable pub beq_monitor_request : MonitorRequest → MonitorRequest → Bool
beq_monitor_request a b = str_eq a.log_level b.log_level

unfoldable pub beq_stop_request : StopRequest → StopRequest → Bool
beq_stop_request a b = (a.stop == b.stop)
