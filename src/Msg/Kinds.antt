-- ===== src/Msg/Kinds.antt =====
-- The 35 message structs as one family: what a theorem about all of them ranges over.
use serf_cpp.Msg.Headers.{RequestHeader, ResponseHeader, HandshakeRequest, AuthRequest}
use serf_cpp.Msg.Headers.RoundTrip.{
  IsPackableRequestHeader, IsPackableResponseHeader, IsPackableHandshakeRequest,
}
use serf_cpp.Msg.Coordinates.{CoordRequest, Coordinate, CoordResponse}
use serf_cpp.Msg.Keys.{KeyRequest, KeyResponse, KeyListResponse}
use serf_cpp.Msg.Keys.RoundTrip.{IsPackableKeyResponse, IsPackableKeyListResponse}
use serf_cpp.Msg.Requests.{
  RespondRequest, EventRequest, QueryRequest, ForceLeaveRequest, JoinRequest, JoinResponse,
  TagsRequest, StreamRequest, MonitorRequest, StopRequest,
}
use serf_cpp.Msg.Requests.RoundTrip.{
  IsPackableRespondRequest, IsPackableQueryRequest, IsPackableJoinResponse, IsPackableTagsRequest,
  IsPackableStopRequest,
}
use serf_cpp.Msg.Members.{Member, MembersResponse, MembersFilteredRequest}
use serf_cpp.Msg.Members.RoundTrip.{
  IsPackableMember, IsPackableMembersResponse, IsPackableMembersFilteredRequest,
}
use serf_cpp.Msg.Records.{
  LogRecord, UserEventRecord, MemberEventRecord, QueryRecord, NodeResponseBase, NodeAck,
  NodeResponse, RecordBase,
}
use serf_cpp.Msg.Records.RoundTrip.{
  IsPackableUserEventRecord, IsPackableMemberEventRecord, IsPackableQueryRecord,
}
use serf_cpp.Msg.Stats.{Agent, Runtime, Serf, StatsResponse}

pub data Kind : Type 0 where
  request_header response_header handshake_request auth_request : Kind
  coord_request coordinate coord_response : Kind
  key_request key_response key_list_response : Kind
  respond_request event_request query_request force_leave_request join_request join_response
        tags_request stream_request monitor_request stop_request :
      Kind
  member members_response members_filtered_request : Kind
  log_record user_event_record member_event_record query_record node_response_base node_ack
        node_response record_base :
      Kind
  agent runtime serf stats_response : Kind

abbrev pub StructOf : Kind → Type 0
StructOf request_header = RequestHeader
StructOf response_header = ResponseHeader
StructOf handshake_request = HandshakeRequest
StructOf auth_request = AuthRequest
StructOf coord_request = CoordRequest
StructOf coordinate = Coordinate
StructOf coord_response = CoordResponse
StructOf key_request = KeyRequest
StructOf respond_request = RespondRequest
StructOf key_response = KeyResponse
StructOf key_list_response = KeyListResponse
StructOf event_request = EventRequest
StructOf query_request = QueryRequest
StructOf force_leave_request = ForceLeaveRequest
StructOf join_request = JoinRequest
StructOf join_response = JoinResponse
StructOf member = Member
StructOf members_response = MembersResponse
StructOf members_filtered_request = MembersFilteredRequest
StructOf tags_request = TagsRequest
StructOf stream_request = StreamRequest
StructOf monitor_request = MonitorRequest
StructOf stop_request = StopRequest
StructOf log_record = LogRecord
StructOf user_event_record = UserEventRecord
StructOf member_event_record = MemberEventRecord
StructOf query_record = QueryRecord
StructOf node_response_base = NodeResponseBase
StructOf node_ack = NodeAck
StructOf node_response = NodeResponse
StructOf record_base = RecordBase
StructOf agent = Agent
StructOf runtime = Runtime
StructOf serf = Serf
StructOf stats_response = StatsResponse

-- the integers of the struct are within the range of their C++ types, and its maps have each key once, in order
abbrev pub IsPackable : (k : Kind) → StructOf k → Type 0
IsPackable request_header r = IsPackableRequestHeader r
IsPackable response_header r = IsPackableResponseHeader r
IsPackable handshake_request r = IsPackableHandshakeRequest r
IsPackable auth_request r = Unit {0}
IsPackable coord_request r = Unit {0}
IsPackable coordinate r = Unit {0}
IsPackable coord_response r = Unit {0}
IsPackable key_request r = Unit {0}
IsPackable respond_request r = IsPackableRespondRequest r
IsPackable key_response r = IsPackableKeyResponse r
IsPackable key_list_response r = IsPackableKeyListResponse r
IsPackable event_request r = Unit {0}
IsPackable query_request r = IsPackableQueryRequest r
IsPackable force_leave_request r = Unit {0}
IsPackable join_request r = Unit {0}
IsPackable join_response r = IsPackableJoinResponse r
IsPackable member r = IsPackableMember r
IsPackable members_response r = IsPackableMembersResponse r
IsPackable members_filtered_request r = IsPackableMembersFilteredRequest r
IsPackable tags_request r = IsPackableTagsRequest r
IsPackable stream_request r = Unit {0}
IsPackable monitor_request r = Unit {0}
IsPackable stop_request r = IsPackableStopRequest r
IsPackable log_record r = Unit {0}
IsPackable user_event_record r = IsPackableUserEventRecord r
IsPackable member_event_record r = IsPackableMemberEventRecord r
IsPackable query_record r = IsPackableQueryRecord r
IsPackable node_response_base r = Unit {0}
IsPackable node_ack r = Unit {0}
IsPackable node_response r = Unit {0}
IsPackable record_base r = Unit {0}
IsPackable agent r = Unit {0}
IsPackable runtime r = Unit {0}
IsPackable serf r = Unit {0}
IsPackable stats_response r = Unit {0}
