-- ===== src/Msg/Requests.antt =====
-- include/serf-cpp/SerfMsgStructs.h: the other requests and the reply to join, with the values of a default-constructed struct.
pub mod Codec
pub mod RoundTrip
pub mod Equal
pub mod Equality
use serf_cpp.Prelude.{ℕ, ℤ, pos, String, Bool, false, List, []}

pub record RespondRequest : Type 0 where
  pub id : ℕ
  pub payload : List ℕ

abbrev pub default_respond_request : RespondRequest
default_respond_request = record { id = 0; payload = [] }

pub record EventRequest : Type 0 where
  pub name : String
  pub payload : List ℕ
  pub coalesce : Bool

abbrev pub default_event_request : EventRequest
default_event_request = record { name = ""; payload = []; coalesce = false }

pub record QueryRequest : Type 0 where
  pub filter_nodes : List String
  pub filter_tags : List (String × String)
  pub request_ack : Bool
  pub timeout : ℕ
  pub name : String
  pub payload : List ℕ

abbrev pub default_query_request : QueryRequest
default_query_request = record {
  filter_nodes = [];
  filter_tags = [];
  request_ack = false;
  timeout = 0;
  name = "";
  payload = [];
}

pub record ForceLeaveRequest : Type 0 where
  pub node : String

abbrev pub default_force_leave_request : ForceLeaveRequest
default_force_leave_request = record { node = "" }

pub record JoinRequest : Type 0 where
  pub existing : List String
  pub replay : Bool

abbrev pub default_join_request : JoinRequest
default_join_request = record { existing = []; replay = false }

pub record JoinResponse : Type 0 where
  pub num : ℤ

abbrev pub default_join_response : JoinResponse
default_join_response = record { num = pos 0 }

pub record TagsRequest : Type 0 where
  pub tags : List (String × String)
  pub delete_tags : List String

abbrev pub default_tags_request : TagsRequest
default_tags_request = record { tags = []; delete_tags = [] }

pub record StreamRequest : Type 0 where
  pub type : String

abbrev pub default_stream_request : StreamRequest
default_stream_request = record { type = "" }

pub record MonitorRequest : Type 0 where
  pub log_level : String

abbrev pub default_monitor_request : MonitorRequest
default_monitor_request = record { log_level = "" }

pub record StopRequest : Type 0 where
  pub stop : ℕ

abbrev pub default_stop_request : StopRequest
default_stop_request = record { stop = 0 }
