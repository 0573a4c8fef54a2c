-- ===== src/Msg/Records.antt =====
-- include/serf-cpp/SerfMsgStructs.h: the records of log, event and query channels, with the values of a default-constructed struct.
pub mod Codec
pub mod RoundTrip
pub mod Equal
pub mod Equality
use serf_cpp.Prelude.{ℕ, String, Bool, false, List, []}
use serf_cpp.Msg.Members.{Member}

pub record LogRecord : Type 0 where
  pub log : String

abbrev pub default_log_record : LogRecord
default_log_record = record { log = "" }

pub record UserEventRecord : Type 0 where
  pub event : String
  pub l_time : ℕ
  pub name : String
  pub payload : List ℕ
  pub coalesce : Bool

abbrev pub default_user_event_record : UserEventRecord
default_user_event_record = record {
  event = "";
  l_time = 0;
  name = "";
  payload = [];
  coalesce = false;
}

pub record MemberEventRecord : Type 0 where
  pub event : String
  pub members : List Member

abbrev pub default_member_event_record : MemberEventRecord
default_member_event_record = record { event = ""; members = [] }

pub record QueryRecord : Type 0 where
  pub event : String
  pub id : ℕ
  pub name : String
  pub payload : List ℕ
  pub l_time : ℕ

abbrev pub default_query_record : QueryRecord
default_query_record = record { event = ""; id = 0; name = ""; payload = []; l_time = 0 }

pub record NodeResponseBase : Type 0 where
  pub type : String

abbrev pub default_node_response_base : NodeResponseBase
default_node_response_base = record { type = "" }

pub record NodeAck : Type 0 where
  pub type : String
  pub from : String

abbrev pub default_node_ack : NodeAck
default_node_ack = record { type = ""; from = "" }

pub record NodeResponse : Type 0 where
  pub type : String
  pub from : String
  pub payload : List ℕ

abbrev pub default_node_response : NodeResponse
default_node_response = record { type = ""; from = ""; payload = [] }

pub record RecordBase : Type 0 where
  pub event : String

abbrev pub default_record_base : RecordBase
default_record_base = record { event = "" }
