-- ===== src/Channel.antt =====
-- src/SerfChannel.h: the channels that wait for the agent's messages, the callbacks that they make,
-- and the state that the I/O thread, its channels and the client share.
pub mod Memory
pub mod Produce
use serf_cpp.Prelude.{ℕ, String, Bool, false, true, Option, List}
use serf_cpp.Msgpack.{Msgpack}
use serf_cpp.SeqMap.{SeqMap}
use serf_cpp.Msg.Headers.{ResponseHeader, default_response_header}
use serf_cpp.Msg.Coordinates.{CoordResponse}
use serf_cpp.Msg.Keys.{KeyResponse, KeyListResponse}
use serf_cpp.Msg.Requests.{JoinResponse}
use serf_cpp.Msg.Members.{MembersResponse}
use serf_cpp.Msg.Stats.{StatsResponse}
use serf_cpp.Msg.Records.{
  LogRecord, UserEventRecord, MemberEventRecord, QueryRecord, NodeAck, NodeResponse,
}

pub data ChannelType : Type 0 where
  request log_type event_type query_type : ChannelType

-- The T of ResultChannel<T> with its m_data; `nothing` is the specialisation for bool.
pub data Reply : Type 0 where
  nothing : Reply
  join : JoinResponse → Reply
  key : KeyResponse → Reply
  key_list : KeyListResponse → Reply
  members : MembersResponse → Reply
  stats : StatsResponse → Reply
  coord : CoordResponse → Reply

pub record ResultChannel : Type 0 where
  pub hdr : ResponseHeader
  pub reply : Reply
  pub data_pending : Bool

abbrev pub new_result : Reply → ResultChannel
new_result r = record { hdr = default_response_header; reply = r; data_pending = false }

-- A listener stands for the pointer that the user passed in.
pub data Channel : Type 0 where
  result : ResultChannel → Channel
  log event query : ℕ → Channel

abbrev pub channel_type : Channel → ChannelType
channel_type (result c) = request
channel_type (log l) = log_type
channel_type (event l) = event_type
channel_type (query l) = query_type

-- The calls of the listener interfaces of include/serf-cpp/ISerfListener.h, by listener.
pub data Callback : Type 0 where
  on_log_record : ℕ → ResponseHeader → LogRecord → Callback
  on_user_event_record : ℕ → ResponseHeader → UserEventRecord → Callback
  on_member_event_record : ℕ → ResponseHeader → MemberEventRecord → Callback
  on_query_event_record : ℕ → ResponseHeader → QueryRecord → Callback
  on_query_ack : ℕ → ResponseHeader → NodeAck → Callback
  on_query_response : ℕ → ResponseHeader → NodeResponse → Callback
  on_query_complete : ℕ → ResponseHeader → Callback

module _ ⦃m : Msgpack⦄ where
  -- The members of SerfIoThread (a socket of -1 is `none`, `running` is m_thread.joinable()), the
  -- memory that holds the channels, and what the outside sees: the callbacks in order, and the
  -- objects handed to the socket.
  pub record World : Type 0 where
    pub ip_addr : String
    pub port : ℕ
    pub socket : Option ℕ
    pub seq : ℕ
    pub shutdown : Bool
    pub running : Bool
    pub channels : SeqMap
    pub unpacker : m.Unpacker
    pub memory : ℕ → Option Channel
    pub next_address : ℕ
    pub callbacks : List Callback
    pub wire : List m.Object
