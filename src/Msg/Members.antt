-- ===== src/Msg/Members.antt =====
-- include/serf-cpp/SerfMsgStructs.h: cluster members and the members messages, with the values of a default-constructed struct.
pub mod Codec
pub mod RoundTrip
pub mod Equal
pub mod Equality
pub mod SameMember
use serf_cpp.Prelude.{ℕ, ℤ, pos, String, List, []}

pub record Member : Type 0 where
  pub name : String
  pub addr : List ℕ
  pub port : ℤ
  pub tags : List (String × String)
  pub status : String
  pub protocol_min : ℕ
  pub protocol_max : ℕ
  pub protocol_cur : ℕ
  pub delegate_min : ℕ
  pub delegate_max : ℕ
  pub delegate_cur : ℕ

abbrev pub default_member : Member
default_member = record {
  name = "";
  addr = [];
  port = pos 0;
  tags = [];
  status = "";
  protocol_min = 0;
  protocol_max = 0;
  protocol_cur = 0;
  delegate_min = 0;
  delegate_max = 0;
  delegate_cur = 0;
}

pub record MembersResponse : Type 0 where
  pub members : List Member

abbrev pub default_members_response : MembersResponse
default_members_response = record { members = [] }

pub record MembersFilteredRequest : Type 0 where
  pub tags : List (String × String)
  pub status : String
  pub name : String

abbrev pub default_members_filtered_request : MembersFilteredRequest
default_members_filtered_request = record { tags = []; status = ""; name = "" }
