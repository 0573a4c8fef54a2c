-- ===== src/Msg/Keys.antt =====
-- include/serf-cpp/SerfMsgStructs.h: the messages of the key commands, with the values of a default-constructed struct.
pub mod Codec
pub mod RoundTrip
pub mod Equal
pub mod Equality
use serf_cpp.Prelude.{ℤ, pos, String, List, []}

pub record KeyRequest : Type 0 where
  pub key : String

abbrev pub default_key_request : KeyRequest
default_key_request = record { key = "" }

pub record KeyResponse : Type 0 where
  pub messages : List (String × String)
  pub num_err : ℤ
  pub num_nodes : ℤ
  pub num_resp : ℤ

abbrev pub default_key_response : KeyResponse
default_key_response = record {
  messages = [];
  num_err = pos 0;
  num_nodes = pos 0;
  num_resp = pos 0;
}

pub record KeyListResponse : Type 0 where
  pub messages : List (String × String)
  pub keys : List (String × ℤ)
  pub num_err : ℤ
  pub num_nodes : ℤ
  pub num_resp : ℤ

abbrev pub default_key_list_response : KeyListResponse
default_key_list_response = record {
  messages = [];
  keys = [];
  num_err = pos 0;
  num_nodes = pos 0;
  num_resp = pos 0;
}
