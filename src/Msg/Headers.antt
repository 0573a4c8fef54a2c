-- ===== src/Msg/Headers.antt =====
-- include/serf-cpp/SerfMsgStructs.h: the two RPC headers and the handshake and auth requests, with the values of a default-constructed struct.
pub mod Codec
pub mod RoundTrip
pub mod Equal
pub mod Equality
use serf_cpp.Prelude.{ℕ, ℤ, pos, String}

pub record RequestHeader : Type 0 where
  pub command : String
  pub seq : ℕ

abbrev pub default_request_header : RequestHeader
default_request_header = record { command = ""; seq = 0 }

pub record ResponseHeader : Type 0 where
  pub seq : ℕ
  pub error : String

abbrev pub default_response_header : ResponseHeader
default_response_header = record { seq = 0; error = "" }

pub record HandshakeRequest : Type 0 where
  pub version : ℤ

abbrev pub default_handshake_request : HandshakeRequest
default_handshake_request = record { version = pos 0 }

pub record AuthRequest : Type 0 where
  pub auth_key : String

abbrev pub default_auth_request : AuthRequest
default_auth_request = record { auth_key = "" }
