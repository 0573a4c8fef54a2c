-- ===== src/Client.antt =====
-- include/serf-cpp/SerfClient.h and src/SerfClient.cpp: the results of the methods, the connection,
-- and what the request methods share.
pub mod Queries
pub mod Commands
pub mod Listening
pub mod Session
use serf_cpp.Prelude.{ℕ, String, Bool, true, false, Option, str_eq, if◌then◌else◌}
use serf_cpp.Msgpack.{Msgpack}
use serf_cpp.Exec.{pure, ◌>>=◌}
use serf_cpp.Msg.Headers.{ResponseHeader, RequestHeader, default_request_header}
use serf_cpp.Channel.Memory.{M}
use serf_cpp.IoThread.{is_connected}
use serf_cpp.IoThread.Rpc.{Batch}
use serf_cpp.IoThread.Wait.{Env}
use serf_cpp.IoThread.Connection.{Dial}
use serf_cpp.IoThread.Connection

pub data SerfResponse : Type 0 where
  success failure timeout : SerfResponse

-- (hdr.Error.empty()) ? SUCCESS : FAILURE
abbrev pub response_of : ResponseHeader → SerfResponse
response_of hdr = if str_eq hdr.error "" then success else failure

-- a RequestHeader with its Command set
abbrev pub command : String → RequestHeader
command c = record default_request_header { command = c }

abbrev answer : Bool → SerfResponse
answer b = if b then success else failure

-- SerfClient::Version
unfoldable pub version : ℕ × ℕ × ℕ
version = (1, 1, 0)

module _ ⦃m : Msgpack⦄ where
  unfoldable pub connect : String → ℕ → Dial → Env → M SerfResponse
  connect ip_addr port dial env = do b ← Connection.connect ip_addr port dial env; pure (answer b)

  unfoldable pub close : Option Batch → M SerfResponse
  close b = do c ← Connection.close b; pure (answer c)
