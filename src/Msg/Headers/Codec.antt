-- ===== src/Msg/Headers/Codec.antt =====
-- MSGPACK_DEFINE of the two RPC headers and the handshake and auth requests: each struct is a map from member names to values. `convert_x o d`
-- converts the object into the struct `d`, `as_x o` into a new struct.
use serf_cpp.Prelude.{String, Option, none, some, List, [], ◌∷◌, if◌then◌else◌, ◌>>=◌}
use serf_cpp.Msgpack.{Msgpack, field}
use serf_cpp.Msg.Headers.{
  RequestHeader, default_request_header, ResponseHeader, default_response_header, HandshakeRequest,
  default_handshake_request, AuthRequest, default_auth_request,
}

module _ ⦃m : Msgpack⦄ where
  open m use {Object, of_str, of_uint, of_int, of_map, as_str, as_uint, as_int, is_map}

  unfoldable pub fields_request_header : RequestHeader → List (String × Object)
  fields_request_header r = ("Command", of_str r.command) ∷ ("Seq", of_uint r.seq) ∷ []

  unfoldable pub pack_request_header : RequestHeader → Object
  unfolding fields_request_header
  pack_request_header r = of_map (fields_request_header r)

  unfoldable pub convert_request_header : Object → RequestHeader → Option RequestHeader
  convert_request_header o d =
      if is_map o
      then (do
        command ← field "Command" as_str d.command o
        seq ← field "Seq" (as_uint 64) d.seq o
        some (record { command = command; seq = seq }))
      else none

  unfoldable pub as_request_header : Object → Option RequestHeader
  unfolding convert_request_header
  as_request_header o = convert_request_header o default_request_header

  unfoldable pub fields_response_header : ResponseHeader → List (String × Object)
  fields_response_header r = ("Seq", of_uint r.seq) ∷ ("Error", of_str r.error) ∷ []

  unfoldable pub pack_response_header : ResponseHeader → Object
  unfolding fields_response_header
  pack_response_header r = of_map (fields_response_header r)

  unfoldable pub convert_response_header : Object → ResponseHeader → Option ResponseHeader
  convert_response_header o d =
      if is_map o
      then (do
        seq ← field "Seq" (as_uint 64) d.seq o
        error ← field "Error" as_str d.error o
        some (record { seq = seq; error = error }))
      else none

  unfoldable pub as_response_header : Object → Option ResponseHeader
  unfolding convert_response_header
  as_response_header o = convert_response_header o default_response_header

  unfoldable pub fields_handshake_request : HandshakeRequest → List (String × Object)
  fields_handshake_request r = ("Version", of_int r.version) ∷ []

  unfoldable pub pack_handshake_request : HandshakeRequest → Object
  unfolding fields_handshake_request
  pack_handshake_request r = of_map (fields_handshake_request r)

  unfoldable pub convert_handshake_request : Object → HandshakeRequest → Option HandshakeRequest
  convert_handshake_request o d =
      if is_map o
      then (do version ← field "Version" as_int d.version o; some (record { version = version }))
      else none

  unfoldable pub as_handshake_request : Object → Option HandshakeRequest
  unfolding convert_handshake_request
  as_handshake_request o = convert_handshake_request o default_handshake_request

  unfoldable pub fields_auth_request : AuthRequest → List (String × Object)
  fields_auth_request r = ("AuthKey", of_str r.auth_key) ∷ []

  unfoldable pub pack_auth_request : AuthRequest → Object
  unfolding fields_auth_request
  pack_auth_request r = of_map (fields_auth_request r)

  unfoldable pub convert_auth_request : Object → AuthRequest → Option AuthRequest
  convert_auth_request o d =
      if is_map o
      then (do
        auth_key ← field "AuthKey" as_str d.auth_key o
        some (record { auth_key = auth_key }))
      else none

  unfoldable pub as_auth_request : Object → Option AuthRequest
  unfolding convert_auth_request
  as_auth_request o = convert_auth_request o default_auth_request
