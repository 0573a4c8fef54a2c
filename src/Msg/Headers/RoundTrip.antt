-- ===== src/Msg/Headers/RoundTrip.antt =====
-- Converting what MSGPACK_DEFINE packed: the two RPC headers and the handshake and auth requests.
use serf_cpp.Prelude.{◌<◌, ◌^◌, IsInt32, some, ◌≡◌, refl}
use serf_cpp.Msgpack.{Msgpack, field_lem}
use serf_cpp.Msg.Headers.{
  RequestHeader, default_request_header, ResponseHeader, default_response_header, HandshakeRequest,
  default_handshake_request, AuthRequest, default_auth_request,
}
use serf_cpp.Msg.Headers.Codec.{
  pack_request_header, fields_request_header, convert_request_header, as_request_header,
  pack_response_header, fields_response_header, convert_response_header, as_response_header,
  pack_handshake_request, fields_handshake_request, convert_handshake_request, as_handshake_request,
  pack_auth_request, fields_auth_request, convert_auth_request, as_auth_request,
}

abbrev pub IsPackableRequestHeader : RequestHeader → Type 0
IsPackableRequestHeader r = (r.seq < 2 ^ 64)

abbrev pub IsPackableResponseHeader : ResponseHeader → Type 0
IsPackableResponseHeader r = (r.seq < 2 ^ 64)

abbrev pub IsPackableHandshakeRequest : HandshakeRequest → Type 0
IsPackableHandshakeRequest r = IsInt32 r.version

module _ ⦃m : Msgpack⦄ where
  open m use {is_map-of_map, as_str-of_str, as_uint-of_uint, as_int-of_int, as_str, as_uint, as_int}

  pub convert-pack_request_header :
      (r d : RequestHeader)
      → IsPackableRequestHeader r
      → convert_request_header (pack_request_header r) d ≡ some r
  unfolding pack_request_header convert_request_header
  convert-pack_request_header r d h =
      let fs = fields_request_header r in
      rw (
        is_map-of_map fs,
        field_lem fs as_str "Command" d.command r.command _ refl refl (as_str-of_str r.command),
        field_lem fs (as_uint 64) "Seq" d.seq r.seq _ refl refl (as_uint-of_uint 64 r.seq h),
      )

  pub as-pack_request_header :
      (r : RequestHeader)
      → IsPackableRequestHeader r
      → as_request_header (pack_request_header r) ≡ some r
  unfolding as_request_header
  as-pack_request_header r h = convert-pack_request_header r default_request_header h

  pub convert-pack_response_header :
      (r d : ResponseHeader)
      → IsPackableResponseHeader r
      → convert_response_header (pack_response_header r) d ≡ some r
  unfolding pack_response_header convert_response_header
  convert-pack_response_header r d h =
      let fs = fields_response_header r in
      rw (
        is_map-of_map fs,
        field_lem fs (as_uint 64) "Seq" d.seq r.seq _ refl refl (as_uint-of_uint 64 r.seq h),
        field_lem fs as_str "Error" d.error r.error _ refl refl (as_str-of_str r.error),
      )

  pub as-pack_response_header :
      (r : ResponseHeader)
      → IsPackableResponseHeader r
      → as_response_header (pack_response_header r) ≡ some r
  unfolding as_response_header
  as-pack_response_header r h = convert-pack_response_header r default_response_header h

  pub convert-pack_handshake_request :
      (r d : HandshakeRequest)
      → IsPackableHandshakeRequest r
      → convert_handshake_request (pack_handshake_request r) d ≡ some r
  unfolding pack_handshake_request convert_handshake_request
  convert-pack_handshake_request r d h =
      let fs = fields_handshake_request r in
      rw (
        is_map-of_map fs,
        field_lem fs as_int "Version" d.version r.version _ refl refl (as_int-of_int r.version h),
      )

  pub as-pack_handshake_request :
      (r : HandshakeRequest)
      → IsPackableHandshakeRequest r
      → as_handshake_request (pack_handshake_request r) ≡ some r
  unfolding as_handshake_request
  as-pack_handshake_request r h = convert-pack_handshake_request r default_handshake_request h

  pub convert-pack_auth_request :
      (r d : AuthRequest) → convert_auth_request (pack_auth_request r) d ≡ some r
  unfolding pack_auth_request convert_auth_request
  convert-pack_auth_request r d =
      let fs = fields_auth_request r in
      rw (
        is_map-of_map fs,
        field_lem fs as_str "AuthKey" d.auth_key r.auth_key _ refl refl (as_str-of_str r.auth_key),
      )

  pub as-pack_auth_request : (r : AuthRequest) → as_auth_request (pack_auth_request r) ≡ some r
  unfolding as_auth_request
  as-pack_auth_request r = convert-pack_auth_request r default_auth_request
