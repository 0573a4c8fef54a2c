-- ===== src/Msg/Headers/Equal.antt =====
-- `operator==` of the two RPC headers and the handshake and auth requests.
use serf_cpp.Prelude.{beq_ℤ, Bool, ◌&&◌, ◌==◌, str_eq}
use serf_cpp.Msg.Headers.{RequestHeader, ResponseHeader, HandshakeRequest, AuthRequest}

unfoldable pub beq_request_header : RequestHeader → RequestHeader → Bool
beq_request_header a b = str_eq a.command b.command && (a.seq == b.seq)

unfoldable pub beq_response_header : ResponseHeader → ResponseHeader → Bool
beq_response_header a b = (a.seq == b.seq) && str_eq a.error b.error

unfoldable pub beq_handshake_request : HandshakeRequest → HandshakeRequest → Bool
beq_handshake_request a b = beq_ℤ a.version b.version

unfoldable pub beq_auth_request : AuthRequest → AuthRequest → Bool
beq_auth_request a b = str_eq a.auth_key b.auth_key
