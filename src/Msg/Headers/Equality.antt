-- ===== src/Msg/Headers/Equality.antt =====
-- `operator==` against equality in every member.
use serf_cpp.Prelude.{
  ◌≡◌, true, ◌==◌, str_eq, beq_ℤ, Decides, &&_true, true_&&, Decides-refl, sound-Decides,
  beq_nat-Decides, str_eq-Decides, beq_ℤ-Decides,
}
use serf_cpp.Msg.Headers.{RequestHeader, ResponseHeader, HandshakeRequest, AuthRequest}
use serf_cpp.Msg.Headers.Equal.{
  beq_request_header, beq_response_header, beq_handshake_request, beq_auth_request,
}

pub beq_request_header-Decides : Decides beq_request_header
unfolding beq_request_header
beq_request_header-Decides = sound-Decides beq_request_header sound self
  where
    sound : (a b : RequestHeader) → beq_request_header a b ≡ true → a ≡ b
    sound a b e =
        let (r1, e1) = &&_true _ (◌==◌ a.seq b.seq) e in
        λ i. record {
          command = (str_eq-Decides a.command b.command).0 r1 i;
          seq = (beq_nat-Decides a.seq b.seq).0 e1 i;
        }

    self : (a : RequestHeader) → beq_request_header a a ≡ true
    self a =
        (true_&& _ _ (Decides-refl str_eq str_eq-Decides a.command)
          (Decides-refl ◌==◌ beq_nat-Decides a.seq))

pub beq_response_header-Decides : Decides beq_response_header
unfolding beq_response_header
beq_response_header-Decides = sound-Decides beq_response_header sound self
  where
    sound : (a b : ResponseHeader) → beq_response_header a b ≡ true → a ≡ b
    sound a b e =
        let (r1, e1) = &&_true _ (str_eq a.error b.error) e in
        λ i. record {
          seq = (beq_nat-Decides a.seq b.seq).0 r1 i;
          error = (str_eq-Decides a.error b.error).0 e1 i;
        }

    self : (a : ResponseHeader) → beq_response_header a a ≡ true
    self a =
        (true_&& _ _ (Decides-refl ◌==◌ beq_nat-Decides a.seq)
          (Decides-refl str_eq str_eq-Decides a.error))

pub beq_handshake_request-Decides : Decides beq_handshake_request
unfolding beq_handshake_request
beq_handshake_request-Decides = sound-Decides beq_handshake_request sound self
  where
    sound : (a b : HandshakeRequest) → beq_handshake_request a b ≡ true → a ≡ b
    sound a b e = λ i. record { version = (beq_ℤ-Decides a.version b.version).0 e i }

    self : (a : HandshakeRequest) → beq_handshake_request a a ≡ true
    self a = (Decides-refl beq_ℤ beq_ℤ-Decides a.version)

pub beq_auth_request-Decides : Decides beq_auth_request
unfolding beq_auth_request
beq_auth_request-Decides = sound-Decides beq_auth_request sound self
  where
    sound : (a b : AuthRequest) → beq_auth_request a b ≡ true → a ≡ b
    sound a b e = λ i. record { auth_key = (str_eq-Decides a.auth_key b.auth_key).0 e i }

    self : (a : AuthRequest) → beq_auth_request a a ≡ true
    self a = (Decides-refl str_eq str_eq-Decides a.auth_key)
