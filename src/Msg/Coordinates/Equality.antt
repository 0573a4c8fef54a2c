-- ===== src/Msg/Coordinates/Equality.antt =====
-- `operator==` against equality in every member.
use serf_cpp.Prelude.{◌≡◌, true, str_eq, Decides, Decides-refl, sound-Decides, str_eq-Decides}
use serf_cpp.Msg.Coordinates.{CoordRequest}
use serf_cpp.Msg.Coordinates.Equal.{beq_coord_request}

pub beq_coord_request-Decides : Decides beq_coord_request
unfolding beq_coord_request
beq_coord_request-Decides = sound-Decides beq_coord_request sound self
  where
    sound : (a b : CoordRequest) → beq_coord_request a b ≡ true → a ≡ b
    sound a b e = λ i. record { node = (str_eq-Decides a.node b.node).0 e i }

    self : (a : CoordRequest) → beq_coord_request a a ≡ true
    self a = (Decides-refl str_eq str_eq-Decides a.node)
