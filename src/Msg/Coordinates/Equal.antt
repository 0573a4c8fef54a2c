-- ===== src/Msg/Coordinates/Equal.antt =====
-- `operator==` of the get-coordinate messages.
use serf_cpp.Prelude.{Bool, ◌&&◌, str_eq, beq_bool, beq_list, beq_double}
use serf_cpp.Msg.Coordinates.{CoordRequest, Coordinate, CoordResponse}

unfoldable pub beq_coord_request : CoordRequest → CoordRequest → Bool
beq_coord_request a b = str_eq a.node b.node

unfoldable pub beq_coordinate : Coordinate → Coordinate → Bool
beq_coordinate a b =
    beq_double a.adjustment b.adjustment
    && beq_double a.error b.error
    && beq_double a.height b.height
    && beq_list beq_double a.vec b.vec

unfoldable pub beq_coord_response : CoordResponse → CoordResponse → Bool
unfolding beq_coordinate
beq_coord_response a b = beq_coordinate a.coord b.coord && beq_bool a.ok b.ok
