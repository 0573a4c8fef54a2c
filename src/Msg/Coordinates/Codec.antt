-- ===== src/Msg/Coordinates/Codec.antt =====
-- MSGPACK_DEFINE of the get-coordinate messages: each struct is a map from member names to values. `convert_x o d`
-- converts the object into the struct `d`, `as_x o` into a new struct.
use serf_cpp.Prelude.{String, Option, none, some, List, [], ◌∷◌, if◌then◌else◌, ◌>>=◌}
use serf_cpp.Msgpack.{Msgpack, field, pack_doubles, as_doubles}
use serf_cpp.Msg.Coordinates.{
  CoordRequest, default_coord_request, Coordinate, default_coordinate, CoordResponse,
  default_coord_response,
}

module _ ⦃m : Msgpack⦄ where
  open m use {Object, of_str, of_bool, of_double, of_map, as_str, as_bool, as_double, is_map}

  unfoldable pub fields_coord_request : CoordRequest → List (String × Object)
  fields_coord_request r = ("Node", of_str r.node) ∷ []

  unfoldable pub pack_coord_request : CoordRequest → Object
  unfolding fields_coord_request
  pack_coord_request r = of_map (fields_coord_request r)

  unfoldable pub convert_coord_request : Object → CoordRequest → Option CoordRequest
  convert_coord_request o d =
      if is_map o
      then (do node ← field "Node" as_str d.node o; some (record { node = node }))
      else none

  unfoldable pub as_coord_request : Object → Option CoordRequest
  unfolding convert_coord_request
  as_coord_request o = convert_coord_request o default_coord_request

  unfoldable pub fields_coordinate : Coordinate → List (String × Object)
  fields_coordinate r =
      ("Adjustment", of_double r.adjustment)
      ∷ ("Error", of_double r.error)
      ∷ ("Height", of_double r.height)
      ∷ ("Vec", pack_doubles r.vec)
      ∷ []

  unfoldable pub pack_coordinate : Coordinate → Object
  unfolding fields_coordinate
  pack_coordinate r = of_map (fields_coordinate r)

  unfoldable pub convert_coordinate : Object → Coordinate → Option Coordinate
  convert_coordinate o d =
      if is_map o
      then (do
        adjustment ← field "Adjustment" as_double d.adjustment o
        error ← field "Error" as_double d.error o
        height ← field "Height" as_double d.height o
        vec ← field "Vec" as_doubles d.vec o
        some (record { vec = vec; error = error; adjustment = adjustment; height = height }))
      else none

  unfoldable pub as_coordinate : Object → Option Coordinate
  unfolding convert_coordinate
  as_coordinate o = convert_coordinate o default_coordinate

  unfoldable pub fields_coord_response : CoordResponse → List (String × Object)
  fields_coord_response r = ("Coord", pack_coordinate r.coord) ∷ ("Ok", of_bool r.ok) ∷ []

  unfoldable pub pack_coord_response : CoordResponse → Object
  unfolding fields_coord_response
  pack_coord_response r = of_map (fields_coord_response r)

  unfoldable pub convert_coord_response : Object → CoordResponse → Option CoordResponse
  convert_coord_response o d =
      if is_map o
      then (do
        coord ← field "Coord" (λ o. convert_coordinate o d.coord) d.coord o
        ok ← field "Ok" as_bool d.ok o
        some (record { coord = coord; ok = ok }))
      else none

  unfoldable pub as_coord_response : Object → Option CoordResponse
  unfolding convert_coord_response
  as_coord_response o = convert_coord_response o default_coord_response
