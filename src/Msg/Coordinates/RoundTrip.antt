-- ===== src/Msg/Coordinates/RoundTrip.antt =====
-- Converting what MSGPACK_DEFINE packed: the get-coordinate messages.
use serf_cpp.Prelude.{some, ◌≡◌, refl}
use serf_cpp.Msgpack.{Msgpack, field_lem, as_doubles, as_doubles-pack}
use serf_cpp.Msg.Coordinates.{
  CoordRequest, default_coord_request, Coordinate, default_coordinate, CoordResponse,
  default_coord_response,
}
use serf_cpp.Msg.Coordinates.Codec.{
  pack_coord_request, fields_coord_request, convert_coord_request, as_coord_request,
  pack_coordinate, fields_coordinate, convert_coordinate, as_coordinate, pack_coord_response,
  fields_coord_response, convert_coord_response, as_coord_response,
}

module _ ⦃m : Msgpack⦄ where
  open m use {
    is_map-of_map, as_str-of_str, as_bool-of_bool, as_double-of_double, as_str, as_bool, as_double,
  }

  pub convert-pack_coord_request :
      (r d : CoordRequest) → convert_coord_request (pack_coord_request r) d ≡ some r
  unfolding pack_coord_request convert_coord_request
  convert-pack_coord_request r d =
      let fs = fields_coord_request r in
      rw (
        is_map-of_map fs,
        field_lem fs as_str "Node" d.node r.node _ refl refl (as_str-of_str r.node),
      )

  pub as-pack_coord_request : (r : CoordRequest) → as_coord_request (pack_coord_request r) ≡ some r
  unfolding as_coord_request
  as-pack_coord_request r = convert-pack_coord_request r default_coord_request

  pub convert-pack_coordinate :
      (r d : Coordinate) → convert_coordinate (pack_coordinate r) d ≡ some r
  unfolding pack_coordinate convert_coordinate
  convert-pack_coordinate r d =
      let fs = fields_coordinate r in
      rw (
        is_map-of_map fs,
        field_lem fs as_double "Adjustment" d.adjustment r.adjustment _ refl refl
            (as_double-of_double r.adjustment),
        field_lem fs as_double "Error" d.error r.error _ refl refl (as_double-of_double r.error),
        field_lem fs as_double "Height" d.height r.height _ refl refl
            (as_double-of_double r.height),
        field_lem fs as_doubles "Vec" d.vec r.vec _ refl refl (as_doubles-pack r.vec),
      )

  pub as-pack_coordinate : (r : Coordinate) → as_coordinate (pack_coordinate r) ≡ some r
  unfolding as_coordinate
  as-pack_coordinate r = convert-pack_coordinate r default_coordinate

  pub convert-pack_coord_response :
      (r d : CoordResponse) → convert_coord_response (pack_coord_response r) d ≡ some r
  unfolding pack_coord_response convert_coord_response
  convert-pack_coord_response r d =
      let fs = fields_coord_response r in
      rw (
        is_map-of_map fs,
        field_lem fs (λ o. convert_coordinate o d.coord) "Coord" d.coord r.coord _ refl refl
            (convert-pack_coordinate r.coord d.coord),
        field_lem fs as_bool "Ok" d.ok r.ok _ refl refl (as_bool-of_bool r.ok),
      )

  pub as-pack_coord_response :
      (r : CoordResponse) → as_coord_response (pack_coord_response r) ≡ some r
  unfolding as_coord_response
  as-pack_coord_response r = convert-pack_coord_response r default_coord_response
