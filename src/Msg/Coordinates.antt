-- ===== src/Msg/Coordinates.antt =====
-- include/serf-cpp/SerfMsgStructs.h: the get-coordinate messages, with the values of a default-constructed struct.
pub mod Codec
pub mod RoundTrip
pub mod Equal
pub mod Equality
use serf_cpp.Prelude.{ℕ, String, Bool, false, List, []}

pub record CoordRequest : Type 0 where
  pub node : String

abbrev pub default_coord_request : CoordRequest
default_coord_request = record { node = "" }

pub record Coordinate : Type 0 where
  pub vec : List ℕ
  pub error : ℕ
  pub adjustment : ℕ
  pub height : ℕ

abbrev pub default_coordinate : Coordinate
default_coordinate = record { vec = []; error = 0; adjustment = 0; height = 0 }

pub record CoordResponse : Type 0 where
  pub coord : Coordinate
  pub ok : Bool

abbrev pub default_coord_response : CoordResponse
default_coord_response = record { coord = default_coordinate; ok = false }
