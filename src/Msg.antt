-- ===== src/Msg.antt =====
-- The message structs of include/serf-cpp/SerfMsgStructs.h.
pub mod Headers
pub mod Coordinates
pub mod Keys
pub mod Requests
pub mod Members
pub mod Records
pub mod Stats
pub mod Kinds
pub mod Codec
pub mod RoundTrip
pub mod Comparable
