-- ===== src/Msg/Stats.antt =====
-- include/serf-cpp/SerfMsgStructs.h: the reply to stats, with the values of a default-constructed struct.
pub mod Codec
pub mod RoundTrip
pub mod Equal
pub mod Equality
use serf_cpp.Prelude.{String}

pub record Agent : Type 0 where
  pub name : String

abbrev pub default_agent : Agent
default_agent = record { name = "" }

pub record Runtime : Type 0 where
  pub os : String
  pub arch : String
  pub version : String
  pub max_procs : String
  pub goroutines : String
  pub cpu_count : String

abbrev pub default_runtime : Runtime
default_runtime = record {
  os = "";
  arch = "";
  version = "";
  max_procs = "";
  goroutines = "";
  cpu_count = "";
}

pub record Serf : Type 0 where
  pub failed : String
  pub left : String
  pub event_time : String
  pub query_time : String
  pub event_queue : String
  pub members : String
  pub member_time : String
  pub intent_queue : String
  pub query_queue : String

abbrev pub default_serf : Serf
default_serf = record {
  failed = "";
  left = "";
  event_time = "";
  query_time = "";
  event_queue = "";
  members = "";
  member_time = "";
  intent_queue = "";
  query_queue = "";
}

pub record StatsResponse : Type 0 where
  pub agent : Agent
  pub runtime : Runtime
  pub serf : Serf

abbrev pub default_stats_response : StatsResponse
default_stats_response = record {
  agent = default_agent;
  runtime = default_runtime;
  serf = default_serf;
}
