-- ===== src/Msg/Stats/Codec.antt =====
-- MSGPACK_DEFINE of the reply to stats: each struct is a map from member names to values. `convert_x o d`
-- converts the object into the struct `d`, `as_x o` into a new struct.
use serf_cpp.Prelude.{String, Option, none, some, List, [], ◌∷◌, if◌then◌else◌, ◌>>=◌}
use serf_cpp.Msgpack.{Msgpack, field}
use serf_cpp.Msg.Stats.{
  Agent, default_agent, Runtime, default_runtime, Serf, default_serf, StatsResponse,
  default_stats_response,
}

module _ ⦃m : Msgpack⦄ where
  open m use {Object, of_str, of_map, as_str, is_map}

  unfoldable pub fields_agent : Agent → List (String × Object)
  fields_agent r = ("name", of_str r.name) ∷ []

  unfoldable pub pack_agent : Agent → Object
  unfolding fields_agent
  pack_agent r = of_map (fields_agent r)

  unfoldable pub convert_agent : Object → Agent → Option Agent
  convert_agent o d =
      if is_map o
      then (do name ← field "name" as_str d.name o; some (record { name = name }))
      else none

  unfoldable pub as_agent : Object → Option Agent
  unfolding convert_agent
  as_agent o = convert_agent o default_agent

  unfoldable pub fields_runtime : Runtime → List (String × Object)
  fields_runtime r =
      ("os", of_str r.os)
      ∷ ("arch", of_str r.arch)
      ∷ ("version", of_str r.version)
      ∷ ("max_procs", of_str r.max_procs)
      ∷ ("goroutines", of_str r.goroutines)
      ∷ ("cpu_count", of_str r.cpu_count)
      ∷ []

  unfoldable pub pack_runtime : Runtime → Object
  unfolding fields_runtime
  pack_runtime r = of_map (fields_runtime r)

  unfoldable pub convert_runtime : Object → Runtime → Option Runtime
  convert_runtime o d =
      if is_map o
      then (do
        os ← field "os" as_str d.os o
        arch ← field "arch" as_str d.arch o
        version ← field "version" as_str d.version o
        max_procs ← field "max_procs" as_str d.max_procs o
        goroutines ← field "goroutines" as_str d.goroutines o
        cpu_count ← field "cpu_count" as_str d.cpu_count o
        some (record {
          os = os;
          arch = arch;
          version = version;
          max_procs = max_procs;
          goroutines = goroutines;
          cpu_count = cpu_count;
        }))
      else none

  unfoldable pub as_runtime : Object → Option Runtime
  unfolding convert_runtime
  as_runtime o = convert_runtime o default_runtime

  unfoldable pub fields_serf : Serf → List (String × Object)
  fields_serf r =
      ("failed", of_str r.failed)
      ∷ ("left", of_str r.left)
      ∷ ("event_time", of_str r.event_time)
      ∷ ("query_time", of_str r.query_time)
      ∷ ("event_queue", of_str r.event_queue)
      ∷ ("members", of_str r.members)
      ∷ ("member_time", of_str r.member_time)
      ∷ ("intent_queue", of_str r.intent_queue)
      ∷ ("query_queue", of_str r.query_queue)
      ∷ []

  unfoldable pub pack_serf : Serf → Object
  unfolding fields_serf
  pack_serf r = of_map (fields_serf r)

  unfoldable pub convert_serf : Object → Serf → Option Serf
  convert_serf o d =
      if is_map o
      then (do
        failed ← field "failed" as_str d.failed o
        left ← field "left" as_str d.left o
        event_time ← field "event_time" as_str d.event_time o
        query_time ← field "query_time" as_str d.query_time o
        event_queue ← field "event_queue" as_str d.event_queue o
        members ← field "members" as_str d.members o
        member_time ← field "member_time" as_str d.member_time o
        intent_queue ← field "intent_queue" as_str d.intent_queue o
        query_queue ← field "query_queue" as_str d.query_queue o
        some (record {
          failed = failed;
          left = left;
          event_time = event_time;
          query_time = query_time;
          event_queue = event_queue;
          members = members;
          member_time = member_time;
          intent_queue = intent_queue;
          query_queue = query_queue;
        }))
      else none

  unfoldable pub as_serf : Object → Option Serf
  unfolding convert_serf
  as_serf o = convert_serf o default_serf

  unfoldable pub fields_stats_response : StatsResponse → List (String × Object)
  fields_stats_response r =
      ("agent", pack_agent r.agent)
      ∷ ("runtime", pack_runtime r.runtime)
      ∷ ("serf", pack_serf r.serf)
      ∷ []

  unfoldable pub pack_stats_response : StatsResponse → Object
  unfolding fields_stats_response
  pack_stats_response r = of_map (fields_stats_response r)

  unfoldable pub convert_stats_response : Object → StatsResponse → Option StatsResponse
  convert_stats_response o d =
      if is_map o
      then (do
        agent ← field "agent" (λ o. convert_agent o d.agent) d.agent o
        runtime ← field "runtime" (λ o. convert_runtime o d.runtime) d.runtime o
        serf ← field "serf" (λ o. convert_serf o d.serf) d.serf o
        some (record { agent = agent; runtime = runtime; serf = serf }))
      else none

  unfoldable pub as_stats_response : Object → Option StatsResponse
  unfolding convert_stats_response
  as_stats_response o = convert_stats_response o default_stats_response
