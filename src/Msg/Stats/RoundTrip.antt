-- ===== src/Msg/Stats/RoundTrip.antt =====
-- Converting what MSGPACK_DEFINE packed: the reply to stats.
use serf_cpp.Prelude.{some, ◌≡◌, refl}
use serf_cpp.Msgpack.{Msgpack, field_lem}
use serf_cpp.Msg.Stats.{
  Agent, default_agent, Runtime, default_runtime, Serf, default_serf, StatsResponse,
  default_stats_response,
}
use serf_cpp.Msg.Stats.Codec.{
  pack_agent, fields_agent, convert_agent, as_agent, pack_runtime, fields_runtime, convert_runtime,
  as_runtime, pack_serf, fields_serf, convert_serf, as_serf, pack_stats_response,
  fields_stats_response, convert_stats_response, as_stats_response,
}

module _ ⦃m : Msgpack⦄ where
  open m use {is_map-of_map, as_str-of_str, as_str}

  pub convert-pack_agent : (r d : Agent) → convert_agent (pack_agent r) d ≡ some r
  unfolding pack_agent convert_agent
  convert-pack_agent r d =
      let fs = fields_agent r in
      rw (
        is_map-of_map fs,
        field_lem fs as_str "name" d.name r.name _ refl refl (as_str-of_str r.name),
      )

  pub as-pack_agent : (r : Agent) → as_agent (pack_agent r) ≡ some r
  unfolding as_agent
  as-pack_agent r = convert-pack_agent r default_agent

  pub convert-pack_runtime : (r d : Runtime) → convert_runtime (pack_runtime r) d ≡ some r
  unfolding pack_runtime convert_runtime
  convert-pack_runtime r d =
      let fs = fields_runtime r in
      rw (
        is_map-of_map fs,
        field_lem fs as_str "os" d.os r.os _ refl refl (as_str-of_str r.os),
        field_lem fs as_str "arch" d.arch r.arch _ refl refl (as_str-of_str r.arch),
        field_lem fs as_str "version" d.version r.version _ refl refl (as_str-of_str r.version),
        field_lem fs as_str "max_procs" d.max_procs r.max_procs _ refl refl
            (as_str-of_str r.max_procs),
        field_lem fs as_str "goroutines" d.goroutines r.goroutines _ refl refl
            (as_str-of_str r.goroutines),
        field_lem fs as_str "cpu_count" d.cpu_count r.cpu_count _ refl refl
            (as_str-of_str r.cpu_count),
      )

  pub as-pack_runtime : (r : Runtime) → as_runtime (pack_runtime r) ≡ some r
  unfolding as_runtime
  as-pack_runtime r = convert-pack_runtime r default_runtime

  pub convert-pack_serf : (r d : Serf) → convert_serf (pack_serf r) d ≡ some r
  unfolding pack_serf convert_serf
  convert-pack_serf r d =
      let fs = fields_serf r in
      rw (
        is_map-of_map fs,
        field_lem fs as_str "failed" d.failed r.failed _ refl refl (as_str-of_str r.failed),
        field_lem fs as_str "left" d.left r.left _ refl refl (as_str-of_str r.left),
        field_lem fs as_str "event_time" d.event_time r.event_time _ refl refl
            (as_str-of_str r.event_time),
        field_lem fs as_str "query_time" d.query_time r.query_time _ refl refl
            (as_str-of_str r.query_time),
        field_lem fs as_str "event_queue" d.event_queue r.event_queue _ refl refl
            (as_str-of_str r.event_queue),
        field_lem fs as_str "members" d.members r.members _ refl refl (as_str-of_str r.members),
        field_lem fs as_str "member_time" d.member_time r.member_time _ refl refl
            (as_str-of_str r.member_time),
        field_lem fs as_str "intent_queue" d.intent_queue r.intent_queue _ refl refl
            (as_str-of_str r.intent_queue),
        field_lem fs as_str "query_queue" d.query_queue r.query_queue _ refl refl
            (as_str-of_str r.query_queue),
      )

  pub as-pack_serf : (r : Serf) → as_serf (pack_serf r) ≡ some r
  unfolding as_serf
  as-pack_serf r = convert-pack_serf r default_serf

  pub convert-pack_stats_response :
      (r d : StatsResponse) → convert_stats_response (pack_stats_response r) d ≡ some r
  unfolding pack_stats_response convert_stats_response
  convert-pack_stats_response r d =
      let fs = fields_stats_response r in
      rw (
        is_map-of_map fs,
        field_lem fs (λ o. convert_agent o d.agent) "agent" d.agent r.agent _ refl refl
            (convert-pack_agent r.agent d.agent),
        field_lem fs (λ o. convert_runtime o d.runtime) "runtime" d.runtime r.runtime _ refl refl
            (convert-pack_runtime r.runtime d.runtime),
        field_lem fs (λ o. convert_serf o d.serf) "serf" d.serf r.serf _ refl refl
            (convert-pack_serf r.serf d.serf),
      )

  pub as-pack_stats_response :
      (r : StatsResponse) → as_stats_response (pack_stats_response r) ≡ some r
  unfolding as_stats_response
  as-pack_stats_response r = convert-pack_stats_response r default_stats_response
