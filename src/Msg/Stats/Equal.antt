-- ===== src/Msg/Stats/Equal.antt =====
-- `operator==` of the reply to stats.
use serf_cpp.Prelude.{Bool, ◌&&◌, str_eq}
use serf_cpp.Msg.Stats.{Agent, Runtime, Serf, StatsResponse}

unfoldable pub beq_agent : Agent → Agent → Bool
beq_agent a b = str_eq a.name b.name

unfoldable pub beq_runtime : Runtime → Runtime → Bool
beq_runtime a b =
    str_eq a.os b.os
    && str_eq a.arch b.arch
    && str_eq a.version b.version
    && str_eq a.max_procs b.max_procs
    && str_eq a.goroutines b.goroutines
    && str_eq a.cpu_count b.cpu_count

unfoldable pub beq_serf : Serf → Serf → Bool
beq_serf a b =
    str_eq a.failed b.failed
    && str_eq a.left b.left
    && str_eq a.event_time b.event_time
    && str_eq a.query_time b.query_time
    && str_eq a.event_queue b.event_queue
    && str_eq a.members b.members
    && str_eq a.member_time b.member_time
    && str_eq a.intent_queue b.intent_queue
    && str_eq a.query_queue b.query_queue

unfoldable pub beq_stats_response : StatsResponse → StatsResponse → Bool
unfolding beq_agent beq_runtime beq_serf
beq_stats_response a b =
    beq_agent a.agent b.agent && beq_runtime a.runtime b.runtime && beq_serf a.serf b.serf
