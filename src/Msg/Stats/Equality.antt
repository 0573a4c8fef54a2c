-- ===== src/Msg/Stats/Equality.antt =====
-- `operator==` against equality in every member.
use serf_cpp.Prelude.{
  ◌≡◌, true, str_eq, Decides, &&_true, true_&&, Decides-refl, sound-Decides, str_eq-Decides,
}
use serf_cpp.Msg.Stats.{Agent, Runtime, Serf, StatsResponse}
use serf_cpp.Msg.Stats.Equal.{beq_agent, beq_runtime, beq_serf, beq_stats_response}

pub beq_agent-Decides : Decides beq_agent
unfolding beq_agent
beq_agent-Decides = sound-Decides beq_agent sound self
  where
    sound : (a b : Agent) → beq_agent a b ≡ true → a ≡ b
    sound a b e = λ i. record { name = (str_eq-Decides a.name b.name).0 e i }

    self : (a : Agent) → beq_agent a a ≡ true
    self a = (Decides-refl str_eq str_eq-Decides a.name)

pub beq_runtime-Decides : Decides beq_runtime
unfolding beq_runtime
beq_runtime-Decides = sound-Decides beq_runtime sound self
  where
    sound : (a b : Runtime) → beq_runtime a b ≡ true → a ≡ b
    sound a b e =
        let (r5, e5) = &&_true _ (str_eq a.cpu_count b.cpu_count) e in
        let (r4, e4) = &&_true _ (str_eq a.goroutines b.goroutines) r5 in
        let (r3, e3) = &&_true _ (str_eq a.max_procs b.max_procs) r4 in
        let (r2, e2) = &&_true _ (str_eq a.version b.version) r3 in
        let (r1, e1) = &&_true _ (str_eq a.arch b.arch) r2 in
        λ i. record {
          os = (str_eq-Decides a.os b.os).0 r1 i;
          arch = (str_eq-Decides a.arch b.arch).0 e1 i;
          version = (str_eq-Decides a.version b.version).0 e2 i;
          max_procs = (str_eq-Decides a.max_procs b.max_procs).0 e3 i;
          goroutines = (str_eq-Decides a.goroutines b.goroutines).0 e4 i;
          cpu_count = (str_eq-Decides a.cpu_count b.cpu_count).0 e5 i;
        }

    self : (a : Runtime) → beq_runtime a a ≡ true
    self a =
        (true_&& _ _
          (true_&& _ _
            (true_&& _ _
              (true_&& _ _
                (true_&& _ _ (Decides-refl str_eq str_eq-Decides a.os)
                  (Decides-refl str_eq str_eq-Decides a.arch))
                (Decides-refl str_eq str_eq-Decides a.version))
              (Decides-refl str_eq str_eq-Decides a.max_procs))
            (Decides-refl str_eq str_eq-Decides a.goroutines))
          (Decides-refl str_eq str_eq-Decides a.cpu_count))

pub beq_serf-Decides : Decides beq_serf
unfolding beq_serf
beq_serf-Decides = sound-Decides beq_serf sound self
  where
    sound : (a b : Serf) → beq_serf a b ≡ true → a ≡ b
    sound a b e =
        let (r8, e8) = &&_true _ (str_eq a.query_queue b.query_queue) e in
        let (r7, e7) = &&_true _ (str_eq a.intent_queue b.intent_queue) r8 in
        let (r6, e6) = &&_true _ (str_eq a.member_time b.member_time) r7 in
        let (r5, e5) = &&_true _ (str_eq a.members b.members) r6 in
        let (r4, e4) = &&_true _ (str_eq a.event_queue b.event_queue) r5 in
        let (r3, e3) = &&_true _ (str_eq a.query_time b.query_time) r4 in
        let (r2, e2) = &&_true _ (str_eq a.event_time b.event_time) r3 in
        let (r1, e1) = &&_true _ (str_eq a.left b.left) r2 in
        λ i. record {
          failed = (str_eq-Decides a.failed b.failed).0 r1 i;
          left = (str_eq-Decides a.left b.left).0 e1 i;
          event_time = (str_eq-Decides a.event_time b.event_time).0 e2 i;
          query_time = (str_eq-Decides a.query_time b.query_time).0 e3 i;
          event_queue = (str_eq-Decides a.event_queue b.event_queue).0 e4 i;
          members = (str_eq-Decides a.members b.members).0 e5 i;
          member_time = (str_eq-Decides a.member_time b.member_time).0 e6 i;
          intent_queue = (str_eq-Decides a.intent_queue b.intent_queue).0 e7 i;
          query_queue = (str_eq-Decides a.query_queue b.query_queue).0 e8 i;
        }

    self : (a : Serf) → beq_serf a a ≡ true
    self a =
        (true_&& _ _
          (true_&& _ _
            (true_&& _ _
              (true_&& _ _
                (true_&& _ _
                  (true_&& _ _
                    (true_&& _ _
                      (true_&& _ _ (Decides-refl str_eq str_eq-Decides a.failed)
                        (Decides-refl str_eq str_eq-Decides a.left))
                      (Decides-refl str_eq str_eq-Decides a.event_time))
                    (Decides-refl str_eq str_eq-Decides a.query_time))
                  (Decides-refl str_eq str_eq-Decides a.event_queue))
                (Decides-refl str_eq str_eq-Decides a.members))
              (Decides-refl str_eq str_eq-Decides a.member_time))
            (Decides-refl str_eq str_eq-Decides a.intent_queue))
          (Decides-refl str_eq str_eq-Decides a.query_queue))

pub beq_stats_response-Decides : Decides beq_stats_response
unfolding beq_stats_response
beq_stats_response-Decides = sound-Decides beq_stats_response sound self
  where
    sound : (a b : StatsResponse) → beq_stats_response a b ≡ true → a ≡ b
    sound a b e =
        let (r2, e2) = &&_true _ (beq_serf a.serf b.serf) e in
        let (r1, e1) = &&_true _ (beq_runtime a.runtime b.runtime) r2 in
        λ i. record {
          agent = (beq_agent-Decides a.agent b.agent).0 r1 i;
          runtime = (beq_runtime-Decides a.runtime b.runtime).0 e1 i;
          serf = (beq_serf-Decides a.serf b.serf).0 e2 i;
        }

    self : (a : StatsResponse) → beq_stats_response a a ≡ true
    self a =
        (true_&& _ _
          (true_&& _ _ (Decides-refl beq_agent beq_agent-Decides a.agent)
            (Decides-refl beq_runtime beq_runtime-Decides a.runtime))
          (Decides-refl beq_serf beq_serf-Decides a.serf))
