-- ===== src/Tests/Threads.antt =====
-- The properties of interleavings at concrete inputs.
use serf_cpp.Prelude.{List, [], ◌∷◌, ◌≡◌, refl}
use serf_cpp.Exec.{ok, dangling, catch}
use serf_cpp.Channel.{World, nothing}
use serf_cpp.IoThread.Interleaving.{
  Race, Side, waiting, caller_turn, thread_turn, interleave, keeps, adds_log, stops,
  replied as replied_with,
}
use serf_cpp.Exec.{◌>>=◌}
use serf_cpp.Channel.Memory.{next_object, load, free, change}
use serf_cpp.Channel.Produce.{produce_result}
use serf_cpp.Msg.Headers.Codec.{as_response_header}
use serf_cpp.IoThread.{find_channel, erase_channel}
use serf_cpp.IoThread.Rpc.{produce}
use serf_cpp.IoThread.Wait.{load_result}
use serf_cpp.SeqMap.{pointer, assign, erase, touch}
use serf_cpp.Safety.Invariant.{IsSafe}
use serf_cpp.Safety.Interleaving.{IsConsistent}
use serf_cpp.Safety.Interleaving.Turns.{Fine}
use serf_cpp.Safety.Interleaving.Schedules.{
  started, started-IsConsistent, is_raced, interleave-Fine, interleave-sent, interleave-dangling,
  interleave-stopped,
}
use serf_cpp.Channel.{Channel}
use serf_cpp.IoThread.{add_log_channel, set_channel}
use serf_cpp.Channel.Memory.{allocate}
use serf_cpp.Tests.Listening.{listening, listening-IsSafe, reply_1}
use serf_cpp.Tests.Fixtures.{codec, online, online-IsSafe}

-- a client to which the reply to request 0 has arrived
abbrev replied : World
replied = record online { unpacker = 0 ∷ [] }

replied-IsSafe : IsSafe replied
replied-IsSafe = record {
  live = online-IsSafe.live;
  alone = online-IsSafe.alone;
  fresh = online-IsSafe.fresh;
  waiting = online-IsSafe.waiting;
}

-- the thread delivers the reply while the caller waits
abbrev answered : List Side
answered =
    thread_turn ∷ thread_turn ∷ thread_turn ∷ thread_turn ∷ caller_turn ∷ thread_turn ∷ caller_turn
    ∷ caller_turn ∷ []

interleave-sent_example :
    Fine replied.next_address replied.seq (adds_log 7) (
      interleave replied.next_address replied.seq
        (adds_log 7)
        answered
        (started replied nothing []))
unfolding is_raced ◌>>=◌ next_object catch as_response_header find_channel pointer assign load
    erase_channel produce produce_result change load_result free add_log_channel allocate
    set_channel
interleave-sent_example =
    interleave-sent replied nothing [] (adds_log 7) answered replied-IsSafe refl

-- the thread has found the channel
unfoldable reached : Race
unfolding interleave
reached =
    elim (interleave replied.next_address replied.seq keeps (thread_turn ∷ [])
      (started replied nothing [])) [ ok r ↦ r | _ ↦ started replied nothing [] ]

reached-IsConsistent :
    IsConsistent replied.next_address replied.seq
      (record { world = reached.world; delivery = reached.delivery; caller = waiting })
unfolding is_raced ◌>>=◌ next_object catch as_response_header find_channel interleave reached
reached-IsConsistent =
    interleave-Fine replied.next_address replied.seq keeps (thread_turn ∷ [])
      (started replied nothing []) (started-IsConsistent replied nothing [] replied-IsSafe) refl

interleave-dangling_example :
    interleave replied.next_address replied.seq keeps
      (caller_turn ∷ caller_turn ∷ caller_turn ∷ thread_turn ∷ thread_turn ∷ [])
      (record { world = reached.world; delivery = reached.delivery; caller = waiting })
    ≡ dangling
unfolding reached ◌>>=◌ next_object catch as_response_header find_channel pointer assign
interleave-dangling_example =
    interleave-dangling replied.next_address replied.seq keeps reached.world reached.delivery
      reached-IsConsistent refl

-- A client that listens to the log since request 0. The reply to request 1 has arrived, and then a
-- log record.
abbrev stopping : World
stopping = record listening { unpacker = 1 ∷ 0 ∷ 100 ∷ [] }

stopping-IsSafe : IsSafe stopping
stopping-IsSafe = record {
  live = listening-IsSafe.live;
  alone = listening-IsSafe.alone;
  fresh = listening-IsSafe.fresh;
  waiting = listening-IsSafe.waiting;
}

-- the thread delivers the reply and finds the channel of the listener, and the caller sees the reply
abbrev until_reply : List Side
until_reply = thread_turn ∷ thread_turn ∷ thread_turn ∷ thread_turn ∷ thread_turn ∷ caller_turn ∷ []

unfoldable reached_stop : Race
unfolding interleave
reached_stop = elim (interleave 2 1 (stops 0) until_reply (started stopping nothing [])) [
  | ok r ↦ r
  | _ ↦ started stopping nothing []
]

reached_stop-IsConsistent : IsConsistent 2 1 (record {
  world = reached_stop.world;
  delivery = reached_stop.delivery;
  caller = replied_with reply_1;
})
unfolding is_raced ◌>>=◌ next_object catch as_response_header find_channel pointer assign erase load
    erase_channel produce produce_result change load_result interleave reached_stop
reached_stop-IsConsistent =
    interleave-Fine 2 1 (stops 0) until_reply (started stopping nothing [])
      (started-IsConsistent stopping nothing [] stopping-IsSafe) refl

interleave-stopped_example :
    interleave 2 1 (stops 0) (caller_turn ∷ thread_turn ∷ thread_turn ∷ []) (record {
      world = reached_stop.world;
      delivery = reached_stop.delivery;
      caller = replied_with reply_1;
    })
    ≡ dangling
unfolding pointer reached_stop ◌>>=◌ next_object catch as_response_header find_channel assign erase
    load erase_channel produce produce_result change load_result touch
interleave-stopped_example =
    interleave-stopped 2 1 0 1 (Channel.log 7) reply_1 reached_stop.world reached_stop.delivery
      reached_stop-IsConsistent refl refl refl refl refl
