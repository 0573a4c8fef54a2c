-- ===== src/Tests/Answers.antt =====
-- The properties of answered requests and of the connection at concrete inputs.
use serf_cpp.Prelude.{true, false, none, [], ◌∷◌, ◌≡◌, refl, pos}
use serf_cpp.Exec.{ok, terminated}
use serf_cpp.Msg.Headers.{ResponseHeader}
use serf_cpp.Msg.Headers.Codec.{as_response_header}
use serf_cpp.Msg.Requests.Codec.{as_join_response}
use serf_cpp.Channel.{World, Reply, nothing}
use serf_cpp.Channel.Produce.{as_reply}
use serf_cpp.IoThread.Wait.{Env}
use serf_cpp.IoThread.Rpc.{receive}
use serf_cpp.IoThread.Connection.{connect, close}
use serf_cpp.Client.{response_of}
use serf_cpp.Client.Session.{no_output, auths, perform, new_client}
use serf_cpp.Outcome.{forgotten, request_of}
use serf_cpp.Outcome.Reply.{Brings}
use serf_cpp.Outcome.Commands.{command-answered}
use serf_cpp.Outcome.Questions.{joining, ask, ask-answered, call_of}
use serf_cpp.Client.{success}
use serf_cpp.Outcome.Listeners.{
  to_log, subscribe, subscribed, subscription_request, channel_of, subscribe-answered,
}
use serf_cpp.Outcome.Connecting.{connect-answered, shaking, handshake_of, connect-again, close_lem}
use serf_cpp.Safety.Invariant.{IsSafe}
use serf_cpp.Safety.Session.{new_client-IsSafe}
use serf_cpp.Tests.Fixtures.{ok_header, codec, arriving, on_the_air, dial, online, online-IsSafe}
use serf_cpp.Tests.Toy.{integer, struct, member, end}

-- the client with its I/O thread
abbrev pub running : World
running = record online { running = true }

pub running-IsSafe : IsSafe running
running-IsSafe =
    let h = online-IsSafe in
    record { live = h.live; alone = h.alone; fresh = h.fresh; waiting = h.waiting }

abbrev pub reply_0 : ResponseHeader
reply_0 = record { seq = 0; error = "" }

pub Brings-header : Brings [] (arriving (0 ∷ [])) 0 reply_0 nothing nothing []
unfolding receive as_response_header
Brings-header = record {
  obj = ok_header 0;
  v = [];
  x = [];
  proceeds = refl;
  header = refl;
  converts = refl;
  numbered = refl;
  body = (refl, refl);
  last = refl;
}

command-answered_example : perform (auths "key") (on_the_air (0 ∷ [])) running ≡ (
  ok (response_of reply_0, no_output),
  record (forgotten running (request_of (auths "key") 0)) { unpacker = [] },
)
command-answered_example =
    command-answered (auths "key") (on_the_air (0 ∷ [])) running (arriving (0 ∷ [])) [] reply_0 []
      refl running-IsSafe refl refl refl refl Brings-header

abbrev three : Reply
three = Reply.join (record { num = pos 3 })

Brings-reply :
    Brings [] (arriving (0 ∷ 101 ∷ [])) 0 reply_0 (Reply.join (record { num = pos 0 })) three []
unfolding receive as_response_header as_join_response as_reply
Brings-reply = record {
  obj = ok_header 0;
  v = 101 ∷ [];
  x = [];
  proceeds = refl;
  header = refl;
  converts = refl;
  numbered = refl;
  body = (struct (member "Num" (integer (pos 3)) end), refl, refl);
  last = refl;
}

ask-answered_example :
    ask (joining ("10.0.0.1" ∷ []) true) (pos 9) (on_the_air (0 ∷ 101 ∷ [])) running ≡ (
      ok (response_of reply_0, pos 3),
      record (forgotten running (request_of (call_of (joining ("10.0.0.1" ∷ []) true) (pos 9)) 0)) {
        unpacker = [];
      },
    )
ask-answered_example =
    ask-answered (joining ("10.0.0.1" ∷ []) true) (pos 9) (on_the_air (0 ∷ 101 ∷ [])) running
      (arriving (0 ∷ 101 ∷ [])) [] reply_0 three [] running-IsSafe refl refl refl refl Brings-reply

abbrev silent : Env
silent = record { accepts = true; arrivals = [] }

connect-answered_example : connect "127.0.0.1" 7373 dial (on_the_air (0 ∷ [])) (new_client []) ≡ (
  ok true,
  record (forgotten (shaking "127.0.0.1" 7373 3 (new_client [])) (handshake_of 0)) {
    unpacker = [];
  },
)
connect-answered_example =
    connect-answered "127.0.0.1" 7373 3 (on_the_air (0 ∷ [])) (new_client []) (arriving (0 ∷ [])) []
      reply_0 [] (new_client-IsSafe []) refl refl refl refl Brings-header

connect-again_example :
    ((connect "127.0.0.1" 7373 dial silent (new_client [])).0 ≡ ok false)
    × ((connect "127.0.0.1" 7373 dial silent
          (connect "127.0.0.1" 7373 dial silent (new_client [])).1).0
        ≡ terminated)
connect-again_example =
    connect-again "127.0.0.1" "127.0.0.1" 7373 7373 3 3 silent silent (new_client [])
      (new_client-IsSafe []) refl refl

close_lem_example : close none running ≡ (ok true, record running { running = false })
close_lem_example = close_lem running

subscribe-answered_example : subscribe (to_log "debug") 7 9 (on_the_air (0 ∷ [])) running ≡ (
  ok (success, 0),
  subscribed running (subscription_request (to_log "debug") 0) (channel_of (to_log "debug") 7) [],
)
subscribe-answered_example =
    subscribe-answered (to_log "debug") 7 9 (on_the_air (0 ∷ [])) running (arriving (0 ∷ [])) []
      reply_0 [] running-IsSafe refl refl refl refl Brings-header refl
