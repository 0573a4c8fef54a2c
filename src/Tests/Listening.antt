-- ===== src/Tests/Listening.antt =====
-- The properties of Query and Stop at concrete inputs.
use serf_cpp.Prelude.{true, arith, none, [], ◌∷◌, ◌≡◌, refl, subst}
use serf_cpp.Exec.{ok}
use serf_cpp.Msg.Headers.{ResponseHeader}
use serf_cpp.Msg.Headers.Codec.{as_response_header}
use serf_cpp.SeqMap.{pointer, assign, erase}
use serf_cpp.Channel.{World, Channel, nothing}
use serf_cpp.IoThread.Rpc.{receive}
use serf_cpp.Client.{success}
use serf_cpp.Client.Listening.{query, stop}
use serf_cpp.Client.Session.{queries}
use serf_cpp.Outcome.{request_of}
use serf_cpp.Outcome.Reply.{Brings}
use serf_cpp.Outcome.Listeners.{
  to_log, subscribe, subscribed, subscription_request, subscribe-answered,
}
use serf_cpp.Outcome.Stopping.{query-answered, stopped, stop-answered}
use serf_cpp.Safety.Invariant.{IsSafe}
use serf_cpp.Safety.Loop.{Never}
use serf_cpp.Safety.Listening.{monitor-Safe}
use serf_cpp.Safety.Triple.{Post}
use serf_cpp.Tests.Answers.{running, running-IsSafe, reply_0, Brings-header}
use serf_cpp.Tests.Fixtures.{codec, ok_header, arriving, on_the_air}

query-answered_example : query "deploy" [] 7 true 5 none none (on_the_air (0 ∷ [])) running ≡ (
  ok success,
  subscribed running (request_of (queries "deploy" [] 7 true 5 none none) 0) (Channel.query 7) [],
)
query-answered_example =
    query-answered "deploy" [] 7 true 5 none none (on_the_air (0 ∷ [])) running (arriving (0 ∷ []))
      [] reply_0 [] running-IsSafe refl refl refl refl Brings-header refl

-- the client that listens to the log since request 0
abbrev pub listening : World
listening = subscribed running (subscription_request (to_log "debug") 0) (Channel.log 7) []

pub listening-IsSafe : IsSafe listening
unfolding subscribe
listening-IsSafe =
    subst (λ r. Post Never (λ _. IsSafe) r.0 r.1)
      (subscribe-answered (to_log "debug") 7 9 (on_the_air (0 ∷ [])) running (arriving (0 ∷ [])) []
        reply_0 [] running-IsSafe refl refl refl refl Brings-header refl)
      ((monitor-Safe "debug" 7 9 (on_the_air (0 ∷ []))).at running running-IsSafe)

abbrev pub reply_1 : ResponseHeader
reply_1 = record { seq = 1; error = "" }

Brings-next : Brings [] (arriving (1 ∷ [])) 1 reply_1 nothing nothing []
unfolding receive as_response_header
Brings-next = record {
  obj = ok_header 1;
  v = [];
  x = [];
  proceeds = refl;
  header = refl;
  converts = refl;
  numbered = refl;
  body = (refl, refl);
  last = refl;
}

stop-answered_example :
    stop 0 (on_the_air (1 ∷ [])) listening ≡ (ok success, stopped listening 0 1 [])
unfolding pointer assign erase
stop-answered_example =
    stop-answered 0 1 (Channel.log 7) (on_the_air (1 ∷ [])) listening (arriving (1 ∷ [])) [] reply_1
      [] listening-IsSafe refl refl refl refl Brings-next refl refl refl refl (omega arith)
