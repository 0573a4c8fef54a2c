-- ===== src/Tests/Witnesses.antt =====
-- The properties at concrete inputs.
use serf_cpp.Prelude.{true, false, none, some, List, [], ◌∷◌, ◌==◌, if◌then◌else◌}
use serf_cpp.IoThread.Rpc.{readable, quiet}
use serf_cpp.IoThread.Wait.{Env}
use serf_cpp.Client.Session.{Call, Turn, connects, monitors, session, new_client}
use serf_cpp.Safety.Triple.{Post}
use serf_cpp.Safety.Invariant.{IsSafe}
use serf_cpp.Safety.Loop.{Never}
use serf_cpp.Safety.Session.{session-IsSafe, new_client-IsSafe}
use serf_cpp.Prelude.{◌≡◌, ◌↔◌, refl, arith}
use serf_cpp.Exec.{ok, pure, catch}
use serf_cpp.SeqMap.{pointer, entry}
use serf_cpp.Msg.Headers.{ResponseHeader}
use serf_cpp.Msg.Kinds.{Kind}
use serf_cpp.Msg.Codec.{pack, convert}
use serf_cpp.Msg.RoundTrip.{convert-pack}
use serf_cpp.Msg.Comparable.{Comparable, beq, beq-Decides}
use serf_cpp.Msg.Members.{Member}
use serf_cpp.Msg.Members.Equal.{beq_member}
use serf_cpp.Msg.Members.SameMember.{beq_member_lem}
use serf_cpp.Msg.Requests.{EventRequest}
use serf_cpp.Msg.Headers.Codec.{pack_request_header, as_response_header}
use serf_cpp.Msg.Records.Codec.{as_log_record}
use serf_cpp.Channel.{World, on_log_record, log}
use serf_cpp.IoThread.{send_data}
use serf_cpp.IoThread.Rpc.{Answer, receive, process_object, process_objects}
use serf_cpp.IoThread.Rpc.Bounds.{receive-offered}
use serf_cpp.Client.{failure, timeout, command}
use serf_cpp.Client.Session.{leaves, perform, no_output, seq_out}
use serf_cpp.Outcome.{unsent, forgotten, request_of}
use serf_cpp.Outcome.Sending.{send_data_lem, sent_or_not}
use serf_cpp.Outcome.Requests.{perform-unsent, perform-unanswered}
use serf_cpp.Route.{delivered, callbacks_of, closes}
use serf_cpp.Route.Single.{process_object-delivered}
use serf_cpp.Route.Router.{route, registry, Follows}
use serf_cpp.Route.Stream.{process_objects-route}
use serf_cpp.Tests.Toy.{Value, text, integer, struct, member, end}
use serf_cpp.Prelude.{pos}
use serf_cpp.Tests.Fixtures.{ok_header, codec, arriving, on_the_air, dial, online, online-IsSafe}

-- connect, listen to the log as request 1, receive two records, close
abbrev monitoring : List Turn
monitoring =
    record { idle = []; call = connects "127.0.0.1" 7373 dial; env = on_the_air (0 ∷ []) }
    ∷ record { idle = []; call = monitors "debug" 7 0; env = on_the_air (1 ∷ []) }
    ∷ record {
      idle = arriving (1 ∷ 100 ∷ 1 ∷ 100 ∷ []) ∷ [];
      call = Call.closes none;
      env = on_the_air [];
    }
    ∷ []

session-IsSafe_example :
    Post Never
      (λ _. IsSafe)
      (session monitoring (new_client [])).0
      (session monitoring (new_client [])).1
session-IsSafe_example = session-IsSafe [] monitoring

abbrev alice : Member
alice = record {
  name = "alice";
  addr = 127 ∷ 0 ∷ 0 ∷ 1 ∷ [];
  port = pos 7946;
  tags = ("role", "db") ∷ [];
  status = "alive";
  protocol_min = 1;
  protocol_max = 5;
  protocol_cur = 2;
  delegate_min = 2;
  delegate_max = 5;
  delegate_cur = 4;
}

abbrev blank : Member
blank = record alice { name = ""; tags = []; port = pos 0 }

convert-pack_example : convert Kind.member (pack Kind.member alice) blank ≡ some alice
convert-pack_example = convert-pack Kind.member alice blank (
  omega arith,
  refl,
  omega arith,
  omega arith,
  omega arith,
  omega arith,
  omega arith,
  omega arith,
)

abbrev deploy : EventRequest
deploy = record { name = "deploy"; payload = 1 ∷ 2 ∷ []; coalesce = true }

abbrev deploy_once : EventRequest
deploy_once = record deploy { coalesce = false }

beq-Decides_example :
    (beq Comparable.event_request deploy deploy_once ≡ true) ↔ (deploy ≡ deploy_once)
beq-Decides_example = beq-Decides Comparable.event_request deploy deploy_once

beq_member_lem_example :
    (beq_member alice blank ≡ true) ↔ (record alice { delegate_cur = 4 } ≡ blank)
beq_member_lem_example = beq_member_lem alice blank

abbrev two_reads : List Answer
two_reads = readable (1 ∷ 2 ∷ []) ∷ readable (3 ∷ []) ∷ quiet ∷ []

receive-offered_example : receive 0 two_reads ≡ 1 ∷ 2 ∷ 3 ∷ []
receive-offered_example = receive-offered two_reads 0

abbrev no_rounds : Env
no_rounds = record { accepts = true; arrivals = [] }

send_data_lem_example :
    send_data (command "auth") (text "key") 0 true 9 online
    ≡ sent_or_not true online
        (struct (member "Command" (text "auth") (member "Seq" (integer (pos 0)) end))
          ∷ text "key"
          ∷ [])
        0
        9
unfolding pack_request_header
send_data_lem_example = send_data_lem (command "auth") 0 true 9 online true refl (text "key")

perform-unsent_example :
    perform leaves (on_the_air []) (new_client [])
    ≡ (ok (failure, no_output), unsent (new_client []))
perform-unsent_example =
    perform-unsent leaves (on_the_air []) (new_client []) refl (new_client-IsSafe []) refl

perform-unanswered_example :
    perform (monitors "debug" 7 9) no_rounds online
    ≡ (ok (timeout, seq_out 0), forgotten online (request_of (monitors "debug" 7 9) 0))
perform-unanswered_example =
    perform-unanswered (monitors "debug" 7 9) no_rounds online refl online-IsSafe refl refl

-- a client whose request 1 listens to the log, with the header and the record of a message to come
abbrev listening : World
listening = record (new_client (1 ∷ 100 ∷ [])) {
  channels = (1, some 0) ∷ [];
  memory = λ p. if p == 0 then some (log 7) else none;
  next_address = 1;
}

abbrev first : ResponseHeader
first = record { seq = 1; error = "" }

abbrev started : Value
started = struct (member "Log" (text "started") end)

listening-IsSafe : IsSafe listening
unfolding pointer entry
listening-IsSafe = record {
  live = λ k p e. (log 7, ground (arith, e));
  alone = λ j k p d e. ground (arith, d, e);
  fresh = λ p le. ground (arith, le);
  waiting = λ k p c e d. ground (arith, e, d);
}

process_object-delivered_example :
    catch (process_object (ok_header 1)) (pure tt) (record listening { unpacker = 100 ∷ [] })
    ≡ (ok tt, delivered (record listening { unpacker = 100 ∷ [] }) 0 (log 7) first started [])
unfolding as_response_header pointer entry
process_object-delivered_example =
    process_object-delivered (record listening { unpacker = 100 ∷ [] }) 0 (log 7) first
      (ok_header 1) started [] refl refl refl refl refl

process_objects-route_example :
    Follows listening
      (on_log_record 7 first (record { log = "started" }) ∷ [])
      (registry listening)
      (process_objects 3 listening)
unfolding as_response_header registry route pointer entry as_log_record callbacks_of closes
process_objects-route_example =
    process_objects-route ((first, started) ∷ []) 3 listening
      (on_log_record 7 first (record { log = "started" }) ∷ []) (registry listening)
      listening-IsSafe (omega arith) (ok_header 1, 100 ∷ [], [], refl, refl, refl, ([], refl)) refl
