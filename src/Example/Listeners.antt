-- ===== src/Example/Listeners.antt =====
-- The listeners of the program. They run on the I/O thread, inside the delivery of a record.
use serf_cpp.Prelude.{ℕ, suc, pos, str_eq, List, [], ◌∷◌, if◌then◌else◌}
use serf_cpp.Msgpack.{Msgpack}
use serf_cpp.Exec.{pure, modify, ◌>>=◌, ◌>>◌}
use serf_cpp.Print.{◌<<◌, text, int, unsigned}
use serf_cpp.Print.Responses.{print_response_header}
use serf_cpp.Print.Records.{
  print_user_event_record, print_member_event_record, print_query_record, print_node_ack,
  print_node_response,
}
use serf_cpp.Channel.{
  Callback, on_log_record, on_user_event_record, on_member_event_record, on_query_event_record,
  on_query_ack, on_query_response, on_query_complete,
}
use serf_cpp.IoThread.Wait.{Env}
use serf_cpp.Client.Commands.{respond}
use serf_cpp.Example.{S, print_response, on_client, say}

-- "TEST"
abbrev pub test_answer : List ℕ
test_answer = b'T' ∷ b'E' ∷ b'S' ∷ b'T' ∷ []

module _ ⦃m : Msgpack⦄ where
  -- `env` is what happens around a call that the listener makes.
  unfoldable pub listen : Callback → Env → S (Unit {0})
  unfolding on_client say
  listen (on_log_record l hdr r) env =
      say (text "\n==> Log Record Seq: " << unsigned hdr.seq << text " " << text r.log << text "\n")
  listen (on_user_event_record l hdr r) env = say (
      text "\n==> Received UserEvent Hdr: "
      << print_response_header hdr
      << print_user_event_record r)
  listen (on_member_event_record l hdr r) env = say (
      text "\n==> Received MemberEvent Hdr: "
      << print_response_header hdr
      << print_member_event_record r)
  listen (on_query_event_record l hdr r) env = do
    say (
        text "\n==> Received QueryEvent Hdr: " << print_response_header hdr << print_query_record r)
    if str_eq r.name "testQuery"
        then (do
          resp ← on_client (respond r.id test_answer env)
          say (text "\n==> Auto response: " << print_response resp << text "\n"))
        else pure tt
  listen (on_query_ack l hdr r) env = do
    say (text "\n==> NodeResponse Hdr: " << print_response_header hdr << print_node_ack r)
    modify (λ s. record s { acks = suc s.acks })
  listen (on_query_response l hdr r) env = do
    say (text "\n==> NodeResponse Hdr: " << print_response_header hdr << print_node_response r)
    modify (λ s. record s { responses = suc s.responses })
  listen (on_query_complete l hdr) env = do
    modify λ s. record s {
      out =
          (text "\n==> Query Complete:  Acks: "
              << int (pos s.acks)
              << text " Responses: "
              << int (pos s.responses)
              << text "\n")
            s.out;
    }
    modify (λ s. record s { acks = 0; responses = 0 })
