-- ===== src/Print/Records/Text.antt =====
-- The text of each record.
use serf_cpp.Prelude.{ℕ, List, ◌++◌}
use serf_cpp.Print.{digits}
use serf_cpp.Print.Plain.{Writes, lines, said, newline, writes_rules}
use serf_cpp.Print.Records.{
  print_log_record, print_user_event_record, print_member_event_record, print_query_record,
  print_node_response_base, print_node_ack, print_node_response,
}
use serf_cpp.Msg.Records.{
  LogRecord, UserEventRecord, MemberEventRecord, QueryRecord, NodeResponseBase, NodeAck,
  NodeResponse,
}
use serf_cpp.Print.Payload.Dump.{text_of_payload, dump_payload-Writes}
use serf_cpp.Print.Members.Text.{text_of_member, print_member-Writes}

unfoldable pub text_of_log_record : LogRecord → List ℕ
text_of_log_record r = said "    LogRecord: " ++ said r.log ++ newline

pub print_log_record-Writes : (r : LogRecord) → Writes (print_log_record r) (text_of_log_record r)
unfolding print_log_record text_of_log_record
print_log_record-Writes r = search writes_rules depth 80

unfoldable pub text_of_user_event_record : UserEventRecord → List ℕ
text_of_user_event_record r =
    said "    UserEvent: Time: "
    ++ digits 10 r.l_time
    ++ said " Name: "
    ++ said r.name
    ++ newline
    ++ said "    Payload: "
    ++ text_of_payload r.payload

pub print_user_event_record-Writes :
    (r : UserEventRecord) → Writes (print_user_event_record r) (text_of_user_event_record r)
unfolding print_user_event_record text_of_user_event_record
print_user_event_record-Writes r = search (writes_rules, dump_payload-Writes) depth 80

unfoldable pub text_of_member_event_record : MemberEventRecord → List ℕ
text_of_member_event_record r =
    said "    MemberEvent: " ++ said r.event ++ newline ++ lines text_of_member r.members

pub print_member_event_record-Writes :
    (r : MemberEventRecord) → Writes (print_member_event_record r) (text_of_member_event_record r)
unfolding print_member_event_record text_of_member_event_record
print_member_event_record-Writes r = search (writes_rules, print_member-Writes) depth 80

unfoldable pub text_of_query_record : QueryRecord → List ℕ
text_of_query_record r =
    said "    QueryEvent: "
    ++ said r.event
    ++ said " ID: "
    ++ digits 10 r.id
    ++ said " Name: "
    ++ said r.name
    ++ said " LTime: "
    ++ digits 10 r.l_time
    ++ newline
    ++ said "    Payload: "
    ++ text_of_payload r.payload

pub print_query_record-Writes :
    (r : QueryRecord) → Writes (print_query_record r) (text_of_query_record r)
unfolding print_query_record text_of_query_record
print_query_record-Writes r = search (writes_rules, dump_payload-Writes) depth 80

unfoldable pub text_of_node_response_base : NodeResponseBase → List ℕ
text_of_node_response_base r = said "    Node Response Type: " ++ said r.type ++ newline

pub print_node_response_base-Writes :
    (r : NodeResponseBase) → Writes (print_node_response_base r) (text_of_node_response_base r)
unfolding print_node_response_base text_of_node_response_base
print_node_response_base-Writes r = search writes_rules depth 80

unfoldable pub text_of_node_ack : NodeAck → List ℕ
text_of_node_ack r =
    said "    Node Response Type: " ++ said r.type ++ said " From: " ++ said r.from ++ newline

pub print_node_ack-Writes : (r : NodeAck) → Writes (print_node_ack r) (text_of_node_ack r)
unfolding print_node_ack text_of_node_ack
print_node_ack-Writes r = search writes_rules depth 80

unfoldable pub text_of_node_response : NodeResponse → List ℕ
text_of_node_response r =
    said "    Node Response Type: "
    ++ said r.type
    ++ said " From: "
    ++ said r.from
    ++ newline
    ++ said "    Payload: "
    ++ text_of_payload r.payload

pub print_node_response-Writes :
    (r : NodeResponse) → Writes (print_node_response r) (text_of_node_response r)
unfolding print_node_response text_of_node_response
print_node_response-Writes r = search (writes_rules, dump_payload-Writes) depth 80
