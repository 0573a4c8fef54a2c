-- ===== src/Print/Records.antt =====
-- operator<< of the records.
pub mod Text
use serf_cpp.Print.{Print, ◌<<◌, text, unsigned, endl, each}
use serf_cpp.Print.Payload.{dump_payload}
use serf_cpp.Print.Members.{print_member}
use serf_cpp.Msg.Records.{
  LogRecord, UserEventRecord, MemberEventRecord, QueryRecord, NodeResponseBase, NodeAck,
  NodeResponse,
}

unfoldable pub print_log_record : LogRecord → Print
print_log_record r = text "    LogRecord: " << text r.log << endl

unfoldable pub print_user_event_record : UserEventRecord → Print
unfolding dump_payload
print_user_event_record r =
    text "    UserEvent: Time: "
    << unsigned r.l_time
    << text " Name: "
    << text r.name
    << endl
    << text "    Payload: "
    << dump_payload r.payload

unfoldable pub print_member_event_record : MemberEventRecord → Print
unfolding print_member
print_member_event_record r =
    text "    MemberEvent: " << text r.event << endl << each print_member r.members

unfoldable pub print_query_record : QueryRecord → Print
unfolding dump_payload
print_query_record r =
    text "    QueryEvent: "
    << text r.event
    << text " ID: "
    << unsigned r.id
    << text " Name: "
    << text r.name
    << text " LTime: "
    << unsigned r.l_time
    << endl
    << text "    Payload: "
    << dump_payload r.payload

unfoldable pub print_node_response_base : NodeResponseBase → Print
print_node_response_base r = text "    Node Response Type: " << text r.type << endl

unfoldable pub print_node_ack : NodeAck → Print
print_node_ack r =
    text "    Node Response Type: " << text r.type << text " From: " << text r.from << endl

unfoldable pub print_node_response : NodeResponse → Print
unfolding dump_payload
print_node_response r =
    text "    Node Response Type: "
    << text r.type
    << text " From: "
    << text r.from
    << endl
    << text "    Payload: "
    << dump_payload r.payload
