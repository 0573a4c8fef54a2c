-- ===== src/Print/Family.antt =====
-- All the structs that operator<< prints.
use serf_cpp.Prelude.{ℕ, String, List}
use serf_cpp.Print.{Print}
use serf_cpp.Print.Plain.{Writes}
use serf_cpp.Msg.Kinds.{Kind, StructOf}
use serf_cpp.Print.Requests.{
  print_members_filtered_request, print_tags_request, print_auth_request, print_key_request,
  print_stream_request, print_monitor_request, print_respond_request, print_stop_request,
  print_coord_request,
}
use serf_cpp.Print.Requests.Text.{
  text_of_members_filtered_request, print_members_filtered_request-Writes, text_of_tags_request,
  print_tags_request-Writes, text_of_auth_request, print_auth_request-Writes, text_of_key_request,
  print_key_request-Writes, text_of_stream_request, print_stream_request-Writes,
  text_of_monitor_request, print_monitor_request-Writes, text_of_respond_request,
  print_respond_request-Writes, text_of_stop_request, print_stop_request-Writes,
  text_of_coord_request, print_coord_request-Writes,
}
use serf_cpp.Print.Responses.{
  print_response_header, print_key_response, print_key_list_response, print_coordinate,
  print_coord_response, print_stats_response,
}
use serf_cpp.Print.Responses.Text.{
  text_of_response_header, print_response_header-Writes, text_of_key_response,
  print_key_response-Writes, text_of_key_list_response, print_key_list_response-Writes,
  text_of_coordinate, print_coordinate-Writes, text_of_coord_response, print_coord_response-Writes,
  text_of_stats_response, print_stats_response-Writes,
}
use serf_cpp.Print.Members.{print_member, print_members_response}
use serf_cpp.Print.Members.Text.{
  text_of_member, print_member-Writes, text_of_members_response, print_members_response-Writes,
}
use serf_cpp.Print.Records.{
  print_log_record, print_user_event_record, print_member_event_record, print_query_record,
  print_node_response_base, print_node_ack, print_node_response,
}
use serf_cpp.Print.Records.Text.{
  text_of_log_record, print_log_record-Writes, text_of_user_event_record,
  print_user_event_record-Writes, text_of_member_event_record, print_member_event_record-Writes,
  text_of_query_record, print_query_record-Writes, text_of_node_response_base,
  print_node_response_base-Writes, text_of_node_ack, print_node_ack-Writes, text_of_node_response,
  print_node_response-Writes,
}

pub data Printable : Type 0 where
  members_filtered_request tags_request auth_request key_request stream_request monitor_request
        respond_request stop_request coord_request :
      Printable
  response_header key_response key_list_response coordinate coord_response stats_response :
      Printable
  member members_response : Printable
  log_record user_event_record member_event_record query_record node_response_base node_ack
        node_response :
      Printable

abbrev pub kind_of : Printable → Kind
kind_of members_filtered_request = Kind.members_filtered_request
kind_of tags_request = Kind.tags_request
kind_of auth_request = Kind.auth_request
kind_of key_request = Kind.key_request
kind_of stream_request = Kind.stream_request
kind_of monitor_request = Kind.monitor_request
kind_of respond_request = Kind.respond_request
kind_of stop_request = Kind.stop_request
kind_of coord_request = Kind.coord_request
kind_of response_header = Kind.response_header
kind_of key_response = Kind.key_response
kind_of key_list_response = Kind.key_list_response
kind_of coordinate = Kind.coordinate
kind_of coord_response = Kind.coord_response
kind_of stats_response = Kind.stats_response
kind_of member = Kind.member
kind_of members_response = Kind.members_response
kind_of log_record = Kind.log_record
kind_of user_event_record = Kind.user_event_record
kind_of member_event_record = Kind.member_event_record
kind_of query_record = Kind.query_record
kind_of node_response_base = Kind.node_response_base
kind_of node_ack = Kind.node_ack
kind_of node_response = Kind.node_response

module _ (show : ℕ → String) where
  unfoldable pub print : (k : Printable) → StructOf (kind_of k) → Print
  unfolding print_members_filtered_request print_tags_request print_auth_request print_key_request
      print_stream_request print_monitor_request print_respond_request print_stop_request
      print_coord_request print_response_header print_key_response print_key_list_response
      print_coordinate print_coord_response print_stats_response print_member print_members_response
      print_log_record print_user_event_record print_member_event_record print_query_record
      print_node_response_base print_node_ack print_node_response
  print members_filtered_request = print_members_filtered_request
  print tags_request = print_tags_request
  print auth_request = print_auth_request
  print key_request = print_key_request
  print stream_request = print_stream_request
  print monitor_request = print_monitor_request
  print respond_request = print_respond_request
  print stop_request = print_stop_request
  print coord_request = print_coord_request
  print response_header = print_response_header
  print key_response = print_key_response
  print key_list_response = print_key_list_response
  print coordinate = print_coordinate show
  print coord_response = print_coord_response show
  print stats_response = print_stats_response
  print member = print_member
  print members_response = print_members_response
  print log_record = print_log_record
  print user_event_record = print_user_event_record
  print member_event_record = print_member_event_record
  print query_record = print_query_record
  print node_response_base = print_node_response_base
  print node_ack = print_node_ack
  print node_response = print_node_response

  unfoldable pub text_of : (k : Printable) → StructOf (kind_of k) → List ℕ
  unfolding text_of_members_filtered_request text_of_tags_request text_of_auth_request
      text_of_key_request text_of_stream_request text_of_monitor_request text_of_respond_request
      text_of_stop_request text_of_coord_request text_of_response_header text_of_key_response
      text_of_key_list_response text_of_coordinate text_of_coord_response text_of_stats_response
      text_of_member text_of_members_response text_of_log_record text_of_user_event_record
      text_of_member_event_record text_of_query_record text_of_node_response_base text_of_node_ack
      text_of_node_response
  text_of members_filtered_request = text_of_members_filtered_request
  text_of tags_request = text_of_tags_request
  text_of auth_request = text_of_auth_request
  text_of key_request = text_of_key_request
  text_of stream_request = text_of_stream_request
  text_of monitor_request = text_of_monitor_request
  text_of respond_request = text_of_respond_request
  text_of stop_request = text_of_stop_request
  text_of coord_request = text_of_coord_request
  text_of response_header = text_of_response_header
  text_of key_response = text_of_key_response
  text_of key_list_response = text_of_key_list_response
  text_of coordinate = text_of_coordinate show
  text_of coord_response = text_of_coord_response show
  text_of stats_response = text_of_stats_response
  text_of member = text_of_member
  text_of members_response = text_of_members_response
  text_of log_record = text_of_log_record
  text_of user_event_record = text_of_user_event_record
  text_of member_event_record = text_of_member_event_record
  text_of query_record = text_of_query_record
  text_of node_response_base = text_of_node_response_base
  text_of node_ack = text_of_node_ack
  text_of node_response = text_of_node_response

  -- On a stream in the format that streams start with, operator<< of each of the 24 structs appends
  -- the text of the struct and leaves the format as it was.
  pub print-Writes : (k : Printable) (r : StructOf (kind_of k)) → Writes (print k r) (text_of k r)
  unfolding print text_of
  print-Writes members_filtered_request r = print_members_filtered_request-Writes r
  print-Writes tags_request r = print_tags_request-Writes r
  print-Writes auth_request r = print_auth_request-Writes r
  print-Writes key_request r = print_key_request-Writes r
  print-Writes stream_request r = print_stream_request-Writes r
  print-Writes monitor_request r = print_monitor_request-Writes r
  print-Writes respond_request r = print_respond_request-Writes r
  print-Writes stop_request r = print_stop_request-Writes r
  print-Writes coord_request r = print_coord_request-Writes r
  print-Writes response_header r = print_response_header-Writes r
  print-Writes key_response r = print_key_response-Writes r
  print-Writes key_list_response r = print_key_list_response-Writes r
  print-Writes coordinate r = print_coordinate-Writes show r
  print-Writes coord_response r = print_coord_response-Writes show r
  print-Writes stats_response r = print_stats_response-Writes r
  print-Writes member r = print_member-Writes r
  print-Writes members_response r = print_members_response-Writes r
  print-Writes log_record r = print_log_record-Writes r
  print-Writes user_event_record r = print_user_event_record-Writes r
  print-Writes member_event_record r = print_member_event_record-Writes r
  print-Writes query_record r = print_query_record-Writes r
  print-Writes node_response_base r = print_node_response_base-Writes r
  print-Writes node_ack r = print_node_ack-Writes r
  print-Writes node_response r = print_node_response-Writes r
