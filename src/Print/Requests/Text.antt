-- ===== src/Print/Requests/Text.antt =====
-- The text of each request struct.
use serf_cpp.Prelude.{ℕ, List, ◌++◌}
use serf_cpp.Print.{digits}
use serf_cpp.Print.Plain.{Writes, lines, said, newline, writes_rules}
use serf_cpp.Print.Requests.{
  print_members_filtered_request, print_tags_request, print_auth_request, print_key_request,
  print_stream_request, print_monitor_request, print_respond_request, print_stop_request,
  print_coord_request,
}
use serf_cpp.Msg.Members.{MembersFilteredRequest}
use serf_cpp.Msg.Requests.{TagsRequest, StreamRequest, MonitorRequest, RespondRequest, StopRequest}
use serf_cpp.Msg.Headers.{AuthRequest}
use serf_cpp.Msg.Keys.{KeyRequest}
use serf_cpp.Msg.Coordinates.{CoordRequest}

unfoldable pub text_of_members_filtered_request : MembersFilteredRequest → List ℕ
text_of_members_filtered_request r =
    said "Tags: "
    ++ lines (λ t. said t.0 ++ said ":" ++ said t.1 ++ said " ") r.tags
    ++ said "Status:"
    ++ said r.status
    ++ said " Name:"
    ++ said r.name
    ++ newline

pub print_members_filtered_request-Writes :
    (r : MembersFilteredRequest)
    → Writes (print_members_filtered_request r) (text_of_members_filtered_request r)
unfolding print_members_filtered_request text_of_members_filtered_request
print_members_filtered_request-Writes r = search writes_rules depth 80

unfoldable pub text_of_tags_request : TagsRequest → List ℕ
text_of_tags_request r =
    said "Tags: "
    ++ lines (λ t. said t.0 ++ said ":" ++ said t.1 ++ said " ") r.tags
    ++ said "Delete Tags: "
    ++ lines (λ t. said t ++ said " ") r.delete_tags
    ++ newline

pub print_tags_request-Writes :
    (r : TagsRequest) → Writes (print_tags_request r) (text_of_tags_request r)
unfolding print_tags_request text_of_tags_request
print_tags_request-Writes r = search writes_rules depth 80

unfoldable pub text_of_auth_request : AuthRequest → List ℕ
text_of_auth_request r = said "AuthKey: " ++ said r.auth_key

pub print_auth_request-Writes :
    (r : AuthRequest) → Writes (print_auth_request r) (text_of_auth_request r)
unfolding print_auth_request text_of_auth_request
print_auth_request-Writes r = search writes_rules depth 80

unfoldable pub text_of_key_request : KeyRequest → List ℕ
text_of_key_request r = said "Key: " ++ said r.key

pub print_key_request-Writes :
    (r : KeyRequest) → Writes (print_key_request r) (text_of_key_request r)
unfolding print_key_request text_of_key_request
print_key_request-Writes r = search writes_rules depth 80

unfoldable pub text_of_stream_request : StreamRequest → List ℕ
text_of_stream_request r = said "StreamRequest " ++ said r.type ++ newline

pub print_stream_request-Writes :
    (r : StreamRequest) → Writes (print_stream_request r) (text_of_stream_request r)
unfolding print_stream_request text_of_stream_request
print_stream_request-Writes r = search writes_rules depth 80

unfoldable pub text_of_monitor_request : MonitorRequest → List ℕ
text_of_monitor_request r = said "MonitorRequest " ++ said r.log_level ++ newline

pub print_monitor_request-Writes :
    (r : MonitorRequest) → Writes (print_monitor_request r) (text_of_monitor_request r)
unfolding print_monitor_request text_of_monitor_request
print_monitor_request-Writes r = search writes_rules depth 80

unfoldable pub text_of_respond_request : RespondRequest → List ℕ
text_of_respond_request r = said "ID: " ++ digits 10 r.id ++ newline

pub print_respond_request-Writes :
    (r : RespondRequest) → Writes (print_respond_request r) (text_of_respond_request r)
unfolding print_respond_request text_of_respond_request
print_respond_request-Writes r = search writes_rules depth 80

unfoldable pub text_of_stop_request : StopRequest → List ℕ
text_of_stop_request r = said "StopRequest " ++ digits 10 r.stop ++ newline

pub print_stop_request-Writes :
    (r : StopRequest) → Writes (print_stop_request r) (text_of_stop_request r)
unfolding print_stop_request text_of_stop_request
print_stop_request-Writes r = search writes_rules depth 80

unfoldable pub text_of_coord_request : CoordRequest → List ℕ
text_of_coord_request r = said "Node: " ++ said r.node ++ newline

pub print_coord_request-Writes :
    (r : CoordRequest) → Writes (print_coord_request r) (text_of_coord_request r)
unfolding print_coord_request text_of_coord_request
print_coord_request-Writes r = search writes_rules depth 80
