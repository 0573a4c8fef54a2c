-- ===== src/Print/Requests.antt =====
-- operator<< of the request structs.
pub mod Text
use serf_cpp.Print.{Print, ◌<<◌, text, unsigned, endl, each}
use serf_cpp.Msg.Headers.{AuthRequest}
use serf_cpp.Msg.Coordinates.{CoordRequest}
use serf_cpp.Msg.Keys.{KeyRequest}
use serf_cpp.Msg.Members.{MembersFilteredRequest}
use serf_cpp.Msg.Requests.{TagsRequest, StreamRequest, MonitorRequest, RespondRequest, StopRequest}

unfoldable pub print_members_filtered_request : MembersFilteredRequest → Print
print_members_filtered_request r =
    text "Tags: "
    << each (λ t. text t.0 << text ":" << text t.1 << text " ") r.tags
    << text "Status:"
    << text r.status
    << text " Name:"
    << text r.name
    << endl

unfoldable pub print_tags_request : TagsRequest → Print
print_tags_request r =
    text "Tags: "
    << each (λ t. text t.0 << text ":" << text t.1 << text " ") r.tags
    << text "Delete Tags: "
    << each (λ t. text t << text " ") r.delete_tags
    << endl

unfoldable pub print_auth_request : AuthRequest → Print
print_auth_request r = text "AuthKey: " << text r.auth_key

unfoldable pub print_key_request : KeyRequest → Print
print_key_request r = text "Key: " << text r.key

unfoldable pub print_stream_request : StreamRequest → Print
print_stream_request r = text "StreamRequest " << text r.type << endl

unfoldable pub print_monitor_request : MonitorRequest → Print
print_monitor_request r = text "MonitorRequest " << text r.log_level << endl

unfoldable pub print_respond_request : RespondRequest → Print
print_respond_request r = text "ID: " << unsigned r.id << endl

unfoldable pub print_stop_request : StopRequest → Print
print_stop_request r = text "StopRequest " << unsigned r.stop << endl

unfoldable pub print_coord_request : CoordRequest → Print
print_coord_request r = text "Node: " << text r.node << endl
