-- ===== src/Print/Responses.antt =====
-- operator<< of the response structs but those of cluster members. `show` is how the library writes
-- a double with the default precision; the code never changes that format.
pub mod Text
use serf_cpp.Prelude.{ℕ, suc, ◌%◌, String, not, ◌&&◌, List, [], ◌∷◌, ◌==◌, if◌then◌else◌}
use serf_cpp.Print.{Print, ◌<<◌, nothing_more, text, unsigned, int, bool, endl, each}
use serf_cpp.Msg.Headers.{ResponseHeader}
use serf_cpp.Msg.Coordinates.{Coordinate, CoordResponse}
use serf_cpp.Msg.Keys.{KeyResponse, KeyListResponse}
use serf_cpp.Msg.Stats.{StatsResponse}

unfoldable pub print_response_header : ResponseHeader → Print
print_response_header r =
    text "[ Seq: " << unsigned r.seq << text " Error: \"" << text r.error << text "\"]" << endl

unfoldable pub print_messages : List (String × String) → Print
print_messages m =
    text "    Messages:"
    << endl
    << each (λ e. text "      Node: " << text e.0 << text " Msg: " << text e.1 << endl) m

unfoldable pub print_key_response : KeyResponse → Print
unfolding print_messages
print_key_response r =
    print_messages r.messages
    << text "    NumErr: "
    << int r.num_err
    << text " NumNodes: "
    << int r.num_nodes
    << text " NumResp: "
    << int r.num_resp
    << endl

unfoldable pub print_key_list_response : KeyListResponse → Print
unfolding print_messages
print_key_list_response r =
    print_messages r.messages
    << text "    Keys:"
    << endl
    << each (λ e. text "      Key: " << text e.0 << text " : " << int e.1 << endl) r.keys
    << text "    NumErr: "
    << int r.num_err
    << text " NumNodes: "
    << int r.num_nodes
    << text " NumResp: "
    << int r.num_resp
    << endl

module _ (show : ℕ → String) where
  -- the loop over Vec
  unfoldable pub print_vec : ℕ → List ℕ → Print
  print_vec count [] = nothing_more
  print_vec count (d ∷ ds) =
      (if not (count == 0) && (count % 4 == 0) then text "\n          " else nothing_more)
      << text (show d)
      << text " "
      << print_vec (suc count) ds

  unfoldable pub print_coordinate : Coordinate → Print
  unfolding print_vec
  print_coordinate r =
      text "    Coordinate:"
      << endl
      << text "      Adjustment: "
      << text (show r.adjustment)
      << endl
      << text "      Error: "
      << text (show r.error)
      << endl
      << text "      Height: "
      << text (show r.height)
      << endl
      << text "      Vec: "
      << print_vec 0 r.vec
      << endl

  unfoldable pub print_coord_response : CoordResponse → Print
  unfolding print_coordinate
  print_coord_response r = print_coordinate r.coord << text "    Ok: " << bool r.ok << endl

unfoldable pub print_stats_response : StatsResponse → Print
print_stats_response r =
    text "    Agent: "
    << endl
    << text "      name: "
    << text r.agent.name
    << endl
    << text "    Runtime: "
    << endl
    << text "      os: "
    << text r.runtime.os
    << endl
    << text "      arch: "
    << text r.runtime.arch
    << endl
    << text "      version: "
    << text r.runtime.version
    << endl
    << text "      max_procs: "
    << text r.runtime.max_procs
    << endl
    << text "      goroutines: "
    << text r.runtime.goroutines
    << endl
    << text "    Serf:"
    << endl
    << text "      failed: "
    << text r.serf.failed
    << endl
    << text "      left: "
    << text r.serf.left
    << endl
    << text "      event_time: "
    << text r.serf.event_time
    << endl
    << text "      query_time: "
    << text r.serf.query_time
    << endl
    << text "      event_queue: "
    << text r.serf.event_queue
    << endl
    << text "      members: "
    << text r.serf.members
    << endl
    << text "      member_time: "
    << text r.serf.member_time
    << endl
    << text "      intent_queue: "
    << text r.serf.intent_queue
    << endl
    << text "      query_queue: "
    << text r.serf.query_queue
    << endl
