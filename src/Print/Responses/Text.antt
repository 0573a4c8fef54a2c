-- ===== src/Print/Responses/Text.antt =====
-- The text of each response struct.
use serf_cpp.Prelude.{ℕ, suc, ◌%◌, String, not, ◌&&◌, ◌==◌, List, [], ◌∷◌, ◌++◌, if◌then◌else◌}
use serf_cpp.Print.{digits, int_digits, dec}
use serf_cpp.Print.Plain.{
  Writes, lines, said, newline, <<-WritesIn, bool-Writes, nothing_more-WritesIn, writes_rules,
}
use serf_cpp.Print.Responses.{
  print_response_header, print_key_response, print_key_list_response, print_coordinate,
  print_coord_response, print_stats_response,
}
use serf_cpp.Msg.Headers.{ResponseHeader}
use serf_cpp.Msg.Keys.{KeyResponse, KeyListResponse}
use serf_cpp.Msg.Coordinates.{Coordinate, CoordResponse}
use serf_cpp.Msg.Stats.{StatsResponse}
use serf_cpp.Print.Responses.{print_messages, print_vec}

unfoldable pub text_of_response_header : ResponseHeader → List ℕ
text_of_response_header r =
    said "[ Seq: " ++ digits 10 r.seq ++ said " Error: \"" ++ said r.error ++ said "\"]" ++ newline

pub print_response_header-Writes :
    (r : ResponseHeader) → Writes (print_response_header r) (text_of_response_header r)
unfolding print_response_header text_of_response_header
print_response_header-Writes r = search writes_rules depth 80

unfoldable pub text_of_messages : List (String × String) → List ℕ
text_of_messages m =
    said "    Messages:"
    ++ newline
    ++ lines (λ e. said "      Node: " ++ said e.0 ++ said " Msg: " ++ said e.1 ++ newline) m

print_messages-Writes :
    (m : List (String × String)) → Writes (print_messages m) (text_of_messages m)
unfolding text_of_messages print_messages
print_messages-Writes m = search writes_rules depth 20

unfoldable pub text_of_key_response : KeyResponse → List ℕ
text_of_key_response r =
    text_of_messages r.messages
    ++ said "    NumErr: "
    ++ int_digits dec r.num_err
    ++ said " NumNodes: "
    ++ int_digits dec r.num_nodes
    ++ said " NumResp: "
    ++ int_digits dec r.num_resp
    ++ newline

pub print_key_response-Writes :
    (r : KeyResponse) → Writes (print_key_response r) (text_of_key_response r)
unfolding print_key_response text_of_key_response
print_key_response-Writes r = search (writes_rules, print_messages-Writes) depth 80

unfoldable pub text_of_key_list_response : KeyListResponse → List ℕ
text_of_key_list_response r =
    text_of_messages r.messages
    ++ said "    Keys:"
    ++ newline
    ++ lines (λ e. said "      Key: " ++ said e.0 ++ said " : " ++ int_digits dec e.1 ++ newline)
        r.keys
    ++ said "    NumErr: "
    ++ int_digits dec r.num_err
    ++ said " NumNodes: "
    ++ int_digits dec r.num_nodes
    ++ said " NumResp: "
    ++ int_digits dec r.num_resp
    ++ newline

pub print_key_list_response-Writes :
    (r : KeyListResponse) → Writes (print_key_list_response r) (text_of_key_list_response r)
unfolding print_key_list_response text_of_key_list_response
print_key_list_response-Writes r = search (writes_rules, print_messages-Writes) depth 80

module _ (show : ℕ → String) where
  -- four numbers in a row
  unfoldable pub text_of_vec : ℕ → List ℕ → List ℕ
  text_of_vec count [] = []
  text_of_vec count (d ∷ ds) =
      (if not (count == 0) && (count % 4 == 0) then said "\n          " else [])
      ++ said (show d)
      ++ said " "
      ++ text_of_vec (suc count) ds

  print_vec-Writes :
      (count : ℕ) (ds : List ℕ) → Writes (print_vec show count ds) (text_of_vec count ds)
  unfolding text_of_vec print_vec
  print_vec-Writes count [] = nothing_more-WritesIn
  print_vec-Writes count (d ∷ ds) =
      <<-WritesIn (search writes_rules depth 20) (print_vec-Writes (suc count) ds)

  unfoldable pub text_of_coordinate : Coordinate → List ℕ
  text_of_coordinate r =
      said "    Coordinate:"
      ++ newline
      ++ said "      Adjustment: "
      ++ said (show r.adjustment)
      ++ newline
      ++ said "      Error: "
      ++ said (show r.error)
      ++ newline
      ++ said "      Height: "
      ++ said (show r.height)
      ++ newline
      ++ said "      Vec: "
      ++ text_of_vec 0 r.vec
      ++ newline

  pub print_coordinate-Writes :
      (r : Coordinate) → Writes (print_coordinate show r) (text_of_coordinate r)
  unfolding print_coordinate text_of_coordinate
  print_coordinate-Writes r = search (writes_rules, print_vec-Writes) depth 80

  unfoldable pub text_of_coord_response : CoordResponse → List ℕ
  unfolding text_of_coordinate
  text_of_coord_response r =
      text_of_coordinate r.coord ++ said "    Ok: " ++ digits 10 (if r.ok then 1 else 0) ++ newline

  pub print_coord_response-Writes :
      (r : CoordResponse) → Writes (print_coord_response show r) (text_of_coord_response r)
  unfolding print_coord_response text_of_coord_response
  print_coord_response-Writes r =
      search (writes_rules, print_coordinate-Writes, bool-Writes) depth 80

unfoldable pub text_of_stats_response : StatsResponse → List ℕ
text_of_stats_response r =
    said "    Agent: "
    ++ newline
    ++ said "      name: "
    ++ said r.agent.name
    ++ newline
    ++ said "    Runtime: "
    ++ newline
    ++ said "      os: "
    ++ said r.runtime.os
    ++ newline
    ++ said "      arch: "
    ++ said r.runtime.arch
    ++ newline
    ++ said "      version: "
    ++ said r.runtime.version
    ++ newline
    ++ said "      max_procs: "
    ++ said r.runtime.max_procs
    ++ newline
    ++ said "      goroutines: "
    ++ said r.runtime.goroutines
    ++ newline
    ++ said "    Serf:"
    ++ newline
    ++ said "      failed: "
    ++ said r.serf.failed
    ++ newline
    ++ said "      left: "
    ++ said r.serf.left
    ++ newline
    ++ said "      event_time: "
    ++ said r.serf.event_time
    ++ newline
    ++ said "      query_time: "
    ++ said r.serf.query_time
    ++ newline
    ++ said "      event_queue: "
    ++ said r.serf.event_queue
    ++ newline
    ++ said "      members: "
    ++ said r.serf.members
    ++ newline
    ++ said "      member_time: "
    ++ said r.serf.member_time
    ++ newline
    ++ said "      intent_queue: "
    ++ said r.serf.intent_queue
    ++ newline
    ++ said "      query_queue: "
    ++ said r.serf.query_queue
    ++ newline

pub print_stats_response-Writes :
    (r : StatsResponse) → Writes (print_stats_response r) (text_of_stats_response r)
unfolding print_stats_response text_of_stats_response
print_stats_response-Writes r = search writes_rules depth 80 fits 30000
