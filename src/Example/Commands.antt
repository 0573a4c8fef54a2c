-- ===== src/Example/Commands.antt =====
-- The commands of the loop of main: their arguments, the call of the client, and what is printed.
pub mod Arguments
use serf_cpp.Prelude.{
  ℕ, ◌<◌, ◌^◌, ℤ, pos, String, Bool, true, false, not, Option, none, some, List, [], ◌∷◌, codes,
  bytes, length, ltb, ◌==◌, if◌then◌else◌,
}
use serf_cpp.Msgpack.{Msgpack}
use serf_cpp.Exec.{pure, ◌>>=◌, ◌>>◌}
use serf_cpp.Print.{Print, ◌<<◌, nothing_more, text, unsigned, int}
use serf_cpp.Print.Responses.{
  print_key_response, print_key_list_response, print_coord_response, print_stats_response,
}
use serf_cpp.Print.Members.{print_members_response}
use serf_cpp.Msg.Coordinates.{default_coord_response}
use serf_cpp.Msg.Keys.{default_key_response, default_key_list_response}
use serf_cpp.Msg.Members.{default_members_response}
use serf_cpp.Msg.Stats.{default_stats_response}
use serf_cpp.IoThread.Wait.{Env}
use serf_cpp.Client
use serf_cpp.Client.Commands
use serf_cpp.Client.Queries
use serf_cpp.Client.Listening
use serf_cpp.Example.{S, print_response, on_client, say, complain, argument}
use serf_cpp.Example.Numbers.{strtoull}
use serf_cpp.Example.Split.{break_at}
use serf_cpp.Example.Words.{
  Word, quit, help, version, join, auth, use_key, install, remove, list, members, tag, rmtag, query,
  coord, event, respond, force_leave, leave, stop, monitor, stream, stats, unknown,
}

unfoldable pub print_help : Print
print_help =
    text "Commands:\n"
    << text "    join <addr> <addr> <addr> ...\n"
    << text "    auth <key>\n"
    << text "    install <key>\n"
    << text "    use <key>\n"
    << text "    remove <key>\n"
    << text "    list\n"
    << text "    members\n"
    << text "    event <name> <payload>\n"
    << text "    force-leave\n"
    << text "    leave\n"
    << text "    coord <name>\n"
    << text "    stop <seq>\n"
    << text "    respond <id> <payload>\n"
    << text "    monitor\n"
    << text "    stream\n"
    << text "    tag <tag>:value\n"
    << text "    rmtag <tag>\n"
    << text "    query <name> <payload>\n"
    << text "    stats\n"
    << text "    version\n"

-- the listeners of main
abbrev pub log_listener : ℕ
log_listener = 0

abbrev pub event_listener : ℕ
event_listener = 1

abbrev pub query_listener : ℕ
query_listener = 2

-- the payload of a command: the chars of its second argument, if it has one
abbrev pub payload_of : List String → List ℕ
payload_of (name ∷ payload ∷ args) = bytes payload
payload_of _ = []

abbrev pub listening_to : Print → ℕ → Print
listening_to what seq = if seq == 0 then nothing_more else (what << unsigned seq << text "\n")

module _ ⦃m : Msgpack⦄ where
  -- the tag of a command is the text before its first colon, and the value what follows
  unfoldable pub set_tag : String × Option String → Env → S (Unit {0})
  unfolding on_client say complain
  set_tag (tag_string, none) env = complain (text "Invalid tag specification\n")
  set_tag (key, some val) env = do
    resp ← on_client (Client.Commands.tags ((key, val) ∷ []) [] env)
    say (text "Tags response:" << print_response resp << text "\n")

  module _ (show : ℕ → String) where
    unfoldable pub run_command : Word → List String → Env → S (Unit {0})
    unfolding on_client say complain argument print_help set_tag
    run_command quit args env = pure tt
    run_command unknown args env = pure tt
    run_command help args env = say print_help
    run_command version args env =
        let v = Client.version in
        say (
          text "serf-cpp version "
          << unsigned v.0
          << text "."
          << unsigned v.1
          << text "."
          << unsigned v.2
          << text "\n")
    run_command join args env = do
      r ← on_client (Client.Queries.join args false (pos 0) env)
      say (
          text "Join response:"
          << print_response r.0
          << text "\nJoin node count: "
          << int r.1
          << text "\n")
    run_command auth args env = do
      key ← argument 1 args
      resp ← on_client (Client.Commands.auth key env)
      say (text "Auth response:" << print_response resp << text "\n")
    run_command use_key args env = do
      key ← argument 1 args
      resp ← on_client (Client.Commands.use_key key env)
      say (text "Use Key response:" << print_response resp << text "\n")
    run_command install args env = do
      key ← argument 1 args
      r ← on_client (Client.Queries.install_key key default_key_response env)
      say (
          text "Install response:"
          << print_response r.0
          << text "\n"
          << print_key_response r.1
          << text "\n")
    run_command remove args env = do
      key ← argument 1 args
      r ← on_client (Client.Queries.remove_key key default_key_response env)
      say (
          text "Remove response:"
          << print_response r.0
          << text "\n"
          << print_key_response r.1
          << text "\n")
    run_command list args env = do
      r ← on_client (Client.Queries.list_keys default_key_list_response env)
      say (
          text "List Keys response:"
          << print_response r.0
          << text "\n"
          << print_key_list_response r.1
          << text "\n")
    run_command members args env = do
      r ← on_client (Client.Queries.members default_members_response env)
      say (
          text "Members response:"
          << print_response r.0
          << text "\n"
          << print_members_response r.1
          << text "\n")
    run_command tag args env = do
      tag_string ← argument 0 args
      set_tag (break_at b':' tag_string) env
    run_command rmtag args env = do
      tag_string ← argument 0 args
      resp ← on_client (Client.Commands.tags [] (tag_string ∷ []) env)
      say (text "RmTags response: " << print_response resp << text "\n")
    run_command query args env = do
      name ← argument 0 args
      resp ← on_client (
          Client.Listening.query name (payload_of args) query_listener true 120000000000 none none
            env)
      say (text "Query response:" << print_response resp << text "\n")
    run_command coord args env = do
      node ← argument 0 args
      r ← on_client (Client.Queries.get_coordinate node default_coord_response env)
      say (
          text "GetCoordinate response:"
          << print_response r.0
          << text "\n"
          << print_coord_response show r.1
          << text "\n")
    run_command event args env = do
      name ← argument 0 args
      resp ← on_client (Client.Commands.event name (payload_of args) true env)
      say (
          text "Event response:"
          << print_response resp
          << text "\n"
          << text "Event:"
          << text name
          << text "\n")
    run_command respond args env = do
      id_text ← argument 0 args
      let id = strtoull (codes id_text)
      resp ← on_client (Client.Commands.respond id (payload_of args) env)
      say (
          text "Respond response:"
          << print_response resp
          << text " for ID: "
          << unsigned id
          << text "\n")
    run_command force_leave args env = do
      name ← argument 0 args
      resp ← on_client (Client.Commands.force_leave name env)
      say (
          text "ForceLeave response:"
          << print_response resp
          << text "\n"
          << text "ForceLeave:"
          << text name
          << text "\n")
    run_command leave args env = do
      resp ← on_client (Client.Commands.leave env)
      say (text "Leave result:" << print_response resp << text "\n")
    run_command stop args env = do
      seq_text ← argument 0 args
      let seq = strtoull (codes seq_text)
      say (text "Stopping Monitor/Stream registration for Seq=" << unsigned seq << text "\n")
      resp ← on_client (Client.Listening.stop seq env)
      say (text "Stop result: " << print_response resp << text "\n")
    run_command monitor args env = do
      r ← on_client (Client.Listening.monitor "Debug" log_listener 0 env)
      say (text "monitor result: " << print_response r.0 << text "\n")
      say (listening_to (text "Listening to log records for Seq=") r.1)
    run_command stream args env = do
      r ← on_client (Client.Listening.stream "*" event_listener 0 env)
      say (text "stream result: " << print_response r.0 << text "\n")
      say (listening_to (text "Listening to events for Seq=") r.1)
    run_command stats args env = do
      r ← on_client (Client.Queries.stats default_stats_response env)
      say (text "Stats result:" << print_response r.0 << text "\n" << print_stats_response r.1)
