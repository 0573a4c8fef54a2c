-- ===== src/Client/Session.antt =====
-- A user of a SerfClient: the calls that can be made, and histories of calls between which the I/O
-- thread runs. What a call stores through a reference argument is part of its result.
use serf_cpp.Prelude.{ℕ, ℤ, String, Bool, false, Option, none, List, [], ◌∷◌}
use serf_cpp.Msgpack.{Msgpack}
use serf_cpp.Exec.{pure, ◌>>=◌, ◌>>◌}
use serf_cpp.Msg.Coordinates.{CoordResponse}
use serf_cpp.Msg.Keys.{KeyResponse, KeyListResponse}
use serf_cpp.Msg.Members.{MembersResponse}
use serf_cpp.Msg.Stats.{StatsResponse}
use serf_cpp.Channel.{World}
use serf_cpp.Channel.Memory.{M}
use serf_cpp.IoThread.Rpc.{Batch}
use serf_cpp.IoThread.Wait.{Env, background}
use serf_cpp.IoThread.Connection.{Dial}
use serf_cpp.Client.{SerfResponse, connect, close}
use serf_cpp.Client.Commands.{auth, use_key, event, respond, force_leave, tags, leave}
use serf_cpp.Client.Queries.{
  join, install_key, list_keys, remove_key, members, members_filtered, stats, get_coordinate,
}
use serf_cpp.Client.Listening.{monitor, stream, query, stop}

pub data Call : Type 0 where
  connects : String → ℕ → Dial → Call
  closes : Option Batch → Call
  auths use_keys force_leaves : String → Call
  events : String → List ℕ → Bool → Call
  responds : ℕ → List ℕ → Call
  tags_set : List (String × String) → List String → Call
  leaves : Call
  joins : List String → Bool → ℤ → Call
  install_keys remove_keys : String → KeyResponse → Call
  lists_keys : KeyListResponse → Call
  lists_members : MembersResponse → Call
  filters_members : List (String × String) → String → String → MembersResponse → Call
  asks_stats : StatsResponse → Call
  asks_coordinate : String → CoordResponse → Call
  monitors streams : String → ℕ → ℕ → Call
  queries :
      String → List ℕ → ℕ → Bool → ℕ → Option (List String) → Option (List (String × String)) → Call
  stops : ℕ → Call

-- the variable of the caller that a method has by reference, when the method has returned
pub data Output : Type 0 where
  no_output : Output
  count_out : ℤ → Output
  key_out : KeyResponse → Output
  key_list_out : KeyListResponse → Output
  members_out : MembersResponse → Output
  stats_out : StatsResponse → Output
  coord_out : CoordResponse → Output
  seq_out : ℕ → Output

module _ ⦃m : Msgpack⦄ where
  abbrev pub returning :
      {A : Type 0} → (A → SerfResponse × Output) → M A → M (SerfResponse × Output)
  returning f action = action >>= λ r. pure (f r)

  abbrev pub response : SerfResponse → SerfResponse × Output
  response r = (r, no_output)

  abbrev pub storing : {A : Type 0} → (A → Output) → SerfResponse × A → SerfResponse × Output
  storing out r = (r.0, out r.1)

  unfoldable pub perform : Call → Env → M (SerfResponse × Output)
  perform (connects ip port dial) env = returning response (connect ip port dial env)
  perform (closes b) env = returning response (close b)
  perform (auths k) env = returning response (auth k env)
  perform (use_keys k) env = returning response (use_key k env)
  perform (force_leaves n) env = returning response (force_leave n env)
  perform (events n p c) env = returning response (event n p c env)
  perform (responds i p) env = returning response (respond i p env)
  perform (tags_set t d) env = returning response (tags t d env)
  perform leaves env = returning response (leave env)
  perform (joins a r c) env = returning (storing count_out) (join a r c env)
  perform (install_keys k o) env = returning (storing key_out) (install_key k o env)
  perform (remove_keys k o) env = returning (storing key_out) (remove_key k o env)
  perform (lists_keys o) env = returning (storing key_list_out) (list_keys o env)
  perform (lists_members o) env = returning (storing members_out) (members o env)
  perform (filters_members t s n o) env =
      returning (storing members_out) (members_filtered t s n o env)
  perform (asks_stats o) env = returning (storing stats_out) (stats o env)
  perform (asks_coordinate n o) env = returning (storing coord_out) (get_coordinate n o env)
  perform (monitors l i s) env = returning (storing seq_out) (monitor l i s env)
  perform (streams t i s) env = returning (storing seq_out) (stream t i s env)
  perform (queries n p l a t fn ft) env = returning response (query n p l a t fn ft env)
  perform (stops s) env = returning response (stop s env)

  -- one call, with the rounds that the I/O thread makes before it
  pub record Turn : Type 0 where
    pub idle : List Batch
    pub call : Call
    pub env : Env

  unfoldable pub session : List Turn → M (Unit {0})
  unfolding perform
  session [] = pure tt
  session (t ∷ ts) = background t.idle >> (perform t.call t.env >>= λ _. session ts)

  -- a new SerfClient: nothing is registered or allocated
  abbrev pub new_client : m.Unpacker → World
  new_client u = record {
    ip_addr = "";
    port = 0;
    socket = none;
    seq = 0;
    shutdown = false;
    running = false;
    channels = [];
    unpacker = u;
    memory = λ _. none;
    next_address = 0;
    callbacks = [];
    wire = [];
  }
