-- ===== src/Safety/Calls.antt =====
-- Every method of the client keeps the invariant.
use serf_cpp.Prelude.{ℕ, ℤ, String, Bool, List}
use serf_cpp.Msgpack.{Msgpack}
use serf_cpp.Exec.{pure, ◌>>=◌}
use serf_cpp.Msg.Coordinates.{CoordResponse}
use serf_cpp.Msg.Keys.{KeyResponse, KeyListResponse}
use serf_cpp.Msg.Members.{MembersResponse}
use serf_cpp.Msg.Stats.{StatsResponse}
use serf_cpp.Channel.{ResultChannel, Reply}
use serf_cpp.Channel.Memory.{M}
use serf_cpp.IoThread.Wait.{Env, with_result, await_reply}
use serf_cpp.Client.Commands.{auth, use_key, event, respond, force_leave, tags, leave}
use serf_cpp.Client.Queries.{
  join, install_key, list_keys, remove_key, members, members_filtered, stats, get_coordinate,
}
use serf_cpp.Safety.Triple.{Runs, Runs-bind}
use serf_cpp.Safety.Invariant.{IsSafe}
use serf_cpp.Safety.Loop.{Never}
use serf_cpp.Safety.Wait.{Owned, Ready, Dispatched, await_reply-Owned}
use serf_cpp.Safety.Send.{send_data-Dispatched, send_header-Dispatched, with_result-IsSafe}

module _ ⦃m : Msgpack⦄ where
  abbrev pub Safe : {A : Type 0} → M A → Type 0
  Safe action = Runs IsSafe Never action (λ _. IsSafe)

  -- the shape of every request method
  pub request-Safe :
      {A : Type 0} (r : Reply) (env : Env) (send : ℕ → M (Bool × ℕ))
      (failed timed_out : Bool × ℕ → A) (reply : Bool × ℕ → ResultChannel → M A)
      → ((p : ℕ) → Runs (Ready p) Never (send p) (Dispatched p))
      → ((sent : Bool × ℕ) (p : ℕ) (c : ResultChannel)
          → Runs (Owned p) Never (reply sent c) (λ _. Owned p))
      → Safe (
          with_result r λ p.
            send p >>= λ sent. await_reply p env sent (failed sent) (timed_out sent) (reply sent))
  request-Safe r env send failed timed_out reply sends replies = with_result-IsSafe r _ λ p.
      Runs-bind (Dispatched p) (send p) _ (sends p) λ sent.
        await_reply-Owned p env sent (failed sent) (timed_out sent) (reply sent) (replies sent p)

  pub answered : {A : Type 0} (p : ℕ) (a : A) → Runs (Owned p) Never (pure a) (λ _. Owned p)
  answered p a = record { at = λ w h. h }

  pub auth-Safe : (k : String) (env : Env) → Safe (auth k env)
  unfolding auth
  auth-Safe k env =
      request-Safe _ env _ _ _ _ (λ p. send_data-Dispatched _ _ p env.accepts 0)
        (λ sent p c. answered p _)

  pub use_key-Safe : (k : String) (env : Env) → Safe (use_key k env)
  unfolding use_key
  use_key-Safe k env =
      request-Safe _ env _ _ _ _ (λ p. send_data-Dispatched _ _ p env.accepts 0)
        (λ sent p c. answered p _)

  pub event-Safe : (n : String) (p : List ℕ) (c : Bool) (env : Env) → Safe (event n p c env)
  unfolding event
  event-Safe n p c env =
      request-Safe _ env _ _ _ _ (λ p. send_data-Dispatched _ _ p env.accepts 0)
        (λ sent p c. answered p _)

  pub respond-Safe : (i : ℕ) (p : List ℕ) (env : Env) → Safe (respond i p env)
  unfolding respond
  respond-Safe i p env =
      request-Safe _ env _ _ _ _ (λ p. send_data-Dispatched _ _ p env.accepts 0)
        (λ sent p c. answered p _)

  pub force_leave-Safe : (n : String) (env : Env) → Safe (force_leave n env)
  unfolding force_leave
  force_leave-Safe n env =
      request-Safe _ env _ _ _ _ (λ p. send_data-Dispatched _ _ p env.accepts 0)
        (λ sent p c. answered p _)

  pub tags-Safe : (t : List (String × String)) (d : List String) (env : Env) → Safe (tags t d env)
  unfolding tags
  tags-Safe t d env =
      request-Safe _ env _ _ _ _ (λ p. send_data-Dispatched _ _ p env.accepts 0)
        (λ sent p c. answered p _)

  pub leave-Safe : (env : Env) → Safe (leave env)
  unfolding leave
  leave-Safe env =
      request-Safe _ env _ _ _ _ (λ p. send_header-Dispatched _ p env.accepts 0)
        (λ sent p c. answered p _)

  pub join-Safe : (a : List String) (r : Bool) (c : ℤ) (env : Env) → Safe (join a r c env)
  unfolding join
  join-Safe a r c env =
      request-Safe _ env _ _ _ _ (λ p. send_data-Dispatched _ _ p env.accepts 0)
        (λ sent p c. answered p _)

  pub install_key-Safe : (k : String) (o : KeyResponse) (env : Env) → Safe (install_key k o env)
  unfolding install_key
  install_key-Safe k o env =
      request-Safe _ env _ _ _ _ (λ p. send_data-Dispatched _ _ p env.accepts 0)
        (λ sent p c. answered p _)

  pub list_keys-Safe : (o : KeyListResponse) (env : Env) → Safe (list_keys o env)
  unfolding list_keys
  list_keys-Safe o env =
      request-Safe _ env _ _ _ _ (λ p. send_header-Dispatched _ p env.accepts 0)
        (λ sent p c. answered p _)

  pub remove_key-Safe : (k : String) (o : KeyResponse) (env : Env) → Safe (remove_key k o env)
  unfolding remove_key
  remove_key-Safe k o env =
      request-Safe _ env _ _ _ _ (λ p. send_data-Dispatched _ _ p env.accepts 0)
        (λ sent p c. answered p _)

  pub members-Safe : (o : MembersResponse) (env : Env) → Safe (members o env)
  unfolding members
  members-Safe o env =
      request-Safe _ env _ _ _ _ (λ p. send_header-Dispatched _ p env.accepts 0)
        (λ sent p c. answered p _)

  pub members_filtered-Safe :
      (t : List (String × String)) (s n : String) (o : MembersResponse) (env : Env)
      → Safe (members_filtered t s n o env)
  unfolding members_filtered
  members_filtered-Safe t s n o env =
      request-Safe _ env _ _ _ _ (λ p. send_data-Dispatched _ _ p env.accepts 0)
        (λ sent p c. answered p _)

  pub stats-Safe : (o : StatsResponse) (env : Env) → Safe (stats o env)
  unfolding stats
  stats-Safe o env =
      request-Safe _ env _ _ _ _ (λ p. send_header-Dispatched _ p env.accepts 0)
        (λ sent p c. answered p _)

  pub get_coordinate-Safe :
      (n : String) (o : CoordResponse) (env : Env) → Safe (get_coordinate n o env)
  unfolding get_coordinate
  get_coordinate-Safe n o env =
      request-Safe _ env _ _ _ _ (λ p. send_data-Dispatched _ _ p env.accepts 0)
        (λ sent p c. answered p _)
