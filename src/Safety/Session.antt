-- ===== src/Safety/Session.antt =====
-- Any history of calls and rounds.
use serf_cpp.Prelude.{List, [], ◌∷◌, refl}
use serf_cpp.Msgpack.{Msgpack}
use serf_cpp.Channel.Memory.{M}
use serf_cpp.SeqMap.{pointer}
use serf_cpp.IoThread.Wait.{Env, background}
use serf_cpp.Client.{SerfResponse}
use serf_cpp.Client.Session.{
  Call, connects, closes, auths, use_keys, force_leaves, events, responds, tags_set, leaves, joins,
  install_keys, remove_keys, lists_keys, lists_members, filters_members, asks_stats,
  asks_coordinate, monitors, streams, queries, stops, perform, Turn, Output, returning, session,
  new_client,
}
use serf_cpp.Safety.Triple.{Runs, Post, Runs-bind}
use serf_cpp.Safety.Invariant.{IsSafe}
use serf_cpp.Safety.Loop.{Never}
use serf_cpp.Safety.Calls.{
  Safe, auth-Safe, use_key-Safe, event-Safe, respond-Safe, force_leave-Safe, tags-Safe, leave-Safe,
  join-Safe, install_key-Safe, list_keys-Safe, remove_key-Safe, members-Safe, members_filtered-Safe,
  stats-Safe, get_coordinate-Safe,
}
use serf_cpp.Safety.Listening.{
  monitor-Safe, stream-Safe, query-Safe, stop-Safe, connect-Safe, close-Safe, background-Safe,
}

module _ ⦃m : Msgpack⦄ where
  returning-Safe :
      {A : Type 0} (f : A → SerfResponse × Output) (action : M A)
      → Safe action
      → Safe (returning f action)
  returning-Safe f action h = Runs-bind (λ _. IsSafe) action _ h (λ _. record { at = λ w s. s })

  -- From a safe state, every method of the client, with any arguments, any answer of the socket and
  -- any rounds of the I/O thread while it waits, returns to its caller or ends the program, leaves a
  -- safe state, and neither follows a dangling pointer nor lets an exception out.
  pub perform-IsSafe : (c : Call) (env : Env) → Runs IsSafe Never (perform c env) (λ _. IsSafe)
  unfolding perform
  perform-IsSafe (connects ip port dial) env = returning-Safe _ _ (connect-Safe ip port dial env)
  perform-IsSafe (closes b) env = returning-Safe _ _ (close-Safe b)
  perform-IsSafe (auths k) env = returning-Safe _ _ (auth-Safe k env)
  perform-IsSafe (use_keys k) env = returning-Safe _ _ (use_key-Safe k env)
  perform-IsSafe (force_leaves n) env = returning-Safe _ _ (force_leave-Safe n env)
  perform-IsSafe (events n p c) env = returning-Safe _ _ (event-Safe n p c env)
  perform-IsSafe (responds i p) env = returning-Safe _ _ (respond-Safe i p env)
  perform-IsSafe (tags_set t d) env = returning-Safe _ _ (tags-Safe t d env)
  perform-IsSafe leaves env = returning-Safe _ _ (leave-Safe env)
  perform-IsSafe (joins a r c) env = returning-Safe _ _ (join-Safe a r c env)
  perform-IsSafe (install_keys k o) env = returning-Safe _ _ (install_key-Safe k o env)
  perform-IsSafe (remove_keys k o) env = returning-Safe _ _ (remove_key-Safe k o env)
  perform-IsSafe (lists_keys o) env = returning-Safe _ _ (list_keys-Safe o env)
  perform-IsSafe (lists_members o) env = returning-Safe _ _ (members-Safe o env)
  perform-IsSafe (filters_members t s n o) env =
      returning-Safe _ _ (members_filtered-Safe t s n o env)
  perform-IsSafe (asks_stats o) env = returning-Safe _ _ (stats-Safe o env)
  perform-IsSafe (asks_coordinate n o) env = returning-Safe _ _ (get_coordinate-Safe n o env)
  perform-IsSafe (monitors l i s) env = returning-Safe _ _ (monitor-Safe l i s env)
  perform-IsSafe (streams t i s) env = returning-Safe _ _ (stream-Safe t i s env)
  perform-IsSafe (queries n p l a t fn ft) env = returning-Safe _ _ (query-Safe n p l a t fn ft env)
  perform-IsSafe (stops s) env = returning-Safe _ _ (stop-Safe s env)

  session-Safe : (ts : List Turn) → Safe (session ts)
  unfolding session
  session-Safe [] = record { at = λ w h. h }
  session-Safe (t ∷ ts) =
      Runs-bind (λ _. IsSafe) (background t.idle) _ (background-Safe t.idle)
        λ _.
          Runs-bind (λ _. IsSafe) (perform t.call t.env) _ (perform-IsSafe t.call t.env)
            (λ _. session-Safe ts)

  pub new_client-IsSafe : (u : m.Unpacker) → IsSafe (new_client u)
  unfolding pointer
  new_client-IsSafe u = record {
    live = λ k p e. cc;
    alone = λ j k p d e. cc;
    fresh = λ p le. refl;
    waiting = λ k p c e d. cc;
  }

  -- A new client that makes any calls, with any input of the I/O thread before and during each: the
  -- history runs to its end or the program ends; no dangling pointer is followed, no loop runs out
  -- of fuel, no exception reaches the user, and the state is safe at the end.
  pub session-IsSafe :
      (u : m.Unpacker) (ts : List Turn)
      → Post Never (λ _. IsSafe) (session ts (new_client u)).0 (session ts (new_client u)).1
  session-IsSafe u ts = (session-Safe ts).at (new_client u) (new_client-IsSafe u)
