-- ===== src/Example/Commands/Arguments.antt =====
-- How many arguments each command takes for granted.
use serf_cpp.Prelude.{
  ℕ, zero, suc, ◌≤◌, ◌<◌, String, Option, none, some, List, [], ◌∷◌, ◌≡◌, refl, arith, length,
}
use serf_cpp.Msgpack.{Msgpack}
use serf_cpp.Exec.{dangling, ◌>>=◌}
use serf_cpp.IoThread.Wait.{Env}
use serf_cpp.Example.{Shell, S, argument}
use serf_cpp.Example.Commands.{run_command, set_tag}
use serf_cpp.Safety.Invariant.{IsSafe}
use serf_cpp.Example.Safe.{
  Returns, IsOrderly, pure-IsOrderly, bind-IsOrderly, on_client-IsOrderly, say-IsOrderly,
  complain-IsOrderly, argument-IsOrderly,
}
use serf_cpp.Example.Words.{
  Word, quit, help, version, join, auth, use_key, install, remove, list, members, tag, rmtag, query,
  coord, event, respond, force_leave, leave, stop, monitor, stream, stats, unknown,
}
use serf_cpp.Safety.Calls.{
  auth-Safe, use_key-Safe, event-Safe, respond-Safe, force_leave-Safe, tags-Safe, leave-Safe,
  join-Safe, install_key-Safe, list_keys-Safe, remove_key-Safe, members-Safe, stats-Safe,
  get_coordinate-Safe,
}
use serf_cpp.Safety.Listening.{monitor-Safe, stream-Safe, query-Safe, stop-Safe}

-- one more than the largest index at which the command reads its arguments
unfoldable pub needed : Word → ℕ
needed auth = 2
needed use_key = 2
needed install = 2
needed remove = 2
needed tag = 1
needed rmtag = 1
needed query = 1
needed coord = 1
needed event = 1
needed respond = 1
needed force_leave = 1
needed stop = 1
needed _ = 0

module _ ⦃m : Msgpack⦄ where
  argument-missing :
      (i : ℕ) (args : List String) (s : Shell) → length args ≤ i → argument i args s ≡ (dangling, s)
  unfolding argument
  argument-missing i [] s h = refl
  argument-missing zero (a ∷ args) s h = absurd (omega (arith, h))
  argument-missing (suc i) (a ∷ args) s h = argument-missing i args s (omega (arith, h))

  missing :
      {A : Type 0} (i : ℕ) (args : List String) (f : String → S A) (s : Shell)
      → length args ≤ i
      → (argument i args >>= f) s ≡ (dangling, s)
  unfolding ◌>>=◌
  missing i args f s h = rw (argument-missing i args s h)

  set_tag-IsOrderly : (t : String × Option String) (env : Env) → IsOrderly (set_tag t env)
  unfolding set_tag
  set_tag-IsOrderly (key, none) env = complain-IsOrderly _
  set_tag-IsOrderly (key, some val) env =
      bind-IsOrderly (on_client-IsOrderly (tags-Safe _ _ env)) (λ resp. say-IsOrderly _)

  module _ (show : ℕ → String) where
    -- A command that is given fewer arguments than it takes for granted reads behind the end of the
    -- vector, before it does anything else.
    pub run_command-missing :
        (w : Word) (args : List String) (env : Env) (s : Shell)
        → length args < needed w
        → run_command show w args env s ≡ (dangling, s)
    unfolding run_command needed
    run_command-missing quit args env s h = absurd (omega (arith, h))
    run_command-missing help args env s h = absurd (omega (arith, h))
    run_command-missing version args env s h = absurd (omega (arith, h))
    run_command-missing join args env s h = absurd (omega (arith, h))
    run_command-missing auth args env s h = missing 1 args _ s (omega (arith, h))
    run_command-missing use_key args env s h = missing 1 args _ s (omega (arith, h))
    run_command-missing install args env s h = missing 1 args _ s (omega (arith, h))
    run_command-missing remove args env s h = missing 1 args _ s (omega (arith, h))
    run_command-missing list args env s h = absurd (omega (arith, h))
    run_command-missing members args env s h = absurd (omega (arith, h))
    run_command-missing tag args env s h = missing 0 args _ s (omega (arith, h))
    run_command-missing rmtag args env s h = missing 0 args _ s (omega (arith, h))
    run_command-missing query args env s h = missing 0 args _ s (omega (arith, h))
    run_command-missing coord args env s h = missing 0 args _ s (omega (arith, h))
    run_command-missing event args env s h = missing 0 args _ s (omega (arith, h))
    run_command-missing respond args env s h = missing 0 args _ s (omega (arith, h))
    run_command-missing force_leave args env s h = missing 0 args _ s (omega (arith, h))
    run_command-missing leave args env s h = absurd (omega (arith, h))
    run_command-missing stop args env s h = missing 0 args _ s (omega (arith, h))
    run_command-missing monitor args env s h = absurd (omega (arith, h))
    run_command-missing stream args env s h = absurd (omega (arith, h))
    run_command-missing stats args env s h = absurd (omega (arith, h))
    run_command-missing unknown args env s h = absurd (omega (arith, h))

    pub run_command-IsOrderly :
        (w : Word) (args : List String) (env : Env)
        → needed w ≤ length args
        → IsOrderly (run_command show w args env)
    unfolding run_command needed
    run_command-IsOrderly quit args env h = pure-IsOrderly tt
    run_command-IsOrderly help args env h = say-IsOrderly _
    run_command-IsOrderly version args env h = say-IsOrderly _
    run_command-IsOrderly join args env h =
        bind-IsOrderly (on_client-IsOrderly (join-Safe _ _ _ env)) (λ r. say-IsOrderly _)
    run_command-IsOrderly auth args env h =
        bind-IsOrderly (argument-IsOrderly 1 args (omega (arith, h)))
          (λ a. bind-IsOrderly (on_client-IsOrderly (auth-Safe _ env)) (λ r. say-IsOrderly _))
    run_command-IsOrderly use_key args env h =
        bind-IsOrderly (argument-IsOrderly 1 args (omega (arith, h)))
          (λ a. bind-IsOrderly (on_client-IsOrderly (use_key-Safe _ env)) (λ r. say-IsOrderly _))
    run_command-IsOrderly install args env h =
        bind-IsOrderly (argument-IsOrderly 1 args (omega (arith, h))) (λ a.
          bind-IsOrderly (on_client-IsOrderly (install_key-Safe _ _ env)) (λ r. say-IsOrderly _))
    run_command-IsOrderly remove args env h =
        bind-IsOrderly (argument-IsOrderly 1 args (omega (arith, h))) (λ a.
          bind-IsOrderly (on_client-IsOrderly (remove_key-Safe _ _ env)) (λ r. say-IsOrderly _))
    run_command-IsOrderly list args env h =
        bind-IsOrderly (on_client-IsOrderly (list_keys-Safe _ env)) (λ r. say-IsOrderly _)
    run_command-IsOrderly members args env h =
        bind-IsOrderly (on_client-IsOrderly (members-Safe _ env)) (λ r. say-IsOrderly _)
    run_command-IsOrderly tag args env h =
        bind-IsOrderly (argument-IsOrderly 0 args (omega (arith, h))) (λ a. set_tag-IsOrderly _ env)
    run_command-IsOrderly rmtag args env h =
        bind-IsOrderly (argument-IsOrderly 0 args (omega (arith, h)))
          (λ a. bind-IsOrderly (on_client-IsOrderly (tags-Safe _ _ env)) (λ r. say-IsOrderly _))
    run_command-IsOrderly query args env h =
        bind-IsOrderly (argument-IsOrderly 0 args (omega (arith, h))) (λ a.
          bind-IsOrderly (on_client-IsOrderly (query-Safe _ _ _ _ _ _ _ env))
            (λ r. say-IsOrderly _))
    run_command-IsOrderly coord args env h =
        bind-IsOrderly (argument-IsOrderly 0 args (omega (arith, h))) (λ a.
          bind-IsOrderly (on_client-IsOrderly (get_coordinate-Safe _ _ env)) (λ r. say-IsOrderly _))
    run_command-IsOrderly event args env h =
        bind-IsOrderly (argument-IsOrderly 0 args (omega (arith, h)))
          (λ a. bind-IsOrderly (on_client-IsOrderly (event-Safe _ _ _ env)) (λ r. say-IsOrderly _))
    run_command-IsOrderly respond args env h =
        bind-IsOrderly (argument-IsOrderly 0 args (omega (arith, h)))
          (λ a. bind-IsOrderly (on_client-IsOrderly (respond-Safe _ _ env)) (λ r. say-IsOrderly _))
    run_command-IsOrderly force_leave args env h =
        bind-IsOrderly (argument-IsOrderly 0 args (omega (arith, h))) (λ a.
          bind-IsOrderly (on_client-IsOrderly (force_leave-Safe _ env)) (λ r. say-IsOrderly _))
    run_command-IsOrderly leave args env h =
        bind-IsOrderly (on_client-IsOrderly (leave-Safe env)) (λ r. say-IsOrderly _)
    run_command-IsOrderly stop args env h =
        bind-IsOrderly (argument-IsOrderly 0 args (omega (arith, h))) (λ a.
          bind-IsOrderly (say-IsOrderly _)
            (λ _. bind-IsOrderly (on_client-IsOrderly (stop-Safe _ env)) (λ r. say-IsOrderly _)))
    run_command-IsOrderly monitor args env h =
        bind-IsOrderly (on_client-IsOrderly (monitor-Safe _ _ _ env))
          (λ r. bind-IsOrderly (say-IsOrderly _) (λ _. say-IsOrderly _))
    run_command-IsOrderly stream args env h =
        bind-IsOrderly (on_client-IsOrderly (stream-Safe _ _ _ env))
          (λ r. bind-IsOrderly (say-IsOrderly _) (λ _. say-IsOrderly _))
    run_command-IsOrderly stats args env h =
        bind-IsOrderly (on_client-IsOrderly (stats-Safe _ env)) (λ r. say-IsOrderly _)
    run_command-IsOrderly unknown args env h = pure-IsOrderly tt

    -- A command that is given as many arguments as it takes for granted, with a client in a safe
    -- state, returns with the client in a safe state and takes no line of input, or the program
    -- ends: no access is out of bounds or through a dangling pointer, no loop runs out of fuel, and
    -- no exception is left.
    pub run_command-Returns :
        (w : Word) (args : List String) (env : Env) (s : Shell)
        → needed w ≤ length args
        → IsSafe s.client
        → Returns s.input (run_command show w args env s).0 (run_command show w args env s).1
    run_command-Returns w args env s enough h = (run_command-IsOrderly w args env enough).at s h
