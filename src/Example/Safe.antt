-- ===== src/Example/Safe.antt =====
-- Safety of what the command line does, from the safety of the client's methods.
use serf_cpp.Prelude.{ℕ, zero, suc, ◌<◌, String, List, [], ◌∷◌, arith, ◌≡◌, refl, ◌∙◌, length}
use serf_cpp.Msgpack.{Msgpack}
use serf_cpp.Exec.{Result, ok, raised, terminated, dangling, stalled, pure, chain, ◌>>=◌}
use serf_cpp.Print.{Print}
use serf_cpp.Channel.{World}
use serf_cpp.Channel.Memory.{M}
use serf_cpp.Example.{Line, Shell, S, on_client, say, complain, argument}
use serf_cpp.Safety.Triple.{Post}
use serf_cpp.Safety.Invariant.{IsSafe}
use serf_cpp.Safety.Loop.{Never}
use serf_cpp.Safety.Calls.{Safe}

module _ ⦃m : Msgpack⦄ where
  -- a return in a state where the client is safe and the lines to come are these, or the end of the
  -- program
  abbrev pub Returns : List Line → {A : Type 0} → Result A → Shell → Type 0
  Returns ls (ok a) s = IsSafe s.client × (s.input ≡ ls)
  Returns ls terminated s = Unit
  Returns ls raised s = ⊥
  Returns ls dangling s = ⊥
  Returns ls stalled s = ⊥

  pub record IsOrderly {A : Type 0} (action : S A) : Type 0 where
    pub at : (s : Shell) → IsSafe s.client → Returns s.input (action s).0 (action s).1

  pub pure-IsOrderly : {A : Type 0} (a : A) → IsOrderly (pure a)
  pure-IsOrderly a = record { at = λ s h. (h, refl) }

  Returns-moved :
      {A : Type 0} (ls ls' : List Line) (r : Result A) (s : Shell)
      → ls ≡ ls'
      → Returns ls r s
      → Returns ls' r s
  Returns-moved ls ls' (ok a) s e p = (p.0, p.1 ∙ e)
  Returns-moved ls ls' raised s e p = p
  Returns-moved ls ls' terminated s e p = p
  Returns-moved ls ls' dangling s e p = p
  Returns-moved ls ls' stalled s e p = p

  -- what comes after an action is started where the action returned
  pub chain-Returns :
      {A B : Type 0} (ls ls' : List Line) (f : A → S B)
      → ((a : A) (s : Shell) → IsSafe s.client → s.input ≡ ls → Returns ls' (f a s).0 (f a s).1)
      → (r : Result A) (s : Shell) → Returns ls r s
      → Returns ls' (chain r f s).0 (chain r f s).1
  chain-Returns ls ls' f h (ok a) s p = h a s p.0 p.1
  chain-Returns ls ls' f h terminated s p = p
  chain-Returns ls ls' f h raised s p = absurd p
  chain-Returns ls ls' f h dangling s p = absurd p
  chain-Returns ls ls' f h stalled s p = absurd p

  pub bind-IsOrderly :
      {A B : Type 0} {action : S A} {f : A → S B}
      → IsOrderly action
      → ((a : A) → IsOrderly (f a))
      → IsOrderly (action >>= f)
  unfolding ◌>>=◌
  bind-IsOrderly {action = action} {f = f} h k = record {
    at = λ s p.
        chain-Returns s.input s.input f
          (λ a v q e. Returns-moved v.input s.input (f a v).0 (f a v).1 e ((k a).at v q))
          (action s).0 (action s).1 (h.at s p);
  }

  client_Returns :
      {A : Type 0} (r : Result A) (w : World) (s : Shell)
      → Post Never (λ _. IsSafe) r w
      → Returns s.input r (record s { client = w })
  client_Returns (ok a) w s p = (p, refl)
  client_Returns raised w s p = p
  client_Returns terminated w s p = p
  client_Returns dangling w s p = p
  client_Returns stalled w s p = p

  pub on_client-IsOrderly : {A : Type 0} {action : M A} → Safe action → IsOrderly (on_client action)
  unfolding on_client
  on_client-IsOrderly {action = action} h = record {
    at = λ s p. client_Returns (action s.client).0 (action s.client).1 s (h.at s.client p);
  }

  pub say-IsOrderly : (p : Print) → IsOrderly (say p)
  unfolding say
  say-IsOrderly p = record { at = λ s h. (h, refl) }

  pub complain-IsOrderly : (p : Print) → IsOrderly (complain p)
  unfolding complain
  complain-IsOrderly p = record { at = λ s h. (h, refl) }

  pub argument-IsOrderly :
      (i : ℕ) (args : List String) → i < length args → IsOrderly (argument i args)
  unfolding argument
  argument-IsOrderly i [] lt = absurd (omega (arith, lt))
  argument-IsOrderly zero (a ∷ args) lt = record { at = λ s h. (h, refl) }
  argument-IsOrderly (suc i) (a ∷ args) lt = record {
    at = (argument-IsOrderly i args (omega (arith, lt))).at;
  }
