-- ===== src/Example/Loop/Ends.antt =====
-- When the command line ends.
use serf_cpp.Prelude.{
  Bool-cases, ℕ, zero, suc, ◌≤◌, String, true, List, [], ◌∷◌, ◌≡◌, ◌⊎◌, inl, inr, refl, ◌∙◌, arith,
  length,
}
use serf_cpp.Msgpack.{Msgpack}
use serf_cpp.Exec.{Result, ok, raised, terminated, dangling, stalled, chain, ◌>>=◌}
use serf_cpp.IoThread.Rpc.{process_rpc}
use serf_cpp.IoThread.Wait.{Env, background}
use serf_cpp.Channel.{World}
use serf_cpp.Print.{text}
use serf_cpp.Example.{Line, Shell, S, on_client, say}
use serf_cpp.Example.Commands.{run_command}
use serf_cpp.Example.Commands.Arguments.{needed, run_command-IsOrderly}
use serf_cpp.Example.Loop.{command_loop, obey, read_line, is_quit, or_stall}
use serf_cpp.Example.Safe.{Returns, on_client-IsOrderly}
use serf_cpp.Example.Split.{split}
use serf_cpp.Example.Split.Tokens.{tokens, split-tokens}
use serf_cpp.Example.Words.{word_of}
use serf_cpp.Safety.Invariant.{IsSafe}
use serf_cpp.Safety.Listening.{background-Safe}

module _ ⦃m : Msgpack⦄ (show : ℕ → String) where
  -- rounds that do not happen change nothing
  background-none : (w : World) → background [] w ≡ (ok tt, w)
  unfolding background process_rpc
  background-none w = ground arith

  -- At the end of its input the loop prompts for ever: with no lines left it runs out of any fuel.
  pub command_loop-stalled :
      (fuel : ℕ) (s : Shell) → s.input ≡ [] → (command_loop show fuel s).0 ≡ stalled
  unfolding command_loop obey on_client say read_line split ◌>>=◌
  command_loop-stalled zero s e = refl
  command_loop-stalled (suc fuel) s e =
      rw (e, background-none s.client)
        (command_loop-stalled fuel (record s { out = text "Command > " s.out; input = [] }) refl)

  -- a line that ends the loop
  abbrev pub IsQuit : List String → Type 0
  IsQuit [] = ⊥
  IsQuit (c ∷ args) = is_quit (word_of c) ≡ true

  -- a line that does nothing, or a command with as many arguments as it takes for granted
  abbrev pub IsFine : List String → Type 0
  IsFine [] = Unit
  IsFine (c ∷ args) = needed (word_of c) ≤ length args

  -- Some line ends the loop, and the lines before it are fine.
  abbrev pub Quits : List Line → Type 0
  Quits [] = ⊥
  Quits (l ∷ ls) = IsQuit (tokens b' ' l.typed) ⊎ (IsFine (tokens b' ' l.typed) × Quits ls)

  -- Some lines may be left when the loop has returned.
  abbrev pub Ended : Result (Unit {0}) × Shell → Type 0
  Ended (ok a, s) = IsSafe s.client
  Ended (terminated, s) = Unit
  Ended (raised, s) = ⊥
  Ended (dangling, s) = ⊥
  Ended (stalled, s) = ⊥

  chain-Ended :
      {A : Type 0} (ls : List Line) (f : A → S (Unit {0}))
      → ((a : A) (s : Shell) → IsSafe s.client → s.input ≡ ls → Ended (f a s))
      → (r : Result A) (s : Shell) → Returns ls r s
      → Ended (chain r f s)
  chain-Ended ls f h (ok a) s p = h a s p.0 p.1
  chain-Ended ls f h terminated s p = p
  chain-Ended ls f h raised s p = absurd p
  chain-Ended ls f h dangling s p = absurd p
  chain-Ended ls f h stalled s p = absurd p

  -- a turn of the loop, if the turns after it end
  obeyed :
      (again : S (Unit {0})) (ls : List Line) (env : Env)
      → ((v : Shell) → IsSafe v.client → v.input ≡ ls → Quits ls → Ended (again v))
      → (args : List String) (v : Shell) → IsSafe v.client
      → v.input ≡ ls
      → IsQuit args ⊎ (IsFine args × Quits ls)
      → Ended (obey show again args env v)
  unfolding obey ◌>>=◌
  obeyed again ls env later [] v h e (inl stop) = elim stop [ ]
  obeyed again ls env later [] v h e (inr (fine, q)) = later v h e q
  obeyed again ls env later (c ∷ args) v h e (inl stop) = rw stop h
  obeyed again ls env later (c ∷ args) v h e (inr (fine, q)) =
      elim (Bool-cases (is_quit (word_of c))) [
        | inl stop ↦ rw stop h
        | inr go_on ↦ rw go_on (
            chain-Ended v.input (λ _. again) (λ _ u hu eu. later u hu (eu ∙ e) q)
              (run_command show (word_of c) args env v).0
              (run_command show (word_of c) args env v).1
              ((run_command-IsOrderly show (word_of c) args env fine).at v h))
      ]

  loop-Ended :
      (fuel : ℕ) (ls : List Line) (s : Shell)
      → IsSafe s.client
      → s.input ≡ ls
      → length ls ≤ fuel
      → Quits ls
      → Ended (command_loop show fuel s)
  unfolding command_loop on_client say read_line ◌>>=◌
  loop-Ended fuel [] s h e le q = elim q [ ]
  loop-Ended zero (l ∷ ls) s h e le q = absurd (omega (arith, le))
  loop-Ended (suc fuel) (l ∷ ls) s h e le q =
      let s1 : Shell = record s { out = text "Command > " s.out; input = ls } in
      rw e (
        chain-Ended ls
          (λ _.
            or_stall (split b' ' l.typed) >>= λ args. obey show (command_loop show fuel) args l.env)
          (λ _ v hv ev. rw (split-tokens b' ' l.typed) (
            obeyed (command_loop show fuel) ls l.env
              (λ u hu eu. loop-Ended fuel ls u hu eu (omega (arith, le))) (tokens b' ' l.typed) v hv
              ev q))
          (on_client (background l.idle) s1).0 (on_client (background l.idle) s1).1
          ((on_client-IsOrderly (background-Safe l.idle)).at s1 h))

  -- If a line of the input quits, and the lines before it have the arguments that their commands
  -- take for granted, then the loop, from a safe state and with a turn for each line, returns with
  -- the client in a safe state, or the program ends.
  pub command_loop-Ended :
      (fuel : ℕ) (s : Shell)
      → length s.input ≤ fuel
      → IsSafe s.client
      → Quits s.input
      → Ended (command_loop show fuel s)
  command_loop-Ended fuel s le h q = loop-Ended fuel s.input s h refl le q
