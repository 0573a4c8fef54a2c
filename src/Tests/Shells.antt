-- ===== src/Tests/Shells.antt =====
-- The properties of the command line at concrete inputs.
use serf_cpp.Prelude.{String, inl, inr, List, [], ◌∷◌, ◌≡◌, refl, arith}
use serf_cpp.Exec.{dangling, stalled}
use serf_cpp.Print.Plain.{plain}
use serf_cpp.Example.{Line, Shell}
use serf_cpp.Example.Commands.{run_command}
use serf_cpp.Example.Commands.Arguments.{needed, run_command-missing, run_command-Returns}
use serf_cpp.Example.Loop.{command_loop}
use serf_cpp.Example.Loop.Ends.{Ended, command_loop-stalled, command_loop-Ended}
use serf_cpp.Example.Safe.{Returns}
use serf_cpp.Example.Split.Tokens.{tokens}
use serf_cpp.Example.Words.{auth, word_of}
use serf_cpp.Tests.Fixtures.{codec, on_the_air, online, online-IsSafe}
use serf_cpp.Tests.Printing.{half}

abbrev line : String → Line
line t = record { typed = t; idle = []; env = on_the_air [] }

abbrev shell : List Line → Shell
shell ls = record {
  client = online;
  out = plain [];
  err = plain [];
  acks = 0;
  responses = 0;
  input = ls;
}

run_command-missing_example :
    run_command half auth ("secret" ∷ []) (on_the_air []) (shell []) ≡ (dangling, shell [])
unfolding needed
run_command-missing_example =
    run_command-missing half auth ("secret" ∷ []) (on_the_air []) (shell []) (omega arith)

run_command-Returns_example :
    Returns []
      (run_command half auth ("a" ∷ "secret" ∷ []) (on_the_air []) (shell [])).0
      (run_command half auth ("a" ∷ "secret" ∷ []) (on_the_air []) (shell [])).1
unfolding needed
run_command-Returns_example =
    run_command-Returns half auth ("a" ∷ "secret" ∷ []) (on_the_air []) (shell []) (omega arith)
      online-IsSafe

command_loop-stalled_example : (command_loop half 5 (shell [])).0 ≡ stalled
command_loop-stalled_example = command_loop-stalled half 5 (shell []) refl

abbrev typed_lines : List Line
typed_lines = line "members" ∷ line "" ∷ line "quit now" ∷ line "join" ∷ []

command_loop-Ended_example : Ended half (command_loop half 4 (shell typed_lines))
unfolding tokens needed word_of
command_loop-Ended_example =
    command_loop-Ended half 4 (shell typed_lines) (omega arith) online-IsSafe
      (inr (omega arith, inr (tt, inl refl)))
