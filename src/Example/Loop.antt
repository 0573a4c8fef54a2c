-- ===== src/Example/Loop.antt =====
-- main: the options, the connection, the loop over the lines of input, and the end.
pub mod Ends
use serf_cpp.Prelude.{
  ℕ, zero, suc, ◌%◌, ◌^◌, String, Bool, true, false, if◌then◌else◌, Option, none, some, List, [],
  ◌∷◌, codes,
}
use serf_cpp.Msgpack.{Msgpack}
use serf_cpp.Exec.{ok, terminated, stalled, pure, ◌>>=◌, ◌>>◌}
use serf_cpp.Print.{◌<<◌, text}
use serf_cpp.IoThread.Rpc.{Batch}
use serf_cpp.IoThread.Wait.{Env, background}
use serf_cpp.IoThread.Connection.{Dial}
use serf_cpp.Client.{SerfResponse, success, failure, timeout}
use serf_cpp.Client
use serf_cpp.Example.{Line, Shell, S, print_response, on_client, say}
use serf_cpp.Example.Commands.{run_command}
use serf_cpp.Example.Numbers.{strtoull}
use serf_cpp.Example.Split.{split}
use serf_cpp.Example.Words.{Word, quit, word_of}

-- an option as getopt returns it
pub data Opt : Type 0 where
  set_host set_port : String → Opt
  other : Opt

-- the host and the port, or none if the usage is printed
unfoldable pub read_options : List Opt → String × ℕ → Option (String × ℕ)
unfolding strtoull
read_options [] hp = some hp
read_options (set_host h ∷ opts) hp = read_options opts (h, hp.1)
read_options (set_port p ∷ opts) hp = read_options opts (hp.0, strtoull (codes p) % 2 ^ 16)
read_options (other ∷ opts) hp = none

-- a line at the end of input: getline leaves the empty text
abbrev pub no_line : Line
no_line = record { typed = ""; idle = []; env = record { accepts = true; arrivals = [] } }

abbrev pub is_quit : Word → Bool
is_quit quit = true
is_quit _ = false

module _ ⦃m : Msgpack⦄ where
  -- getline(std::cin, line)
  abbrev pub take_line : List Line → Line × List Line
  take_line [] = (no_line, [])
  take_line (l ∷ ls) = (l, ls)

  unfoldable pub read_line : S Line
  read_line s = let (l, rest) = take_line s.input in (ok l, record s { input = rest })

  -- the words of a line; `none` from split is a loop without fuel
  abbrev pub or_stall : {A : Type 0} → Option A → S A
  or_stall none s = (stalled, s)
  or_stall (some a) s = (ok a, s)

  module _ (show : ℕ → String) where
    -- the rest of a turn of the loop, once the line is split
    unfoldable pub obey : S (Unit {0}) → List String → Env → S (Unit {0})
    unfolding run_command
    obey again [] env = again
    obey again (command ∷ args) env =
        let w = word_of command in
        if is_quit w then pure tt else (run_command show w args env >> again)

    unfoldable pub command_loop : ℕ → S (Unit {0})
    unfolding obey on_client say read_line
    command_loop zero s = (stalled, s)
    command_loop (suc fuel) s =
        (say (text "Command > ")
            >> (read_line >>= λ line.
                on_client (background line.idle)
                >> (or_stall (split b' ' line.typed) >>= λ args.
                    obey (command_loop fuel) args line.env)))
          s

    -- from Connect to the end of main; `last` is the round that Close waits for
    unfoldable pub run_shell : String → ℕ → Dial → Env → Option Batch → ℕ → S (Unit {0})
    unfolding command_loop
    run_shell host port dial env last fuel = do
      resp ← on_client (Client.connect host port dial env)
      elim resp [
        | success ↦ (do
          command_loop fuel
          say (text "Closing socket connection to serf agent" << text "\n")
          c ← on_client (Client.close last)
          say (text "Close result:" << print_response c << text "\n"))
        | _ ↦ say (text "Failed to connect to serf agent" << text "\n")
      ]
