-- ===== src/Example.antt =====
-- example/SerfClientExample.cpp: a command line over a SerfClient. This module has the state of the
-- program: the client, its standard streams, the counters of its QueryListener, and the lines to come.
pub mod Split
pub mod Numbers
pub mod Words
pub mod Commands
pub mod Loop
pub mod Listeners
pub mod Safe
use serf_cpp.Prelude.{ℕ, zero, suc, String, Option, none, some, List, [], ◌∷◌}
use serf_cpp.Msgpack.{Msgpack}
use serf_cpp.Exec.{Exec, Result, ok, dangling, modify}
use serf_cpp.Print.{Ostream, Print, ◌<<◌, text}
use serf_cpp.Channel.{World}
use serf_cpp.Channel.Memory.{M}
use serf_cpp.IoThread.Rpc.{Batch}
use serf_cpp.IoThread.Wait.{Env}
use serf_cpp.Client.{SerfResponse, success, failure, timeout}

-- a line of input, the rounds that the I/O thread makes before it, and what happens around the call
-- of the client that it leads to
pub record Line : Type 0 where
  pub typed : String
  pub idle : List Batch
  pub env : Env

-- operator<< of SerfResponse
abbrev pub print_response : SerfResponse → Print
print_response success = text "SUCCESS"
print_response failure = text "FAILURE"
print_response timeout = text "TIMEOUT"

module _ ⦃m : Msgpack⦄ where
  pub record Shell : Type 0 where
    pub client : World
    pub out : Ostream
    pub err : Ostream
    pub acks : ℕ
    pub responses : ℕ
    pub input : List Line

  abbrev pub S : Type 0 → Type 0
  S A = Exec Shell A

  abbrev pub with_client : {A : Type 0} → Shell → Result A × World → Result A × Shell
  with_client s r = (r.0, record s { client = r.1 })

  -- a call of the client
  unfoldable pub on_client : {A : Type 0} → M A → S A
  on_client action s = with_client s (action s.client)

  -- an insertion into std::cout, and into std::cerr
  unfoldable pub say : Print → S (Unit {0})
  say p = modify (λ s. record s { out = p s.out })

  unfoldable pub complain : Print → S (Unit {0})
  complain p = modify (λ s. record s { err = p s.err })

  -- args[i]; there is nothing behind the end of the vector
  unfoldable pub argument : ℕ → List String → S String
  argument i [] s = (dangling, s)
  argument zero (a ∷ args) s = (ok a, s)
  argument (suc i) (a ∷ args) s = argument i args s
