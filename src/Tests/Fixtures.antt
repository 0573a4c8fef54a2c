-- ===== src/Tests/Fixtures.antt =====
-- The codec, the inputs and the client states of the tests.
use serf_cpp.Prelude.{ℕ, true, false, some, List, [], ◌∷◌, ◌==◌, if◌then◌else◌}
use serf_cpp.Msgpack.{Msgpack}
use serf_cpp.IoThread.Rpc.{Batch, readable, quiet}
use serf_cpp.IoThread.Wait.{Env}
use serf_cpp.IoThread.Connection.{Dial}
use serf_cpp.Client.Session.{new_client}
use serf_cpp.Safety.Invariant.{IsSafe}
use serf_cpp.Safety.Session.{new_client-IsSafe}
use serf_cpp.Channel.{World}
use serf_cpp.Tests.Toy.{Value, toy, text, integer, struct, member, end}
use serf_cpp.Prelude.{pos}

-- the header of a reply to request n, without an error
abbrev pub ok_header : ℕ → Value
ok_header n = struct (member "Seq" (integer (pos n)) (member "Error" (text "") end))

-- The byte n stands for the header of the reply to request n, but 100 for a log record and 101 for
-- the body of a reply to join.
abbrev pub headers : ℕ → Value
headers n =
    if n == 100
    then struct (member "Log" (text "started") end)
    else if n == 101
    then struct (member "Num" (integer (pos 3)) end)
    else ok_header n

instance abbrev pub codec : Msgpack
codec = toy headers

abbrev pub arriving : List ℕ → Batch
arriving bytes = record { answers = readable bytes ∷ quiet ∷ []; retry = false }

abbrev pub on_the_air : List ℕ → Env
on_the_air bytes = record { accepts = true; arrivals = arriving bytes ∷ [] }

abbrev pub dial : Dial
dial = record { descriptor = some 3; reachable = true }

-- a client whose socket is open
abbrev pub online : World
online = record (new_client []) { socket = some 3 }

pub online-IsSafe : IsSafe online
online-IsSafe =
    let h = new_client-IsSafe [] in
    record { live = h.live; alone = h.alone; fresh = h.fresh; waiting = h.waiting }
