-- ===== src/Tests/Printing.antt =====
-- The properties of printing at concrete inputs.
use serf_cpp.Prelude.{ℕ, String, some, none, pos, List, [], ◌∷◌, ◌++◌, ◌≡◌, refl, arith}
use text.Mathlib.TextLemmas.{cons-ne-nil}
use serf_cpp.Msg.Records.{NodeResponse}
use serf_cpp.Print.{dec}
use serf_cpp.Print.Plain.{plain, unpadded, Writes, lines, newline}
use serf_cpp.Print.Family.{Printable, print, text_of, print-Writes}
use serf_cpp.Print.Payload.{print_msgpack, dump_payload}
use serf_cpp.Print.Payload.Read.{read_dump, read_dump-dump_payload}
use serf_cpp.Print.Payload.Msgpack.{pair, print_msgpack_lem}
use serf_cpp.Print.Members.Mapped.{print_address-mapped}
use serf_cpp.Print.Members.{print_address}
use Prim.Native.Char.{code}
use serf_cpp.Example.Split.{split}
use serf_cpp.Example.Split.Tokens.{tokens, split-tokens, joined, split-joined}

abbrev reply : NodeResponse
reply = record { type = "response"; from = "alice"; payload = 7 ∷ 255 ∷ [] }

abbrev pub half : ℕ → String
half d = "0.5"

print-Writes_example :
    Writes (print half Printable.node_response reply) (text_of half Printable.node_response reply)
print-Writes_example = print-Writes half Printable.node_response reply

read_dump-dump_payload_example :
    read_dump none (dump_payload (7 ∷ 255 ∷ []) (plain [])).written ≡ 7 ∷ 255 ∷ []
read_dump-dump_payload_example = read_dump-dump_payload (7 ∷ 255 ∷ [])

print_msgpack_lem_example :
    print_msgpack (130 ∷ 7 ∷ []) (plain [])
    ≡ unpadded dec b'0' (lines pair (130 ∷ 7 ∷ []) ++ newline)
print_msgpack_lem_example = print_msgpack_lem 130 (7 ∷ []) []

abbrev zeros : List ℕ
zeros = 0 ∷ 0 ∷ 0 ∷ 0 ∷ 0 ∷ 0 ∷ 0 ∷ 0 ∷ 0 ∷ 255 ∷ 255 ∷ []

print_address-mapped_example :
    print_address (0 ∷ zeros ++ 127 ∷ 0 ∷ 0 ∷ 1 ∷ []) (pos 7946) (plain [])
    ≡ print_address (127 ∷ 0 ∷ 0 ∷ 1 ∷ []) (pos 7946) (plain [])
print_address-mapped_example = print_address-mapped zeros 127 0 0 1 (pos 7946) [] refl

split-tokens_example : split b' ' "event deploy " ≡ some (tokens b' ' "event deploy ")
split-tokens_example = split-tokens b' ' "event deploy "

abbrev parts : List String
parts = "t" ∷ "" ∷ "u" ∷ []

split-joined_example : split (code " ") (joined " " parts) ≡ some parts
split-joined_example =
    split-joined " " parts ((omega arith, tt), (tt, ((omega arith, tt), λ e. cons-ne-nil "u" "" e)))
