-- ===== src/Print/Payload/Msgpack.antt =====
-- printMsgPack and the format that it leaves.
use serf_cpp.Prelude.{ℕ, pos, List, [], ◌∷◌, ◌++◌, ◌≡◌, sym, ap, ◌∙◌}
use mathlib.Core.List.{append_assoc, append-nil}
use serf_cpp.Print.{
  Print, Ostream, dec, hex, ◌<<◌, text, int, set_base, setfill, setw, octet, each, endl,
}
use serf_cpp.Print.Hex.{two_digits, two_digits_lem}
use serf_cpp.Print.Plain.{unpadded, plain, said, newline, lines, text-WritesIn}
use serf_cpp.Print.Payload.{print_msgpack}

abbrev pub pair : ℕ → List ℕ
pair b = two_digits b ++ said " "

abbrev print_pair : ℕ → Print
print_pair c = setw 2 << set_base hex << setfill b'0' << int (pos (octet c)) << text " "

print_pair_lem : (b : ℕ) (os : Ostream) → print_pair b os ≡ unpadded hex b'0' (os.written ++ pair b)
unfolding ◌<<◌
print_pair_lem b os =
    ap (text " ") (two_digits_lem b os)
    ∙ (text-WritesIn " ").at (os.written ++ two_digits b)
    ∙ ap (unpadded hex b'0') (append_assoc os.written (two_digits b) (said " "))

print_pairs_lem :
    (b : ℕ) (bs : List ℕ) (os : Ostream)
    → each print_pair (b ∷ bs) os ≡ unpadded hex b'0' (os.written ++ lines pair (b ∷ bs))
unfolding each lines
print_pairs_lem b [] os =
    print_pair_lem b os ∙ ap (λ t. unpadded hex b'0' (os.written ++ t)) (sym (append-nil (pair b)))
print_pairs_lem b (c ∷ cs) os =
    ap (each print_pair (c ∷ cs)) (print_pair_lem b os)
    ∙ print_pairs_lem c cs (unpadded hex b'0' (os.written ++ pair b))
    ∙ ap (unpadded hex b'0') (append_assoc os.written (pair b) (lines pair (c ∷ cs)))

-- On a stream in the format that streams start with, printMsgPack of a buffer that is not empty
-- writes each byte as two digits and a blank, and the end of the line. It leaves the stream padding
-- with zeros, and otherwise in that format.
pub print_msgpack_lem :
    (b : ℕ) (bs out : List ℕ)
    → print_msgpack (b ∷ bs) (plain out)
      ≡ unpadded dec b'0' (out ++ (lines pair (b ∷ bs) ++ newline))
unfolding print_msgpack ◌<<◌ set_base endl newline
print_msgpack_lem b bs out =
    ap (λ os. (set_base dec << endl) os) (print_pairs_lem b bs (plain out))
    ∙ ap (unpadded dec b'0') (append_assoc out (lines pair (b ∷ bs)) newline)
