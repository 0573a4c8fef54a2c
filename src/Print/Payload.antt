-- ===== src/Print/Payload.antt =====
-- dumpPayload and printMsgPack.
pub mod Dump
pub mod Read
pub mod Msgpack
use serf_cpp.Prelude.{ℕ, suc, pos, ◌%◌, Bool, not, ◌&&◌, List, [], ◌∷◌, ◌==◌, if◌then◌else◌}
use serf_cpp.Print.{
  Print, ◌<<◌, nothing_more, hex, dec, text, int, endl, set_base, setfill, setw, copyfmt, octet,
  each,
}

-- the loop of dumpPayload
unfoldable pub dump_bytes : ℕ → List ℕ → Print
dump_bytes count [] = nothing_more
dump_bytes count (b ∷ bs) =
    (if not (count == 0) && (count % 8 == 0) then text "\n             " else nothing_more)
    << text "0x"
    << int (pos (octet b))
    << text " "
    << dump_bytes (suc count) bs

unfoldable pub dump_payload : List ℕ → Print
unfolding dump_bytes
dump_payload p os =
    (set_base hex << setfill b'0' << setw 2 << dump_bytes 0 p << copyfmt os.format << endl) os

unfoldable pub print_msgpack : List ℕ → Print
print_msgpack buf =
    each (λ c. setw 2 << set_base hex << setfill b'0' << int (pos (octet c)) << text " ") buf
    << set_base dec
    << endl
