-- ===== src/Print/Members.antt =====
-- operator<< of cluster members.
pub mod Text
pub mod Address
pub mod Mapped
use serf_cpp.Prelude.{
  ℕ, zero, suc, ◌+◌, ℤ, pos, Bool, false, not, ◌&&◌, ◌||◌, List, [], ◌∷◌, length, ◌==◌,
  if◌then◌else◌,
}
use serf_cpp.Print.{
  Print, ◌<<◌, nothing_more, hex, dec, text, unsigned, int, endl, set_base, setfill, setw, octet,
  each,
}
use serf_cpp.Msg.Members.{Member, MembersResponse}

-- the byte at an index that is in range
abbrev pub byte_at : List ℕ → ℕ → ℕ
byte_at [] i = 0
byte_at (b ∷ bs) zero = b
byte_at (b ∷ bs) (suc i) = byte_at bs i

-- the loop over the bytes of an IPv6 address
unfoldable pub print_pairs : Bool → List ℕ → Print
print_pairs colon [] = nothing_more
print_pairs colon (b ∷ bs) =
    setw 2
    << set_base hex
    << setfill b'0'
    << int (pos (octet b))
    << (if colon then text ":" else nothing_more)
    << print_pairs (not colon) bs

unfoldable pub is_ipv4 : List ℕ → Bool
is_ipv4 addr = let size = length addr in (size == 4) || ((size == 16) && (byte_at addr 0 == 0))

unfoldable pub print_address : List ℕ → ℤ → Print
unfolding is_ipv4 print_pairs
print_address addr port =
    if is_ipv4 addr
    then (let offset = if length addr == 4 then 0 else 12 in
        unsigned (octet (byte_at addr offset))
        << text "."
        << unsigned (octet (byte_at addr (offset + 1)))
        << text "."
        << unsigned (octet (byte_at addr (offset + 2)))
        << text "."
        << unsigned (octet (byte_at addr (offset + 3)))
        << text ":"
        << int port)
    else (print_pairs false addr << set_base dec << setfill b' ' << int port)

unfoldable pub print_member : Member → Print
unfolding print_address
print_member r =
    setw 16
    << text r.name
    << text " "
    << print_address r.addr r.port
    << text " "
    << text r.status
    << each (λ t. text " " << text t.0 << text ":" << text t.1) r.tags
    << endl

unfoldable pub print_members_response : MembersResponse → Print
unfolding print_member
print_members_response r = text "    Members:" << endl << each print_member r.members
