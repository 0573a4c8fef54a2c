-- ===== src/Print/Members/Address.antt =====
-- The text of an address.
use serf_cpp.Prelude.{
  ℕ, ◌+◌, ◌-◌, ℤ, Bool, true, false, not, ◌==◌, List, [], ◌∷◌, ◌++◌, ◌≡◌, refl, ap, sym, ◌∙◌,
  if◌then◌else◌, length, Bool-cases, inl, inr, arith,
}
use mathlib.Core.List.{append_assoc, append-nil}
use serf_cpp.Print.{
  Print, Ostream, dec, hex, unsigned, ◌<<◌, nothing_more, text, int, set_base, setfill, octet,
  digits, int_digits,
}
use serf_cpp.Print.Hex.{two_digits, two_digits_lem}
use serf_cpp.Print.Members.{byte_at, print_pairs, print_address, is_ipv4}
use serf_cpp.Print.Plain.{
  Writes, unpadded, plain, said, writes_rules, if-WritesIn, text-WritesIn, nothing_more-WritesIn,
  int-WritesIn,
}

-- groups of two bytes, each with a colon after it
unfoldable pub groups : List ℕ → List ℕ
groups [] = []
groups (a ∷ []) = two_digits a
groups (a ∷ b ∷ bs) = two_digits a ++ two_digits b ++ said ":" ++ groups bs

-- the four bytes from an index on, in decimal
unfoldable pub dotted : List ℕ → ℕ → List ℕ
dotted addr i =
    digits 10 (octet (byte_at addr i))
    ++ said "."
    ++ digits 10 (octet (byte_at addr (i + 1)))
    ++ said "."
    ++ digits 10 (octet (byte_at addr (i + 2)))
    ++ said "."
    ++ digits 10 (octet (byte_at addr (i + 3)))

unfoldable pub text_of_address : List ℕ → ℤ → List ℕ
unfolding dotted groups
text_of_address addr port =
    if is_ipv4 addr
    then dotted addr (length addr - 4) ++ said ":" ++ int_digits dec port
    else groups addr ++ int_digits dec port

-- the pairs of digits as the loop writes them
unfoldable pairs : Bool → List ℕ → List ℕ
pairs colon [] = []
pairs colon (b ∷ bs) = two_digits b ++ (if colon then said ":" else []) ++ pairs (not colon) bs

pairs-groups : (bs : List ℕ) → pairs false bs ≡ groups bs
unfolding pairs groups
pairs-groups [] = refl
pairs-groups (a ∷ []) = refl
pairs-groups (a ∷ b ∷ bs) =
    ap (λ t. two_digits a ++ two_digits b ++ said ":" ++ t) (pairs-groups bs)

-- The loop leaves a stream that writes hexadecimal numbers, from which the manipulators after it
-- make a plain one.
restored : Ostream → Ostream
unfolding ◌<<◌ set_base setfill
restored = set_base dec << setfill b' '

print_pairs-pairs :
    (bs : List ℕ) (colon : Bool) (os : Ostream)
    → os.format.width ≡ 0
    → restored (print_pairs colon bs os) ≡ plain (os.written ++ pairs colon bs)
unfolding print_pairs pairs restored ◌<<◌ set_base setfill nothing_more
print_pairs-pairs [] colon os w = λ i. record {
  format = record { base = dec; fill = b' '; width = w i };
  written = sym (append-nil os.written) i;
}
print_pairs-pairs (b ∷ bs) colon os w =
    let rest : Ostream → Ostream = λ o. restored (print_pairs (not colon) bs o) in
    let mark : Print = if colon then text ":" else nothing_more in
    let sign : List ℕ = if colon then said ":" else [] in
    let out : List ℕ = os.written ++ two_digits b in
    ap (λ o. rest (mark o)) (two_digits_lem b os)
    ∙ ap rest ((if-WritesIn colon (text-WritesIn ":") nothing_more-WritesIn).at out)
    ∙ print_pairs-pairs bs (not colon) (unpadded hex b'0' (out ++ sign)) refl
    ∙ ap plain (
        append_assoc out sign (pairs (not colon) bs)
        ∙ append_assoc os.written (two_digits b) (sign ++ pairs (not colon) bs))

-- where the four bytes of an IPv4 address are
offset-is_ipv4 :
    (addr : List ℕ) → is_ipv4 addr ≡ true → (if length addr == 4 then 0 else 12) ≡ length addr - 4
unfolding is_ipv4
offset-is_ipv4 addr h = ground arith

four_bytes :
    (addr : List ℕ) (i : ℕ) (port : ℤ)
    → Writes
        (unsigned (octet (byte_at addr i))
          << text "."
          << unsigned (octet (byte_at addr (i + 1)))
          << text "."
          << unsigned (octet (byte_at addr (i + 2)))
          << text "."
          << unsigned (octet (byte_at addr (i + 3)))
          << text ":"
          << int port)
        (dotted addr i ++ said ":" ++ int_digits dec port)
unfolding dotted
four_bytes addr i port = search writes_rules depth 30

six_groups :
    (addr : List ℕ) (port : ℤ)
    → Writes
        (print_pairs false addr << set_base dec << setfill b' ' << int port)
        (groups addr ++ int_digits dec port)
unfolding ◌<<◌ restored
six_groups addr port = record {
  at = λ out.
      ap (int port) (
        print_pairs-pairs addr false (plain out) refl
        ∙ ap (λ t. plain (out ++ t)) (pairs-groups addr))
      ∙ (int-WritesIn port).at (out ++ groups addr)
      ∙ ap plain (append_assoc out (groups addr) (int_digits dec port));
}

pub print_address-Writes :
    (addr : List ℕ) (port : ℤ) → Writes (print_address addr port) (text_of_address addr port)
unfolding print_address text_of_address
print_address-Writes addr port = elim (Bool-cases (is_ipv4 addr)) [
  | inl four ↦ rw (four, offset-is_ipv4 addr four) (four_bytes addr (length addr - 4) port)
  | inr six ↦ rw six (six_groups addr port)
]
