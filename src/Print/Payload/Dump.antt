-- ===== src/Print/Payload/Dump.antt =====
-- The text of a payload: `0x`, the byte in hexadecimal, a blank, with a new row before each eighth
-- byte but the first.
use serf_cpp.Prelude.{
  ℕ, suc, ◌%◌, pos, not, ◌&&◌, ◌==◌, List, [], ◌∷◌, ◌++◌, ◌≡◌, refl, ap, ◌∙◌, if◌then◌else◌,
}
use mathlib.Core.List.{append_assoc}
use serf_cpp.Print.{
  Print, dec, hex, ◌<<◌, nothing_more, text, int, endl, set_base, setfill, setw, copyfmt, octet,
  digits, int_digits, formatted,
}
use serf_cpp.Print.Payload.{dump_bytes, dump_payload}
use serf_cpp.Print.Plain.{
  Writes, WritesIn, unpadded, said, newline, writes_rules, <<-WritesIn, nothing_more-WritesIn,
  int-WritesIn,
}

unfoldable pub text_of_bytes : ℕ → List ℕ → List ℕ
text_of_bytes count [] = []
text_of_bytes count (b ∷ bs) =
    (if not (count == 0) && (count % 8 == 0) then said "\n             " else [])
    ++ said "0x"
    ++ digits 16 (octet b)
    ++ said " "
    ++ text_of_bytes (suc count) bs

unfoldable pub text_of_payload : List ℕ → List ℕ
unfolding text_of_bytes
text_of_payload p = text_of_bytes 0 p ++ newline

byte-WritesIn : (b : ℕ) → WritesIn hex b'0' (int (pos b)) (digits 16 b)
unfolding int_digits
byte-WritesIn b = record { at = (int-WritesIn (pos b)).at }

dump_bytes-WritesIn :
    (bs : List ℕ) (count : ℕ) → WritesIn hex b'0' (dump_bytes count bs) (text_of_bytes count bs)
unfolding dump_bytes text_of_bytes
dump_bytes-WritesIn [] count = nothing_more-WritesIn
dump_bytes-WritesIn (b ∷ bs) count =
    <<-WritesIn (search (writes_rules, byte-WritesIn) depth 12) (dump_bytes-WritesIn bs (suc count))

-- the width that is set before the loop is gone with the first insertion, which fills it
first_width :
    (b : ℕ) (bs out : List ℕ)
    → dump_bytes 0
        (b ∷ bs)
        (record (unpadded hex b'0' out) { format = record { base = hex; fill = b'0'; width = 2 } })
      ≡ dump_bytes 0 (b ∷ bs) (unpadded hex b'0' out)
unfolding dump_bytes ◌<<◌ text formatted nothing_more
first_width b bs out = refl

pub dump_payload-Writes : (p : List ℕ) → Writes (dump_payload p) (text_of_payload p)
unfolding dump_payload text_of_payload dump_bytes text_of_bytes ◌<<◌ set_base setfill setw copyfmt
    endl newline nothing_more
dump_payload-Writes [] = record { at = λ out. refl }
dump_payload-Writes (b ∷ bs) = record {
  at = λ out.
      let restore : Print = copyfmt (unpadded dec b' ' out).format << endl in
      ap restore (first_width b bs out ∙ (dump_bytes-WritesIn (b ∷ bs) 0).at out)
      ∙ ap (unpadded dec b' ') (append_assoc out (text_of_bytes 0 (b ∷ bs)) newline);
}
