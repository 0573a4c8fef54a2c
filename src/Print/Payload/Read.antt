-- ===== src/Print/Payload/Read.antt =====
-- Reading a dump of a payload, and printMsgPack.
use serf_cpp.Prelude.{
  ℕ, suc, ◌+◌, ◌*◌, ◌-◌, ◌/◌, ◌%◌, ◌<◌, false, not, ◌&&◌, Option, none, some, List, [], ◌∷◌, ◌++◌,
  map, ◌≡◌, refl, ap, ◌∙◌, arith, ltb, ◌==◌, if◌then◌else◌, Bool-cases, inl, inr,
}
use mathlib.Core.List.{append_assoc, append-nil}
use serf_cpp.Print.{octet, digit, digits}
use serf_cpp.Print.Hex.{digits-byte}
use serf_cpp.Print.Plain.{said, newline, plain}
use serf_cpp.Print.Payload.Dump.{text_of_bytes, text_of_payload, dump_payload-Writes}
use serf_cpp.Print.Payload.{dump_payload}

-- the value of a hexadecimal digit
abbrev digit_value : ℕ → ℕ
digit_value c = if ltb c b'a' then c - b'0' else c - b'a' + 10

-- Reads the numbers between an `x` and the next blank.
unfoldable pub read_dump : Option ℕ → List ℕ → List ℕ
read_dump none [] = []
read_dump none (c ∷ cs) =
    let start = read_dump (some 0) cs in
    let skip = read_dump none cs in if c == b'x' then start else skip
read_dump (some v) [] = []
read_dump (some v) (c ∷ cs) =
    let more = read_dump (some (16 * v + digit_value c)) cs in
    let next = v ∷ read_dump none cs in if c == b' ' then next else more

read_digit :
    (v d : ℕ) (cs : List ℕ)
    → d < 16
    → read_dump (some v) (digit d ∷ cs) ≡ read_dump (some (16 * v + d)) cs
unfolding read_dump
read_digit v d cs h =
    let other : (digit d == b' ') ≡ false = ground arith in
    let value : digit_value (digit d) ≡ d = ground arith in rw (other, value)

read_byte :
    (b : ℕ) (cs : List ℕ)
    → b < 256
    → read_dump (some 0) (digits 16 b ++ b' ' ∷ cs) ≡ b ∷ read_dump none cs
unfolding read_dump
read_byte b cs h = elim (Bool-cases (ltb b 16)) [
  | inl low ↦
      rw (digits-byte b h, low)
        (read_digit 0 b (b' ' ∷ cs) (ground arith)
          ∙ ap (λ n. n ∷ read_dump none cs) (let e : 16 * 0 + b ≡ b = omega arith in e))
  | inr high ↦
      rw (digits-byte b h, high)
        (read_digit 0 (b / 16) (digit (b % 16) ∷ b' ' ∷ cs) (omega arith)
          ∙ read_digit (16 * 0 + b / 16) (b % 16) (b' ' ∷ cs) (omega arith)
          ∙ ap (λ n. n ∷ read_dump none cs)
              (let e : 16 * (16 * 0 + b / 16) + b % 16 ≡ b = omega arith in e))
]

-- the digits of a byte, the blank, and what follows
after_x :
    (b : ℕ) (t cs : List ℕ)
    → read_dump (some 0) (digits 16 (octet b) ++ said " " ++ t ++ cs)
      ≡ octet b ∷ read_dump none (t ++ cs)
unfolding said
after_x b t cs =
    ap (read_dump (some 0)) (
      append_assoc (digits 16 (octet b) ++ b' ' ∷ []) t cs
      ∙ append_assoc (digits 16 (octet b)) (b' ' ∷ []) (t ++ cs))
    ∙ read_byte (octet b) (t ++ cs) (omega arith)

read_dump-text_of_bytes :
    (p : List ℕ) (count : ℕ) (cs : List ℕ)
    → read_dump none (text_of_bytes count p ++ cs) ≡ map octet p ++ read_dump none cs
unfolding text_of_bytes read_dump said
read_dump-text_of_bytes [] count cs = refl
read_dump-text_of_bytes (b ∷ bs) count cs =
    elim (Bool-cases (not (count == 0) && (count % 8 == 0))) [
      | inl new_row ↦ rw new_row (
          after_x b (text_of_bytes (suc count) bs) cs
          ∙ ap (◌∷◌ (octet b)) (read_dump-text_of_bytes bs (suc count) cs))
      | inr same_row ↦ rw same_row (
          after_x b (text_of_bytes (suc count) bs) cs
          ∙ ap (◌∷◌ (octet b)) (read_dump-text_of_bytes bs (suc count) cs))
    ]

read_dump-text_of_payload : (p : List ℕ) → read_dump none (text_of_payload p) ≡ map octet p
unfolding text_of_payload read_dump newline
read_dump-text_of_payload p = read_dump-text_of_bytes p 0 (b'\n' ∷ []) ∙ append-nil (map octet p)

-- What dumpPayload writes on a new stream can be read back: between an `x` and a blank it shows each
-- byte of the payload, in order, as a number below 256.
pub read_dump-dump_payload :
    (p : List ℕ) → read_dump none (dump_payload p (plain [])).written ≡ map octet p
read_dump-dump_payload p = rw ((dump_payload-Writes p).at []) (read_dump-text_of_payload p)
