-- ===== src/Print/Hex.antt =====
-- Bytes in hexadecimal.
use serf_cpp.Prelude.{
  ℕ, suc, ◌/◌, ◌%◌, ◌<◌, ◌-◌, pos, true, List, [], ◌∷◌, ◌++◌, ◌≡◌, ap, arith, ltb, length,
  if◌then◌else◌, Bool-cases, inl, inr,
}
use serf_cpp.Print.{
  Ostream, ◌<<◌, hex, int, set_base, setfill, setw, octet, digit, digits, numeral, repeat,
}

-- the two digits of a byte
abbrev pub two_digits : ℕ → List ℕ
two_digits b = digit (octet b / 16) ∷ digit (octet b % 16) ∷ []

numeral-byte :
    (fuel n : ℕ)
    → n < 256
    → numeral (suc (suc fuel)) 16 n
      ≡ (if ltb n 16 then digit n ∷ [] else digit (n / 16) ∷ digit (n % 16) ∷ [])
numeral-byte fuel n h = elim (Bool-cases (ltb n 16)) [
  | inl low ↦ rw low
  | inr high ↦ rw (high, (let low : ltb (n / 16) 16 ≡ true = ground arith in low))
]

pub digits-byte :
    (n : ℕ)
    → n < 256
    → digits 16 n ≡ (if ltb n 16 then digit n ∷ [] else digit (n / 16) ∷ digit (n % 16) ∷ [])
unfolding digits
digits-byte n h = numeral-byte 62 n h

octet_small : (b : ℕ) → octet b < 256
octet_small b = omega arith

-- a byte of fewer than two digits gets a zero in front
padded_byte :
    (n : ℕ)
    → n < 256
    → repeat (2 - length (digits 16 n)) b'0' ++ digits 16 n ≡ digit (n / 16) ∷ digit (n % 16) ∷ []
padded_byte n h = elim (Bool-cases (ltb n 16)) [
  | inl low ↦
      rw (digits-byte n h, low)
        (let quotient : 0 ≡ n / 16 = ground arith in
          let remainder : n ≡ n % 16 = ground arith in
          λ i. digit (quotient i) ∷ digit (remainder i) ∷ [])
  | inr high ↦ rw (digits-byte n h, high)
]

-- the insertions for one byte of an IPv6 address, and of a buffer of printMsgPack
pub two_digits_lem :
    (b : ℕ) (os : Ostream)
    → (setw 2 << set_base hex << setfill b'0' << int (pos (octet b))) os ≡ record {
      format = record { base = hex; fill = b'0'; width = 0 };
      written = os.written ++ two_digits b;
    }
unfolding ◌<<◌ setw set_base setfill int
two_digits_lem b os =
    ap
      (λ t. record {
        format = record { base = hex; fill = b'0'; width = 0 };
        written = os.written ++ t;
      })
      (padded_byte (octet b) (octet_small b))
