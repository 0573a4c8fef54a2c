-- ===== src/Print/Members/Mapped.antt =====
-- Which addresses are shown in the same way.
use serf_cpp.Prelude.{
  ℕ, zero, suc, ◌+◌, ℤ, List, [], ◌∷◌, ◌++◌, ◌≡◌, ap, sym, ◌∙◌, arith, length, length-append,
}
use serf_cpp.Print.Members.{byte_at, is_ipv4, print_address}
use serf_cpp.Print.Plain.{plain}
use serf_cpp.Print.Members.Address.{text_of_address, dotted, print_address-Writes}

byte_at-append : (p q : List ℕ) (j i : ℕ) → j ≡ length p + i → byte_at (p ++ q) j ≡ byte_at q i
byte_at-append [] q j i e = ap (byte_at q) (omega (arith, e))
byte_at-append (x ∷ p) q zero i e = absurd (omega (arith, e))
byte_at-append (x ∷ p) q (suc j) i e = byte_at-append p q j i (omega (arith, e))

text_of_address-mapped :
    (between : List ℕ) (a b c d : ℕ) (port : ℤ)
    → length between ≡ 11
    → text_of_address (0 ∷ between ++ a ∷ b ∷ c ∷ d ∷ []) port
      ≡ text_of_address (a ∷ b ∷ c ∷ d ∷ []) port
unfolding text_of_address is_ipv4 dotted
text_of_address-mapped between a b c d port h =
    let q : List ℕ = a ∷ b ∷ c ∷ d ∷ [] in
    let size : length (between ++ q) ≡ 15 = omega (arith, length-append between q, h) in
    rw (
      size,
      byte_at-append between q 11 0 (omega (arith, h)),
      byte_at-append between q 12 1 (omega (arith, h)),
      byte_at-append between q 13 2 (omega (arith, h)),
      byte_at-append between q 14 3 (omega (arith, h)),
    )

-- On a stream in the format that streams start with, operator<< shows a member whose address has 16
-- bytes and begins with a zero byte as it shows the member with the IPv4 address of the last four
-- bytes, whatever the eleven bytes between are.
pub print_address-mapped :
    (between : List ℕ) (a b c d : ℕ) (port : ℤ) (out : List ℕ)
    → length between ≡ 11
    → print_address (0 ∷ between ++ a ∷ b ∷ c ∷ d ∷ []) port (plain out)
      ≡ print_address (a ∷ b ∷ c ∷ d ∷ []) port (plain out)
print_address-mapped between a b c d port out h =
    (print_address-Writes (0 ∷ between ++ a ∷ b ∷ c ∷ d ∷ []) port).at out
    ∙ ap (λ t. plain (out ++ t)) (text_of_address-mapped between a b c d port h)
    ∙ sym ((print_address-Writes (a ∷ b ∷ c ∷ d ∷ []) port).at out)
