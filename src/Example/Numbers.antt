-- ===== src/Example/Numbers.antt =====
-- strtoull(s, nullptr, 10) of the C library, on a uint64_t: leading blanks, a sign, then digits up to
-- the first other character; too large a number gives the largest.
use serf_cpp.Prelude.{
  ℕ, ◌+◌, ◌-◌, ◌*◌, ◌%◌, ◌^◌, Bool, ◌&&◌, ◌||◌, List, [], ◌∷◌, ltb, leb, ◌==◌, if◌then◌else◌,
}

abbrev is_digit : ℕ → Bool
is_digit c = leb b'0' c && leb c b'9'

abbrev is_space : ℕ → Bool
is_space c = (c == b' ') || (leb 9 c && leb c 13)

unfoldable pub leading_number : ℕ → List ℕ → ℕ
leading_number n [] = n
leading_number n (c ∷ cs) =
    let rest = leading_number (10 * n + (c - b'0')) cs in if is_digit c then rest else n

abbrev limited : ℕ → ℕ
limited n = if ltb n (2 ^ 64) then n else 2 ^ 64 - 1

-- the negated number wraps around, and a number that is too large is not negated
abbrev negated : ℕ → ℕ
negated n = if ltb n (2 ^ 64) then (2 ^ 64 - n) % 2 ^ 64 else 2 ^ 64 - 1

unfoldable pub signed_number : List ℕ → ℕ
unfolding leading_number
signed_number [] = 0
signed_number (c ∷ cs) =
    if c == b'-'
    then negated (leading_number 0 cs)
    else if c == b'+'
    then limited (leading_number 0 cs)
    else limited (leading_number 0 (c ∷ cs))

unfoldable pub strtoull : List ℕ → ℕ
unfolding signed_number
strtoull [] = 0
strtoull (c ∷ cs) = let rest = strtoull cs in if is_space c then rest else signed_number (c ∷ cs)
