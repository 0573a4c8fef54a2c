-- ===== src/Print.antt =====
-- What the insertion operators of src/SerfMsgStructs.cpp use of std::ostream. The text is the list of
-- the code points written. The format is what the operators change: the base of integers, the fill
-- character, and the width, which only the next formatted insertion sees.
pub mod Payload
pub mod Requests
pub mod Responses
pub mod Members
pub mod Records
pub mod Plain
pub mod Hex
pub mod Family
use serf_cpp.Prelude.{
  ℕ, zero, suc, ◌+◌, ◌-◌, ◌/◌, ◌%◌, ◌^◌, ℤ, pos, negsuc, String, Bool, true, false, List, [], ◌∷◌,
  ◌++◌, codes, length, ltb, if◌then◌else◌,
}
use Prim.Native.String.{len}

pub data Base : Type 0 where
  dec hex : Base

pub record Format : Type 0 where
  pub base : Base
  pub fill : ℕ
  pub width : ℕ

pub record Ostream : Type 0 where
  pub format : Format
  pub written : List ℕ

abbrev pub Print : Type 0
Print = Ostream → Ostream

-- one insertion after the other
infixl 4 ◌<<◌
unfoldable pub ◌<<◌ : Print → Print → Print
◌<<◌ p q os = q (p os)

unfoldable pub nothing_more : Print
nothing_more os = os

abbrev pub repeat : ℕ → ℕ → List ℕ
repeat zero c = []
repeat (suc n) c = c ∷ repeat n c

abbrev pub radix : Base → ℕ
radix dec = 10
radix hex = 16

-- the code point of a digit; hexadecimal digits are in lower case
abbrev pub digit : ℕ → ℕ
digit n = if ltb n 10 then b'0' + n else b'a' + (n - 10)

-- The numeral of n in base b, of at most `fuel` digits. The numbers printed have at most 64 bits, so
-- 64 is enough in either base.
abbrev pub numeral : ℕ → ℕ → ℕ → List ℕ
numeral zero b n = []
numeral (suc fuel) b n =
    let rest = numeral fuel b (n / b) in
    if ltb n b then digit n ∷ [] else rest ++ digit (n % b) ∷ []

unfoldable pub digits : ℕ → ℕ → List ℕ
digits b n = numeral 64 b n

-- an int in decimal has a sign, in hexadecimal it is a 32-bit word
unfoldable pub int_digits : Base → ℤ → List ℕ
unfolding digits
int_digits b (pos n) = digits (radix b) n
int_digits dec (negsuc n) = b'-' ∷ digits 10 (suc n)
int_digits hex (negsuc n) = digits 16 (2 ^ 32 - suc n)

-- a formatted insertion of these code points, which are n bytes, padded on the left
unfoldable pub formatted : List ℕ → ℕ → Print
formatted cs n os = record os {
  format = record os.format { width = 0 };
  written = os.written ++ (repeat (os.format.width - n) os.format.fill ++ cs);
}

unfoldable pub text : String → Print
unfolding formatted
text s = formatted (codes s) (len s)

unfoldable pub unsigned : ℕ → Print
unfolding digits formatted
unsigned n os = let ds = digits (radix os.format.base) n in formatted ds (length ds) os

unfoldable pub int : ℤ → Print
unfolding int_digits formatted
int z os = let ds = int_digits os.format.base z in formatted ds (length ds) os

unfoldable pub bool : Bool → Print
unfolding unsigned
bool b = unsigned (if b then 1 else 0)

-- std::endl does not look at the width
unfoldable pub endl : Print
endl os = record os { written = os.written ++ b'\n' ∷ [] }

unfoldable pub set_base : Base → Print
set_base b os = record os { format = record os.format { base = b } }

unfoldable pub setfill : ℕ → Print
setfill c os = record os { format = record os.format { fill = c } }

unfoldable pub setw : ℕ → Print
setw n os = record os { format = record os.format { width = n } }

unfoldable pub copyfmt : Format → Print
copyfmt f os = record os { format = f }

-- for (auto i = c.begin(); i != c.end(); ++i) { … }
unfoldable pub each : {A : Type 0} → (A → Print) → List A → Print
each f [] os = os
each f (x ∷ xs) os = each f xs (f x os)

-- a char & 0xff
abbrev pub octet : ℕ → ℕ
octet b = b % 256
