-- ===== src/Print/Plain.antt =====
-- Streams in the format that they are created with: decimal, padded with blanks, no width pending.
use serf_cpp.Prelude.{
  ℕ, ◌-◌, ℤ, String, Bool, true, false, List, [], ◌∷◌, ◌++◌, ◌≡◌, refl, ap, sym, ◌∙◌, codes,
  if◌then◌else◌, length,
}
use mathlib.Core.List.{append_assoc, append-nil}
use Prim.Native.String.{len}
use native.Mathlib.Nat.{zero-sub}
use serf_cpp.Print.{
  Base, radix, Ostream, Print, ◌<<◌, nothing_more, dec, text, unsigned, int, bool, endl, each,
  digits, int_digits, repeat, setw, formatted,
}

-- a stream with no width pending
abbrev pub unpadded : Base → ℕ → List ℕ → Ostream
unpadded base fill out = record {
  format = record { base = base; fill = fill; width = 0 };
  written = out;
}

abbrev pub plain : List ℕ → Ostream
plain = unpadded dec b' '

-- On such a stream, p appends t, and leaves the format as it is.
pub record WritesIn (base : Base) (fill : ℕ) (p : Print) (t : List ℕ) : Type 0 where
  pub at : (out : List ℕ) → p (unpadded base fill out) ≡ unpadded base fill (out ++ t)

abbrev pub Writes : Print → List ℕ → Type 0
Writes = WritesIn dec b' '

unfoldable pub lines : {A : Type 0} → (A → List ℕ) → List A → List ℕ
lines f [] = []
lines f (x ∷ xs) = f x ++ lines f xs

-- a text in a field of n characters
-- the code points of a text
unfoldable pub said : String → List ℕ
said s = codes s

unfoldable pub newline : List ℕ
newline = b'\n' ∷ []

unfoldable pub padded : ℕ → String → List ℕ
padded n s = repeat (n - len s) b' ' ++ codes s

module _ {base : Base} {fill : ℕ} where
  formatted-WritesIn : (cs : List ℕ) (n : ℕ) → WritesIn base fill (formatted cs n) cs
  unfolding formatted
  formatted-WritesIn cs n = record {
    at = λ out. ap (λ k. unpadded base fill (out ++ (repeat k fill ++ cs))) (zero-sub n);
  }

  pub text-WritesIn : (s : String) → WritesIn base fill (text s) (said s)
  unfolding text said
  text-WritesIn s = record { at = (formatted-WritesIn (codes s) (len s)).at }

  unsigned-WritesIn : (n : ℕ) → WritesIn base fill (unsigned n) (digits (radix base) n)
  unfolding unsigned
  unsigned-WritesIn n = record {
    at = (formatted-WritesIn (digits (radix base) n) (length (digits (radix base) n))).at;
  }

  pub int-WritesIn : (z : ℤ) → WritesIn base fill (int z) (int_digits base z)
  unfolding int
  int-WritesIn z = record {
    at = (formatted-WritesIn (int_digits base z) (length (int_digits base z))).at;
  }

  bool-WritesIn :
      (b : Bool) → WritesIn base fill (bool b) (digits (radix base) (if b then 1 else 0))
  unfolding bool
  bool-WritesIn b = record { at = (unsigned-WritesIn (if b then 1 else 0)).at }

  pub endl-WritesIn : WritesIn base fill endl newline
  unfolding endl newline
  endl-WritesIn = record { at = λ out. refl }

  pub nothing_more-WritesIn : WritesIn base fill nothing_more []
  unfolding nothing_more
  nothing_more-WritesIn = record { at = λ out. ap (unpadded base fill) (sym (append-nil out)) }

  pub <<-WritesIn :
      {p q : Print} {s t : List ℕ}
      → WritesIn base fill p s
      → WritesIn base fill q t
      → WritesIn base fill (p << q) (s ++ t)
  unfolding ◌<<◌
  <<-WritesIn {q = q} {s = s} {t = t} h k = record {
    at = λ out. ap q (h.at out) ∙ k.at (out ++ s) ∙ ap (unpadded base fill) (append_assoc out s t);
  }

  pub each-WritesIn :
      {A : Type 0} {f : A → Print} {g : A → List ℕ}
      → ((x : A) → WritesIn base fill (f x) (g x))
      → (xs : List A) → WritesIn base fill (each f xs) (lines g xs)
  unfolding each lines ◌<<◌
  each-WritesIn h [] = record { at = λ out. ap (unpadded base fill) (sym (append-nil out)) }
  each-WritesIn {f = f} {g = g} h (x ∷ xs) = record {
    at = (<<-WritesIn (h x) (each-WritesIn {f = f} {g = g} h xs)).at;
  }

  pub if-WritesIn :
      {p q : Print} {s t : List ℕ} (b : Bool)
      → WritesIn base fill p s
      → WritesIn base fill q t
      → WritesIn base fill (if b then p else q) (if b then s else t)
  if-WritesIn true h k = h
  if-WritesIn false h k = k

pub decimal-Writes : (n : ℕ) → Writes (unsigned n) (digits 10 n)
decimal-Writes n = record { at = (unsigned-WritesIn n).at }

pub bool-Writes : (b : Bool) → Writes (bool b) (digits 10 (if b then 1 else 0))
bool-Writes b = record { at = (bool-WritesIn b).at }

pub padded-Writes : (n : ℕ) (s : String) → Writes (setw n << text s) (padded n s)
unfolding padded ◌<<◌ setw text formatted
padded-Writes n s = record { at = λ out. refl }

pub ruleset writes_rules = (
  text-WritesIn, decimal-Writes, int-WritesIn, endl-WritesIn, nothing_more-WritesIn, <<-WritesIn,
  each-WritesIn, if-WritesIn,
)
