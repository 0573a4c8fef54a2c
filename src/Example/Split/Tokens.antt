-- ===== src/Example/Split/Tokens.antt =====
-- The words of a text, without getline, and their agreement with the loop.
use Prim.Native.Char.{Char, code}
use Prim.Native.String.{◌++◌ as ◌<>◌}
use text.Mathlib.TextLemmas.{nil-append, cons-append, cons-ne-nil}
use serf_cpp.Prelude.{
  ℕ, zero, suc, ◌≤◌, ◌<◌, String, true, false, some, List, [], ◌∷◌, ◌≡◌, ◌≢◌, refl, ap, sym, ◌∙◌,
  arith, codes, length, ◌==◌, if◌then◌else◌, Bool-cases, inl, inr,
}
use serf_cpp.Example.Split.{break_at, left, getline, split_loop, split}

-- a character in front of the first word
abbrev onto : Char → List String → List String
onto c [] = String.◌∷◌ c String.[] ∷ []
onto c (t ∷ ts) = String.◌∷◌ c t ∷ ts

-- The words between the delimiters; a delimiter at the end adds no empty word.
unfoldable pub tokens : ℕ → String → List String
tokens d String.[] = []
tokens d (String.◌∷◌ c s) =
    let rest = tokens d s in if code c == d then String.[] ∷ rest else onto c rest

-- what is left is shorter than what was broken
left-le : (d : ℕ) (s : String) → length (codes (left (break_at d s).1)) ≤ length (codes s)
unfolding break_at
left-le d String.[] = omega arith
left-le d (String.◌∷◌ c s) = elim (Bool-cases (code c == d)) [
  | inl yes' ↦ rw yes' (omega arith)
  | inr no' ↦ rw no' (omega (arith, left-le d s))
]

left-lt :
    (d : ℕ) (c : Char) (s : String)
    → length (codes (left (break_at d (String.◌∷◌ c s)).1)) < suc (length (codes s))
unfolding break_at
left-lt d c s = elim (Bool-cases (code c == d)) [
  | inl yes' ↦ rw yes' (omega arith)
  | inr no' ↦ rw no' (omega (arith, left-le d s))
]

-- the first word, and the words of what is left
tokens-break_at :
    (d : ℕ) (c : Char) (s : String)
    → tokens d (String.◌∷◌ c s)
      ≡ (break_at d (String.◌∷◌ c s)).0 ∷ tokens d (left (break_at d (String.◌∷◌ c s)).1)
unfolding tokens break_at
tokens-break_at d c String.[] = elim (Bool-cases (code c == d)) [
  | inl yes' ↦ rw yes'
  | inr no' ↦ rw no'
]
tokens-break_at d c (String.◌∷◌ e s) = elim (Bool-cases (code c == d)) [
  | inl yes' ↦ rw yes'
  | inr no' ↦ rw no' (ap (onto c) (tokens-break_at d e s))
]

split_loop-tokens :
    (fuel d : ℕ) (s : String) → length (codes s) < fuel → split_loop fuel d s ≡ some (tokens d s)
unfolding split_loop getline tokens
split_loop-tokens zero d s h = elim h [ ]
split_loop-tokens (suc fuel) d String.[] h = refl
split_loop-tokens (suc fuel) d (String.◌∷◌ c s) h =
    rw
      (split_loop-tokens fuel d (left (break_at d (String.◌∷◌ c s)).1)
        (omega (arith, left-lt d c s)))
      (ap some (sym (tokens-break_at d c s)))

-- The loop of getline calls ends, and finds the words of the text.
pub split-tokens : (d : ℕ) (s : String) → split d s ≡ some (tokens d s)
unfolding split
split-tokens d s = split_loop-tokens (suc (length (codes s))) d s (omega arith)

-- a word that holds no delimiter
abbrev pub IsWord : ℕ → String → Type 0
IsWord d String.[] = Unit
IsWord d (String.◌∷◌ c s) = (code c ≢ d) × IsWord d s

-- words to be joined: the last one is not empty
abbrev pub AreWords : ℕ → List String → Type 0
AreWords d [] = Unit
AreWords d (t ∷ []) = IsWord d t × (t ≢ String.[])
AreWords d (t ∷ u ∷ ts) = IsWord d t × AreWords d (u ∷ ts)

unfoldable pub joined : Char → List String → String
joined sep [] = String.[]
joined sep (t ∷ []) = t
joined sep (t ∷ u ∷ ts) = t <> String.◌∷◌ sep (joined sep (u ∷ ts))

tokens-first :
    (sep : Char) (t s : String)
    → IsWord (code sep) t
    → tokens (code sep) (t <> String.◌∷◌ sep s) ≡ t ∷ tokens (code sep) s
unfolding tokens
tokens-first sep String.[] s h =
    let same : (code sep == code sep) ≡ true = ground arith in
    ap (tokens (code sep)) (nil-append (String.◌∷◌ sep s)) ∙ rw same
tokens-first sep (String.◌∷◌ c t) s h =
    let other : (code c == code sep) ≡ false = ground (arith, h.0) in
    ap (tokens (code sep)) (cons-append c t (String.◌∷◌ sep s))
    ∙ rw other (ap (onto c) (tokens-first sep t s h.1))

tokens-last : (d : ℕ) (t : String) → IsWord d t → t ≢ String.[] → tokens d t ≡ t ∷ []
unfolding tokens
tokens-last d String.[] h ne = absurd (ne refl)
tokens-last d (String.◌∷◌ c String.[]) h ne =
    let other : (code c == d) ≡ false = ground (arith, h.0) in rw other
tokens-last d (String.◌∷◌ c (String.◌∷◌ e t)) h ne =
    let other : (code c == d) ≡ false = ground (arith, h.0) in
    rw other (ap (onto c) (tokens-last d (String.◌∷◌ e t) h.1 (λ q. cons-ne-nil e t q)))

tokens-joined :
    (sep : Char) (ts : List String)
    → AreWords (code sep) ts
    → tokens (code sep) (joined sep ts) ≡ ts
unfolding joined tokens
tokens-joined sep [] h = refl
tokens-joined sep (t ∷ []) h = tokens-last (code sep) t h.0 h.1
tokens-joined sep (t ∷ u ∷ ts) h =
    tokens-first sep t (joined sep (u ∷ ts)) h.0 ∙ ap (◌∷◌ t) (tokens-joined sep (u ∷ ts) h.1)

-- Words that hold no delimiter, the last of which is not empty, are found again in the text that
-- joins them.
pub split-joined :
    (sep : Char) (ts : List String)
    → AreWords (code sep) ts
    → split (code sep) (joined sep ts) ≡ some ts
split-joined sep ts h = split-tokens (code sep) (joined sep ts) ∙ ap some (tokens-joined sep ts h)
