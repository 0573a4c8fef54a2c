-- ===== src/Example/Split.antt =====
-- split, which calls getline with a delimiter until it fails.
pub mod Tokens
use Prim.Native.Char.{Char, code}
use serf_cpp.Prelude.{
  ℕ, zero, suc, String, Option, none, some, List, [], ◌∷◌, codes, length, ◌==◌, if◌then◌else◌,
  ◌>>=◌,
}

-- the text before the first delimiter, and the text after it, if there is one
unfoldable pub break_at : ℕ → String → String × Option String
break_at d String.[] = (String.[], none)
break_at d (String.◌∷◌ c s) =
    let rest = break_at d s in
    if code c == d then (String.[], some s) else (String.◌∷◌ c rest.0, rest.1)

-- what is left to read after a token that ended at a delimiter or at the end
abbrev pub left : Option String → String
left none = String.[]
left (some s) = s

-- getline(ss, tok, delimiter): it fails if there is nothing to read
unfoldable pub getline : ℕ → String → Option (String × String)
unfolding break_at
getline d String.[] = none
getline d (String.◌∷◌ c s) = let t = break_at d (String.◌∷◌ c s) in some (t.0, left t.1)

-- The loop; a token is at least a character or a delimiter long. `none` if the fuel runs out.
unfoldable pub split_loop : ℕ → ℕ → String → Option (List String)
unfolding getline
split_loop zero d s = none
split_loop (suc fuel) d s = elim (getline d s) [
  | none ↦ some []
  | some t ↦ split_loop fuel d t.1 >>= λ ts. some (t.0 ∷ ts)
]

unfoldable pub split : ℕ → String → Option (List String)
unfolding split_loop
split d s = split_loop (suc (length (codes s))) d s
