-- ===== src/Prelude/Options.antt =====
-- Fallible code as `Option` with do blocks, and association lists keyed by text.
use Prim.Native.Nat.{ℕ, ◌+◌, ◌/◌, ◌%◌, compare, Ordering}
use Prim.Native.Char.{code}
use Prim.Native.String.{String}
use mathlib.Core.Path.{◌≡◌, refl}
use mathlib.Core.Bool.{Bool, true, false, not, ◌&&◌}
use mathlib.Core.Option.{Option, none, some}
use mathlib.Core.List.{List, [], ◌∷◌, ◌++◌, map}
use text.Mathlib.Text.{◌==◌}
use serf_cpp.Prelude.Tests.{ltb, if◌then◌else◌}

infixl 5 ◌>>=◌
abbrev pub ◌>>=◌ {ℓ κ} : {A : Type ℓ} {B : Type κ} → Option A → (A → Option B) → Option B
none >>= f = none
some a >>= f = f a

module _ {ℓ} {V : Type ℓ} where
  abbrev pub lookup : String → List (String × V) → Option V
  lookup k [] = none
  lookup k ((j, v) ∷ m) = if j == k then some v else lookup k m

  -- no entry has the key
  abbrev pub lacks : String → List (String × V) → Bool
  lacks k [] = true
  lacks k ((j, v) ∷ m) = not (j == k) && lacks k m

  abbrev pub distinct : List (String × V) → Bool
  distinct [] = true
  distinct ((j, v) ∷ m) = lacks j m && distinct m

abbrev pub All {ℓ κ} : {A : Type ℓ} → (A → Type κ) → List A → Type κ
All P [] = Unit
All P (x ∷ xs) = P x × All P xs

-- the code points of a text
abbrev pub codes : String → List ℕ
codes String.[] = []
codes (String.◌∷◌ c s) = code c ∷ codes s

-- the UTF-8 of a code point
abbrev pub utf8 : ℕ → List ℕ
utf8 c =
    if ltb c 0x80
    then c ∷ []
    else if ltb c 0x800
    then (0xc0 + c / 64) ∷ (0x80 + c % 64) ∷ []
    else if ltb c 0x10000
    then (0xe0 + c / 4096) ∷ (0x80 + c / 64 % 64) ∷ (0x80 + c % 64) ∷ []
    else (0xf0 + c / 262144) ∷ (0x80 + c / 4096 % 64) ∷ (0x80 + c / 64 % 64) ∷ (0x80 + c % 64) ∷ []

-- the chars of a std::string
abbrev pub bytes : String → List ℕ
bytes String.[] = []
bytes (String.◌∷◌ c s) = utf8 (code c) ++ bytes s

-- the strict lexicographic order of texts, which is the order of `std::less<std::string>`
abbrev pub precedes : List ℕ → List ℕ → Bool
precedes [] [] = false
precedes [] (b ∷ bs) = true
precedes (a ∷ as') [] = false
precedes (a ∷ as') (b ∷ bs) =
    let rest = precedes as' bs in
    elim (compare a b) [ Ordering.lt ↦ true | Ordering.eq ↦ rest | Ordering.gt ↦ false ]

-- The sequence that iterating over a `std::map` with text keys yields: strictly ascending keys.
abbrev pub ascending {ℓ} : {V : Type ℓ} → List (String × V) → Bool
ascending [] = true
ascending ((j, v) ∷ []) = true
ascending ((j, v) ∷ (k, w) ∷ m) = precedes (codes j) (codes k) && ascending ((k, w) ∷ m)

module _ {ℓ κ} {A : Type ℓ} {B : Type κ} where
  abbrev pub map_option : (A → Option B) → List A → Option (List B)
  map_option f [] = some []
  map_option f (x ∷ xs) = f x >>= λ y. map_option f xs >>= λ ys. some (y ∷ ys)

-- A conversion that undoes a packing undoes it element by element.
pub map_option-map :
    {A B : Type 0} (P : A → Type 0) (f : A → B) (g : B → Option A)
    → ((a : A) → P a → g (f a) ≡ some a)
    → (xs : List A) → All P xs
    → map_option g (map f xs) ≡ some xs
map_option-map P f g h [] all = refl
map_option-map P f g h (x ∷ xs) all = rw (h x all.0, map_option-map P f g h xs all.1)
