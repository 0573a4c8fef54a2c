-- ===== src/Prelude/Compare.antt =====
-- `operator==` of the standard types that the message structs hold.
use Prim.Native.Nat.{ℕ, ◌%◌, ◌^◌}
use mathlib.Core.Bool.{Bool, true, false, not, ◌&&◌, ◌||◌}
use mathlib.Core.List.{List, [], ◌∷◌}
use serf_cpp.Prelude.Tests.{◌==◌, ltb}

abbrev pub beq_bool : Bool → Bool → Bool
beq_bool true b = b
beq_bool false b = not b

module _ {ℓ} {A : Type ℓ} where
  abbrev pub beq_list : (A → A → Bool) → List A → List A → Bool
  beq_list eq [] [] = true
  beq_list eq [] (y ∷ ys) = false
  beq_list eq (x ∷ xs) [] = false
  beq_list eq (x ∷ xs) (y ∷ ys) = eq x y && beq_list eq xs ys

abbrev pub beq_pair : {A B : Type 0} → (A → A → Bool) → (B → B → Bool) → A × B → A × B → Bool
beq_pair eq eq' p q = eq p.0 q.0 && eq' p.1 q.1

-- A `double` is its 64-bit pattern: `magnitude` drops the sign, a NaN has more than infinity's bits.
abbrev pub magnitude : ℕ → ℕ
magnitude d = d % 2 ^ 63

abbrev pub is_nan : ℕ → Bool
is_nan d = ltb 0x7ff0000000000000 (magnitude d)

-- IEEE 754 equality: a NaN equals nothing, and the two zeros are equal.
abbrev pub beq_double : ℕ → ℕ → Bool
beq_double a b =
    not (is_nan a) && not (is_nan b) && (a == b || (magnitude a == 0 && magnitude b == 0))
