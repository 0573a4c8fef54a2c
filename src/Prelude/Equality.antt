-- ===== src/Prelude/Equality.antt =====
-- Boolean tests that decide equality.
use mathlib.Core.Path.{◌≡◌, refl, ap, subst, sym}
use mathlib.Core.Logic.{◌↔◌}
use mathlib.Core.Bool.{Bool, true, false, ◌&&◌}
use mathlib.Core.List.{List, [], ◌∷◌}
use text.Mathlib.Text.{◌==◌ as str_eq}
use text.Mathlib.TextEquality.{eq_iff as str_eq_iff}
use serf_cpp.Prelude.Tests.{◌==◌, ==_iff}
use serf_cpp.Prelude.Int.{pos, negsuc, beq_ℤ}
use serf_cpp.Prelude.Compare.{beq_bool, beq_list, beq_pair}

abbrev pub Decides {ℓ} : {A : Type ℓ} → (A → A → Bool) → Type ℓ
Decides {A = A} f = (a b : A) → (f a b ≡ true) ↔ (a ≡ b)

pub &&_true : (x y : Bool) → (x && y) ≡ true → (x ≡ true) × (y ≡ true)
&&_true true y e = (refl, e)
&&_true false y e = cc

pub true_&& : (x y : Bool) → x ≡ true → y ≡ true → (x && y) ≡ true
true_&& true y e f = f
true_&& false y e f = cc

pub beq_nat-Decides : Decides ◌==◌
beq_nat-Decides = ==_iff

pub str_eq-Decides : Decides str_eq
str_eq-Decides = str_eq_iff

pub beq_bool-Decides : Decides beq_bool
beq_bool-Decides true b = (λ e. sym e, λ e. sym e)
beq_bool-Decides false true = (λ e. cc, λ e. cc)
beq_bool-Decides false false = (λ e. refl, λ e. refl)

pub beq_ℤ-Decides : Decides beq_ℤ
beq_ℤ-Decides (pos a) (pos b) = (λ e. ap pos ((==_iff a b).0 e), λ e. (==_iff a b).1 (cc))
beq_ℤ-Decides (negsuc a) (negsuc b) = (λ e. ap negsuc ((==_iff a b).0 e), λ e. (==_iff a b).1 (cc))
beq_ℤ-Decides (pos a) (negsuc b) = (λ e. cc, λ e. cc)
beq_ℤ-Decides (negsuc a) (pos b) = (λ e. cc, λ e. cc)

module _ {ℓ} {A : Type ℓ} where
  pub Decides-refl : (f : A → A → Bool) → Decides f → (a : A) → f a a ≡ true
  Decides-refl f d a = (d a a).1 refl

  pub beq_list-Decides : (f : A → A → Bool) → Decides f → Decides (beq_list f)
  beq_list-Decides f d xs ys = (same xs ys, λ e. subst (λ zs. beq_list f xs zs ≡ true) e (self xs))
    where
      same : (xs ys : List A) → beq_list f xs ys ≡ true → xs ≡ ys
      same [] [] e = refl
      same [] (y ∷ ys) e = cc
      same (x ∷ xs) [] e = cc
      same (x ∷ xs) (y ∷ ys) e =
          let (h, t) = &&_true (f x y) (beq_list f xs ys) e in λ i. (d x y).0 h i ∷ same xs ys t i

      self : (xs : List A) → beq_list f xs xs ≡ true
      self [] = refl
      self (x ∷ xs) = true_&& (f x x) (beq_list f xs xs) (Decides-refl f d x) (self xs)

pub beq_pair-Decides :
    {A B : Type 0} (f : A → A → Bool) (g : B → B → Bool)
    → Decides f
    → Decides g
    → Decides (beq_pair f g)
beq_pair-Decides f g d e p q = (
  λ h.
      (let (l, r) = &&_true (f p.0 q.0) (g p.1 q.1) h in
        λ i. ((d p.0 q.0).0 l i, (e p.1 q.1).0 r i)),
  λ h.
      true_&& (f p.0 q.0) (g p.1 q.1) ((d p.0 q.0).1 (ap (λ x. x.0) h))
        ((e p.1 q.1).1 (ap (λ x. x.1) h)),
)

-- a test that is sound and that every value passes against itself
pub sound-Decides :
    {A : Type 0} (f : A → A → Bool)
    → ((a b : A) → f a b ≡ true → a ≡ b)
    → ((a : A) → f a a ≡ true)
    → Decides f
sound-Decides f sound self a b = (sound a b, λ e. subst (λ z. f a z ≡ true) e (self a))
