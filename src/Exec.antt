-- ===== src/Exec.antt =====
-- C++ functions that change a state and may throw. What was written before a throw stays written,
-- so the state comes back beside every result.
use serf_cpp.Prelude.{Option, none, some}

-- `raised` is a thrown std::exception, `terminated` a call of std::terminate, `dangling` an access
-- through a pointer to an object that is gone or behind the end of a vector, and `stalled` a loop whose fuel ran out.
pub data Result {ℓ} (A : Type ℓ) : Type ℓ where
  ok : A → Result A
  raised terminated dangling stalled : Result A

abbrev pub Exec : Type 0 → Type 0 → Type 0
Exec S A = S → Result A × S

abbrev pub chain : {S A B : Type 0} → Result A → (A → Exec S B) → Exec S B
chain (ok a) f s = f a s
chain raised f s = (raised, s)
chain terminated f s = (terminated, s)
chain dangling f s = (dangling, s)
chain stalled f s = (stalled, s)

abbrev pub recover : {S A : Type 0} → Result A → Exec S A → Exec S A
recover raised h s = h s
recover r h s = (r, s)

module _ {S A : Type 0} where
  abbrev pub pure : A → Exec S A
  pure a s = (ok a, s)

  abbrev pub raise : Exec S A
  raise s = (raised, s)

  -- a conversion that throws
  abbrev pub or_raise : Option A → Exec S A
  or_raise none s = (raised, s)
  or_raise (some a) s = (ok a, s)

  abbrev pub gets : (S → A) → Exec S A
  gets f s = (ok (f s), s)

  -- `try { m } catch (std::exception &) { h }`
  unfoldable pub catch : Exec S A → Exec S A → Exec S A
  catch m h s = let (r, s') = m s in recover r h s'

module _ {S : Type 0} where
  abbrev pub modify : (S → S) → Exec S (Unit {0})
  modify f s = (ok tt, f s)

module _ {S A B : Type 0} where
  infixl 5 ◌>>=◌
  unfoldable pub ◌>>=◌ : Exec S A → (A → Exec S B) → Exec S B
  ◌>>=◌ m f s = chain (m s).0 f (m s).1

module _ {S B : Type 0} where
  infixl 5 ◌>>◌
  abbrev pub ◌>>◌ : Exec S (Unit {0}) → Exec S B → Exec S B
  m >> n = m >>= λ _. n
