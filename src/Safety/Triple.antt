-- ===== src/Safety/Triple.antt =====
-- Partial-correctness triples for the functions on a World, and one rule for each way to build one.
use serf_cpp.Prelude.{
  ◌≤◌, Bool, true, false, Option, none, some, List, ◌≡◌, refl, arith, if◌then◌else◌,
}
use serf_cpp.Msgpack.{Msgpack, Next, got, dry, bad}
use serf_cpp.Exec.{
  Result, ok, raised, terminated, dangling, stalled, pure, or_raise, catch, chain, recover, ◌>>=◌,
}
use serf_cpp.Channel.{World, Callback}
use serf_cpp.Channel.Memory.{M, next_object, notify}

module _ ⦃m : Msgpack⦄ where
  -- Q after a return, E after a throw; nothing is asked of a program that has ended, and a fault
  -- has no postcondition at all.
  abbrev pub Post :
      {A : Type 0} → (World → Type 0) → (A → World → Type 0) → Result A → World → Type 0
  Post E Q (ok a) w = Q a w
  Post E Q raised w = E w
  Post E Q terminated w = Unit
  Post E Q dangling w = ⊥
  Post E Q stalled w = ⊥

  pub record Runs {A : Type 0} (P E : World → Type 0) (action : M A) (Q : A → World → Type 0)
      : Type 0 where
    pub at : (w : World) → P w → Post E Q (action w).0 (action w).1

  -- `action` keeps P, whether it returns or throws
  abbrev pub Keeps : {A : Type 0} → (World → Type 0) → M A → Type 0
  Keeps P action = Runs P P action (λ _. P)

  Post-chain :
      {A B : Type 0} {E : World → Type 0} {Q : A → World → Type 0} {R : B → World → Type 0}
      (f : A → M B)
      → ((a : A) → Runs (Q a) E (f a) R)
      → (r : Result A) (w : World) → Post E Q r w
      → Post E R (chain r f w).0 (chain r f w).1
  Post-chain f h (ok a) w p = (h a).at w p
  Post-chain f h raised w p = p
  Post-chain f h terminated w p = p
  Post-chain f h dangling w p = p
  Post-chain f h stalled w p = p

  pub Runs-bind :
      {A B : Type 0} {P E : World → Type 0} {R : B → World → Type 0} (Q : A → World → Type 0)
      (action : M A) (f : A → M B)
      → Runs P E action Q
      → ((a : A) → Runs (Q a) E (f a) R)
      → Runs P E (action >>= f) R
  unfolding ◌>>=◌
  Runs-bind Q action f run next = record {
    at = λ w p. Post-chain {Q = Q} f next (action w).0 (action w).1 (run.at w p);
  }

  pub Keeps-bind :
      {A B : Type 0} {P : World → Type 0} (action : M A) (f : A → M B)
      → Keeps P action
      → ((a : A) → Keeps P (f a))
      → Keeps P (action >>= f)
  Keeps-bind {P = P} action f = Runs-bind (λ _. P) action f

  pub Runs-pure :
      {A : Type 0} {P E : World → Type 0} (Q : A → World → Type 0) (a : A)
      → ((w : World) → P w → Q a w)
      → Runs P E (pure a) Q
  Runs-pure Q a h = record { at = h }

  pub Keeps-pure : {A : Type 0} {P : World → Type 0} (a : A) → Keeps P (pure a)
  Keeps-pure a = record { at = λ w p. p }

  pub Keeps-or_raise : {A : Type 0} {P : World → Type 0} (o : Option A) → Keeps P (or_raise o)
  Keeps-or_raise none = record { at = λ w p. p }
  Keeps-or_raise (some a) = record { at = λ w p. p }

  pub Keeps-if :
      {A : Type 0} {P : World → Type 0} (b : Bool) (x y : M A)
      → Keeps P x
      → Keeps P y
      → Keeps P (if b then x else y)
  Keeps-if true x y hx hy = hx
  Keeps-if false x y hx hy = hy

  Post-recover :
      {A : Type 0} {P : World → Type 0} (handler : M A)
      → Keeps P handler
      → (r : Result A) (w : World) → Post P (λ _. P) r w
      → Post P (λ _. P) (recover r handler w).0 (recover r handler w).1
  Post-recover handler h (ok a) w p = p
  Post-recover handler h raised w p = h.at w p
  Post-recover handler h terminated w p = p
  Post-recover handler h dangling w p = p
  Post-recover handler h stalled w p = p

  pub Keeps-catch :
      {A : Type 0} {P : World → Type 0} (action handler : M A)
      → Keeps P action
      → Keeps P handler
      → Keeps P (catch action handler)
  unfolding catch
  Keeps-catch {P = P} action handler run h = record {
    at = λ w p. Post-recover {P = P} handler h (action w).0 (action w).1 (run.at w p);
  }

  Post-caught :
      {A : Type 0} {E E' : World → Type 0} {Q : A → World → Type 0} (handler : M A)
      → Runs E E' handler Q
      → (r : Result A) (w : World) → Post E Q r w
      → Post E' Q (recover r handler w).0 (recover r handler w).1
  Post-caught handler h (ok a) w p = p
  Post-caught handler h raised w p = h.at w p
  Post-caught handler h terminated w p = p
  Post-caught handler h dangling w p = p
  Post-caught handler h stalled w p = p

  -- the handler starts where the action threw
  pub Runs-catch :
      {A : Type 0} {P E E' : World → Type 0} {Q : A → World → Type 0} (action handler : M A)
      → Runs P E action Q
      → Runs E E' handler Q
      → Runs P E' (catch action handler) Q
  unfolding catch
  Runs-catch {E = E} {E' = E'} {Q = Q} action handler run h = record {
    at = λ w p.
        Post-caught {E = E} {E' = E'} {Q = Q} handler h (action w).0 (action w).1 (run.at w p);
  }

  -- P does not look at the callbacks, nor at the unpacker but for an upper bound on its size.
  pub record IsStable (P : World → Type 0) : Type 0 where
    pub unpacked :
        (w : World) (u : m.Unpacker)
        → m.size u ≤ m.size w.unpacker
        → P w
        → P (record w { unpacker = u })
    pub called : (w : World) (cs : List Callback) → P w → P (record w { callbacks = cs })

  pub Keeps-next_object : {P : World → Type 0} → IsStable P → Keeps P next_object
  unfolding next_object
  Keeps-next_object {P} s = record { at = λ w p. go w p (m.next w.unpacker) refl }
    where
      go :
          (w : World)
          → P w
          → (r : Next m.Object m.Unpacker) → m.next w.unpacker ≡ r
          → Post P (λ _. P) (next_object w).0 (next_object w).1
      go w p (got o u) e =
          rw (e, next_object) (s.unpacked w u (omega (arith, m.next-got w.unpacker o u e)) p)
      go w p (dry u) e = rw (e, next_object) (s.unpacked w u (m.next-dry w.unpacker u e) p)
      go w p (bad u) e = rw (e, next_object) (s.unpacked w u (m.next-bad w.unpacker u e) p)

  pub Keeps-notify : {P : World → Type 0} (c : Callback) → IsStable P → Keeps P (notify c)
  unfolding notify
  Keeps-notify c s = record { at = λ w p. s.called w _ p }

pub ruleset keeps_rules =
    (Keeps-bind, Keeps-pure, Keeps-or_raise, Keeps-if, Keeps-catch, Keeps-next_object, Keeps-notify)

module _ ⦃m : Msgpack⦄ where
  pub Post-weaken :
      {A : Type 0} {E E' : World → Type 0} {Q Q' : A → World → Type 0}
      → ((w : World) → E w → E' w)
      → ((a : A) (w : World) → Q a w → Q' a w)
      → (r : Result A) (w : World) → Post E Q r w
      → Post E' Q' r w
  Post-weaken e q (ok a) w p = q a w p
  Post-weaken e q raised w p = e w p
  Post-weaken e q terminated w p = p
  Post-weaken e q dangling w p = p
  Post-weaken e q stalled w p = p

  pub Runs-weaken :
      {A : Type 0} {P P' E E' : World → Type 0} {Q Q' : A → World → Type 0} (action : M A)
      → ((w : World) → P' w → P w)
      → ((w : World) → E w → E' w)
      → ((a : A) (w : World) → Q a w → Q' a w)
      → Runs P E action Q
      → Runs P' E' action Q'
  Runs-weaken {E = E} {E' = E'} {Q = Q} {Q' = Q'} action p e q run = record {
    at = λ w h.
        Post-weaken {E = E} {E' = E'} {Q = Q} {Q' = Q'} e q (action w).0 (action w).1
          (run.at w (p w h));
  }

  -- a branch that looks at the state
  pub Post-if :
      {A : Type 0} (E : World → Type 0) (Q : A → World → Type 0) (b : Bool) (x y : Result A × World)
      → (b ≡ true → Post E Q x.0 x.1)
      → (b ≡ false → Post E Q y.0 y.1)
      → Post E Q (if b then x else y).0 (if b then x else y).1
  Post-if E Q true x y hx hy = hx refl
  Post-if E Q false x y hx hy = hy refl

  pub Runs-if :
      {A : Type 0} {P E : World → Type 0} {Q : A → World → Type 0} (b : Bool) (x y : M A)
      → (b ≡ true → Runs P E x Q)
      → (b ≡ false → Runs P E y Q)
      → Runs P E (if b then x else y) Q
  Runs-if true x y hx hy = hx refl
  Runs-if false x y hx hy = hy refl

  -- a stronger postcondition in the one final state
  pub Post-at :
      {A : Type 0} (E : World → Type 0) (Q Q' : A → World → Type 0) (r : Result A) (w : World)
      → ((a : A) → Q a w → Q' a w)
      → Post E Q r w
      → Post E Q' r w
  Post-at E Q Q' (ok a) w q p = q a p
  Post-at E Q Q' raised w q p = p
  Post-at E Q Q' terminated w q p = p
  Post-at E Q Q' dangling w q p = p
  Post-at E Q Q' stalled w q p = p
