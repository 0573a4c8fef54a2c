-- ===== src/Safety/Loop.antt =====
-- The loops of processRpc: safety, the fuel of the object loop, and exceptions that leave the thread.
use serf_cpp.Prelude.{ℕ, zero, suc, ◌≤◌, ◌<◌, List, [], ◌∷◌, ◌≡◌, refl, arith}
use serf_cpp.Msgpack.{Msgpack, Next, got, dry, bad}
use serf_cpp.Exec.{Result, ok, raised, terminated, dangling, stalled, pure, catch}
use serf_cpp.Channel.{World}
use serf_cpp.IoThread.Rpc.{
  Batch, process_object, process_objects, drain, rpc_round, thread_round, process_rpc, escaping,
  buffer_consumed, receive,
}
use serf_cpp.IoThread.Rpc.Steps.{process_objects-got, process_objects-dry, process_objects-bad}
use serf_cpp.IoThread.Wait.{background}
use serf_cpp.Safety.Triple.{
  Runs, Keeps, Post, Runs-bind, Runs-weaken, Post-weaken, Post-if, Keeps-if, Keeps-catch,
  Keeps-pure, Keeps-bind,
}
use serf_cpp.Safety.Invariant.{IsSafe, Frame, Within}
use serf_cpp.Safety.Rpc.{process_object-Within}

module _ ⦃m : Msgpack⦄ where
  -- safe and framed, whatever the unpacker holds
  pub record Tied (before w : World) : Type 0 where
    pub safe : IsSafe w
    pub frame : Frame before w

  abbrev pub Never : World → Type 0
  Never w = ⊥

  step_Within :
      (before : World) (n s fuel : ℕ) (obj : m.Object)
      → s ≤ n
      → s < fuel
      → Runs
          (Within before s)
          (Within before n)
          (catch (process_object obj) (pure tt))
          (λ _ v. Within before n v × (m.size v.unpacker < fuel))
  step_Within before n s fuel obj le lt =
      Runs-weaken _ (λ w h. h) up (λ _ w h. (up w h, omega (arith, h.small)))
        (Keeps-catch {P = Within before s} (process_object obj) (pure tt)
          (process_object-Within before s obj) (Keeps-pure tt))
    where
      up : (w : World) → Within before s w → Within before n w
      up w h = record { safe = h.safe; frame = h.frame; small = omega (arith, h.small) }

  moved :
      {before : World} {n : ℕ} (w : World) (u : m.Unpacker) (k : ℕ)
      → m.size u ≤ k
      → Within before n w
      → Within before k (record w { unpacker = u })
  moved w u k le h = record {
    safe = record {
      live = h.safe.live;
      alone = h.safe.alone;
      fresh = h.safe.fresh;
      waiting = h.safe.waiting;
    };
    frame = record { kept = h.frame.kept; stays = h.frame.stays };
    small = le;
  }

  -- a run of the loop with enough fuel
  Loops : World → ℕ → ℕ → World → Type 0
  Loops before n fuel w =
      Post (Within before n) (λ _. Within before n) (process_objects fuel w).0
        (process_objects fuel w).1

  loop_step :
      (before : World) (n fuel : ℕ)
      → ((v : World) → Within before n v → m.size v.unpacker < fuel → Loops before n fuel v)
      → (w : World) → Within before n w
      → m.size w.unpacker < suc fuel
      → (r : Next m.Object m.Unpacker) → m.next w.unpacker ≡ r
      → Loops before n (suc fuel) w
  unfolding Loops
  loop_step before n fuel again w h lt (got o u) e = rw (process_objects-got fuel w u o e) (
      (Runs-bind (λ _ v. Within before n v × (m.size v.unpacker < fuel))
          (catch (process_object o) (pure tt)) (λ _. process_objects fuel)
          (step_Within before n (m.size u) fuel o
            (omega (arith, m.next-got w.unpacker o u e, h.small))
            (omega (arith, m.next-got w.unpacker o u e)))
          (λ _. record { at = λ v p. again v p.0 p.1 })).at
        (record w { unpacker = u }) (moved w u (m.size u) (omega arith) h))
  loop_step before n fuel again w h lt (dry u) e =
      rw (process_objects-dry fuel w u e)
        (moved w u n (omega (arith, m.next-dry w.unpacker u e, h.small)) h)
  loop_step before n fuel again w h lt (bad u) e =
      rw (process_objects-bad fuel w u e)
        (moved w u n (omega (arith, m.next-bad w.unpacker u e, h.small)) h)

  process_objects-Within :
      (before : World) (n fuel : ℕ) (w : World)
      → Within before n w
      → m.size w.unpacker < fuel
      → Loops before n fuel w
  process_objects-Within before n zero w h lt = elim lt [ ]
  process_objects-Within before n (suc fuel) w h lt =
      loop_step before n fuel (process_objects-Within before n fuel) w h lt (m.next w.unpacker) refl

  drain-Tied : (before : World) → Keeps (Tied before) drain
  unfolding drain Loops
  drain-Tied before = record {
    at = λ w h.
        let n = m.size w.unpacker in
        let fuel = suc n in
        Post-weaken {E = Within before n} {E' = Tied before} {Q = λ _. Within before n}
          {Q' = λ _. Tied before} (λ v p. record { safe = p.safe; frame = p.frame })
          (λ _ v p. record { safe = p.safe; frame = p.frame }) (process_objects fuel w).0
          (process_objects fuel w).1
          (process_objects-Within before n fuel w
            (record { safe = h.safe; frame = h.frame; small = omega arith }) (omega arith));
  }

  buffer_consumed-Tied :
      (before : World) (bytes : List ℕ) → Keeps (Tied before) (buffer_consumed bytes)
  unfolding buffer_consumed
  buffer_consumed-Tied before bytes = record {
    at = λ w h. record {
      safe = record {
        live = h.safe.live;
        alone = h.safe.alone;
        fresh = h.safe.fresh;
        waiting = h.safe.waiting;
      };
      frame = record { kept = h.frame.kept; stays = h.frame.stays };
    };
  }

  pub rpc_round-Tied : (before : World) (b : Batch) → Keeps (Tied before) (rpc_round b)
  unfolding rpc_round
  rpc_round-Tied before b =
      Keeps-if _ _ _ (Keeps-pure tt) (
        Keeps-bind _ _ (buffer_consumed-Tied before (receive 0 b.answers)) (λ _. drain-Tied before))

  Post-escaping :
      (P : World → Type 0) (r : Result (Unit {0})) (w : World)
      → Post P (λ _. P) r w
      → Post Never (λ _. P) (escaping r) w
  Post-escaping P (ok a) w p = p
  Post-escaping P raised w p = tt
  Post-escaping P terminated w p = tt
  Post-escaping P dangling w p = p
  Post-escaping P stalled w p = p

  pub thread_round-Tied :
      (before : World) (b : Batch) → Runs (Tied before) Never (thread_round b) (λ _. Tied before)
  unfolding thread_round
  thread_round-Tied before b = record {
    at = λ w h.
        Post-escaping (Tied before) (rpc_round b w).0 (rpc_round b w).1
          ((rpc_round-Tied before b).at w h);
  }

  pub process_rpc-Tied :
      (before : World) (bs : List Batch)
      → Runs (Tied before) Never (process_rpc bs) (λ _. Tied before)
  unfolding process_rpc
  process_rpc-Tied before [] = record { at = λ w h. h }
  process_rpc-Tied before (b ∷ bs) = rounds (process_rpc-Tied before bs)
    where
      rounds :
          Runs (Tied before) Never (process_rpc bs) (λ _. Tied before)
          → Runs (Tied before) Never (process_rpc (b ∷ bs)) (λ _. Tied before)
      rounds rest = record {
        at = λ w h.
            Post-if Never (λ _. Tied before) w.shutdown _ _ (λ _. h)
              (λ _.
                (Runs-bind (λ _. Tied before) (thread_round b) (λ _. process_rpc bs)
                    (thread_round-Tied before b) (λ _. rest)).at
                  w h);
      }

  pub background-Tied :
      (before : World) (bs : List Batch)
      → Runs (Tied before) Never (background bs) (λ _. Tied before)
  unfolding background
  background-Tied before bs = record {
    at = λ w h.
        Post-if Never (λ _. Tied before) w.running _ _ (λ _. (process_rpc-Tied before bs).at w h)
          (λ _. h);
  }
