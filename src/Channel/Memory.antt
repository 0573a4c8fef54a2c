-- ===== src/Channel/Memory.antt =====
-- Channels by address: `new`, `delete`, and accesses through a pointer.
use serf_cpp.Prelude.{ℕ, suc, Option, none, some, [], ◌∷◌, ◌++◌, ◌==◌, if◌then◌else◌}
use serf_cpp.Msgpack.{Msgpack, got, dry, bad}
use serf_cpp.Exec.{Exec, ok, raised, dangling}
use serf_cpp.Channel.{Channel, ResultChannel, Callback, World, result, log, event, query}

abbrev pub update : (ℕ → Option Channel) → ℕ → Option Channel → ℕ → Option Channel
update f p c q = if p == q then c else f q

module _ ⦃m : Msgpack⦄ where
  abbrev pub M : Type 0 → Type 0
  M A = Exec World A

  unfoldable pub allocate : Channel → M ℕ
  allocate c w = (
    ok w.next_address,
    record w {
      memory = update w.memory w.next_address (some c);
      next_address = suc w.next_address;
    },
  )

  -- the end of an object's life: `delete`, or the end of the scope that holds it
  unfoldable pub free : ℕ → M (Unit {0})
  free p w = (ok tt, record w { memory = update w.memory p none })

  unfoldable pub load : ℕ → M Channel
  load p w = elim (w.memory p) [ none ↦ (dangling, w) | some c ↦ (ok c, w) ]

  -- a write through a pointer to a ResultChannel; there is no other channel whose fields change
  abbrev edit : (ResultChannel → ResultChannel) → Channel → Channel
  edit f (result c) = result (f c)
  edit f (log l) = log l
  edit f (event l) = event l
  edit f (query l) = query l

  unfoldable pub change : ℕ → (ResultChannel → ResultChannel) → M (Unit {0})
  change p f w = elim (w.memory p) [
    | none ↦ (dangling, w)
    | some c ↦ (ok tt, record w { memory = update w.memory p (some (edit f c)) })
  ]

  -- unpacker.next(oh)
  unfoldable pub next_object : M (Option m.Object)
  next_object w = elim (m.next w.unpacker) [
    | got o u ↦ (ok (some o), record w { unpacker = u })
    | dry u ↦ (ok none, record w { unpacker = u })
    | bad u ↦ (raised, record w { unpacker = u })
  ]

  unfoldable pub notify : Callback → M (Unit {0})
  notify c w = (ok tt, record w { callbacks = w.callbacks ++ c ∷ [] })
