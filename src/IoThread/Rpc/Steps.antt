-- ===== src/IoThread/Rpc/Steps.antt =====
-- The loop over the unpacker's objects, one object at a time.
use serf_cpp.Prelude.{ℕ, suc, ◌≡◌}
use serf_cpp.Msgpack.{Msgpack, got, dry, bad}
use serf_cpp.Exec.{ok, raised, ◌>>=◌, pure, catch}
use serf_cpp.Channel.{World}
use serf_cpp.Channel.Memory.{next_object}
use serf_cpp.IoThread.Rpc.{process_object, process_objects}

module _ ⦃m : Msgpack⦄ (fuel : ℕ) (w : World) (u : m.Unpacker) where
  pub process_objects-got :
      (o : m.Object)
      → m.next w.unpacker ≡ got o u
      → process_objects (suc fuel) w
        ≡ (catch (process_object o) (pure tt) >>= λ _. process_objects fuel)
            (record w { unpacker = u })
  unfolding process_objects next_object ◌>>=◌
  process_objects-got o e = rw (e, next_object)

  pub process_objects-dry :
      m.next w.unpacker ≡ dry u → process_objects (suc fuel) w ≡ (ok tt, record w { unpacker = u })
  unfolding process_objects next_object ◌>>=◌
  process_objects-dry e = rw (e, next_object)

  pub process_objects-bad :
      m.next w.unpacker ≡ bad u → process_objects (suc fuel) w ≡ (raised, record w { unpacker = u })
  unfolding process_objects next_object ◌>>=◌
  process_objects-bad e = rw (e, next_object)
