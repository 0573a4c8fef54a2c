-- ===== src/Route/Message.antt =====
-- One message for a listener, from its header to its callback.
use mathlib.Core.List.{append-nil}
use serf_cpp.Prelude.{ℕ, true, false, some, ◌++◌, ◌≡◌, arith}
use serf_cpp.Msgpack.{Msgpack, got}
use serf_cpp.Exec.{ok, pure, catch, ◌>>=◌}
use serf_cpp.SeqMap.{SeqMap, pointer, touch, entry}
use serf_cpp.Msg.Headers.{ResponseHeader}
use serf_cpp.Channel.{Channel, World, log, event, query}
use serf_cpp.Channel.Memory.{M, next_object, notify}
use serf_cpp.Channel.Produce.{produce_log, produce_event, produce_query}
use serf_cpp.Route.{callbacks_of, closes}

-- operator[] leaves a map alone that has the key
pub touch-known : (k p : ℕ) (m : SeqMap) → pointer k m ≡ some p → touch k m ≡ m
unfolding pointer touch entry
touch-known k p m e = ground arith

module _ ⦃m : Msgpack⦄ (w : World) (u : m.Unpacker) (o : m.Object) (l : ℕ)
    (hdr : ResponseHeader) where
  -- the record has been read, and its callbacks made
  unfoldable pub heard : Channel → World
  unfolding callbacks_of
  heard c = record w { unpacker = u; callbacks = w.callbacks ++ callbacks_of c hdr o }

  pub log_heard :
      m.next w.unpacker ≡ got o u → catch (produce_log l hdr) (pure tt) w ≡ (ok tt, heard (log l))
  unfolding heard callbacks_of catch produce_log next_object notify ◌>>=◌
  log_heard e = ground (arith, e, append-nil w.callbacks)

  pub event_heard :
      m.next w.unpacker ≡ got o u
      → catch (produce_event l hdr) (pure tt) w ≡ (ok tt, heard (event l))
  unfolding heard callbacks_of catch produce_event next_object notify ◌>>=◌
  event_heard e = ground (arith, e, append-nil w.callbacks)

  pub response_heard :
      m.next w.unpacker ≡ got o u
      → closes (query l) o ≡ false
      → (deregister : M (Unit {0}))
      → catch (produce_query l hdr deregister) (pure tt) w ≡ (ok tt, heard (query l))
  unfolding heard callbacks_of closes catch produce_query next_object notify ◌>>=◌
  response_heard e more deregister = ground (arith, e, append-nil w.callbacks)

  pub query_ended :
      m.next w.unpacker ≡ got o u
      → closes (query l) o ≡ true
      → (deregister : M (Unit {0}))
      → catch (produce_query l hdr deregister) (pure tt) w
        ≡ catch deregister (pure tt) (heard (query l))
  unfolding heard callbacks_of closes catch produce_query next_object notify ◌>>=◌
  query_ended e last deregister = ground (arith, e, append-nil w.callbacks)
