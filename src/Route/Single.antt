-- ===== src/Route/Single.antt =====
-- A whole message: the header finds the channel, and the record becomes its callback.
use serf_cpp.Prelude.{ℕ, true, false, none, some, ◌≡◌, refl, sym, ◌∙◌, arith, Bool-cases, inl, inr}
use serf_cpp.Msgpack.{Msgpack, got}
use serf_cpp.Exec.{Result, ok, pure, catch, ◌>>=◌}
use serf_cpp.SeqMap.{pointer, erase}
use serf_cpp.Msg.Headers.{ResponseHeader}
use serf_cpp.Msg.Headers.Codec.{as_response_header}
use serf_cpp.Channel.{Channel, World, result, log, event, query}
use serf_cpp.Channel.Memory.{M, load, free, update}
use serf_cpp.IoThread.{find_channel, remove_channel}
use serf_cpp.IoThread.Rpc.{process_object, deliver, produce}
use serf_cpp.Route.{closes, is_listener, delivered}
use serf_cpp.Route.Message.{touch-known, heard, log_heard, event_heard, response_heard, query_ended}

module _ ⦃m : Msgpack⦄ where
  -- looking up a sequence number that has a channel
  pub find_channel-known :
      (w : World) (seq p : ℕ)
      → pointer seq w.channels ≡ some p
      → find_channel seq w ≡ (ok (some p), w)
  unfolding find_channel ◌>>=◌
  find_channel-known w seq p e =
      rw e (λ i. (ok (some p), record w { channels = touch-known seq p w.channels e i }))

  load-known : (w : World) (p : ℕ) (c : Channel) → w.memory p ≡ some c → load p w ≡ (ok c, w)
  unfolding load
  load-known w p c e = rw (e, load)

  -- A header that names a listener's channel runs that channel's produce.
  process_object-listener :
      (w : World) (p : ℕ) (c : Channel) (hdr : ResponseHeader) (obj : m.Object)
      → is_listener c ≡ true
      → as_response_header obj ≡ some hdr
      → pointer hdr.seq w.channels ≡ some p
      → w.memory p ≡ some c
      → process_object obj w ≡ produce p hdr c w
  unfolding process_object deliver ◌>>=◌
  process_object-listener w p (result c) hdr obj l a b e = cc
  process_object-listener w p (log i) hdr obj l a b e =
      rw (a, find_channel-known w hdr.seq p b, load-known w p (log i) e)
  process_object-listener w p (event i) hdr obj l a b e =
      rw (a, find_channel-known w hdr.seq p b, load-known w p (event i) e)
  process_object-listener w p (query i) hdr obj l a b e =
      rw (a, find_channel-known w hdr.seq p b, load-known w p (query i) e)

  -- `catch` looks at the outcome alone
  catch_known :
      (action action' : M (Unit {0})) (w : World)
      → action w ≡ action' w
      → catch action (pure tt) w ≡ catch action' (pure tt) w
  unfolding catch
  catch_known action action' w e = rw e

  -- removeChannel of a registered listener's channel
  pub remove_channel-listener :
      (w : World) (seq p : ℕ) (c : Channel)
      → is_listener c ≡ true
      → pointer seq w.channels ≡ some p
      → w.memory p ≡ some c
      → remove_channel seq w
        ≡ (ok tt, record w { channels = erase seq w.channels; memory = update w.memory p none })
  unfolding remove_channel load free ◌>>=◌
  remove_channel-listener w seq p (result c) l b e = cc
  remove_channel-listener w seq p (log i) l b e = ground (arith, touch-known seq p w.channels b)
  remove_channel-listener w seq p (event i) l b e = ground (arith, touch-known seq p w.channels b)
  remove_channel-listener w seq p (query i) l b e = ground (arith, touch-known seq p w.channels b)

  -- the end of a query: its channel goes, and the handler sees no exception
  query_closed :
      (w : World) (p l : ℕ) (hdr : ResponseHeader) (body : m.Object) (u : m.Unpacker)
      → closes (query l) body ≡ true
      → pointer hdr.seq w.channels ≡ some p
      → w.memory p ≡ some (query l)
      → catch (remove_channel hdr.seq) (pure tt) (heard w u body l hdr (query l))
        ≡ (ok tt, delivered w p (query l) hdr body u)
  unfolding catch delivered heard
  query_closed w p l hdr body u last b e =
      rw (
        remove_channel-listener (heard w u body l hdr (query l)) hdr.seq p (query l) refl b e,
        last,
      )

  still :
      (w : World) (p l : ℕ) (hdr : ResponseHeader) (body : m.Object) (u : m.Unpacker)
      → closes (query l) body ≡ false
      → ◌≡◌ {A = Result (Unit {0}) × World}
          (ok tt, delivered w p (query l) hdr body u)
          (ok tt, heard w u body l hdr (query l))
  unfolding delivered heard
  still w p l hdr body u more = rw more

  produced :
      (w : World) (p : ℕ) (c : Channel) (hdr : ResponseHeader) (body : m.Object) (u : m.Unpacker)
      → is_listener c ≡ true
      → pointer hdr.seq w.channels ≡ some p
      → w.memory p ≡ some c
      → m.next w.unpacker ≡ got body u
      → catch (produce p hdr c) (pure tt) w ≡ (ok tt, delivered w p c hdr body u)
  unfolding produce delivered heard closes
  produced w p (result c) hdr body u l b e n = cc
  produced w p (log i) hdr body u l b e n = log_heard w u body i hdr n
  produced w p (event i) hdr body u l b e n = event_heard w u body i hdr n
  produced w p (query i) hdr body u l b e n = elim (Bool-cases (closes (query i) body)) [
    | inl last ↦
        query_ended w u body i hdr n last (remove_channel hdr.seq)
        ∙ query_closed w p i hdr body u last b e
    | inr more ↦
        response_heard w u body i hdr n more (remove_channel hdr.seq)
        ∙ sym (still w p i hdr body u more)
  ]

  -- A message whose header names the channel of a listener becomes the callback that its record
  -- calls for, or none if the record does not convert; the record is taken from the unpacker, and a
  -- query channel whose record says that it is done is deregistered and deleted. No exception is
  -- left, and nothing else changes.
  pub process_object-delivered :
      (w : World) (p : ℕ) (c : Channel) (hdr : ResponseHeader) (obj body : m.Object)
      (u : m.Unpacker)
      → is_listener c ≡ true
      → as_response_header obj ≡ some hdr
      → pointer hdr.seq w.channels ≡ some p
      → w.memory p ≡ some c
      → m.next w.unpacker ≡ got body u
      → catch (process_object obj) (pure tt) w ≡ (ok tt, delivered w p c hdr body u)
  process_object-delivered w p c hdr obj body u l a b e n =
      catch_known _ _ w (process_object-listener w p c hdr obj l a b e)
      ∙ produced w p c hdr body u l b e n
