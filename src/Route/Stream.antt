-- ===== src/Route/Stream.antt =====
-- The object loop over a stream of messages, against the router.
use mathlib.Core.List.{append-nil, append_assoc}
use serf_cpp.Prelude.{
  ℕ, zero, suc, ◌<◌, some, List, [], ◌∷◌, ◌++◌, ◌≡◌, refl, sym, ap, ◌∙◌, subst, fun_ext, arith,
}
use serf_cpp.Msgpack.{Msgpack, got}
use serf_cpp.Exec.{Result, ok, pure, catch, ◌>>=◌}
use serf_cpp.Msg.Headers.{ResponseHeader}
use serf_cpp.Msg.Headers.Codec.{as_response_header}
use serf_cpp.Channel.{Channel, Callback, World}
use serf_cpp.IoThread.Rpc.{process_object, process_objects}
use serf_cpp.IoThread.Rpc.Steps.{process_objects-got, process_objects-dry}
use serf_cpp.Route.{callbacks_of, delivered}
use serf_cpp.Route.Single.{process_object-delivered}
use serf_cpp.Safety.Triple.{Post, Keeps-catch, Keeps-pure}
use serf_cpp.Safety.Invariant.{IsSafe, Within, Frame-refl}
use serf_cpp.Safety.Rpc.{process_object-Within}
use serf_cpp.Route.Router.{
  Carries, remaining, route, registry, unpacker-delivered, callbacks-delivered, registry-delivered,
  registry-some, Routed, route-cons, Follows, nothing_routed, Registry,
}

module _ ⦃m : Msgpack⦄ where
  open m use {Object, Unpacker}

  -- A message leaves a safe state.
  delivered-IsSafe :
      (w : World) (p : ℕ) (c : Channel) (hdr : ResponseHeader) (obj body : Object) (u : Unpacker)
      → IsSafe w
      → catch (process_object obj) (pure tt) w ≡ (ok tt, delivered w p c hdr body u)
      → IsSafe (delivered w p c hdr body u)
  delivered-IsSafe w p c hdr obj body u h e =
      (subst (λ (r : Result (Unit {0}) × World). Post (Within w n) (λ _. Within w n) r.0 r.1) e
        ((Keeps-catch {P = Within w n} (process_object obj) (pure tt)
            (process_object-Within w n obj) (Keeps-pure tt)).at
          w (record { safe = h; frame = Frame-refl w; small = omega arith }))).safe
    where
      n : ℕ
      n = m.size w.unpacker

  -- the loop after one message for a listener
  after_message :
      (fuel : ℕ) (w : World) (p : ℕ) (c : Channel) (hdr : ResponseHeader) (obj body : Object)
      (v x : Unpacker)
      → m.next w.unpacker ≡ got obj v
      → catch (process_object obj) (pure tt) (record w { unpacker = v })
        ≡ (ok tt, delivered (record w { unpacker = v }) p c hdr body x)
      → process_objects (suc fuel) w
        ≡ process_objects fuel (delivered (record w { unpacker = v }) p c hdr body x)
  unfolding ◌>>=◌
  after_message fuel w p c hdr obj body v x n e = process_objects-got fuel w v obj n ∙ rw e

  moved-IsSafe : (w : World) (v : Unpacker) → IsSafe w → IsSafe (record w { unpacker = v })
  moved-IsSafe w v h = record {
    live = h.live;
    alone = h.alone;
    fresh = h.fresh;
    waiting = h.waiting;
  }

  registry-moved :
      (w : World) (v : Unpacker) (k : ℕ) → registry (record w { unpacker = v }) k ≡ registry w k
  unfolding registry
  registry-moved w v k = refl

  -- one message and then the rest of the stream
  Follows-step :
      (w d : World) (cs ds es : List Callback) (left : Registry) (r : Result (Unit {0}) × World)
      → d.callbacks ≡ w.callbacks ++ cs
      → es ≡ cs ++ ds
      → Follows d ds left r
      → Follows w es left r
  Follows-step w d cs ds es left r e f g = (g.0, g.1 ∙ rw (e, f, append_assoc), g.2)

  module _ (fuel : ℕ) (ms : List (ResponseHeader × Object))
      (rest_follows : (w : World) (cs : List Callback) (left : Registry)
        → IsSafe w
        → m.size w.unpacker < fuel
        → Carries w.unpacker ms
        → route (registry w) ms ≡ some (cs, left)
        → Follows w cs left (process_objects fuel w)) where
    Routed-Follows :
        (w : World) (cs : List Callback) (left : Registry) (hdr : ResponseHeader)
        (obj body : Object) (v x : Unpacker)
        → IsSafe w
        → m.size w.unpacker < suc fuel
        → m.next w.unpacker ≡ got obj v
        → as_response_header obj ≡ some hdr
        → m.next v ≡ got body x
        → Carries x ms
        → Routed (registry w) hdr body ms cs left
        → Follows w cs left (process_objects (suc fuel) w)
    unfolding Routed registry
    Routed-Follows w cs left hdr obj body v x h lt n a n' rest
          (c, known, listens, (ds, routed, joined)) =
        let w1 : World = record w { unpacker = v } in
        let s1 = moved-IsSafe w v h in
        let (p, there, held) = registry-some w hdr.seq c known in
        let once = process_object-delivered w1 p c hdr obj body x listens a there held n' in
        let d : World = delivered w1 p c hdr body x in
        let at_x = unpacker-delivered w1 p c hdr body x in
        let left_over : registry d ≡ remaining c hdr body (registry w) =
          fun_ext (λ k. registry-delivered w1 p c hdr body x s1 there k) in
        rw (after_message fuel w p c hdr obj body v x n once) (
          Follows-step w d (callbacks_of c hdr body) ds cs left (process_objects fuel d)
            (callbacks-delivered w1 p c hdr body x) joined
            (rest_follows d ds left (delivered-IsSafe w1 p c hdr obj body x s1 once)
              (omega (arith, ap m.size at_x, m.next-got w.unpacker obj v n, m.next-got v body x n'))
              (subst (λ u. Carries u ms) (sym at_x) rest) (rw left_over routed)))

  -- In a safe state, if the unpacker holds just the messages `ms` and the router accepts them, the
  -- object loop with enough fuel returns, makes the router's callbacks in their order after those
  -- made before, and leaves the router's channels registered.
  pub process_objects-route :
      (ms : List (ResponseHeader × Object)) (fuel : ℕ) (w : World) (cs : List Callback)
      (left : Registry)
      → IsSafe w
      → m.size w.unpacker < fuel
      → Carries w.unpacker ms
      → route (registry w) ms ≡ some (cs, left)
      → Follows w cs left (process_objects fuel w)
  process_objects-route ms zero w cs left h lt carried e = elim lt [ ]
  process_objects-route [] (suc fuel) w cs left h lt (v, n) e =
      let (empty, same) = nothing_routed (registry w) left cs e in
      rw (process_objects-dry fuel w v n)
        (refl, rw (empty, append-nil), λ k. registry-moved w v k ∙ ap (λ f. f k) same)
  process_objects-route ((hdr, body) ∷ ms) (suc fuel) w cs left h lt (obj, v, x, n, a, n', rest) e =
      Routed-Follows fuel ms (process_objects-route ms fuel) w cs left hdr obj body v x h lt n a n'
        rest (route-cons (registry w) left hdr body ms cs e)
