-- ===== src/Outcome/Answer.antt =====
-- The reply to a request reaches the ResultChannel of its caller.
use serf_cpp.Prelude.{ℕ, true, Option, some, ◌≡◌, ap, ◌∙◌, fun_ext, arith}
use serf_cpp.Msgpack.{Msgpack, got}
use serf_cpp.Exec.{ok, pure, catch, ◌>>=◌}
use serf_cpp.SeqMap.{pointer, erase}
use serf_cpp.Msg.Headers.{ResponseHeader}
use serf_cpp.Msg.Headers.Codec.{as_response_header}
use serf_cpp.Channel.{
  Channel, World, Reply, ResultChannel, new_result, nothing, join, key, key_list, members, stats,
  coord, result,
}
use serf_cpp.Channel.Memory.{change, load, next_object, update}
use serf_cpp.Channel.Produce.{as_reply, produce_result, receive_reply, store_reply}
use serf_cpp.IoThread.{erase_channel}
use serf_cpp.IoThread.Rpc.{process_object, deliver, produce}
use serf_cpp.Route.Single.{find_channel-known}

pub update-at : (f : ℕ → Option Channel) (p : ℕ) (c : Option Channel) → update f p c p ≡ c
update-at f p c = ground arith

pub update-again :
    (f : ℕ → Option Channel) (p : ℕ) (c d : Option Channel)
    → update (update f p c) p d ≡ update f p d
update-again f p c d = fun_ext (λ q. ground arith)

update-thrice :
    (f : ℕ → Option Channel) (p : ℕ) (b c d : Option Channel)
    → update (update (update f p b) p c) p d ≡ update f p d
update-thrice f p b c d = ap (λ g. update g p d) (update-again f p b c) ∙ update-again f p c d

module _ ⦃m : Msgpack⦄ where
  open m use {Object, Unpacker}

  -- The unpacker u holds what a channel for replies like r reads after the header, its data become
  -- r', and x is left: a ResultChannel<bool> reads nothing.
  abbrev pub Answers : Unpacker → Reply → Reply → Unpacker → Type 0
  Answers u nothing r' x = (r' ≡ nothing) × (x ≡ u)
  Answers u r r' x = (body : Object) × (m.next u ≡ got body x) × (as_reply r body ≡ some r')

  -- the channel with its reply
  abbrev pub replied : ResponseHeader → Reply → ResultChannel
  replied hdr r = record { hdr = hdr; reply = r; data_pending = true }

  change_lem :
      (w : World) (p : ℕ) (f : ResultChannel → ResultChannel) (c : ResultChannel)
      → w.memory p ≡ some (result c)
      → change p f w ≡ (ok tt, record w { memory = update w.memory p (some (result (f c))) })
  unfolding change
  change_lem w p f c e = rw (e, change)

  -- the channel after its header, and then its data, have been stored
  abbrev stored : World → ℕ → Channel → Unpacker → World
  stored w p c x = record w { unpacker = x; memory = update w.memory p (some c) }

  receive_reply-body :
      (w : World) (p : ℕ) (c : ResultChannel) (r r' : Reply) (body : Object) (x : Unpacker)
      → w.memory p ≡ some (result c)
      → m.next w.unpacker ≡ got body x
      → as_reply r body ≡ some r'
      → (next_object >>= store_reply p r) w
        ≡ (ok tt, stored w p (result (record c { reply = r' })) x)
  unfolding next_object store_reply ◌>>=◌
  receive_reply-body w p c r r' body x e n a = rw (
    n,
    next_object,
    a,
    change_lem (record w { unpacker = x }) p (λ k. record k { reply = r' }) c e,
  )

  finished :
      (w : World) (p : ℕ) (hdr : ResponseHeader) (c : ResultChannel) (r r' : Reply) (x : Unpacker)
      → (receive_reply p r) (stored w p (result (record c { hdr = hdr })) w.unpacker) ≡ (
        ok tt,
        stored
            (stored w p (result (record c { hdr = hdr })) w.unpacker)
            p
            (result (record c { hdr = hdr; reply = r' }))
            x,
      )
      → w.memory p ≡ some (result c)
      → produce_result p r hdr w ≡ (ok tt, stored w p (result (replied hdr r')) x)
  unfolding produce_result ◌>>=◌
  finished w p hdr c r r' x f e =
      let w1 : World = stored w p (result (record c { hdr = hdr })) w.unpacker in
      let c2 : ResultChannel = record c { hdr = hdr; reply = r' } in
      let w2 : World = stored w1 p (result c2) x in
      rw
        (
          change_lem w p (λ k. record k { hdr = hdr }) c e,
          f,
          change_lem w2 p (λ k. record k { data_pending = true }) c2
              (update-at w1.memory p (some (result c2))),
        )
        (λ i. (
          ok tt,
          record w {
            unpacker = x;
            memory =
                update-thrice w.memory p (some (result (record c { hdr = hdr }))) (some (result c2))
                  (some (result (replied hdr r'))) i;
          },
        ))

  -- the body of a reply, once the header is stored
  stored-reply :
      (w : World) (p : ℕ) (hdr : ResponseHeader) (r r' : Reply) (body : Object) (x : Unpacker)
      → m.next w.unpacker ≡ got body x
      → as_reply r body ≡ some r'
      → (next_object >>= store_reply p r)
          (stored w p (result (record (new_result r) { hdr = hdr })) w.unpacker)
        ≡ (
          ok tt,
          stored
              (stored w p (result (record (new_result r) { hdr = hdr })) w.unpacker)
              p
              (result (record (new_result r) { hdr = hdr; reply = r' }))
              x,
        )
  stored-reply w p hdr r r' body x n a =
      let c : ResultChannel = record (new_result r) { hdr = hdr } in
      receive_reply-body (stored w p (result c) w.unpacker) p c r r' body x
        (update-at w.memory p (some (result c))) n a

  -- produce of a new ResultChannel
  produce_result-answer :
      (w : World) (p : ℕ) (hdr : ResponseHeader) (r r' : Reply) (x : Unpacker)
      → Answers w.unpacker r r' x
      → w.memory p ≡ some (result (new_result r))
      → produce_result p r hdr w ≡ (ok tt, stored w p (result (replied hdr r')) x)
  unfolding produce_result receive_reply ◌>>=◌
  produce_result-answer w p hdr nothing r' x (a, n) e =
      let c : ResultChannel = record (new_result nothing) { hdr = hdr } in
      let w1 : World = stored w p (result c) w.unpacker in
      rw
        (
          change_lem w p (λ k. record k { hdr = hdr }) (new_result nothing) e,
          change_lem w1 p (λ k. record k { data_pending = true }) c
              (update-at w.memory p (some (result c))),
          a,
          n,
        )
        (λ i. (
          ok tt,
          record w {
            memory =
                update-again w.memory p (some (result c)) (some (result (replied hdr nothing))) i;
          },
        ))
  produce_result-answer w p hdr (join d) r' x (body, n, a) e =
      finished w p hdr (new_result (join d)) (join d) r' x
        (stored-reply w p hdr (join d) r' body x n a) e
  produce_result-answer w p hdr (key d) r' x (body, n, a) e =
      finished w p hdr (new_result (key d)) (key d) r' x
        (stored-reply w p hdr (key d) r' body x n a) e
  produce_result-answer w p hdr (key_list d) r' x (body, n, a) e =
      finished w p hdr (new_result (key_list d)) (key_list d) r' x
        (stored-reply w p hdr (key_list d) r' body x n a) e
  produce_result-answer w p hdr (members d) r' x (body, n, a) e =
      finished w p hdr (new_result (members d)) (members d) r' x
        (stored-reply w p hdr (members d) r' body x n a) e
  produce_result-answer w p hdr (stats d) r' x (body, n, a) e =
      finished w p hdr (new_result (stats d)) (stats d) r' x
        (stored-reply w p hdr (stats d) r' body x n a) e
  produce_result-answer w p hdr (coord d) r' x (body, n, a) e =
      finished w p hdr (new_result (coord d)) (coord d) r' x
        (stored-reply w p hdr (coord d) r' body x n a) e

  -- the world after the reply to request hdr.seq, whose channel is at p
  abbrev pub after_reply : World → ℕ → ResponseHeader → Reply → Unpacker → World
  after_reply w p hdr r x = record w {
    channels = erase hdr.seq w.channels;
    unpacker = x;
    memory = update w.memory p (some (result (replied hdr r)));
  }

  -- The header of a reply finds the new ResultChannel of its request, which is deregistered and gets
  -- the header, the body and the sign that they are there.
  pub process_object-answer :
      (w : World) (p : ℕ) (hdr : ResponseHeader) (obj : Object) (r r' : Reply) (x : Unpacker)
      → as_response_header obj ≡ some hdr
      → pointer hdr.seq w.channels ≡ some p
      → w.memory p ≡ some (result (new_result r))
      → Answers w.unpacker r r' x
      → catch (process_object obj) (pure tt) w ≡ (ok tt, after_reply w p hdr r' x)
  unfolding process_object deliver produce erase_channel catch load ◌>>=◌
  process_object-answer w p hdr obj r r' x a b e n = rw (
    a,
    find_channel-known w hdr.seq p b,
    load,
    e,
    produce_result-answer (record w { channels = erase hdr.seq w.channels }) p hdr r r' x n e,
  )
