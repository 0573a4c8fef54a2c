-- ===== src/Outcome/Reply.antt =====
-- A round of the I/O thread that brings the reply to a request, and the wait that it ends.
use serf_cpp.Prelude.{
  ℕ, zero, suc, ◌<◌, ◌&&◌, Bool, true, false, some, none, List, [], ◌∷◌, ◌≡◌, refl, ap, ◌∙◌, arith,
  length, ◌==◌, if◌then◌else◌,
}
use serf_cpp.Msgpack.{Msgpack, got, dry}
use serf_cpp.Exec.{ok, ◌>>=◌, ◌>>◌}
use serf_cpp.SeqMap.{pointer, assign, erase, pointer-assign}
use serf_cpp.Msg.Headers.{ResponseHeader}
use serf_cpp.Msg.Headers.Codec.{as_response_header}
use serf_cpp.Channel.{World, Reply, ResultChannel, new_result, result}
use serf_cpp.Channel.Memory.{M, allocate, free, update}
use serf_cpp.IoThread.Rpc.{
  Batch, receive, process_objects, drain, buffer_consumed, rpc_round, thread_round, process_rpc,
}
use serf_cpp.IoThread.Rpc.Steps.{process_objects-got, process_objects-dry}
use serf_cpp.IoThread.Wait.{Env, with_result, await_reply, consume, background}
use serf_cpp.Outcome.Asking.{
  asking, ready, sent_off, load_result-known, update-update, erase-assign,
}
use serf_cpp.Outcome.{forgotten}
use serf_cpp.Safety.Invariant.{IsSafe}
use serf_cpp.Outcome.Answer.{
  Answers, replied, after_reply, process_object-answer, update-at, update-again,
}

module _ ⦃m : Msgpack⦄ where
  open m use {Object, Unpacker, feed, next}

  -- With u in the unpacker, the round b brings one message, which is the reply hdr to request n and
  -- turns r into r', and leaves y.
  pub record Brings (u : Unpacker) (b : Batch) (n : ℕ) (hdr : ResponseHeader) (r r' : Reply)
      (y : Unpacker) : Type 0 where
    pub obj : Object
    pub v : Unpacker
    pub x : Unpacker
    pub proceeds : ((length (receive 0 b.answers) == 0) && b.retry) ≡ false
    pub header : next (feed u (receive 0 b.answers)) ≡ got obj v
    pub converts : as_response_header obj ≡ some hdr
    pub numbered : hdr.seq ≡ n
    pub body : Answers v r r' x
    pub last : next x ≡ dry y

  loop-dry :
      (fuel : ℕ) (w : World) (y : Unpacker)
      → 0 < fuel
      → next w.unpacker ≡ dry y
      → process_objects fuel w ≡ (ok tt, record w { unpacker = y })
  loop-dry zero w y lt e = elim lt [ ]
  loop-dry (suc fuel) w y lt e = process_objects-dry fuel w y e

  -- the object loop over the reply
  loop-answer :
      (fuel : ℕ) (w : World) (p : ℕ) (hdr : ResponseHeader) (obj : Object) (v x y : Unpacker)
      (r r' : Reply)
      → 0 < fuel
      → next w.unpacker ≡ got obj v
      → as_response_header obj ≡ some hdr
      → pointer hdr.seq w.channels ≡ some p
      → w.memory p ≡ some (result (new_result r))
      → Answers v r r' x
      → next x ≡ dry y
      → process_objects (suc fuel) w ≡ (ok tt, after_reply w p hdr r' y)
  unfolding ◌>>=◌
  loop-answer fuel w p hdr obj v x y r r' lt h a b e n l =
      process_objects-got fuel w v obj h
      ∙ rw (process_object-answer (record w { unpacker = v }) p hdr obj r r' x a b e n)
          (loop-dry fuel (after_reply (record w { unpacker = v }) p hdr r' x) y lt l)

  rpc_round-answer :
      (w : World) (p n : ℕ) (b : Batch) (hdr : ResponseHeader) (r r' : Reply) (y : Unpacker)
      → pointer n w.channels ≡ some p
      → w.memory p ≡ some (result (new_result r))
      → Brings w.unpacker b n hdr r r' y
      → rpc_round b w ≡ (ok tt, after_reply w p hdr r' y)
  unfolding rpc_round buffer_consumed drain ◌>>=◌
  rpc_round-answer w p n b hdr r r' y e there h =
      let w1 : World = record w { unpacker = feed w.unpacker (receive 0 b.answers) } in
      rw (
        h.proceeds,
        loop-answer (m.size w1.unpacker) w1 p hdr h.obj h.v h.x y r r'
            (omega (arith, m.next-got w1.unpacker h.obj h.v h.header)) h.header h.converts
            (ap (λ k. pointer k w.channels) h.numbered ∙ e) there h.body h.last,
      )

  background-answer :
      (w : World) (p n : ℕ) (b : Batch) (hdr : ResponseHeader) (r r' : Reply) (y : Unpacker)
      → w.running ≡ true
      → w.shutdown ≡ false
      → pointer n w.channels ≡ some p
      → w.memory p ≡ some (result (new_result r))
      → Brings w.unpacker b n hdr r r' y
      → background (b ∷ []) w ≡ (ok tt, after_reply w p hdr r' y)
  unfolding background process_rpc thread_round ◌>>=◌
  background-answer w p n b hdr r r' y runs on e there h =
      ap (λ t. if t then process_rpc (b ∷ []) w else (ok tt, w)) runs
      ∙ ap (λ t. if t then (ok tt, w) else (thread_round b >> process_rpc []) w) on
      ∙ rw (rpc_round-answer w p n b hdr r r' y e there h)

  -- a channel with its data ends the wait
  consume-pending :
      (w : World) (p : ℕ) (c : ResultChannel) (bs : List Batch)
      → w.memory p ≡ some (result c)
      → c.data_pending ≡ true
      → consume p bs w ≡ (ok tt, w)
  unfolding consume ◌>>=◌
  consume-pending w p c [] e h = refl
  consume-pending w p c (b ∷ bs) e h = rw (load_result-known w p c e, h)

  pub consume-answer :
      (w : World) (p n : ℕ) (b : Batch) (bs : List Batch) (hdr : ResponseHeader) (r r' : Reply)
      (y : Unpacker)
      → w.running ≡ true
      → w.shutdown ≡ false
      → pointer n w.channels ≡ some p
      → w.memory p ≡ some (result (new_result r))
      → Brings w.unpacker b n hdr r r' y
      → consume p (b ∷ bs) w ≡ (ok tt, after_reply w p hdr r' y)
  unfolding consume ◌>>=◌
  consume-answer w p n b bs hdr r r' y runs on e there h = rw (
    load_result-known w p (new_result r) there,
    background-answer w p n b hdr r r' y runs on e there h,
    consume-pending (after_reply w p hdr r' y) p (replied hdr r') bs
        (update-at w.memory p (some (result (replied hdr r')))) refl,
  )

module _ ⦃m : Msgpack⦄ {A : Type 0} where
  -- the state after a request that was answered
  pub asking-answered :
      (r r' : Reply) (send : ℕ → M (Bool × ℕ)) (failed timed_out : ℕ → A)
      (reply : ResultChannel → ℕ → M A) (env : Env) (w : World) (message : List m.Object)
      (b : Batch) (bs : List Batch) (hdr : ResponseHeader) (y : m.Unpacker) (a : A)
      → IsSafe w
      → w.running ≡ true
      → w.shutdown ≡ false
      → send w.next_address (ready w r) ≡ (ok (true, w.seq), sent_off w r message)
      → env.arrivals ≡ b ∷ bs
      → Brings w.unpacker b w.seq hdr r r' y
      → ((v : World) → reply (replied hdr r') w.seq v ≡ (ok a, v))
      → asking r send failed timed_out reply env w
        ≡ (ok a, record (forgotten w message) { unpacker = y })
  unfolding with_result allocate free ◌>>=◌ await_reply
  asking-answered r r' send failed timed_out reply env w message b bs hdr y a safe runs on e arrives
        h returns =
      rw
        (
          e,
          arrives,
          consume-answer v p w.seq b bs hdr r r' y runs on registered there h,
          load_result-known (after_reply v p hdr r' y) p (replied hdr r')
              (update-at v.memory p (some (result (replied hdr r')))),
          returns (after_reply v p hdr r' y),
        )
        (λ i. (
          ok a,
          record (forgotten w message) {
            unpacker = y;
            channels = unregistered i;
            memory = restored i;
          },
        ))
    where
      p : ℕ
      p = w.next_address

      v : World
      v = sent_off w r message

      there : v.memory p ≡ some (result (new_result r))
      there = update-at w.memory p (some (result (new_result r)))

      registered : pointer w.seq v.channels ≡ some p
      registered = ground (arith, pointer-assign w.seq w.seq (some p) w.channels)

      unregistered : erase hdr.seq (assign w.seq (some p) w.channels) ≡ erase w.seq w.channels
      unregistered =
          ap (λ k. erase k (assign w.seq (some p) w.channels)) h.numbered
          ∙ erase-assign w.seq (some p) w.channels

      restored : update (after_reply v p hdr r' y).memory p none ≡ w.memory
      restored =
          ap (λ f. update f p none)
            (update-again w.memory p (some (result (new_result r)))
              (some (result (replied hdr r'))))
          ∙ update-update w.memory p (some (result (replied hdr r'))) (safe.fresh p (omega arith))
