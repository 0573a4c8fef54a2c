-- ===== src/Safety/Wait.antt =====
-- A request's own channel: from its construction to the end of its scope.
use serf_cpp.Prelude.{ℕ, Bool, true, false, none, some, List, [], ◌∷◌, ◌≡◌, arith, if◌then◌else◌}
use serf_cpp.Msgpack.{Msgpack}
use serf_cpp.Exec.{◌>>=◌, ◌>>◌, pure}
use serf_cpp.SeqMap.{pointer, touch, pointer-erase}
use serf_cpp.Channel.{ResultChannel, World, result}
use serf_cpp.Channel.Memory.{M, free, load}
use serf_cpp.IoThread.{remove_channel, find_channel, erase_channel, delete_listener}
use serf_cpp.IoThread.Rpc.{Batch}
use serf_cpp.IoThread.Wait.{Env, load_result, background, consume, await_reply}
use serf_cpp.Safety.Triple.{Runs, Post, Runs-bind, Runs-weaken, Post-at, Runs-if}
use serf_cpp.Safety.Invariant.{IsSafe, Within, Held, Frame-refl}
use serf_cpp.Safety.Registry.{remove_channel-Within}
use serf_cpp.Safety.Loop.{Tied, Never, background-Tied}

module _ ⦃m : Msgpack⦄ where
  -- between calls, with a channel on the caller's stack to which nothing points
  pub record Owned (p : ℕ) (w : World) : Type 0 where
    pub safe : IsSafe w
    pub held : Held p w

  -- the same, before the request is sent
  pub record Ready (p : ℕ) (w : World) : Type 0 where
    pub owned : Owned p w
    pub idle : (c : ResultChannel) → w.memory p ≡ some (result c) → c.data_pending ≡ false

  -- after sendData: only the entry of the request points to the channel, and only if it was sent
  pub record Dispatched (p : ℕ) (sent : Bool × ℕ) (w : World) : Type 0 where
    pub safe : IsSafe w
    pub there : (c : ResultChannel) × (w.memory p ≡ some (result c))
    pub only : (k : ℕ) → pointer k w.channels ≡ some p → (sent.0 ≡ true) × (k ≡ sent.1)

  -- load_result finds the caller's channel
  abbrev Read : World → ℕ → ResultChannel → World → Type 0
  Read before p c w = Tied before w × (w.memory p ≡ some (result c))

  load_result-Read :
      (before : World) (p : ℕ)
      → (c : ResultChannel) × (before.memory p ≡ some (result c))
      → Runs (Tied before) Never (load_result p) (Read before p)
  unfolding load_result load ◌>>=◌
  load_result-Read before p (c, e) = record { at = λ w h. go w h (h.frame.stays p c e) }
    where
      go :
          (w : World)
          → Tied before w
          → (d : ResultChannel) × (w.memory p ≡ some (result d))
          → Post Never (Read before p) (load_result p w).0 (load_result p w).1
      go w h (d, there) = rw (there, load) (h, there)

  pub consume-Tied :
      (before : World) (p : ℕ) (bs : List Batch)
      → (c : ResultChannel) × (before.memory p ≡ some (result c))
      → Runs (Tied before) Never (consume p bs) (λ _. Tied before)
  unfolding consume
  consume-Tied before p [] there = record { at = λ w h. h }
  consume-Tied before p (b ∷ bs) there =
      Runs-bind (Read before p) (load_result p) _ (load_result-Read before p there)
        (λ c. branch c (consume-Tied before p bs there))
    where
      branch :
          (c : ResultChannel)
          → Runs (Tied before) Never (consume p bs) (λ _. Tied before)
          → Runs
              (Read before p c)
              Never
              (if c.data_pending then pure tt else (background (b ∷ []) >> consume p bs))
              (λ _. Tied before)
      branch c rest =
          Runs-if c.data_pending _ _ (λ _. record { at = λ w h. h.0 })
            (λ _.
              Runs-weaken _ (λ w h. h.0) (λ w e. e) (λ _ w h. h)
                (Runs-bind (λ _. Tied before) (background (b ∷ [])) _
                  (background-Tied before (b ∷ [])) (λ _. rest)))

  -- after removeChannel(seq) nothing is registered under seq
  pub remove_channel-gone :
      (seq : ℕ) (w : World) → pointer seq (remove_channel seq w).1.channels ≡ none
  unfolding remove_channel find_channel erase_channel delete_listener load free ◌>>=◌
  remove_channel-gone seq w = ground (arith, pointer-erase seq seq (touch seq w.channels), w.memory)

  -- removeChannel of a request that was not answered
  withdraw :
      (p : ℕ) (seq : ℕ) (w : World)
      → IsSafe w
      → ((k : ℕ) → pointer k w.channels ≡ some p → k ≡ seq)
      → (c : ResultChannel) × (w.memory p ≡ some (result c))
      → Post Never (λ _. Owned p) (remove_channel seq w).0 (remove_channel seq w).1
  withdraw p seq w safe only (c, e) =
      Post-at Never (λ _. Within w (m.size w.unpacker)) (λ _. Owned p) (remove_channel seq w).0 v
        (λ _ h. record {
          safe = h.safe;
          held = record {
            loose = λ k d. left k d (only k (h.frame.kept k p d));
            there = h.frame.stays p c e;
          };
        })
        ((remove_channel-Within {E = Never} w (m.size w.unpacker) seq).at w
          (record { safe = safe; frame = Frame-refl w; small = omega arith }))
    where
      v : World
      v = (remove_channel seq w).1

      left : (k : ℕ) → pointer k v.channels ≡ some p → k ≡ seq → ⊥
      left k d same = cc (remove_channel-gone seq w)

  pub remove_channel-Owned : (p seq : ℕ) → Runs (Owned p) Never (remove_channel seq) (λ _. Owned p)
  remove_channel-Owned p seq = record {
    at = λ w h. withdraw p seq w h.safe (λ k e. absurd (h.held.loose k e)) h.held.there;
  }

  -- The wait for a reply ends with nothing that points to the channel.
  pub await_reply-Owned :
      {A : Type 0} (p : ℕ) (env : Env) (sent : Bool × ℕ) (failed timed_out : A)
      (reply : ResultChannel → M A)
      → ((c : ResultChannel) → Runs (Owned p) Never (reply c) (λ _. Owned p))
      → Runs
          (Dispatched p sent)
          Never
          (await_reply p env sent failed timed_out reply)
          (λ _. Owned p)
  unfolding await_reply
  await_reply-Owned p env sent failed timed_out reply h =
      Runs-if sent.0 _ _
        (λ went. record {
          at = λ w d. (waited w d).at w (record { safe = d.safe; frame = Frame-refl w });
        })
        (λ not_sent. record {
          at = λ w d. record {
            safe = d.safe;
            held = record { loose = λ k e. cc (d.only k e).0; there = d.there };
          };
        })
    where
      settle :
          (before : World)
          → Dispatched p sent before
          → (c : ResultChannel)
          → Runs
              (Read before p c)
              Never
              (if c.data_pending then reply c else (remove_channel sent.1 >> pure timed_out))
              (λ _. Owned p)
      settle before d c =
          Runs-if c.data_pending _ _
            (λ pending.
              Runs-weaken _
                (λ w r. record {
                  safe = r.0.safe;
                  held = record {
                    loose = λ k e. cc (r.0.safe.waiting k p c e r.1);
                    there = (c, r.1);
                  };
                })
                (λ w e. e) (λ _ w o. o) (h c))
            (λ _.
              Runs-bind (λ _. Owned p) (remove_channel sent.1) _
                (record {
                  at = λ w r.
                      withdraw p sent.1 w r.0.safe (λ k e. (d.only k (r.0.frame.kept k p e)).1)
                        (c, r.1);
                })
                (λ _. record { at = λ w o. o }))

      waited :
          (before : World)
          → Dispatched p sent before
          → Runs
              (Tied before)
              Never
              (consume p env.arrivals >>= λ _. load_result p >>= λ c.
                if c.data_pending then reply c else (remove_channel sent.1 >> pure timed_out))
              (λ _. Owned p)
      waited before d =
          Runs-bind (λ _. Tied before) (consume p env.arrivals) _
            (consume-Tied before p env.arrivals d.there)
            λ _.
              Runs-bind (Read before p) (load_result p) _ (load_result-Read before p d.there)
                (settle before d)
