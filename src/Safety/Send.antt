-- ===== src/Safety/Send.antt =====
-- Sending a request, and the scope of its channel.
use serf_cpp.Prelude.{
  ℕ, suc, ◌+◌, ◌%◌, ◌^◌, ◌≤◌, Bool, true, false, ◌&&◌, none, some, List, ◌++◌, ◌≡◌, ◌≢◌, refl, ap,
  arith, ◌==◌, if◌then◌else◌, Bool-cases, inl, inr, ◌⊎◌,
}
use serf_cpp.Msgpack.{Msgpack}
use serf_cpp.Exec.{modify, ◌>>=◌, ◌>>◌, pure}
use serf_cpp.SeqMap.{pointer, assign, pointer-assign}
use serf_cpp.Msg.Headers.{RequestHeader}
use serf_cpp.Channel.{Channel, ResultChannel, World, Reply, new_result, channel_type, result}
use serf_cpp.Channel.Memory.{M, allocate, free, update}
use serf_cpp.IoThread.{
  send_data, send_header, transmit, take_seq, set_channel, is_connected, is_request,
}
use serf_cpp.IoThread.Wait.{with_result}
use serf_cpp.Safety.Triple.{Runs, Runs-bind, Runs-if}
use serf_cpp.Safety.Invariant.{IsSafe, IsSafe-fewer, IsSafe-update, there-lt}
use serf_cpp.Safety.Loop.{Never}
use serf_cpp.Safety.Wait.{Owned, Ready, Dispatched}

module _ ⦃m : Msgpack⦄ where
  -- Registering a channel to which nothing points.
  pub IsSafe-assign :
      (w : World) (seq p : ℕ) (c : Channel)
      → IsSafe w
      → ((k : ℕ) → pointer k w.channels ≢ some p)
      → w.memory p ≡ some c
      → ((r : ResultChannel) → c ≡ result r → r.data_pending ≡ false)
      → IsSafe (record w { channels = assign seq (some p) w.channels })
  IsSafe-assign w seq p c h loose there idle = record {
    live = λ k q e. live k q e (Bool-cases (seq == k));
    alone = λ j k q d e. ground (
      arith,
      pointer-assign seq j (some p) w.channels,
      pointer-assign seq k (some p) w.channels,
      h.alone j k q,
      loose j,
      loose k,
    );
    fresh = h.fresh;
    waiting = λ k q r e d. waiting k q r e d (Bool-cases (seq == k));
  }
    where
      live :
          (k q : ℕ)
          → pointer k (assign seq (some p) w.channels) ≡ some q
          → ((seq == k) ≡ true) ⊎ ((seq == k) ≡ false)
          → (d : Channel) × (w.memory q ≡ some d)
      live k q e (inl hit) = (
        c,
        ground (arith, pointer-assign seq k (some p) w.channels, (λ (x : p ≡ q). ap w.memory x)),
      )
      live k q e (inr miss) = h.live k q (ground (arith, pointer-assign seq k (some p) w.channels))

      waiting :
          (k q : ℕ) (r : ResultChannel)
          → pointer k (assign seq (some p) w.channels) ≡ some q
          → w.memory q ≡ some (result r)
          → ((seq == k) ≡ true) ⊎ ((seq == k) ≡ false)
          → r.data_pending ≡ false
      waiting k q r e d (inl hit) =
          idle r (
            ground
              (arith, pointer-assign seq k (some p) w.channels, (λ (x : p ≡ q). ap w.memory x)))
      waiting k q r e d (inr miss) =
          h.waiting k q r (ground (arith, pointer-assign seq k (some p) w.channels)) d

  -- the state when the request's channel has been registered
  sent_Dispatched :
      (w : World) (seq p : ℕ)
      → Ready p w
      → Dispatched p (true, seq) (record w { channels = assign seq (some p) w.channels })
  sent_Dispatched w seq p h = record {
    safe =
        IsSafe-assign w seq p (result h.owned.held.there.0) h.owned.safe h.owned.held.loose
          h.owned.held.there.1 (λ r e. h.idle r (cc h.owned.held.there.1));
    there = h.owned.held.there;
    only = λ k e.
        (refl, ground (arith, pointer-assign seq k (some p) w.channels, h.owned.held.loose k));
  }

  -- Ready does not look at the rest of the thread's state
  Ready-same :
      (p : ℕ) (w v : World)
      → v.channels ≡ w.channels
      → v.memory ≡ w.memory
      → v.next_address ≡ w.next_address
      → Ready p w
      → Ready p v
  Ready-same p w v a b c h = record {
    owned = record {
      safe = IsSafe-fewer w v (λ k q e. rw (← a) e) b c h.owned.safe;
      held = record {
        loose = λ k e. h.owned.held.loose k (rw (← a) e);
        there = (h.owned.held.there.0, rw b h.owned.held.there.1);
      };
    };
    idle = λ r e. h.idle r (rw (← b) e);
  }

  transmit-Dispatched :
      (message : List m.Object) (seq p : ℕ) (accepts : Bool) (old : ℕ)
      → Runs (Ready p) Never (transmit message seq p accepts old) (Dispatched p)
  unfolding transmit set_channel is_connected ◌>>=◌
  transmit-Dispatched message seq p accepts old =
      Runs-bind (λ _. Ready p) is_connected _ (record { at = λ w h. h })
        λ c.
          Runs-if (c && accepts)
            (modify (λ w. record w { wire = w.wire ++ message })
              >> (set_channel seq p >> pure (true, seq)))
            (pure (false, old))
            (λ _. record {
              at = λ w h.
                  let v : World = record w { wire = w.wire ++ message } in
                  sent_Dispatched v seq p (Ready-same p w v refl refl refl h);
            })
            (λ _. record {
              at = λ w h. record {
                safe = h.owned.safe;
                there = h.owned.held.there;
                only = λ k e. absurd (h.owned.held.loose k e);
              };
            })

  take_seq-Ready : (p : ℕ) → Runs (Ready p) Never take_seq (λ _. Ready p)
  unfolding take_seq
  take_seq-Ready p = record {
    at = λ w h. Ready-same p w (record w { seq = (w.seq + 1) % 2 ^ 64 }) refl refl refl h;
  }

  pub send_data-Dispatched :
      (hdr : RequestHeader) (body : m.Object) (p : ℕ) (accepts : Bool) (old : ℕ)
      → Runs (Ready p) Never (send_data hdr body p accepts old) (Dispatched p)
  unfolding send_data
  send_data-Dispatched hdr body p accepts old =
      Runs-bind (λ _. Ready p) take_seq _ (take_seq-Ready p)
        (λ n. transmit-Dispatched _ n p accepts old)

  pub send_header-Dispatched :
      (hdr : RequestHeader) (p : ℕ) (accepts : Bool) (old : ℕ)
      → Runs (Ready p) Never (send_header hdr p accepts old) (Dispatched p)
  unfolding send_header
  send_header-Dispatched hdr p accepts old =
      Runs-bind (λ _. Ready p) take_seq _ (take_seq-Ready p)
        (λ n. transmit-Dispatched _ n p accepts old)

  -- nothing in the map points past the allocated memory
  unused : (w : World) → IsSafe w → (k : ℕ) → pointer k w.channels ≢ some w.next_address
  unused w h k e =
      let (c, there) = h.live k w.next_address e in cc (h.fresh w.next_address (omega arith))

  -- a fresh object that is not registered yet
  grown : World → Channel → World
  grown w c = record w {
    memory = update w.memory w.next_address (some c);
    next_address = suc w.next_address;
  }

  IsSafe-grown : (w : World) (c : Channel) → IsSafe w → IsSafe (grown w c)
  unfolding grown
  IsSafe-grown w c h = record {
    live = λ k p e. let (d, there) = h.live k p e in (d, rw (old k p e) there);
    alone = h.alone;
    fresh = λ p le. rw (above p le) (h.fresh p (omega arith));
    waiting = λ k p r e d. h.waiting k p r e (rw (old k p e) at d);
  }
    where
      old : (k p : ℕ) → pointer k w.channels ≡ some p → (w.next_address == p) ≡ false
      old k p e = ground (arith, unused w h k)

      above : (p : ℕ) → suc w.next_address ≤ p → (w.next_address == p) ≡ false
      above p le = ground arith

  pub allocate-Ready : (r : Reply) → Runs IsSafe Never (allocate (result (new_result r))) Ready
  unfolding allocate grown
  allocate-Ready r = record {
    at = λ w h. record {
      owned = record {
        safe = IsSafe-grown w (result (new_result r)) h;
        held = record { loose = unused w h; there = (new_result r, ground arith) };
      };
      idle = λ c e. idle w c e;
    };
  }
    where
      idle :
          (w : World) (c : ResultChannel)
          → update w.memory w.next_address (some (result (new_result r))) w.next_address
            ≡ some (result c)
          → c.data_pending ≡ false
      idle w c e = ground arith

  free-IsSafe : (p : ℕ) → Runs (Owned p) Never (free p) (λ _. IsSafe)
  unfolding free
  free-IsSafe p = record {
    at = λ w h.
        IsSafe-update w p none h.held.loose
          (there-lt w p (result h.held.there.0) h.safe h.held.there.1) h.safe;
  }

  pub with_result-IsSafe :
      {A : Type 0} (r : Reply) (body : ℕ → M A)
      → ((p : ℕ) → Runs (Ready p) Never (body p) (λ _. Owned p))
      → Runs IsSafe Never (with_result r body) (λ _. IsSafe)
  unfolding with_result
  with_result-IsSafe r body h =
      Runs-bind Ready (allocate (result (new_result r))) _ (allocate-Ready r) λ p.
        Runs-bind (λ _. Owned p) (body p) _ (h p)
          λ a. Runs-bind (λ _. IsSafe) (free p) _ (free-IsSafe p) (λ _. record { at = λ w s. s })

  -- `new` for a listener's channel, which is then registered
  pub add_Owned :
      (p seq : ℕ) (c : Channel)
      → is_request (channel_type c) ≡ false
      → Runs (Owned p) Never (allocate c >>= λ q. set_channel seq q) (λ _. Owned p)
  unfolding allocate set_channel grown ◌>>=◌
  add_Owned p seq c listener = record {
    at = λ w h. record {
      safe =
          IsSafe-assign (grown w c) seq w.next_address c (IsSafe-grown w c h.safe) (unused w h.safe)
            (ground arith) (λ r e. ground (arith, listener, e));
      held = record {
        loose = λ k e. apart w h k e (pointer-assign seq k (some w.next_address) w.channels);
        there = (h.held.there.0, kept w h);
      };
    };
  }
    where
      apart :
          (w : World)
          → Owned p w
          → (k : ℕ) → pointer k (assign seq (some w.next_address) w.channels) ≡ some p
          → pointer k (assign seq (some w.next_address) w.channels)
            ≡ (if seq == k then some w.next_address else pointer k w.channels)
          → ⊥
      apart w h k e law =
          ground
            (arith, h.held.loose k, law, there-lt w p (result h.held.there.0) h.safe h.held.there.1)

      kept :
          (w : World) (h : Owned p w)
          → update w.memory w.next_address (some c) p ≡ some (result h.held.there.0)
      kept w h =
          ground (arith, h.held.there.1, there-lt w p (result h.held.there.0) h.safe h.held.there.1)
