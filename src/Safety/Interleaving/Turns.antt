-- ===== src/Safety/Interleaving/Turns.antt =====
-- One turn of either side.
use serf_cpp.Prelude.{
  ℕ, Bool, true, false, Option, none, some, ◌≡◌, ◌≢◌, refl, arith, inl, inr, Bool-cases,
}
use serf_cpp.Msgpack.{Msgpack}
use serf_cpp.Exec.{Result, ok, raised, terminated, dangling, stalled, pure, ◌>>=◌}
use serf_cpp.SeqMap.{pointer, erase, touch, pointer-erase}
use serf_cpp.Channel.{World, result}
use serf_cpp.Channel.Memory.{update, load, free}
use serf_cpp.IoThread.{remove_channel, find_channel, erase_channel, delete_listener}
use serf_cpp.IoThread.Rpc.{escaping}
use serf_cpp.IoThread.Wait.{load_result, as_result}
use serf_cpp.IoThread.Interleaving.{
  Delivery, Caller, waiting, expired, leaving, gone, Race, holds, Side, caller_turn, thread_turn,
  caller_step, thread_step, step, placed,
}
use serf_cpp.Prelude.{suc, ◌<◌, subst}
use serf_cpp.SeqMap.{SeqMap, assign, pointer-assign}
use serf_cpp.Channel.{Channel, channel_type}
use serf_cpp.Channel.Memory.{allocate}
use serf_cpp.Msg.Headers.{ResponseHeader}
use serf_cpp.IoThread.{
  is_request, set_channel, add_log_channel, add_event_channel, add_query_channel,
}
use serf_cpp.IoThread.Interleaving.{
  FollowUp, keeps, adds_log, adds_event, adds_query, stops, replied, follow_up,
}
use serf_cpp.Client.{SerfResponse, success, failure, timeout, response_of}
use serf_cpp.Client.Listening.{on_success}
use serf_cpp.Safety.Loop.{Never}
use serf_cpp.Safety.Send.{add_Owned}
use serf_cpp.Safety.Wait.{Owned, remove_channel-Owned}
use serf_cpp.Safety.Interleaving.{Holding}
use serf_cpp.Safety.Triple.{Post}
use serf_cpp.Safety.Invariant.{IsSafe-fewer, IsSafe-update, erase-fewer, touch-fewer, there-lt}
use serf_cpp.Safety.Interleaving.{
  Loose, Holding-moved, held-Grip, Waits, Stands, Stands-framed, is_done, IsConsistent,
}
use serf_cpp.Safety.Interleaving.Thread.{Moved, thread_step-Moved}

-- the channel that the SUCCESS branch of a method deregisters
abbrev pub stop_target : SerfResponse → FollowUp → SeqMap → Option ℕ
stop_target success (stops stop_seq) channels = pointer stop_seq channels
stop_target _ f channels = none

-- The channel that the caller's next step takes away: its own at the end of the scope, and the one
-- that Stop deregisters.
abbrev pub target : ℕ → FollowUp → Caller → SeqMap → Option ℕ
target p f (leaving answered) channels = some p
target p f (replied hdr) channels = stop_target (response_of hdr) f channels
target p f _ channels = none

abbrev pub holds_any : Option ℕ → Delivery → Bool
holds_any none d = false
holds_any (some q) d = holds q d

module _ ⦃m : Msgpack⦄ (p seq : ℕ) (f : FollowUp) where
  -- a consistent state, or the end of the program
  abbrev pub Fine : Result Race → Type 0
  Fine (ok r) = IsConsistent p seq r
  Fine terminated = Unit
  Fine raised = ⊥
  Fine dangling = ⊥
  Fine stalled = ⊥

  -- The turn would take a channel away while the I/O thread has a pointer to it.
  abbrev pub is_harmful : Side → Race → Bool
  is_harmful thread_turn r = false
  is_harmful caller_turn r = holds_any (target p f r.caller r.world.channels) r.delivery

  placed-Fine :
      (d : Delivery) (c : Caller) (w : World)
      → IsConsistent p seq (record { world = w; delivery = d; caller = c })
      → (r : Result Delivery) (v : World) → Post (λ _. Unit) (Moved w d) r v
      → Fine (placed (λ e u. record { world = u; delivery = e; caller = c }) (escaping r) v)
  placed-Fine d c w h (ok e) v q = record {
    safe = q.safe;
    mine = Stands-framed p seq c w v q.frame h.mine;
    held = q.held;
    apart = λ done. q.known p (no_pointer c done h.mine) (h.apart done);
  }
    where
      no_pointer : (c : Caller) → is_done c ≡ true → Stands p seq c w → Loose p w
      no_pointer waiting e s = absurd (cc e)
      no_pointer expired e s = absurd (cc e)
      no_pointer (replied hdr) e s = s.1
      no_pointer (leaving answered) e s = s.1
      no_pointer gone e s = s
  placed-Fine d c w h raised v q = tt
  placed-Fine d c w h terminated v q = tt
  placed-Fine d c w h dangling v q = q
  placed-Fine d c w h stalled v q = q

  pub thread_turn-Fine : (r : Race) → IsConsistent p seq r → Fine (step p seq f thread_turn r)
  unfolding step
  thread_turn-Fine r h =
      placed-Fine r.delivery r.caller r.world h (thread_step r.delivery r.world).0
        (thread_step r.delivery r.world).1 (thread_step-Moved r.world r.delivery h.safe h.held)

  -- removeChannel of the caller's own request
  pub remove_channel-own :
      (w : World)
      → Waits p seq w
      → remove_channel seq w ≡ (ok tt, record w { channels = erase seq (touch seq w.channels) })
  unfolding remove_channel find_channel erase_channel delete_listener load ◌>>=◌
  remove_channel-own w h = go (pointer seq w.channels) refl
    where
      go :
          (o : Option ℕ)
          → pointer seq w.channels ≡ o
          → remove_channel seq w ≡ (ok tt, record w { channels = erase seq (touch seq w.channels) })
      go none e = rw e
      go (some q) e = rw (e, h.own q e, h.there.1)

  read_Fine :
      (w : World) (d : Delivery)
      → IsConsistent p seq (record { world = w; delivery = d; caller = waiting })
      → Fine (step p seq f caller_turn (record { world = w; delivery = d; caller = waiting }))
  unfolding step caller_step load_result as_result load ◌>>=◌
  read_Fine w d h =
      let c = h.mine.there.0 in
      let e = h.mine.there.1 in
      elim (Bool-cases c.data_pending) [
        | inl pending ↦
            rw (e, load, pending)
              (record {
                safe = h.safe;
                mine = (h.mine.there, λ k x. cc (h.safe.waiting k p c x e));
                held = h.held;
                apart = λ _. elim (Bool-cases (holds p d)) [
                  | inl has ↦ cc ((held-Grip p d w h.held has).idle c e)
                  | inr not_held ↦ not_held
                ];
              })
        | inr nothing_yet ↦
            rw (e, load, nothing_yet)
              (record { safe = h.safe; mine = h.mine; held = h.held; apart = λ x. absurd (cc x) })
      ]

  withdraw_Fine :
      (w : World) (d : Delivery)
      → IsConsistent p seq (record { world = w; delivery = d; caller = expired })
      → Fine (step p seq f caller_turn (record { world = w; delivery = d; caller = expired }))
  unfolding step caller_step ◌>>=◌
  withdraw_Fine w d h = rw (remove_channel-own w h.mine) (record {
    safe = IsSafe-fewer w v fewer refl refl h.safe;
    mine = (h.mine.there, λ k x. erased k (h.mine.only k (fewer k p x)) x);
    held = Holding-moved d w v (λ k q _. fewer k q) (λ q e. refl) h.held;
    apart = λ x. absurd (cc x);
  })
    where
      v : World
      v = record w { channels = erase seq (touch seq w.channels) }

      fewer : (k q : ℕ) → pointer k v.channels ≡ some q → pointer k w.channels ≡ some q
      fewer k q e =
          touch-fewer seq w k q
            (erase-fewer seq (record w { channels = touch seq w.channels }) k q e)

      erased : (k : ℕ) → k ≡ seq → pointer k v.channels ≢ some p
      erased k e x = ground (arith, pointer-erase seq k (touch seq w.channels))

  -- what the caller has while it looks at its reply
  owned :
      (w : World) (d : Delivery) (hdr : ResponseHeader)
      → IsConsistent p seq (record { world = w; delivery = d; caller = replied hdr })
      → Owned p w
  owned w d hdr h = record { safe = h.safe; held = record { loose = h.mine.1; there = h.mine.0 } }

  -- the caller goes on to the end of the scope in a world that the thread has not seen
  settled :
      (w v : World) (d : Delivery) (hdr : ResponseHeader)
      → IsConsistent p seq (record { world = w; delivery = d; caller = replied hdr })
      → Owned p v
      → Holding d v
      → Fine (ok (record { world = v; delivery = d; caller = leaving true }))
  settled w v d hdr h o held = record {
    safe = o.safe;
    mine = (o.held.there, o.held.loose);
    held = held;
    apart = λ _. h.apart refl;
  }

  abbrev added : World → ℕ → Channel → World
  added w n c = record w {
    memory = update w.memory w.next_address (some c);
    next_address = suc w.next_address;
    channels = assign n (some w.next_address) w.channels;
  }

  added-Fine :
      (w : World) (d : Delivery) (hdr : ResponseHeader) (c : Channel)
      → is_request (channel_type c) ≡ false
      → IsConsistent p seq (record { world = w; delivery = d; caller = replied hdr })
      → Fine (ok (record { world = added w hdr.seq c; delivery = d; caller = leaving true }))
  unfolding allocate set_channel ◌>>=◌
  added-Fine w d hdr c listener h =
      settled w (added w hdr.seq c) d hdr h
        ((add_Owned p hdr.seq c listener).at w (owned w d hdr h))
        (Holding-moved d w (added w hdr.seq c) other (λ q has. ground (arith, below q has)) h.held)
    where
      below : (q : ℕ) → holds q d ≡ true → q < w.next_address
      below q has = let (c, e) = (held-Grip q d w h.held has).there in there-lt w q c h.safe e

      other :
          (k q : ℕ)
          → holds q d ≡ true
          → pointer k (assign hdr.seq (some w.next_address) w.channels) ≡ some q
          → pointer k w.channels ≡ some q
      other k q has e =
          ground (arith, below q has, pointer-assign hdr.seq k (some w.next_address) w.channels)

  -- the world in which Stop has deregistered n, and perhaps deleted its channel
  abbrev without : World → ℕ → (ℕ → Option Channel) → World
  without w n memory = record w { channels = erase n (touch n w.channels); memory = memory }

  without-Fine :
      (w : World) (d : Delivery) (hdr : ResponseHeader) (n : ℕ) (memory : ℕ → Option Channel)
      → IsConsistent p seq (record { world = w; delivery = d; caller = replied hdr })
      → remove_channel n w ≡ (ok tt, without w n memory)
      → ((q : ℕ) → holds q d ≡ true → memory q ≡ w.memory q)
      → Fine (ok (record { world = without w n memory; delivery = d; caller = leaving true }))
  without-Fine w d hdr n memory h e same =
      settled w (without w n memory) d hdr h
        (subst (λ r. Post Never (λ _. Owned p) r.0 r.1) e
          ((remove_channel-Owned p n).at w (owned w d hdr h)))
        (Holding-moved d w (without w n memory)
          (λ k q _ x.
            touch-fewer n w k q (erase-fewer n (record w { channels = touch n w.channels }) k q x))
          same h.held)

  -- Stop's removeChannel, by what is registered under the number
  stop_Fine :
      (w : World) (d : Delivery) (hdr : ResponseHeader) (n : ℕ)
      → IsConsistent p seq (record { world = w; delivery = d; caller = replied hdr })
      → (o : Option ℕ) → pointer n w.channels ≡ o
      → holds_any o d ≡ false
      → (memory : ℕ → Option Channel) × ((remove_channel n w ≡ (ok tt, without w n memory))
          × Fine (ok (record { world = without w n memory; delivery = d; caller = leaving true })))
  unfolding remove_channel find_channel erase_channel delete_listener load free ◌>>=◌
  stop_Fine w d hdr n h none e apart =
      let removed : remove_channel n w ≡ (ok tt, without w n w.memory) = rw e in
      (w.memory, (removed, without-Fine w d hdr n w.memory h removed (λ q has. refl)))
  stop_Fine w d hdr n h (some q) e apart = by_type (h.safe.live n q e)
    where
      other : (x : ℕ) → holds x d ≡ true → update w.memory q none x ≡ w.memory x
      other x has = let different : q ≢ x = λ same. cc in ground (arith, different)

      deleted :
          remove_channel n w ≡ (ok tt, without w n (update w.memory q none))
          → (memory : ℕ → Option Channel) × ((remove_channel n w ≡ (ok tt, without w n memory))
              × Fine
                  (ok (record { world = without w n memory; delivery = d; caller = leaving true })))
      deleted removed = (
        update w.memory q none,
        (removed, without-Fine w d hdr n (update w.memory q none) h removed other),
      )

      by_type :
          (c : Channel) × (w.memory q ≡ some c)
          → (memory : ℕ → Option Channel) × ((remove_channel n w ≡ (ok tt, without w n memory))
              × Fine
                  (ok (record { world = without w n memory; delivery = d; caller = leaving true })))
      by_type (Channel.result c, there) =
          let removed : remove_channel n w ≡ (ok tt, without w n w.memory) = rw (e, there, load) in
          (w.memory, (removed, without-Fine w d hdr n w.memory h removed (λ x has. refl)))
      by_type (Channel.log l, there) = deleted (rw (e, there, load))
      by_type (Channel.event l, there) = deleted (rw (e, there, load))
      by_type (Channel.query l, there) = deleted (rw (e, there, load))

  -- the SUCCESS branch, and the end of it
  follow_Fine :
      (w : World) (d : Delivery) (hdr : ResponseHeader) (r : SerfResponse)
      → IsConsistent p seq (record { world = w; delivery = d; caller = replied hdr })
      → holds_any (stop_target r f w.channels) d ≡ false
      → Fine (
          placed
            (λ c v. record { world = v; delivery = d; caller = c })
            ((on_success r (follow_up f hdr.seq) >>= λ _. pure (leaving true)) w).0
            ((on_success r (follow_up f hdr.seq) >>= λ _. pure (leaving true)) w).1)
  unfolding follow_up add_log_channel add_event_channel add_query_channel allocate set_channel ◌>>=◌
  follow_Fine w d hdr failure h apart = settled w w d hdr h (owned w d hdr h) h.held
  follow_Fine w d hdr timeout h apart = settled w w d hdr h (owned w d hdr h) h.held
  follow_Fine w d hdr success h apart = by_method f apart
    where
      by_method :
          (g : FollowUp)
          → holds_any (stop_target success g w.channels) d ≡ false
          → Fine (
              placed
                (λ c v. record { world = v; delivery = d; caller = c })
                ((follow_up g hdr.seq >>= λ _. pure (leaving true)) w).0
                ((follow_up g hdr.seq >>= λ _. pure (leaving true)) w).1)
      by_method keeps apart = settled w w d hdr h (owned w d hdr h) h.held
      by_method (adds_log l) apart = added-Fine w d hdr (Channel.log l) refl h
      by_method (adds_event l) apart = added-Fine w d hdr (Channel.event l) refl h
      by_method (adds_query l) apart = added-Fine w d hdr (Channel.query l) refl h
      by_method (stops n) apart =
          let (memory, (removed, fine)) = stop_Fine w d hdr n h (pointer n w.channels) refl apart in
          rw removed fine

  reply_Fine :
      (w : World) (d : Delivery) (hdr : ResponseHeader)
      → IsConsistent p seq (record { world = w; delivery = d; caller = replied hdr })
      → holds_any (stop_target (response_of hdr) f w.channels) d ≡ false
      → Fine (step p seq f caller_turn (record { world = w; delivery = d; caller = replied hdr }))
  unfolding step caller_step
  reply_Fine w d hdr h apart = follow_Fine w d hdr (response_of hdr) h apart

  free-Fine :
      (w : World) (d : Delivery) (answered : Bool)
      → IsConsistent p seq (record { world = w; delivery = d; caller = leaving answered })
      → holds p d ≡ false
      → Fine
          (step p seq f caller_turn (record { world = w; delivery = d; caller = leaving answered }))
  unfolding step caller_step free ◌>>=◌
  free-Fine w d answered h apart = record {
    safe =
        IsSafe-update w p none h.mine.1 (there-lt w p (result h.mine.0.0) h.safe h.mine.0.1) h.safe;
    mine = h.mine.1;
    held =
        Holding-moved d w (record w { memory = update w.memory p none }) (λ k q _ e. e)
          (λ q has. other q (different q has)) h.held;
    apart = λ _. apart;
  }
    where
      different : (q : ℕ) → holds q d ≡ true → p ≢ q
      different q has e = cc

      other : (q : ℕ) → p ≢ q → update w.memory p none q ≡ w.memory q
      other q ne = ground (arith, ne)

  caller_turn-Fine :
      (w : World) (d : Delivery) (c : Caller)
      → IsConsistent p seq (record { world = w; delivery = d; caller = c })
      → holds_any (target p f c w.channels) d ≡ false
      → Fine (step p seq f caller_turn (record { world = w; delivery = d; caller = c }))
  unfolding step caller_step
  caller_turn-Fine w d waiting h e = read_Fine w d h
  caller_turn-Fine w d expired h e = withdraw_Fine w d h
  caller_turn-Fine w d (replied hdr) h e = reply_Fine w d hdr h e
  caller_turn-Fine w d (leaving answered) h e = free-Fine w d answered h e
  caller_turn-Fine w d gone h e = record {
    safe = h.safe;
    mine = h.mine;
    held = h.held;
    apart = h.apart;
  }

  -- A turn that is not harmful keeps the state consistent.
  pub turn-Fine :
      (s : Side) (r : Race)
      → IsConsistent p seq r
      → is_harmful s r ≡ false
      → Fine (step p seq f s r)
  turn-Fine thread_turn r h e = thread_turn-Fine r h
  turn-Fine caller_turn r h e = caller_turn-Fine r.world r.delivery r.caller h e
