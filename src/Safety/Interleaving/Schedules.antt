-- ===== src/Safety/Interleaving/Schedules.antt =====
-- Turns in any order: which orders are safe, and one that is not.
use serf_cpp.Prelude.{
  ap, ℕ, Bool, true, false, ◌||◌, none, some, List, [], ◌∷◌, ◌≡◌, refl, ◌≢◌, ◌∙◌, arith, ◌==◌,
}
use serf_cpp.Msgpack.{Msgpack}
use serf_cpp.Exec.{Result, ok, raised, terminated, dangling, stalled, catch, ◌>>=◌}
use serf_cpp.SeqMap.{pointer, assign, erase, touch, pointer-assign}
use serf_cpp.Channel.{Reply, ResultChannel, World, result, new_result}
use serf_cpp.Channel.Memory.{allocate, update, load, free}
use serf_cpp.IoThread.{erase_channel}
use serf_cpp.IoThread.Wait.{load_result, as_result}
use serf_cpp.IoThread.Interleaving.{
  Delivery, between, found, typed, claimed, waiting, Caller, Race, holds, Side, caller_turn,
  thread_turn, caller_step, thread_step, step, interleave, next, gone, FollowUp, stops, replied,
  leaving,
}
use serf_cpp.Outcome.Asking.{ready, sent_off}
use serf_cpp.Msg.Headers.{ResponseHeader}
use serf_cpp.Channel.{Channel}
use serf_cpp.IoThread.Interleaving.{follow_up}
use serf_cpp.Route.{is_listener}
use serf_cpp.Route.Single.{remove_channel-listener}
use serf_cpp.Safety.Invariant.{IsSafe}
use serf_cpp.Safety.Send.{IsSafe-assign, allocate-Ready}
use serf_cpp.Safety.Wait.{Ready}
use serf_cpp.Safety.Interleaving.{IsConsistent, held-Grip, Waits}
use serf_cpp.Safety.Interleaving.Turns.{Fine, is_harmful, turn-Fine, remove_channel-own}

module _ ⦃m : Msgpack⦄ where
  abbrev pub on_return : (Race → Bool) → Result Race → Bool
  on_return f (ok r) = f r
  on_return f _ = false

  -- what holds after allocation and a sendData that was accepted, with the I/O thread between messages
  abbrev pub started : World → Reply → List m.Object → Race
  started w r message = record {
    world = sent_off w r message;
    delivery = between;
    caller = waiting;
  }

  module _ (p seq : ℕ) (f : FollowUp) where
    -- some turn of the schedule is harmful
    unfoldable pub is_raced : List Side → Race → Bool
    unfolding step
    is_raced [] r = false
    is_raced (s ∷ ss) r = is_harmful p seq f s r || on_return (is_raced ss) (step p seq f s r)

    -- Every turn of a schedule without a harmful one keeps the state consistent.
    pub interleave-Fine :
        (ss : List Side) (r : Race)
        → IsConsistent p seq r
        → is_raced ss r ≡ false
        → Fine p seq f (interleave p seq f ss r)
    unfolding interleave is_raced
    interleave-Fine [] r h e = h
    interleave-Fine (s ∷ ss) r h e =
        go (step p seq f s r) (turn-Fine p seq f s r h first) others (interleave-Fine ss)
      where
        first : is_harmful p seq f s r ≡ false
        first = ground (arith, e)

        others : on_return (is_raced ss) (step p seq f s r) ≡ false
        others = ground (arith, e)

        go :
            (o : Result Race)
            → Fine p seq f o
            → on_return (is_raced ss) o ≡ false
            → ((v : Race)
                → IsConsistent p seq v
                → is_raced ss v ≡ false
                → Fine p seq f (interleave p seq f ss v))
            → Fine p seq f (next (interleave p seq f ss) o)
        go (ok v) q x later = later v q x
        go raised q x later = q
        go terminated q x later = q
        go dangling q x later = q
        go stalled q x later = q

    -- the caller gives up: no data, removeChannel, and the end of the scope
    gave_up :
        (w : World) (d : Delivery)
        → Waits p seq w
        → ((c : ResultChannel) → w.memory p ≡ some (result c) → c.data_pending ≡ false)
        → (ss : List Side)
        → interleave p seq f
            (caller_turn ∷ caller_turn ∷ caller_turn ∷ ss)
            (record { world = w; delivery = d; caller = waiting })
          ≡ interleave p seq f ss (record {
            world = record w {
              channels = erase seq (touch seq w.channels);
              memory = update w.memory p none;
            };
            delivery = d;
            caller = gone;
          })
    unfolding interleave step caller_step load_result as_result load free ◌>>=◌
    gave_up w d h idle ss =
        rw (h.there.1, load, idle h.there.0 h.there.1, remove_channel-own p seq f w h)

    same : {q : ℕ} (x : ℕ) → (x == q) ≡ true → x ≡ q
    same x e = ground arith

    -- the thread uses a pointer to a channel that is gone
    used :
        (q : ℕ) (v : World) (d : Delivery) (c : Caller)
        → v.memory q ≡ none
        → holds q d ≡ true
        → interleave p seq f
            (thread_turn ∷ thread_turn ∷ [])
            (record { world = v; delivery = d; caller = c })
          ≡ dangling
    unfolding interleave step thread_step load erase_channel catch ◌>>=◌
    used q v between c e has = cc
    used q v (found none hdr) c e has = cc
    used q v (found (some x) hdr) c e has =
        let lost : v.memory x ≡ none = ap v.memory (same x has) ∙ e in rw (lost, load)
    used q v (typed x hdr true) c e has =
        let lost : v.memory x ≡ none = ap v.memory (same x has) ∙ e in rw (lost, load)
    used q v (typed x hdr false) c e has =
        let lost : v.memory x ≡ none = ap v.memory (same x has) ∙ e in rw (lost, load)
    used q v (claimed x hdr) c e has =
        let lost : v.memory x ≡ none = ap v.memory (same x has) ∙ e in rw (lost, load)

    -- If, in a consistent state, the caller waits and the I/O thread has a pointer to its channel,
    -- and then the caller times out and returns before the thread takes two more turns, the thread
    -- follows a dangling pointer.
    pub interleave-dangling :
        (w : World) (d : Delivery)
        → IsConsistent p seq (record { world = w; delivery = d; caller = waiting })
        → holds p d ≡ true
        → interleave p seq f
            (caller_turn ∷ caller_turn ∷ caller_turn ∷ thread_turn ∷ thread_turn ∷ [])
            (record { world = w; delivery = d; caller = waiting })
          ≡ dangling
    unfolding interleave step thread_step load catch ◌>>=◌
    interleave-dangling w d h e =
        gave_up w d h.mine (held-Grip p d w h.held e).idle (thread_turn ∷ thread_turn ∷ [])
        ∙ used p v d gone (ground arith) e
      where
        v : World
        v = record w {
          channels = erase seq (touch seq w.channels);
          memory = update w.memory p none;
        }

  pub started-IsConsistent :
      (w : World) (r : Reply) (message : List m.Object)
      → IsSafe w
      → IsConsistent w.next_address w.seq (started w r message)
  started-IsConsistent w r message safe = record {
    safe = record { live = h.live; alone = h.alone; fresh = h.fresh; waiting = h.waiting };
    mine = record {
      there = (new_result r, ground arith);
      only =
          λ k e. ground (arith, pointer-assign w.seq k (some w.next_address) w.channels, loose k);
      own = λ q e. ground (arith, pointer-assign w.seq w.seq (some w.next_address) w.channels);
    };
    held = tt;
    apart = λ e. refl;
  }
    where
      start : Ready w.next_address (ready w r)
      start = unfold allocate in (allocate-Ready r).at w safe

      loose : (k : ℕ) → pointer k w.channels ≢ some w.next_address
      loose = start.owned.held.loose

      h : IsSafe (record (ready w r) { channels = assign w.seq (some w.next_address) w.channels })
      h =
          IsSafe-assign (ready w r) w.seq w.next_address (result (new_result r)) start.owned.safe
            start.owned.held.loose (ground arith) (λ c e. start.idle c (ground (arith, e)))

  -- If, in a consistent state, Stop has a reply without an error, and the I/O thread has a pointer to
  -- the channel of the listener that is registered under the number to stop, and then Stop
  -- deregisters it before the thread takes two more turns, the thread follows a dangling pointer.
  pub interleave-stopped :
      (p seq stop_seq q : ℕ) (c : Channel) (hdr : ResponseHeader) (w : World) (d : Delivery)
      → IsConsistent p seq (record { world = w; delivery = d; caller = replied hdr })
      → hdr.error ≡ ""
      → pointer stop_seq w.channels ≡ some q
      → w.memory q ≡ some c
      → is_listener c ≡ true
      → holds q d ≡ true
      → interleave p seq
          (stops stop_seq)
          (caller_turn ∷ thread_turn ∷ thread_turn ∷ [])
          (record { world = w; delivery = d; caller = replied hdr })
        ≡ dangling
  unfolding interleave step caller_step follow_up ◌>>=◌
  interleave-stopped p seq stop_seq q c hdr w d h fine registered there listener has =
      rw (fine, remove_channel-listener w stop_seq q c listener registered there)
        (used p seq (stops stop_seq) q
          (record w { channels = erase stop_seq w.channels; memory = update w.memory q none }) d
          (leaving true) (ground arith) has)

  -- After the request of a method has been sent from a safe state, let its caller, up to the end of
  -- the method, and the I/O thread take turns in any order. If the caller never takes a channel away
  -- while the thread has a pointer to it, be it the caller's own at the end of its scope or the one
  -- that Stop deregisters, then no dangling pointer is followed, and the run ends in a consistent
  -- state or the program ends. In a consistent state nothing points to a channel whose reply the
  -- caller has.
  pub interleave-sent :
      (w : World) (r : Reply) (message : List m.Object) (f : FollowUp) (ss : List Side)
      → IsSafe w
      → is_raced w.next_address w.seq f ss (started w r message) ≡ false
      → Fine w.next_address w.seq f (interleave w.next_address w.seq f ss (started w r message))
  interleave-sent w r message f ss safe e =
      interleave-Fine w.next_address w.seq f ss (started w r message)
        (started-IsConsistent w r message safe) e
