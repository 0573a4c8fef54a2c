-- ===== src/Safety/Interleaving/Thread.antt =====
-- One step of the I/O thread, from a state in which its pointer is to a channel in memory.
use serf_cpp.Prelude.{ℕ, Bool, true, false, Option, none, some, ◌≡◌, ◌≢◌, refl, ap, arith, ◌==◌}
use serf_cpp.Msgpack.{Msgpack}
use serf_cpp.Exec.{◌>>=◌, pure, catch, or_raise}
use serf_cpp.SeqMap.{pointer, erase, pointer-erase}
use serf_cpp.Msg.Headers.{ResponseHeader}
use serf_cpp.Msg.Headers.Codec.{as_response_header}
use serf_cpp.Channel.{Channel, ResultChannel, World, result, log, event, query, channel_type}
use serf_cpp.Channel.Memory.{load, next_object}
use serf_cpp.IoThread.{is_request, find_channel, erase_channel, remove_channel}
use serf_cpp.IoThread.Rpc.{produce}
use serf_cpp.IoThread.Interleaving.{
  Delivery, between, found, typed, claimed, holds, look_up, thread_step,
}
use serf_cpp.Safety.Triple.{
  Runs, Post, Runs-bind, Runs-weaken, Runs-catch, Keeps-pure, Keeps-or_raise, Keeps-next_object,
  Post-weaken,
}
use serf_cpp.Safety.Invariant.{
  IsSafe, Frame, Within, Frame-refl, Within-IsStable, IsSafe-fewer, erase-fewer,
}
use serf_cpp.Safety.Registry.{Found, find_channel-Found, remove_channel-Within}
use serf_cpp.Safety.Produce.{
  Detached, produce_result-Detached, produce_log-Keeps, produce_event-Keeps, produce_query-Keeps,
}
use serf_cpp.Safety.Interleaving.{Loose, Holding}

module _ ⦃m : Msgpack⦄ where
  -- From w, where the I/O thread was at d, to v, where it is at e. It has got no pointer to a channel
  -- to which there was none.
  pub record Moved (w : World) (d e : Delivery) (v : World) : Type 0 where
    pub safe : IsSafe v
    pub frame : Frame w v
    pub held : Holding e v
    pub known : (q : ℕ) → Loose q w → holds q d ≡ false → holds q e ≡ false

  Within-start : (w : World) → IsSafe w → Within w (m.size w.unpacker) w
  Within-start w h = record { safe = h; frame = Frame-refl w; small = omega arith }

  let_go : (w : World) (n : ℕ) (d : Delivery) (v : World) → Within w n v → Moved w d between v
  let_go w n d v h = record { safe = h.safe; frame = h.frame; held = tt; known = λ q l f. refl }

  found-Moved :
      (w : World) (n : ℕ) (hdr : ResponseHeader) (o : Option ℕ) (v : World)
      → Found w n hdr.seq o v
      → Moved w between (found o hdr) v
  found-Moved w n hdr none v h = record {
    safe = h.0.safe;
    frame = h.0.frame;
    held = tt;
    known = λ q l f. refl;
  }
  found-Moved w n hdr (some p) v h = record {
    safe = h.0.safe;
    frame = h.0.frame;
    held = (
      record {
        there = h.0.safe.live hdr.seq p h.1;
        idle = λ c e. h.0.safe.waiting hdr.seq p c h.1 e;
      },
      λ k e. h.0.safe.alone k hdr.seq p e h.1,
    );
    known = λ q l f. apart q l (h.0.frame.kept hdr.seq p h.1);
  }
    where
      apart : (q : ℕ) → Loose q w → pointer hdr.seq w.channels ≡ some p → (p == q) ≡ false
      apart q l e = ground (arith, l hdr.seq)

  look_up-Moved :
      (w : World) (n : ℕ) (o : Option m.Object)
      → Runs (Within w n) (Within w n) (look_up o) (Moved w between)
  unfolding look_up
  look_up-Moved w n none = record { at = let_go w n between }
  look_up-Moved w n (some obj) =
      Runs-catch {E = Within w n} _ (pure between)
        (Runs-bind (λ _. Within w n) (or_raise (as_response_header obj)) _
          (Keeps-or_raise (as_response_header obj))
          λ hdr.
            Runs-bind (Found w n hdr.seq) (find_channel hdr.seq) _ (find_channel-Found w n hdr.seq)
              (λ o. record { at = found-Moved w n hdr o }))
        (record { at = let_go w n between })

  -- a pointer that may be passed to produce
  Armed : World → ℕ → ℕ → Channel → World → Type 0
  Armed w n p c v =
      Within w n v
      × ((v.memory p ≡ some c) × ((d : ResultChannel) → v.memory p ≡ some (result d) → Loose p v))

  produce-Armed :
      (w : World) (n p : ℕ) (hdr : ResponseHeader) (c : Channel)
      → Runs (Armed w n p c) (Within w n) (produce p hdr c) (λ _. Within w n)
  unfolding produce Armed
  produce-Armed w n p hdr (result c) =
      Runs-weaken {P = Detached w n p} _
        (λ v h. record {
          within = h.0;
          held = record { loose = h.1.1 c h.1.0; there = (c, h.1.0) };
        })
        (λ v h. h.within) (λ _ v h. h.within) (produce_result-Detached w n p c.reply hdr)
  produce-Armed w n p hdr (log l) =
      Runs-weaken _ (λ v h. h.0) (λ v h. h) (λ _ v h. h)
        (produce_log-Keeps (Within-IsStable w n) l hdr)
  produce-Armed w n p hdr (event l) =
      Runs-weaken _ (λ v h. h.0) (λ v h. h) (λ _ v h. h)
        (produce_event-Keeps (Within-IsStable w n) l hdr)
  produce-Armed w n p hdr (query l) =
      Runs-weaken _ (λ v h. h.0) (λ v h. h) (λ _ v h. h)
        (produce_query-Keeps (Within-IsStable w n) l hdr (remove_channel hdr.seq)
          (remove_channel-Within w n hdr.seq))

  same_place :
      (w : World) (d e : Delivery)
      → IsSafe w
      → Holding e w
      → ((q : ℕ) → holds q d ≡ false → holds q e ≡ false)
      → Moved w d e w
  same_place w d e safe held known = record {
    safe = safe;
    frame = Frame-refl w;
    held = held;
    known = λ q l f. known q f;
  }

  load-Armed :
      (w : World) (n p : ℕ) (hdr : ResponseHeader)
      → Runs (λ v. Within w n v × Holding (claimed p hdr) v) (Within w n) (load p) (Armed w n p)
  unfolding load Armed
  load-Armed w n p hdr = record { at = λ v h. go v h h.1.0.there }
    where
      go :
          (v : World)
          → Within w n v × Holding (claimed p hdr) v
          → (c : Channel) × (v.memory p ≡ some c)
          → Post (Within w n) (Armed w n p) (load p v).0 (load p v).1
      go v h (c, e) = rw (e, load) (h.0, (e, h.1.1))

  call_Moved :
      (w : World) (n p : ℕ) (hdr : ResponseHeader)
      → Runs
          (λ v. Within w n v × Holding (claimed p hdr) v)
          (Within w n)
          (thread_step (claimed p hdr))
          (Moved w (claimed p hdr))
  unfolding thread_step
  call_Moved w n p hdr =
      Runs-bind (λ _. Within w n) (catch (load p >>= produce p hdr) (pure tt)) _
        (Runs-catch {E = Within w n} (load p >>= produce p hdr) (pure tt)
          (Runs-bind (Armed w n p) (load p) (produce p hdr) (load-Armed w n p hdr)
            (produce-Armed w n p hdr))
          (Keeps-pure tt))
        (λ _. record { at = let_go w n (claimed p hdr) })

  -- m_type is read, and then the entry of a request erased
  type_Moved :
      (w : World) (p : ℕ) (hdr : ResponseHeader)
      → IsSafe w
      → Holding (found (some p) hdr) w
      → (c : Channel) × (w.memory p ≡ some c)
      → Post
          (λ _. Unit)
          (Moved w (found (some p) hdr))
          (thread_step (found (some p) hdr) w).0
          (thread_step (found (some p) hdr) w).1
  unfolding thread_step load ◌>>=◌
  type_Moved w p hdr safe h (c, e) =
      rw (e, load)
        (same_place w (found (some p) hdr) (typed p hdr (is_request (channel_type c))) safe
          (h.0, (h.1, λ d x. let same : d ≡ c = cc in ap (λ z. is_request (channel_type z)) same))
          (λ q f. f))

  erase_Moved :
      (w : World) (p : ℕ) (hdr : ResponseHeader) (b : Bool)
      → IsSafe w
      → Holding (typed p hdr b) w
      → Post
          (λ _. Unit)
          (Moved w (typed p hdr b))
          (thread_step (typed p hdr b) w).0
          (thread_step (typed p hdr b) w).1
  unfolding thread_step erase_channel ◌>>=◌
  erase_Moved w p hdr false safe h =
      same_place w (typed p hdr false) (claimed p hdr) safe
        (h.0, λ c e. absurd (is_typed (h.1.1 (result c) e))) (λ q f. f)
    where
      is_typed : true ≡ false → ⊥
      is_typed e = cc
  erase_Moved w p hdr true safe h = record {
    safe = IsSafe-fewer w v fewer refl refl safe;
    frame = record { kept = fewer; stays = λ q c e. (c, e) };
    held = (
      record { there = h.0.there; idle = h.0.idle },
      λ c e k d. erased k (h.1.0 k (fewer k p d)) d,
    );
    known = λ q l f. f;
  }
    where
      v : World
      v = record w { channels = erase hdr.seq w.channels }

      fewer : (k q : ℕ) → pointer k v.channels ≡ some q → pointer k w.channels ≡ some q
      fewer = erase-fewer hdr.seq w

      erased : (k : ℕ) → k ≡ hdr.seq → pointer k (erase hdr.seq w.channels) ≢ some p
      erased k e d = ground (arith, pointer-erase hdr.seq k w.channels)

  -- The step returns, or it ends with an exception of the unpacker.
  pub thread_step-Moved :
      (w : World) (d : Delivery)
      → IsSafe w
      → Holding d w
      → Post (λ _. Unit) (Moved w d) (thread_step d w).0 (thread_step d w).1
  unfolding thread_step
  thread_step-Moved w between safe h =
      Post-weaken {E = Within w n} (λ _ _. tt) (λ _ _ p. p) (thread_step between w).0
        (thread_step between w).1
        ((Runs-bind (λ _. Within w n) next_object look_up (Keeps-next_object (Within-IsStable w n))
            (look_up-Moved w n)).at
          w (Within-start w safe))
    where
      n : ℕ
      n = m.size w.unpacker
  thread_step-Moved w (found none hdr) safe h =
      same_place w (found none hdr) between safe tt (λ q f. refl)
  thread_step-Moved w (found (some p) hdr) safe h = type_Moved w p hdr safe h h.0.there
  thread_step-Moved w (typed p hdr b) safe h = erase_Moved w p hdr b safe h
  thread_step-Moved w (claimed p hdr) safe h =
      Post-weaken {E = Within w n} (λ _ _. tt) (λ _ _ p. p) (thread_step (claimed p hdr) w).0
        (thread_step (claimed p hdr) w).1 ((call_Moved w n p hdr).at w (Within-start w safe, h))
    where
      n : ℕ
      n = m.size w.unpacker
