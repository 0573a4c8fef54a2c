-- ===== src/Safety/Interleaving.antt =====
-- What holds between any two steps of a caller and the I/O thread.
pub mod Thread
pub mod Turns
pub mod Schedules
use serf_cpp.Prelude.{
  ℕ, Bool, true, false, Option, none, some, ◌≡◌, ◌≢◌, sym, subst, ◌∙◌, arith, ◌==◌,
}
use serf_cpp.Msgpack.{Msgpack}
use serf_cpp.SeqMap.{pointer}
use serf_cpp.Channel.{Channel, ResultChannel, World, result, channel_type}
use serf_cpp.IoThread.{is_request}
use serf_cpp.IoThread.Interleaving.{
  Delivery, between, found, typed, claimed, Caller, waiting, expired, replied, leaving, gone, Race,
  holds,
}
use serf_cpp.Safety.Invariant.{IsSafe, Frame}

module _ ⦃m : Msgpack⦄ where
  -- The channel at q, to which the I/O thread has a pointer, is in memory, and has no data if it is
  -- a request's.
  pub record Grip (q : ℕ) (w : World) : Type 0 where
    pub there : (c : Channel) × (w.memory q ≡ some c)
    pub idle : (c : ResultChannel) → w.memory q ≡ some (result c) → c.data_pending ≡ false

  -- nothing in the map points to the channel at q
  abbrev pub Loose : ℕ → World → Type 0
  Loose q w = (k : ℕ) → pointer k w.channels ≢ some q

  -- nothing but the entry of seq does
  abbrev pub Only : ℕ → ℕ → World → Type 0
  Only q seq w = (k : ℕ) → pointer k w.channels ≡ some q → k ≡ seq

  abbrev pub HasType : ℕ → Bool → World → Type 0
  HasType q b w = (c : Channel) → w.memory q ≡ some c → is_request (channel_type c) ≡ b

  -- what the I/O thread knows of the pointer that it has
  abbrev pub Holding : Delivery → World → Type 0
  Holding between w = Unit
  Holding (found none hdr) w = Unit
  Holding (found (some q) hdr) w = Grip q w × Only q hdr.seq w
  Holding (typed q hdr b) w = Grip q w × (Only q hdr.seq w × HasType q b w)
  Holding (claimed q hdr) w =
      Grip q w × ((c : ResultChannel) → w.memory q ≡ some (result c) → Loose q w)

  Grip-moved : (q : ℕ) (w v : World) → v.memory q ≡ w.memory q → Grip q w → Grip q v
  Grip-moved q w v same h = record {
    there = (h.there.0, same ∙ h.there.1);
    idle = λ c e. h.idle c (sym same ∙ e);
  }

  -- It stays true while no entry for the channel is added and the channel itself stays as it is.
  pub Holding-moved :
      (d : Delivery) (w v : World)
      → ((k q : ℕ)
          → holds q d ≡ true
          → pointer k v.channels ≡ some q
          → pointer k w.channels ≡ some q)
      → ((q : ℕ) → holds q d ≡ true → v.memory q ≡ w.memory q)
      → Holding d w
      → Holding d v
  Holding-moved between w v fewer same h = h
  Holding-moved (found none hdr) w v fewer same h = h
  Holding-moved (found (some q) hdr) w v fewer same h =
      (Grip-moved q w v (same q (ground arith)) h.0, λ k e. h.1 k (fewer k q (ground arith) e))
  Holding-moved (typed q hdr b) w v fewer same h = (
    Grip-moved q w v (same q (ground arith)) h.0,
    (λ k e. h.1.0 k (fewer k q (ground arith) e), λ c e. h.1.1 c (sym (same q (ground arith)) ∙ e)),
  )
  Holding-moved (claimed q hdr) w v fewer same h = (
    Grip-moved q w v (same q (ground arith)) h.0,
    λ c e k d. h.1 c (sym (same q (ground arith)) ∙ e) k (fewer k q (ground arith) d),
  )

  pub held-Grip : (q : ℕ) (d : Delivery) (w : World) → Holding d w → holds q d ≡ true → Grip q w
  held-Grip q between w h e = cc
  held-Grip q (found none hdr) w h e = cc
  held-Grip q (found (some p) hdr) w h e =
      let same : p ≡ q = ground arith in subst (λ z. Grip z w) same h.0
  held-Grip q (typed p hdr b) w h e =
      let same : p ≡ q = ground arith in subst (λ z. Grip z w) same h.0
  held-Grip q (claimed p hdr) w h e =
      let same : p ≡ q = ground arith in subst (λ z. Grip z w) same h.0

  -- the caller's channel, before the caller is done with the map
  pub record Waits (p seq : ℕ) (w : World) : Type 0 where
    pub there : (c : ResultChannel) × (w.memory p ≡ some (result c))
    pub only : Only p seq w
    pub own : (q : ℕ) → pointer seq w.channels ≡ some q → q ≡ p

  abbrev pub Stands : ℕ → ℕ → Caller → World → Type 0
  Stands p seq waiting w = Waits p seq w
  Stands p seq expired w = Waits p seq w
  Stands p seq (replied hdr) w = ((c : ResultChannel) × (w.memory p ≡ some (result c))) × Loose p w
  Stands p seq (leaving answered) w =
      ((c : ResultChannel) × (w.memory p ≡ some (result c))) × Loose p w
  Stands p seq gone w = Loose p w

  -- the caller has the reply, or has returned
  abbrev pub is_done : Caller → Bool
  is_done waiting = false
  is_done expired = false
  is_done (replied hdr) = true
  is_done (leaving answered) = answered
  is_done gone = true

  -- `apart`: the I/O thread has no pointer to a channel that was answered, or that is gone.
  pub record IsConsistent (p seq : ℕ) (r : Race) : Type 0 where
    pub safe : IsSafe r.world
    pub mine : Stands p seq r.caller r.world
    pub held : Holding r.delivery r.world
    pub apart : is_done r.caller ≡ true → holds p r.delivery ≡ false

  Waits-framed : (p seq : ℕ) (w v : World) → Frame w v → Waits p seq w → Waits p seq v
  Waits-framed p seq w v f h = record {
    there = f.stays p h.there.0 h.there.1;
    only = λ k e. h.only k (f.kept k p e);
    own = λ q e. h.own q (f.kept seq q e);
  }

  -- The I/O thread keeps what the caller relies on.
  pub Stands-framed :
      (p seq : ℕ) (c : Caller) (w v : World) → Frame w v → Stands p seq c w → Stands p seq c v
  Stands-framed p seq waiting w v f h = Waits-framed p seq w v f h
  Stands-framed p seq expired w v f h = Waits-framed p seq w v f h
  Stands-framed p seq (replied hdr) w v f h = (f.stays p h.0.0 h.0.1, λ k e. h.1 k (f.kept k p e))
  Stands-framed p seq (leaving answered) w v f h =
      (f.stays p h.0.0 h.0.1, λ k e. h.1 k (f.kept k p e))
  Stands-framed p seq gone w v f h = λ k e. h k (f.kept k p e)
