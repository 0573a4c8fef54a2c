-- ===== src/Safety/Invariant.antt =====
-- What holds of the channel map and the memory between any two steps of the I/O thread.
use serf_cpp.Prelude.{
  ℕ, ◌≤◌, ◌<◌, false, Option, none, some, ◌≡◌, ◌≢◌, sym, ◌∙◌, ap, arith, ◌==◌, inl, inr, Bool-cases,
  leb,
}
use serf_cpp.Msgpack.{Msgpack}
use serf_cpp.SeqMap.{pointer, touch, erase, pointer-erase, pointer-touch}
use serf_cpp.Channel.{Channel, ResultChannel, World, result}
use serf_cpp.Channel.Memory.{update}
use serf_cpp.Safety.Triple.{IsStable}

module _ ⦃m : Msgpack⦄ where
  -- `live`: a registered channel is in memory. `alone`: no channel is registered twice. `fresh`:
  -- memory past next_address is unused. `waiting`: a registered request has no data yet.
  pub record IsSafe (w : World) : Type 0 where
    pub live : (k p : ℕ) → pointer k w.channels ≡ some p → (c : Channel) × (w.memory p ≡ some c)
    pub alone : (j k p : ℕ) → pointer j w.channels ≡ some p → pointer k w.channels ≡ some p → j ≡ k
    pub fresh : (p : ℕ) → w.next_address ≤ p → w.memory p ≡ none
    pub waiting :
        (k p : ℕ) (c : ResultChannel)
        → pointer k w.channels ≡ some p
        → w.memory p ≡ some (result c)
        → c.data_pending ≡ false

  -- What the I/O thread leaves alone: it registers nothing, and the callers' channels stay.
  pub record Frame (before w : World) : Type 0 where
    pub kept : (k p : ℕ) → pointer k w.channels ≡ some p → pointer k before.channels ≡ some p
    pub stays :
        (p : ℕ) (c : ResultChannel)
        → before.memory p ≡ some (result c)
        → (d : ResultChannel) × (w.memory p ≡ some (result d))

  -- safe, framed, and with at most `n` units of input left
  pub record Within (before : World) (n : ℕ) (w : World) : Type 0 where
    pub safe : IsSafe w
    pub frame : Frame before w
    pub small : m.size w.unpacker ≤ n

  -- The ResultChannel at p belongs to its caller, and nothing points to it.
  pub record Held (p : ℕ) (w : World) : Type 0 where
    pub loose : (k : ℕ) → pointer k w.channels ≢ some p
    pub there : (c : ResultChannel) × (w.memory p ≡ some (result c))

  pub Frame-refl : (w : World) → Frame w w
  Frame-refl w = record { kept = λ k p e. e; stays = λ p c e. (c, e) }

  pub Within-IsStable : (before : World) (n : ℕ) → IsStable (Within before n)
  Within-IsStable before n = record {
    unpacked = λ w u le h. record {
      safe = record {
        live = h.safe.live;
        alone = h.safe.alone;
        fresh = h.safe.fresh;
        waiting = h.safe.waiting;
      };
      frame = record { kept = h.frame.kept; stays = h.frame.stays };
      small = omega (arith, h.small);
    };
    called = λ w cs h. record {
      safe = record {
        live = h.safe.live;
        alone = h.safe.alone;
        fresh = h.safe.fresh;
        waiting = h.safe.waiting;
      };
      frame = record { kept = h.frame.kept; stays = h.frame.stays };
      small = h.small;
    };
  }

  -- Any map with fewer pointers is as safe.
  pub IsSafe-fewer :
      (w v : World)
      → ((k p : ℕ) → pointer k v.channels ≡ some p → pointer k w.channels ≡ some p)
      → v.memory ≡ w.memory
      → v.next_address ≡ w.next_address
      → IsSafe w
      → IsSafe v
  IsSafe-fewer w v fewer same next h = record {
    live = λ k p e. let (c, there) = h.live k p (fewer k p e) in (c, ap (λ f. f p) same ∙ there);
    alone = λ j k p d e. h.alone j k p (fewer j p d) (fewer k p e);
    fresh = λ p le. ap (λ f. f p) same ∙ h.fresh p (omega (arith, le, next));
    waiting = λ k p c e d. h.waiting k p c (fewer k p e) (sym (ap (λ f. f p) same) ∙ d);
  }

  pub erase-fewer :
      (seq : ℕ) (w : World) (k p : ℕ)
      → pointer k (erase seq w.channels) ≡ some p
      → pointer k w.channels ≡ some p
  erase-fewer seq w k p e = ground (arith, pointer-erase seq k w.channels)

  pub touch-fewer :
      (seq : ℕ) (w : World) (k p : ℕ)
      → pointer k (touch seq w.channels) ≡ some p
      → pointer k w.channels ≡ some p
  touch-fewer seq w k p e = sym (pointer-touch seq k w.channels) ∙ e

  -- Writing to, or ending the life of, a channel to which nothing points.
  pub IsSafe-update :
      (w : World) (p : ℕ) (o : Option Channel)
      → ((k : ℕ) → pointer k w.channels ≢ some p)
      → p < w.next_address
      → IsSafe w
      → IsSafe (record w { memory = update w.memory p o })
  IsSafe-update w p o loose lt h = record {
    live = λ k q e. let (c, there) = h.live k q e in (c, rw (ne k q e) there);
    alone = h.alone;
    fresh = λ q le. rw (above q le) (h.fresh q le);
    waiting = λ k q c e d. h.waiting k q c e (rw (ne k q e) at d);
  }
    where
      ne : (k q : ℕ) → pointer k w.channels ≡ some q → (p == q) ≡ false
      ne k q e = ground (arith, loose k, e)

      above : (q : ℕ) → w.next_address ≤ q → (p == q) ≡ false
      above q le = ground arith

  -- A channel in memory is below the next address.
  pub there-lt :
      (w : World) (p : ℕ) (c : Channel) → IsSafe w → w.memory p ≡ some c → p < w.next_address
  there-lt w p c h e = elim (Bool-cases (leb w.next_address p)) [
    | inl le ↦ cc (h.fresh p (ground arith))
    | inr lt ↦ ground arith
  ]
