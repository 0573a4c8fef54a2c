-- ===== src/Safety/Registry.antt =====
-- The channel map's operations keep the invariant: find, erase, removeChannel.
use serf_cpp.Prelude.{ℕ, false, Option, none, some, ◌≡◌, ◌≢◌, refl, ◌∙◌, ap, arith}
use serf_cpp.Msgpack.{Msgpack}
use serf_cpp.Exec.{◌>>=◌}
use serf_cpp.SeqMap.{pointer, touch, erase, pointer-erase, pointer-touch}
use serf_cpp.Channel.{Channel, ResultChannel, World, result, log, event, query, channel_type}
use serf_cpp.Channel.Memory.{update, load, free}
use serf_cpp.IoThread.{find_channel, erase_channel, delete_listener, remove_channel, is_request}
use serf_cpp.Safety.Triple.{Runs, Post, Runs-bind}
use serf_cpp.Safety.Invariant.{
  IsSafe, Within, IsSafe-fewer, erase-fewer, touch-fewer, IsSafe-update, there-lt,
}

module _ ⦃m : Msgpack⦄ where
  Within-fewer :
      {before : World} {n : ℕ} (w v : World)
      → ((k p : ℕ) → pointer k v.channels ≡ some p → pointer k w.channels ≡ some p)
      → v.memory ≡ w.memory
      → v.next_address ≡ w.next_address
      → v.unpacker ≡ w.unpacker
      → Within before n w
      → Within before n v
  Within-fewer w v fewer same next u h = record {
    safe = IsSafe-fewer w v fewer same next h.safe;
    frame = record {
      kept = λ k p e. h.frame.kept k p (fewer k p e);
      stays = λ p c e. let (d, there) = h.frame.stays p c e in (d, rw same there);
    };
    small = rw u h.small;
  }

  -- what is known when the map has been asked for seq
  abbrev pub Found : World → ℕ → ℕ → Option ℕ → World → Type 0
  Found before n seq o w = Within before n w × (pointer seq w.channels ≡ o)

  pub find_channel-Found :
      {E : World → Type 0} (before : World) (n seq : ℕ)
      → Runs (Within before n) E (find_channel seq) (Found before n seq)
  unfolding find_channel ◌>>=◌
  find_channel-Found before n seq = record {
    at = λ w h. (
      Within-fewer w (record w { channels = touch seq w.channels }) (touch-fewer seq w) refl refl
          refl h,
      pointer-touch seq seq w.channels,
    );
  }

  -- the channel that was found, once its entry is gone
  pub record Taken (before : World) (n : ℕ) (o : Option ℕ) (w : World) : Type 0 where
    pub within : Within before n w
    pub loose : (p : ℕ) → o ≡ some p → (k : ℕ) → pointer k w.channels ≢ some p
    pub there : (p : ℕ) → o ≡ some p → (c : Channel) × (w.memory p ≡ some c)

  pub erase_channel-Taken :
      {E : World → Type 0} (before : World) (n seq : ℕ) (o : Option ℕ)
      → Runs (Found before n seq o) E (erase_channel seq) (λ _. Taken before n o)
  unfolding erase_channel
  erase_channel-Taken before n seq o = record {
    at = λ w h. record {
      within =
          Within-fewer w (record w { channels = erase seq w.channels }) (erase-fewer seq w) refl
            refl refl h.0;
      loose = λ p e k d. gone w p k (h.1 ∙ e) h.0.safe d;
      there = λ p e. h.0.safe.live seq p (h.1 ∙ e);
    };
  }
    where
      gone :
          (w : World) (p k : ℕ)
          → pointer seq w.channels ≡ some p
          → IsSafe w
          → pointer k (erase seq w.channels) ≢ some p
      gone w p k e h d =
          ground
            (arith, h.alone seq k p e (erase-fewer seq w k p d), pointer-erase seq k w.channels)

  -- `delete` of a listener's channel to which nothing points
  Within-free :
      (before : World) (n p : ℕ) (w : World) (c : Channel)
      → Within before n w
      → ((k : ℕ) → pointer k w.channels ≢ some p)
      → w.memory p ≡ some c
      → is_request (channel_type c) ≡ false
      → Within before n (record w { memory = update w.memory p none })
  Within-free before n p w c h loose e listener = record {
    safe = IsSafe-update w p none loose (there-lt w p c h.safe e) h.safe;
    frame = record {
      kept = h.frame.kept;
      stays = λ q d at. let (d', there) = h.frame.stays q d at in (d', other q d' there);
    };
    small = h.small;
  }
    where
      other :
          (q : ℕ) (d : ResultChannel)
          → w.memory q ≡ some (result d)
          → update w.memory p none q ≡ some (result d)
      other q d there = ground (arith, e, listener, there, (λ (x : p ≡ q). ap w.memory x))

  delete_listener-Within :
      {E : World → Type 0} (before : World) (n : ℕ) (o : Option ℕ)
      → Runs (Taken before n o) E (delete_listener o) (λ _. Within before n)
  unfolding delete_listener load free ◌>>=◌
  delete_listener-Within before n none = record { at = λ w h. h.within }
  delete_listener-Within {E} before n (some p) = record { at = λ w h. go w h (h.there p refl) }
    where
      go :
          (w : World)
          → Taken before n (some p) w
          → (c : Channel) × (w.memory p ≡ some c)
          → Post E
              (λ _. Within before n)
              (delete_listener (some p) w).0
              (delete_listener (some p) w).1
      go w h (result c, e) = rw (e, load) h.within
      go w h (log l, e) =
          rw (e, load) (Within-free before n p w (log l) h.within (h.loose p refl) e refl)
      go w h (event l, e) =
          rw (e, load) (Within-free before n p w (event l) h.within (h.loose p refl) e refl)
      go w h (query l, e) =
          rw (e, load) (Within-free before n p w (query l) h.within (h.loose p refl) e refl)

  pub remove_channel-Within :
      {E : World → Type 0} (before : World) (n seq : ℕ)
      → Runs (Within before n) E (remove_channel seq) (λ _. Within before n)
  unfolding remove_channel
  remove_channel-Within {E} before n seq =
      Runs-bind {E = E} (Found before n seq) (find_channel seq) _ (find_channel-Found before n seq)
        λ o.
          Runs-bind {E = E} (λ _. Taken before n o) (erase_channel seq) _
            (erase_channel-Taken before n seq o) λ _. delete_listener-Within before n o
