-- ===== src/Safety/Rpc.antt =====
-- The rounds of the I/O thread keep the invariant, use no dangling pointer and come to an end.
use serf_cpp.Prelude.{ℕ, Option, none, some, ◌≡◌, refl, if◌then◌else◌}
use serf_cpp.Msgpack.{Msgpack}
use serf_cpp.Exec.{◌>>=◌, pure}
use serf_cpp.Msg.Headers.{ResponseHeader}
use serf_cpp.Msg.Headers.Codec.{as_response_header}
use serf_cpp.Channel.{Channel, ResultChannel, World, result, log, event, query, channel_type}
use serf_cpp.Channel.Memory.{load}
use serf_cpp.IoThread.{is_request, find_channel, erase_channel, remove_channel}
use serf_cpp.IoThread.Rpc.{produce, deliver, process_object}
use serf_cpp.Safety.Triple.{
  Runs, Keeps, Post, Runs-bind, Runs-weaken, Keeps-bind, Keeps-pure, Keeps-or_raise,
}
use serf_cpp.Safety.Invariant.{Within, Within-IsStable}
use serf_cpp.Safety.Registry.{Found, find_channel-Found, erase_channel-Taken, remove_channel-Within}
use serf_cpp.Safety.Produce.{
  Detached, produce_result-Detached, produce_log-Keeps, produce_event-Keeps, produce_query-Keeps,
}

module _ ⦃m : Msgpack⦄ where
  -- a registered channel is still in memory when it is used
  Loaded : World → ℕ → ℕ → ℕ → Channel → World → Type 0
  Loaded before n seq p c w = Found before n seq (some p) w × (w.memory p ≡ some c)

  load-Loaded :
      (before : World) (n seq p : ℕ)
      → Runs (Found before n seq (some p)) (Within before n) (load p) (Loaded before n seq p)
  unfolding load Loaded
  load-Loaded before n seq p = record { at = λ w h. go w h (h.0.safe.live seq p h.1) }
    where
      go :
          (w : World)
          → Found before n seq (some p) w
          → (c : Channel) × (w.memory p ≡ some c)
          → Post (Within before n) (Loaded before n seq p) (load p w).0 (load p w).1
      go w h (c, e) = rw (e, load) (h, e)

  -- A request's channel leaves the map, and is then written to.
  deliver_request :
      (before : World) (n p : ℕ) (hdr : ResponseHeader) (c : ResultChannel)
      → Runs
          (Loaded before n hdr.seq p (result c))
          (Within before n)
          (erase_channel hdr.seq >>= λ _. produce p hdr (result c))
          (λ _. Within before n)
  unfolding produce Loaded
  deliver_request before n p hdr c =
      Runs-bind (λ _. Detached before n p) (erase_channel hdr.seq) _ erased
        (λ _.
          Runs-weaken _ (λ w h. h) (λ w h. h.within) (λ _ w h. h.within)
            (produce_result-Detached before n p c.reply hdr))
    where
      erased :
          Runs
            (Loaded before n hdr.seq p (result c))
            (Within before n)
            (erase_channel hdr.seq)
            (λ _. Detached before n p)
      erased = record {
        at = λ w h.
            unfold erase_channel in
            let t =
              (erase_channel-Taken {E = Within before n} before n hdr.seq (some p)).at w h.0 in
            record {
              within = t.within;
              held = record { loose = t.loose p refl; there = (c, h.1) };
            };
      }

  module _ (before : World) (n p : ℕ) (hdr : ResponseHeader) where
    deliver_to :
        (c : Channel)
        → Runs
            (Loaded before n hdr.seq p c)
            (Within before n)
            ((if is_request (channel_type c) then erase_channel hdr.seq else pure tt) >>= λ _.
              produce p hdr c)
            (λ _. Within before n)
    unfolding produce Loaded
    deliver_to (result c) = deliver_request before n p hdr c
    deliver_to (log l) =
        Runs-weaken _ (λ w h. h.0.0) (λ w h. h) (λ _ w h. h)
          (Keeps-bind _ _ (Keeps-pure tt) (λ _. produce_log-Keeps (Within-IsStable before n) l hdr))
    deliver_to (event l) =
        Runs-weaken _ (λ w h. h.0.0) (λ w h. h) (λ _ w h. h)
          (Keeps-bind _ _ (Keeps-pure tt)
            (λ _. produce_event-Keeps (Within-IsStable before n) l hdr))
    deliver_to (query l) =
        Runs-weaken _ (λ w h. h.0.0) (λ w h. h) (λ _ w h. h)
          (Keeps-bind _ _ (Keeps-pure tt) (λ _.
            produce_query-Keeps (Within-IsStable before n) l hdr (remove_channel hdr.seq)
              (remove_channel-Within before n hdr.seq)))

  deliver-Within :
      (before : World) (n : ℕ) (hdr : ResponseHeader) (o : Option ℕ)
      → Runs (Found before n hdr.seq o) (Within before n) (deliver o hdr) (λ _. Within before n)
  unfolding deliver
  deliver-Within before n hdr none = record { at = λ w h. h.0 }
  deliver-Within before n hdr (some p) =
      Runs-bind (Loaded before n hdr.seq p) (load p) _ (load-Loaded before n hdr.seq p)
        (deliver_to before n p hdr)

  pub process_object-Within :
      (before : World) (n : ℕ) (obj : m.Object) → Keeps (Within before n) (process_object obj)
  unfolding process_object
  process_object-Within before n obj =
      Keeps-bind _ _ (Keeps-or_raise (as_response_header obj)) λ hdr.
        Runs-bind (Found before n hdr.seq) (find_channel hdr.seq) _
          (find_channel-Found before n hdr.seq) (deliver-Within before n hdr)
