-- ===== src/Safety/Produce.antt =====
-- Each `produce` keeps the invariant.
use serf_cpp.Prelude.{ℕ, Option, none, some, ◌≡◌, refl, arith, ◌==◌, String, Bool-cases, inl, inr}
use serf_cpp.Msgpack.{Msgpack}
use serf_cpp.Exec.{◌>>=◌}
use serf_cpp.Msg.Headers.{ResponseHeader}
use serf_cpp.Channel.{ResultChannel, World, on_query_complete, result, Reply, nothing}
use serf_cpp.Channel.Memory.{M, update, change, notify}
use serf_cpp.Channel.Produce.{
  store_reply, receive_reply, produce_result, produce_log, produce_event, produce_query, as_log,
  handle_event, handle_response, dispatch_event, dispatch_response,
}
use serf_cpp.Safety.Triple.{Keeps, Post, IsStable, keeps_rules, Keeps-bind, Keeps-notify}
use serf_cpp.Safety.Invariant.{Within, Held, Within-IsStable, IsSafe-update, there-lt}

module _ ⦃m : Msgpack⦄ where
  -- the channel at p is out of the map, and is still its caller's
  pub record Detached (before : World) (n p : ℕ) (w : World) : Type 0 where
    pub within : Within before n w
    pub held : Held p w

  Detached-IsStable : (before : World) (n p : ℕ) → IsStable (Detached before n p)
  Detached-IsStable before n p = record {
    unpacked = λ w u le h. record {
      within = (Within-IsStable before n).unpacked w u le h.within;
      held = record { loose = h.held.loose; there = h.held.there };
    };
    called = λ w cs h. record {
      within = (Within-IsStable before n).called w cs h.within;
      held = record { loose = h.held.loose; there = h.held.there };
    };
  }

  change-Detached :
      (before : World) (n p : ℕ) (f : ResultChannel → ResultChannel)
      → Keeps (Detached before n p) (change p f)
  unfolding change
  change-Detached before n p f = record { at = λ w h. go w h h.held.there }
    where
      stays :
          (w : World) (c : ResultChannel)
          → w.memory p ≡ some (result c)
          → (q : ℕ) (d : ResultChannel) → w.memory q ≡ some (result d)
          → (d' : ResultChannel) × (update w.memory p (some (result (f c))) q ≡ some (result d'))
      stays w c e q d there = elim (Bool-cases (p == q)) [
        | inl same ↦ (f c, rw same refl)
        | inr other ↦ (d, rw other there)
      ]

      go :
          (w : World)
          → Detached before n p w
          → (c : ResultChannel) × (w.memory p ≡ some (result c))
          → Post (Detached before n p) (λ _. Detached before n p) (change p f w).0 (change p f w).1
      go w h (c, e) =
          rw (e, change)
            (record {
              within = record {
                safe =
                    IsSafe-update w p (some (result (f c))) h.held.loose
                      (there-lt w p (result c) h.within.safe e) h.within.safe;
                frame = record {
                  kept = h.within.frame.kept;
                  stays = λ q d at.
                      let (d', there) = h.within.frame.stays q d at in stays w c e q d' there;
                };
                small = h.within.small;
              };
              held = record { loose = h.held.loose; there = (f c, ground arith) };
            })

  store_reply-Detached :
      (before : World) (n p : ℕ) (r : Reply) (o : Option m.Object)
      → Keeps (Detached before n p) (store_reply p r o)
  unfolding store_reply
  store_reply-Detached before n p r none = search keeps_rules
  store_reply-Detached before n p r (some obj) = search (keeps_rules, change-Detached)

  receive_reply-Detached :
      (before : World) (n p : ℕ) (r : Reply) → Keeps (Detached before n p) (receive_reply p r)
  unfolding receive_reply
  receive_reply-Detached before n p nothing = search keeps_rules
  receive_reply-Detached before n p r =
      search (keeps_rules, store_reply-Detached, Detached-IsStable)

  pub produce_result-Detached :
      (before : World) (n p : ℕ) (r : Reply) (hdr : ResponseHeader)
      → Keeps (Detached before n p) (produce_result p r hdr)
  unfolding produce_result
  produce_result-Detached before n p r hdr =
      search (keeps_rules, change-Detached, receive_reply-Detached)

  module _ {P : World → Type 0} (stable : IsStable P) (listener : ℕ) (hdr : ResponseHeader) where
    as_log-Keeps : (o : Option m.Object) → Keeps P (as_log o)
    unfolding as_log
    as_log-Keeps none = search keeps_rules
    as_log-Keeps (some obj) = search keeps_rules

    pub produce_log-Keeps : Keeps P (produce_log listener hdr)
    unfolding produce_log
    produce_log-Keeps = search (keeps_rules, as_log-Keeps, stable)

    dispatch_event-Keeps :
        (e : String) (obj : m.Object) → Keeps P (dispatch_event listener hdr e obj)
    unfolding dispatch_event
    dispatch_event-Keeps e obj = search (keeps_rules, stable) depth 8

    handle_event-Keeps : (o : Option m.Object) → Keeps P (handle_event listener hdr o)
    unfolding handle_event
    handle_event-Keeps none = search keeps_rules
    handle_event-Keeps (some obj) = search (keeps_rules, dispatch_event-Keeps)

    pub produce_event-Keeps : Keeps P (produce_event listener hdr)
    unfolding produce_event
    produce_event-Keeps = search (keeps_rules, handle_event-Keeps, stable)

    module _ (deregister : M (Unit {0})) (kept : Keeps P deregister) where
      done_Keeps : Keeps P (notify (on_query_complete listener hdr) >>= λ _. deregister)
      done_Keeps = Keeps-bind _ _ (Keeps-notify _ stable) (λ _. kept)

      dispatch_response-Keeps :
          (t : String) (obj : m.Object) → Keeps P (dispatch_response listener hdr deregister t obj)
      unfolding dispatch_response
      dispatch_response-Keeps t obj = search (keeps_rules, stable, done_Keeps) depth 8

      handle_response-Keeps :
          (o : Option m.Object) → Keeps P (handle_response listener hdr deregister o)
      unfolding handle_response
      handle_response-Keeps none = search keeps_rules
      handle_response-Keeps (some obj) = search (keeps_rules, dispatch_response-Keeps)

      pub produce_query-Keeps : Keeps P (produce_query listener hdr deregister)
      unfolding produce_query
      produce_query-Keeps = search (keeps_rules, handle_response-Keeps, stable)
