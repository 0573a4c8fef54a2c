-- ===== src/Route/Router.antt =====
-- A router for a stream of messages: it knows only which channel stands under which sequence number.
use serf_cpp.Prelude.{
  ℕ, true, ◌&&◌, Option, none, some, List, [], ◌∷◌, ◌++◌, ◌≡◌, refl, arith, ◌==◌, if◌then◌else◌,
  Bool-cases, inl, inr,
}
use serf_cpp.Msgpack.{Msgpack, got, dry}
use serf_cpp.Exec.{Result, ok}
use serf_cpp.SeqMap.{pointer, pointer-erase}
use serf_cpp.Msg.Headers.{ResponseHeader}
use serf_cpp.Msg.Headers.Codec.{as_response_header}
use serf_cpp.Channel.{Channel, Callback, World}
use serf_cpp.Route.{callbacks_of, closes, is_listener, delivered}
use serf_cpp.Safety.Invariant.{IsSafe}

abbrev pub Registry : Type 0
Registry = ℕ → Option Channel

module _ ⦃m : Msgpack⦄ where
  open m use {Object, Unpacker}

  -- The unpacker holds these messages, each a header and a body, and nothing else.
  abbrev pub Carries : Unpacker → List (ResponseHeader × Object) → Type 0
  Carries u [] = (v : Unpacker) × (m.next u ≡ dry v)
  Carries u ((hdr, body) ∷ ms) =
      (obj : Object) × (v : Unpacker) × (x : Unpacker) × (m.next u ≡ got obj v)
      × (as_response_header obj ≡ some hdr)
      × (m.next v ≡ got body x)
      × Carries x ms

  -- a channel that has had its last record is registered no more
  abbrev pub remaining : Channel → ResponseHeader → Object → Registry → Registry
  remaining c hdr body reg k = if closes c body && (hdr.seq == k) then none else reg k

  abbrev add_callbacks :
      List Callback → Option (List Callback × Registry) → Option (List Callback × Registry)
  add_callbacks cs none = none
  add_callbacks cs (some (ds, reg)) = some (cs ++ ds, reg)

  -- The router: the callbacks of the messages in their order, and the channels that are left; `none`
  -- if a message is for no listener.
  unfoldable pub route :
      Registry → List (ResponseHeader × Object) → Option (List Callback × Registry)
  route reg [] = some ([], reg)
  route reg ((hdr, body) ∷ ms) = elim (reg hdr.seq) [
    | none ↦ none
    | some c ↦
        let rest = add_callbacks (callbacks_of c hdr body) (route (remaining c hdr body reg) ms) in
        if is_listener c then rest else none
  ]

  -- the channels by sequence number, with the addresses forgotten
  unfoldable pub registry : World → Registry
  registry w k = elim (pointer k w.channels) [ none ↦ none | some p ↦ w.memory p ]

  module _ (w : World) (p : ℕ) (c : Channel) (hdr : ResponseHeader) (body : Object)
      (u : Unpacker) where
    pub unpacker-delivered : (delivered w p c hdr body u).unpacker ≡ u
    unfolding delivered
    unpacker-delivered = ground arith

    pub callbacks-delivered :
        (delivered w p c hdr body u).callbacks ≡ w.callbacks ++ callbacks_of c hdr body
    unfolding delivered
    callbacks-delivered = ground arith

    pub registry-delivered :
        IsSafe w
        → pointer hdr.seq w.channels ≡ some p
        → (k : ℕ) → registry (delivered w p c hdr body u) k ≡ remaining c hdr body (registry w) k
    unfolding delivered registry
    registry-delivered h e k =
        ground (arith, pointer-erase hdr.seq k w.channels, h.alone k hdr.seq p)

  pub registry-some :
      (w : World) (k : ℕ) (c : Channel)
      → registry w k ≡ some c
      → (p : ℕ) × (pointer k w.channels ≡ some p) × (w.memory p ≡ some c)
  unfolding registry
  registry-some w k c e = go (pointer k w.channels) refl
    where
      go :
          (o : Option ℕ)
          → pointer k w.channels ≡ o
          → (p : ℕ) × (pointer k w.channels ≡ some p) × (w.memory p ≡ some c)
      go none d = cc (rw (d, registry) at e)
      go (some p) d = (p, d, rw (d, registry) at e)

  add_callbacks-some :
      (cs es : List Callback) (reg : Registry) (o : Option (List Callback × Registry))
      → add_callbacks cs o ≡ some (es, reg)
      → (ds : List Callback) × (o ≡ some (ds, reg)) × (es ≡ cs ++ ds)
  add_callbacks-some cs es reg none e = cc
  add_callbacks-some cs es reg (some (ds, r)) e = (ds, ground arith, ground arith)

  -- what the router asks of its first message
  unfoldable pub Routed :
      Registry
      → ResponseHeader
      → Object
      → List (ResponseHeader × Object)
      → List Callback
      → Registry
      → Type 0
  Routed reg hdr body ms cs left =
      (c : Channel) × (reg hdr.seq ≡ some c)
      × (is_listener c ≡ true)
      × ((ds : List Callback) × (route (remaining c hdr body reg) ms ≡ some (ds, left))
          × (cs ≡ callbacks_of c hdr body ++ ds))

  pub route-cons :
      (reg left : Registry) (hdr : ResponseHeader) (body : Object)
      (ms : List (ResponseHeader × Object)) (cs : List Callback)
      → route reg ((hdr, body) ∷ ms) ≡ some (cs, left)
      → Routed reg hdr body ms cs left
  unfolding route Routed
  route-cons reg left hdr body ms cs e = go (reg hdr.seq) refl
    where
      listener :
          (c : Channel)
          → reg hdr.seq ≡ some c
          → (if is_listener c
              then add_callbacks (callbacks_of c hdr body) (route (remaining c hdr body reg) ms)
              else none)
            ≡ some (cs, left)
          → Routed reg hdr body ms cs left
      listener c d f = elim (Bool-cases (is_listener c)) [
        | inl yes' ↦ (c, d, yes', add_callbacks-some _ cs left _ (rw yes' at f))
        | inr no' ↦ cc (rw no' at f)
      ]

      go : (o : Option Channel) → reg hdr.seq ≡ o → Routed reg hdr body ms cs left
      go none d = cc (rw (d, route) at e)
      go (some c) d = listener c d (rw (d, route) at e)

  -- the outcome of the loop that a router's answer describes
  abbrev pub Follows : World → List Callback → Registry → Result (Unit {0}) × World → Type 0
  Follows w cs left r =
      (r.0 ≡ ok tt) × (r.1.callbacks ≡ w.callbacks ++ cs) × ((k : ℕ) → registry r.1 k ≡ left k)

  pub nothing_routed :
      (reg left : Registry) (cs : List Callback)
      → route reg [] ≡ some (cs, left)
      → (cs ≡ []) × (reg ≡ left)
  unfolding route
  nothing_routed reg left cs e = (cc, cc)
