-- ===== src/IoThread/Interleaving.antt =====
-- A request whose caller and the I/O thread take steps in any order. A step is an access to what the
-- two share: the channel map, under its mutex, or a channel. The body of processRpc's object loop and
-- the part of a request method that follows sendData are cut into these steps.
use serf_cpp.Prelude.{ℕ, Bool, true, false, Option, none, some, List, [], ◌∷◌, ◌==◌, if◌then◌else◌}
use serf_cpp.Msgpack.{Msgpack}
use serf_cpp.Exec.{
  Result, ok, raised, terminated, dangling, stalled, pure, or_raise, catch, ◌>>=◌, ◌>>◌,
}
use serf_cpp.Msg.Headers.{ResponseHeader}
use serf_cpp.Msg.Headers.Codec.{as_response_header}
use serf_cpp.Channel.{World, channel_type}
use serf_cpp.Channel.Memory.{M, load, free, next_object}
use serf_cpp.IoThread.{
  is_request, find_channel, erase_channel, remove_channel, add_log_channel, add_event_channel,
  add_query_channel,
}
use serf_cpp.Client.{response_of}
use serf_cpp.Client.Listening.{on_success}
use serf_cpp.IoThread.Rpc.{produce, escaping}
use serf_cpp.IoThread.Wait.{load_result}

-- Where the I/O thread is: between messages; with the pointer that it found in the channel map; when
-- it knows from m_type whether to erase the entry; or about to call produce.
pub data Delivery : Type 0 where
  between : Delivery
  found : Option ℕ → ResponseHeader → Delivery
  typed : ℕ → ResponseHeader → Bool → Delivery
  claimed : ℕ → ResponseHeader → Delivery

-- Where the caller is: in consume; past it without a reply, or with the header of one; at the end of
-- the channel's scope, with or without a reply; or returned.
pub data Caller : Type 0 where
  waiting expired : Caller
  replied : ResponseHeader → Caller
  leaving : Bool → Caller
  gone : Caller

-- What a method does with the channel map on SUCCESS: nothing; Monitor, Stream and Query register a
-- channel of their listener; Stop deregisters one.
pub data FollowUp : Type 0 where
  keeps : FollowUp
  adds_log adds_event adds_query : ℕ → FollowUp
  stops : ℕ → FollowUp

pub data Side : Type 0 where
  caller_turn thread_turn : Side

-- the I/O thread has a pointer to the channel at p
abbrev pub holds : ℕ → Delivery → Bool
holds p between = false
holds p (found none hdr) = false
holds p (found (some q) hdr) = q == p
holds p (typed q hdr b) = q == p
holds p (claimed q hdr) = q == p

module _ ⦃m : Msgpack⦄ where
  pub record Race : Type 0 where
    pub world : World
    pub delivery : Delivery
    pub caller : Caller

  -- the message that the unpacker has, up to the lookup of its channel
  unfoldable pub look_up : Option m.Object → M Delivery
  look_up none = pure between
  look_up (some obj) =
      catch
        (do
          hdr ← or_raise (as_response_header obj)
          channel ← find_channel hdr.seq
          pure (found channel hdr))
        (pure between)

  unfoldable pub thread_step : Delivery → M Delivery
  unfolding look_up
  thread_step between = do oh ← next_object; look_up oh
  thread_step (found none hdr) = pure between
  thread_step (found (some p) hdr) = do c ← load p; pure (typed p hdr (is_request (channel_type c)))
  thread_step (typed p hdr b) = do
    if b then erase_channel hdr.seq else pure tt
    pure (claimed p hdr)
  thread_step (claimed p hdr) = do catch (load p >>= produce p hdr) (pure tt); pure between

  -- the call in the SUCCESS branch of a method, for a reply numbered seq
  unfoldable pub follow_up : FollowUp → ℕ → M (Unit {0})
  follow_up keeps seq = pure tt
  follow_up (adds_log listener) seq = add_log_channel seq listener
  follow_up (adds_event listener) seq = add_event_channel seq listener
  follow_up (adds_query listener) seq = add_query_channel seq listener
  follow_up (stops stop_seq) seq = remove_channel stop_seq

  -- The channel at p is the caller's, and seq the number of its request. The wait is over when there
  -- is data, and may also time out.
  unfoldable pub caller_step : ℕ → ℕ → FollowUp → Caller → M Caller
  unfolding follow_up
  caller_step p seq f waiting = do
    c ← load_result p
    pure (if c.data_pending then replied c.hdr else expired)
  caller_step p seq f (replied hdr) = do
    on_success (response_of hdr) (follow_up f hdr.seq)
    pure (leaving true)
  caller_step p seq f expired = do remove_channel seq; pure (leaving false)
  caller_step p seq f (leaving answered) = do free p; pure gone
  caller_step p seq f gone = pure gone

  abbrev pub placed : {A : Type 0} → (A → World → Race) → Result A → World → Result Race
  placed f (ok a) w = ok (f a w)
  placed f raised w = raised
  placed f terminated w = terminated
  placed f dangling w = dangling
  placed f stalled w = stalled

  unfoldable pub step : ℕ → ℕ → FollowUp → Side → Race → Result Race
  unfolding thread_step caller_step
  step p seq f thread_turn r =
      let (d, w) = thread_step r.delivery r.world in
      placed (λ d' w'. record { world = w'; delivery = d'; caller = r.caller }) (escaping d) w
  step p seq f caller_turn r =
      let (c, w) = caller_step p seq f r.caller r.world in
      placed (λ c' w'. record { world = w'; delivery = r.delivery; caller = c' }) c w

  abbrev pub next : {A B : Type 0} → (A → Result B) → Result A → Result B
  next f (ok a) = f a
  next f raised = raised
  next f terminated = terminated
  next f dangling = dangling
  next f stalled = stalled

  -- the turns in the order in which they are taken
  unfoldable pub interleave : ℕ → ℕ → FollowUp → List Side → Race → Result Race
  unfolding step
  interleave p seq f [] r = ok r
  interleave p seq f (s ∷ ss) r = next (interleave p seq f ss) (step p seq f s r)
