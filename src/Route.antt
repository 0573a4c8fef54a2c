-- ===== src/Route.antt =====
-- What the I/O thread promises its listeners: a message goes to the channel that is registered under
-- its sequence number, and becomes the callback that the channel and the record call for.
pub mod Message
pub mod Single
pub mod Router
pub mod Stream
use serf_cpp.Prelude.{
  ℕ, String, Bool, true, false, Option, none, some, List, [], ◌∷◌, ◌++◌, ◌||◌, str_eq, ◌==◌,
  if◌then◌else◌,
}
use serf_cpp.Msgpack.{Msgpack}
use serf_cpp.Msg.Headers.{ResponseHeader}
use serf_cpp.Msg.Records.Codec.{
  as_log_record, as_user_event_record, as_query_record, as_member_event_record, as_record_base,
  as_node_response_base, as_node_ack, as_node_response,
}
use serf_cpp.Channel.{
  Channel, ResultChannel, Callback, World, result, log, event, query, on_log_record,
  on_user_event_record, on_member_event_record, on_query_event_record, on_query_ack,
  on_query_response, on_query_complete,
}
use serf_cpp.SeqMap.{pointer, erase}
use serf_cpp.Channel.Memory.{update}

-- The kinds of records that event channels and query channels tell apart by their first member.
pub data EventKind : Type 0 where
  user asked member unknown : EventKind

-- the events of members, by the names that the agent gives them
abbrev pub member_events : List String
member_events =
    "member-join" ∷ "member-leave" ∷ "member-update" ∷ "member-failed" ∷ "member-reap" ∷ []

abbrev pub is_listed : String → List String → Bool
is_listed e [] = false
is_listed e (x ∷ xs) = str_eq e x || is_listed e xs

unfoldable pub event_kind : String → EventKind
event_kind e =
    if str_eq e "user"
    then user
    else if str_eq e "query"
    then asked
    else if is_listed e member_events
    then member
    else unknown

pub data ResponseKind : Type 0 where
  ack response done other : ResponseKind

unfoldable pub response_kind : String → ResponseKind
response_kind t =
    if str_eq t "ack"
    then ack
    else if str_eq t "response"
    then response
    else if str_eq t "done"
    then done
    else other

-- one callback, if the record has the members that its kind asks for
abbrev pub one_if {ℓ} : {A : Type ℓ} → Option A → (A → Callback) → List Callback
one_if none f = []
one_if (some a) f = f a ∷ []

module _ ⦃m : Msgpack⦄ where
  open m use {Object}

  abbrev event_callbacks : ℕ → ResponseHeader → Object → EventKind → List Callback
  event_callbacks l hdr o user = one_if (as_user_event_record o) (on_user_event_record l hdr)
  event_callbacks l hdr o asked = one_if (as_query_record o) (on_query_event_record l hdr)
  event_callbacks l hdr o member = one_if (as_member_event_record o) (on_member_event_record l hdr)
  event_callbacks l hdr o unknown = []

  abbrev response_callbacks : ℕ → ResponseHeader → Object → ResponseKind → List Callback
  response_callbacks l hdr o ack = one_if (as_node_ack o) (on_query_ack l hdr)
  response_callbacks l hdr o response = one_if (as_node_response o) (on_query_response l hdr)
  response_callbacks l hdr o done = on_query_complete l hdr ∷ []
  response_callbacks l hdr o other = []

  unfoldable pub callbacks_of : Channel → ResponseHeader → Object → List Callback
  unfolding event_kind response_kind
  callbacks_of (result c) hdr o = []
  callbacks_of (log l) hdr o = one_if (as_log_record o) (on_log_record l hdr)
  callbacks_of (event l) hdr o = elim (as_record_base o) [
    | none ↦ []
    | some t ↦ event_callbacks l hdr o (event_kind t.event)
  ]
  callbacks_of (query l) hdr o = elim (as_node_response_base o) [
    | none ↦ []
    | some t ↦ response_callbacks l hdr o (response_kind t.type)
  ]

  abbrev is_done : ResponseKind → Bool
  is_done done = true
  is_done _ = false

  -- the record is the last one of its channel
  unfoldable pub closes : Channel → Object → Bool
  unfolding response_kind
  closes (query l) o = elim (as_node_response_base o) [
    | none ↦ false
    | some t ↦ is_done (response_kind t.type)
  ]
  closes _ o = false

  abbrev pub is_listener : Channel → Bool
  is_listener (result c) = false
  is_listener _ = true

  -- the state when the channel c, registered at p under hdr.seq, has handled its record
  unfoldable pub delivered : World → ℕ → Channel → ResponseHeader → Object → m.Unpacker → World
  unfolding callbacks_of closes
  delivered w p c hdr o u =
      let heard = record w { unpacker = u; callbacks = w.callbacks ++ callbacks_of c hdr o } in
      if closes c o
      then record heard { channels = erase hdr.seq w.channels; memory = update w.memory p none }
      else heard
