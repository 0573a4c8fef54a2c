-- ===== src/Channel/Produce.antt =====
-- The `produce` methods of src/SerfChannel.cpp and src/SerfChannel.h. `channel` is `this`.
use serf_cpp.Prelude.{ℕ, String, Bool, true, ◌||◌, Option, none, some, str_eq, if◌then◌else◌}
use serf_cpp.Msgpack.{Msgpack}
use serf_cpp.Exec.{pure, or_raise, catch, ◌>>=◌, ◌>>◌}
use serf_cpp.Msg.Headers.{ResponseHeader}
use serf_cpp.Msg.Coordinates.Codec.{as_coord_response}
use serf_cpp.Msg.Keys.Codec.{as_key_response, as_key_list_response}
use serf_cpp.Msg.Requests.Codec.{as_join_response}
use serf_cpp.Msg.Members.Codec.{as_members_response}
use serf_cpp.Msg.Stats.Codec.{as_stats_response}
use serf_cpp.Msg.Records.{LogRecord, default_log_record}
use serf_cpp.Msg.Records.Codec.{
  as_log_record, as_user_event_record, as_query_record, as_member_event_record, as_record_base,
  as_node_response_base, as_node_ack, as_node_response,
}
use serf_cpp.Channel.{
  Reply, nothing, join, key, key_list, members, stats, coord, on_log_record, on_user_event_record,
  on_member_event_record, on_query_event_record, on_query_ack, on_query_response, on_query_complete,
}
use serf_cpp.Channel.Memory.{M, change, next_object, notify}
use mathlib.Core.Option

abbrev pub is_member_event : String → Bool
is_member_event e =
    str_eq e "member-join"
    || (str_eq e "member-leave"
        || (str_eq e "member-update" || (str_eq e "member-failed" || str_eq e "member-reap")))

module _ ⦃m : Msgpack⦄ where
  open m use {Object}

  -- obj.as<T>() for the T of a ResultChannel<T>
  unfoldable pub as_reply : Reply → Object → Option Reply
  as_reply nothing o = some nothing
  as_reply (join _) o = Option.map join (as_join_response o)
  as_reply (key _) o = Option.map key (as_key_response o)
  as_reply (key_list _) o = Option.map key_list (as_key_list_response o)
  as_reply (members _) o = Option.map members (as_members_response o)
  as_reply (stats _) o = Option.map stats (as_stats_response o)
  as_reply (coord _) o = Option.map coord (as_coord_response o)

  -- m_data = obj.as<T>(), if the unpacker has an object
  unfoldable pub store_reply : ℕ → Reply → Option Object → M (Unit {0})
  unfolding as_reply
  store_reply channel r none = pure tt
  store_reply channel r (some obj) = do
    r' ← or_raise (as_reply r obj)
    change channel (λ c. record c { reply = r' })

  unfoldable pub receive_reply : ℕ → Reply → M (Unit {0})
  unfolding store_reply
  receive_reply channel nothing = pure tt
  receive_reply channel r = do oh ← next_object; store_reply channel r oh

  -- ResultChannel<T>::produce and ResultChannel<bool>::produce
  unfoldable pub produce_result : ℕ → Reply → ResponseHeader → M (Unit {0})
  unfolding receive_reply
  produce_result channel r hdr = do
    change channel (λ c. record c { hdr = hdr })
    receive_reply channel r
    change channel (λ c. record c { data_pending = true })

  unfoldable pub as_log : Option Object → M LogRecord
  as_log none = pure default_log_record
  as_log (some obj) = or_raise (as_log_record obj)

  unfoldable pub produce_log : ℕ → ResponseHeader → M (Unit {0})
  unfolding as_log
  produce_log listener hdr = do
    oh ← next_object
    r ← as_log oh
    notify (on_log_record listener hdr r)

  unfoldable pub dispatch_event : ℕ → ResponseHeader → String → Object → M (Unit {0})
  dispatch_event listener hdr e obj =
      if str_eq e "user"
      then (do
        r ← or_raise (as_user_event_record obj)
        notify (on_user_event_record listener hdr r))
      else if str_eq e "query"
      then (do r ← or_raise (as_query_record obj); notify (on_query_event_record listener hdr r))
      else if is_member_event e
      then (do
        r ← or_raise (as_member_event_record obj)
        notify (on_member_event_record listener hdr r))
      else pure tt

  unfoldable pub handle_event : ℕ → ResponseHeader → Option Object → M (Unit {0})
  unfolding dispatch_event
  handle_event listener hdr none = pure tt
  handle_event listener hdr (some obj) =
      catch (do t ← or_raise (as_record_base obj); dispatch_event listener hdr t.event obj)
        (pure tt)

  unfoldable pub produce_event : ℕ → ResponseHeader → M (Unit {0})
  unfolding handle_event
  produce_event listener hdr = do oh ← next_object; handle_event listener hdr oh

  -- `deregister` is the call m_ioThread.removeChannel(hdr.Seq)
  unfoldable pub dispatch_response :
      ℕ → ResponseHeader → M (Unit {0}) → String → Object → M (Unit {0})
  dispatch_response listener hdr deregister t obj =
      if str_eq t "ack"
      then (do r ← or_raise (as_node_ack obj); notify (on_query_ack listener hdr r))
      else if str_eq t "response"
      then (do r ← or_raise (as_node_response obj); notify (on_query_response listener hdr r))
      else if str_eq t "done"
      then (do notify (on_query_complete listener hdr); deregister)
      else pure tt

  unfoldable pub handle_response : ℕ → ResponseHeader → M (Unit {0}) → Option Object → M (Unit {0})
  unfolding dispatch_response
  handle_response listener hdr deregister none = pure tt
  handle_response listener hdr deregister (some obj) =
      catch
        (do
          t ← or_raise (as_node_response_base obj)
          dispatch_response listener hdr deregister t.type obj)
        (pure tt)

  unfoldable pub produce_query : ℕ → ResponseHeader → M (Unit {0}) → M (Unit {0})
  unfolding handle_response
  produce_query listener hdr deregister = do
    oh ← next_object
    handle_response listener hdr deregister oh
