-- ===== src/Client/Queries.antt =====
-- src/SerfClient.cpp: the requests that the agent answers with a header and a body. The old value
-- of the variable that a method returns by reference comes before the Env.
use serf_cpp.Prelude.{ℤ, String, Bool, List}
use serf_cpp.Msgpack.{Msgpack}
use serf_cpp.Exec.{pure, ◌>>=◌}
use serf_cpp.Channel.{Reply}
use serf_cpp.Channel.Memory.{M}
use serf_cpp.IoThread.{send_data, send_header}
use serf_cpp.IoThread.Wait.{Env, with_result, await_reply}
use serf_cpp.Client.{SerfResponse, failure, timeout, response_of, command}
use serf_cpp.Msg.Coordinates.{CoordResponse, default_coord_response}
use serf_cpp.Msg.Coordinates.Codec.{pack_coord_request}
use serf_cpp.Msg.Keys.{
  KeyResponse, default_key_response, KeyListResponse, default_key_list_response,
}
use serf_cpp.Msg.Keys.Codec.{pack_key_request}
use serf_cpp.Msg.Requests.{JoinResponse, default_join_response}
use serf_cpp.Msg.Requests.Codec.{pack_join_request}
use serf_cpp.Msg.Members.{MembersResponse, default_members_response}
use serf_cpp.Msg.Members.Codec.{pack_members_filtered_request}
use serf_cpp.Msg.Stats.{StatsResponse, default_stats_response}

-- the m_data of a ResultChannel, which has the type that its request gave it
abbrev pub join_of : Reply → JoinResponse
join_of (Reply.join r) = r
join_of _ = default_join_response

abbrev pub key_of : Reply → KeyResponse
key_of (Reply.key r) = r
key_of _ = default_key_response

abbrev pub key_list_of : Reply → KeyListResponse
key_list_of (Reply.key_list r) = r
key_list_of _ = default_key_list_response

abbrev pub members_of : Reply → MembersResponse
members_of (Reply.members r) = r
members_of _ = default_members_response

abbrev pub stats_of : Reply → StatsResponse
stats_of (Reply.stats r) = r
stats_of _ = default_stats_response

abbrev pub coord_of : Reply → CoordResponse
coord_of (Reply.coord r) = r
coord_of _ = default_coord_response

module _ ⦃m : Msgpack⦄ where
  -- SerfClient::Join
  unfoldable pub join : List String → Bool → ℤ → Env → M (SerfResponse × ℤ)
  join addrs replay old_node_count env = with_result (Reply.join default_join_response) λ channel.
      do
        sent ←
            send_data (command "join")
              (pack_join_request (record { existing = addrs; replay = replay })) channel env.accepts
              0
        await_reply channel env sent (failure, old_node_count) (timeout, old_node_count)
            λ c. pure (response_of c.hdr, (join_of c.reply).num)

  -- SerfClient::InstallKey
  unfoldable pub install_key : String → KeyResponse → Env → M (SerfResponse × KeyResponse)
  install_key key old_keys env = with_result (Reply.key default_key_response) λ channel. do
    sent ←
        send_data (command "install-key") (pack_key_request (record { key = key })) channel
          env.accepts 0
    await_reply channel env sent (failure, old_keys) (timeout, old_keys)
        λ c. pure (response_of c.hdr, key_of c.reply)

  -- SerfClient::ListKeys
  unfoldable pub list_keys : KeyListResponse → Env → M (SerfResponse × KeyListResponse)
  list_keys old_keys env = with_result (Reply.key_list default_key_list_response) λ channel. do
    sent ← send_header (command "list-keys") channel env.accepts 0
    await_reply channel env sent (failure, old_keys) (timeout, old_keys)
        λ c. pure (response_of c.hdr, key_list_of c.reply)

  -- SerfClient::RemoveKey
  unfoldable pub remove_key : String → KeyResponse → Env → M (SerfResponse × KeyResponse)
  remove_key key old_keys env = with_result (Reply.key default_key_response) λ channel. do
    sent ←
        send_data (command "remove-key") (pack_key_request (record { key = key })) channel
          env.accepts 0
    await_reply channel env sent (failure, old_keys) (timeout, old_keys)
        λ c. pure (response_of c.hdr, key_of c.reply)

  -- SerfClient::Members
  unfoldable pub members : MembersResponse → Env → M (SerfResponse × MembersResponse)
  members old_members env = with_result (Reply.members default_members_response) λ channel. do
    sent ← send_header (command "members") channel env.accepts 0
    await_reply channel env sent (failure, old_members) (timeout, old_members)
        λ c. pure (response_of c.hdr, members_of c.reply)

  -- SerfClient::MembersFiltered
  unfoldable pub members_filtered :
      List (String × String)
      → String
      → String
      → MembersResponse
      → Env
      → M (SerfResponse × MembersResponse)
  members_filtered tags status name old_members env =
      with_result (Reply.members default_members_response) λ channel. do
        sent ←
            send_data (command "members-filtered")
              (pack_members_filtered_request (record { tags = tags; status = status; name = name }))
              channel env.accepts 0
        await_reply channel env sent (failure, old_members) (timeout, old_members)
            λ c. pure (response_of c.hdr, members_of c.reply)

  -- SerfClient::Stats
  unfoldable pub stats : StatsResponse → Env → M (SerfResponse × StatsResponse)
  stats old_stats env = with_result (Reply.stats default_stats_response) λ channel. do
    sent ← send_header (command "stats") channel env.accepts 0
    await_reply channel env sent (failure, old_stats) (timeout, old_stats)
        λ c. pure (response_of c.hdr, stats_of c.reply)

  -- SerfClient::GetCoordinate
  unfoldable pub get_coordinate : String → CoordResponse → Env → M (SerfResponse × CoordResponse)
  get_coordinate node old_coordinate env =
      with_result (Reply.coord default_coord_response) λ channel. do
        sent ←
            send_data (command "get-coordinate") (pack_coord_request (record { node = node }))
              channel env.accepts 0
        await_reply channel env sent (failure, old_coordinate) (timeout, old_coordinate)
            λ c. pure (response_of c.hdr, coord_of c.reply)
