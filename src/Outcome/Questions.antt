-- ===== src/Outcome/Questions.antt =====
-- Requests whose reply has a body, when they are answered.
use serf_cpp.Prelude.{String, Bool, true, false, ◌&&◌, List, ◌∷◌, ◌≡◌, refl}
use serf_cpp.Msgpack.{Msgpack}
use serf_cpp.Exec.{ok, pure}
use serf_cpp.Msg.Coordinates.{default_coord_response}
use serf_cpp.Msg.Keys.{default_key_response, default_key_list_response}
use serf_cpp.Msg.Members.{default_members_response}
use serf_cpp.Msg.Requests.{default_join_response}
use serf_cpp.Msg.Stats.{default_stats_response}
use serf_cpp.Msg.Coordinates.Codec.{pack_coord_request}
use serf_cpp.Msg.Keys.Codec.{pack_key_request}
use serf_cpp.Msg.Members.Codec.{pack_members_filtered_request}
use serf_cpp.Msg.Requests.Codec.{pack_join_request}
use serf_cpp.Channel.{World, Reply}
use serf_cpp.Channel.Memory.{M}
use serf_cpp.IoThread.{connected, send_data, send_header}
use serf_cpp.IoThread.Wait.{Env}
use serf_cpp.Client.{SerfResponse, failure, timeout, response_of, command}
use serf_cpp.Client.Queries.{
  join, install_key, list_keys, remove_key, members, members_filtered, stats, get_coordinate,
  join_of, key_of, key_list_of, members_of, stats_of, coord_of,
}
use serf_cpp.Client.Session.{
  Call, joins, install_keys, remove_keys, lists_keys, lists_members, filters_members, asks_stats,
  asks_coordinate,
}
use serf_cpp.Outcome.{request_of, forgotten}
use serf_cpp.Outcome.Sending.{send_data_lem, send_header_lem}
use serf_cpp.Outcome.Reply.{Brings, asking-answered}
use serf_cpp.Msg.Headers.{ResponseHeader}
use serf_cpp.IoThread.Rpc.{Batch}
use serf_cpp.Safety.Invariant.{IsSafe}
use serf_cpp.Msg.Coordinates.{CoordResponse}
use serf_cpp.Msg.Keys.{KeyResponse, KeyListResponse}
use serf_cpp.Msg.Members.{MembersResponse}
use serf_cpp.Msg.Stats.{StatsResponse}
use serf_cpp.Prelude.{ℤ}
use serf_cpp.Outcome.Asking.{ready}

-- such a request, without the variable for its result
pub data Question : Type 0 where
  joining : List String → Bool → Question
  installing_key : String → Question
  removing_key : String → Question
  listing_keys : Question
  listing_members : Question
  filtering_members : List (String × String) → String → String → Question
  asking_stats : Question
  asking_coordinate : String → Question

-- what it returns by reference
abbrev pub Returned : Question → Type 0
Returned (joining a r) = ℤ
Returned (installing_key k) = KeyResponse
Returned (removing_key k) = KeyResponse
Returned listing_keys = KeyListResponse
Returned listing_members = MembersResponse
Returned (filtering_members t s n) = MembersResponse
Returned asking_stats = StatsResponse
Returned (asking_coordinate n) = CoordResponse

-- the kind of body that it waits for
abbrev pub awaited : Question → Reply
awaited (joining a r) = Reply.join default_join_response
awaited (installing_key k) = Reply.key default_key_response
awaited (removing_key k) = Reply.key default_key_response
awaited listing_keys = Reply.key_list default_key_list_response
awaited listing_members = Reply.members default_members_response
awaited (filtering_members t s n) = Reply.members default_members_response
awaited asking_stats = Reply.stats default_stats_response
awaited (asking_coordinate n) = Reply.coord default_coord_response

-- the result in the body of its reply
abbrev pub result_in : (q : Question) → Reply → Returned q
result_in (joining a r) reply = (join_of reply).num
result_in (installing_key k) reply = key_of reply
result_in (removing_key k) reply = key_of reply
result_in listing_keys reply = key_list_of reply
result_in listing_members reply = members_of reply
result_in (filtering_members t s n) reply = members_of reply
result_in asking_stats reply = stats_of reply
result_in (asking_coordinate n) reply = coord_of reply

abbrev pub call_of : (q : Question) → Returned q → Call
call_of (joining a r) old = joins a r old
call_of (installing_key k) old = install_keys k old
call_of (removing_key k) old = remove_keys k old
call_of listing_keys old = lists_keys old
call_of listing_members old = lists_members old
call_of (filtering_members t s n) old = filters_members t s n old
call_of asking_stats old = asks_stats old
call_of (asking_coordinate n) old = asks_coordinate n old

module _ ⦃m : Msgpack⦄ where
  unfoldable pub ask : (q : Question) → Returned q → Env → M (SerfResponse × Returned q)
  ask (joining a r) = join a r
  ask (installing_key k) = install_key k
  ask (removing_key k) = remove_key k
  ask listing_keys = list_keys
  ask listing_members = members
  ask (filtering_members t s n) = members_filtered t s n
  ask asking_stats = stats
  ask (asking_coordinate n) = get_coordinate n

  -- In a safe state with a running I/O thread, if the message of a request is sent and the first
  -- round brings the header of its reply, a body that converts, and nothing else, then the request
  -- returns the result of that body, with SUCCESS if the Error of the header is empty and FAILURE
  -- otherwise. The request has been written to the socket, its channel is no longer registered, the
  -- reply has been consumed, and nothing else has changed.
  pub ask-answered :
      (q : Question) (old : Returned q) (env : Env) (w : World) (b : Batch) (bs : List Batch)
      (hdr : ResponseHeader) (r : Reply) (y : m.Unpacker)
      → IsSafe w
      → w.running ≡ true
      → w.shutdown ≡ false
      → (connected w.socket && env.accepts) ≡ true
      → env.arrivals ≡ b ∷ bs
      → Brings w.unpacker b w.seq hdr (awaited q) r y
      → ask q old env w ≡ (
        ok (response_of hdr, result_in q r),
        record (forgotten w (request_of (call_of q old) w.seq)) { unpacker = y },
      )
  unfolding ask join install_key remove_key list_keys members members_filtered stats get_coordinate
  ask-answered (joining a r) old env w q qs hdr u y safe runs on sent arrives h =
      asking-answered (Reply.join default_join_response) u
        (λ q.
          send_data (command "join") (pack_join_request (record { existing = a; replay = r })) q
            env.accepts 0)
        (λ _. (failure, old)) (λ _. (timeout, old))
        (λ z s. pure (response_of z.hdr, (join_of z.reply).num)) env w
        (request_of (call_of (joining a r) old) w.seq) q qs hdr y (response_of hdr, (join_of u).num)
        safe runs on
        (send_data_lem (command "join") w.next_address env.accepts 0
          (ready w (Reply.join default_join_response)) true sent
          (pack_join_request (record { existing = a; replay = r })))
        arrives h (λ v. refl)
  ask-answered (installing_key k) old env w q qs hdr u y safe runs on sent arrives h =
      asking-answered (Reply.key default_key_response) u
        (λ q.
          send_data (command "install-key") (pack_key_request (record { key = k })) q env.accepts 0)
        (λ _. (failure, old)) (λ _. (timeout, old))
        (λ z s. pure (response_of z.hdr, key_of z.reply)) env w
        (request_of (call_of (installing_key k) old) w.seq) q qs hdr y (response_of hdr, key_of u)
        safe runs on
        (send_data_lem (command "install-key") w.next_address env.accepts 0
          (ready w (Reply.key default_key_response)) true sent
          (pack_key_request (record { key = k })))
        arrives h (λ v. refl)
  ask-answered (removing_key k) old env w q qs hdr u y safe runs on sent arrives h =
      asking-answered (Reply.key default_key_response) u
        (λ q.
          send_data (command "remove-key") (pack_key_request (record { key = k })) q env.accepts 0)
        (λ _. (failure, old)) (λ _. (timeout, old))
        (λ z s. pure (response_of z.hdr, key_of z.reply)) env w
        (request_of (call_of (removing_key k) old) w.seq) q qs hdr y (response_of hdr, key_of u)
        safe runs on
        (send_data_lem (command "remove-key") w.next_address env.accepts 0
          (ready w (Reply.key default_key_response)) true sent
          (pack_key_request (record { key = k })))
        arrives h (λ v. refl)
  ask-answered listing_keys old env w q qs hdr u y safe runs on sent arrives h =
      asking-answered (Reply.key_list default_key_list_response) u
        (λ q. send_header (command "list-keys") q env.accepts 0) (λ _. (failure, old))
        (λ _. (timeout, old)) (λ z s. pure (response_of z.hdr, key_list_of z.reply)) env w
        (request_of (call_of listing_keys old) w.seq) q qs hdr y (response_of hdr, key_list_of u)
        safe runs on
        (send_header_lem (command "list-keys") w.next_address env.accepts 0
          (ready w (Reply.key_list default_key_list_response)) true sent)
        arrives h (λ v. refl)
  ask-answered listing_members old env w q qs hdr u y safe runs on sent arrives h =
      asking-answered (Reply.members default_members_response) u
        (λ q. send_header (command "members") q env.accepts 0) (λ _. (failure, old))
        (λ _. (timeout, old)) (λ z s. pure (response_of z.hdr, members_of z.reply)) env w
        (request_of (call_of listing_members old) w.seq) q qs hdr y (response_of hdr, members_of u)
        safe runs on
        (send_header_lem (command "members") w.next_address env.accepts 0
          (ready w (Reply.members default_members_response)) true sent)
        arrives h (λ v. refl)
  ask-answered (filtering_members t s n) old env w q qs hdr u y safe runs on sent arrives h =
      asking-answered (Reply.members default_members_response) u
        (λ q.
          send_data (command "members-filtered")
            (pack_members_filtered_request (record { tags = t; status = s; name = n })) q
            env.accepts 0)
        (λ _. (failure, old)) (λ _. (timeout, old))
        (λ z s. pure (response_of z.hdr, members_of z.reply)) env w
        (request_of (call_of (filtering_members t s n) old) w.seq) q qs hdr y
        (response_of hdr, members_of u) safe runs on
        (send_data_lem (command "members-filtered") w.next_address env.accepts 0
          (ready w (Reply.members default_members_response)) true sent
          (pack_members_filtered_request (record { tags = t; status = s; name = n })))
        arrives h (λ v. refl)
  ask-answered asking_stats old env w q qs hdr u y safe runs on sent arrives h =
      asking-answered (Reply.stats default_stats_response) u
        (λ q. send_header (command "stats") q env.accepts 0) (λ _. (failure, old))
        (λ _. (timeout, old)) (λ z s. pure (response_of z.hdr, stats_of z.reply)) env w
        (request_of (call_of asking_stats old) w.seq) q qs hdr y (response_of hdr, stats_of u) safe
        runs on
        (send_header_lem (command "stats") w.next_address env.accepts 0
          (ready w (Reply.stats default_stats_response)) true sent)
        arrives h (λ v. refl)
  ask-answered (asking_coordinate n) old env w q qs hdr u y safe runs on sent arrives h =
      asking-answered (Reply.coord default_coord_response) u
        (λ q.
          send_data (command "get-coordinate") (pack_coord_request (record { node = n })) q
            env.accepts 0)
        (λ _. (failure, old)) (λ _. (timeout, old))
        (λ z s. pure (response_of z.hdr, coord_of z.reply)) env w
        (request_of (call_of (asking_coordinate n) old) w.seq) q qs hdr y
        (response_of hdr, coord_of u) safe runs on
        (send_data_lem (command "get-coordinate") w.next_address env.accepts 0
          (ready w (Reply.coord default_coord_response)) true sent
          (pack_coord_request (record { node = n })))
        arrives h (λ v. refl)
