-- ===== src/Client/Commands.antt =====
-- src/SerfClient.cpp: the commands that the agent answers with a header alone.
use serf_cpp.Prelude.{ℕ, String, Bool, List}
use serf_cpp.Msgpack.{Msgpack}
use serf_cpp.Exec.{pure, ◌>>=◌}
use serf_cpp.Channel.{nothing}
use serf_cpp.Channel.Memory.{M}
use serf_cpp.IoThread.{send_data, send_header}
use serf_cpp.IoThread.Wait.{Env, with_result, await_reply}
use serf_cpp.Client.{SerfResponse, failure, timeout, response_of, command}
use serf_cpp.Msg.Headers.Codec.{pack_auth_request}
use serf_cpp.Msg.Keys.Codec.{pack_key_request}
use serf_cpp.Msg.Requests.Codec.{
  pack_event_request, pack_respond_request, pack_force_leave_request, pack_tags_request,
}

module _ ⦃m : Msgpack⦄ where
  -- SerfClient::Auth
  unfoldable pub auth : String → Env → M SerfResponse
  auth auth_key env = with_result nothing λ channel. do
    sent ←
        send_data (command "auth") (pack_auth_request (record { auth_key = auth_key })) channel
          env.accepts 0
    await_reply channel env sent failure timeout λ c. pure (response_of c.hdr)

  -- SerfClient::UseKey
  unfoldable pub use_key : String → Env → M SerfResponse
  use_key key env = with_result nothing λ channel. do
    sent ←
        send_data (command "use-key") (pack_key_request (record { key = key })) channel env.accepts
          0
    await_reply channel env sent failure timeout λ c. pure (response_of c.hdr)

  -- SerfClient::Event
  unfoldable pub event : String → List ℕ → Bool → Env → M SerfResponse
  event name payload coalesce env = with_result nothing λ channel. do
    sent ←
        send_data (command "event")
          (pack_event_request (record { name = name; payload = payload; coalesce = coalesce }))
          channel env.accepts 0
    await_reply channel env sent failure timeout λ c. pure (response_of c.hdr)

  -- SerfClient::Respond
  unfoldable pub respond : ℕ → List ℕ → Env → M SerfResponse
  respond id payload env = with_result nothing λ channel. do
    sent ←
        send_data (command "respond") (pack_respond_request (record { id = id; payload = payload }))
          channel env.accepts 0
    await_reply channel env sent failure timeout λ c. pure (response_of c.hdr)

  -- SerfClient::ForceLeave
  unfoldable pub force_leave : String → Env → M SerfResponse
  force_leave node_name env = with_result nothing λ channel. do
    sent ←
        send_data (command "force-leave") (pack_force_leave_request (record { node = node_name }))
          channel env.accepts 0
    await_reply channel env sent failure timeout λ c. pure (response_of c.hdr)

  -- SerfClient::Tags
  unfoldable pub tags : List (String × String) → List String → Env → M SerfResponse
  tags new_tags delete_tags env = with_result nothing λ channel. do
    sent ←
        send_data (command "tags")
          (pack_tags_request (record { tags = new_tags; delete_tags = delete_tags })) channel
          env.accepts 0
    await_reply channel env sent failure timeout λ c. pure (response_of c.hdr)

  -- SerfClient::Leave
  unfoldable pub leave : Env → M SerfResponse
  leave env = with_result nothing λ channel. do
    sent ← send_header (command "leave") channel env.accepts 0
    await_reply channel env sent failure timeout λ c. pure (response_of c.hdr)
