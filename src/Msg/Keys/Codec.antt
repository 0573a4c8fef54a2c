-- ===== src/Msg/Keys/Codec.antt =====
-- MSGPACK_DEFINE of the messages of the key commands: each struct is a map from member names to values. `convert_x o d`
-- converts the object into the struct `d`, `as_x o` into a new struct.
use serf_cpp.Prelude.{String, Option, none, some, List, [], ◌∷◌, if◌then◌else◌, ◌>>=◌}
use serf_cpp.Msgpack.{Msgpack, field}
use serf_cpp.Msg.Keys.{
  KeyRequest, default_key_request, KeyResponse, default_key_response, KeyListResponse,
  default_key_list_response,
}

module _ ⦃m : Msgpack⦄ where
  open m use {
    Object, of_str, of_int, of_map, of_str_map, of_int_map, as_str, as_int, as_str_map, as_int_map,
    is_map,
  }

  unfoldable pub fields_key_request : KeyRequest → List (String × Object)
  fields_key_request r = ("Key", of_str r.key) ∷ []

  unfoldable pub pack_key_request : KeyRequest → Object
  unfolding fields_key_request
  pack_key_request r = of_map (fields_key_request r)

  unfoldable pub convert_key_request : Object → KeyRequest → Option KeyRequest
  convert_key_request o d =
      if is_map o then (do key ← field "Key" as_str d.key o; some (record { key = key })) else none

  unfoldable pub as_key_request : Object → Option KeyRequest
  unfolding convert_key_request
  as_key_request o = convert_key_request o default_key_request

  unfoldable pub fields_key_response : KeyResponse → List (String × Object)
  fields_key_response r =
      ("Messages", of_str_map r.messages)
      ∷ ("NumErr", of_int r.num_err)
      ∷ ("NumNodes", of_int r.num_nodes)
      ∷ ("NumResp", of_int r.num_resp)
      ∷ []

  unfoldable pub pack_key_response : KeyResponse → Object
  unfolding fields_key_response
  pack_key_response r = of_map (fields_key_response r)

  unfoldable pub convert_key_response : Object → KeyResponse → Option KeyResponse
  convert_key_response o d =
      if is_map o
      then (do
        messages ← field "Messages" as_str_map d.messages o
        num_err ← field "NumErr" as_int d.num_err o
        num_nodes ← field "NumNodes" as_int d.num_nodes o
        num_resp ← field "NumResp" as_int d.num_resp o
        some (record {
          messages = messages;
          num_err = num_err;
          num_nodes = num_nodes;
          num_resp = num_resp;
        }))
      else none

  unfoldable pub as_key_response : Object → Option KeyResponse
  unfolding convert_key_response
  as_key_response o = convert_key_response o default_key_response

  unfoldable pub fields_key_list_response : KeyListResponse → List (String × Object)
  fields_key_list_response r =
      ("Messages", of_str_map r.messages)
      ∷ ("Keys", of_int_map r.keys)
      ∷ ("NumErr", of_int r.num_err)
      ∷ ("NumNodes", of_int r.num_nodes)
      ∷ ("NumResp", of_int r.num_resp)
      ∷ []

  unfoldable pub pack_key_list_response : KeyListResponse → Object
  unfolding fields_key_list_response
  pack_key_list_response r = of_map (fields_key_list_response r)

  unfoldable pub convert_key_list_response : Object → KeyListResponse → Option KeyListResponse
  convert_key_list_response o d =
      if is_map o
      then (do
        messages ← field "Messages" as_str_map d.messages o
        keys ← field "Keys" as_int_map d.keys o
        num_err ← field "NumErr" as_int d.num_err o
        num_nodes ← field "NumNodes" as_int d.num_nodes o
        num_resp ← field "NumResp" as_int d.num_resp o
        some (record {
          messages = messages;
          keys = keys;
          num_err = num_err;
          num_nodes = num_nodes;
          num_resp = num_resp;
        }))
      else none

  unfoldable pub as_key_list_response : Object → Option KeyListResponse
  unfolding convert_key_list_response
  as_key_list_response o = convert_key_list_response o default_key_list_response
