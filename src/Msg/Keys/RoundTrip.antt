-- ===== src/Msg/Keys/RoundTrip.antt =====
-- Converting what MSGPACK_DEFINE packed: the messages of the key commands.
use serf_cpp.Prelude.{IsInt32, true, some, ◌≡◌, refl, All, ascending}
use serf_cpp.Msgpack.{Msgpack, field_lem}
use serf_cpp.Msg.Keys.{
  KeyRequest, default_key_request, KeyResponse, default_key_response, KeyListResponse,
  default_key_list_response,
}
use serf_cpp.Msg.Keys.Codec.{
  pack_key_request, fields_key_request, convert_key_request, as_key_request, pack_key_response,
  fields_key_response, convert_key_response, as_key_response, pack_key_list_response,
  fields_key_list_response, convert_key_list_response, as_key_list_response,
}

abbrev pub IsPackableKeyResponse : KeyResponse → Type 0
IsPackableKeyResponse r =
    (ascending r.messages ≡ true) × IsInt32 r.num_err × IsInt32 r.num_nodes × IsInt32 r.num_resp

abbrev pub IsPackableKeyListResponse : KeyListResponse → Type 0
IsPackableKeyListResponse r =
    (ascending r.messages ≡ true)
    × (ascending r.keys ≡ true)
    × All (λ kv. IsInt32 kv.1) r.keys
    × IsInt32 r.num_err
    × IsInt32 r.num_nodes
    × IsInt32 r.num_resp

module _ ⦃m : Msgpack⦄ where
  open m use {
    is_map-of_map, as_str-of_str, as_int-of_int, as_str_map-of_str_map, as_int_map-of_int_map,
    as_str, as_int, as_str_map, as_int_map,
  }

  pub convert-pack_key_request :
      (r d : KeyRequest) → convert_key_request (pack_key_request r) d ≡ some r
  unfolding pack_key_request convert_key_request
  convert-pack_key_request r d =
      let fs = fields_key_request r in
      rw (is_map-of_map fs, field_lem fs as_str "Key" d.key r.key _ refl refl (as_str-of_str r.key))

  pub as-pack_key_request : (r : KeyRequest) → as_key_request (pack_key_request r) ≡ some r
  unfolding as_key_request
  as-pack_key_request r = convert-pack_key_request r default_key_request

  pub convert-pack_key_response :
      (r d : KeyResponse)
      → IsPackableKeyResponse r
      → convert_key_response (pack_key_response r) d ≡ some r
  unfolding pack_key_response convert_key_response
  convert-pack_key_response r d h =
      let fs = fields_key_response r in
      rw (
        is_map-of_map fs,
        field_lem fs as_str_map "Messages" d.messages r.messages _ refl refl
            (as_str_map-of_str_map r.messages h.0),
        field_lem fs as_int "NumErr" d.num_err r.num_err _ refl refl (as_int-of_int r.num_err h.1),
        field_lem fs as_int "NumNodes" d.num_nodes r.num_nodes _ refl refl
            (as_int-of_int r.num_nodes h.2),
        field_lem fs as_int "NumResp" d.num_resp r.num_resp _ refl refl
            (as_int-of_int r.num_resp h.3),
      )

  pub as-pack_key_response :
      (r : KeyResponse) → IsPackableKeyResponse r → as_key_response (pack_key_response r) ≡ some r
  unfolding as_key_response
  as-pack_key_response r h = convert-pack_key_response r default_key_response h

  pub convert-pack_key_list_response :
      (r d : KeyListResponse)
      → IsPackableKeyListResponse r
      → convert_key_list_response (pack_key_list_response r) d ≡ some r
  unfolding pack_key_list_response convert_key_list_response
  convert-pack_key_list_response r d h =
      let fs = fields_key_list_response r in
      rw (
        is_map-of_map fs,
        field_lem fs as_str_map "Messages" d.messages r.messages _ refl refl
            (as_str_map-of_str_map r.messages h.0),
        field_lem fs as_int_map "Keys" d.keys r.keys _ refl refl
            (as_int_map-of_int_map r.keys h.1 h.2),
        field_lem fs as_int "NumErr" d.num_err r.num_err _ refl refl (as_int-of_int r.num_err h.3),
        field_lem fs as_int "NumNodes" d.num_nodes r.num_nodes _ refl refl
            (as_int-of_int r.num_nodes h.4),
        field_lem fs as_int "NumResp" d.num_resp r.num_resp _ refl refl
            (as_int-of_int r.num_resp h.5),
      )

  pub as-pack_key_list_response :
      (r : KeyListResponse)
      → IsPackableKeyListResponse r
      → as_key_list_response (pack_key_list_response r) ≡ some r
  unfolding as_key_list_response
  as-pack_key_list_response r h = convert-pack_key_list_response r default_key_list_response h
