-- ===== src/Msg/Members/Codec.antt =====
-- MSGPACK_DEFINE of cluster members and the members messages: each struct is a map from member names to values. `convert_x o d`
-- converts the object into the struct `d`, `as_x o` into a new struct.
use serf_cpp.Prelude.{
  String, Option, none, some, List, [], ◌∷◌, map, if◌then◌else◌, ◌>>=◌, map_option,
}
use serf_cpp.Msgpack.{Msgpack, field}
use serf_cpp.Msg.Members.{
  Member, default_member, MembersResponse, default_members_response, MembersFilteredRequest,
  default_members_filtered_request,
}

module _ ⦃m : Msgpack⦄ where
  open m use {
    Object, of_str, of_uint, of_int, of_bytes, of_array, of_map, of_str_map, as_str, as_uint,
    as_int, as_bytes, as_array, as_str_map, is_map,
  }

  unfoldable pub fields_member : Member → List (String × Object)
  fields_member r =
      ("Name", of_str r.name)
      ∷ ("Addr", of_bytes r.addr)
      ∷ ("Port", of_int r.port)
      ∷ ("Tags", of_str_map r.tags)
      ∷ ("Status", of_str r.status)
      ∷ ("ProtocolMin", of_uint r.protocol_min)
      ∷ ("ProtocolMax", of_uint r.protocol_max)
      ∷ ("ProtocolCur", of_uint r.protocol_cur)
      ∷ ("DelegateMin", of_uint r.delegate_min)
      ∷ ("DelegateMax", of_uint r.delegate_max)
      ∷ ("DelegateCur", of_uint r.delegate_cur)
      ∷ []

  unfoldable pub pack_member : Member → Object
  unfolding fields_member
  pack_member r = of_map (fields_member r)

  unfoldable pub convert_member : Object → Member → Option Member
  convert_member o d =
      if is_map o
      then (do
        name ← field "Name" as_str d.name o
        addr ← field "Addr" as_bytes d.addr o
        port ← field "Port" as_int d.port o
        tags ← field "Tags" as_str_map d.tags o
        status ← field "Status" as_str d.status o
        protocol_min ← field "ProtocolMin" (as_uint 8) d.protocol_min o
        protocol_max ← field "ProtocolMax" (as_uint 8) d.protocol_max o
        protocol_cur ← field "ProtocolCur" (as_uint 8) d.protocol_cur o
        delegate_min ← field "DelegateMin" (as_uint 8) d.delegate_min o
        delegate_max ← field "DelegateMax" (as_uint 8) d.delegate_max o
        delegate_cur ← field "DelegateCur" (as_uint 8) d.delegate_cur o
        some (record {
          name = name;
          addr = addr;
          port = port;
          tags = tags;
          status = status;
          protocol_min = protocol_min;
          protocol_max = protocol_max;
          protocol_cur = protocol_cur;
          delegate_min = delegate_min;
          delegate_max = delegate_max;
          delegate_cur = delegate_cur;
        }))
      else none

  unfoldable pub as_member : Object → Option Member
  unfolding convert_member
  as_member o = convert_member o default_member

  unfoldable pub as_members : Object → Option (List Member)
  unfolding as_member
  as_members o = do os ← as_array o; map_option as_member os

  unfoldable pub fields_members_response : MembersResponse → List (String × Object)
  fields_members_response r = ("Members", of_array (map pack_member r.members)) ∷ []

  unfoldable pub pack_members_response : MembersResponse → Object
  unfolding fields_members_response
  pack_members_response r = of_map (fields_members_response r)

  unfoldable pub convert_members_response : Object → MembersResponse → Option MembersResponse
  convert_members_response o d =
      if is_map o
      then (do
        members ← field "Members" as_members d.members o
        some (record { members = members }))
      else none

  unfoldable pub as_members_response : Object → Option MembersResponse
  unfolding convert_members_response
  as_members_response o = convert_members_response o default_members_response

  unfoldable pub fields_members_filtered_request : MembersFilteredRequest → List (String × Object)
  fields_members_filtered_request r =
      ("Tags", of_str_map r.tags) ∷ ("Status", of_str r.status) ∷ ("Name", of_str r.name) ∷ []

  unfoldable pub pack_members_filtered_request : MembersFilteredRequest → Object
  unfolding fields_members_filtered_request
  pack_members_filtered_request r = of_map (fields_members_filtered_request r)

  unfoldable pub convert_members_filtered_request :
      Object → MembersFilteredRequest → Option MembersFilteredRequest
  convert_members_filtered_request o d =
      if is_map o
      then (do
        tags ← field "Tags" as_str_map d.tags o
        status ← field "Status" as_str d.status o
        name ← field "Name" as_str d.name o
        some (record { tags = tags; status = status; name = name }))
      else none

  unfoldable pub as_members_filtered_request : Object → Option MembersFilteredRequest
  unfolding convert_members_filtered_request
  as_members_filtered_request o =
      convert_members_filtered_request o default_members_filtered_request
