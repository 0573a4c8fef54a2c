-- ===== src/Msg/Members/RoundTrip.antt =====
-- Converting what MSGPACK_DEFINE packed: cluster members and the members messages.
use serf_cpp.Prelude.{
  ◌<◌, ◌^◌, IsInt32, true, some, List, map, ◌≡◌, refl, map_option-map, All, ascending,
}
use serf_cpp.Msgpack.{Msgpack, field_lem}
use serf_cpp.Msg.Members.{
  Member, default_member, MembersResponse, default_members_response, MembersFilteredRequest,
  default_members_filtered_request,
}
use serf_cpp.Msg.Members.Codec.{
  pack_member, fields_member, convert_member, as_member, as_members, pack_members_response,
  fields_members_response, convert_members_response, as_members_response,
  pack_members_filtered_request, fields_members_filtered_request, convert_members_filtered_request,
  as_members_filtered_request,
}

abbrev pub IsPackableMember : Member → Type 0
IsPackableMember r =
    IsInt32 r.port
    × (ascending r.tags ≡ true)
    × (r.protocol_min < 2 ^ 8)
    × (r.protocol_max < 2 ^ 8)
    × (r.protocol_cur < 2 ^ 8)
    × (r.delegate_min < 2 ^ 8)
    × (r.delegate_max < 2 ^ 8)
    × (r.delegate_cur < 2 ^ 8)

abbrev pub IsPackableMembersResponse : MembersResponse → Type 0
IsPackableMembersResponse r = All IsPackableMember r.members

abbrev pub IsPackableMembersFilteredRequest : MembersFilteredRequest → Type 0
IsPackableMembersFilteredRequest r = (ascending r.tags ≡ true)

module _ ⦃m : Msgpack⦄ where
  open m use {
    of_array, is_map-of_map, as_str-of_str, as_bytes-of_bytes, as_uint-of_uint, as_int-of_int,
    as_str_map-of_str_map, as_array-of_array, as_str, as_uint, as_int, as_bytes, as_str_map,
  }

  pub convert-pack_member :
      (r d : Member) → IsPackableMember r → convert_member (pack_member r) d ≡ some r
  unfolding pack_member convert_member
  convert-pack_member r d h =
      let fs = fields_member r in
      rw (
        is_map-of_map fs,
        field_lem fs as_str "Name" d.name r.name _ refl refl (as_str-of_str r.name),
        field_lem fs as_bytes "Addr" d.addr r.addr _ refl refl (as_bytes-of_bytes r.addr),
        field_lem fs as_int "Port" d.port r.port _ refl refl (as_int-of_int r.port h.0),
        field_lem fs as_str_map "Tags" d.tags r.tags _ refl refl (as_str_map-of_str_map r.tags h.1),
        field_lem fs as_str "Status" d.status r.status _ refl refl (as_str-of_str r.status),
        field_lem fs (as_uint 8) "ProtocolMin" d.protocol_min r.protocol_min _ refl refl
            (as_uint-of_uint 8 r.protocol_min h.2),
        field_lem fs (as_uint 8) "ProtocolMax" d.protocol_max r.protocol_max _ refl refl
            (as_uint-of_uint 8 r.protocol_max h.3),
        field_lem fs (as_uint 8) "ProtocolCur" d.protocol_cur r.protocol_cur _ refl refl
            (as_uint-of_uint 8 r.protocol_cur h.4),
        field_lem fs (as_uint 8) "DelegateMin" d.delegate_min r.delegate_min _ refl refl
            (as_uint-of_uint 8 r.delegate_min h.5),
        field_lem fs (as_uint 8) "DelegateMax" d.delegate_max r.delegate_max _ refl refl
            (as_uint-of_uint 8 r.delegate_max h.6),
        field_lem fs (as_uint 8) "DelegateCur" d.delegate_cur r.delegate_cur _ refl refl
            (as_uint-of_uint 8 r.delegate_cur h.7),
      )

  pub as-pack_member : (r : Member) → IsPackableMember r → as_member (pack_member r) ≡ some r
  unfolding as_member
  as-pack_member r h = convert-pack_member r default_member h

  pub as_members-pack :
      (xs : List Member)
      → All IsPackableMember xs
      → as_members (of_array (map pack_member xs)) ≡ some xs
  unfolding as_members
  as_members-pack xs h = rw (
    as_array-of_array (map pack_member xs),
    map_option-map IsPackableMember pack_member as_member as-pack_member xs h,
  )

  pub convert-pack_members_response :
      (r d : MembersResponse)
      → IsPackableMembersResponse r
      → convert_members_response (pack_members_response r) d ≡ some r
  unfolding pack_members_response convert_members_response
  convert-pack_members_response r d h =
      let fs = fields_members_response r in
      rw (
        is_map-of_map fs,
        field_lem fs as_members "Members" d.members r.members _ refl refl
            (as_members-pack r.members h),
      )

  pub as-pack_members_response :
      (r : MembersResponse)
      → IsPackableMembersResponse r
      → as_members_response (pack_members_response r) ≡ some r
  unfolding as_members_response
  as-pack_members_response r h = convert-pack_members_response r default_members_response h

  pub convert-pack_members_filtered_request :
      (r d : MembersFilteredRequest)
      → IsPackableMembersFilteredRequest r
      → convert_members_filtered_request (pack_members_filtered_request r) d ≡ some r
  unfolding pack_members_filtered_request convert_members_filtered_request
  convert-pack_members_filtered_request r d h =
      let fs = fields_members_filtered_request r in
      rw (
        is_map-of_map fs,
        field_lem fs as_str_map "Tags" d.tags r.tags _ refl refl (as_str_map-of_str_map r.tags h),
        field_lem fs as_str "Status" d.status r.status _ refl refl (as_str-of_str r.status),
        field_lem fs as_str "Name" d.name r.name _ refl refl (as_str-of_str r.name),
      )

  pub as-pack_members_filtered_request :
      (r : MembersFilteredRequest)
      → IsPackableMembersFilteredRequest r
      → as_members_filtered_request (pack_members_filtered_request r) ≡ some r
  unfolding as_members_filtered_request
  as-pack_members_filtered_request r h =
      convert-pack_members_filtered_request r default_members_filtered_request h
