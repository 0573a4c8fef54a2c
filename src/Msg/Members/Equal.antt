-- ===== src/Msg/Members/Equal.antt =====
-- `operator==` of cluster members and the members messages.
use serf_cpp.Prelude.{beq_ℤ, Bool, ◌&&◌, ◌==◌, str_eq, beq_list, beq_pair}
use serf_cpp.Msg.Members.{Member, MembersResponse, MembersFilteredRequest}

unfoldable pub beq_member : Member → Member → Bool
beq_member a b =
    str_eq a.name b.name
    && beq_list ◌==◌ a.addr b.addr
    && beq_ℤ a.port b.port
    && beq_list (beq_pair str_eq str_eq) a.tags b.tags
    && str_eq a.status b.status
    && (a.protocol_min == b.protocol_min)
    && (a.protocol_max == b.protocol_max)
    && (a.protocol_cur == b.protocol_cur)
    && (a.delegate_min == b.delegate_min)
    && (a.delegate_max == b.delegate_max)
    && (a.delegate_min == b.delegate_min)

unfoldable pub beq_members_response : MembersResponse → MembersResponse → Bool
unfolding beq_member
beq_members_response a b = beq_list beq_member a.members b.members

unfoldable pub beq_members_filtered_request : MembersFilteredRequest → MembersFilteredRequest → Bool
beq_members_filtered_request a b =
    beq_list (beq_pair str_eq str_eq) a.tags b.tags
    && str_eq a.status b.status
    && str_eq a.name b.name
