-- ===== src/Msg/Members/Equality.antt =====
-- `operator==` against equality in every member.
use serf_cpp.Prelude.{
  ◌≡◌, true, str_eq, beq_list, beq_pair, Decides, &&_true, true_&&, Decides-refl, sound-Decides,
  str_eq-Decides, beq_list-Decides, beq_pair-Decides,
}
use serf_cpp.Msg.Members.{MembersFilteredRequest}
use serf_cpp.Msg.Members.Equal.{beq_members_filtered_request}

pub beq_members_filtered_request-Decides : Decides beq_members_filtered_request
unfolding beq_members_filtered_request
beq_members_filtered_request-Decides = sound-Decides beq_members_filtered_request sound self
  where
    sound : (a b : MembersFilteredRequest) → beq_members_filtered_request a b ≡ true → a ≡ b
    sound a b e =
        let (r2, e2) = &&_true _ (str_eq a.name b.name) e in
        let (r1, e1) = &&_true _ (str_eq a.status b.status) r2 in
        λ i. record {
          tags =
              ((beq_list-Decides _ (beq_pair-Decides str_eq str_eq str_eq-Decides str_eq-Decides))
                  a.tags b.tags).0
                r1 i;
          status = (str_eq-Decides a.status b.status).0 e1 i;
          name = (str_eq-Decides a.name b.name).0 e2 i;
        }

    self : (a : MembersFilteredRequest) → beq_members_filtered_request a a ≡ true
    self a =
        (true_&& _ _
          (true_&& _ _
            (Decides-refl (beq_list (beq_pair str_eq str_eq))
              (beq_list-Decides _ (beq_pair-Decides str_eq str_eq str_eq-Decides str_eq-Decides))
              a.tags)
            (Decides-refl str_eq str_eq-Decides a.status))
          (Decides-refl str_eq str_eq-Decides a.name))
