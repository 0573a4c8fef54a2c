-- ===== src/Msg/Members/SameMember.antt =====
-- `operator==` of cluster members compares DelegateMin a second time in place of DelegateCur.
use serf_cpp.Prelude.{
  ◌≡◌, subst, true, ◌↔◌, ◌==◌, str_eq, beq_ℤ, beq_list, beq_pair, &&_true, true_&&, Decides,
  Decides-refl, beq_nat-Decides, str_eq-Decides, beq_ℤ-Decides, beq_list-Decides, beq_pair-Decides,
}
use serf_cpp.Msg.Members.{Member}
use serf_cpp.Msg.Members.Equal.{beq_member}

bytes_Decides : Decides (beq_list ◌==◌)
bytes_Decides = beq_list-Decides ◌==◌ beq_nat-Decides

tags_Decides : Decides (beq_list (beq_pair str_eq str_eq))
tags_Decides = beq_list-Decides _ (beq_pair-Decides str_eq str_eq str_eq-Decides str_eq-Decides)

-- `operator==` of two members is true just if they are equal once the first one's DelegateCur is
-- replaced by the second one's.
pub beq_member_lem :
    (a b : Member) → (beq_member a b ≡ true) ↔ (record a { delegate_cur = b.delegate_cur } ≡ b)
unfolding beq_member
beq_member_lem a b = (same, λ e. subst (λ z. beq_member a z ≡ true) e self)
  where
    same : beq_member a b ≡ true → record a { delegate_cur = b.delegate_cur } ≡ b
    same e =
        let (r10, e10) = &&_true _ (a.delegate_min == b.delegate_min) e in
        let (r9, e9) = &&_true _ (◌==◌ a.delegate_max b.delegate_max) r10 in
        let (r8, e8) = &&_true _ (◌==◌ a.delegate_min b.delegate_min) r9 in
        let (r7, e7) = &&_true _ (◌==◌ a.protocol_cur b.protocol_cur) r8 in
        let (r6, e6) = &&_true _ (◌==◌ a.protocol_max b.protocol_max) r7 in
        let (r5, e5) = &&_true _ (◌==◌ a.protocol_min b.protocol_min) r6 in
        let (r4, e4) = &&_true _ (str_eq a.status b.status) r5 in
        let (r3, e3) = &&_true _ ((beq_list (beq_pair str_eq str_eq)) a.tags b.tags) r4 in
        let (r2, e2) = &&_true _ (beq_ℤ a.port b.port) r3 in
        let (r1, e1) = &&_true _ ((beq_list ◌==◌) a.addr b.addr) r2 in
        λ i. record {
          name = (str_eq-Decides a.name b.name).0 r1 i;
          addr = (bytes_Decides a.addr b.addr).0 e1 i;
          port = (beq_ℤ-Decides a.port b.port).0 e2 i;
          tags = (tags_Decides a.tags b.tags).0 e3 i;
          status = (str_eq-Decides a.status b.status).0 e4 i;
          protocol_min = (beq_nat-Decides a.protocol_min b.protocol_min).0 e5 i;
          protocol_max = (beq_nat-Decides a.protocol_max b.protocol_max).0 e6 i;
          protocol_cur = (beq_nat-Decides a.protocol_cur b.protocol_cur).0 e7 i;
          delegate_min = (beq_nat-Decides a.delegate_min b.delegate_min).0 e8 i;
          delegate_max = (beq_nat-Decides a.delegate_max b.delegate_max).0 e9 i;
          delegate_cur = b.delegate_cur;
        }

    self : beq_member a (record a { delegate_cur = b.delegate_cur }) ≡ true
    self =
        (true_&& _ _
          (true_&& _ _
            (true_&& _ _
              (true_&& _ _
                (true_&& _ _
                  (true_&& _ _
                    (true_&& _ _
                      (true_&& _ _
                        (true_&& _ _
                          (true_&& _ _ (Decides-refl str_eq str_eq-Decides a.name)
                            (Decides-refl (beq_list ◌==◌) bytes_Decides a.addr))
                          (Decides-refl beq_ℤ beq_ℤ-Decides a.port))
                        (Decides-refl (beq_list (beq_pair str_eq str_eq)) tags_Decides a.tags))
                      (Decides-refl str_eq str_eq-Decides a.status))
                    (Decides-refl ◌==◌ beq_nat-Decides a.protocol_min))
                  (Decides-refl ◌==◌ beq_nat-Decides a.protocol_max))
                (Decides-refl ◌==◌ beq_nat-Decides a.protocol_cur))
              (Decides-refl ◌==◌ beq_nat-Decides a.delegate_min))
            (Decides-refl ◌==◌ beq_nat-Decides a.delegate_max))
          (Decides-refl ◌==◌ beq_nat-Decides a.delegate_min))
