-- ===== src/Msg/Keys/Equality.antt =====
-- `operator==` against equality in every member.
use serf_cpp.Prelude.{
  ◌≡◌, true, str_eq, beq_ℤ, beq_list, beq_pair, Decides, &&_true, true_&&, Decides-refl,
  sound-Decides, str_eq-Decides, beq_ℤ-Decides, beq_list-Decides, beq_pair-Decides,
}
use serf_cpp.Msg.Keys.{KeyRequest, KeyResponse, KeyListResponse}
use serf_cpp.Msg.Keys.Equal.{beq_key_request, beq_key_response, beq_key_list_response}

pub beq_key_request-Decides : Decides beq_key_request
unfolding beq_key_request
beq_key_request-Decides = sound-Decides beq_key_request sound self
  where
    sound : (a b : KeyRequest) → beq_key_request a b ≡ true → a ≡ b
    sound a b e = λ i. record { key = (str_eq-Decides a.key b.key).0 e i }

    self : (a : KeyRequest) → beq_key_request a a ≡ true
    self a = (Decides-refl str_eq str_eq-Decides a.key)

pub beq_key_response-Decides : Decides beq_key_response
unfolding beq_key_response
beq_key_response-Decides = sound-Decides beq_key_response sound self
  where
    sound : (a b : KeyResponse) → beq_key_response a b ≡ true → a ≡ b
    sound a b e =
        let (r3, e3) = &&_true _ (beq_ℤ a.num_resp b.num_resp) e in
        let (r2, e2) = &&_true _ (beq_ℤ a.num_nodes b.num_nodes) r3 in
        let (r1, e1) = &&_true _ (beq_ℤ a.num_err b.num_err) r2 in
        λ i. record {
          messages =
              ((beq_list-Decides _ (beq_pair-Decides str_eq str_eq str_eq-Decides str_eq-Decides))
                  a.messages b.messages).0
                r1 i;
          num_err = (beq_ℤ-Decides a.num_err b.num_err).0 e1 i;
          num_nodes = (beq_ℤ-Decides a.num_nodes b.num_nodes).0 e2 i;
          num_resp = (beq_ℤ-Decides a.num_resp b.num_resp).0 e3 i;
        }

    self : (a : KeyResponse) → beq_key_response a a ≡ true
    self a =
        (true_&& _ _
          (true_&& _ _
            (true_&& _ _
              (Decides-refl (beq_list (beq_pair str_eq str_eq))
                (beq_list-Decides _ (beq_pair-Decides str_eq str_eq str_eq-Decides str_eq-Decides))
                a.messages)
              (Decides-refl beq_ℤ beq_ℤ-Decides a.num_err))
            (Decides-refl beq_ℤ beq_ℤ-Decides a.num_nodes))
          (Decides-refl beq_ℤ beq_ℤ-Decides a.num_resp))

pub beq_key_list_response-Decides : Decides beq_key_list_response
unfolding beq_key_list_response
beq_key_list_response-Decides = sound-Decides beq_key_list_response sound self
  where
    sound : (a b : KeyListResponse) → beq_key_list_response a b ≡ true → a ≡ b
    sound a b e =
        let (r4, e4) = &&_true _ (beq_ℤ a.num_resp b.num_resp) e in
        let (r3, e3) = &&_true _ (beq_ℤ a.num_nodes b.num_nodes) r4 in
        let (r2, e2) = &&_true _ (beq_ℤ a.num_err b.num_err) r3 in
        let (r1, e1) = &&_true _ ((beq_list (beq_pair str_eq beq_ℤ)) a.keys b.keys) r2 in
        λ i. record {
          messages =
              ((beq_list-Decides _ (beq_pair-Decides str_eq str_eq str_eq-Decides str_eq-Decides))
                  a.messages b.messages).0
                r1 i;
          keys =
              ((beq_list-Decides _ (beq_pair-Decides str_eq beq_ℤ str_eq-Decides beq_ℤ-Decides))
                  a.keys b.keys).0
                e1 i;
          num_err = (beq_ℤ-Decides a.num_err b.num_err).0 e2 i;
          num_nodes = (beq_ℤ-Decides a.num_nodes b.num_nodes).0 e3 i;
          num_resp = (beq_ℤ-Decides a.num_resp b.num_resp).0 e4 i;
        }

    self : (a : KeyListResponse) → beq_key_list_response a a ≡ true
    self a =
        (true_&& _ _
          (true_&& _ _
            (true_&& _ _
              (true_&& _ _
                (Decides-refl (beq_list (beq_pair str_eq str_eq))
                  (beq_list-Decides _
                    (beq_pair-Decides str_eq str_eq str_eq-Decides str_eq-Decides))
                  a.messages)
                (Decides-refl (beq_list (beq_pair str_eq beq_ℤ))
                  (beq_list-Decides _ (beq_pair-Decides str_eq beq_ℤ str_eq-Decides beq_ℤ-Decides))
                  a.keys))
              (Decides-refl beq_ℤ beq_ℤ-Decides a.num_err))
            (Decides-refl beq_ℤ beq_ℤ-Decides a.num_nodes))
          (Decides-refl beq_ℤ beq_ℤ-Decides a.num_resp))
