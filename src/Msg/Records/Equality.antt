-- ===== src/Msg/Records/Equality.antt =====
-- `operator==` against equality in every member.
use serf_cpp.Prelude.{
  ◌≡◌, true, ◌==◌, str_eq, beq_bool, beq_list, Decides, &&_true, true_&&, Decides-refl,
  sound-Decides, beq_nat-Decides, str_eq-Decides, beq_bool-Decides, beq_list-Decides,
}
use serf_cpp.Msg.Records.{
  LogRecord, UserEventRecord, QueryRecord, NodeResponseBase, NodeAck, NodeResponse,
}
use serf_cpp.Msg.Records.Equal.{
  beq_log_record, beq_user_event_record, beq_query_record, beq_node_response_base, beq_node_ack,
  beq_node_response,
}

pub beq_log_record-Decides : Decides beq_log_record
unfolding beq_log_record
beq_log_record-Decides = sound-Decides beq_log_record sound self
  where
    sound : (a b : LogRecord) → beq_log_record a b ≡ true → a ≡ b
    sound a b e = λ i. record { log = (str_eq-Decides a.log b.log).0 e i }

    self : (a : LogRecord) → beq_log_record a a ≡ true
    self a = (Decides-refl str_eq str_eq-Decides a.log)

pub beq_user_event_record-Decides : Decides beq_user_event_record
unfolding beq_user_event_record
beq_user_event_record-Decides = sound-Decides beq_user_event_record sound self
  where
    sound : (a b : UserEventRecord) → beq_user_event_record a b ≡ true → a ≡ b
    sound a b e =
        let (r4, e4) = &&_true _ (beq_bool a.coalesce b.coalesce) e in
        let (r3, e3) = &&_true _ ((beq_list ◌==◌) a.payload b.payload) r4 in
        let (r2, e2) = &&_true _ (str_eq a.name b.name) r3 in
        let (r1, e1) = &&_true _ (◌==◌ a.l_time b.l_time) r2 in
        λ i. record {
          event = (str_eq-Decides a.event b.event).0 r1 i;
          l_time = (beq_nat-Decides a.l_time b.l_time).0 e1 i;
          name = (str_eq-Decides a.name b.name).0 e2 i;
          payload = ((beq_list-Decides ◌==◌ beq_nat-Decides) a.payload b.payload).0 e3 i;
          coalesce = (beq_bool-Decides a.coalesce b.coalesce).0 e4 i;
        }

    self : (a : UserEventRecord) → beq_user_event_record a a ≡ true
    self a =
        (true_&& _ _
          (true_&& _ _
            (true_&& _ _
              (true_&& _ _ (Decides-refl str_eq str_eq-Decides a.event)
                (Decides-refl ◌==◌ beq_nat-Decides a.l_time))
              (Decides-refl str_eq str_eq-Decides a.name))
            (Decides-refl (beq_list ◌==◌) (beq_list-Decides ◌==◌ beq_nat-Decides) a.payload))
          (Decides-refl beq_bool beq_bool-Decides a.coalesce))

pub beq_query_record-Decides : Decides beq_query_record
unfolding beq_query_record
beq_query_record-Decides = sound-Decides beq_query_record sound self
  where
    sound : (a b : QueryRecord) → beq_query_record a b ≡ true → a ≡ b
    sound a b e =
        let (r4, e4) = &&_true _ ((beq_list ◌==◌) a.payload b.payload) e in
        let (r3, e3) = &&_true _ (◌==◌ a.l_time b.l_time) r4 in
        let (r2, e2) = &&_true _ (str_eq a.name b.name) r3 in
        let (r1, e1) = &&_true _ (◌==◌ a.id b.id) r2 in
        λ i. record {
          event = (str_eq-Decides a.event b.event).0 r1 i;
          id = (beq_nat-Decides a.id b.id).0 e1 i;
          name = (str_eq-Decides a.name b.name).0 e2 i;
          l_time = (beq_nat-Decides a.l_time b.l_time).0 e3 i;
          payload = ((beq_list-Decides ◌==◌ beq_nat-Decides) a.payload b.payload).0 e4 i;
        }

    self : (a : QueryRecord) → beq_query_record a a ≡ true
    self a =
        (true_&& _ _
          (true_&& _ _
            (true_&& _ _
              (true_&& _ _ (Decides-refl str_eq str_eq-Decides a.event)
                (Decides-refl ◌==◌ beq_nat-Decides a.id))
              (Decides-refl str_eq str_eq-Decides a.name))
            (Decides-refl ◌==◌ beq_nat-Decides a.l_time))
          (Decides-refl (beq_list ◌==◌) (beq_list-Decides ◌==◌ beq_nat-Decides) a.payload))

pub beq_node_response_base-Decides : Decides beq_node_response_base
unfolding beq_node_response_base
beq_node_response_base-Decides = sound-Decides beq_node_response_base sound self
  where
    sound : (a b : NodeResponseBase) → beq_node_response_base a b ≡ true → a ≡ b
    sound a b e = λ i. record { type = (str_eq-Decides a.type b.type).0 e i }

    self : (a : NodeResponseBase) → beq_node_response_base a a ≡ true
    self a = (Decides-refl str_eq str_eq-Decides a.type)

pub beq_node_ack-Decides : Decides beq_node_ack
unfolding beq_node_ack
beq_node_ack-Decides = sound-Decides beq_node_ack sound self
  where
    sound : (a b : NodeAck) → beq_node_ack a b ≡ true → a ≡ b
    sound a b e =
        let (r1, e1) = &&_true _ (str_eq a.from b.from) e in
        λ i. record {
          type = (str_eq-Decides a.type b.type).0 r1 i;
          from = (str_eq-Decides a.from b.from).0 e1 i;
        }

    self : (a : NodeAck) → beq_node_ack a a ≡ true
    self a =
        (true_&& _ _ (Decides-refl str_eq str_eq-Decides a.type)
          (Decides-refl str_eq str_eq-Decides a.from))

pub beq_node_response-Decides : Decides beq_node_response
unfolding beq_node_response
beq_node_response-Decides = sound-Decides beq_node_response sound self
  where
    sound : (a b : NodeResponse) → beq_node_response a b ≡ true → a ≡ b
    sound a b e =
        let (r2, e2) = &&_true _ ((beq_list ◌==◌) a.payload b.payload) e in
        let (r1, e1) = &&_true _ (str_eq a.from b.from) r2 in
        λ i. record {
          type = (str_eq-Decides a.type b.type).0 r1 i;
          from = (str_eq-Decides a.from b.from).0 e1 i;
          payload = ((beq_list-Decides ◌==◌ beq_nat-Decides) a.payload b.payload).0 e2 i;
        }

    self : (a : NodeResponse) → beq_node_response a a ≡ true
    self a =
        (true_&& _ _
          (true_&& _ _ (Decides-refl str_eq str_eq-Decides a.type)
            (Decides-refl str_eq str_eq-Decides a.from))
          (Decides-refl (beq_list ◌==◌) (beq_list-Decides ◌==◌ beq_nat-Decides) a.payload))
