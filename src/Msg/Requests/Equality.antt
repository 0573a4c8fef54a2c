-- ===== src/Msg/Requests/Equality.antt =====
-- `operator==` against equality in every member.
use serf_cpp.Prelude.{
  ◌≡◌, true, ◌==◌, str_eq, beq_ℤ, beq_bool, beq_list, beq_pair, Decides, &&_true, true_&&,
  Decides-refl, sound-Decides, beq_nat-Decides, str_eq-Decides, beq_bool-Decides, beq_ℤ-Decides,
  beq_list-Decides, beq_pair-Decides,
}
use serf_cpp.Msg.Requests.{
  RespondRequest, EventRequest, QueryRequest, ForceLeaveRequest, JoinRequest, JoinResponse,
  TagsRequest, StreamRequest, MonitorRequest, StopRequest,
}
use serf_cpp.Msg.Requests.Equal.{
  beq_respond_request, beq_event_request, beq_query_request, beq_force_leave_request,
  beq_join_request, beq_join_response, beq_tags_request, beq_stream_request, beq_monitor_request,
  beq_stop_request,
}

pub beq_respond_request-Decides : Decides beq_respond_request
unfolding beq_respond_request
beq_respond_request-Decides = sound-Decides beq_respond_request sound self
  where
    sound : (a b : RespondRequest) → beq_respond_request a b ≡ true → a ≡ b
    sound a b e =
        let (r1, e1) = &&_true _ ((beq_list ◌==◌) a.payload b.payload) e in
        λ i. record {
          id = (beq_nat-Decides a.id b.id).0 r1 i;
          payload = ((beq_list-Decides ◌==◌ beq_nat-Decides) a.payload b.payload).0 e1 i;
        }

    self : (a : RespondRequest) → beq_respond_request a a ≡ true
    self a =
        (true_&& _ _ (Decides-refl ◌==◌ beq_nat-Decides a.id)
          (Decides-refl (beq_list ◌==◌) (beq_list-Decides ◌==◌ beq_nat-Decides) a.payload))

pub beq_event_request-Decides : Decides beq_event_request
unfolding beq_event_request
beq_event_request-Decides = sound-Decides beq_event_request sound self
  where
    sound : (a b : EventRequest) → beq_event_request a b ≡ true → a ≡ b
    sound a b e =
        let (r2, e2) = &&_true _ (beq_bool a.coalesce b.coalesce) e in
        let (r1, e1) = &&_true _ ((beq_list ◌==◌) a.payload b.payload) r2 in
        λ i. record {
          name = (str_eq-Decides a.name b.name).0 r1 i;
          payload = ((beq_list-Decides ◌==◌ beq_nat-Decides) a.payload b.payload).0 e1 i;
          coalesce = (beq_bool-Decides a.coalesce b.coalesce).0 e2 i;
        }

    self : (a : EventRequest) → beq_event_request a a ≡ true
    self a =
        (true_&& _ _
          (true_&& _ _ (Decides-refl str_eq str_eq-Decides a.name)
            (Decides-refl (beq_list ◌==◌) (beq_list-Decides ◌==◌ beq_nat-Decides) a.payload))
          (Decides-refl beq_bool beq_bool-Decides a.coalesce))

pub beq_query_request-Decides : Decides beq_query_request
unfolding beq_query_request
beq_query_request-Decides = sound-Decides beq_query_request sound self
  where
    sound : (a b : QueryRequest) → beq_query_request a b ≡ true → a ≡ b
    sound a b e =
        let (r5, e5) = &&_true _ ((beq_list ◌==◌) a.payload b.payload) e in
        let (r4, e4) = &&_true _ (str_eq a.name b.name) r5 in
        let (r3, e3) = &&_true _ (◌==◌ a.timeout b.timeout) r4 in
        let (r2, e2) = &&_true _ (beq_bool a.request_ack b.request_ack) r3 in
        let (r1, e1) =
          &&_true _ ((beq_list (beq_pair str_eq str_eq)) a.filter_tags b.filter_tags) r2 in
        λ i. record {
          filter_nodes =
              ((beq_list-Decides str_eq str_eq-Decides) a.filter_nodes b.filter_nodes).0 r1 i;
          filter_tags =
              ((beq_list-Decides _ (beq_pair-Decides str_eq str_eq str_eq-Decides str_eq-Decides))
                  a.filter_tags b.filter_tags).0
                e1 i;
          request_ack = (beq_bool-Decides a.request_ack b.request_ack).0 e2 i;
          timeout = (beq_nat-Decides a.timeout b.timeout).0 e3 i;
          name = (str_eq-Decides a.name b.name).0 e4 i;
          payload = ((beq_list-Decides ◌==◌ beq_nat-Decides) a.payload b.payload).0 e5 i;
        }

    self : (a : QueryRequest) → beq_query_request a a ≡ true
    self a =
        (true_&& _ _
          (true_&& _ _
            (true_&& _ _
              (true_&& _ _
                (true_&& _ _
                  (Decides-refl (beq_list str_eq) (beq_list-Decides str_eq str_eq-Decides)
                    a.filter_nodes)
                  (Decides-refl (beq_list (beq_pair str_eq str_eq))
                    (beq_list-Decides _
                      (beq_pair-Decides str_eq str_eq str_eq-Decides str_eq-Decides))
                    a.filter_tags))
                (Decides-refl beq_bool beq_bool-Decides a.request_ack))
              (Decides-refl ◌==◌ beq_nat-Decides a.timeout))
            (Decides-refl str_eq str_eq-Decides a.name))
          (Decides-refl (beq_list ◌==◌) (beq_list-Decides ◌==◌ beq_nat-Decides) a.payload))

pub beq_force_leave_request-Decides : Decides beq_force_leave_request
unfolding beq_force_leave_request
beq_force_leave_request-Decides = sound-Decides beq_force_leave_request sound self
  where
    sound : (a b : ForceLeaveRequest) → beq_force_leave_request a b ≡ true → a ≡ b
    sound a b e = λ i. record { node = (str_eq-Decides a.node b.node).0 e i }

    self : (a : ForceLeaveRequest) → beq_force_leave_request a a ≡ true
    self a = (Decides-refl str_eq str_eq-Decides a.node)

pub beq_join_request-Decides : Decides beq_join_request
unfolding beq_join_request
beq_join_request-Decides = sound-Decides beq_join_request sound self
  where
    sound : (a b : JoinRequest) → beq_join_request a b ≡ true → a ≡ b
    sound a b e =
        let (r1, e1) = &&_true _ (beq_bool a.replay b.replay) e in
        λ i. record {
          existing = ((beq_list-Decides str_eq str_eq-Decides) a.existing b.existing).0 r1 i;
          replay = (beq_bool-Decides a.replay b.replay).0 e1 i;
        }

    self : (a : JoinRequest) → beq_join_request a a ≡ true
    self a =
        (true_&& _ _
          (Decides-refl (beq_list str_eq) (beq_list-Decides str_eq str_eq-Decides) a.existing)
          (Decides-refl beq_bool beq_bool-Decides a.replay))

pub beq_join_response-Decides : Decides beq_join_response
unfolding beq_join_response
beq_join_response-Decides = sound-Decides beq_join_response sound self
  where
    sound : (a b : JoinResponse) → beq_join_response a b ≡ true → a ≡ b
    sound a b e = λ i. record { num = (beq_ℤ-Decides a.num b.num).0 e i }

    self : (a : JoinResponse) → beq_join_response a a ≡ true
    self a = (Decides-refl beq_ℤ beq_ℤ-Decides a.num)

pub beq_tags_request-Decides : Decides beq_tags_request
unfolding beq_tags_request
beq_tags_request-Decides = sound-Decides beq_tags_request sound self
  where
    sound : (a b : TagsRequest) → beq_tags_request a b ≡ true → a ≡ b
    sound a b e =
        let (r1, e1) = &&_true _ ((beq_list str_eq) a.delete_tags b.delete_tags) e in
        λ i. record {
          tags =
              ((beq_list-Decides _ (beq_pair-Decides str_eq str_eq str_eq-Decides str_eq-Decides))
                  a.tags b.tags).0
                r1 i;
          delete_tags =
              ((beq_list-Decides str_eq str_eq-Decides) a.delete_tags b.delete_tags).0 e1 i;
        }

    self : (a : TagsRequest) → beq_tags_request a a ≡ true
    self a =
        (true_&& _ _
          (Decides-refl (beq_list (beq_pair str_eq str_eq))
            (beq_list-Decides _ (beq_pair-Decides str_eq str_eq str_eq-Decides str_eq-Decides))
            a.tags)
          (Decides-refl (beq_list str_eq) (beq_list-Decides str_eq str_eq-Decides) a.delete_tags))

pub beq_stream_request-Decides : Decides beq_stream_request
unfolding beq_stream_request
beq_stream_request-Decides = sound-Decides beq_stream_request sound self
  where
    sound : (a b : StreamRequest) → beq_stream_request a b ≡ true → a ≡ b
    sound a b e = λ i. record { type = (str_eq-Decides a.type b.type).0 e i }

    self : (a : StreamRequest) → beq_stream_request a a ≡ true
    self a = (Decides-refl str_eq str_eq-Decides a.type)

pub beq_monitor_request-Decides : Decides beq_monitor_request
unfolding beq_monitor_request
beq_monitor_request-Decides = sound-Decides beq_monitor_request sound self
  where
    sound : (a b : MonitorRequest) → beq_monitor_request a b ≡ true → a ≡ b
    sound a b e = λ i. record { log_level = (str_eq-Decides a.log_level b.log_level).0 e i }

    self : (a : MonitorRequest) → beq_monitor_request a a ≡ true
    self a = (Decides-refl str_eq str_eq-Decides a.log_level)

pub beq_stop_request-Decides : Decides beq_stop_request
unfolding beq_stop_request
beq_stop_request-Decides = sound-Decides beq_stop_request sound self
  where
    sound : (a b : StopRequest) → beq_stop_request a b ≡ true → a ≡ b
    sound a b e = λ i. record { stop = (beq_nat-Decides a.stop b.stop).0 e i }

    self : (a : StopRequest) → beq_stop_request a a ≡ true
    self a = (Decides-refl ◌==◌ beq_nat-Decides a.stop)
