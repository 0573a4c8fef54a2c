-- ===== src/Msg/Keys/Equal.antt =====
-- `operator==` of the messages of the key commands.
use serf_cpp.Prelude.{beq_ℤ, Bool, ◌&&◌, str_eq, beq_list, beq_pair}
use serf_cpp.Msg.Keys.{KeyRequest, KeyResponse, KeyListResponse}

unfoldable pub beq_key_request : KeyRequest → KeyRequest → Bool
beq_key_request a b = str_eq a.key b.key

unfoldable pub beq_key_response : KeyResponse → KeyResponse → Bool
beq_key_response a b =
    beq_list (beq_pair str_eq str_eq) a.messages b.messages
    && beq_ℤ a.num_err b.num_err
    && beq_ℤ a.num_nodes b.num_nodes
    && beq_ℤ a.num_resp b.num_resp

unfoldable pub beq_key_list_response : KeyListResponse → KeyListResponse → Bool
beq_key_list_response a b =
    beq_list (beq_pair str_eq str_eq) a.messages b.messages
    && beq_list (beq_pair str_eq beq_ℤ) a.keys b.keys
    && beq_ℤ a.num_err b.num_err
    && beq_ℤ a.num_nodes b.num_nodes
    && beq_ℤ a.num_resp b.num_resp
