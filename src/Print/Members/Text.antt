-- ===== src/Print/Members/Text.antt =====
-- The text of cluster members.
use serf_cpp.Prelude.{ℕ, List, ◌++◌}
use serf_cpp.Print.Plain.{Writes, lines, said, newline, padded, padded-Writes, writes_rules}
use serf_cpp.Print.Members.{print_member, print_members_response}
use serf_cpp.Msg.Members.{Member, MembersResponse}
use serf_cpp.Print.Members.Address.{text_of_address, print_address-Writes}

unfoldable pub text_of_member : Member → List ℕ
text_of_member r =
    padded 16 r.name
    ++ said " "
    ++ text_of_address r.addr r.port
    ++ said " "
    ++ said r.status
    ++ lines (λ t. said " " ++ said t.0 ++ said ":" ++ said t.1) r.tags
    ++ newline

pub print_member-Writes : (r : Member) → Writes (print_member r) (text_of_member r)
unfolding print_member text_of_member
print_member-Writes r = search (writes_rules, print_address-Writes, padded-Writes) depth 80

unfoldable pub text_of_members_response : MembersResponse → List ℕ
unfolding text_of_member
text_of_members_response r = said "    Members:" ++ newline ++ lines text_of_member r.members

pub print_members_response-Writes :
    (r : MembersResponse) → Writes (print_members_response r) (text_of_members_response r)
unfolding print_members_response text_of_members_response
print_members_response-Writes r = search (writes_rules, print_member-Writes) depth 80
