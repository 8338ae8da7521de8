-- ===== src/Xous/Tests.antt =====
-- Runs of the Xous programs, and their theorems at concrete inputs.
use security_audits.Base.{
  ◌≡◌, refl, arith, ◌⊎◌, ◌+◌, ◌<◌, ◌≤◌, max, [], ◌∷◌, Build, checked, unchecked, done, ◌%◌,
}
use security_audits.Xous.Buffer.{zeroed}
use security_audits.Xous.Receive
use security_audits.Xous.Receive.{
  reply, fill, buggy_read_or_peek, buggy_read_pattern, pattern_from, read_or_peek-cases,
  read_pattern-length,
}
use security_audits.Xous.Send
use security_audits.Xous.Send.{buggy_write, write-reports}
use security_audits.Xous.Accept
use security_audits.Xous.Accept.{Peer, response, buggy_parse_accept, parse-response, parse_short}
use security_audits.Xous.Names
use security_audits.Xous.Names.{
  buggy_connect_with_name_impl, connect-take, connect-injective, connect-prefix,
}
use security_audits.Xous.Lend
use security_audits.Xous.Lend.{
  vulnerable_lend_len, fixed_lend_len, build_query, lend_len-compared, build_query-overrun,
}
use security_audits.Xous.Stack
use security_audits.Xous.Stack.{buggy_round, buggy_mapping_length, round-least, mapping_length-room}

receive_main : Receive.main ≡ 0
unfolding Receive.main
receive_main = refl

receive_main_pattern : Receive.main_pattern ≡ done 0
unfolding Receive.main_pattern
receive_main_pattern = refl

send_main : Send.main ≡ done 0
unfolding Send.main
send_main = refl

accept_main : Accept.main ≡ done tt
unfolding Accept.main
accept_main = refl

names_main : Names.main ≡ done tt
unfolding Names.main zeroed
names_main = refl

lend_main : Lend.main ≡ done tt
unfolding Lend.main zeroed
lend_main = refl

lend_main_query : Lend.main_query ≡ done tt
unfolding Lend.main_query zeroed
lend_main_query = refl

stack_main : (b : Build) → Stack.main b ≡ done tt
unfolding Stack.main
stack_main checked = refl
stack_main unchecked = refl

stack_main_mapping : Stack.main_mapping ≡ done tt
unfolding Stack.main_mapping
stack_main_mapping = refl

connect-take_example : buggy_connect_with_name_impl (1 ∷ 2 ∷ []) ≡ (1 ∷ 2 ∷ [], 2)
connect-take_example = connect-take (1 ∷ 2 ∷ [])

round-least_example :
    (buggy_round 5000 % 4096 ≡ 0)
    × ((max 5000 4096 ≤ buggy_round 5000) × (buggy_round 5000 < max 5000 4096 + 4096)
        ⊎ (buggy_round 5000 ≡ 0) × (18446744073709547520 < 5000))
round-least_example = round-least 5000 (omega arith)
