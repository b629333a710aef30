-- ===== src/Ibkr/Flex/Tests.antt =====
-- The service over a client whose statement is ready at the third request.
use zero_knowledge_aggregato.Base.{
  ℕ, ◌+◌, ◌≤◌, ◌≡◌, refl, none, some, [], leb, if◌then◌else◌, ok, arith,
}
use zero_knowledge_aggregato.Ibkr.Flex.{Client, FlexState, get_flex_statement}
use zero_knowledge_aggregato.Ibkr.Flex.Retries.{
  Pending, at_once, after, get_flex_statement-Pending, get_flex_statement-bounded,
}

-- The outside counts the requests for a statement.
abbrev client : Client
client = record {
  Net = ℕ;
  send_request = λ token query n. (ok "code", n);
  get_statement =
      λ token reference n. (ok (if leb 2 n then "<FlexQueryResponse>" else "wait"), n + 1);
  parse_string = λ xml. ok (record {
    status = some "Fail";
    error_code = some "1019";
    reference_code = some "r1";
    statement = none;
  });
}

-- One whose reports are accepted.
abbrev accepting : Client
accepting = record client {
  parse_string = λ xml. ok (record {
    status = some "Success";
    error_code = none;
    reference_code = some "r1";
    statement = none;
  });
}

pending : Pending client "t" "r1" 2 0 2
pending = after "wait" refl refl (after "wait" refl refl (at_once 2))

get_flex_statement-Pending_example :
    get_flex_statement client "t" "r1" 0 ≡ (ok "<FlexQueryResponse>", 3)
get_flex_statement-Pending_example =
    get_flex_statement-Pending client "t" "r1" "<FlexQueryResponse>" pending (omega arith) refl refl

get_flex_statement-bounded_example : (get_flex_statement client "t" "r1" 0).1 ≤ 0 + 20
get_flex_statement-bounded_example =
    get_flex_statement-bounded client "t" "r1" (λ n. n) 0 (λ n. refl)

abbrev fresh : FlexState ℕ
fresh = record { flex_cache = []; net = 0 }
