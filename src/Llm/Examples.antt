-- ===== src/Llm/Examples.antt =====
-- berlue/llm/client.py: a client whose token has expired, and three samples.
use berlue.Base.{ℕ, suc, ◌≢◌, refl, String, none, some, ok, ltb, string_eq, arith}
use native.Mathlib.Nat.{mul_comm}
use berlue.Base.Double.Thousandths.{thousandths}
use berlue.Llm.Client.{Auth, Http, Client, Options, Answer, answered, client, generate_detail}
use berlue.Llm.Client.Token.{
  IsGoogle, IsFresh, HandsOut, OnlyClientErrors, client-Serves, generate_detail-OnlyClientErrors,
}
use berlue.Llm.Client.Samples.{CountsInOrder}

-- Credentials are the time until which their token is valid.
abbrev google : Auth ℕ
google = record {
  valid = λ now c. ltb now c;
  token = λ c. "token";
  refresh = λ now c. ok (suc now);
  show_error = λ e. "";
}

token_full : ◌≢◌ {A = String} "token" ""
token_full e = cc e

google-IsGoogle : IsGoogle google
google-IsGoogle = record {
  valid_token = λ now c h. token_full;
  refreshed = λ now c c' h k. ground arith;
}

abbrev stale : Client ℕ ℕ
stale = record {
  host = "h";
  model = "m";
  temperature = 0;
  credentials = some 5;
  http = some (record { bearer = some "token" });
}

abbrev post : Http → String → String → Options ℕ → Answer
post h model prompt options =
    answered (record { response = some "answer"; done_reason = none; eval_count = none })

client-Serves_example :
    IsFresh google (client google 9 stale).0
    × HandsOut google 9 (client google 9 stale).0 (client google 9 stale).1
client-Serves_example = client-Serves google google-IsGoogle 9 stale (λ full. refl)

generate_detail-OnlyClientErrors_example :
    OnlyClientErrors google (generate_detail google post 1 9 stale "q" none (some 10)).1
generate_detail-OnlyClientErrors_example =
    generate_detail-OnlyClientErrors google post 1 9 stale "q" none (some 10)

thousandths-CountsInOrder : CountsInOrder ℕ
thousandths-CountsInOrder = record {
  of_nat_mono = λ m n h. ground arith;
  of_nat_nonneg = λ n. ground arith;
  mul_comm = λ a b. rw (mul_comm a b);
}
