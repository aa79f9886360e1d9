-- ===== src/Selfcheck/Examples.antt =====
-- berlue/selfcheck: three samples of a model that always answers the same, and three threads that
-- ask for the NLI model at a time.
use berlue.Base.{
  ℕ, ◌+◌, ◌<◌, ◌≤◌, ◌≡◌, true, false, String, none, some, List, [], ◌∷◌, map, ok, Ensures, length,
}
use berlue.Base.Double.Thousandths.{thousandths}
use berlue.Core.Schemas.{Claim}
use berlue.Llm.Client.{Auth, Http, Client, Options, Answer, answered}
use berlue.Pipeline.Parallel.{start, finish}
use berlue.Selfcheck.Branch.{SelfCheckParams, run_selfcheck, run_selfcheck-Scores}
use berlue.Selfcheck.Loading.{
  Turn, unloaded, new_threads, run_threads, total, loads, is_served, is_failed, run_threads_once,
}

abbrev local : Auth ℕ
local = record {
  valid = λ now c. true;
  token = λ c. "t";
  refresh = λ now c. ok c;
  show_error = λ e. "";
}

abbrev model : Client ℕ ℕ
model = record { host = "h"; model = "m"; temperature = 0; credentials = none; http = none }

abbrev post : Http → String → String → Options ℕ → Answer
post h m prompt options =
    answered (record { response = some "yes"; done_reason = none; eval_count = none })

abbrev params : SelfCheckParams ℕ
params = record {
  k = 3;
  temperature_min = 300;
  temperature_max = 1000;
  sample_workers = 2;
  score_workers = 2;
  num_predict = none;
}

abbrev claims : List Claim
claims =
    record { id = "1"; text = "a"; source_answer = "a b" }
    ∷ record { id = "2"; text = "b"; source_answer = "a b" }
    ∷ []

run_selfcheck-Scores_example :
    Ensures
      (λ o. (length o.samples ≡ 3) × (map (λ x. x.claim_id) o.scores ≡ map (λ k. k.id) claims))
      (run_selfcheck
        (λ sentences samples. ok (400 ∷ []))
        local
        post
        1
        (λ q. q)
        params
        (start ∷ finish 0 ∷ [])
        (start ∷ [])
        0
        model
        "q"
        claims)
run_selfcheck-Scores_example =
    run_selfcheck-Scores (λ sentences samples. ok (400 ∷ [])) local post 1 (λ q. q) params
      (start ∷ finish 0 ∷ []) (start ∷ []) 0 model "q" claims

-- The three threads pass the first test before one of them loads; its load raises, and the next
-- thread loads again.
abbrev turns : List Turn
turns =
    (0, true)
    ∷ (1, true)
    ∷ (2, true)
    ∷ (1, true)
    ∷ (0, true)
    ∷ (1, true)
    ∷ (1, false)
    ∷ (0, true)
    ∷ (0, true)
    ∷ (0, true)
    ∷ (2, true)
    ∷ (2, true)
    ∷ []

run_threads_once_example :
    let (threads, (model, lock, calls)) = run_threads turns (new_threads 3, unloaded) in
    (total loads threads ≤ 1)
    × (calls ≤ total is_failed threads + 1)
    × (0 < total is_served threads
        → (model ≡ true) × (calls ≡ total is_failed threads + 1) × (total loads threads ≡ 0))
run_threads_once_example = run_threads_once 3 turns
