-- ===== src/Evaluation/RunEval/Generated/Examples.antt =====
-- berlue/evaluation/run_eval.py: mode 2 on three questions, of which one lacks a reference answer, on
-- the local store.
use berlue.Base.{nat_eq, ℕ, ◌≡◌, refl, String, none, some, List, [], ◌∷◌, Ensures, ok, string_eq}
use berlue.Core.Schemas.{supported}
use berlue.Base.Double.Thousandths.{thousandths}
use berlue.Evaluation.RunEval.Aggregate.{aggregate_verdict}
use berlue.Evaluation.RunEval.Grouping.{Grouped, lookup}
use berlue.Evaluation.RunEval.Stage.{
  Turn, take_job, compute, write, register, count_busy, take_first, compute_at, value_at, mark_at,
  awaits_at, outcome, take_turn, take_turns, missing,
}
use berlue.Evaluation.RunEval.GeneratedMatrix.{
  IsBuilt, evaluate_model_generated_matrix, evaluate_baseline_generated_matrix,
  generated_matrices-IsBuilt,
}
use berlue.Evaluation.RunEval.Generated.{
  GeneratedStore, Workers, berlue_verdict, judge_verdict, has_references, valid_questions,
  run_stage, evaluate_model_generated,
}
use berlue.Evaluation.Sql.{Database, update, matches, select_one, insert_or_ignore}
use berlue.Core.Schemas.{verdict_of, verdict_value}
use berlue.Evaluation.Store.{EvalScope}
use berlue.Evaluation.Store.Generated.{
  get_generated_answer, put_generated_answer, get_judge_verdict, put_judge_verdict,
  get_generated_berlue_verdict, put_generated_berlue_verdict,
}
use berlue.Evaluation.RunEval.Generated.Local.{local_generated, local_generated-IsLawful}
use berlue.Evaluation.RunEval.Generated.Filled.{
  IsLawfulGenerated, IsFilled, evaluate_model_generated_complete,
}

abbrev scope : EvalScope ℕ
scope = record {
  dataset = "truthfulqa";
  ratio = 800;
  model_id = "m";
  pipeline_version = "1";
  generation_version = "1";
  eval_version = "1";
}

-- The hash is the identity, which tells questions apart.
abbrev local : GeneratedStore (Database ℕ × ℕ)
local = local_generated (λ q. q) (λ n. "2026-01-01") scope "judge"

local-IsLawful : IsLawfulGenerated local
local-IsLawful =
    local_generated-IsLawful (λ q. q) (λ n. "2026-01-01") scope "judge" (λ q q' same. same)

abbrev workers : Workers ℕ
workers = record {
  generate = λ p. ok p;
  predict = λ q a. ok (record {
    question = q;
    llm_used = record { name = "m"; temperature = 0 };
    full_llm_answer = "a";
    claims = [];
    origin = none;
    debug = none;
  });
  judge_answer = λ q correct incorrect a. ok supported;
}

abbrev grouped : Grouped
grouped =
    ("a", record { correct_answers = "1" ∷ []; incorrect_answers = "2" ∷ [] })
    ∷ ("b", record { correct_answers = "3" ∷ []; incorrect_answers = [] })
    ∷ ("c", record { correct_answers = "4" ∷ []; incorrect_answers = "5" ∷ [] })
    ∷ []

abbrev questions : List String
questions = "a" ∷ "b" ∷ "c" ∷ []

-- The second of the two questions is answered first.
abbrev turns : List Turn
turns =
    take_job ∷ take_job ∷ compute 1 ∷ compute 0 ∷ write 1 ∷ write 0 ∷ register 0 ∷ register 1 ∷ []

abbrev empty : Database ℕ × ℕ
empty = ((λ t. []), 0)

ends :
    (evaluate_model_generated local workers 2 grouped questions turns turns turns empty).result
    ≡ some (ok tt)
unfolding evaluate_model_generated run_stage missing take_turns take_turn count_busy take_first
    compute_at value_at mark_at awaits_at outcome has_references lookup berlue_verdict judge_verdict
    aggregate_verdict get_generated_answer put_generated_answer get_judge_verdict put_judge_verdict
    get_generated_berlue_verdict put_generated_berlue_verdict update matches select_one
    insert_or_ignore verdict_of verdict_value
ends = refl

evaluate_model_generated_complete_example :
    IsFilled local workers local-IsLawful grouped
      (evaluate_model_generated local workers 2 grouped questions turns turns turns empty).store
      (valid_questions grouped questions)
evaluate_model_generated_complete_example =
    evaluate_model_generated_complete local workers local-IsLawful grouped 2 questions turns turns
      turns empty ends

abbrev asked : List String
asked = "a" ∷ "c" ∷ []

-- All that is asked is judged and fact-checked.
generated_matrices-IsBuilt_example :
    Ensures
      (λ r.
        IsBuilt {S = ℕ} (λ n q. ok (some supported)) (λ n q. ok (some supported)) 0 asked r.0
        × (r.1 ≡ 2))
      (evaluate_model_generated_matrix {S = ℕ}
        (λ n q. ok (some supported))
        (λ n q. ok (some supported))
        (λ m n size k. n)
        none
        asked
        0)
    × Ensures
        (λ r. IsBuilt {S = ℕ} (λ n q. ok (some supported)) (λ n q. ok none) 0 asked r.0 × (r.1 ≡ 2))
        (evaluate_baseline_generated_matrix {S = ℕ}
          (λ n q. ok (some supported))
          (λ n q. ok none)
          (λ m n size k. n)
          none
          asked
          0)
generated_matrices-IsBuilt_example =
    generated_matrices-IsBuilt {S = ℕ} (λ n q. ok (some supported)) (λ n q. ok (some supported))
      (λ n q. ok none) (λ m n size k. n) none asked 0
