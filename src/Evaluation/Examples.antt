-- ===== src/Evaluation/Examples.antt =====
-- The evaluation of mode 1 at concrete inputs: two examples, a pipeline that supports both, and the
-- local store, empty at first. Scores are thousandths.
use berlue.Evaluation.RunEval.Aggregate.{
  verdict_severity, aggregate_verdict, aggregate_verdict-worst,
}
use berlue.Api.Schemas.{red}
use berlue.Base.{
  ℕ, ◌+◌, ◌≡◌, refl, true, false, String, none, List, [], ◌∷◌, Result, ok, err, All, string_eq,
  nat_eq, value_error, ◌>>=◌,
}
use berlue.Base.Double.Thousandths.{thousandths}
use berlue.Core.Schemas.{fever_confirms, PipelineResult}
use berlue.Api.Schemas.{ClaimResult, green, LlmConfig, PredictOutput}
use berlue.Pipeline.Fusion.{FusionParams, default_params, do_fusion}
use berlue.Evaluation.Metrics.{ConfusionMatrix}
use berlue.Evaluation.Metrics.Cells.{Counted}
use berlue.Evaluation.Sql.{Database, matches, update, select_one, insert_or_ignore}
use berlue.Evaluation.Signals.{Signals, signals_to_dict, signals_from_dict}
use berlue.Evaluation.Signals.Replay.{fusion_replay}
use berlue.Evaluation.Store.{EvalScope, get_verdict, put_prediction}
use berlue.Evaluation.Store.Interface.{ResultStore, IsLawful}
use berlue.Evaluation.Store.Local.{local_store, local_store-IsLawful}
use berlue.Evaluation.BerluePipeline.{EvalPipeline, mock, predict}
use berlue.Evaluation.RunEval.{
  Example, Progress, round, evaluate_loop, predict_via_signals, evaluate_model,
  evaluate_model_matrix,
}
use berlue.Evaluation.RunEval.Aggregate.{aggregate_verdict}
use berlue.Evaluation.RunEval.Loop.{Stored, evaluate_model_complete}
use berlue.Evaluation.RunEval.Cached.{
  evaluate_model_twice, stored_verdicts, evaluate_model_matrix-Counted,
}
use berlue.Evaluation.RunEval.Ranges.{collect, index_ranges, expand, IsCompact, expand-index_ranges}

abbrev params : FusionParams ℕ
params = default_params

abbrev llm : LlmConfig ℕ
llm = record { name = "llama3.2:3b"; temperature = 700 }

abbrev scope : EvalScope ℕ
scope = record {
  dataset = "halueval";
  ratio = 800;
  model_id = "llama3.2:3b";
  pipeline_version = "1";
  generation_version = "1";
  eval_version = "1";
}

abbrev capital : Example
capital = record { question = "Capital of France?"; answer = "Paris"; ground_truth_label = true }

abbrev river : Example
river = record { question = "Longest river?"; answer = "The Rhine"; ground_truth_label = false }

abbrev two_examples : List Example
two_examples = capital ∷ river ∷ []

abbrev claim : ClaimResult ℕ
claim = record {
  claim_text = "c";
  status = green;
  fusion_score = 900;
  evidence_source = "FEVER_corpus";
  evidence_text = "e";
}

abbrev output : String → PredictOutput ℕ
output q = record {
  question = q;
  llm_used = llm;
  full_llm_answer = "r";
  claims = claim ∷ [];
  origin = none;
  debug = none;
}

abbrev supporting : EvalPipeline ℕ (Unit {0})
supporting = mock (λ q a. ok (output q))

-- A pipeline that always raises.
abbrev broken_down : EvalPipeline ℕ (Unit {0})
broken_down = mock (λ q a. err (value_error "broken"))

abbrev sample_signals : Signals ℕ
sample_signals = record {
  format_version = 1;
  raw_answer = "r";
  panne = none;
  claims = [];
  rag_scores = [];
  selfcheck_scores = [];
}

abbrev St : Type 0
St = Database ℕ × ℕ

abbrev local : ResultStore ℕ St
local = local_store (λ s. s) (λ n. "2026") (λ x. "signals") (λ s. ok sample_signals)

abbrev laws : IsLawful local
laws = local_store-IsLawful (λ s. s) (λ n. "2026") (λ x. "signals") (λ s. ok sample_signals)

abbrev empty : St
empty = (λ t. [], 0)

abbrev first_run : Result (Unit {0}) × Progress St
first_run = evaluate_model params llm local supporting scope 0 none two_examples empty

ran : first_run ≡ (ok tt, first_run.1)
unfolding evaluate_model evaluate_loop round predict_via_signals get_verdict predict select_one
    put_prediction insert_or_ignore update matches aggregate_verdict
ran = refl

abbrev stored : All (Stored local scope first_run.1.store) two_examples
stored =
    (evaluate_model_complete params llm local laws scope supporting 0 none two_examples empty ran).0

evaluate_model_complete_example :
    All (Stored local scope first_run.1.store) two_examples
    × (first_run.1.n_cached + first_run.1.n_computed ≡ 2)
evaluate_model_complete_example =
    evaluate_model_complete params llm local laws scope supporting 0 none two_examples empty ran

evaluate_model_twice_example :
    evaluate_model params llm local broken_down scope 0 none two_examples first_run.1.store
    ≡ (ok tt, record { store = first_run.1.store; n_cached = 2; n_computed = 0 })
evaluate_model_twice_example =
    evaluate_model_twice params llm local scope broken_down 0 none two_examples first_run.1.store
      stored

evaluate_model_matrix-Counted_example :
    (m : ConfusionMatrix) × (evaluate_model_matrix local scope none two_examples first_run.1.store
      ≡ ok (m, local.put_matrix scope m 2 none first_run.1.store))
    × Counted m
        (true ∷ false ∷ [])
        (stored_verdicts local scope first_run.1.store two_examples stored)
evaluate_model_matrix-Counted_example =
    evaluate_model_matrix-Counted local scope none two_examples first_run.1.store stored

local_store-IsLawful_example : IsLawful local
local_store-IsLawful_example =
    local_store-IsLawful (λ s. s) (λ n. "2026") (λ x. "signals") (λ s. ok sample_signals)

abbrev result : PipelineResult ℕ (Unit {0})
result = record {
  question = "q";
  raw_answer = "r";
  claims = record { id = "c1"; text = "Paris"; source_answer = "r" } ∷ [];
  samples = "s" ∷ [];
  selfcheck_scores = record { claim_id = "c1"; divergence_score = 950; confidence = 50 } ∷ [];
  rag_scores =
      record { claim_id = "c1"; verdict = fever_confirms; confidence = 900; evidence = none } ∷ [];
  fused_verdicts = [];
  rag_traces = [];
  panne = none;
}

fusion_replay_example : (do fresh ← do_fusion params result; ok fresh.fused_verdicts) ≡ (do
  signals ← signals_from_dict {T = Unit {0}} "q" (signals_to_dict result)
  replayed ← do_fusion params signals
  ok replayed.fused_verdicts)
fusion_replay_example = fusion_replay params result

expand-index_ranges_example :
    (expand (index_ranges (0 ∷ 1 ∷ 2 ∷ 5 ∷ 6 ∷ 9 ∷ [])) ≡ 0 ∷ 1 ∷ 2 ∷ 5 ∷ 6 ∷ 9 ∷ [])
    × IsCompact (index_ranges (0 ∷ 1 ∷ 2 ∷ 5 ∷ 6 ∷ 9 ∷ []))
expand-index_ranges_example = expand-index_ranges (0 ∷ 1 ∷ 2 ∷ 5 ∷ 6 ∷ 9 ∷ [])

three_ranges : index_ranges (0 ∷ 1 ∷ 2 ∷ 5 ∷ 6 ∷ 9 ∷ []) ≡ (0, 2) ∷ (5, 6) ∷ (9, 9) ∷ []
unfolding index_ranges collect
three_ranges = refl

aggregate_verdict-worst_example :
    verdict_severity (aggregate_verdict (claim ∷ record claim { status = red } ∷ [])) ≡ 2
aggregate_verdict-worst_example =
    aggregate_verdict-worst (claim ∷ record claim { status = red } ∷ []) (λ e. cc)
