-- ===== src/Evaluation/BerluePipeline.antt =====
-- berlue/evaluation/berlue_pipeline.py: the pipeline under the contract of the evaluation.
use berlue.Base.{String, Option, none, some, map, Result, ok, ◌>>=◌}
use berlue.Base.Double.{Double}
use berlue.Core.Schemas.{Evidence, FusedVerdict, PipelineResult}
use berlue.Api.Schemas.{ClaimResult, LlmConfig, PredictOutput, status_by_verdict}
use berlue.Pipeline.Fusion.{FusionParams, do_fusion}

module _ {F : Type 0} where
  abbrev pub evidence_source : Option (Evidence F) → String
  evidence_source (some e) = "FEVER_corpus"
  evidence_source none = "SelfCheckGPT"

  abbrev pub evidence_text : Option (Evidence F) → String → String
  evidence_text (some e) explanation = e.text
  evidence_text none explanation = explanation

  abbrev pub claim_result : FusedVerdict F → ClaimResult F
  claim_result fused = record {
    claim_text = fused.claim_text;
    status = status_by_verdict fused.verdict;
    fusion_score = fused.confidence;
    evidence_source = evidence_source fused.evidence;
    evidence_text = evidence_text fused.evidence fused.explanation;
  }

-- A pipeline that is evaluated: one with signals of its own, or a mock that only predicts. Signals
-- cost calls of the models and are a parameter; the fusion is the program's.
pub data EvalPipeline (F T : Type 0) : Type 0 where
  staged : (String → String → Result (PipelineResult F T)) → EvalPipeline F T
  mock : (String → String → Result (PredictOutput F)) → EvalPipeline F T

module _ {F T : Type 0} ⦃d : Double F⦄ (p : FusionParams F) (llm : LlmConfig F) where
  -- `BerluePipeline.fuse`
  unfoldable pub fuse : PipelineResult F T → Result (PredictOutput F)
  fuse signals = do
    result ← do_fusion p signals
    ok (record {
      question = result.question;
      llm_used = llm;
      full_llm_answer = result.raw_answer;
      claims = map claim_result result.fused_verdicts;
      origin = none;
      debug = none;
    })

  -- `predict` of either kind.
  unfoldable pub predict : EvalPipeline F T → String → String → Result (PredictOutput F)
  predict (staged compute_signals) question answer = do
    signals ← compute_signals question answer
    fuse signals
  predict (mock answer_with) question answer = answer_with question answer
