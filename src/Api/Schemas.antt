-- ===== src/Api/Schemas.antt =====
-- berlue/api/schemas.py: the request and the answer of a prediction.
use berlue.Base.{Bool, String, Option, List}
use berlue.Core.Schemas.{Verdict, supported, contradicted, not_enough_info, panne}

-- `ClaimStatus`, the four literals.
pub data ClaimStatus : Type 0 where
  green orange red broken : ClaimStatus

-- `STATUS_BY_VERDICT`
abbrev pub status_by_verdict : Verdict → ClaimStatus
status_by_verdict supported = green
status_by_verdict contradicted = red
status_by_verdict not_enough_info = orange
status_by_verdict panne = broken

pub record ClaimResult (F : Type 0) : Type 0 where
  pub claim_text : String
  pub status : ClaimStatus
  pub fusion_score : F
  pub evidence_source : String
  pub evidence_text : String

pub record LlmConfig (F : Type 0) : Type 0 where
  pub name : String
  pub temperature : F

pub record PredictOrigin : Type 0 where
  pub cached : Bool
  pub generator_model : String
  pub extract_model : String
  pub rag_model : String
  pub computed_at : Option String

pub record PredictOutput (F : Type 0) : Type 0 where
  pub question : String
  pub llm_used : LlmConfig F
  pub full_llm_answer : String
  pub claims : List (ClaimResult F)
  pub origin : Option PredictOrigin
  pub debug : Option String

-- `PredictInput`; its field `answer` is read by nothing that is modelled.
pub record PredictInput (F : Type 0) : Type 0 where
  pub question : String
  pub answer : Option String
  pub llm : LlmConfig F
  pub ignore_cache : Bool
  pub debug : Bool
