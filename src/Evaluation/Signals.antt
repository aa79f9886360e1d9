-- ===== src/Evaluation/Signals.antt =====
-- berlue/evaluation/signals.py: what the pipeline produces before the fusion, as the dictionary that
-- the stores keep. A dictionary with fixed keys is a record of those keys.
pub mod Replay
use berlue.Base.{
  ℕ, Bool, String, Option, none, some, List, [], ◌∷◌, map, Result, ok, err, value_error, ◌>>=◌,
  map_result,
}
use berlue.Core.Schemas.{
  RagJudgment, judgment_value, judgment_of, Claim, Evidence, RagVerdict, SelfCheckScore,
  PipelineResult,
}

abbrev pub signals_format_version : ℕ
signals_format_version = 1

pub record EvidenceDict (F : Type 0) : Type 0 where
  pub text : String
  pub source : String
  pub similarity_score : F

pub record ClaimDict : Type 0 where
  pub id : String
  pub text : String

pub record RagDict (F : Type 0) : Type 0 where
  pub claim_id : String
  pub verdict : String
  pub confidence : F
  pub evidence : Option (EvidenceDict F)

pub record ScoreDict (F : Type 0) : Type 0 where
  pub claim_id : String
  pub divergence_score : F
  pub confidence : F

pub record Signals (F : Type 0) : Type 0 where
  pub format_version : ℕ
  pub raw_answer : String
  pub panne : Option String
  pub claims : List ClaimDict
  pub rag_scores : List (RagDict F)
  pub selfcheck_scores : List (ScoreDict F)

abbrev pub claim_to_dict : Claim → ClaimDict
claim_to_dict c = record { id = c.id; text = c.text }

abbrev pub claim_from_dict : String → ClaimDict → Claim
claim_from_dict raw_answer c = record { id = c.id; text = c.text; source_answer = raw_answer }

-- `RagJudgment(text)` raises on a text that is no value of the enumeration.
abbrev pub judgment_from : String → Result RagJudgment
judgment_from s = elim (judgment_of s) [ some j ↦ ok j | none ↦ err (value_error s) ]

module _ {F : Type 0} where
  abbrev pub evidence_to_dict : Option (Evidence F) → Option (EvidenceDict F)
  evidence_to_dict none = none
  evidence_to_dict (some e) =
      some (record { text = e.text; source = e.source; similarity_score = e.similarity_score })

  abbrev pub evidence_from_dict : Option (EvidenceDict F) → Option (Evidence F)
  evidence_from_dict none = none
  evidence_from_dict (some e) =
      some (record { text = e.text; source = e.source; similarity_score = e.similarity_score })

  abbrev pub rag_to_dict : RagVerdict F → RagDict F
  rag_to_dict r = record {
    claim_id = r.claim_id;
    verdict = judgment_value r.verdict;
    confidence = r.confidence;
    evidence = evidence_to_dict r.evidence;
  }

  abbrev pub score_to_dict : SelfCheckScore F → ScoreDict F
  score_to_dict s = record {
    claim_id = s.claim_id;
    divergence_score = s.divergence_score;
    confidence = s.confidence;
  }

  unfoldable pub signals_to_dict : {T : Type 0} → PipelineResult F T → Signals F
  signals_to_dict result = record {
    format_version = signals_format_version;
    raw_answer = result.raw_answer;
    panne = result.panne;
    claims = map claim_to_dict result.claims;
    rag_scores = map rag_to_dict result.rag_scores;
    selfcheck_scores = map score_to_dict result.selfcheck_scores;
  }

  unfoldable pub rag_from_dict : RagDict F → Result (RagVerdict F)
  rag_from_dict r = do
    verdict ← judgment_from r.verdict
    ok (record {
      claim_id = r.claim_id;
      verdict = verdict;
      confidence = r.confidence;
      evidence = evidence_from_dict r.evidence;
    })

  abbrev pub score_from_dict : ScoreDict F → SelfCheckScore F
  score_from_dict s = record {
    claim_id = s.claim_id;
    divergence_score = s.divergence_score;
    confidence = s.confidence;
  }

  unfoldable pub signals_from_dict : {T : Type 0} → String → Signals F → Result (PipelineResult F T)
  signals_from_dict question signals = do
    rag_scores ← map_result rag_from_dict signals.rag_scores
    ok (record {
      question = question;
      raw_answer = signals.raw_answer;
      claims = map (claim_from_dict signals.raw_answer) signals.claims;
      samples = [];
      selfcheck_scores = map score_from_dict signals.selfcheck_scores;
      rag_scores = rag_scores;
      fused_verdicts = [];
      rag_traces = [];
      panne = signals.panne;
    })
