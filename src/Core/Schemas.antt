-- ===== src/Core/Schemas.antt =====
-- berlue/core/schemas.py: the values that the stages of the pipeline hand to one another. The
-- classes with a `float` field are generic in the type of floats.
use berlue.Base.{ℕ, String, Option, none, some, List, ◌≡◌, refl}
use berlue.Base.{◌==◌, string_eq, if◌then◌else◌, length}
use berlue.Base.Json.{codes}

pub data Verdict : Type 0 where
  supported contradicted not_enough_info panne : Verdict

-- The value of the `StrEnum`, and the constructor call `Verdict(text)`, which raises elsewhere.
unfoldable pub verdict_value : Verdict → String
verdict_value supported = "supported"
verdict_value contradicted = "contradicted"
verdict_value not_enough_info = "not_enough_info"
verdict_value panne = "panne"

unfoldable pub verdict_of : String → Option Verdict
verdict_of s =
    if s == "supported"
    then some supported
    else if s == "contradicted"
    then some contradicted
    else if s == "not_enough_info"
    then some not_enough_info
    else if s == "panne"
    then some panne
    else none

pub data Fondement : Type 0 where
  preuve_fever conviction aucun : Fondement

pub data RagJudgment : Type 0 where
  fever_confirms fever_refutes likely_true likely_false i_dont_known : RagJudgment

unfoldable pub judgment_value : RagJudgment → String
judgment_value fever_confirms = "proven_true"
judgment_value fever_refutes = "proven_false"
judgment_value likely_true = "likely_true"
judgment_value likely_false = "likely_false"
judgment_value i_dont_known = "unknown"

unfoldable pub judgment_of : String → Option RagJudgment
judgment_of s =
    if s == "proven_true"
    then some fever_confirms
    else if s == "proven_false"
    then some fever_refutes
    else if s == "likely_true"
    then some likely_true
    else if s == "likely_false"
    then some likely_false
    else if s == "unknown"
    then some i_dont_known
    else none

pub record Generation (F : Type 0) : Type 0 where
  pub text : String
  pub modele : String
  pub secondes : F
  pub done_reason : Option String
  pub tokens : Option ℕ

-- `Generation.meta`
pub record Meta (F : Type 0) : Type 0 where
  pub modele : String
  pub secondes : F
  pub done_reason : Option String
  pub tokens : Option ℕ
  pub caracteres : ℕ

unfoldable pub meta : {F : Type 0} → Generation F → Meta F
meta g = record {
  modele = g.modele;
  secondes = g.secondes;
  done_reason = g.done_reason;
  tokens = g.tokens;
  caracteres = length (codes g.text);
}

pub record Claim : Type 0 where
  pub id : String
  pub text : String
  pub source_answer : String

pub record Evidence (F : Type 0) : Type 0 where
  pub text : String
  pub source : String
  pub similarity_score : F

pub record RagVerdict (F : Type 0) : Type 0 where
  pub claim_id : String
  pub verdict : RagJudgment
  pub confidence : F
  pub evidence : Option (Evidence F)

pub record SelfCheckScore (F : Type 0) : Type 0 where
  pub claim_id : String
  pub divergence_score : F
  pub confidence : F

pub record FusedVerdict (F : Type 0) : Type 0 where
  pub claim_id : String
  pub claim_text : String
  pub verdict : Verdict
  pub confidence : F
  pub evidence : Option (Evidence F)
  pub explanation : String
  pub fondement : Fondement

pub record RagCheck (F T : Type 0) : Type 0 where
  pub verdict : RagVerdict F
  pub trace : T

-- A trace is a dictionary that is only handed on; `T` is its type.
pub record RagOutcome (F T : Type 0) : Type 0 where
  pub verdicts : List (RagVerdict F)
  pub traces : List T
  pub panne : Option String

pub record SelfCheckOutcome (F : Type 0) : Type 0 where
  pub samples : List String
  pub scores : List (SelfCheckScore F)

pub record PipelineResult (F T : Type 0) : Type 0 where
  pub question : String
  pub raw_answer : String
  pub claims : List Claim
  pub samples : List String
  pub selfcheck_scores : List (SelfCheckScore F)
  pub rag_scores : List (RagVerdict F)
  pub fused_verdicts : List (FusedVerdict F)
  pub rag_traces : List T
  pub panne : Option String

-- The value read back from its text is the value that was written.
pub verdict_of-verdict_value : (v : Verdict) → verdict_of (verdict_value v) ≡ some v
unfolding verdict_of verdict_value
verdict_of-verdict_value supported = refl
verdict_of-verdict_value contradicted = refl
verdict_of-verdict_value not_enough_info = refl
verdict_of-verdict_value panne = refl

pub judgment_of-judgment_value : (j : RagJudgment) → judgment_of (judgment_value j) ≡ some j
unfolding judgment_of judgment_value
judgment_of-judgment_value fever_confirms = refl
judgment_of-judgment_value fever_refutes = refl
judgment_of-judgment_value likely_true = refl
judgment_of-judgment_value likely_false = refl
judgment_of-judgment_value i_dont_known = refl
