-- ===== src/Pipeline/Fusion/Examples.antt =====
-- The fusion at concrete inputs, in thousandths.
use berlue.Base.{ℕ, ◌≡◌, refl, none, some, [], ◌∷◌, ok, All}
use berlue.Base.{get_by, map, map_result, string_eq}
use berlue.Base.Double.{divide}
use berlue.Base.Double.Thousandths.{thousandths}
use berlue.Core.Schemas.{
  supported, contradicted, preuve_fever, conviction, fever_confirms, Claim, Evidence, RagVerdict,
  SelfCheckScore, FusedVerdict, PipelineResult,
}
use berlue.Pipeline.Fusion.{
  FusionParams, Decision, present, default_params, clamp, rag_belief, direction, confidence_in,
  selfcheck_belief, classify, selfcheck_alone, arbitrate, weighted_score, without_proof, fuse_claim,
  fuse_one, do_fusion,
}
use berlue.Pipeline.Fusion.Rules.{
  IsDivisible, IsCoherent, Follows, fuse_claim-IsCoherent, fuse_claim-Follows,
}
use berlue.Pipeline.Fusion.Outcome.{Renders, label, claim_label, do_fusion-Renders}
use berlue.Pipeline.Fusion.Beliefs.{IsShare, do_fusion-IsShare}

abbrev params : FusionParams ℕ
params = default_params

abbrev paris : Claim
paris = record { id = "c1"; text = "Paris est en France"; source_answer = "r" }

abbrev lyon : Claim
lyon = record { id = "c2"; text = "Lyon est en Italie"; source_answer = "r" }

abbrev cited_page : Evidence ℕ
cited_page = record { text = "Paris"; source = "Paris"; similarity_score = 120 }

abbrev proof : RagVerdict ℕ
proof = record {
  claim_id = "c1";
  verdict = fever_confirms;
  confidence = 900;
  evidence = some cited_page;
}

abbrev stable : SelfCheckScore ℕ
stable = record { claim_id = "c2"; divergence_score = 950; confidence = 50 }

abbrev signals : PipelineResult ℕ (Unit {0})
signals = record {
  question = "q";
  raw_answer = "r";
  claims = paris ∷ lyon ∷ [];
  samples = [];
  selfcheck_scores = stable ∷ [];
  rag_scores = proof ∷ [];
  fused_verdicts = [];
  rag_traces = [];
  panne = none;
}

program : Unit {0}
unfolding divide rag_belief direction confidence_in clamp selfcheck_belief classify selfcheck_alone
    arbitrate weighted_score without_proof fuse_claim fuse_one do_fusion get_by map_result present
program = tt

abbrev fused_paris : FusedVerdict ℕ
fused_paris = record {
  claim_id = "c1";
  claim_text = "Paris est en France";
  verdict = supported;
  confidence = 900;
  evidence = some cited_page;
  explanation = "L'affirmation est prouvée par la base FEVER.";
  fondement = preuve_fever;
}

abbrev fused_lyon : FusedVerdict ℕ
fused_lyon = record {
  claim_id = "c2";
  claim_text = "Lyon est en Italie";
  verdict = contradicted;
  confidence = 500;
  evidence = none;
  explanation =
      "Aucune preuve en base, et le modèle se contredit lui-même : hallucination probable.";
  fondement = conviction;
}

abbrev fused : PipelineResult ℕ (Unit {0})
fused = record signals { fused_verdicts = fused_paris ∷ fused_lyon ∷ [] }

run : do_fusion params signals ≡ ok fused
unfolding program
run = refl

abbrev by_proof : Decision ℕ
by_proof = record {
  verdict = supported;
  confidence = 900;
  fondement = preuve_fever;
  explanation = "L'affirmation est prouvée par la base FEVER.";
}

abbrev by_instability : Decision ℕ
by_instability = record {
  verdict = contradicted;
  confidence = 500;
  fondement = conviction;
  explanation =
      "Aucune preuve en base, et le modèle se contredit lui-même : hallucination probable.";
}

divisible : IsDivisible params
divisible = record { neutre = refl; reste = refl; charge = refl; decharge = refl }

decided : fuse_claim params (some proof) 100 ≡ ok by_proof
unfolding program
decided = refl

unstable : fuse_claim params none 950 ≡ ok by_instability
unfolding program
unstable = refl

fuse_claim-IsCoherent_example : IsCoherent by_instability
fuse_claim-IsCoherent_example = fuse_claim-IsCoherent params none 950 unstable

fuse_claim-Follows_example : Follows 900 (some supported) by_proof
fuse_claim-Follows_example = fuse_claim-Follows params proof 100 decided

do_fusion-Renders_example :
    (map label fused.fused_verdicts ≡ map claim_label signals.claims)
    × (fused ≡ record signals { fused_verdicts = fused.fused_verdicts })
    × All (Renders none) fused.fused_verdicts
unfolding present
do_fusion-Renders_example = do_fusion-Renders params signals run

belief_stable : selfcheck_belief params 100 ≡ ok 900
unfolding program
belief_stable = refl

belief_unstable : selfcheck_belief params 950 ≡ ok 50
unfolding program
belief_unstable = refl

score_low : weighted_score params 200 400 ≡ ok 313
unfolding program
score_low = refl

score_high : weighted_score params 900 400 ≡ ok 617
unfolding program
score_high = refl

do_fusion-IsShare_example : All IsShare fused.fused_verdicts
do_fusion-IsShare_example = do_fusion-IsShare refl refl refl params signals run
