-- ===== src/Pipeline/Fusion.antt =====
-- berlue/pipeline/fusion.py: the judgment of the RAG and the score of SelfCheck become one verdict
-- for each claim. Floats are the parameter `F`. A division by zero, which a configuration of the
-- `FUSION_*` can bring about, is the exception that Python raises.
pub mod Rules
pub mod Outcome
pub mod Beliefs
mod Examples
use berlue.Base.{String, ◌<>◌, Bool, true, false, ◌&&◌, Option, none, some, List, map}
use berlue.Base.{Result, ok, err, ◌>>=◌, map_result, get_by, ◌==◌, string_eq, if◌then◌else◌}
use berlue.Base.Double.{Double, nought, one, half, py_max, py_min, divide}
use berlue.Core.Schemas.{
  Verdict, supported, contradicted, not_enough_info, panne, Fondement, preuve_fever, conviction,
  aucun, RagJudgment, fever_confirms, fever_refutes, likely_true, likely_false, i_dont_known, Claim,
  Evidence, RagVerdict, FusedVerdict, PipelineResult, SelfCheckScore,
}

-- The `FUSION_*` of berlue/params.py, each of which an environment variable can set.
pub record FusionParams (F : Type 0) : Type 0 where
  pub weight_rag : F
  pub weight_selfcheck_charge : F
  pub weight_selfcheck_decharge : F
  pub divergence_neutre : F
  pub bande_rag_min : F
  pub bande_rag_max : F
  pub selfcheck_seuil_haut : F
  pub selfcheck_seuil_bas : F
  pub decote_signal_seul : F
  pub seuil_faux : F
  pub seuil_vrai : F

-- What `_direction` returns: -1, 0 or 1.
pub data Direction : Type 0 where
  towards_false undecided towards_true : Direction

-- The tuple that `fuse_claim` returns.
pub record Decision (F : Type 0) : Type 0 where
  pub verdict : Verdict
  pub confidence : F
  pub fondement : Fondement
  pub explanation : String

-- `if result.panne`: an empty text counts as no failure.
unfoldable pub present : Option String → Option String
present none = none
present (some s) = if s == "" then none else some s

module _ {F : Type 0} ⦃d : Double F⦄ where
  abbrev pub default_params : FusionParams F
  default_params = record {
    weight_rag = d.lit 5 1;
    weight_selfcheck_charge = d.lit 65 2;
    weight_selfcheck_decharge = d.lit 35 2;
    divergence_neutre = d.lit 5 1;
    bande_rag_min = d.lit 4 1;
    bande_rag_max = d.lit 6 1;
    selfcheck_seuil_haut = d.lit 8 1;
    selfcheck_seuil_bas = d.lit 2 1;
    decote_signal_seul = d.lit 6 1;
    seuil_faux = d.lit 4 1;
    seuil_vrai = d.lit 6 1;
  }

  abbrev pub dead_zone : F
  dead_zone = d.lit 10 2

  unfoldable pub rag_belief : Option (RagVerdict F) → F
  rag_belief none = half
  rag_belief (some rag) = elim rag.verdict [
    | likely_true ↦ d.add half (d.mul rag.confidence half)
    | likely_false ↦ d.sub half (d.mul rag.confidence half)
    | _ ↦ half
  ]

  unfoldable pub direction : F → Direction
  direction belief =
      if d.lt (d.abs (d.sub belief half)) dead_zone
      then undecided
      else if d.lt half belief
      then towards_true
      else towards_false

  unfoldable pub confidence_in : Verdict → F → F
  confidence_in supported score = score
  confidence_in contradicted score = d.sub one score
  confidence_in not_enough_info score = nought
  confidence_in panne score = nought

  -- `min(max(confidence, 0.0), 1.0)`
  unfoldable pub clamp : F → F
  clamp c = py_min (py_max c nought) one

  module _ (p : FusionParams F) where
    unfoldable pub selfcheck_belief : F → Result F
    selfcheck_belief divergence =
        let d0 = p.divergence_neutre in
        if d.le divergence d0
        then (do q ← divide (d.mul half (d.sub d0 divergence)) d0; ok (d.add half q))
        else do q ← divide (d.mul half (d.sub divergence d0)) (d.sub one d0); ok (d.sub half q)

    unfoldable pub classify : F → Verdict
    classify score =
        if d.lt score p.seuil_faux
        then contradicted
        else if d.lt p.seuil_vrai score
        then supported
        else not_enough_info

    -- Rule R3: SelfCheck alone decides, where its signal is clear.
    abbrev alone : Verdict → F → String → Decision F
    alone verdict sc_belief explanation = record {
      verdict = verdict;
      confidence = d.add half (d.mul (d.abs (d.sub sc_belief half)) p.decote_signal_seul);
      fondement = conviction;
      explanation = explanation;
    }

    unfoldable pub selfcheck_alone : F → Decision F
    selfcheck_alone sc_belief =
        if d.lt p.selfcheck_seuil_haut sc_belief
        then alone supported sc_belief
            "Aucune preuve en base, mais le modèle est remarquablement stable sur ce point."
        else if d.lt sc_belief p.selfcheck_seuil_bas
        then alone contradicted sc_belief
            "Aucune preuve en base, et le modèle se contredit lui-même : hallucination probable."
        else record {
          verdict = not_enough_info;
          confidence = nought;
          fondement = aucun;
          explanation = "Ni preuve en base, ni jugement RAG tranché, ni signal de cohérence franc.";
        }

    abbrev held : Verdict → F → String → Decision F
    held verdict score explanation = record {
      verdict = verdict;
      confidence = confidence_in verdict score;
      fondement = conviction;
      explanation = explanation;
    }

    abbrev agreed : Verdict → F → Decision F
    agreed verdict score =
        held verdict score
          "Aucune preuve en base, mais le jugement du modèle et sa cohérence interne concordent."

    -- Rules R4, where the two directions agree, and R5, where the weights arbitrate.
    unfoldable pub arbitrate : Direction → Direction → F → Decision F
    arbitrate towards_true towards_true score = agreed supported score
    arbitrate towards_false towards_false score = agreed contradicted score
    arbitrate _ _ score = held (classify score) score (
        "Aucune preuve en base ; jugement du modèle et cohérence interne divergent (score arbitré "
        <> (d.show2 score <> ")."))

    unfoldable pub weighted_score : F → F → Result F
    weighted_score belief sc_belief =
        let weight_sc =
          if d.lt sc_belief half then p.weight_selfcheck_charge else p.weight_selfcheck_decharge in
        divide (d.add (d.mul p.weight_rag belief) (d.mul weight_sc sc_belief))
          (d.add p.weight_rag weight_sc)

    unfoldable pub without_proof : F → F → Result (Decision F)
    without_proof belief sc_belief =
        if d.le p.bande_rag_min belief && d.le belief p.bande_rag_max
        then ok (selfcheck_alone sc_belief)
        else do
          score ← weighted_score belief sc_belief
          ok (arbitrate (direction belief) (direction sc_belief) score)

    -- Rule R2: what FEVER has proved.
    abbrev pub proved : Verdict → F → String → Decision F
    proved verdict confidence explanation = record {
      verdict = verdict;
      confidence = confidence;
      fondement = preuve_fever;
      explanation = explanation;
    }

    abbrev pub judge_by : RagVerdict F → F → RagJudgment → Result (Decision F)
    judge_by rag sc_belief fever_confirms =
        ok (proved supported rag.confidence "L'affirmation est prouvée par la base FEVER.")
    judge_by rag sc_belief fever_refutes =
        ok (proved contradicted rag.confidence "L'affirmation est contredite par la base FEVER.")
    judge_by rag sc_belief _ = without_proof (rag_belief (some rag)) sc_belief

    abbrev pub judge : Option (RagVerdict F) → F → Result (Decision F)
    judge none sc_belief = without_proof (rag_belief none) sc_belief
    judge (some rag) sc_belief = judge_by rag sc_belief rag.verdict

    unfoldable pub fuse_claim : Option (RagVerdict F) → F → Result (Decision F)
    fuse_claim rag divergence = do sc_belief ← selfcheck_belief divergence; judge rag sc_belief

    -- `rag.evidence if (rag and fondement == PREUVE_FEVER) else None`
    abbrev pub cited : Option (RagVerdict F) → Fondement → Option (Evidence F)
    cited (some rag) preuve_fever = rag.evidence
    cited _ _ = none

    abbrev pub divergence_of : Option (SelfCheckScore F) → F
    divergence_of none = p.divergence_neutre
    divergence_of (some sc) = sc.divergence_score

    -- The body of the loop of `do_fusion`, on the entries that the two dictionaries hold.
    unfoldable pub fuse_one :
        Claim → Option (RagVerdict F) → Option (SelfCheckScore F) → Result (FusedVerdict F)
    fuse_one claim rag sc = do
      x ← fuse_claim rag (divergence_of sc)
      ok (record {
        claim_id = claim.id;
        claim_text = claim.text;
        verdict = x.verdict;
        confidence = clamp x.confidence;
        evidence = cited rag x.fondement;
        explanation = x.explanation;
        fondement = x.fondement;
      })

    -- Rule R1: after a failure no verdict is given.
    abbrev pub no_verdict : String → Claim → FusedVerdict F
    no_verdict cause claim = record {
      claim_id = claim.id;
      claim_text = claim.text;
      verdict = panne;
      confidence = nought;
      evidence = none;
      explanation = "Aucun verdict : " <> (cause <> ".");
      fondement = aucun;
    }

    abbrev pub fuse_in : {T : Type 0} → PipelineResult F T → Claim → Result (FusedVerdict F)
    fuse_in result claim =
        fuse_one claim (get_by (λ v. v.claim_id) claim.id result.rag_scores)
          (get_by (λ s. s.claim_id) claim.id result.selfcheck_scores)

    abbrev pub fuse_all :
        {T : Type 0} → PipelineResult F T → Option String → Result (List (FusedVerdict F))
    fuse_all result (some cause) = ok (map (no_verdict cause) result.claims)
    fuse_all result none = map_result (fuse_in result) result.claims

    unfoldable pub do_fusion : {T : Type 0} → PipelineResult F T → Result (PipelineResult F T)
    do_fusion result = do
      fused ← fuse_all result (present result.panne)
      ok (record result { fused_verdicts = fused })
