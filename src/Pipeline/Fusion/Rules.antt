-- ===== src/Pipeline/Fusion/Rules.antt =====
-- What the rules R2 to R5 of `fuse_claim` decide, for any floats and any `FUSION_*`.
use berlue.Base.{
  ◌≡◌, ◌≢◌, inl, inr, refl, false, Option, none, some, arith, ok, IsOk, IsOk-bind, returns, Ensures,
  Ensures-ok, Ensures-bind, Bool-cases, ◌&&◌,
}
use berlue.Base.Double.{Double, nought, one, half, is_zero, divide}
use berlue.Core.Schemas.{
  Verdict, supported, contradicted, not_enough_info, panne, preuve_fever, aucun, RagJudgment,
  fever_confirms, fever_refutes, RagVerdict,
}
use berlue.Pipeline.Fusion.{
  FusionParams, Decision, Direction, towards_false, towards_true, direction, selfcheck_belief,
  selfcheck_alone, classify, confidence_in, arbitrate, weighted_score, without_proof, judge,
  judge_by, fuse_claim,
}

-- No division of the fusion is by zero.
pub record IsDivisible {F : Type 0} ⦃d : Double F⦄ (p : FusionParams F) : Type 0 where
  pub neutre : is_zero p.divergence_neutre ≡ false
  pub reste : is_zero (d.sub one p.divergence_neutre) ≡ false
  pub charge : is_zero (d.add p.weight_rag p.weight_selfcheck_charge) ≡ false
  pub decharge : is_zero (d.add p.weight_rag p.weight_selfcheck_decharge) ≡ false

-- What holds of every decision: no rule answers `panne`; an undecided claim has confidence 0; only
-- an undecided claim is without foundation.
pub record IsCoherent {F : Type 0} ⦃d : Double F⦄ (x : Decision F) : Type 0 where
  pub answered : x.verdict ≢ panne
  pub silent : x.verdict ≡ not_enough_info → x.confidence ≡ nought
  pub founded : x.fondement ≡ aucun → x.verdict ≡ not_enough_info

-- The verdict that a judgment citing the FEVER base imposes; the others impose none.
abbrev pub imposed : RagJudgment → Option Verdict
imposed fever_confirms = some supported
imposed fever_refutes = some contradicted
imposed _ = none

-- An imposed verdict is given as it stands, with the confidence of the RAG and as a proof; where
-- none is imposed, no proof is claimed.
abbrev pub Follows : {F : Type 0} → F → Option Verdict → Decision F → Type 0
Follows confidence (some v) x =
    (x.verdict ≡ v) × (x.confidence ≡ confidence) × (x.fondement ≡ preuve_fever)
Follows confidence none x = x.fondement ≢ preuve_fever

module _ {F : Type 0} ⦃d : Double F⦄ (p : FusionParams F) where
  selfcheck_belief-IsOk : (divergence : F) → IsDivisible p → IsOk (selfcheck_belief p divergence)
  unfolding selfcheck_belief divide
  selfcheck_belief-IsOk divergence v = elim (Bool-cases (d.le divergence p.divergence_neutre)) [
    | inl below ↦ rw (below, v.neutre) tt
    | inr above ↦ rw (above, v.reste) tt
  ]

  weighted_score-IsOk : (belief sc : F) → IsDivisible p → IsOk (weighted_score p belief sc)
  unfolding weighted_score divide
  weighted_score-IsOk belief sc v = elim (Bool-cases (d.lt sc half)) [
    | inl charge ↦ rw (charge, v.charge) tt
    | inr decharge ↦ rw (decharge, v.decharge) tt
  ]

  without_proof-IsOk : (belief sc : F) → IsDivisible p → IsOk (without_proof p belief sc)
  unfolding without_proof
  without_proof-IsOk belief sc v =
      elim (Bool-cases (d.le p.bande_rag_min belief && d.le belief p.bande_rag_max)) [
        | inl within ↦ rw within tt
        | inr out ↦
            rw out
              (IsOk-bind (weighted_score p belief sc) _ (weighted_score-IsOk belief sc v) (λ _. tt))
      ]

  judge-IsOk : (rag : Option (RagVerdict F)) (sc : F) → IsDivisible p → IsOk (judge p rag sc)
  judge-IsOk none sc v = without_proof-IsOk _ sc v
  judge-IsOk (some rag) sc v = elim rag.verdict as (λ j. IsOk (judge_by p rag sc j)) [
    | fever_confirms ↦ tt
    | fever_refutes ↦ tt
    | _ ↦ without_proof-IsOk _ sc v
  ]

  -- With weights and a neutral point that make no divisor zero, every claim gets a decision.
  pub fuse_claim_total :
      (rag : Option (RagVerdict F)) (divergence : F)
      → IsDivisible p
      → (x : Decision F) × (fuse_claim p rag divergence ≡ ok x)
  unfolding fuse_claim
  fuse_claim_total rag divergence v = returns _ (
      IsOk-bind (selfcheck_belief p divergence) (judge p rag) (selfcheck_belief-IsOk divergence v)
        (λ sc. judge-IsOk rag sc v))

  classify-ne-panne : (score : F) → classify p score ≢ panne
  unfolding classify
  classify-ne-panne score = ground arith

  arbitrate-IsCoherent : (a b : Direction) (score : F) → IsCoherent (arbitrate p a b score)
  unfolding arbitrate confidence_in classify
  arbitrate-IsCoherent towards_true towards_true score = ground arith
  arbitrate-IsCoherent towards_false towards_false score = ground arith
  arbitrate-IsCoherent a b score = ground arith

  selfcheck_alone-IsCoherent : (sc : F) → IsCoherent (selfcheck_alone p sc)
  unfolding selfcheck_alone
  selfcheck_alone-IsCoherent sc = ground arith

  without_proof-IsCoherent : (belief sc : F) → Ensures IsCoherent (without_proof p belief sc)
  unfolding without_proof
  without_proof-IsCoherent belief sc =
      elim (Bool-cases (d.le p.bande_rag_min belief && d.le belief p.bande_rag_max)) [
        | inl within ↦ rw within (selfcheck_alone-IsCoherent sc)
        | inr out ↦ rw out (
            Ensures-bind IsCoherent (weighted_score p belief sc) _
              (λ score _. arbitrate-IsCoherent (direction belief) (direction sc) score))
      ]

  judge_by-IsCoherent :
      (rag : RagVerdict F) (sc : F) (j : RagJudgment) → Ensures IsCoherent (judge_by p rag sc j)
  judge_by-IsCoherent rag sc fever_confirms = ground arith
  judge_by-IsCoherent rag sc fever_refutes = ground arith
  judge_by-IsCoherent rag sc _ = without_proof-IsCoherent _ sc

  judge-IsCoherent : (rag : Option (RagVerdict F)) (sc : F) → Ensures IsCoherent (judge p rag sc)
  judge-IsCoherent none sc = without_proof-IsCoherent _ sc
  judge-IsCoherent (some rag) sc = judge_by-IsCoherent rag sc rag.verdict

  -- Whatever rule decides, the decision is not `panne`, one of NOT_ENOUGH_INFO has confidence 0,
  -- and one without foundation is NOT_ENOUGH_INFO.
  pub fuse_claim-IsCoherent :
      (rag : Option (RagVerdict F)) (divergence : F) {x : Decision F}
      → fuse_claim p rag divergence ≡ ok x
      → IsCoherent x
  unfolding fuse_claim
  fuse_claim-IsCoherent rag divergence h =
      Ensures-ok IsCoherent _
        (Ensures-bind IsCoherent (selfcheck_belief p divergence) (judge p rag)
          (λ sc _. judge-IsCoherent rag sc))
        h

  -- The rules other than R2 never claim a proof.
  arbitrate-ne-preuve :
      (a b : Direction) (score : F) → (arbitrate p a b score).fondement ≢ preuve_fever
  unfolding arbitrate
  arbitrate-ne-preuve towards_true towards_true score = ground arith
  arbitrate-ne-preuve towards_false towards_false score = ground arith
  arbitrate-ne-preuve a b score = ground arith

  abbrev pub Unproved : Decision F → Type 0
  Unproved x = x.fondement ≢ preuve_fever

  without_proof-Unproved : (belief sc : F) → Ensures Unproved (without_proof p belief sc)
  unfolding without_proof selfcheck_alone
  without_proof-Unproved belief sc =
      elim (Bool-cases (d.le p.bande_rag_min belief && d.le belief p.bande_rag_max)) [
        | inl within ↦ rw within (ground arith)
        | inr out ↦ rw out (
            Ensures-bind Unproved (weighted_score p belief sc) _
              (λ score _. arbitrate-ne-preuve (direction belief) (direction sc) score))
      ]

  judge_by-Follows :
      (rag : RagVerdict F) (sc : F) (j : RagJudgment)
      → Ensures (Follows rag.confidence (imposed j)) (judge_by p rag sc j)
  judge_by-Follows rag sc fever_confirms = (refl, refl, refl)
  judge_by-Follows rag sc fever_refutes = (refl, refl, refl)
  judge_by-Follows rag sc _ = without_proof-Unproved _ sc

  -- Rule R2: a FEVER judgment decides alone, whatever SelfCheck says, at the confidence of the RAG;
  -- and a decision claims a proof for no other judgment.
  pub fuse_claim-Follows :
      (rag : RagVerdict F) (divergence : F) {x : Decision F}
      → fuse_claim p (some rag) divergence ≡ ok x
      → Follows rag.confidence (imposed rag.verdict) x
  unfolding fuse_claim
  fuse_claim-Follows rag divergence h =
      Ensures-ok (Follows rag.confidence (imposed rag.verdict)) _
        (Ensures-bind _ (selfcheck_belief p divergence) (judge p (some rag))
          (λ sc _. judge_by-Follows rag sc rag.verdict))
        h

  -- Without a verdict of the RAG no proof is claimed.
  pub fuse_claim-Unproved :
      (divergence : F) {x : Decision F} → fuse_claim p none divergence ≡ ok x → Unproved x
  unfolding fuse_claim
  fuse_claim-Unproved divergence h =
      Ensures-ok Unproved _
        (Ensures-bind Unproved (selfcheck_belief p divergence) (judge p none)
          (λ sc _. without_proof-Unproved _ sc))
        h
