-- ===== src/Pipeline/Fusion/Beliefs.antt =====
-- How the beliefs of the fusion move with the signals, for floats without NaN, and the bounds of the
-- confidences, for all floats.
use berlue.Base.{
  ℕ, ◌≤◌, ◌≡◌, true, false, Option, none, some, arith, String, All, All-map, All-map_result,
  Ensures, Ensures-ok, Ensures-bind, ok, Bool-cases, inl, inr,
}
use berlue.Base.Double.{Double, IsOrdered, nought, one, half, divide}
use berlue.Core.Schemas.{
  Verdict, supported, contradicted, not_enough_info, panne, Claim, RagVerdict, SelfCheckScore,
  FusedVerdict, PipelineResult,
}
use berlue.Pipeline.Fusion.{
  FusionParams, selfcheck_belief, classify, weighted_score, clamp, fuse_claim, fuse_one,
  divergence_of, fuse_all, fuse_in, no_verdict, present, do_fusion,
}

divide-ok : {F : Type 0} ⦃d : Double F⦄ (a b : F) {q : F} → divide a b ≡ ok q → q ≡ d.quot a b
unfolding divide
divide-ok a b h = ground arith

-- Verdicts in the order from false to true.
abbrev pub rank : Verdict → ℕ
rank contradicted = 0
rank not_enough_info = 1
rank panne = 1
rank supported = 2

module _ {F : Type 0} ⦃d : Double F⦄ (laws : IsOrdered F) (p : FusionParams F) where
  -- The share of SelfCheck below the neutral point and above it.
  abbrev below : F → F
  below a = d.add half (d.quot (d.mul half (d.sub p.divergence_neutre a)) p.divergence_neutre)

  abbrev above : F → F
  above a =
      d.sub half (d.quot (d.mul half (d.sub a p.divergence_neutre)) (d.sub one p.divergence_neutre))

  belief_below :
      (a : F) {x : F}
      → d.le a p.divergence_neutre ≡ true
      → selfcheck_belief p a ≡ ok x
      → x ≡ below a
  unfolding selfcheck_belief divide
  belief_below a h e = ground arith

  belief_above :
      (a : F) {x : F}
      → d.le a p.divergence_neutre ≡ false
      → selfcheck_belief p a ≡ ok x
      → x ≡ above a
  unfolding selfcheck_belief divide
  belief_above a h e = ground arith

  half-le-below :
      (a : F)
      → d.le nought p.divergence_neutre ≡ true
      → d.le a p.divergence_neutre ≡ true
      → d.le half (below a) ≡ true
  half-le-below a pos h =
      laws.le-add half _
        (laws.quot_nonneg _ _ (laws.mul_nonneg _ _ laws.nought-le-half (laws.sub_nonneg _ _ h)) pos)

  above-le-half :
      (a : F)
      → d.le p.divergence_neutre one ≡ true
      → d.le a p.divergence_neutre ≡ false
      → d.le (above a) half ≡ true
  above-le-half a top h = laws.sub-le half _ (
      laws.quot_nonneg _ _
        (laws.mul_nonneg _ _ laws.nought-le-half (laws.sub_nonneg _ _ (laws.le_total a _ h)))
        (laws.sub_nonneg _ _ top))

  below_antitone :
      (a b : F)
      → d.le nought p.divergence_neutre ≡ true
      → d.le a b ≡ true
      → d.le (below b) (below a) ≡ true
  below_antitone a b pos h = laws.add_mono _ _ _ _ (laws.le_refl half) (
      laws.quot_mono _ _ _ pos
        (laws.mul_mono _ _ _ laws.nought-le-half (laws.sub_mono _ _ _ _ (laws.le_refl _) h)))

  above_antitone :
      (a b : F)
      → d.le p.divergence_neutre one ≡ true
      → d.le a b ≡ true
      → d.le (above b) (above a) ≡ true
  above_antitone a b top h = laws.sub_mono _ _ _ _ (laws.le_refl half) (
      laws.quot_mono _ _ _ (laws.sub_nonneg _ _ top)
        (laws.mul_mono _ _ _ laws.nought-le-half (laws.sub_mono _ _ _ _ h (laws.le_refl _))))

  -- A model that contradicts itself more is believed no more: the belief falls as the divergence
  -- rises, across the neutral point too, wherever that point lies between 0 and 1.
  pub selfcheck_belief_antitone :
      (a b : F) {x y : F}
      → d.le nought p.divergence_neutre ≡ true
      → d.le p.divergence_neutre one ≡ true
      → d.le a b ≡ true
      → selfcheck_belief p a ≡ ok x
      → selfcheck_belief p b ≡ ok y
      → d.le y x ≡ true
  selfcheck_belief_antitone a b pos top h ea eb = elim (Bool-cases (d.le a p.divergence_neutre)) [
    | inl a_low ↦ elim (Bool-cases (d.le b p.divergence_neutre)) [
      | inl b_low ↦ rw (belief_below a a_low ea, belief_below b b_low eb) (below_antitone a b pos h)
      | inr b_high ↦
          rw (belief_below a a_low ea, belief_above b b_high eb)
            (laws.le_trans _ half _ (above-le-half b top b_high) (half-le-below a pos a_low))
    ]
    | inr a_high ↦ elim (Bool-cases (d.le b p.divergence_neutre)) [
      | inl b_low ↦ cc (laws.le_trans _ _ _ h b_low)
      | inr b_high ↦
          rw (belief_above a a_high ea, belief_above b b_high eb) (above_antitone a b top h)
    ]
  ]

  classify_mono : (s t : F) → d.le s t ≡ true → rank (classify p s) ≤ rank (classify p t)
  unfolding classify
  classify_mono s t h = ground (
    arith,
    laws.lt-eq-not-le s p.seuil_faux,
    laws.lt-eq-not-le t p.seuil_faux,
    laws.lt-eq-not-le p.seuil_vrai s,
    laws.lt-eq-not-le p.seuil_vrai t,
    laws.le_trans p.seuil_faux s t,
    laws.le_trans s t p.seuil_vrai,
  )

  -- The arbitration follows the RAG: for one SelfCheck belief, and weights and sums of weights that
  -- are not negative, a higher belief of the RAG never gives a verdict nearer to false.
  pub arbitration_mono :
      (b c sc : F) {s t : F}
      → d.le nought p.weight_rag ≡ true
      → d.le nought (d.add p.weight_rag p.weight_selfcheck_charge) ≡ true
      → d.le nought (d.add p.weight_rag p.weight_selfcheck_decharge) ≡ true
      → d.le b c ≡ true
      → weighted_score p b sc ≡ ok s
      → weighted_score p c sc ≡ ok t
      → rank (classify p s) ≤ rank (classify p t)
  unfolding weighted_score
  arbitration_mono b c sc {s} {t} rag charge decharge h eb ec = classify_mono s t (
      rw (divide-ok _ _ eb, divide-ok _ _ ec)
        (laws.quot_mono _ _ _
          (elim (Bool-cases (d.lt sc half)) [
            | inl low ↦ rw low charge
            | inr high ↦ rw high decharge
          ])
          (laws.add_mono _ _ _ _ (laws.mul_mono _ _ _ rag h) (laws.le_refl _))))

module _ {F : Type 0} ⦃d : Double F⦄ where
  -- A confidence that is neither below 0 nor above 1.
  abbrev pub IsShare : FusedVerdict F → Type 0
  IsShare v = (d.lt v.confidence nought ≡ false) × (d.lt one v.confidence ≡ false)

-- The comparisons of 0 and 1 are all that is asked of the floats here.
module _ {F : Type 0} ⦃d : Double F⦄ (not_less_nought : d.lt nought nought ≡ false)
    (not_less_one : d.lt one one ≡ false) (one_above : d.lt one nought ≡ false) where
  -- What `clamp` gives is neither below 0 nor above 1.
  clamp_bounds : (c : F) → (d.lt (clamp c) nought ≡ false) × (d.lt one (clamp c) ≡ false)
  unfolding clamp
  clamp_bounds c = ground (arith, not_less_nought, not_less_one, one_above)

  fuse_one-IsShare :
      (p : FusionParams F) (claim : Claim) (rag : Option (RagVerdict F))
      (sc : Option (SelfCheckScore F))
      → Ensures IsShare (fuse_one p claim rag sc)
  unfolding fuse_one
  fuse_one-IsShare p claim rag sc =
      Ensures-bind IsShare (fuse_claim p rag (divergence_of p sc)) _
        (λ x e. clamp_bounds x.confidence)

  fuse_all-IsShare :
      {T : Type 0} (p : FusionParams F) (r : PipelineResult F T) (o : Option String)
      → Ensures (All IsShare) (fuse_all p r o)
  fuse_all-IsShare p r (some cause) =
      All-map IsShare (no_verdict p cause) (λ c. (not_less_nought, one_above)) r.claims
  fuse_all-IsShare p r none =
      All-map_result IsShare (fuse_in p r) (λ c. fuse_one-IsShare p c _ _) r.claims

  -- No fused confidence is below 0 and none is above 1, whatever confidences and scores came in: of
  -- the floats this takes only that 0 is not below 0, nor 1 below 1 or 0. A NaN, which no comparison
  -- puts below 0 or above 1, is let through.
  pub do_fusion-IsShare :
      {T : Type 0} (p : FusionParams F) (r : PipelineResult F T) {r' : PipelineResult F T}
      → do_fusion p r ≡ ok r'
      → All IsShare r'.fused_verdicts
  unfolding do_fusion
  do_fusion-IsShare p r h =
      Ensures-ok (λ s. All IsShare s.fused_verdicts) _
        (Ensures-bind _ (fuse_all p r (present r.panne)) _
          (λ vs e. Ensures-ok (All IsShare) _ (fuse_all-IsShare p r _) e))
        h
