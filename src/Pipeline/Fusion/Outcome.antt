-- ===== src/Pipeline/Fusion/Outcome.antt =====
-- What `do_fusion` makes of a whole result.
use berlue.Base.{
  ◌≡◌, ◌≢◌, refl, ap, ◌∙◌, String, Option, none, some, List, [], ◌∷◌, map, ok, IsOk, IsOk-bind,
  IsOk-map_result, returns, Ensures, Ensures-ok, Ensures-bind, All-map_result, map-map_result, All,
  All-map,
}
use berlue.Base.Double.{Double, nought}
use berlue.Core.Schemas.{
  panne, preuve_fever, Claim, Fondement, RagVerdict, FusedVerdict, SelfCheckScore, PipelineResult,
}
use berlue.Pipeline.Fusion.{
  FusionParams, present, fuse_claim, cited, divergence_of, fuse_one, fuse_in, no_verdict, fuse_all,
  do_fusion,
}
use berlue.Pipeline.Fusion.Rules.{IsDivisible, fuse_claim_total, fuse_claim-IsCoherent}

-- What is promised of each fused verdict, by the failure that the result reports.
abbrev pub Renders : {F : Type 0} ⦃d : Double F⦄ → Option String → FusedVerdict F → Type 0
Renders (some cause) v = (v.verdict ≡ panne) × (v.confidence ≡ nought) × (v.evidence ≡ none)
Renders none v = (v.verdict ≢ panne) × (v.evidence ≢ none → v.fondement ≡ preuve_fever)

-- What a fused verdict keeps of its claim.
abbrev pub label : {F : Type 0} → FusedVerdict F → String × String
label v = (v.claim_id, v.claim_text)

abbrev pub claim_label : Claim → String × String
claim_label c = (c.id, c.text)

module _ {F : Type 0} ⦃d : Double F⦄ (p : FusionParams F) where
  cited-eq_preuve :
      (rag : Option (RagVerdict F)) (f : Fondement) → cited p rag f ≢ none → f ≡ preuve_fever
  cited-eq_preuve none f h = absurd (h refl)
  cited-eq_preuve (some rag) preuve_fever h = refl
  cited-eq_preuve (some rag) _ h = absurd (h refl)

  fuse_one-Renders :
      (claim : Claim) (rag : Option (RagVerdict F)) (sc : Option (SelfCheckScore F))
      → Ensures (Renders none) (fuse_one p claim rag sc)
  unfolding fuse_one
  fuse_one-Renders claim rag sc = Ensures-bind _ (fuse_claim p rag (divergence_of p sc)) _ (λ x e. (
    (fuse_claim-IsCoherent p rag (divergence_of p sc) e).answered,
    cited-eq_preuve rag x.fondement,
  ))

  fuse_one-id :
      (claim : Claim) (rag : Option (RagVerdict F)) (sc : Option (SelfCheckScore F))
      → Ensures (λ v. label v ≡ claim_label claim) (fuse_one p claim rag sc)
  unfolding fuse_one
  fuse_one-id claim rag sc = Ensures-bind _ (fuse_claim p rag (divergence_of p sc)) _ (λ x e. refl)

  fuse_one-IsOk :
      (claim : Claim) (rag : Option (RagVerdict F)) (sc : Option (SelfCheckScore F))
      → IsDivisible p
      → IsOk (fuse_one p claim rag sc)
  unfolding fuse_one
  fuse_one-IsOk claim rag sc v =
      let (x, e) = fuse_claim_total p rag (divergence_of p sc) v in rw e tt

  map-no_verdict :
      (cause : String) (cs : List Claim)
      → map label (map (no_verdict p cause) cs) ≡ map claim_label cs
  map-no_verdict cause [] = refl
  map-no_verdict cause (c ∷ cs) = rw (map-no_verdict cause cs)

module _ {F T : Type 0} ⦃d : Double F⦄ (p : FusionParams F) where
  fuse_all-IsOk :
      (r : PipelineResult F T) (o : Option String) → IsDivisible p → IsOk (fuse_all p r o)
  fuse_all-IsOk r (some cause) v = tt
  fuse_all-IsOk r none v = IsOk-map_result (fuse_in p r) (λ c. fuse_one-IsOk p c _ _ v) r.claims

  fuse_all-Renders :
      (r : PipelineResult F T) (o : Option String) → Ensures (All (Renders o)) (fuse_all p r o)
  fuse_all-Renders r (some cause) =
      All-map (Renders (some cause)) (no_verdict p cause) (λ c. (refl, refl, refl)) r.claims
  fuse_all-Renders r none =
      All-map_result (Renders none) (fuse_in p r) (λ c. fuse_one-Renders p c _ _) r.claims

  fuse_all-labels :
      (r : PipelineResult F T) (o : Option String)
      → Ensures (λ vs. map label vs ≡ map claim_label r.claims) (fuse_all p r o)
  fuse_all-labels r (some cause) = map-no_verdict p cause r.claims
  fuse_all-labels r none =
      map-map_result (fuse_in p r) label claim_label (λ c. fuse_one-id p c _ _) r.claims

  -- Where no divisor is zero, the fusion of any result returns.
  pub do_fusion_total :
      (r : PipelineResult F T) → IsDivisible p → (r' : PipelineResult F T) × (do_fusion p r ≡ ok r')
  unfolding do_fusion
  do_fusion_total r v =
      returns _ (IsOk-bind (fuse_all p r (present r.panne)) _ (fuse_all-IsOk r _ v) (λ _. tt))

  do_fusion_rendered :
      (r : PipelineResult F T) {r' : PipelineResult F T}
      → do_fusion p r ≡ ok r'
      → All (Renders (present r.panne)) r'.fused_verdicts
  unfolding do_fusion
  do_fusion_rendered r h =
      Ensures-ok (λ s. All (Renders (present r.panne)) s.fused_verdicts) _
        (Ensures-bind _ (fuse_all p r (present r.panne)) _
          (λ vs e. Ensures-ok (All (Renders (present r.panne))) _ (fuse_all-Renders r _) e))
        h

  -- Every claim gets one verdict, under its own id and text and in the order of the claims; nothing
  -- else of the result changes.
  do_fusion_frame :
      (r : PipelineResult F T) {r' : PipelineResult F T}
      → do_fusion p r ≡ ok r'
      → (map label r'.fused_verdicts ≡ map claim_label r.claims)
        × (r' ≡ record r { fused_verdicts = r'.fused_verdicts })
  unfolding do_fusion
  do_fusion_frame r h =
      Ensures-ok
        (λ s.
          (map label s.fused_verdicts ≡ map claim_label r.claims)
          × (s ≡ record r { fused_verdicts = s.fused_verdicts }))
        _
        (Ensures-bind _ (fuse_all p r (present r.panne)) _
          (λ vs e. (Ensures-ok _ _ (fuse_all-labels r _) e, refl)))
        h

  -- The fusion gives one verdict for each claim of the result, under the claim's own id and text and
  -- in the order of the claims, and nothing else of the result changes. If the result reports a
  -- failure, each of these verdicts is PANNE with confidence 0 and no evidence; if it reports none,
  -- no verdict is PANNE, and one that shows evidence rests on a proof of FEVER.
  pub do_fusion-Renders :
      (r : PipelineResult F T) {r' : PipelineResult F T}
      → do_fusion p r ≡ ok r'
      → (map label r'.fused_verdicts ≡ map claim_label r.claims)
        × (r' ≡ record r { fused_verdicts = r'.fused_verdicts })
        × All (Renders (present r.panne)) r'.fused_verdicts
  do_fusion-Renders r h = ((do_fusion_frame r h).0, (do_fusion_frame r h).1, do_fusion_rendered r h)

  do_fusion-fused :
      (r : PipelineResult F T) (vs : List (FusedVerdict F))
      → do_fusion p (record r { fused_verdicts = vs }) ≡ do_fusion p r
  unfolding do_fusion
  do_fusion-fused r vs = refl

  -- A second fusion of a fused result gives the same result: the input stays replayable.
  pub do_fusion_twice :
      (r : PipelineResult F T) {r' : PipelineResult F T}
      → do_fusion p r ≡ ok r'
      → do_fusion p r' ≡ ok r'
  do_fusion_twice r {r'} h =
      ap (do_fusion p) (do_fusion_frame r h).1 ∙ do_fusion-fused r r'.fused_verdicts ∙ h
