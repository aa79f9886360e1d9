-- ===== src/Evaluation/Signals/Replay.antt =====
-- berlue/evaluation/signals.py, both directions, and the fusion of signals that were read back.
use berlue.Base.{
  ◌≡◌, refl, ap, sym, ◌∙◌, String, Option, none, some, List, [], ◌∷◌, map, Result, ok, err, ◌>>=◌,
  map_result,
}
use berlue.Base.Double.{Double}
use berlue.Core.Schemas.{
  RagJudgment, judgment_value, judgment_of-judgment_value, Claim, Evidence, RagVerdict,
  PipelineResult, FusedVerdict,
}
use berlue.Pipeline.Fusion.{
  FusionParams, present, fuse_one, fuse_all, fuse_in, no_verdict, do_fusion,
}
use berlue.Evaluation.Signals.{
  claim_to_dict, rag_to_dict, score_to_dict, evidence_to_dict, evidence_from_dict, signals_to_dict,
  rag_from_dict, claim_from_dict, score_from_dict, signals_from_dict, judgment_from,
}

map-map_id {ℓ κ} :
    {A : Type ℓ} {B : Type κ} (g : B → A) (f : A → B)
    → ((a : A) → g (f a) ≡ a)
    → (xs : List A) → map g (map f xs) ≡ xs
map-map_id g f h [] = refl
map-map_id g f h (x ∷ xs) = cc (h x, map-map_id g f h xs)

map_result-map_id {ℓ κ} :
    {A : Type ℓ} {B : Type κ} (g : B → Result A) (f : A → B)
    → ((a : A) → g (f a) ≡ ok a)
    → (xs : List A) → map_result g (map f xs) ≡ ok xs
unfolding map_result
map_result-map_id g f h [] = refl
map_result-map_id g f h (x ∷ xs) = rw (h x, map_result-map_id g f h xs)

judgment_back : (j : RagJudgment) → judgment_from (judgment_value j) ≡ ok j
judgment_back j = rw (judgment_of-judgment_value j, judgment_from)

module _ {F : Type 0} where
  evidence_back : (e : Option (Evidence F)) → evidence_from_dict (evidence_to_dict e) ≡ e
  evidence_back none = refl
  evidence_back (some e) = refl

  rag_back : (r : RagVerdict F) → rag_from_dict (rag_to_dict r) ≡ ok r
  unfolding rag_from_dict
  rag_back r = rw (judgment_back r.verdict) (rw (evidence_back r.evidence))

  -- What is read back: the signals as they were, with the raw answer as the source of each claim,
  -- and without samples, traces and fused verdicts.
  abbrev pub restored : {T : Type 0} → PipelineResult F T → PipelineResult F T
  restored r = record r {
    claims = map (claim_from_dict r.raw_answer) (map claim_to_dict r.claims);
    samples = [];
    fused_verdicts = [];
    rag_traces = [];
  }

  -- Reading the dictionary of a result gives the result back, but for what is not stored.
  pub signals_from_dict-to_dict :
      {T : Type 0} (r : PipelineResult F T)
      → signals_from_dict r.question (signals_to_dict r) ≡ ok (restored r)
  unfolding signals_from_dict signals_to_dict
  signals_from_dict-to_dict r =
      rw (map_result-map_id rag_from_dict rag_to_dict rag_back r.rag_scores)
        (rw (map-map_id score_from_dict score_to_dict (λ s. refl) r.selfcheck_scores))

module _ {F : Type 0} ⦃d : Double F⦄ (p : FusionParams F) where
  no_verdict_restored :
      (cause raw : String) (cs : List Claim)
      → map (no_verdict p cause) (map (claim_from_dict raw) (map claim_to_dict cs))
        ≡ map (no_verdict p cause) cs
  no_verdict_restored cause raw [] = refl
  no_verdict_restored cause raw (c ∷ cs) = rw (no_verdict_restored cause raw cs)

module _ {F T : Type 0} ⦃d : Double F⦄ (p : FusionParams F) where
  fuse_restored :
      (r s : PipelineResult F T) (raw : String) (cs : List Claim)
      → s.rag_scores ≡ r.rag_scores
      → s.selfcheck_scores ≡ r.selfcheck_scores
      → map_result (fuse_in p s) (map (claim_from_dict raw) (map claim_to_dict cs))
        ≡ map_result (fuse_in p r) cs
  unfolding map_result fuse_one
  fuse_restored r s raw [] e k = refl
  fuse_restored r s raw (c ∷ cs) e k = rw (e, k, fuse_restored r s raw cs e k)

  fuse_all-restored :
      (r : PipelineResult F T) (o : Option String) → fuse_all p (restored r) o ≡ fuse_all p r o
  fuse_all-restored r (some cause) = ap ok (no_verdict_restored p cause r.raw_answer r.claims)
  fuse_all-restored r none = fuse_restored r (restored r) r.raw_answer r.claims refl refl

  fused-do_fusion :
      (r : PipelineResult F T)
      → (do s ← do_fusion p r; ok s.fused_verdicts) ≡ fuse_all p r (present r.panne)
  unfolding do_fusion
  fused-do_fusion r = bind_ok (fuse_all p r (present r.panne))
    where
      bind_ok :
          (m : Result (List (FusedVerdict F)))
          → (do s ← (do vs ← m; ok (record r { fused_verdicts = vs })); ok s.fused_verdicts) ≡ m
      bind_ok (ok vs) = refl
      bind_ok (err e) = refl

  -- Fusing the signals that were read back from the cache gives the verdicts, or the exception, of
  -- fusing the signals that were stored: RAG and SelfCheck need not run again.
  pub fusion_replay :
      (r : PipelineResult F T)
      → (do fresh ← do_fusion p r; ok fresh.fused_verdicts) ≡ (do
        signals ← signals_from_dict {T = T} r.question (signals_to_dict r)
        replayed ← do_fusion p signals
        ok replayed.fused_verdicts)
  fusion_replay r =
      fused-do_fusion r
      ∙ sym (
          rw signals_from_dict-to_dict
            (fused-do_fusion (restored r) ∙ fuse_all-restored r (present r.panne)))
