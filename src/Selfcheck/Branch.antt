-- ===== src/Selfcheck/Branch.antt =====
-- berlue/selfcheck/branch.py, sampler.py and the divergence of scorer.py: the samples of the model on
-- a question, and the score of each affirmation against them. The NLI model is the parameter
-- `predict`, and the generation of samples is that of the client. The mean that is only logged is
-- left out: its divisor is the number of scores, which is not 0 there.
use berlue.Base.{
  ℕ, String, ◌<>◌, List, [], ◌∷◌, map, ◌≡◌, refl, Result, ok, err, ◌>>=◌, value_error, other_error,
  map_result, Ensures, Ensures-bind, Ensures-imp, sym, ap, ◌∙◌, length, Ensures-ok, map-map_result,
  Option,
}
use berlue.Base.Double.{Double, one}
use berlue.Core.Schemas.{Claim, SelfCheckScore, SelfCheckOutcome}
use berlue.Pipeline.Parallel.{Move, map_parallele}
use berlue.Pipeline.Parallel.Order.{map_parallele-sequential}
use berlue.Llm.Client.Samples.{generate_many_ordered}
use berlue.Llm.Client.{Auth, Http, Client, Options, Answer, generate_many}

module _ {F : Type 0} ⦃d : Double F⦄ (predict : List String → List String → Result (List F)) where
  -- `float(scores[0])`
  abbrev pub first_score : List F → Result F
  first_score [] = err (other_error "IndexError")
  first_score (x ∷ xs) = ok x

  unfoldable pub compute_divergence : Claim → List String → Result (SelfCheckScore F)
  compute_divergence claim [] = err (
      value_error (
        "❌ Impossible d'évaluer l'affirmation '"
        <> (claim.id
            <> "' : la liste d'échantillons (samples) est vide. Le LLM a probablement échoué en amont.")))
  compute_divergence claim (s ∷ ss) = do
    scores ← predict (claim.text ∷ []) (s ∷ ss)
    divergence ← first_score scores
    ok (record {
      claim_id = claim.id;
      divergence_score = divergence;
      confidence = d.sub one divergence;
    })

  abbrev pub score_claims : List Move → List Claim → List String → ℕ → Result (SelfCheckOutcome F)
  score_claims moves [] samples w = ok (record { samples = samples; scores = [] })
  score_claims moves (c ∷ cs) samples w = do
    scores ← map_parallele moves (λ claim. compute_divergence claim samples) (c ∷ cs) w
    ok (record { samples = samples; scores = scores })

-- The parameters `SELFCHECK_*` of berlue/params.py and the width of the pools.
pub record SelfCheckParams (F : Type 0) : Type 0 where
  pub k : ℕ
  pub temperature_min : F
  pub temperature_max : F
  pub sample_workers : ℕ
  pub score_workers : ℕ
  pub num_predict : Option ℕ

module _ {F C : Type 0} ⦃d : Double F⦄ (predict : List String → List String → Result (List F))
    (a : Auth C) (post : Http → String → String → Options F → Answer) (elapsed : F)
    (prompt : String → String) (p : SelfCheckParams F) where
  -- `prompt` is `OLLAMA_SYSTEM_PROMPT.format(question=question)`.
  unfoldable pub sample_responses : List Move → ℕ → Client F C → String → Result (List String)
  sample_responses moves now s question =
      generate_many a post elapsed moves now s (prompt question) p.k p.temperature_min
        p.temperature_max p.num_predict p.sample_workers

  unfoldable pub run_selfcheck :
      List Move → List Move → ℕ → Client F C → String → List Claim → Result (SelfCheckOutcome F)
  run_selfcheck moves moves' now s question claims = do
    samples ← sample_responses moves now s question
    score_claims predict moves' claims samples p.score_workers

module _ {F : Type 0} ⦃d : Double F⦄ (predict : List String → List String → Result (List F)) where
  -- The scores that are returned: one for each affirmation, in their order, on these samples.
  abbrev pub Scores : List Claim → List String → SelfCheckOutcome F → Type 0
  Scores claims samples o =
      (o.samples ≡ samples) × (map (λ s. s.claim_id) o.scores ≡ map (λ k. k.id) claims)

  compute_divergence-claim_id :
      (samples : List String) (claim : Claim)
      → Ensures (λ s. s.claim_id ≡ claim.id) (compute_divergence predict claim samples)
  unfolding compute_divergence
  compute_divergence-claim_id [] claim = tt
  compute_divergence-claim_id (s ∷ ss) claim =
      Ensures-bind _ (predict _ _) _
        (λ scores _. Ensures-bind _ (first_score predict scores) _ (λ x _. refl))

  score_claims-Scores :
      (moves : List Move) (claims : List Claim) (samples : List String) (w : ℕ)
      → Ensures (Scores claims samples) (score_claims predict moves claims samples w)
  score_claims-Scores moves [] samples w = (refl, refl)
  score_claims-Scores moves (c ∷ cs) samples w =
      let f = λ (claim : Claim). compute_divergence predict claim samples in
      Ensures-bind (Scores (c ∷ cs) samples) (map_parallele moves f (c ∷ cs) w) _ (λ scores e. (
        refl,
        Ensures-ok (λ ys. map (λ s. s.claim_id) ys ≡ map (λ k. k.id) (c ∷ cs))
            (map_result f (c ∷ cs))
            (map-map_result f (λ s. s.claim_id) (λ k. k.id) (compute_divergence-claim_id samples)
              (c ∷ cs))
            (sym (map_parallele-sequential f moves (c ∷ cs) w) ∙ e),
      ))

module _ {F C : Type 0} ⦃d : Double F⦄ (predict : List String → List String → Result (List F))
    (a : Auth C) (post : Http → String → String → Options F → Answer) (elapsed : F)
    (prompt : String → String) (p : SelfCheckParams F) where
  -- A SelfCheck that returns has drawn its `k` samples, also where there is no affirmation, and has one
  -- score for each affirmation, in their order.
  pub run_selfcheck-Scores :
      (moves moves' : List Move) (now : ℕ) (s : Client F C) (question : String)
      (claims : List Claim)
      → Ensures
          (λ o.
            (length o.samples ≡ p.k) × (map (λ x. x.claim_id) o.scores ≡ map (λ k. k.id) claims))
          (run_selfcheck predict a post elapsed prompt p moves moves' now s question claims)
  unfolding run_selfcheck sample_responses
  run_selfcheck-Scores moves moves' now s question claims =
      let many =
        generate_many a post elapsed moves now s (prompt question) p.k p.temperature_min
          p.temperature_max p.num_predict p.sample_workers in
      Ensures-bind _ many _ (λ samples e.
        Ensures-imp (Scores predict claims samples) _
          (λ o h. (
            ap length h.0
                ∙ Ensures-ok (λ ss. length ss ≡ p.k) many
                    (generate_many_ordered a post elapsed moves now s (prompt question) p.k
                      p.temperature_min p.temperature_max p.num_predict p.sample_workers).1
                    e,
            h.1,
          ))
          (score_claims predict moves' claims samples p.score_workers)
          (score_claims-Scores predict moves' claims samples p.score_workers))
