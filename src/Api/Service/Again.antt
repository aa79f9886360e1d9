-- ===== src/Api/Service/Again.antt =====
-- `BerlueService.predict` on a request that is made again.
use berlue.Base.{
  ◌≡◌, refl, ap, ◌∙◌, false, String, Option, none, some, [], ◌∷◌, Result, ok, err, IsOk, returns,
  nat_eq,
}
use berlue.Base.Double.{Double}
use berlue.Core.Schemas.{PipelineResult}
use berlue.Api.Schemas.{PredictInput, PredictOutput}
use berlue.Api.PredictCache.{Text}
use berlue.Api.PredictCache.Order.{satisfait_refl}
use berlue.Evaluation.Store.PredictCache.{Entry}
use berlue.Api.Service.{
  PredictStore, Models, entry_tags, expose, served, without_origin, lire_cache, ecrire_cache,
  models_of, fresh_output, compute, read_cache, serve_or_compute, predict,
}
use berlue.Api.Service.Served.{asked_cache, exposed-without_origin}

-- What is put is read back by the same question at the same temperature, and validates as it was.
pub record Rereads {F S : Type 0} (st : PredictStore F S) : Type 0 where
  pub get-put :
      (q : String) (x : F) (g ex r : String) (payload : PredictOutput F) (s s' : S)
      → st.put_predict_cache q x g ex r payload s ≡ ok s'
      → (e : Entry F) × (st.get_predict_cache q x s' ≡ ok (some e))
        × (entry_tags e ≡ g ∷ ex ∷ r ∷ [])
        × (e.payload ≡ ok payload)

module _ {F T S : Type 0} ⦃d : Double F⦄ (t : Text F) (extract_model rag_model : String)
    (construire_debug : PipelineResult F T → Models → String) (st : PredictStore F S)
    (laws : Rereads st) where
  rereads :
      (payload : PredictInput F) (output : PredictOutput F) (s s' : S)
      → st.put_predict_cache payload.question payload.llm.temperature payload.llm.name extract_model
          rag_model
          (without_origin output)
          s
        ≡ ok s'
      → (again : PredictOutput F) × (lire_cache t
            (models_of extract_model rag_model payload)
            payload.debug
            (st.get_predict_cache payload.question payload.llm.temperature s')
          ≡ ok (some again))
        × (without_origin again ≡ without_origin (expose payload.debug output))
  rereads payload output s s' h =
      let (e, found, same_tags, same) =
        laws.get-put payload.question payload.llm.temperature payload.llm.name extract_model
          rag_model (without_origin output) s s' h in
      (
        served payload.debug e (without_origin output),
        rw
            (
              found,
              same_tags,
              satisfait_refl t (payload.llm.name ∷ extract_model ∷ rag_model ∷ []),
              same,
            )
            refl,
        exposed-without_origin payload.debug output,
      )

  -- What a second request that does not ignore the cache is answered, in the store that the first
  -- has left: it is served, and it is the first answer but for its origin.
  abbrev pub Repeats :
      PredictInput F → (String → Result (PipelineResult F T)) → PredictOutput F → S → Type 0
  Repeats payload run' out s' =
      (again : PredictOutput F) × (predict t extract_model rag_model run' construire_debug (some st)
          (record payload { ignore_cache = false }) s'
        ≡ (ok again, s'))
      × (without_origin again ≡ without_origin out)

  repeats :
      (payload : PredictInput F) (run' : String → Result (PipelineResult F T)) (s' : S)
      {again : PredictOutput F} (out : PredictOutput F)
      → lire_cache t
          (models_of extract_model rag_model payload)
          payload.debug
          (st.get_predict_cache payload.question payload.llm.temperature s')
        ≡ ok (some again)
      → without_origin again ≡ without_origin out
      → Repeats payload run' out s'
  unfolding predict
  repeats payload run' s' {again} out h same = (again, rw h refl, same)

  computed-Repeats :
      (payload : PredictInput F) (run run' : String → Result (PipelineResult F T)) (s s' : S)
      (r : Result (PipelineResult F T)) (out : PredictOutput F)
      → ((output : PredictOutput F)
          → IsOk (
              st.put_predict_cache payload.question payload.llm.temperature payload.llm.name
                extract_model rag_model output s))
      → compute t extract_model rag_model run construire_debug (some st) payload s r ≡ (ok out, s')
      → Repeats payload run' out s'
  computed-Repeats payload run run' s s' (err x) out k h = absurd (raised (ap (λ a. a.0) h))
    where
      raised : ◌≡◌ {A = Result (PredictOutput F)} (err x) (ok out) → ⊥
      raised e = cc
  computed-Repeats payload run run' s s' (ok res) out k h =
      let output = fresh_output t extract_model rag_model run construire_debug payload res in
      let (s'', put) =
        returns
          (st.put_predict_cache payload.question payload.llm.temperature payload.llm.name
            extract_model rag_model (without_origin output) s)
          (k (without_origin output)) in
      let (again, read, same) = rereads payload output s s'' put in
      let there : s'' ≡ s' = cc (ap (ecrire_cache s) put, h) in
      let shown : expose payload.debug output ≡ out = cc in
      rw (← there) (repeats payload run' s'' out read (same ∙ ap without_origin shown))

  predict-Repeats :
      (payload : PredictInput F) (run run' : String → Result (PipelineResult F T)) (s s' : S)
      (r : Result (Option (PredictOutput F))) (out : PredictOutput F)
      → read_cache t extract_model rag_model run construire_debug (some st) payload s ≡ r
      → ((output : PredictOutput F)
          → IsOk (
              st.put_predict_cache payload.question payload.llm.temperature payload.llm.name
                extract_model rag_model output s))
      → serve_or_compute t extract_model rag_model run construire_debug (some st) payload s r
        ≡ (ok out, s')
      → Repeats payload run' out s'
  predict-Repeats payload run run' s s' (err x) out e k h = absurd (raised (ap (λ a. a.0) h))
    where
      raised : ◌≡◌ {A = Result (PredictOutput F)} (err x) (ok out) → ⊥
      raised i = cc
  predict-Repeats payload run run' s s' (ok (some output)) out e k h =
      let (asked, read) = asked_cache payload.ignore_cache _ e in
      let there : s ≡ s' = cc in
      let shown : output ≡ out = cc in
      rw (← there) (repeats payload run' s out read (ap without_origin shown))
  predict-Repeats payload run run' s s' (ok none) out e k h =
      computed-Repeats payload run run' s s' (run payload.question) out k h

  -- On a store that rereads what is put, and whose writes succeed here, a request that was answered
  -- is answered again from the cache: with the same content, no change of the store, and whatever
  -- pipeline stands behind it, since it does not run.
  pub predict_again :
      (payload : PredictInput F) (run run' : String → Result (PipelineResult F T)) (s s' : S)
      (out : PredictOutput F)
      → ((output : PredictOutput F)
          → IsOk (
              st.put_predict_cache payload.question payload.llm.temperature payload.llm.name
                extract_model rag_model output s))
      → predict t extract_model rag_model run construire_debug (some st) payload s ≡ (ok out, s')
      → Repeats payload run' out s'
  unfolding predict
  predict_again payload run run' s s' out k h = predict-Repeats payload run run' s s' _ out refl k h
