-- ===== src/Api/Service.antt =====
-- berlue/api/service.py, `BerlueService`: a prediction is served from the cache or computed. The
-- pipeline's run and the text of `debug` are parameters.
pub mod Served
pub mod Again
pub mod Local
use berlue.Base.{
  Bool, true, false, not, String, Option, none, some, List, [], ◌∷◌, map, Result, ok, err, ◌>>=◌,
  if◌then◌else◌,
}
use berlue.Base.Double.{Double}
use berlue.Core.Schemas.{PipelineResult}
use berlue.Api.Schemas.{ClaimResult, LlmConfig, PredictInput, PredictOrigin, PredictOutput}
use berlue.Api.PredictCache.{Text, satisfait}
use berlue.Evaluation.Store.PredictCache.{Entry}
use berlue.Evaluation.BerluePipeline.{claim_result}

-- What the service asks of a store. Either call may raise.
pub record PredictStore (F S : Type 0) : Type 0 where
  pub get_predict_cache : String → F → S → Result (Option (Entry F))
  pub put_predict_cache : String → F → String → String → String → PredictOutput F → S → Result S

-- The models of a request: generation, extraction, RAG.
pub record Models : Type 0 where
  pub generator : String
  pub extract : String
  pub rag : String

abbrev pub tags : Models → List String
tags m = m.generator ∷ m.extract ∷ m.rag ∷ []

module _ {F : Type 0} where
  abbrev pub entry_tags : Entry F → List String
  entry_tags e = e.generator_model ∷ e.extract_model ∷ e.rag_model ∷ []

  -- The detail is shown on demand only.
  abbrev pub expose : Bool → PredictOutput F → PredictOutput F
  expose debug output = if debug then output else record output { debug = none }

  abbrev pub cached_origin : Entry F → PredictOrigin
  cached_origin e = record {
    cached = true;
    generator_model = e.generator_model;
    extract_model = e.extract_model;
    rag_model = e.rag_model;
    computed_at = some e.computed_at;
  }

  -- The answer that an entry serves, from its payload.
  abbrev pub served : Bool → Entry F → PredictOutput F → PredictOutput F
  served debug e output = record (expose debug output) { origin = some (cached_origin e) }

  abbrev pub without_origin : PredictOutput F → PredictOutput F
  without_origin output = record output { origin = none }

-- The payload of an entry is validated outside of the `try`.
abbrev pub serve_payload :
    {F : Type 0} → Bool → Entry F → Result (PredictOutput F) → Result (Option (PredictOutput F))
serve_payload debug e (err x) = err x
serve_payload debug e (ok output) = ok (some (served debug e output))

-- An entry, once the rule has said whether it satisfies the request.
abbrev pub use_entry :
    {F : Type 0} → Bool → Entry F → Result Bool → Result (Option (PredictOutput F))
use_entry debug e (err x) = err x
use_entry debug e (ok true) = serve_payload debug e e.payload
use_entry debug e (ok false) = ok none

module _ {F : Type 0} ⦃d : Double F⦄ (t : Text F) where
  -- `_lire_cache`, from what the store answers: a read that raises is an absence.
  abbrev pub lire_cache :
      Models → Bool → Result (Option (Entry F)) → Result (Option (PredictOutput F))
  lire_cache models debug (err x) = ok none
  lire_cache models debug (ok none) = ok none
  lire_cache models debug (ok (some e)) =
      use_entry debug e (satisfait t (tags models) (entry_tags e))

abbrev pub models_of : {F : Type 0} → String → String → PredictInput F → Models
models_of extract_model rag_model payload = record {
  generator = payload.llm.name;
  extract = extract_model;
  rag = rag_model;
}

-- `_ecrire_cache`, from what the store answers: a write that raises leaves the store.
abbrev pub ecrire_cache : {S : Type 0} → S → Result S → S
ecrire_cache s (err x) = s
ecrire_cache s (ok s') = s'

module _ {F T : Type 0} ⦃d : Double F⦄ (t : Text F) (extract_model rag_model : String)
    (run : String → Result (PipelineResult F T))
    (construire_debug : PipelineResult F T → Models → String) where
  abbrev pub fresh_output : PredictInput F → PipelineResult F T → PredictOutput F
  fresh_output payload res = record {
    question = payload.question;
    llm_used = payload.llm;
    full_llm_answer = res.raw_answer;
    claims = map claim_result res.fused_verdicts;
    origin = some (record {
      cached = false;
      generator_model = payload.llm.name;
      extract_model = extract_model;
      rag_model = rag_model;
      computed_at = none;
    });
    debug = some (construire_debug res (models_of extract_model rag_model payload));
  }

  module _ {S : Type 0} where
    abbrev pub store_output : Option (PredictStore F S) → PredictInput F → PredictOutput F → S → S
    store_output none payload output s = s
    store_output (some st) payload output s = ecrire_cache s (
        st.put_predict_cache payload.question payload.llm.temperature payload.llm.name extract_model
          rag_model (without_origin output) s)

    abbrev pub compute :
        Option (PredictStore F S)
        → PredictInput F
        → S
        → Result (PipelineResult F T)
        → Result (PredictOutput F) × S
    compute store payload s (err x) = (err x, s)
    compute store payload s (ok res) = (
      ok (expose payload.debug (fresh_output payload res)),
      store_output store payload (fresh_output payload res) s,
    )

    -- What the read of the cache says: an answer to serve, or that the pipeline is to run.
    abbrev pub read_cache :
        Option (PredictStore F S) → PredictInput F → S → Result (Option (PredictOutput F))
    read_cache none payload s = ok none
    read_cache (some st) payload s =
        let read =
          lire_cache t (models_of extract_model rag_model payload) payload.debug
            (st.get_predict_cache payload.question payload.llm.temperature s) in
        if payload.ignore_cache then ok none else read

    abbrev pub serve_or_compute :
        Option (PredictStore F S)
        → PredictInput F
        → S
        → Result (Option (PredictOutput F))
        → Result (PredictOutput F) × S
    serve_or_compute store payload s (err x) = (err x, s)
    serve_or_compute store payload s (ok (some output)) = (ok output, s)
    serve_or_compute store payload s (ok none) = compute store payload s (run payload.question)

    -- `BerlueService.predict`
    unfoldable pub predict :
        Option (PredictStore F S) → PredictInput F → S → Result (PredictOutput F) × S
    predict store payload s = serve_or_compute store payload s (read_cache store payload s)
