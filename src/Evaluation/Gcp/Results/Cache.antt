-- ===== src/Evaluation/Gcp/Results/Cache.antt =====
-- `GcpResultStore`: the cache of predictions. A payload is what `PredictOutput(**payload)` makes of
-- the dictionary that is stored, where the entry is used.
use berlue.Base.{
  ℕ, String, Option, none, some, [], ◌∷◌, ◌++◌, Result, ok, err, other_error, ◌==◌, nat_eq,
  if◌then◌else◌, ◌>>=◌ as ◌>>=R◌,
}
use berlue.Base.Act.{lift, gets, ◌>>=◌}
use berlue.Api.Schemas.{PredictOutput}
use berlue.Api.PredictCache.{Text, normaliser_question}
use berlue.Evaluation.Store.PredictCache.{Entry, cache_format_version}
use berlue.Evaluation.Gcp.{Plain, int, float, str, Dict, Python, Name, Google, find_key}
use berlue.Evaluation.Gcp.Rest.{Rest, get, write, delete_matching}
use berlue.Evaluation.Gcp.Ids.{doc_id}
use berlue.Evaluation.Gcp.Results.{text_at}

module _ {F : Type 0} where
  -- `int(doc.get("format_version", 0))` of what the store wrote.
  abbrev pub format_of : Option (Plain F) → Result ℕ
  format_of none = ok 0
  format_of (some (int n)) = ok n
  format_of (some _) = err (other_error "int()")

  abbrev pub entry_in :
      (String → Result (Result (PredictOutput F))) → Dict F → Result (Option (Entry F))
  entry_in loads d = text_at "question" d >>=R λ question.
      text_at "generator_model" d >>=R λ generator_model.
      text_at "extract_model" d >>=R λ extract_model. text_at "rag_model" d >>=R λ rag_model.
      text_at "payload" d >>=R λ text. loads text >>=R λ payload.
      text_at "computed_at" d >>=R λ computed_at. ok (
        some (record {
          question = question;
          generator_model = generator_model;
          extract_model = extract_model;
          rag_model = rag_model;
          payload = payload;
          computed_at = computed_at;
        }))

  -- An entry of another format counts as an absence, as does an empty dictionary.
  abbrev pub current_entry :
      (String → Result (Result (PredictOutput F))) → Dict F → ℕ → Result (Option (Entry F))
  current_entry loads d format =
      if format == cache_format_version then entry_in loads d else ok none

  abbrev pub read_entry :
      (String → Result (Result (PredictOutput F))) → Option (Dict F) → Result (Option (Entry F))
  read_entry loads none = ok none
  read_entry loads (some []) = ok none
  read_entry loads (some (f ∷ d)) =
      format_of (find_key "format_version" (f ∷ d)) >>=R (current_entry loads (f ∷ d))

  -- The filters that were given.
  abbrev pub filter_text : String → Option String → Dict F
  filter_text k none = []
  filter_text k (some s) = (k, str s) ∷ []

  abbrev pub filter_float : String → Option F → Dict F
  filter_float k none = []
  filter_float k (some x) = (k, float x) ∷ []

module _ {F W : Type 0} (py : Python F) (hash : String → String) (g : Google F W)
    (isoformat : W → String) (t : Text F) where
  unfoldable pub predict_cache_name : String → F → Name
  predict_cache_name question temperature = record {
    collection = "predict_cache";
    doc_id = doc_id py hash (str (normaliser_question t question) ∷ float temperature ∷ []);
  }

  unfoldable pub get_predict_cache :
      (String → Result (Result (PredictOutput F))) → String → F → Rest F W (Option (Entry F))
  get_predict_cache loads question temperature = do
    doc ← get py g (predict_cache_name question temperature)
    lift (read_entry loads doc)

  abbrev pub cache_doc :
      (PredictOutput F → String)
      → String
      → F
      → String
      → String
      → String
      → PredictOutput F
      → String
      → Dict F
  cache_doc dumps question temperature generator_model extract_model rag_model payload at =
      ("question_key", str (normaliser_question t question))
      ∷ ("temperature", float temperature)
      ∷ ("question", str question)
      ∷ ("generator_model", str generator_model)
      ∷ ("extract_model", str extract_model)
      ∷ ("rag_model", str rag_model)
      ∷ ("payload", str (dumps payload))
      ∷ ("format_version", int cache_format_version)
      ∷ ("computed_at", str at)
      ∷ []

  unfoldable pub put_predict_cache :
      (PredictOutput F → String)
      → String
      → F
      → String
      → String
      → String
      → PredictOutput F
      → Rest F W (Unit {0})
  put_predict_cache dumps question temperature generator_model extract_model rag_model payload = do
    at ← gets (λ s. isoformat s.world)
    write py g (predict_cache_name question temperature)
        (cache_doc dumps question temperature generator_model extract_model rag_model payload at)

  abbrev pub optional_key : Option String → Option String
  optional_key none = none
  optional_key (some question) = some (normaliser_question t question)

  unfoldable pub purge_predict_cache : Option String → Option F → Option String → Rest F W ℕ
  purge_predict_cache question temperature generator_model = delete_matching py g "predict_cache" (
      filter_text "question_key" (optional_key question)
      ++ (filter_float "temperature" temperature ++ filter_text "generator_model" generator_model))
