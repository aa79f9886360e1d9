-- ===== src/Evaluation/Store/PredictCache.antt =====
-- `LocalResultStore`: the table `predict_cache`, one entry for each question and temperature.
pub mod Entries
use berlue.Base.{
  ℕ, Bool, String, Option, none, some, List, [], ◌∷◌, ◌++◌, Eq, Result, ok, ◌>>=◌, ◌==◌, nat_eq,
  if◌then◌else◌,
}
use berlue.Api.Schemas.{PredictOutput}
use berlue.Api.PredictCache.{Text, normaliser_question}
use berlue.Evaluation.Sql.{
  text, real, integer, Row, Filters, Database, column, update, select_one, insert_or_replace,
  delete,
}
use berlue.Evaluation.Store.{as_text, as_integer}
use berlue.Evaluation.Store.Tables.{predict_cache_key}
use berlue.Evaluation.Store.Matrices.{optional_text, optional_real, where_from_filters}

abbrev pub cache_format_version : ℕ
cache_format_version = 1

-- The payload is what `PredictOutput(**payload)` makes of the dictionary that is stored: its
-- validation may raise, where the entry is used.
pub record Entry (F : Type 0) : Type 0 where
  pub question : String
  pub generator_model : String
  pub extract_model : String
  pub rag_model : String
  pub payload : Result (PredictOutput F)
  pub computed_at : String

module _ {F : Type 0} (t : Text F) where
  abbrev pub cache_key : String → F → Filters F
  cache_key question temperature =
      ("question_key", text (normaliser_question t question))
      ∷ ("temperature", real temperature)
      ∷ []

  -- `dumps` is `json.dumps` of the payload's `model_dump`.
  abbrev pub cache_row :
      (PredictOutput F → String)
      → String
      → F
      → String
      → String
      → String
      → PredictOutput F
      → String
      → Row F
  cache_row dumps question temperature generator_model extract_model rag_model payload now =
      cache_key question temperature
      ++ (("question", text question)
          ∷ ("generator_model", text generator_model)
          ∷ ("extract_model", text extract_model)
          ∷ ("rag_model", text rag_model)
          ∷ ("payload", text (dumps payload))
          ∷ ("format_version", integer cache_format_version)
          ∷ ("computed_at", text now)
          ∷ [])

  -- `loads` is `json.loads`, which may raise, and then the validation; an entry of another format counts as an absence, and its payload is not
  -- read.
  abbrev pub entry_of : Row F → Result (PredictOutput F) → Entry F
  entry_of row payload = record {
    question = as_text (column "question" row);
    generator_model = as_text (column "generator_model" row);
    extract_model = as_text (column "extract_model" row);
    rag_model = as_text (column "rag_model" row);
    payload = payload;
    computed_at = as_text (column "computed_at" row);
  }

  abbrev pub read_entry :
      (String → Result (Result (PredictOutput F))) → Option (Row F) → Result (Option (Entry F))
  read_entry loads none = ok none
  read_entry loads (some row) =
      if as_integer (column "format_version" row) == cache_format_version
      then (do payload ← loads (as_text (column "payload" row)); ok (some (entry_of row payload)))
      else ok none

  module _ ⦃e : Eq F⦄ where
    unfoldable pub get_predict_cache :
        (String → Result (Result (PredictOutput F)))
        → String
        → F
        → Database F
        → Result (Option (Entry F))
    get_predict_cache loads question temperature db =
        read_entry loads (select_one (cache_key question temperature) (db "predict_cache"))

    unfoldable pub put_predict_cache :
        (PredictOutput F → String)
        → String
        → F
        → String
        → String
        → String
        → PredictOutput F
        → String
        → Database F
        → Database F
    put_predict_cache dumps question temperature generator_model extract_model rag_model payload now
          db =
        update "predict_cache"
          (insert_or_replace predict_cache_key
            (cache_row dumps question temperature generator_model extract_model rag_model payload
              now)
            (db "predict_cache"))
          db

    abbrev pub optional_key : Option String → Option String
    optional_key none = none
    optional_key (some question) = some (normaliser_question t question)

    unfoldable pub purge_predict_cache :
        Option String → Option F → Option String → Database F → Database F × ℕ
    purge_predict_cache question temperature generator_model db =
        let clauses = where_from_filters (
          ("question_key", optional_text (optional_key question))
          ∷ ("temperature", optional_real temperature)
          ∷ ("generator_model", optional_text generator_model)
          ∷ []) in
        let (rows, n) = delete clauses (db "predict_cache") in (update "predict_cache" rows db, n)
