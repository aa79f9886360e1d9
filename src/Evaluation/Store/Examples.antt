-- ===== src/Evaluation/Store/Examples.antt =====
-- The store of results at concrete inputs: ratios and temperatures are thousandths, and the hash is
-- the identity.
use berlue.Base.{
  ℕ, ◌≡◌, refl, false, String, none, [], ◌∷◌, All, string_eq, nat_eq, ◌==◌, if◌then◌else◌,
}
use berlue.Api.Schemas.{PredictOutput}
use berlue.Api.PredictCache.{Text}
use berlue.Evaluation.Sql.{Database, text, real}
use berlue.Evaluation.Store.{EvalScope}
use berlue.Evaluation.Store.Purge.{PurgeFilters, Purged, purge, demandes, deletions, run_deletions}
use berlue.Evaluation.Store.Purge.Guard.{by_version, purge_by_pipeline_version, purge_fusion}

abbrev scope : EvalScope ℕ
scope = record {
  dataset = "halueval";
  ratio = 800;
  model_id = "llama3.2:3b";
  pipeline_version = "1";
  generation_version = "1";
  eval_version = "1";
}

abbrev hash : String → String
hash s = s

abbrev empty : Database ℕ
empty t = []

-- A database with an answer, a prediction of the same model, and an entry of the cache.
abbrev filled : Database ℕ
filled t =
    if t == "llm_answers"
    then (("model_id", text "llama3.2:3b") ∷ ("generation_version", text "1") ∷ []) ∷ []
    else if t == "eval_predictions"
    then (("dataset", text "halueval")
        ∷ ("ratio", real 800)
        ∷ ("model_id", text "llama3.2:3b")
        ∷ ("pipeline_version", text "1")
        ∷ ("eval_version", text "1")
        ∷ [])
      ∷ []
    else if t == "predict_cache"
    then (("generator_model", text "llama3.2:3b") ∷ []) ∷ []
    else []

abbrev purged : String → PurgeFilters ℕ → Purged ℕ
purged s p = run_deletions (demandes p) (deletions p s) ([], filled)

purge_fusion_example :
    All
      (λ t. (purged "fusion" (by_version "1")).1 t ≡ filled t)
      ("eval_signals" ∷ "llm_answers" ∷ "judge_verdicts" ∷ "eval_berlue_generated"
        ∷ "eval_baseline_generated" ∷ "eval_matrices_generated_berlue"
        ∷ "eval_matrices_generated_baseline" ∷ [])
unfolding purge
purge_fusion_example = purge_fusion (by_version "1") filled refl

purge_by_pipeline_version_example :
    All
      (λ t. (purged "results" (by_version "1")).1 t ≡ filled t)
      ("llm_answers" ∷ "judge_verdicts" ∷ "eval_baseline_generated"
        ∷ "eval_matrices_generated_baseline" ∷ [])
unfolding purge
purge_by_pipeline_version_example = purge_by_pipeline_version "1" "results" filled refl

abbrev plain : Text ℕ
plain = record {
  is_digit = λ c. false;
  is_space = λ c. false;
  is_word = λ c. false;
  strip = λ s. s;
  lower = λ s. s;
  float_of = λ ds. 0;
}

abbrev output : PredictOutput ℕ
output = record {
  question = "q";
  llm_used = record { name = "llama3.2:3b"; temperature = 700 };
  full_llm_answer = "r";
  claims = [];
  origin = none;
  debug = none;
}
