-- ===== src/Evaluation/Store/Tables.antt =====
-- The UNIQUE constraints of the tables that `LocalResultStore._create_tables` creates.
use berlue.Base.{String, List, [], ◌∷◌}

abbrev pub prediction_key : List String
prediction_key =
    "dataset" ∷ "ratio" ∷ "model_id" ∷ "pipeline_version" ∷ "eval_version" ∷ "question_hash"
    ∷ "answer_hash" ∷ []

abbrev pub signals_key : List String
signals_key =
    "dataset" ∷ "ratio" ∷ "model_id" ∷ "pipeline_version" ∷ "question_hash" ∷ "answer_hash" ∷ []

abbrev pub predict_cache_key : List String
predict_cache_key = "question_key" ∷ "temperature" ∷ []

abbrev pub matrix_key : List String
matrix_key = "dataset" ∷ "ratio" ∷ "model_id" ∷ "pipeline_version" ∷ "eval_version" ∷ []

abbrev pub answer_key : List String
answer_key = "model_id" ∷ "generation_version" ∷ "question_hash" ∷ []

abbrev pub judge_key : List String
judge_key =
    "model_id" ∷ "generation_version" ∷ "judge_model" ∷ "eval_version" ∷ "question_hash" ∷ []

abbrev pub berlue_key : List String
berlue_key =
    "dataset" ∷ "ratio" ∷ "model_id" ∷ "pipeline_version" ∷ "generation_version" ∷ "eval_version"
    ∷ "question_hash" ∷ []

abbrev pub baseline_key : List String
baseline_key =
    "dataset" ∷ "ratio" ∷ "model_id" ∷ "generation_version" ∷ "eval_version" ∷ "question_hash" ∷ []

abbrev pub matrix_berlue_key : List String
matrix_berlue_key =
    "dataset" ∷ "ratio" ∷ "model_id" ∷ "pipeline_version" ∷ "generation_version" ∷ "eval_version"
    ∷ []

abbrev pub matrix_baseline_key : List String
matrix_baseline_key = "dataset" ∷ "ratio" ∷ "model_id" ∷ "generation_version" ∷ "eval_version" ∷ []
