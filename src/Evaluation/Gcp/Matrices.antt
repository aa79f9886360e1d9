-- ===== src/Evaluation/Gcp/Matrices.antt =====
-- `GcpResultStore`: the puts, the reads and the lists of the three tables of matrices.
use berlue.Base.{ℕ, String, Option, List, [], ◌∷◌, string_eq}
use berlue.Evaluation.Metrics.{ConfusionMatrix}
use berlue.Evaluation.Store.{EvalScope, mode1_key, generated_key, baseline_scope}
use berlue.Evaluation.Store.Matrices.{optional_text, optional_real, where_from_filters}
use berlue.Evaluation.Gcp.Rest.{Rest}
use berlue.Evaluation.Gcp.BigQuery.{
  BigQuery, MatrixEntry, put_matrix_in, get_matrix_in, list_matrices_in,
}

module _ {F W : Type 0} (bq : BigQuery F W) where
  -- The matrices of mode 1, and those of mode 2.
  module _ (isoformat : W → String) where
    unfoldable pub put_matrix : EvalScope F → ConfusionMatrix → ℕ → Option ℕ → Rest F W (Unit {0})
    put_matrix scope = put_matrix_in bq isoformat "eval_matrices" (mode1_key scope)

    unfoldable pub put_generated_berlue_matrix :
        EvalScope F → ConfusionMatrix → ℕ → Option ℕ → Rest F W (Unit {0})
    put_generated_berlue_matrix scope =
        put_matrix_in bq isoformat "eval_matrices_generated_berlue" (generated_key scope)

    unfoldable pub put_generated_baseline_matrix :
        String → F → String → String → String → ConfusionMatrix → ℕ → Option ℕ → Rest F W (Unit {0})
    put_generated_baseline_matrix dataset ratio model_id generation_version eval_version =
        put_matrix_in bq isoformat "eval_matrices_generated_baseline"
          (baseline_scope dataset ratio model_id generation_version eval_version)

  unfoldable pub get_matrix : EvalScope F → Rest F W (Option ConfusionMatrix)
  get_matrix scope = get_matrix_in bq "eval_matrices" (mode1_key scope)

  unfoldable pub get_generated_berlue_matrix : EvalScope F → Rest F W (Option ConfusionMatrix)
  get_generated_berlue_matrix scope =
      get_matrix_in bq "eval_matrices_generated_berlue" (generated_key scope)

  unfoldable pub get_generated_baseline_matrix :
      String → F → String → String → String → Rest F W (Option ConfusionMatrix)
  get_generated_baseline_matrix dataset ratio model_id generation_version eval_version =
      get_matrix_in bq "eval_matrices_generated_baseline"
        (baseline_scope dataset ratio model_id generation_version eval_version)

  -- The filters that were given; the others are jokers.
  unfoldable pub list_matrices :
      Option String
      → Option F
      → Option String
      → Option String
      → Option String
      → Rest F W (List (MatrixEntry F))
  list_matrices dataset ratio model_id pipeline_version eval_version =
      list_matrices_in bq "eval_matrices"
        ("dataset" ∷ "ratio" ∷ "model_id" ∷ "pipeline_version" ∷ "eval_version" ∷ [])
        (where_from_filters (
          ("dataset", optional_text dataset)
          ∷ ("ratio", optional_real ratio)
          ∷ ("model_id", optional_text model_id)
          ∷ ("pipeline_version", optional_text pipeline_version)
          ∷ ("eval_version", optional_text eval_version)
          ∷ []))

  unfoldable pub list_generated_berlue_matrices :
      Option String
      → Option F
      → Option String
      → Option String
      → Option String
      → Option String
      → Rest F W (List (MatrixEntry F))
  list_generated_berlue_matrices dataset ratio model_id pipeline_version generation_version
        eval_version =
      list_matrices_in bq "eval_matrices_generated_berlue"
        ("dataset" ∷ "ratio" ∷ "model_id" ∷ "pipeline_version" ∷ "generation_version"
          ∷ "eval_version" ∷ [])
        (where_from_filters (
          ("dataset", optional_text dataset)
          ∷ ("ratio", optional_real ratio)
          ∷ ("model_id", optional_text model_id)
          ∷ ("pipeline_version", optional_text pipeline_version)
          ∷ ("generation_version", optional_text generation_version)
          ∷ ("eval_version", optional_text eval_version)
          ∷ []))

  unfoldable pub list_generated_baseline_matrices :
      Option String
      → Option F
      → Option String
      → Option String
      → Option String
      → Rest F W (List (MatrixEntry F))
  list_generated_baseline_matrices dataset ratio model_id generation_version eval_version =
      list_matrices_in bq "eval_matrices_generated_baseline"
        ("dataset" ∷ "ratio" ∷ "model_id" ∷ "generation_version" ∷ "eval_version" ∷ [])
        (where_from_filters (
          ("dataset", optional_text dataset)
          ∷ ("ratio", optional_real ratio)
          ∷ ("model_id", optional_text model_id)
          ∷ ("generation_version", optional_text generation_version)
          ∷ ("eval_version", optional_text eval_version)
          ∷ []))
