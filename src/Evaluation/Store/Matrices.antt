-- ===== src/Evaluation/Store/Matrices.antt =====
-- `LocalResultStore`: the matrices of mode 2, and the lists of matrices under optional filters.
pub mod ReadBack
use berlue.Base.{ℕ, Bool, String, Option, none, some, List, [], ◌∷◌, ◌++◌, map, Eq}
use berlue.Evaluation.Metrics.{ConfusionMatrix}
use berlue.Evaluation.Sql.{
  Value, text, real, Row, Filters, Database, column, pick, update, select_one, select_all, upsert,
}
use berlue.Evaluation.Store.{
  EvalScope, mode1_key, generated_key, baseline_scope, matrix_row, matrix_row_to_object, as_integer,
  read_matrix,
}
use berlue.Evaluation.Store.Tables.{matrix_berlue_key, matrix_baseline_key}

-- A filter that was omitted is `none`.
abbrev pub OptionalFilters : Type 0 → Type 0
OptionalFilters F = List (String × Option (Value F))

-- One entry of a list of matrices.
pub record MatrixEntry (F : Type 0) : Type 0 where
  pub key : Filters F
  pub matrix : ConfusionMatrix
  pub n_examples : ℕ
  pub dataset_test_size : Value F
  pub computed_at : Value F

module _ {F : Type 0} where
  abbrev pub optional_text : Option String → Option (Value F)
  optional_text none = none
  optional_text (some s) = some (text s)

  abbrev pub optional_real : Option F → Option (Value F)
  optional_real none = none
  optional_real (some x) = some (real x)

  -- A filter that is omitted is a joker.
  unfoldable pub where_from_filters : OptionalFilters F → Filters F
  where_from_filters [] = []
  where_from_filters ((k, none) ∷ fs) = where_from_filters fs
  where_from_filters ((k, some v) ∷ fs) = (k, v) ∷ where_from_filters fs

  abbrev pub matrix_entry : List String → Row F → MatrixEntry F
  matrix_entry cs row = record {
    key = pick cs row;
    matrix = matrix_row_to_object row;
    n_examples = as_integer (column "n_examples" row);
    dataset_test_size = column "dataset_test_size" row;
    computed_at = column "computed_at" row;
  }

module _ {F : Type 0} ⦃e : Eq F⦄ where
  -- What the three methods `list_*matrices` do, each with its table, columns and filters.
  unfoldable pub list_entries :
      String → List String → OptionalFilters F → Database F → List (MatrixEntry F)
  list_entries table cs filters db =
      map (matrix_entry cs) (select_all (where_from_filters filters) (db table))

  abbrev pub list_matrices :
      Option String
      → Option F
      → Option String
      → Option String
      → Option String
      → Database F
      → List (MatrixEntry F)
  list_matrices dataset ratio model_id pipeline_version eval_version =
      list_entries "eval_matrices"
        ("dataset" ∷ "ratio" ∷ "model_id" ∷ "pipeline_version" ∷ "eval_version" ∷ [])
        (("dataset", optional_text dataset)
          ∷ ("ratio", optional_real ratio)
          ∷ ("model_id", optional_text model_id)
          ∷ ("pipeline_version", optional_text pipeline_version)
          ∷ ("eval_version", optional_text eval_version)
          ∷ [])

  unfoldable pub put_generated_berlue_matrix :
      EvalScope F → ConfusionMatrix → ℕ → Option ℕ → String → Database F → Database F
  put_generated_berlue_matrix scope matrix n_examples dataset_test_size now db =
      update "eval_matrices_generated_berlue"
        (upsert matrix_berlue_key
          (matrix_row (generated_key scope) matrix n_examples dataset_test_size now)
          (db "eval_matrices_generated_berlue"))
        db

  unfoldable pub get_generated_berlue_matrix : EvalScope F → Database F → Option ConfusionMatrix
  get_generated_berlue_matrix scope db =
      read_matrix (select_one (generated_key scope) (db "eval_matrices_generated_berlue"))

  abbrev pub list_generated_berlue_matrices :
      Option String
      → Option F
      → Option String
      → Option String
      → Option String
      → Option String
      → Database F
      → List (MatrixEntry F)
  list_generated_berlue_matrices dataset ratio model_id pipeline_version generation_version
        eval_version =
      list_entries "eval_matrices_generated_berlue"
        ("dataset" ∷ "ratio" ∷ "model_id" ∷ "pipeline_version" ∷ "generation_version"
          ∷ "eval_version" ∷ [])
        (("dataset", optional_text dataset)
          ∷ ("ratio", optional_real ratio)
          ∷ ("model_id", optional_text model_id)
          ∷ ("pipeline_version", optional_text pipeline_version)
          ∷ ("generation_version", optional_text generation_version)
          ∷ ("eval_version", optional_text eval_version)
          ∷ [])

  unfoldable pub put_generated_baseline_matrix :
      String
      → F
      → String
      → String
      → String
      → ConfusionMatrix
      → ℕ
      → Option ℕ
      → String
      → Database F
      → Database F
  put_generated_baseline_matrix dataset ratio model_id generation_version eval_version matrix
        n_examples dataset_test_size now db =
      update "eval_matrices_generated_baseline"
        (upsert matrix_baseline_key
          (matrix_row (baseline_scope dataset ratio model_id generation_version eval_version) matrix
            n_examples dataset_test_size now)
          (db "eval_matrices_generated_baseline"))
        db

  unfoldable pub get_generated_baseline_matrix :
      String → F → String → String → String → Database F → Option ConfusionMatrix
  get_generated_baseline_matrix dataset ratio model_id generation_version eval_version db =
      read_matrix (
        select_one (baseline_scope dataset ratio model_id generation_version eval_version)
          (db "eval_matrices_generated_baseline"))

  abbrev pub list_generated_baseline_matrices :
      Option String
      → Option F
      → Option String
      → Option String
      → Option String
      → Database F
      → List (MatrixEntry F)
  list_generated_baseline_matrices dataset ratio model_id generation_version eval_version =
      list_entries "eval_matrices_generated_baseline"
        ("dataset" ∷ "ratio" ∷ "model_id" ∷ "generation_version" ∷ "eval_version" ∷ [])
        (("dataset", optional_text dataset)
          ∷ ("ratio", optional_real ratio)
          ∷ ("model_id", optional_text model_id)
          ∷ ("generation_version", optional_text generation_version)
          ∷ ("eval_version", optional_text eval_version)
          ∷ [])
