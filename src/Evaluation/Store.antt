-- ===== src/Evaluation/Store.antt =====
-- berlue/evaluation/result_store.py, `LocalResultStore`: the tables of the results and what each
-- method reads and writes. SHA-256 is the parameter `hash`, the clock is the argument `now` of the
-- methods that write, and `json.dumps` and `json.loads` are parameters where a column holds JSON.
pub mod Tables
pub mod Verdicts
pub mod Interface
pub mod Local
pub mod Generated
pub mod Matrices
pub mod Purge
pub mod PredictCache
mod Examples
use berlue.Base.{
  ℕ, Bool, true, false, String, Option, none, some, List, [], ◌∷◌, ◌++◌, map, Eq, Result, ok, err,
  value_error, ◌>>=◌, map_result, ◌==◌, nat_eq, if◌then◌else◌,
}
use berlue.Core.Schemas.{Verdict, verdict_value, verdict_of}
use berlue.Evaluation.Metrics.{ConfusionRow, ConfusionMatrix}
use berlue.Evaluation.Signals.{Signals, signals_format_version}
use berlue.Evaluation.Sql.{
  Value, text, real, integer, null, Row, Filters, Database, column, pick, update, select_one,
  select_all, insert_or_ignore, upsert,
}
use berlue.Evaluation.Store.Tables.{
  prediction_key, signals_key, matrix_key, answer_key, judge_key, berlue_key, baseline_key,
  matrix_berlue_key, matrix_baseline_key,
}

pub record EvalScope (F : Type 0) : Type 0 where
  pub dataset : String
  pub ratio : F
  pub model_id : String
  pub pipeline_version : String
  pub generation_version : String
  pub eval_version : String

-- `Verdict(text)` for a column that was read.
abbrev pub verdict_from : {F : Type 0} → Value F → Result Verdict
verdict_from (text s) = elim (verdict_of s) [ some v ↦ ok v | none ↦ err (value_error s) ]
verdict_from _ = err (value_error "verdict")

-- A column of a row that a SELECT found, if it found one.
abbrev pub read_verdict : {F : Type 0} → Option (Row F) → Result (Option Verdict)
read_verdict none = ok none
read_verdict (some row) = do v ← verdict_from (column "verdict" row); ok (some v)

abbrev pub as_text : {F : Type 0} → Value F → String
as_text (text s) = s
as_text _ = ""

abbrev pub as_integer : {F : Type 0} → Value F → ℕ
as_integer (integer n) = n
as_integer _ = 0

-- `INSERT OR IGNORE` into a table of the database.
abbrev pub put_row :
    {F : Type 0} ⦃e : Eq F⦄ → String → List String → Row F → Database F → Database F × Bool
put_row t unique row db =
    let (rows, new) = insert_or_ignore unique row (db t) in (update t rows db, new)

module _ {F : Type 0} where
  -- `scope.as_dict(...)` for the columns of each table, with the hashes behind it.
  abbrev pub mode1_key : EvalScope F → Filters F
  mode1_key s =
      ("dataset", text s.dataset)
      ∷ ("ratio", real s.ratio)
      ∷ ("model_id", text s.model_id)
      ∷ ("pipeline_version", text s.pipeline_version)
      ∷ ("eval_version", text s.eval_version)
      ∷ []

  abbrev pub signals_scope : EvalScope F → Filters F
  signals_scope s =
      ("dataset", text s.dataset)
      ∷ ("ratio", real s.ratio)
      ∷ ("model_id", text s.model_id)
      ∷ ("pipeline_version", text s.pipeline_version)
      ∷ []

  abbrev pub generated_key : EvalScope F → Filters F
  generated_key s =
      ("dataset", text s.dataset)
      ∷ ("ratio", real s.ratio)
      ∷ ("model_id", text s.model_id)
      ∷ ("pipeline_version", text s.pipeline_version)
      ∷ ("generation_version", text s.generation_version)
      ∷ ("eval_version", text s.eval_version)
      ∷ []

  abbrev pub baseline_scope : String → F → String → String → String → Filters F
  baseline_scope dataset ratio model_id generation_version eval_version =
      ("dataset", text dataset)
      ∷ ("ratio", real ratio)
      ∷ ("model_id", text model_id)
      ∷ ("generation_version", text generation_version)
      ∷ ("eval_version", text eval_version)
      ∷ []

  abbrev pub matrix_to_values : ConfusionMatrix → Row F
  matrix_to_values m =
      ("ground_truth_true_predicted_true", integer m.ground_truth_true.predicted_true)
      ∷ ("ground_truth_true_predicted_undecided", integer m.ground_truth_true.predicted_undecided)
      ∷ ("ground_truth_true_predicted_false", integer m.ground_truth_true.predicted_false)
      ∷ ("ground_truth_false_predicted_true", integer m.ground_truth_false.predicted_true)
      ∷ ("ground_truth_false_predicted_undecided", integer m.ground_truth_false.predicted_undecided)
      ∷ ("ground_truth_false_predicted_false", integer m.ground_truth_false.predicted_false)
      ∷ []

  abbrev cell : String → Row F → ℕ
  cell c row = as_integer (column c row)

  unfoldable pub matrix_row_to_object : Row F → ConfusionMatrix
  matrix_row_to_object row = record {
    ground_truth_true = record {
      predicted_true = cell "ground_truth_true_predicted_true" row;
      predicted_undecided = cell "ground_truth_true_predicted_undecided" row;
      predicted_false = cell "ground_truth_true_predicted_false" row;
    };
    ground_truth_false = record {
      predicted_true = cell "ground_truth_false_predicted_true" row;
      predicted_undecided = cell "ground_truth_false_predicted_undecided" row;
      predicted_false = cell "ground_truth_false_predicted_false" row;
    };
  }

  abbrev pub optional_integer : Option ℕ → Value F
  optional_integer none = null
  optional_integer (some n) = integer n

  -- What follows the key in a row of a table of matrices.
  abbrev pub matrix_row : Filters F → ConfusionMatrix → ℕ → Option ℕ → String → Row F
  matrix_row key m n_examples dataset_test_size now =
      key
      ++ (matrix_to_values m
          ++ (("n_examples", integer n_examples)
              ∷ ("dataset_test_size", optional_integer dataset_test_size)
              ∷ ("computed_at", text now)
              ∷ []))

module _ {F : Type 0} ⦃e : Eq F⦄ (hash : String → String) where
  -- Mode 1: predictions.
  abbrev pub pair_key : Filters F → String → String → Filters F
  pair_key scope question answer =
      scope ++ (("question_hash", text (hash question)) ∷ ("answer_hash", text (hash answer)) ∷ [])

  abbrev pub prediction_row : EvalScope F → String → String → Bool → Verdict → String → Row F
  prediction_row scope question answer ground_truth_label verdict now =
      pair_key (mode1_key scope) question answer
      ++ (("question", text question)
          ∷ ("answer", text answer)
          ∷ ("ground_truth_label", integer (if ground_truth_label then 1 else 0))
          ∷ ("verdict", text (verdict_value verdict))
          ∷ ("computed_at", text now)
          ∷ [])

  unfoldable pub get_verdict : EvalScope F → String → String → Database F → Result (Option Verdict)
  get_verdict scope question answer db =
      read_verdict (select_one (pair_key (mode1_key scope) question answer) (db "eval_predictions"))

  unfoldable pub put_prediction :
      EvalScope F → String → String → Bool → Verdict → String → Database F → Database F × Bool
  put_prediction scope question answer ground_truth_label verdict now =
      put_row "eval_predictions" prediction_key
        (prediction_row scope question answer ground_truth_label verdict now)

  -- Signals before the fusion.
  abbrev pub signals_row :
      (Signals F → String) → EvalScope F → String → String → Signals F → String → Row F
  signals_row dumps scope question answer signals now =
      pair_key (signals_scope scope) question answer
      ++ (("question", text question)
          ∷ ("answer", text answer)
          ∷ ("signals", text (dumps signals))
          ∷ ("computed_at", text now)
          ∷ [])

  -- An older format counts as an absence.
  abbrev pub current : Signals F → Option (Signals F)
  current s = if s.format_version == signals_format_version then some s else none

  abbrev pub read_signals :
      (String → Result (Signals F)) → Option (Row F) → Result (Option (Signals F))
  read_signals loads none = ok none
  read_signals loads (some row) = do s ← loads (as_text (column "signals" row)); ok (current s)

  unfoldable pub get_signals :
      (String → Result (Signals F))
      → EvalScope F
      → String
      → String
      → Database F
      → Result (Option (Signals F))
  get_signals loads scope question answer db =
      read_signals loads
        (select_one (pair_key (signals_scope scope) question answer) (db "eval_signals"))

  unfoldable pub put_signals :
      (Signals F → String)
      → EvalScope F
      → String
      → String
      → Signals F
      → String
      → Database F
      → Database F × Bool
  put_signals dumps scope question answer signals now =
      put_row "eval_signals" signals_key (signals_row dumps scope question answer signals now)

module _ {F : Type 0} where
  -- A no-op on this store.
  abbrev pub flush_registry : Database F → Database F
  flush_registry db = db

  abbrev pub read_matrix : Option (Row F) → Option ConfusionMatrix
  read_matrix none = none
  read_matrix (some row) = some (matrix_row_to_object row)

  module _ ⦃e : Eq F⦄ where
    -- Matrices of mode 1.
    unfoldable pub put_matrix :
        EvalScope F → ConfusionMatrix → ℕ → Option ℕ → String → Database F → Database F
    put_matrix scope matrix n_examples dataset_test_size now db =
        update "eval_matrices"
          (upsert matrix_key (matrix_row (mode1_key scope) matrix n_examples dataset_test_size now)
            (db "eval_matrices"))
          db

    unfoldable pub get_matrix : EvalScope F → Database F → Option ConfusionMatrix
    get_matrix scope db = read_matrix (select_one (mode1_key scope) (db "eval_matrices"))
