-- ===== src/Evaluation/Gcp/BigQuery.antt =====
-- The matrices of `GcpResultStore`: the statements that are sent to BigQuery with their parameters.
-- The service is a parameter: what a statement does to its tables is not modelled. The white space
-- around the lines of a statement is left out.
use berlue.Base.{
  ℕ, not, String, ◌<>◌, Option, none, some, List, [], ◌∷◌, ◌++◌, map, select, any, ◌==◌, string_eq,
  if◌then◌else◌,
}
use berlue.Base.Act.{Act, pure, gets, ◌>>=◌}
use berlue.Evaluation.Metrics.{ConfusionMatrix}
use berlue.Evaluation.Store.{matrix_to_values, matrix_row_to_object}
use berlue.Evaluation.Sql.{Value, text, real, integer, null, Row, Filters, column, pick}
use berlue.Evaluation.Gcp.Rest.{Rest, outside}

-- `bigquery.ScalarQueryParameter`
pub record Param (F : Type 0) : Type 0 where
  pub name : String
  pub bq_type : String
  pub value : Value F

-- What a job returns: the rows of a SELECT, or the number of rows that a statement changed.
pub record Job (F : Type 0) : Type 0 where
  pub rows : List (Row F)
  pub num_dml_affected_rows : Option ℕ

pub record BigQuery (F W : Type 0) : Type 0 where
  pub project : String
  pub dataset : String
  -- `client.query(query, job_config).result()`
  pub query : String → List (Param F) → Act W (Job F)

abbrev pub matrix_columns : List String
matrix_columns =
    "ground_truth_true_predicted_true" ∷ "ground_truth_true_predicted_undecided"
    ∷ "ground_truth_true_predicted_false" ∷ "ground_truth_false_predicted_true"
    ∷ "ground_truth_false_predicted_undecided" ∷ "ground_truth_false_predicted_false" ∷ []

-- `sep.join(...)`
unfoldable pub join : String → List String → String
join sep [] = ""
join sep (s ∷ []) = s
join sep (s ∷ t ∷ rest) = s <> (sep <> join sep (t ∷ rest))

-- The type of a parameter that `_put_matrix` writes out, and that of a date, which is a text here.
abbrev pub explicit_type : String → Option String
explicit_type c =
    if c == "dataset_test_size"
    then some "INT64"
    else if c == "computed_at"
    then some "TIMESTAMP"
    else none

-- The statement MERGE for the columns of a key.
unfoldable pub merge_text : String → List String → String
merge_text table_ref key_columns =
    let all_columns =
      key_columns
      ++ (matrix_columns ++ ("n_examples" ∷ "dataset_test_size" ∷ "computed_at" ∷ [])) in
    let updated = select (λ c. not (any (λ k. k == c) key_columns)) all_columns in
    "MERGE `"
    <> (table_ref
        <> ("` T USING (SELECT "
            <> (join ", " (map (λ c. "@" <> (c <> (" AS " <> c))) all_columns)
                <> (") S ON "
                    <> (join " AND " (map (λ c. "T." <> (c <> (" = S." <> c))) key_columns)
                        <> (" WHEN MATCHED THEN UPDATE SET "
                            <> (join ", " (map (λ c. c <> (" = S." <> c)) updated)
                                <> (" WHEN NOT MATCHED THEN INSERT ("
                                    <> (join ", " all_columns
                                        <> (") VALUES ("
                                            <> (join ", " (map (λ c. "S." <> c) all_columns)
                                                <> ")")))))))))))

module _ {F : Type 0} where
  abbrev pub type_of : Value F → String
  type_of (integer n) = "INT64"
  type_of (real x) = "FLOAT64"
  type_of (text s) = "STRING"
  type_of null = "STRING"

  abbrev pub bq_param : String → Value F → Option String → Param F
  bq_param n v none = record { name = n; bq_type = type_of v; value = v }
  bq_param n v (some t) = record { name = n; bq_type = t; value = v }

  abbrev pub equality : String × Value F → String
  equality f = f.0 <> ("=@" <> f.0)

  unfoldable pub bq_where : Filters F → String × List (Param F)
  bq_where [] = ("", [])
  bq_where (f ∷ filters) = (
    "WHERE " <> join " AND " (map equality (f ∷ filters)),
    map (λ x. bq_param x.0 x.1 none) (f ∷ filters),
  )

  abbrev pub optional_size : Option ℕ → Value F
  optional_size none = null
  optional_size (some n) = integer n

  -- `values`, in the order of its keys.
  unfoldable pub matrix_values : Filters F → ConfusionMatrix → ℕ → Option ℕ → String → Row F
  matrix_values key_fields matrix n_examples dataset_test_size now =
      key_fields
      ++ (matrix_to_values matrix
          ++ (("n_examples", integer n_examples)
              ∷ ("dataset_test_size", optional_size dataset_test_size)
              ∷ ("computed_at", text now)
              ∷ []))

-- One entry of a list of matrices.
pub record MatrixEntry (F : Type 0) : Type 0 where
  pub key : Filters F
  pub matrix : ConfusionMatrix
  pub n_examples : Value F
  pub dataset_test_size : Value F
  pub computed_at : Value F

module _ {F W : Type 0} (bq : BigQuery F W) where
  abbrev pub bq_table_ref : String → String
  bq_table_ref table = bq.project <> ("." <> (bq.dataset <> ("." <> table)))

  unfoldable pub put_matrix_in :
      (W → String) → String → Filters F → ConfusionMatrix → ℕ → Option ℕ → Rest F W (Unit {0})
  put_matrix_in isoformat table key_fields matrix n_examples dataset_test_size = do
    now ← gets (λ s. isoformat s.world)
    let values = matrix_values key_fields matrix n_examples dataset_test_size now
    job ← outside (
        bq.query (merge_text (bq_table_ref table) (map (λ f. f.0) key_fields))
          (map (λ f. bq_param f.0 f.1 (explicit_type f.0)) values))
    pure tt

  abbrev pub first_matrix : List (Row F) → Option ConfusionMatrix
  first_matrix [] = none
  first_matrix (row ∷ rows) = some (matrix_row_to_object row)

  unfoldable pub get_matrix_in : String → Filters F → Rest F W (Option ConfusionMatrix)
  get_matrix_in table key_fields = do
    let where_clause = bq_where key_fields
    job ← outside (
        bq.query
          ("SELECT "
            <> (join ", " matrix_columns
                <> (" FROM `" <> (bq_table_ref table <> ("` " <> (where_clause.0 <> " LIMIT 1"))))))
          where_clause.1)
    pure (first_matrix job.rows)

  abbrev pub matrix_entry : List String → Row F → MatrixEntry F
  matrix_entry columns row = record {
    key = pick columns row;
    matrix = matrix_row_to_object row;
    n_examples = column "n_examples" row;
    dataset_test_size = column "dataset_test_size" row;
    computed_at = column "computed_at" row;
  }

  unfoldable pub list_matrices_in :
      String → List String → Filters F → Rest F W (List (MatrixEntry F))
  list_matrices_in table columns filters = do
    let where_clause = bq_where filters
    job ← outside (
        bq.query
          ("SELECT "
            <> (join ", " columns
                <> (", "
                    <> (join ", " matrix_columns
                        <> (", n_examples, dataset_test_size, computed_at FROM `"
                            <> (bq_table_ref table <> ("` " <> where_clause.0)))))))
          where_clause.1)
    pure (map (matrix_entry columns) job.rows)

  -- A DELETE without WHERE is refused.
  abbrev pub where_true : String → String
  where_true clause = if clause == "" then "WHERE TRUE" else clause

  abbrev pub affected : Option ℕ → ℕ
  affected none = 0
  affected (some n) = n

  unfoldable pub purge_bigquery : String → Filters F → Rest F W ℕ
  purge_bigquery table filters = do
    let where_clause = bq_where filters
    job ← outside (
        bq.query ("DELETE FROM `" <> (bq_table_ref table <> ("` " <> where_true where_clause.0)))
          where_clause.1)
    pure (affected job.num_dml_affected_rows)
