-- ===== src/Evaluation/Store/Purge.antt =====
-- `LocalResultStore.purge`: what is deleted from the nine tables of the evaluation.
pub mod Survivors
pub mod Guard
use berlue.Base.{
  ℕ, Bool, true, false, not, ◌&&◌, ◌||◌, String, Option, none, some, List, [], ◌∷◌, ◌++◌, map, Eq,
  Result, ok, err, value_error, any, select, ◌==◌, string_eq, if◌then◌else◌,
}
use berlue.Evaluation.Sql.{Value, Row, Filters, Database, update, delete}
use berlue.Evaluation.Store.Matrices.{
  OptionalFilters, optional_text, optional_real, where_from_filters,
}

-- The arguments of `purge`, each of which may be omitted.
pub record PurgeFilters (F : Type 0) : Type 0 where
  pub dataset : Option String
  pub ratio : Option F
  pub model_id : Option String
  pub pipeline_version : Option String
  pub generation_version : Option String
  pub eval_version : Option String
  pub judge_model : Option String

-- `k in names`
abbrev pub one_of : List String → String → Bool
one_of names k = any (λ n. n == k) names

module _ {F : Type 0} where
  abbrev pub mode1_filters : PurgeFilters F → OptionalFilters F
  mode1_filters p =
      ("dataset", optional_text p.dataset)
      ∷ ("ratio", optional_real p.ratio)
      ∷ ("model_id", optional_text p.model_id)
      ∷ ("pipeline_version", optional_text p.pipeline_version)
      ∷ ("eval_version", optional_text p.eval_version)
      ∷ []

  abbrev pub mode1_gen_filters : PurgeFilters F → OptionalFilters F
  mode1_gen_filters p =
      mode1_filters p ++ (("generation_version", optional_text p.generation_version) ∷ [])

  -- The signals carry no `eval_version`.
  abbrev pub signals_filters : PurgeFilters F → OptionalFilters F
  signals_filters p = select (λ f. not (f.0 == "eval_version")) (mode1_filters p)

  abbrev pub answer_filters : PurgeFilters F → OptionalFilters F
  answer_filters p =
      ("model_id", optional_text p.model_id)
      ∷ ("generation_version", optional_text p.generation_version)
      ∷ []

  abbrev pub judge_filters : PurgeFilters F → OptionalFilters F
  judge_filters p =
      answer_filters p
      ++ (("judge_model", optional_text p.judge_model)
          ∷ ("eval_version", optional_text p.eval_version)
          ∷ [])

  abbrev pub baseline_filters : PurgeFilters F → OptionalFilters F
  baseline_filters p =
      ("dataset", optional_text p.dataset)
      ∷ ("ratio", optional_real p.ratio)
      ∷ ("model_id", optional_text p.model_id)
      ∷ ("generation_version", optional_text p.generation_version)
      ∷ ("eval_version", optional_text p.eval_version)
      ∷ []

  -- Every filter that was asked for, whatever the table.
  abbrev pub demandes : PurgeFilters F → Filters F
  demandes p = where_from_filters (
      ("dataset", optional_text p.dataset)
      ∷ ("ratio", optional_real p.ratio)
      ∷ ("model_id", optional_text p.model_id)
      ∷ ("pipeline_version", optional_text p.pipeline_version)
      ∷ ("generation_version", optional_text p.generation_version)
      ∷ ("eval_version", optional_text p.eval_version)
      ∷ ("judge_model", optional_text p.judge_model)
      ∷ [])

  -- Whether a filter that was asked for has a column among `filters`, where one was asked for.
  abbrev pub applies : Filters F → OptionalFilters F → Bool
  applies [] filters = true
  applies (d ∷ ds) filters = any (λ k. one_of (map (λ f. f.0) filters) k.0) (d ∷ ds)

-- A call of `delete`: the name of its count, the table and the filters.
pub record Deletion (F : Type 0) : Type 0 where
  pub count : String
  pub table : String
  pub filters : OptionalFilters F

-- The counts so far, and the database.
abbrev pub Purged : Type 0 → Type 0
Purged F = List (String × ℕ) × Database F

module _ {F : Type 0} ⦃e : Eq F⦄ where
  -- The inner function `delete`.
  unfoldable pub delete_in : Filters F → Deletion F → Database F → Database F × ℕ
  delete_in asked d db =
      let (rows, n) = delete (where_from_filters d.filters) (db d.table) in
      if applies asked d.filters then (update d.table rows db, n) else (db, 0)

  unfoldable pub run_deletions : Filters F → List (Deletion F) → Purged F → Purged F
  run_deletions asked [] s = s
  run_deletions asked (d ∷ ds) (counts, db) =
      let (db', n) = delete_in asked d db in
      run_deletions asked ds (counts ++ ((d.count, n) ∷ []), db')

module _ {F : Type 0} where
  abbrev pub when : Bool → List (Deletion F) → List (Deletion F)
  when b ds = if b then ds else []

  abbrev pub predictions_block : PurgeFilters F → List (Deletion F)
  predictions_block p =
      record {
        count = "predictions_deleted";
        table = "eval_predictions";
        filters = mode1_filters p;
      }
      ∷ []

  abbrev pub results_block : PurgeFilters F → List (Deletion F)
  results_block p =
      record { count = "llm_answers_deleted"; table = "llm_answers"; filters = answer_filters p }
      ∷ record {
        count = "judge_verdicts_deleted";
        table = "judge_verdicts";
        filters = judge_filters p;
      }
      ∷ record {
        count = "berlue_generated_deleted";
        table = "eval_berlue_generated";
        filters = mode1_gen_filters p;
      }
      ∷ record {
        count = "baseline_generated_deleted";
        table = "eval_baseline_generated";
        filters = baseline_filters p;
      }
      ∷ []

  abbrev pub signals_block : PurgeFilters F → List (Deletion F)
  signals_block p =
      record { count = "signals_deleted"; table = "eval_signals"; filters = signals_filters p } ∷ []

  abbrev pub matrices_block : PurgeFilters F → List (Deletion F)
  matrices_block p =
      record { count = "matrices_deleted"; table = "eval_matrices"; filters = mode1_filters p } ∷ []

  abbrev pub generated_matrices_block : PurgeFilters F → List (Deletion F)
  generated_matrices_block p =
      record {
        count = "matrices_generated_berlue_deleted";
        table = "eval_matrices_generated_berlue";
        filters = mode1_gen_filters p;
      }
      ∷ record {
        count = "matrices_generated_baseline_deleted";
        table = "eval_matrices_generated_baseline";
        filters = baseline_filters p;
      }
      ∷ []

  -- The calls that the code makes for a scope, in their order.
  abbrev pub deletions : PurgeFilters F → String → List (Deletion F)
  deletions p scope =
      when (one_of ("all" ∷ "results" ∷ "fusion" ∷ []) scope) (predictions_block p)
      ++ (when (one_of ("all" ∷ "results" ∷ []) scope) (results_block p)
          ++ (when (one_of ("all" ∷ "signals" ∷ []) scope) (signals_block p)
              ++ (when (one_of ("all" ∷ "matrices" ∷ "fusion" ∷ []) scope) (matrices_block p)
                  ++ when (one_of ("all" ∷ "matrices" ∷ []) scope) (generated_matrices_block p))))

abbrev pub scopes_valides : List String
scopes_valides = "all" ∷ "results" ∷ "matrices" ∷ "signals" ∷ "fusion" ∷ []

module _ {F : Type 0} ⦃e : Eq F⦄ where
  unfoldable pub purge : PurgeFilters F → String → Database F → Result (Purged F)
  purge p scope db =
      let done = run_deletions (demandes p) (deletions p scope) ([], db) in
      if one_of scopes_valides scope then ok done else err (value_error "scope de purge invalide")
