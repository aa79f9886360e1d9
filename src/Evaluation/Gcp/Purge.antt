-- ===== src/Evaluation/Gcp/Purge.antt =====
-- `GcpResultStore.purge`: the deletions in the six collections of Firestore and in the three tables
-- of BigQuery, behind a flush of the registry. The filters are those of the local store, without the
-- omitted ones.
pub mod Spared
pub mod Survivors
use berlue.Base.{
  ℕ, Bool, true, false, ◌||◌, String, Option, none, some, List, [], ◌∷◌, ◌++◌, map, value_error,
  any, ◌==◌, string_eq, if◌then◌else◌,
}
use berlue.Base.Act.{pure, raise, ◌>>=◌, ◌>>◌}
use berlue.Evaluation.Sql.{Filters}
use berlue.Evaluation.Store.Matrices.{OptionalFilters, where_from_filters}
use berlue.Evaluation.Store.Purge.{
  PurgeFilters, one_of, mode1_filters, mode1_gen_filters, signals_filters, answer_filters,
  judge_filters, baseline_filters, demandes, scopes_valides,
}
use berlue.Evaluation.Gcp.{str, Dict, Python, Google, dict}
use berlue.Evaluation.Gcp.Rest.{Rest, delete_matching}
use berlue.Evaluation.Gcp.Registry.{flush_registry, registry_collection}
use berlue.Evaluation.Gcp.BigQuery.{BigQuery, purge_bigquery}

-- Where a step deletes.
pub data Backend : Type 0 where
  firestore bigquery : Backend

-- One assignment to `counts`: its key, and the call.
pub record Step (F : Type 0) : Type 0 where
  pub count : String
  pub backend : Backend
  pub table : String
  pub filters : Filters F

module _ {F : Type 0} where
  -- `concerne`: whether one of the filters that were asked for is among those of the table, where
  -- one was asked for.
  abbrev pub concerne : Filters F → Filters F → Bool
  concerne [] filters = true
  concerne (d ∷ ds) filters = any (λ k. one_of (map (λ f. f.0) filters) k.0) (d ∷ ds)

  abbrev pub when : Bool → List (Step F) → List (Step F)
  when b steps = if b then steps else []

  abbrev pub step : String → Backend → String → OptionalFilters F → Step F
  step count backend table filters = record {
    count = count;
    backend = backend;
    table = table;
    filters = where_from_filters filters;
  }

  abbrev pub predictions_step : PurgeFilters F → List (Step F)
  predictions_step p =
      step "predictions_deleted" firestore "eval_predictions" (mode1_filters p) ∷ []

  abbrev pub signals_step : PurgeFilters F → List (Step F)
  signals_step p = step "signals_deleted" firestore "eval_signals" (signals_filters p) ∷ []

  abbrev pub results_steps : PurgeFilters F → List (Step F)
  results_steps p =
      step "llm_answers_deleted" firestore "llm_answers" (answer_filters p)
      ∷ step "judge_verdicts_deleted" firestore "judge_verdicts" (judge_filters p)
      ∷ step "berlue_generated_deleted" firestore "eval_berlue_generated" (mode1_gen_filters p)
      ∷ step "baseline_generated_deleted" firestore "eval_baseline_generated" (baseline_filters p)
      ∷ []

  abbrev pub matrices_step : PurgeFilters F → List (Step F)
  matrices_step p = step "matrices_deleted" bigquery "eval_matrices" (mode1_filters p) ∷ []

  abbrev pub generated_steps : PurgeFilters F → List (Step F)
  generated_steps p =
      step "matrices_generated_berlue_deleted" bigquery "eval_matrices_generated_berlue"
        (mode1_gen_filters p)
      ∷ step "matrices_generated_baseline_deleted" bigquery "eval_matrices_generated_baseline"
          (baseline_filters p)
      ∷ []

  -- The assignments for a scope, in their order.
  unfoldable pub steps : PurgeFilters F → String → List (Step F)
  steps p scope =
      when (one_of ("all" ∷ "results" ∷ "fusion" ∷ []) scope) (predictions_step p)
      ++ (when (one_of ("all" ∷ "signals" ∷ []) scope) (signals_step p)
          ++ (when (one_of ("all" ∷ "results" ∷ []) scope) (results_steps p)
              ++ (when (one_of ("all" ∷ "matrices" ∷ "fusion" ∷ []) scope) (matrices_step p)
                  ++ when (one_of ("all" ∷ "matrices" ∷ []) scope) (generated_steps p))))

module _ {F W : Type 0} (py : Python F) (hash : String → String) (g : Google F W)
    (bq : BigQuery F W) where
  -- The documents of the table, and the entries of the registry for their scopes.
  unfoldable pub purge_firestore : String → Filters F → Rest F W ℕ
  purge_firestore table filters = do
    n ← delete_matching py g table (dict filters)
    m ← delete_matching py g registry_collection (("table", str table) ∷ dict filters)
    pure n

  abbrev pub purge_in : Backend → String → Filters F → Rest F W ℕ
  purge_in firestore table filters = purge_firestore table filters
  purge_in bigquery table filters = purge_bigquery bq table filters

  unfoldable pub run_step : Filters F → Step F → Rest F W ℕ
  run_step asked s =
      let deleted = purge_in s.backend s.table s.filters in
      if concerne asked s.filters then deleted else pure 0

  unfoldable pub run_steps : Filters F → List (Step F) → Rest F W (List (String × ℕ))
  run_steps asked [] = pure []
  run_steps asked (s ∷ rest) =
      let others = run_steps asked rest in
      run_step asked s >>= (λ n. others >>= (λ counts. pure ((s.count, n) ∷ counts)))

  unfoldable pub purge : PurgeFilters F → String → Rest F W (List (String × ℕ))
  purge p scope =
      if one_of scopes_valides scope
      then (do flush_registry py hash g; run_steps (demandes p) (steps p scope))
      else raise (value_error "scope de purge invalide")
