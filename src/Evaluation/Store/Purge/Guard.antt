-- ===== src/Evaluation/Store/Purge/Guard.antt =====
-- `LocalResultStore.purge` and the tables that it is not asked to delete from.
use berlue.Base.{
  ◌≡◌, refl, ap, ◌∙◌, Bool, true, false, not, String, none, some, List, [], ◌∷◌, ◌++◌, Eq, ok, any,
  ◌==◌, string_eq, arith, All,
}
use berlue.Evaluation.Sql.{Row, Filters, Database}
use berlue.Evaluation.Store.Matrices.{where_from_filters}
use berlue.Evaluation.Store.Purge.{
  PurgeFilters, Deletion, Purged, demandes, deletions, one_of, purge, when, predictions_block,
  results_block, signals_block, matrices_block, generated_matrices_block,
}
use berlue.Evaluation.Store.Purge.Survivors.{takes, purge-survives, select_id}

-- No filter at all.
abbrev pub unfiltered : {F : Type 0} → PurgeFilters F
unfiltered = record {
  dataset = none;
  ratio = none;
  model_id = none;
  pipeline_version = none;
  generation_version = none;
  eval_version = none;
  judge_model = none;
}

-- A version of the pipeline as the one filter.
abbrev pub by_version : {F : Type 0} → String → PurgeFilters F
by_version version = record unfiltered { pipeline_version = some version }

abbrev pub nine_tables : List String
nine_tables =
    "eval_predictions" ∷ "llm_answers" ∷ "judge_verdicts" ∷ "eval_berlue_generated"
    ∷ "eval_baseline_generated" ∷ "eval_signals" ∷ "eval_matrices"
    ∷ "eval_matrices_generated_berlue" ∷ "eval_matrices_generated_baseline" ∷ []

-- Every other table that a database has.
abbrev pub IsOther : String → Type 0
IsOther t = All (λ n. (t == n) ≡ false) nine_tables

module _ {F : Type 0} ⦃e : Eq F⦄ where
  any-append :
      (f : Deletion F → Bool) (ds es : List (Deletion F))
      → any f ds ≡ false
      → any f es ≡ false
      → any f (ds ++ es) ≡ false
  any-append f [] es h k = k
  any-append f (d ∷ ds) es h k = ground (arith, any-append f ds es)

  any-when :
      (f : Deletion F → Bool) (b : Bool) (ds : List (Deletion F))
      → any f ds ≡ false
      → any f (when b ds) ≡ false
  any-when f true ds h = h
  any-when f false ds h = refl

  -- A test that no deletion of any block meets.
  blocks-none :
      (p : PurgeFilters F) (scope : String) (f : Deletion F → Bool)
      → any f (predictions_block p) ≡ false
      → any f (results_block p) ≡ false
      → any f (signals_block p) ≡ false
      → any f (matrices_block p) ≡ false
      → any f (generated_matrices_block p) ≡ false
      → any f (deletions p scope) ≡ false
  blocks-none p scope f h1 h2 h3 h4 h5 =
      let matrices =
        any-append f (when (one_of ("all" ∷ "matrices" ∷ "fusion" ∷ []) scope) (matrices_block p)) _
          (any-when f _ (matrices_block p) h4)
          (any-when f (one_of ("all" ∷ "matrices" ∷ []) scope) (generated_matrices_block p) h5) in
      let signals =
        any-append f (when (one_of ("all" ∷ "signals" ∷ []) scope) (signals_block p)) _
          (any-when f _ (signals_block p) h3) matrices in
      let results =
        any-append f (when (one_of ("all" ∷ "results" ∷ []) scope) (results_block p)) _
          (any-when f _ (results_block p) h2) signals in
      any-append f (when (one_of ("all" ∷ "results" ∷ "fusion" ∷ []) scope) (predictions_block p)) _
        (any-when f _ (predictions_block p) h1) results

  takes_none :
      (p : PurgeFilters F) (scope t : String) (asked : Filters F) (r : Row F)
      → IsOther t
      → any (takes asked t r) (deletions p scope) ≡ false
  takes_none p scope t asked r (h1, (h2, (h3, (h4, (h5, (h6, (h7, (h8, (h9, h))))))))) =
      blocks-none p scope (takes asked t r) (rw h1 refl) (rw (h2, h3, h4, h5) refl) (rw h6 refl)
        (rw h7 refl) (rw (h8, h9) refl)

  untaken :
      (p : PurgeFilters F) (scope : String) (db : Database F) {done : Purged F}
      → purge p scope db ≡ ok done
      → (t : String) → ((r : Row F) → any (takes (demandes p) t r) (deletions p scope) ≡ false)
      → done.1 t ≡ db t
  untaken p scope db h t spared =
      purge-survives p scope db h t ∙ select_id _ (λ r. ap not (spared r)) (db t)

  -- A purge of the evaluation, whatever its scope and filters, leaves every table outside of its
  -- nine as it was, among them the cache of predictions.
  pub purge_other :
      (p : PurgeFilters F) (scope : String) (db : Database F) {done : Purged F}
      → purge p scope db ≡ ok done
      → (t : String) → IsOther t
      → done.1 t ≡ db t
  purge_other p scope db h t other =
      untaken p scope db h t (λ r. takes_none p scope t (demandes p) r other)

  -- A purge of the scope "fusion" keeps the signals, so that the fusion can be replayed without a
  -- call of a model, and keeps all that mode 2 has stored.
  pub purge_fusion :
      (p : PurgeFilters F) (db : Database F) {done : Purged F}
      → purge p "fusion" db ≡ ok done
      → All
          (λ t. done.1 t ≡ db t)
          ("eval_signals" ∷ "llm_answers" ∷ "judge_verdicts" ∷ "eval_berlue_generated"
            ∷ "eval_baseline_generated" ∷ "eval_matrices_generated_berlue"
            ∷ "eval_matrices_generated_baseline" ∷ [])
  purge_fusion p db h =
      let kept = untaken p "fusion" db h in
      (
        kept "eval_signals" (λ r. refl),
        (
          kept "llm_answers" (λ r. refl),
          (
            kept "judge_verdicts" (λ r. refl),
            (
              kept "eval_berlue_generated" (λ r. refl),
              (
                kept "eval_baseline_generated" (λ r. refl),
                (
                  kept "eval_matrices_generated_berlue" (λ r. refl),
                  (kept "eval_matrices_generated_baseline" (λ r. refl), tt),
                ),
              ),
            ),
          ),
        ),
      )

  -- A purge that asks for a version of the pipeline and for nothing else keeps the tables that have
  -- no such column, in every scope: without the guard they would be emptied.
  pub purge_by_pipeline_version :
      (version scope : String) (db : Database F) {done : Purged F}
      → purge (by_version version) scope db ≡ ok done
      → All
          (λ t. done.1 t ≡ db t)
          ("llm_answers" ∷ "judge_verdicts" ∷ "eval_baseline_generated"
            ∷ "eval_matrices_generated_baseline" ∷ [])
  unfolding where_from_filters
  purge_by_pipeline_version version scope db h =
      let p = by_version version in
      let kept = untaken p scope db h in
      (
        kept "llm_answers" (λ r.
            blocks-none p scope (takes (demandes p) "llm_answers" r) refl refl refl refl refl),
        (
          kept "judge_verdicts" (λ r.
              blocks-none p scope (takes (demandes p) "judge_verdicts" r) refl refl refl refl refl),
          (
            kept "eval_baseline_generated" (λ r.
                blocks-none p scope (takes (demandes p) "eval_baseline_generated" r) refl refl refl
                  refl refl),
            (
              kept "eval_matrices_generated_baseline" (λ r.
                  blocks-none p scope (takes (demandes p) "eval_matrices_generated_baseline" r) refl
                    refl refl refl refl),
              tt,
            ),
          ),
        ),
      )
