-- ===== src/Evaluation/RunEval/Cached.antt =====
-- `evaluate_model` and `evaluate_model_matrix` of berlue/evaluation/run_eval.py where the verdicts are
-- in the store.
use berlue.Base.{
  ℕ, suc, ◌+◌, ◌≡◌, refl, ap, Option, none, some, List, [], ◌∷◌, ◌++◌, map, Result, ok, err,
  >>=-eq-ok, ◌≤◌, ◌>>=◌, value_error, length, All, arith, nat_eq, if◌then◌else◌, ltb,
}
use native.Mathlib.Numerals.{unary_clauses}
use mathlib.Core.List.{append-nil, append_assoc}
use berlue.Base.Double.{Double}
use berlue.Core.Schemas.{Verdict}
use berlue.Api.Schemas.{LlmConfig}
use berlue.Pipeline.Fusion.{FusionParams}
use berlue.Evaluation.Metrics.{ConfusionMatrix, build_confusion_matrix}
use berlue.Evaluation.Metrics.Cells.{Counted, build_confusion_matrix-Counted}
use berlue.Evaluation.Store.{EvalScope}
use berlue.Evaluation.Store.Interface.{ResultStore}
use berlue.Evaluation.BerluePipeline.{EvalPipeline}
use berlue.Evaluation.RunEval.{
  Example, Progress, slice, end_of, use_verdict, round, evaluate_loop, evaluate_model, Gathered,
  gather, gather_one, evaluate_model_matrix,
}
use berlue.Evaluation.RunEval.Loop.{Stored}

add_one : (n m : ℕ) → m + 1 + n ≡ m + suc n
add_one n m = omega arith

none_yet : (n : ℕ) → 0 + n ≡ n
none_yet n = omega arith

module _ {F T S : Type 0} ⦃d : Double F⦄ (p : FusionParams F) (llm : LlmConfig F)
    (st : ResultStore F S) (scope : EvalScope F) where
  evaluate_loop_cached :
      (pipeline : EvalPipeline F T) (i : ℕ) (subset : List Example) (acc : Progress S)
      → All (Stored st scope acc.store) subset
      → evaluate_loop p llm st pipeline scope i subset acc
        ≡ (ok tt, record acc { n_cached = acc.n_cached + length subset })
  unfolding evaluate_loop round
  evaluate_loop_cached pipeline i [] acc h = simp unary_clauses
  evaluate_loop_cached pipeline i (ex ∷ subset) acc ((w, there), h) =
      rw (there, use_verdict)
        (cc (
          evaluate_loop_cached pipeline (i + 1) subset (record acc { n_cached = acc.n_cached + 1 })
              h,
          add_one (length subset) acc.n_cached,
        ))

  -- Where every verdict of the slice is stored, a run reads them all and computes none, whatever the
  -- pipeline: it raises nothing, and the store is as it was but for the flush of the registry.
  pub evaluate_model_twice :
      (pipeline : EvalPipeline F T) (start : ℕ) (end : Option ℕ) (test_examples : List Example)
      (s : S)
      → All (Stored st scope s) (slice start (end_of end test_examples) test_examples)
      → evaluate_model p llm st pipeline scope start end test_examples s ≡ (
        ok tt,
        record {
          store = st.flush_registry s;
          n_cached = length (slice start (end_of end test_examples) test_examples);
          n_computed = 0;
        },
      )
  unfolding evaluate_model
  evaluate_model_twice pipeline start end test_examples s h = cc (
    evaluate_loop_cached pipeline 0 (slice start (end_of end test_examples) test_examples)
        (record { store = s; n_cached = 0; n_computed = 0 }) h,
    none_yet (length (slice start (end_of end test_examples) test_examples)),
  )

module _ {F S : Type 0} (st : ResultStore F S) (scope : EvalScope F) where
  -- The verdicts that are stored, in the order of the examples.
  abbrev pub stored_verdicts :
      (s : S) (xs : List Example) → All (Stored st scope s) xs → List Verdict
  stored_verdicts s [] h = []
  stored_verdicts s (ex ∷ xs) h = h.0.0 ∷ stored_verdicts s xs h.1

  gather_stored :
      (s : S) (xs : List Example) (h : All (Stored st scope s) xs) (g : Gathered)
      → gather st scope s xs g
        ≡ ok (record {
          missing = g.missing;
          ground_truths = g.ground_truths ++ map (λ ex. ex.ground_truth_label) xs;
          predictions = g.predictions ++ stored_verdicts s xs h;
        })
  unfolding gather
  gather_stored s [] h g = simp (append-nil)
  gather_stored s (ex ∷ xs) h g =
      rw (h.0.1, gather_stored s xs h.1 (gather_one st ex (some h.0.0) g)) (simp (append_assoc))

  length-stored_verdicts :
      (s : S) (xs : List Example) (h : All (Stored st scope s) xs)
      → length (map (λ ex. ex.ground_truth_label) xs) ≡ length (stored_verdicts s xs h)
  length-stored_verdicts s [] h = refl
  length-stored_verdicts s (ex ∷ xs) h = ap suc (length-stored_verdicts s xs h.1)

  -- Where every example of the dataset has its verdict stored, the matrix is built and put: each of
  -- its cells counts the examples of its label whose stored verdict is the cell's.
  pub evaluate_model_matrix-Counted :
      (dataset_test_size : Option ℕ) (test_examples : List Example) (s : S)
      (h : All (Stored st scope s) test_examples)
      → (m : ConfusionMatrix) × (evaluate_model_matrix st scope dataset_test_size test_examples s
          ≡ ok (m, st.put_matrix scope m (length test_examples) dataset_test_size s))
        × Counted m
            (map (λ ex. ex.ground_truth_label) test_examples)
            (stored_verdicts s test_examples h)
  unfolding evaluate_model_matrix
  evaluate_model_matrix-Counted dataset_test_size test_examples s h =
      let built =
        build_confusion_matrix-Counted (map (λ ex. ex.ground_truth_label) test_examples)
          (stored_verdicts s test_examples h) (length-stored_verdicts s test_examples h) in
      (
        built.0,
        rw
            (
              gather_stored s test_examples h
                  (record { missing = 0; ground_truths = []; predictions = [] }),
              built.1,
            )
            refl,
        built.2,
      )

  -- The guard lets only a complete list pass.
  none_missing :
      (g : Gathered) (k : ConfusionMatrix → Result (ConfusionMatrix × S)) {r : ConfusionMatrix × S}
      → ((if ltb 0 g.missing
            then err (value_error "Cache incomplet")
            else build_confusion_matrix g.ground_truths g.predictions)
          >>= k)
        ≡ ok r
      → g.missing ≡ 0
  none_missing g k h = ground arith

  one-missing :
      (s : S) (ex : Example) (xs : List Example) (g g' : Gathered) (v : Option Verdict)
      → st.get_verdict scope ex.question ex.answer s ≡ ok v
      → ((gather_one st ex v g).missing ≤ g'.missing)
        × (g'.missing ≡ (gather_one st ex v g).missing → All (Stored st scope s) xs)
      → (g.missing ≤ g'.missing) × (g'.missing ≡ g.missing → All (Stored st scope s) (ex ∷ xs))
  one-missing s ex xs g g' none read h = (omega (arith, h.0), λ e. absurd (omega (arith, h.0, e)))
  one-missing s ex xs g g' (some w) read h = (h.0, λ e. ((w, read), h.1 e))

  gather-missing :
      (s : S) (xs : List Example) (g g' : Gathered)
      → gather st scope s xs g ≡ ok g'
      → (g.missing ≤ g'.missing) × (g'.missing ≡ g.missing → All (Stored st scope s) xs)
  unfolding gather
  gather-missing s [] g g' h = (ground arith, λ e. tt)
  gather-missing s (ex ∷ xs) g g' h =
      let (v, read, rest) = >>=-eq-ok (st.get_verdict scope ex.question ex.answer s) _ h in
      one-missing s ex xs g g' v read (gather-missing s xs (gather_one st ex v g) g' rest)

  -- A matrix that is built never leaves an example out: every verdict of the dataset was stored.
  pub evaluate_model_matrix_only :
      (dataset_test_size : Option ℕ) (test_examples : List Example) (s : S)
      {r : ConfusionMatrix × S}
      → evaluate_model_matrix st scope dataset_test_size test_examples s ≡ ok r
      → All (Stored st scope s) test_examples
  unfolding evaluate_model_matrix
  evaluate_model_matrix_only dataset_test_size test_examples s h =
      let start : Gathered = record { missing = 0; ground_truths = []; predictions = [] } in
      let (g, read, built) = >>=-eq-ok (gather st scope s test_examples start) _ h in
      (gather-missing s test_examples start g read).1 (none_missing g _ built)
