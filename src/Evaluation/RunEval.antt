-- ===== src/Evaluation/RunEval.antt =====
-- berlue/evaluation/run_eval.py, mode 1: the loop that fills the cache of predictions, and the
-- matrix that is built from it. The store is the interface `ResultStore`.
pub mod Aggregate
pub mod Loop
pub mod Cached
pub mod Ranges
pub mod Grouping
pub mod Stage
pub mod Generated
pub mod GeneratedMatrix
use berlue.Base.{
  ℕ, zero, suc, ◌+◌, ◌-◌, ◌%◌, Bool, true, false, String, Option, none, some, List, [], ◌∷◌, ◌++◌,
  Result, ok, err, value_error, Error, ◌>>=◌, length, take, drop, ◌==◌, nat_eq, if◌then◌else◌, ltb,
}
use berlue.Base.Double.{Double}
use berlue.Core.Schemas.{Verdict, PipelineResult}
use berlue.Api.Schemas.{ClaimResult, LlmConfig, PredictOutput}
use berlue.Pipeline.Fusion.{FusionParams}
use berlue.Evaluation.Metrics.{ConfusionMatrix, build_confusion_matrix}
use berlue.Evaluation.Signals.{Signals, signals_to_dict, signals_from_dict}
use berlue.Evaluation.Store.{EvalScope}
use berlue.Evaluation.Store.Interface.{ResultStore}
use berlue.Evaluation.BerluePipeline.{EvalPipeline, staged, mock, fuse, predict}
use berlue.Evaluation.RunEval.Aggregate.{aggregate_verdict}

pub record Example : Type 0 where
  pub question : String
  pub answer : String
  pub ground_truth_label : Bool

-- What a run has done: the store, and the counters of its last line of output.
pub record Progress (S : Type 0) : Type 0 where
  pub store : S
  pub n_cached : ℕ
  pub n_computed : ℕ

-- `_REGISTRY_FLUSH_EVERY_N_ITEMS`
abbrev pub flush_every : ℕ
flush_every = 20

-- `test_examples[start:end]`
abbrev pub slice {ℓ} : {A : Type ℓ} → ℕ → ℕ → List A → List A
slice start end xs = take (end - start) (drop start xs)

abbrev pub end_of {ℓ} : {A : Type ℓ} → Option ℕ → List A → ℕ
end_of none xs = length xs
end_of (some end) xs = end

-- Signals that were cached are fused anew.
abbrev pub replay :
    {F : Type 0} ⦃d : Double F⦄ (T : Type 0)
    → FusionParams F
    → LlmConfig F
    → String
    → Signals F
    → Result (PredictOutput F)
replay T p llm question cached = do
  signals ← signals_from_dict {T = T} question cached
  fuse p llm signals

-- An exception ends the loop.
abbrev pub and_then :
    {S : Type 0}
    → Result (Unit {0}) × Progress S
    → (Progress S → Result (Unit {0}) × Progress S)
    → Result (Unit {0}) × Progress S
and_then (ok _, acc) k = k acc
and_then (err e, acc) k = (err e, acc)

module _ {F S : Type 0} (st : ResultStore F S) where
  -- What the loop does with a prediction: it is put at once, and the registry is flushed from time
  -- to time. An exception ends the loop.
  abbrev pub record_prediction :
      EvalScope F
      → Example
      → ℕ
      → Progress S
      → Result (PredictOutput F) × S
      → Result (Unit {0}) × Progress S
  record_prediction scope ex i acc (err e, s) = (err e, record acc { store = s })
  record_prediction scope ex i acc (ok output, s) =
      let verdict = aggregate_verdict output.claims in
      let put = st.put_prediction scope ex.question ex.answer ex.ground_truth_label verdict s in
      let kept = if (i + 1) % flush_every == 0 then st.flush_registry put else put in
      (ok tt, record acc { store = kept; n_computed = acc.n_computed + 1 })

  -- The `finally` of the loop flushes the registry, after an exception too.
  abbrev pub finish : Result (Unit {0}) × Progress S → Result (Unit {0}) × Progress S
  finish (r, acc) = (r, record acc { store = st.flush_registry acc.store })

module _ {F T S : Type 0} ⦃d : Double F⦄ (p : FusionParams F) (llm : LlmConfig F)
    (st : ResultStore F S) where
  -- `_predict_via_signals`, from what the pipeline and the cache answer: the store changes only
  -- where fresh signals are put.
  abbrev pub use_fresh :
      EvalScope F → String → String → S → Result (PipelineResult F T) → Result (PredictOutput F) × S
  use_fresh scope question answer s (err e) = (err e, s)
  use_fresh scope question answer s (ok result) =
      (fuse p llm result, st.put_signals scope question answer (signals_to_dict result) s)

  abbrev pub use_cached :
      (String → String → Result (PipelineResult F T))
      → EvalScope F
      → String
      → String
      → S
      → Result (Option (Signals F))
      → Result (PredictOutput F) × S
  use_cached compute_signals scope question answer s (err e) = (err e, s)
  use_cached compute_signals scope question answer s (ok (some cached)) =
      (replay T p llm question cached, s)
  use_cached compute_signals scope question answer s (ok none) =
      use_fresh scope question answer s (compute_signals question answer)

  unfoldable pub predict_via_signals :
      EvalPipeline F T → EvalScope F → String → String → S → Result (PredictOutput F) × S
  predict_via_signals (mock m) scope question answer s =
      (predict {T = T} p llm (mock m) question answer, s)
  predict_via_signals (staged compute_signals) scope question answer s =
      use_cached compute_signals scope question answer s (st.get_signals scope question answer s)

  -- One round: the verdict that is stored, or else a prediction.
  abbrev pub use_verdict :
      EvalPipeline F T
      → EvalScope F
      → Example
      → ℕ
      → Progress S
      → Result (Option Verdict)
      → Result (Unit {0}) × Progress S
  use_verdict pipeline scope ex i acc (err e) = (err e, acc)
  use_verdict pipeline scope ex i acc (ok (some verdict)) =
      (ok tt, record acc { n_cached = acc.n_cached + 1 })
  use_verdict pipeline scope ex i acc (ok none) =
      record_prediction st scope ex i acc
        (predict_via_signals pipeline scope ex.question ex.answer acc.store)

  unfoldable pub round :
      EvalPipeline F T → EvalScope F → Example → ℕ → Progress S → Result (Unit {0}) × Progress S
  round pipeline scope ex i acc =
      use_verdict pipeline scope ex i acc (st.get_verdict scope ex.question ex.answer acc.store)

  unfoldable pub evaluate_loop :
      EvalPipeline F T
      → EvalScope F
      → ℕ
      → List Example
      → Progress S
      → Result (Unit {0}) × Progress S
  evaluate_loop pipeline scope i [] acc = (ok tt, acc)
  evaluate_loop pipeline scope i (ex ∷ subset) acc =
      and_then (round pipeline scope ex i acc) (evaluate_loop pipeline scope (i + 1) subset)

  unfoldable pub evaluate_model :
      EvalPipeline F T
      → EvalScope F
      → ℕ
      → Option ℕ
      → List Example
      → S
      → Result (Unit {0}) × Progress S
  evaluate_model pipeline scope start end test_examples s = finish st (
      evaluate_loop pipeline scope 0 (slice start (end_of end test_examples) test_examples)
        (record { store = s; n_cached = 0; n_computed = 0 }))

-- The three accumulators of `evaluate_model_matrix`.
pub record Gathered : Type 0 where
  pub missing : ℕ
  pub ground_truths : List Bool
  pub predictions : List Verdict

module _ {F S : Type 0} (st : ResultStore F S) where
  abbrev pub gather_one : Example → Option Verdict → Gathered → Gathered
  gather_one ex none g = record g { missing = g.missing + 1 }
  gather_one ex (some v) g = record g {
    ground_truths = g.ground_truths ++ (ex.ground_truth_label ∷ []);
    predictions = g.predictions ++ (v ∷ []);
  }

  unfoldable pub gather : EvalScope F → S → List Example → Gathered → Result Gathered
  gather scope s [] g = ok g
  gather scope s (ex ∷ rest) g = do
    v ← st.get_verdict scope ex.question ex.answer s
    gather scope s rest (gather_one ex v g)

  -- `dataset_test_size` is computed from the dataset, which is a parameter.
  unfoldable pub evaluate_model_matrix :
      EvalScope F → Option ℕ → List Example → S → Result (ConfusionMatrix × S)
  evaluate_model_matrix scope dataset_test_size test_examples s = do
    g ← gather scope s test_examples (record { missing = 0; ground_truths = []; predictions = [] })
    matrix ←
        if ltb 0 g.missing
        then err (value_error "Cache incomplet")
        else build_confusion_matrix g.ground_truths g.predictions
    ok (matrix, st.put_matrix scope matrix (length test_examples) dataset_test_size s)
