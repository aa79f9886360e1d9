-- ===== src/Evaluation/RunEval/Loop.antt =====
-- The loop of `evaluate_model` of berlue/evaluation/run_eval.py over any lawful store: what one run
-- leaves in the store.
use berlue.Base.{
  ℕ, ◌+◌, ◌%◌, ◌≡◌, refl, ap, ◌∙◌, Bool, true, false, String, Option, none, some, List, [], ◌∷◌,
  Result, ok, err, length, All, All-imp, arith, ◌==◌, nat_eq, if◌then◌else◌,
}
use berlue.Base.Double.{Double}
use berlue.Core.Schemas.{Verdict, PipelineResult}
use berlue.Api.Schemas.{LlmConfig, PredictOutput}
use berlue.Pipeline.Fusion.{FusionParams}
use berlue.Evaluation.Signals.{Signals, signals_to_dict}
use berlue.Evaluation.Store.{EvalScope}
use berlue.Evaluation.Store.Verdicts.{stored_or}
use berlue.Evaluation.Store.Interface.{ResultStore, IsLawful}
use berlue.Evaluation.BerluePipeline.{EvalPipeline, staged, mock}
use berlue.Evaluation.RunEval.Aggregate.{aggregate_verdict}
use berlue.Evaluation.RunEval.{
  Example, Progress, flush_every, slice, end_of, and_then, record_prediction, finish, use_fresh,
  use_cached, use_verdict, predict_via_signals, round, evaluate_loop, evaluate_model,
}

module _ {F S : Type 0} (st : ResultStore F S) (scope : EvalScope F) where
  -- The verdict of an example stands in the store.
  abbrev pub Stored : S → Example → Type 0
  Stored s ex = (w : Verdict) × (st.get_verdict scope ex.question ex.answer s ≡ ok (some w))

  -- No verdict that stands in the first store is another in the second.
  abbrev pub Keeps : S → S → Type 0
  Keeps s s' =
      (c : EvalScope F) (q a : String) (w : Verdict)
      → st.get_verdict c q a s ≡ ok (some w)
      → st.get_verdict c q a s' ≡ ok (some w)

  -- What a part of the run over `subset` promises, from `acc` on: it overwrites nothing, and unless
  -- it raises, the whole subset is stored and each example is counted once.
  abbrev pub Fills : List Example → Progress S → Result (Unit {0}) × Progress S → Type 0
  Fills subset acc (err e, acc') = Keeps acc.store acc'.store
  Fills subset acc (ok _, acc') =
      Keeps acc.store acc'.store
      × All (Stored acc'.store) subset
      × (acc'.n_cached + acc'.n_computed ≡ acc.n_cached + acc.n_computed + length subset)

  Fills-and_then :
      (ex : Example) (subset : List Example) (acc : Progress S) (r : Result (Unit {0}))
      (acc' : Progress S) (k : Progress S → Result (Unit {0}) × Progress S)
      → Fills (ex ∷ []) acc (r, acc')
      → ((x : Progress S) → Fills subset x (k x))
      → Fills (ex ∷ subset) acc (and_then (r, acc') k)
  Fills-and_then ex subset acc (err e) acc' k h step = h
  Fills-and_then ex subset acc (ok u) acc' k h step = join (k acc') (step acc')
    where
      join : (x : Result (Unit {0}) × Progress S) → Fills subset acc' x → Fills (ex ∷ subset) acc x
      join (err e, acc'') g = λ c q a w m. g c q a w (h.0 c q a w m)
      join (ok u', acc'') g = (
        λ c q a w m. g.0 c q a w (h.0 c q a w m),
        ((h.1.0.0, g.0 scope ex.question ex.answer h.1.0.0 h.1.0.1), g.1),
        omega arith,
      )

  Fills-Keeps :
      (subset : List Example) (acc : Progress S) (x : Result (Unit {0}) × Progress S)
      → Fills subset acc x
      → Keeps acc.store x.1.store
  Fills-Keeps subset acc (ok u, acc') h = h.0
  Fills-Keeps subset acc (err e, acc') h = h

module _ {F S : Type 0} (st : ResultStore F S) (laws : IsLawful st) (scope : EvalScope F) where
  flushed :
      (b : Bool) (s : S) (c : EvalScope F) (q a : String)
      → st.get_verdict c q a (if b then st.flush_registry s else s) ≡ st.get_verdict c q a s
  flushed true s c q a = laws.flush_apart s c q a
  flushed false s c q a = refl

  record-Fills :
      (ex : Example) (i : ℕ) (acc : Progress S) (r : Result (PredictOutput F)) (s : S)
      → ((c : EvalScope F) (q a : String) → st.get_verdict c q a s ≡ st.get_verdict c q a acc.store)
      → st.get_verdict scope ex.question ex.answer acc.store ≡ ok none
      → Fills st scope (ex ∷ []) acc (record_prediction st scope ex i acc (r, s))
  record-Fills ex i acc (err e) s same h = λ c q a w k. rw (same c q a) k
  record-Fills ex i acc (ok output) s same h =
      let v = aggregate_verdict output.claims in
      let put = st.put_prediction scope ex.question ex.answer ex.ground_truth_label v s in
      let flush = (i + 1) % flush_every == 0 in
      (
        λ c q a w k.
            flushed flush put c q a
            ∙ laws.kept s c q a w scope ex.question ex.answer ex.ground_truth_label v
                (same c q a ∙ k),
        (
          (
            v,
            flushed flush put scope ex.question ex.answer
                ∙ (laws.read_back s scope ex.question ex.answer ex.ground_truth_label v
                    ∙ ap (λ o. stored_or o v) (same scope ex.question ex.answer ∙ h)),
          ),
          tt,
        ),
        omega arith,
      )

  finish-Fills :
      (subset : List Example) (acc : Progress S) (x : Result (Unit {0}) × Progress S)
      → Fills st scope subset acc x
      → Fills st scope subset acc (finish st x)
  finish-Fills subset acc (err e, acc') h =
      λ c q a w k. laws.flush_apart acc'.store c q a ∙ h c q a w k
  finish-Fills subset acc (ok u, acc') h = (
    λ c q a w k. laws.flush_apart acc'.store c q a ∙ h.0 c q a w k,
    All-imp
        (λ ex there. (there.0, laws.flush_apart acc'.store scope ex.question ex.answer ∙ there.1))
        subset h.1,
    h.2,
  )

module _ {F T S : Type 0} ⦃d : Double F⦄ (p : FusionParams F) (llm : LlmConfig F)
    (st : ResultStore F S) (laws : IsLawful st) (scope : EvalScope F) where
  -- Predicting moves no verdict.
  use_fresh-apart :
      (q a q' a' : String) (c : EvalScope F) (s : S) (r : Result (PipelineResult F T))
      → st.get_verdict c q' a' (use_fresh p llm st scope q a s r).1 ≡ st.get_verdict c q' a' s
  use_fresh-apart q a q' a' c s (err e) = refl
  use_fresh-apart q a q' a' c s (ok r) = laws.signals_apart s c q' a' scope q a (signals_to_dict r)

  use_cached-apart :
      (compute_signals : String → String → Result (PipelineResult F T)) (q a q' a' : String)
      (c : EvalScope F) (s : S) (o : Result (Option (Signals F)))
      → st.get_verdict c q' a' (use_cached p llm st compute_signals scope q a s o).1
        ≡ st.get_verdict c q' a' s
  use_cached-apart compute_signals q a q' a' c s (err e) = refl
  use_cached-apart compute_signals q a q' a' c s (ok (some x)) = refl
  use_cached-apart compute_signals q a q' a' c s (ok none) =
      use_fresh-apart q a q' a' c s (compute_signals q a)

  predict-apart :
      (pipeline : EvalPipeline F T) (q a q' a' : String) (c : EvalScope F) (s : S)
      → st.get_verdict c q' a' (predict_via_signals p llm st pipeline scope q a s).1
        ≡ st.get_verdict c q' a' s
  unfolding predict_via_signals
  predict-apart (mock m) q a q' a' c s = refl
  predict-apart (staged compute_signals) q a q' a' c s =
      use_cached-apart compute_signals q a q' a' c s (st.get_signals scope q a s)

  use_verdict-Fills :
      (pipeline : EvalPipeline F T) (ex : Example) (i : ℕ) (acc : Progress S)
      (o : Result (Option Verdict))
      → st.get_verdict scope ex.question ex.answer acc.store ≡ o
      → Fills st scope (ex ∷ []) acc (use_verdict p llm st pipeline scope ex i acc o)
  use_verdict-Fills pipeline ex i acc (err e) h = λ c q a w k. k
  use_verdict-Fills pipeline ex i acc (ok (some w)) h = (λ c q a w k. k, ((w, h), tt), omega arith)
  use_verdict-Fills pipeline ex i acc (ok none) h =
      let (r, s) = predict_via_signals p llm st pipeline scope ex.question ex.answer acc.store in
      record-Fills st laws scope ex i acc r s
        (λ c q a. predict-apart pipeline ex.question ex.answer q a c acc.store) h

  round-Fills :
      (pipeline : EvalPipeline F T) (ex : Example) (i : ℕ) (acc : Progress S)
      → Fills st scope (ex ∷ []) acc (round p llm st pipeline scope ex i acc)
  unfolding round
  round-Fills pipeline ex i acc = use_verdict-Fills pipeline ex i acc _ refl

  evaluate_loop-Fills :
      (pipeline : EvalPipeline F T) (i : ℕ) (subset : List Example) (acc : Progress S)
      → Fills st scope subset acc (evaluate_loop p llm st pipeline scope i subset acc)
  unfolding evaluate_loop
  evaluate_loop-Fills pipeline i [] acc = (λ c q a w k. k, tt, omega arith)
  evaluate_loop-Fills pipeline i (ex ∷ subset) acc =
      let (r, acc') = round p llm st pipeline scope ex i acc in
      Fills-and_then st scope ex subset acc r acc'
        (evaluate_loop p llm st pipeline scope (i + 1) subset) (round-Fills pipeline ex i acc)
        (evaluate_loop-Fills pipeline (i + 1) subset)

  evaluate_model-Fills :
      (pipeline : EvalPipeline F T) (start : ℕ) (end : Option ℕ) (test_examples : List Example)
      (s : S)
      → Fills st scope
          (slice start (end_of end test_examples) test_examples)
          (record { store = s; n_cached = 0; n_computed = 0 })
          (evaluate_model p llm st pipeline scope start end test_examples s)
  unfolding evaluate_model
  evaluate_model-Fills pipeline start end test_examples s =
      let subset = slice start (end_of end test_examples) test_examples in
      let acc : Progress S = record { store = s; n_cached = 0; n_computed = 0 } in
      finish-Fills st laws scope subset acc (evaluate_loop p llm st pipeline scope 0 subset acc)
        (evaluate_loop-Fills pipeline 0 subset acc)

  -- On a lawful store, a run that raises no exception has stored a verdict for each example of its
  -- slice, and has counted each of them once, as read from the cache or as computed.
  pub evaluate_model_complete :
      (pipeline : EvalPipeline F T) (start : ℕ) (end : Option ℕ) (test_examples : List Example)
      (s : S) {acc : Progress S}
      → evaluate_model p llm st pipeline scope start end test_examples s ≡ (ok tt, acc)
      → All (Stored st scope acc.store) (slice start (end_of end test_examples) test_examples)
        × (acc.n_cached + acc.n_computed
            ≡ length (slice start (end_of end test_examples) test_examples))
  evaluate_model_complete pipeline start end test_examples s h =
      let fills = rw h at (evaluate_model-Fills pipeline start end test_examples s) in
      (fills.1, omega (arith, fills.2))

  -- On a lawful store, a verdict of any scope that is stored before a run reads the same after it,
  -- also where an exception ended the run.
  pub evaluate_model_kept :
      (pipeline : EvalPipeline F T) (start : ℕ) (end : Option ℕ) (test_examples : List Example)
      (s : S)
      → Keeps st scope s (evaluate_model p llm st pipeline scope start end test_examples s).1.store
  evaluate_model_kept pipeline start end test_examples s =
      Fills-Keeps st scope (slice start (end_of end test_examples) test_examples)
        (record { store = s; n_cached = 0; n_computed = 0 })
        (evaluate_model p llm st pipeline scope start end test_examples s)
        (evaluate_model-Fills pipeline start end test_examples s)
