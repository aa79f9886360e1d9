-- ===== src/Evaluation/RunEval/Generated.antt =====
-- `evaluate_model_generated` of berlue/evaluation/run_eval.py: mode 2, whose three stages fill the
-- caches of the answers, of Berlue's verdicts and of the judge's. The store is an interface at the
-- scope of the run; the generation, the pipeline and the judge are parameters. A slice and the order
-- of the questions are those of the caller's list; the timers, the warm-up and the printed lines are
-- left out.
pub mod Filled
pub mod Local
mod Examples
use berlue.Base.{
  ℕ, Bool, true, false, String, ◌<>◌, Option, none, some, List, [], ◌∷◌, select, Result, ok, err,
  ◌>>=◌, value_error, other_error, if◌then◌else◌,
}
use berlue.Core.Schemas.{Verdict}
use berlue.Api.Schemas.{PredictOutput}
use berlue.Evaluation.RunEval.Aggregate.{aggregate_verdict}
use berlue.Evaluation.RunEval.Grouping.{References, Grouped, no_answers, lookup}
use berlue.Evaluation.RunEval.Stage.{Stage, Desk, Turn, outcome, take_turns, missing, new_desk}

-- What mode 2 asks of a store, at the scope of the run.
pub record GeneratedStore (S : Type 0) : Type 0 where
  pub get_generated_answer : S → String → Option String
  pub put_generated_answer : String → String → S → S
  pub get_generated_berlue_verdict : S → String → Result (Option Verdict)
  pub put_generated_berlue_verdict : String → Verdict → S → S
  pub get_judge_verdict : S → String → Result (Option Verdict)
  pub put_judge_verdict : String → Verdict → S → S
  pub flush_registry : S → S

-- What the workers call: the generation, `pipeline.predict` and `judge_answer`.
pub record Workers (F : Type 0) : Type 0 where
  pub generate : String → Result String
  pub predict : String → Option String → Result (PredictOutput F)
  pub judge_answer : String → String → List String → Option String → Result Verdict

abbrev pub generation_instruction : String
generation_instruction = "Answer clearly and concisely, in 3 to 5 sentences maximum."

abbrev pub is_full : List String → Bool
is_full [] = false
is_full (a ∷ as') = true

-- Both kinds of reference answers are there.
unfoldable pub has_references : Grouped → String → Bool
has_references grouped q = elim (lookup q grouped) [
  | none ↦ false
  | some r ↦ if is_full r.correct_answers then is_full r.incorrect_answers else false
]

-- `subset`
abbrev pub valid_questions : Grouped → List String → List String
valid_questions grouped candidates = select (has_references grouped) candidates

abbrev pub first_of : List String → Result String
first_of [] = err (other_error "IndexError")
first_of (a ∷ as') = ok a

abbrev pub references_of : Option References → Result References
references_of none = err (other_error "KeyError")
references_of (some r) = ok r

module _ {F S : Type 0} (st : GeneratedStore S) (w : Workers F) where
  -- `_generate_one`
  abbrev pub generation : Stage S String
  generation = record {
    get = λ s q. ok (st.get_generated_answer s q);
    put = st.put_generated_answer;
    work = λ s q. w.generate (q <> ("\n\n[Instruction: " <> (generation_instruction <> "]")));
    flush = st.flush_registry;
  }

  unfoldable pub berlue_verdict : String → Option String → Result Verdict
  berlue_verdict question answer = do
    out ← w.predict question answer
    ok (aggregate_verdict out.claims)

  -- `_berlue_one`
  abbrev pub fact_check : Stage S Verdict
  fact_check = record {
    get = st.get_generated_berlue_verdict;
    put = st.put_generated_berlue_verdict;
    work = λ s q. berlue_verdict q (st.get_generated_answer s q);
    flush = st.flush_registry;
  }

  unfoldable pub judge_verdict : Grouped → String → Option String → Result Verdict
  judge_verdict grouped question answer = do
    refs ← references_of (lookup question grouped)
    correct ← first_of refs.correct_answers
    w.judge_answer question correct refs.incorrect_answers answer

  -- `_judge_one`
  abbrev pub judge_stage : Grouped → Stage S Verdict
  judge_stage grouped = record {
    get = st.get_judge_verdict;
    put = st.put_judge_verdict;
    work = λ s q. judge_verdict grouped q (st.get_generated_answer s q);
    flush = st.flush_registry;
  }

-- How a stage ended, if it has, the store, and the count towards the next flush.
pub record Ending (S : Type 0) : Type 0 where
  pub result : Option (Result (Unit {0}))
  pub store : S
  pub n_flushed : ℕ

module _ {S V : Type 0} (st : Stage S V) where
  abbrev pub run_todo : ℕ → List Turn → S → ℕ → Result (List String) → Ending S
  run_todo concurrency turns s n (err e) = record {
    result = some (err e);
    store = s;
    n_flushed = n;
  }
  run_todo concurrency turns s n (ok todo) =
      let d = take_turns st concurrency turns (new_desk st s n todo) in
      record { result = outcome d.jobs; store = d.store; n_flushed = d.n_flushed }

  -- `_run_pool` on the questions without a value.
  unfoldable pub run_stage : ℕ → List String → List Turn → S → ℕ → Ending S
  run_stage concurrency subset turns s n = run_todo concurrency turns s n (missing st s subset)

module _ {S : Type 0} where
  -- The next stage begins where the one before it has ended without an exception.
  abbrev pub then_stage_at : Ending S → Option (Result (Unit {0})) → (S → ℕ → Ending S) → Ending S
  then_stage_at x (some (ok u)) next = next x.store x.n_flushed
  then_stage_at x _ next = x

  abbrev pub then_stage : Ending S → (S → ℕ → Ending S) → Ending S
  then_stage x next = then_stage_at x x.result next

module _ {F S : Type 0} (st : GeneratedStore S) (w : Workers F) where
  -- The turns of the three stages; the `finally` flushes the registry however they end.
  unfoldable pub evaluate_model_generated :
      ℕ → Grouped → List String → List Turn → List Turn → List Turn → S → Ending S
  evaluate_model_generated concurrency grouped candidates generating checking judging s =
      let subset = valid_questions grouped candidates in
      let x =
        then_stage
          (then_stage (run_stage (generation st w) concurrency subset generating s 0)
            (run_stage (fact_check st w) concurrency subset checking))
          (run_stage (judge_stage st w grouped) concurrency subset judging) in
      record x { store = st.flush_registry x.store }
