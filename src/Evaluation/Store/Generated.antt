-- ===== src/Evaluation/Store/Generated.antt =====
-- `LocalResultStore`, mode 2: the answers that a model generated, and the verdicts of the judge, of
-- Berlue and of the baseline on them, each in a table of its own.
pub mod ReadBack
use berlue.Base.{ℕ, Bool, String, Option, none, some, List, [], ◌∷◌, ◌++◌, map, Eq, Result, ok}
use berlue.Core.Schemas.{Verdict, verdict_value}
use berlue.Evaluation.Sql.{text, Row, Filters, Database, column, select_one, select_all}
use berlue.Evaluation.Store.{
  EvalScope, read_verdict, as_text, put_row, generated_key, baseline_scope,
}
use berlue.Evaluation.Store.Tables.{answer_key, judge_key, berlue_key, baseline_key}

module _ {F : Type 0} where
  abbrev pub answer_scope : String → String → Filters F
  answer_scope model_id generation_version =
      ("model_id", text model_id) ∷ ("generation_version", text generation_version) ∷ []

  abbrev pub judge_scope : String → String → String → String → Filters F
  judge_scope model_id generation_version judge_model eval_version =
      answer_scope model_id generation_version
      ++ (("judge_model", text judge_model) ∷ ("eval_version", text eval_version) ∷ [])

  abbrev pub read_answer : Option (Row F) → Option String
  read_answer none = none
  read_answer (some row) = some (as_text (column "answer" row))

module _ {F : Type 0} ⦃e : Eq F⦄ (hash : String → String) where
  -- The columns of a key, then the hash of the question.
  abbrev pub question_key : Filters F → String → Filters F
  question_key scope question = scope ++ (("question_hash", text (hash question)) ∷ [])

  -- The columns that the tables of verdicts have in common behind the key.
  abbrev pub verdict_row : Filters F → String → Verdict → String → Row F
  verdict_row scope question verdict now =
      question_key scope question
      ++ (("question", text question)
          ∷ ("verdict", text (verdict_value verdict))
          ∷ ("computed_at", text now)
          ∷ [])

  unfoldable pub get_generated_answer : String → String → String → Database F → Option String
  get_generated_answer model_id generation_version question db = read_answer (
      select_one (question_key (answer_scope model_id generation_version) question)
        (db "llm_answers"))

  abbrev pub answer_row : String → String → String → String → String → Row F
  answer_row model_id generation_version question answer now =
      question_key (answer_scope model_id generation_version) question
      ++ (("question", text question) ∷ ("answer", text answer) ∷ ("computed_at", text now) ∷ [])

  unfoldable pub put_generated_answer :
      String → String → String → String → String → Database F → Database F × Bool
  put_generated_answer model_id generation_version question answer now =
      put_row "llm_answers" answer_key (answer_row model_id generation_version question answer now)

  -- The set of the questions, as a list.
  abbrev pub list_generated_answers : String → String → Database F → List String
  list_generated_answers model_id generation_version db =
      map (λ row. as_text (column "question" row))
        (select_all (answer_scope model_id generation_version) (db "llm_answers"))

  unfoldable pub get_judge_verdict :
      String → String → String → String → String → Database F → Result (Option Verdict)
  get_judge_verdict model_id generation_version judge_model eval_version question db =
      read_verdict (
        select_one
          (question_key (judge_scope model_id generation_version judge_model eval_version) question)
          (db "judge_verdicts"))

  unfoldable pub put_judge_verdict :
      String → String → String → String → String → Verdict → String → Database F → Database F × Bool
  put_judge_verdict model_id generation_version judge_model eval_version question verdict now =
      put_row "judge_verdicts" judge_key (
        verdict_row (judge_scope model_id generation_version judge_model eval_version) question
          verdict now)

  unfoldable pub get_generated_berlue_verdict :
      EvalScope F → String → Database F → Result (Option Verdict)
  get_generated_berlue_verdict scope question db =
      read_verdict
        (select_one (question_key (generated_key scope) question) (db "eval_berlue_generated"))

  unfoldable pub put_generated_berlue_verdict :
      EvalScope F → String → Verdict → String → Database F → Database F × Bool
  put_generated_berlue_verdict scope question verdict now =
      put_row "eval_berlue_generated" berlue_key
        (verdict_row (generated_key scope) question verdict now)

  unfoldable pub get_generated_baseline_verdict :
      String → F → String → String → String → String → Database F → Result (Option Verdict)
  get_generated_baseline_verdict dataset ratio model_id generation_version eval_version question
        db =
      read_verdict (
        select_one
          (question_key (baseline_scope dataset ratio model_id generation_version eval_version)
            question)
          (db "eval_baseline_generated"))

  unfoldable pub put_generated_baseline_verdict :
      String
      → F
      → String
      → String
      → String
      → String
      → Verdict
      → String
      → Database F
      → Database F × Bool
  put_generated_baseline_verdict dataset ratio model_id generation_version eval_version question
        verdict now =
      put_row "eval_baseline_generated" baseline_key (
        verdict_row (baseline_scope dataset ratio model_id generation_version eval_version) question
          verdict now)
