-- ===== src/Evaluation/Gcp/Results/Generated.antt =====
-- `GcpResultStore`, mode 2: the answers of a model, and the verdicts on them.
use berlue.Base.{Bool, String, Option, List, [], ◌∷◌, ◌++◌, map_result, Eq}
use berlue.Base.Act.{lift, ◌>>=◌}
use berlue.Core.Schemas.{Verdict, verdict_value}
use berlue.Evaluation.Store.{EvalScope, generated_key, baseline_scope}
use berlue.Evaluation.Store.Generated.{answer_scope, judge_scope}
use berlue.Evaluation.Gcp.{str, Dict, Python, Name, Google, dict}
use berlue.Evaluation.Gcp.Rest.{Rest, get, query}
use berlue.Evaluation.Gcp.Results.{text_at, verdict_in, if_found, put_new, id_of}

module _ {F W : Type 0} ⦃e : Eq F⦄ (py : Python F) (hash : String → String) (g : Google F W)
    (isoformat : W → String) where
  -- A document by the columns of its key and its question.
  abbrev pub question_name : String → Dict F → String → Name
  question_name table key question = record {
    collection = table;
    doc_id = id_of py hash g isoformat key (question ∷ []);
  }

  abbrev pub read_verdict_of : String → Dict F → String → Rest F W (Option Verdict)
  read_verdict_of table key question = do
    doc ← get py g (question_name table key question)
    lift (if_found verdict_in doc)

  abbrev pub verdict_doc : Dict F → String → Verdict → String → Dict F
  verdict_doc key question verdict at =
      key
      ++ (("question", str question)
          ∷ ("verdict", str (verdict_value verdict))
          ∷ ("computed_at", str at)
          ∷ [])

  abbrev pub put_verdict_of : String → Dict F → String → Verdict → Rest F W Bool
  put_verdict_of table key question verdict =
      put_new py hash g isoformat (question_name table key question) table key
        (verdict_doc key question verdict)

  unfoldable pub get_generated_answer : String → String → String → Rest F W (Option String)
  get_generated_answer model_id generation_version question = do
    doc ←
        get py g
          (question_name "llm_answers" (dict (answer_scope model_id generation_version)) question)
    lift (if_found (text_at "answer") doc)

  abbrev pub answer_doc : String → String → String → String → String → Dict F
  answer_doc model_id generation_version question answer at =
      dict (answer_scope model_id generation_version)
      ++ (("question", str question) ∷ ("answer", str answer) ∷ ("computed_at", str at) ∷ [])

  unfoldable pub put_generated_answer : String → String → String → String → Rest F W Bool
  put_generated_answer model_id generation_version question answer =
      let key = dict (answer_scope model_id generation_version) in
      put_new py hash g isoformat (question_name "llm_answers" key question) "llm_answers" key
        (answer_doc model_id generation_version question answer)

  -- The set of the questions, as a list.
  unfoldable pub list_generated_answers : String → String → Rest F W (List String)
  list_generated_answers model_id generation_version = do
    docs ← query py g "llm_answers" (dict (answer_scope model_id generation_version))
    lift (map_result (text_at "question") docs)

  unfoldable pub get_judge_verdict :
      String → String → String → String → String → Rest F W (Option Verdict)
  get_judge_verdict model_id generation_version judge_model eval_version question =
      read_verdict_of "judge_verdicts"
        (dict (judge_scope model_id generation_version judge_model eval_version)) question

  unfoldable pub put_judge_verdict :
      String → String → String → String → String → Verdict → Rest F W Bool
  put_judge_verdict model_id generation_version judge_model eval_version question verdict =
      put_verdict_of "judge_verdicts"
        (dict (judge_scope model_id generation_version judge_model eval_version)) question verdict

  unfoldable pub get_generated_berlue_verdict : EvalScope F → String → Rest F W (Option Verdict)
  get_generated_berlue_verdict scope question =
      read_verdict_of "eval_berlue_generated" (dict (generated_key scope)) question

  unfoldable pub put_generated_berlue_verdict : EvalScope F → String → Verdict → Rest F W Bool
  put_generated_berlue_verdict scope question verdict =
      put_verdict_of "eval_berlue_generated" (dict (generated_key scope)) question verdict

  unfoldable pub get_generated_baseline_verdict :
      String → F → String → String → String → String → Rest F W (Option Verdict)
  get_generated_baseline_verdict dataset ratio model_id generation_version eval_version question =
      read_verdict_of "eval_baseline_generated"
        (dict (baseline_scope dataset ratio model_id generation_version eval_version)) question

  unfoldable pub put_generated_baseline_verdict :
      String → F → String → String → String → String → Verdict → Rest F W Bool
  put_generated_baseline_verdict dataset ratio model_id generation_version eval_version question
        verdict =
      put_verdict_of "eval_baseline_generated"
        (dict (baseline_scope dataset ratio model_id generation_version eval_version)) question
        verdict
