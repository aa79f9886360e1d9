-- ===== src/Pipeline/HurluBerlu.antt =====
-- berlue/pipeline/hurlu_berlu.py: a question becomes an answer, affirmations, the two branches and
-- the fusion. The branches run in two threads that share nothing; the RAG's result is read first, so
-- where both raise its exception is told. What the threads of each pool decide is a list of moves.
pub mod Sourced
use berlue.Base.{ℕ, String, Option, none, some, List, [], Result, ok, err, ◌>>=◌}
use berlue.Base.Double.{Double, nought}
use berlue.Core.Schemas.{Claim, PipelineResult}
use berlue.Pipeline.Parallel.{Move}
use berlue.Pipeline.Fusion.{FusionParams, do_fusion}
use berlue.Pipeline.Extraction.{Tools, do_extraction}
use berlue.Llm.Client.{Auth, Http, Client, Options, Answer, generate}
use berlue.Rag.Retriever.{Trace, Corpus, verify_claims}
use berlue.Selfcheck.Branch.{SelfCheckParams, run_selfcheck}

-- The clients and the retriever of `HurluBerlu`, what they call, and the parameters that the stages
-- read. `answer_prompt` and `extract_prompt` are the `format` of the two system prompts.
pub record HurluBerlu (F C : Type 0) : Type 0 where
  pub llm_client : Client F C
  pub llm_extract : Client F C
  pub auth : Auth C
  pub post : Http → String → String → Options F → Answer
  pub elapsed : F
  pub tools : Tools F
  pub corpus : Corpus F
  pub predict : List String → List String → Result (List F)
  pub answer_prompt : String → String
  pub extract_prompt : String → String → String
  pub num_predict_answer : ℕ
  pub num_predict_extraction : ℕ
  pub rag_workers : ℕ
  pub selfcheck : SelfCheckParams F
  pub fusion : FusionParams F

-- What the threads of the three pools do.
pub record Schedule : Type 0 where
  pub rag : List Move
  pub samples : List Move
  pub scores : List Move

module _ {F C : Type 0} ⦃d : Double F⦄ (h : HurluBerlu F C) (now : ℕ) where
  unfoldable pub generate_answer : String → Result String
  generate_answer question =
      generate h.auth h.post h.elapsed now h.llm_client (h.answer_prompt question) none
        (some h.num_predict_answer)

  unfoldable pub extract_claims : String → String → Result (List Claim)
  extract_claims question answer =
      do_extraction h.tools
        (λ q a.
          generate h.auth h.post h.elapsed now h.llm_extract (h.extract_prompt q a) (some nought)
            (some h.num_predict_extraction))
        question answer

  -- `answer if answer is not None else self.generate_answer(question)`
  abbrev pub answer_or_generate : String → Option String → Result String
  answer_or_generate question none = generate_answer question
  answer_or_generate question (some answer) = ok answer

  unfoldable pub compute_signals :
      Schedule → String → Option String → Result (PipelineResult F (Trace F))
  compute_signals sched question answer = do
    raw_answer ← answer_or_generate question answer
    claims ← extract_claims question raw_answer
    rag ← verify_claims h.corpus sched.rag h.rag_workers claims
    selfcheck ←
        run_selfcheck h.predict h.auth h.post h.elapsed h.answer_prompt h.selfcheck sched.samples
          sched.scores now h.llm_client question claims
    ok (record {
      question = question;
      raw_answer = raw_answer;
      claims = claims;
      samples = selfcheck.samples;
      selfcheck_scores = selfcheck.scores;
      rag_scores = rag.verdicts;
      fused_verdicts = [];
      rag_traces = rag.traces;
      panne = rag.panne;
    })

  unfoldable pub run : Schedule → String → Option String → Result (PipelineResult F (Trace F))
  run sched question answer = do
    signals ← compute_signals sched question answer
    do_fusion h.fusion signals
