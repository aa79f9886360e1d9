-- ===== src/Evaluation/RunEval/Generated/Local.antt =====
-- `LocalResultStore` of berlue/evaluation/result_store.py as the store of mode 2, for the scope, the
-- model that judges and the versions of one run. Its state is the database and the ticks of the
-- clock.
use berlue.Base.{
  ℕ, ◌+◌, ◌≡◌, refl, ap, ◌∙◌, false, String, Option, none, some, List, Result, ok, err, Eq, ◌==◌,
  ==_iff, ==_refl, string_eq, if◌then◌else◌, Bool-cases, inl, inr,
}
use mathlib.Core.Path.{subst}
use berlue.Core.Schemas.{Verdict}
use berlue.Evaluation.Sql.{Row, Filters, Database, update, matches, select_one}
use berlue.Evaluation.Sql.Reads.{update_self, select_one-insert_ne}
use berlue.Evaluation.Store.{EvalScope, read_verdict, put_row, generated_key, flush_registry}
use berlue.Evaluation.Store.Tables.{answer_key, judge_key, berlue_key}
use berlue.Evaluation.Store.Verdicts.{stored_or}
use berlue.Evaluation.Store.Generated.{
  answer_scope, judge_scope, question_key, read_answer, answer_row, verdict_row,
  get_generated_answer, put_generated_answer, get_judge_verdict, put_judge_verdict,
  get_generated_berlue_verdict, put_generated_berlue_verdict,
}
use berlue.Evaluation.Store.Generated.ReadBack.{
  answer_or, generated_verdicts-put_self, get_generated_answer-put_self,
}
use berlue.Evaluation.RunEval.Stage.Writes.{or_first}
use berlue.Evaluation.RunEval.Generated.{GeneratedStore}
use berlue.Evaluation.RunEval.Generated.Filled.{IsLawfulGenerated}

stored_or-or_first : (r : Result (Option Verdict)) (v : Verdict) → stored_or r v ≡ or_first v r
stored_or-or_first (ok none) v = refl
stored_or-or_first (ok (some w)) v = refl
stored_or-or_first (err x) v = refl

answer_or-or_first :
    (o : Option String) (a : String) → ok (some (answer_or o a)) ≡ or_first a (ok o)
answer_or-or_first none a = refl
answer_or-or_first (some b) a = refl

-- What is read at one question after a put at another is told by whether the two are the same.
at_question :
    {A : Type 0} (q q' : String) (read : String → A) (old : String → A) (new : A → A)
    → read q ≡ new (old q)
    → ((q == q') ≡ false → read q' ≡ old q')
    → read q' ≡ (if q == q' then new (old q') else old q')
at_question q q' read old new here there = elim (Bool-cases (q == q')) [
  | inl same ↦ rw same (subst (λ k. read k ≡ new (old k)) ((==_iff q q').0 same) here)
  | inr other ↦ rw other (there other)
]

module _ {F : Type 0} ⦃e : Eq F⦄ (hash : String → String) (stamp : ℕ → String) (scope : EvalScope F)
    (judge_model : String) where
  abbrev pub local_generated : GeneratedStore (Database F × ℕ)
  local_generated = record {
    get_generated_answer =
        λ s q. get_generated_answer hash scope.model_id scope.generation_version q s.0;
    put_generated_answer = λ q a s. (
      (put_generated_answer hash scope.model_id scope.generation_version q a (stamp s.1) s.0).0,
      s.1 + 1,
    );
    get_generated_berlue_verdict = λ s q. get_generated_berlue_verdict hash scope q s.0;
    put_generated_berlue_verdict =
        λ q v s. ((put_generated_berlue_verdict hash scope q v (stamp s.1) s.0).0, s.1 + 1);
    get_judge_verdict = λ s q.
        get_judge_verdict hash scope.model_id scope.generation_version judge_model
          scope.eval_version q s.0;
    put_judge_verdict = λ q v s. (
      (put_judge_verdict hash scope.model_id scope.generation_version judge_model scope.eval_version
          q v (stamp s.1) s.0).0,
      s.1 + 1,
    );
    flush_registry = λ s. (flush_registry s.0, s.1);
  }

  read-put_other :
      (t : String) (unique : List String) (f : Filters F) (new : Row F) (db : Database F)
      → matches f new ≡ false
      → select_one f ((put_row t unique new db).0 t) ≡ select_one f (db t)
  read-put_other t unique f new db h = rw update_self (select_one-insert_ne f unique new (db t) h)

  module _ (separate : (q q' : String) → hash q ≡ hash q' → q ≡ q') where
    hash_other : (q q' : String) → (q == q') ≡ false → (hash q == hash q') ≡ false
    hash_other q q' h = elim (Bool-cases (hash q == hash q')) [
      | inl same ↦
          absurd (cc (h, (==_iff q q').1 (separate q q' ((==_iff (hash q) (hash q')).0 same))))
      | inr other ↦ other
    ]

    judge_row-other :
        (q q' : String) (v : Verdict) (now : String)
        → (q == q') ≡ false
        → matches
            (question_key hash
              (judge_scope {F = F} scope.model_id scope.generation_version judge_model
                scope.eval_version)
              q')
            (verdict_row hash
              (judge_scope scope.model_id scope.generation_version judge_model scope.eval_version)
              q
              v
              now)
          ≡ false
    unfolding matches
    judge_row-other q q' v now h = simp (==_refl {A = String}, hash_other q q' h)

    berlue_row-other :
        (q q' : String) (v : Verdict) (now : String)
        → (q == q') ≡ false
        → matches
            (question_key hash (generated_key scope) q')
            (verdict_row hash (generated_key scope) q v now)
          ≡ false
    unfolding matches
    berlue_row-other q q' v now h = simp (==_refl {A = String}, ==_refl {A = F}, hash_other q q' h)

    answer_row-other :
        (q q' a now : String)
        → (q == q') ≡ false
        → matches {F = F}
            (question_key hash (answer_scope scope.model_id scope.generation_version) q')
            (answer_row hash scope.model_id scope.generation_version q a now)
          ≡ false
    unfolding matches
    answer_row-other q q' a now h = simp (==_refl {A = String}, hash_other q q' h)

    -- The local store keeps what mode 2 relies on, where the hash tells questions apart: each of
    -- the three caches keeps the first value for a question, and no other put moves it.
    pub local_generated-IsLawful : IsLawfulGenerated local_generated
    unfolding get_generated_answer put_generated_answer get_judge_verdict put_judge_verdict
        get_generated_berlue_verdict put_generated_berlue_verdict update
    local_generated-IsLawful = record {
      answer-put = λ q q' a s.
          at_question q q'
            (λ k.
              ok (
                local_generated.get_generated_answer (local_generated.put_generated_answer q a s)
                  k))
            (λ k. ok (local_generated.get_generated_answer s k)) (or_first a)
            (ap ok (
                get_generated_answer-put_self hash scope.model_id scope.generation_version q a
                  (stamp s.1) s.0)
              ∙ answer_or-or_first (local_generated.get_generated_answer s q) a)
            (λ other.
              ap (λ o. ok (read_answer o))
                (read-put_other "llm_answers" answer_key _ _ s.0
                  (answer_row-other q q' a (stamp s.1) other)));
      berlue-put = λ q q' v s.
          at_question q q'
            (local_generated.get_generated_berlue_verdict
              (local_generated.put_generated_berlue_verdict q v s))
            (local_generated.get_generated_berlue_verdict s) (or_first v)
            ((generated_verdicts-put_self hash scope judge_model q v (stamp s.1) s.0).1
              ∙ stored_or-or_first _ v)
            (λ other. ap read_verdict (
              read-put_other "eval_berlue_generated" berlue_key _ _ s.0
                (berlue_row-other q q' v (stamp s.1) other)));
      judge-put = λ q q' v s.
          at_question q q'
            (local_generated.get_judge_verdict (local_generated.put_judge_verdict q v s))
            (local_generated.get_judge_verdict s) (or_first v)
            ((generated_verdicts-put_self hash scope judge_model q v (stamp s.1) s.0).0
              ∙ stored_or-or_first _ v)
            (λ other. ap read_verdict (
              read-put_other "judge_verdicts" judge_key _ _ s.0
                (judge_row-other q q' v (stamp s.1) other)));
      answer-berlue = λ q q' v s. refl;
      answer-judge = λ q q' v s. refl;
      berlue-judge = λ q q' v s. refl;
      answer-flush = λ q s. refl;
      berlue-flush = λ q s. refl;
      judge-flush = λ q s. refl;
    }
