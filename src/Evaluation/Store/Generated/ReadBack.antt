-- ===== src/Evaluation/Store/Generated/ReadBack.antt =====
-- Mode 2 of `LocalResultStore`: reads after a put.
use berlue.Base.{◌≡◌, refl, true, String, Option, none, some, List, Eq, ==_refl, string_eq}
use berlue.Core.Schemas.{Verdict, verdict_value, verdict_of-verdict_value}
use berlue.Evaluation.Sql.{Row, Database, text, column, pick, matches, select_one}
use berlue.Evaluation.Sql.Reads.{update_self, first_or, select_one-insert_self}
use berlue.Evaluation.Store.{
  EvalScope, read_verdict, verdict_from, put_row, generated_key, baseline_scope,
}
use berlue.Evaluation.Store.Tables.{answer_key, judge_key, berlue_key, baseline_key}
use berlue.Evaluation.Store.Verdicts.{stored_or, stored_or_read}
use berlue.Evaluation.Store.Generated.{
  answer_scope, judge_scope, question_key, read_answer, answer_row, verdict_row,
  get_generated_answer, put_generated_answer, get_judge_verdict, put_judge_verdict,
  get_generated_berlue_verdict, put_generated_berlue_verdict, get_generated_baseline_verdict,
  put_generated_baseline_verdict,
}

-- The answer that is stored, or else the new one.
abbrev pub answer_or : Option String → String → String
answer_or none a = a
answer_or (some b) a = b

module _ {F : Type 0} ⦃e : Eq F⦄ (hash : String → String) where
  read-first_or :
      (o : Option (Row F)) (v : Verdict) (new : Row F)
      → column "verdict" new ≡ text (verdict_value v)
      → read_verdict (some (first_or o new)) ≡ stored_or (read_verdict o) v
  read-first_or none v new h = rw (h, verdict_of-verdict_value v, verdict_from)
  read-first_or (some r) v new h = stored_or_read (verdict_from (column "verdict" r)) v

  -- One table of verdicts: the verdict that is put is read back, or else the one that was there.
  read-put_row :
      (t : String) (unique : List String) (new : Row F) (v : Verdict) (db : Database F)
      → matches (pick unique new) new ≡ true
      → column "verdict" new ≡ text (verdict_value v)
      → read_verdict (select_one (pick unique new) ((put_row t unique new db).0 t))
        ≡ stored_or (read_verdict (select_one (pick unique new) (db t))) v
  read-put_row t unique new v db there col =
      rw (update_self, select_one-insert_self unique new (db t) there)
        (read-first_or (select_one (pick unique new) (db t)) v new col)

  judge_row-matches :
      (s : EvalScope F) (j q : String) (v : Verdict) (now : String)
      → matches
          (question_key hash
            (judge_scope {F = F} s.model_id s.generation_version j s.eval_version)
            q)
          (verdict_row hash (judge_scope s.model_id s.generation_version j s.eval_version) q v now)
        ≡ true
  unfolding matches
  judge_row-matches s j q v now = simp (==_refl {A = String})

  berlue_row-matches :
      (s : EvalScope F) (q : String) (v : Verdict) (now : String)
      → matches (question_key hash (generated_key s) q) (verdict_row hash (generated_key s) q v now)
        ≡ true
  unfolding matches
  berlue_row-matches s q v now = simp (==_refl {A = String}, ==_refl {A = F})

  baseline_row-matches :
      (d : String) (r : F) (m g ev q : String) (v : Verdict) (now : String)
      → matches
          (question_key hash (baseline_scope d r m g ev) q)
          (verdict_row hash (baseline_scope d r m g ev) q v now)
        ≡ true
  unfolding matches
  baseline_row-matches d r m g ev q v now = simp (==_refl {A = String}, ==_refl {A = F})

  -- The three tables of verdicts of mode 2: for the key of what is put, the read gives the verdict
  -- that was stored before, and the new one where there was none.
  pub generated_verdicts-put_self :
      (s : EvalScope F) (j q : String) (v : Verdict) (now : String) (db : Database F)
      → (get_judge_verdict hash s.model_id s.generation_version j s.eval_version q
            (put_judge_verdict hash s.model_id s.generation_version j s.eval_version q v now db).0
          ≡ stored_or
              (get_judge_verdict hash s.model_id s.generation_version j s.eval_version q db)
              v)
        × (get_generated_berlue_verdict hash s q (put_generated_berlue_verdict hash s q v now db).0
            ≡ stored_or (get_generated_berlue_verdict hash s q db) v)
        × (get_generated_baseline_verdict hash s.dataset s.ratio s.model_id s.generation_version
              s.eval_version q
              (put_generated_baseline_verdict hash s.dataset s.ratio s.model_id s.generation_version
                s.eval_version q v now db).0
            ≡ stored_or
                (get_generated_baseline_verdict hash s.dataset s.ratio s.model_id
                  s.generation_version s.eval_version q db)
                v)
  unfolding get_judge_verdict put_judge_verdict get_generated_berlue_verdict
      put_generated_berlue_verdict get_generated_baseline_verdict put_generated_baseline_verdict
  generated_verdicts-put_self s j q v now db = (
    read-put_row "judge_verdicts" judge_key
        (verdict_row hash (judge_scope s.model_id s.generation_version j s.eval_version) q v now) v
        db (judge_row-matches s j q v now) refl,
    read-put_row "eval_berlue_generated" berlue_key (verdict_row hash (generated_key s) q v now) v
        db (berlue_row-matches s q v now) refl,
    read-put_row "eval_baseline_generated" baseline_key
        (verdict_row hash
          (baseline_scope s.dataset s.ratio s.model_id s.generation_version s.eval_version) q v now)
        v db
        (baseline_row-matches s.dataset s.ratio s.model_id s.generation_version s.eval_version q v
          now)
        refl,
  )

answer_row-matches :
    (F : Type 0) ⦃e : Eq F⦄ (hash : String → String) (m g q a now : String)
    → matches {F = F} (question_key hash (answer_scope m g) q) (answer_row hash m g q a now) ≡ true
unfolding matches
answer_row-matches F hash m g q a now = simp (==_refl {A = String})

module _ {F : Type 0} ⦃e : Eq F⦄ (hash : String → String) where
  read_answer-first_or :
      (o : Option (Row F)) (m g q a now : String)
      → read_answer (some (first_or o (answer_row hash m g q a now)))
        ≡ some (answer_or (read_answer o) a)
  read_answer-first_or none m g q a now = refl
  read_answer-first_or (some r) m g q a now = refl

  -- The answer to a question that is read after a put is the one that was stored before, and the
  -- new one where there was none: a model is asked once.
  pub get_generated_answer-put_self :
      (m g q a now : String) (db : Database F)
      → get_generated_answer hash m g q (put_generated_answer hash m g q a now db).0
        ≡ some (answer_or (get_generated_answer hash m g q db) a)
  unfolding get_generated_answer put_generated_answer
  get_generated_answer-put_self m g q a now db =
      rw
        (
          update_self,
          select_one-insert_self answer_key (answer_row hash m g q a now) (db "llm_answers")
              (answer_row-matches F hash m g q a now),
        )
        (read_answer-first_or
          (select_one (question_key hash (answer_scope m g) q) (db "llm_answers")) m g q a now)
