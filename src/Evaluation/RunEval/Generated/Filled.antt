-- ===== src/Evaluation/RunEval/Generated/Filled.antt =====
-- berlue/evaluation/run_eval.py: what a run of mode 2 leaves in the three caches.
use berlue.Base.{
  ℕ, ◌≡◌, refl, ap, sym, ◌∙◌, inl, inr, String, Option, none, some, List, [], ◌∷◌, Result, ok, err,
  All, All-imp, ◌%◌, ◌+◌, ◌==◌, string_eq, nat_eq, ltb, if◌then◌else◌, Bool-cases,
}
use mathlib.Core.Path.{subst}
use berlue.Core.Schemas.{Verdict}
use berlue.Evaluation.RunEval.{flush_every}
use berlue.Evaluation.RunEval.Grouping.{Grouped}
use berlue.Evaluation.RunEval.Stage.{
  Stage, Desk, Turn, take_job, compute, write, register, count_busy, value_at, awaits_at,
  maybe_flush_registry, write_job, register_job, take_turn, take_turns, missing, new_desk,
}
use berlue.Evaluation.RunEval.Stage.Writes.{IsLawfulStage, or_first}
use berlue.Evaluation.RunEval.Stage.Complete.{stage_complete}
use berlue.Evaluation.RunEval.Generated.{
  GeneratedStore, Workers, valid_questions, generation, fact_check, judge_stage, berlue_verdict,
  judge_verdict, Ending, run_todo, run_stage, then_stage_at, then_stage, evaluate_model_generated,
}

-- What a stage does not write it does not move.
module _ {S V X : Type 0} (st : Stage S V) (view : S → X)
    (put_apart : (q : String) (v : V) (s : S) → view (st.put q v s) ≡ view s)
    (flush_apart : (s : S) → view (st.flush s) ≡ view s) where
  maybe_flush_apart : (n : ℕ) (s : S) → view (maybe_flush_registry st n s) ≡ view s
  maybe_flush_apart n s = elim (Bool-cases (n % flush_every == 0)) [
    | inl flushed ↦ rw flushed (flush_apart s)
    | inr later ↦ rw later
  ]

  write_job_apart :
      (n : ℕ) (d : Desk S V) (o : Option (String × V))
      → view (write_job st n d o).store ≡ view d.store
  write_job_apart n d none = refl
  write_job_apart n d (some (q, v)) = put_apart q v d.store

  register_job_apart : (n : ℕ) (d : Desk S V) → view (register_job st n d).store ≡ view d.store
  register_job_apart n d = elim (Bool-cases (awaits_at n d.jobs)) [
    | inl waits ↦ rw waits (maybe_flush_apart (d.n_flushed + 1) d.store)
    | inr idle ↦ rw idle
  ]

  take_turn_apart :
      (c : ℕ) (t : Turn) (d : Desk S V) → view (take_turn st c t d).store ≡ view d.store
  unfolding take_turn
  take_turn_apart c take_job d = elim (Bool-cases (ltb (count_busy d.jobs) c)) [
    | inl free ↦ rw free
    | inr full ↦ rw full
  ]
  take_turn_apart c (compute n) d = refl
  take_turn_apart c (write n) d = write_job_apart n d (value_at n d.jobs)
  take_turn_apart c (register n) d = register_job_apart n d

  take_turns_apart :
      (c : ℕ) (ts : List Turn) (d : Desk S V) → view (take_turns st c ts d).store ≡ view d.store
  unfolding take_turns
  take_turns_apart c [] d = refl
  take_turns_apart c (t ∷ ts) d = take_turns_apart c ts (take_turn st c t d) ∙ take_turn_apart c t d

  run_todo_apart :
      (c n : ℕ) (ts : List Turn) (s : S) (r : Result (List String))
      → view (run_todo st c ts s n r).store ≡ view s
  run_todo_apart c n ts s (err e) = refl
  run_todo_apart c n ts s (ok todo) = take_turns_apart c ts (new_desk st s n todo)

  run_stage_apart :
      (c n : ℕ) (subset : List String) (ts : List Turn) (s : S)
      → view (run_stage st c subset ts s n).store ≡ view s
  unfolding run_stage
  run_stage_apart c n subset ts s = run_todo_apart c n ts s (missing st s subset)

-- The promises of the store: each of the three caches keeps the first value that is put for a
-- question, and nothing else moves it.
pub record IsLawfulGenerated {S : Type 0} (st : GeneratedStore S) : Type 0 where
  pub answer-put :
      (q q' a : String) (s : S)
      → ok (st.get_generated_answer (st.put_generated_answer q a s) q') ≡ (
          if q == q'
          then or_first a (ok (st.get_generated_answer s q'))
          else ok (st.get_generated_answer s q'))
  pub berlue-put :
      (q q' : String) (v : Verdict) (s : S)
      → st.get_generated_berlue_verdict (st.put_generated_berlue_verdict q v s) q' ≡ (
          if q == q'
          then or_first v (st.get_generated_berlue_verdict s q')
          else st.get_generated_berlue_verdict s q')
  pub judge-put :
      (q q' : String) (v : Verdict) (s : S)
      → st.get_judge_verdict (st.put_judge_verdict q v s) q'
        ≡ (if q == q' then or_first v (st.get_judge_verdict s q') else st.get_judge_verdict s q')
  pub answer-berlue :
      (q q' : String) (v : Verdict) (s : S)
      → st.get_generated_answer (st.put_generated_berlue_verdict q v s) q'
        ≡ st.get_generated_answer s q'
  pub answer-judge :
      (q q' : String) (v : Verdict) (s : S)
      → st.get_generated_answer (st.put_judge_verdict q v s) q' ≡ st.get_generated_answer s q'
  pub berlue-judge :
      (q q' : String) (v : Verdict) (s : S)
      → st.get_generated_berlue_verdict (st.put_judge_verdict q v s) q'
        ≡ st.get_generated_berlue_verdict s q'
  pub answer-flush :
      (q : String) (s : S)
      → st.get_generated_answer (st.flush_registry s) q ≡ st.get_generated_answer s q
  pub berlue-flush :
      (q : String) (s : S)
      → st.get_generated_berlue_verdict (st.flush_registry s) q
        ≡ st.get_generated_berlue_verdict s q
  pub judge-flush :
      (q : String) (s : S) → st.get_judge_verdict (st.flush_registry s) q ≡ st.get_judge_verdict s q

-- A value is stored for each question.
abbrev pub AllStored : {S V : Type 0} → Stage S V → S → List String → Type 0
AllStored {V = V} st s = All (λ q. (v : V) × (st.get s q ≡ ok (some v)))

module _ {S V : Type 0} (st : Stage S V) (lawful : IsLawfulStage st) where
  run_stage-AllStored :
      (c n : ℕ) (subset : List String) (ts : List Turn) (s : S)
      → (run_stage st c subset ts s n).result ≡ some (ok tt)
      → AllStored st (run_stage st c subset ts s n).store subset
  unfolding run_stage
  run_stage-AllStored c n subset ts s e = go (missing st s subset) refl e
    where
      go :
          (r : Result (List String))
          → missing st s subset ≡ r
          → (run_todo st c ts s n r).result ≡ some (ok tt)
          → AllStored st (run_todo st c ts s n r).store subset
      go (err x) k e = cc
      go (ok todo) k e =
          All-imp (λ q h. (h.0, h.1)) subset (stage_complete st lawful s c n ts subset todo k e)

  AllStored-moved :
      (s s' : S) (qs : List String)
      → ((q : String) → st.get s' q ≡ st.get s q)
      → AllStored st s qs
      → AllStored st s' qs
  AllStored-moved s s' qs same h = All-imp (λ q k. (k.0, same q ∙ k.1)) qs h

module _ {F S : Type 0} (st : GeneratedStore S) (w : Workers F) (lawful : IsLawfulGenerated st)
    (grouped : Grouped) where
  pub generation-IsLawfulStage : IsLawfulStage (generation st w)
  generation-IsLawfulStage = record {
    get-put = λ q q' a s. lawful.answer-put q q' a s;
    get-flush = λ q s. ap ok (lawful.answer-flush q s);
    work-put = λ q q' a s. refl;
    work-flush = λ q s. refl;
  }

  fact_check-IsLawfulStage : IsLawfulStage (fact_check st w)
  fact_check-IsLawfulStage = record {
    get-put = lawful.berlue-put;
    get-flush = lawful.berlue-flush;
    work-put = λ q q' v s. ap (berlue_verdict st w q') (lawful.answer-berlue q q' v s);
    work-flush = λ q s. ap (berlue_verdict st w q) (lawful.answer-flush q s);
  }

  judge_stage-IsLawfulStage : IsLawfulStage (judge_stage st w grouped)
  judge_stage-IsLawfulStage = record {
    get-put = lawful.judge-put;
    get-flush = lawful.judge-flush;
    work-put = λ q q' v s. ap (judge_verdict st w grouped q') (lawful.answer-judge q q' v s);
    work-flush = λ q s. ap (judge_verdict st w grouped q) (lawful.answer-flush q s);
  }

  then_stage_ok :
      (x : Ending S) (next : S → ℕ → Ending S)
      → (then_stage x next).result ≡ some (ok tt)
      → (x.result ≡ some (ok tt)) × (then_stage x next ≡ next x.store x.n_flushed)
  then_stage_ok x next e = split x.result refl e
    where
      split :
          (o : Option (Result (Unit {0})))
          → x.result ≡ o
          → (then_stage_at x o next).result ≡ some (ok tt)
          → (x.result ≡ some (ok tt)) × (then_stage_at x o next ≡ next x.store x.n_flushed)
      split (some (ok u)) k e = (k, refl)
      split (some (err y)) k e = cc
      split none k e = cc

  -- The three caches hold a value for each of the questions.
  abbrev pub IsFilled : S → List String → Type 0
  IsFilled s qs =
      AllStored (generation st w) s qs
      × AllStored (fact_check st w) s qs
      × AllStored (judge_stage st w grouped) s qs

  module _ (c : ℕ) (candidates : List String) (generating checking judging : List Turn)
      (s : S) where
    flush-IsFilled : (t : S) (qs : List String) → IsFilled t qs → IsFilled (st.flush_registry t) qs
    flush-IsFilled t qs (h, k, l) = (
      AllStored-moved (generation st w) generation-IsLawfulStage t (st.flush_registry t) qs
          (λ q. ap ok (lawful.answer-flush q t)) h,
      AllStored-moved (fact_check st w) fact_check-IsLawfulStage t (st.flush_registry t) qs
          (λ q. lawful.berlue-flush q t) k,
      AllStored-moved (judge_stage st w grouped) judge_stage-IsLawfulStage t (st.flush_registry t)
          qs (λ q. lawful.judge-flush q t) l,
    )

    -- The second stage keeps the answers, and stores Berlue's verdicts.
    fact_check-stored :
        (qs : List String) (t : S) (n : ℕ)
        → let x = run_stage (fact_check st w) c qs checking t n in
          x.result ≡ some (ok tt)
          → AllStored (generation st w) t qs
          → AllStored (generation st w) x.store qs × AllStored (fact_check st w) x.store qs
    fact_check-stored qs t n e h = (
      AllStored-moved (generation st w) generation-IsLawfulStage t
          (run_stage (fact_check st w) c qs checking t n).store qs
          (λ q. ap ok (
            run_stage_apart (fact_check st w) (λ x. st.get_generated_answer x q)
              (λ q' v x. lawful.answer-berlue q' q v x) (λ x. lawful.answer-flush q x) c n qs
              checking t))
          h,
      run_stage-AllStored (fact_check st w) fact_check-IsLawfulStage c n qs checking t e,
    )

    -- The third stage keeps both, and stores the judge's.
    judge_stage-IsFilled :
        (qs : List String) (t : S) (n : ℕ)
        → let x = run_stage (judge_stage st w grouped) c qs judging t n in
          x.result ≡ some (ok tt)
          → AllStored (generation st w) t qs × AllStored (fact_check st w) t qs
          → IsFilled x.store qs
    judge_stage-IsFilled qs t n e (h, k) = (
      AllStored-moved (generation st w) generation-IsLawfulStage t
          (run_stage (judge_stage st w grouped) c qs judging t n).store qs
          (λ q. ap ok (
            run_stage_apart (judge_stage st w grouped) (λ x. st.get_generated_answer x q)
              (λ q' v x. lawful.answer-judge q' q v x) (λ x. lawful.answer-flush q x) c n qs judging
              t))
          h,
      AllStored-moved (fact_check st w) fact_check-IsLawfulStage t
          (run_stage (judge_stage st w grouped) c qs judging t n).store qs
          (λ q.
            run_stage_apart (judge_stage st w grouped) (λ x. st.get_generated_berlue_verdict x q)
              (λ q' v x. lawful.berlue-judge q' q v x) (λ x. lawful.berlue-flush q x) c n qs judging
              t)
          k,
      run_stage-AllStored (judge_stage st w grouped) judge_stage-IsLawfulStage c n qs judging t e,
    )

    -- A run of mode 2 that ends without an exception has stored an answer, Berlue's verdict and the
    -- judge's for each question of its slice that has both kinds of references, in whatever order
    -- the threads of each stage worked.
    pub evaluate_model_generated_complete :
        (evaluate_model_generated st w c grouped candidates generating checking judging s).result
          ≡ some (ok tt)
        → IsFilled
            (evaluate_model_generated st w c grouped candidates generating checking judging s).store
            (valid_questions grouped candidates)
    unfolding evaluate_model_generated
    evaluate_model_generated_complete e =
        let qs = valid_questions grouped candidates in
        let x1 = run_stage (generation st w) c qs generating s 0 in
        let second = run_stage (fact_check st w) c qs checking in
        let third = run_stage (judge_stage st w grouped) c qs judging in
        let (e2, is3) = then_stage_ok (then_stage x1 second) third e in
        let (e1, is2) = then_stage_ok x1 second e2 in
        let y2 = second x1.store x1.n_flushed in
        let y3 = third y2.store y2.n_flushed in
        let same = is3 ∙ ap (λ (x : Ending S). third x.store x.n_flushed) is2 in
        subst (λ (x : Ending S). IsFilled (st.flush_registry x.store) qs) (sym same)
          (flush-IsFilled y3.store qs (
            judge_stage-IsFilled qs y2.store y2.n_flushed
              (sym (ap (λ (x : Ending S). x.result) same) ∙ e)
              (fact_check-stored qs x1.store x1.n_flushed
                (sym (ap (λ (x : Ending S). x.result) is2) ∙ e2)
                (run_stage-AllStored (generation st w) generation-IsLawfulStage c 0 qs generating s
                  e1))))
