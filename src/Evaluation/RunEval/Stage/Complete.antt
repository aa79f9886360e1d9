-- ===== src/Evaluation/RunEval/Stage/Complete.antt =====
-- berlue/evaluation/run_eval.py: what a stage has stored when it ends, or at any time before.
use berlue.Base.{
  ℕ, ◌≡◌, refl, ◌∙◌, ◌⊎◌, inl, inr, String, Option, none, some, List, [], ◌∷◌, map, Result, ok,
  Ensures, Ensures-ok, Ensures-bind, All, nat_eq, string_eq,
}
use mathlib.Core.Path.{subst}
use berlue.Evaluation.RunEval.Stage.{
  Stage, Phase, queued, at_work, unregistered, stored, computed, raised, Job, Desk, Turn,
  outcome_at, outcome, take_turns, if_missing, missing, new_desk,
}
use berlue.Evaluation.RunEval.Stage.Writes.{
  IsLawfulStage, JobOk, Reads, Fits, Inv, questions, take_turns-Inv,
}

module _ {S V : Type 0} (st : Stage S V) (lawful : IsLawfulStage st) (s0 : S) where
  new_jobs : List String → List (Job V)
  new_jobs = map (λ q. record { question = q; phase = queued })

  new_jobs-ids : (todo : List String) → questions st lawful s0 (new_jobs todo) ≡ todo
  unfolding new_jobs
  new_jobs-ids [] = refl
  new_jobs-ids (q ∷ qs) = rw (new_jobs-ids qs)

  new_jobs-Fits :
      (todo : List String)
      → All (λ q. st.get s0 q ≡ ok none) todo
      → All (Fits st lawful s0 s0) (new_jobs todo)
  unfolding new_jobs
  new_jobs-Fits [] h = tt
  new_jobs-Fits (q ∷ qs) h = ((h.0, tt), new_jobs-Fits qs h.1)

  -- A question is on the list, or had a value before.
  if_missing-All :
      (P : String → Type 0) (q : String) (qs rest : List String) (o : Option V)
      → st.get s0 q ≡ ok o
      → ((u : V) → st.get s0 q ≡ ok (some u) → P q)
      → (All P rest → All P qs)
      → All P (if_missing st q o rest)
      → All P (q ∷ qs)
  if_missing-All P q qs rest none e old later h = (h.0, later h.1)
  if_missing-All P q qs rest (some u) e old later h = (old u e, later h)

  missing-All :
      (P : String → Type 0)
      → ((q : String) (u : V) → st.get s0 q ≡ ok (some u) → P q)
      → (qs : List String) → Ensures (λ todo. All P todo → All P qs) (missing st s0 qs)
  unfolding missing
  missing-All P old [] = λ h. tt
  missing-All P old (q ∷ qs) = Ensures-bind _ (st.get s0 q) _ (λ o e.
      Ensures-bind _ (missing st s0 qs) _ (λ rest er.
        if_missing-All P q qs rest o e (old q) (
          Ensures-ok (λ todo. All P todo → All P qs) (missing st s0 qs) (missing-All P old qs) er)))

  if_missing-absent :
      (q : String) (rest : List String) (o : Option V)
      → st.get s0 q ≡ ok o
      → All (λ k. st.get s0 k ≡ ok none) rest
      → All (λ k. st.get s0 k ≡ ok none) (if_missing st q o rest)
  if_missing-absent q rest none e h = (e, h)
  if_missing-absent q rest (some u) e h = h

  missing-absent :
      (qs : List String) → Ensures (All (λ q. st.get s0 q ≡ ok none)) (missing st s0 qs)
  unfolding missing
  missing-absent [] = tt
  missing-absent (q ∷ qs) = Ensures-bind _ (st.get s0 q) _ (λ o e.
      Ensures-bind _ (missing st s0 qs) _ (λ rest er.
        if_missing-absent q rest o e (
          Ensures-ok (All (λ k. st.get s0 k ≡ ok none)) (missing st s0 qs) (missing-absent qs) er)))

  outcome_at-stored :
      (p : Phase V) (rest : Option (Result (Unit {0})))
      → outcome_at p rest ≡ some (ok tt)
      → (p ≡ stored) × (rest ≡ some (ok tt))
  outcome_at-stored stored rest e = (refl, e)
  outcome_at-stored queued rest e = cc
  outcome_at-stored unregistered rest e = cc
  outcome_at-stored at_work rest e = cc
  outcome_at-stored (computed v) rest e = cc
  outcome_at-stored (raised x) rest e = cc

  outcome-stored : (js : List (Job V)) → outcome js ≡ some (ok tt) → All (λ j. j.phase ≡ stored) js
  unfolding outcome
  outcome-stored [] e = tt
  outcome-stored (j ∷ js) e =
      let (here, later) = outcome_at-stored j.phase (outcome js) e in
      (here, outcome-stored js later)

  All-questions :
      (P : String → Type 0) (js : List (Job V))
      → All (λ j. P j.question) js
      → All P (questions st lawful s0 js)
  All-questions P [] h = tt
  All-questions P (j ∷ js) h = (h.0, All-questions P js h.1)

  module _ (c n : ℕ) (turns : List Turn) (subset todo : List String)
      (listed : missing st s0 subset ≡ ok todo) where
    abbrev pub final : Desk S V
    final = take_turns st c turns (new_desk st s0 n todo)

    final-Inv : Inv st lawful s0 todo final
    unfolding new_jobs
    final-Inv = take_turns-Inv st lawful s0 todo c turns (new_desk st s0 n todo) (record {
      ids = new_jobs-ids todo;
      jobs = new_jobs-Fits todo (
          Ensures-ok (All (λ q. st.get s0 q ≡ ok none)) (missing st s0 subset)
            (missing-absent subset) listed);
      reads = λ q. inl refl;
      work = λ q. refl;
    })

    -- A value that stood before the stage stands after it, also where a worker has raised or the
    -- stage has not ended; no other value appears than that of the question's worker.
    pub stage_kept : (q : String) → Reads st lawful s0 final.store q
    stage_kept q = final-Inv.reads q

    -- The question has a value: the one that stood there, or that of its worker on the first store.
    abbrev pub Answered : String → Type 0
    Answered q =
        (v : V) × (st.get final.store q ≡ ok (some v))
        × ((st.get s0 q ≡ ok (some v)) ⊎ ((st.get s0 q ≡ ok none) × (st.work s0 q ≡ ok v)))

    stored-Answered :
        (q : String) (p : Phase V)
        → p ≡ stored
        → (st.get s0 q ≡ ok none) × JobOk st lawful s0 final.store q p
        → Answered q
    stored-Answered q stored e (absent, (v, value, there)) = (v, there, inr (absent, value))
    stored-Answered q queued e h = cc
    stored-Answered q unregistered e h = cc
    stored-Answered q at_work e h = cc
    stored-Answered q (computed v) e h = cc
    stored-Answered q (raised x) e h = cc

    jobs-Answered :
        (js : List (Job V))
        → All (Fits st lawful s0 final.store) js
        → All (λ j. j.phase ≡ stored) js
        → All (λ j. Answered j.question) js
    jobs-Answered [] h k = tt
    jobs-Answered (j ∷ js) h k =
        (stored-Answered j.question j.phase k.0 h.0, jobs-Answered js h.1 k.1)

    old-Answered : (q : String) (u : V) → st.get s0 q ≡ ok (some u) → Answered q
    old-Answered q u e = elim (stage_kept q) [
      | inl same ↦ (u, same ∙ e, inl e)
      | inr (v, absent, _, _) ↦ cc
    ]

    -- A stage that ends without an exception has left a value for each of its questions, in whatever
    -- order its threads worked: the value that stood there, or else what the question's worker
    -- computes from the store that the stage began with.
    pub stage_complete : outcome final.jobs ≡ some (ok tt) → All Answered subset
    stage_complete e =
        Ensures-ok (λ ks. All Answered ks → All Answered subset) (missing st s0 subset)
          (missing-All Answered old-Answered subset) listed
          (subst (All Answered) final-Inv.ids (
            All-questions Answered final.jobs
              (jobs-Answered final.jobs final-Inv.jobs (outcome-stored final.jobs e))))
